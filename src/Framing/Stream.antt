-- ===== src/Framing/Stream.antt =====
-- Any sequence of messages comes out of a stream as it went in.
use nat_data_collector.Prelude.{
  ℕ, zero, suc, ◌^◌, ◌<◌, ◌≡◌, refl, sym, ◌∙◌, ap, true, some, take, drop, List, [], ◌∷◌, ◌++◌,
  arith, length, All, take-append, drop-append, length-append,
}
use mathlib.Core.List.{append_assoc}
use nat_data_collector.Framing.{Read, frame, read, read_all, hand_on, encode_msg_length, stoi}
use nat_data_collector.Framing.Header.{stoi-encode_msg_length}

-- The bytes that a writer puts on the stream for a sequence of messages.
unfoldable pub frames : List (List ℕ) → List ℕ
frames [] = []
frames (m ∷ ms) = frame m ++ frames ms

abbrev pub IsShort : List ℕ → Type 0
IsShort m = length m < 10 ^ 9

read-header :
    (head m rest : List ℕ)
    → length head ≡ 9
    → stoi head ≡ some (length m)
    → read (head ++ (m ++ rest)) ≡ Read.message m rest
unfolding read
read-header head m rest e d =
    let front : take 9 (head ++ (m ++ rest)) ≡ head =
      ap (λ k. take k (head ++ (m ++ rest))) (sym e) ∙ take-append head (m ++ rest) in
    let back : drop 9 (head ++ (m ++ rest)) ≡ m ++ rest =
      ap (λ k. drop k (head ++ (m ++ rest))) (sym e) ∙ drop-append head (m ++ rest) in
    ground (
      arith,
      front,
      back,
      length-append head (m ++ rest),
      length-append m rest,
      take-append m rest,
      drop-append m rest,
    )

pub read-frame : (m rest : List ℕ) → IsShort m → read (frame m ++ rest) ≡ Read.message m rest
unfolding frame
read-frame m rest h =
    let (len, value) = stoi-encode_msg_length (length m) h in
    rw (append_assoc (encode_msg_length (length m)) m rest)
      (read-header (encode_msg_length (length m)) m rest len value)

-- Whatever messages below 10⁹ bytes are written one after another, the reader hands on exactly
-- these in this order, stays on the stream, and leaves no byte over, if its fuel is more than
-- their number.
pub read_all-frames :
    (f : ℕ) (ms : List (List ℕ))
    → length ms < f
    → All IsShort ms
    → read_all f (frames ms) ≡ (ms, [], true)
unfolding read_all frames
read_all-frames zero ms h a = elim h [ ]
read_all-frames (suc f) [] h a = refl
read_all-frames (suc f) (m ∷ ms) h a =
    rw (read-frame m (frames ms) a.0, read_all)
      (ap (hand_on m) (read_all-frames f ms (omega arith) a.1))
