-- ===== src/Framing.antt =====
-- Messages on a TCP stream: a header of decimals with the length, then the message. The writer is
-- `encodeMsgLength` and `stringToVector` of Shared/Compression.h and `DataPackage::Compress` of
-- Shared/SharedProtocol.h; the readers are `do_read_msg_length` and `do_read_msg` of
-- ServerSource/src/Server/Session.cpp. A byte is a number below 256.
pub mod Header
pub mod Stream
pub mod Package
use nat_data_collector.Prelude.{
  ℕ, zero, suc, ◌+◌, ◌-◌, ◌*◌, ◌/◌, ◌%◌, ◌^◌, Bool, true, false, not, ◌||◌, ◌&&◌, Option, none,
  some, List, [], ◌∷◌, ◌++◌, ltb, leb, ◌==◌, if◌then◌else◌, ◌>>=◌, length, take, drop,
}

-- MAX_MSG_LENGTH_DECIMALS, which CMakeLists.txt sets.
abbrev pub max_msg_length_decimals : ℕ
max_msg_length_decimals = 9

-- `ss << n`: the decimals of a number, the last one first put down. A number needs no more rounds
-- than its value.
pub decimals : ℕ → ℕ → List ℕ → List ℕ
decimals zero n out = out
decimals (suc f) n out =
    let rest = decimals f (n / 10) ((b'0' + n % 10) ∷ out) in
    if ltb n 10 then (b'0' + n % 10) ∷ out else rest

-- `std::setw(w) << std::setfill('0')`: zeros in front up to the width.
pub zeros : ℕ → List ℕ → List ℕ
zeros zero s = s
zeros (suc k) s = b'0' ∷ zeros k s

unfoldable pub encode_msg_length : ℕ → List ℕ
unfolding decimals zeros
encode_msg_length n = let s = decimals (suc n) n [] in zeros (max_msg_length_decimals - length s) s

-- `std::stoi`: white space and a sign may stand in front, and what follows the digits is ignored.
-- `none` is an exception: no digit, or out of the range of int.
abbrev pub is_space : ℕ → Bool
is_space c = c == b' ' || (leb 9 c && leb c 13)

abbrev pub is_digit : ℕ → Bool
is_digit c = leb b'0' c && leb c b'9'

unfoldable pub digits : ℕ → List ℕ → ℕ
digits acc [] = acc
digits acc (c ∷ s) = let rest = digits (acc * 10 + (c - b'0')) s in if is_digit c then rest else acc

abbrev pub leading_digits : List ℕ → Option ℕ
leading_digits [] = none
leading_digits (c ∷ s) = if is_digit c then some (digits 0 (c ∷ s)) else none

unfoldable pub skip_space : List ℕ → List ℕ
skip_space [] = []
skip_space (c ∷ s) = let rest = skip_space s in if is_space c then rest else c ∷ s

-- The result, converted to uint32_t: a negative number wraps around.
abbrev pub as_positive : ℕ → Option ℕ
as_positive n = if ltb n (2 ^ 31) then some n else none

abbrev pub as_negative : ℕ → Option ℕ
as_negative n = if leb n (2 ^ 31) then some ((2 ^ 32 - n) % 2 ^ 32) else none

abbrev pub signed : List ℕ → Option ℕ
signed [] = none
signed (c ∷ s) =
    if c == b'-'
    then leading_digits s >>= as_negative
    else if c == b'+'
    then leading_digits s >>= as_positive
    else leading_digits (c ∷ s) >>= as_positive

unfoldable pub stoi : List ℕ → Option ℕ
unfolding digits skip_space
stoi s = signed (skip_space s)

-- `Compress(true)` puts the header before the message.
unfoldable pub frame : List ℕ → List ℕ
frame message = encode_msg_length (length message) ++ message

-- What a reader makes of the bytes that have arrived: it waits for more, it gives the connection
-- up, or it hands a message on and goes on with the rest.
pub data Read : Type 0 where
  waits : Read
  gives_up : Read
  message : List ℕ → List ℕ → Read

abbrev pub read_body : List ℕ → Option ℕ → Read
read_body rest none = gives_up
read_body rest (some n) = if ltb (length rest) n then waits else message (take n rest) (drop n rest)

-- `do_read_msg_length`, then `do_read_msg`: both transfer exactly the bytes that they ask for.
unfoldable pub read : List ℕ → Read
read bytes =
    if ltb (length bytes) max_msg_length_decimals
    then waits
    else read_body (drop max_msg_length_decimals bytes) (stoi (take max_msg_length_decimals bytes))

-- The messages that a session hands on, in their order, and the bytes that are left, with whether
-- the session still reads. Each message takes at least a header, so the fuel is the bytes' number.
abbrev pub hand_on : List ℕ → List (List ℕ) × List ℕ × Bool → List (List ℕ) × List ℕ × Bool
hand_on m (ms, rest, open_now) = (m ∷ ms, rest, open_now)

unfoldable pub read_all : ℕ → List ℕ → List (List ℕ) × List ℕ × Bool
unfolding read
read_all zero bytes = ([], bytes, true)
read_all (suc f) bytes = elim (read bytes) [
  | waits ↦ ([], bytes, true)
  | gives_up ↦ ([], bytes, false)
  | message m rest ↦ hand_on m (read_all f rest)
]
