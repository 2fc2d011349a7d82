-- ===== src/Session/Outbox.antt =====
-- The queue of a session against a plain sequence of messages.
use mathlib.Core.List.{append_assoc, append-nil}
use nat_data_collector.Prelude.{
  ℕ, zero, suc, ◌≤◌, ◌<◌, ◌≡◌, refl, sym, ◌∙◌, ap, Bool, true, List, [], ◌∷◌, ◌++◌, arith, length,
  length-append, All, is_empty, not, if◌then◌else◌,
}
use nat_data_collector.Errors.{ErrorCode}
use nat_data_collector.Session.{
  Session, Event, queue, complete, new_session, step, run, popped, has_tcp_error,
}

-- What was given to the session, in its order.
pub queued : List Event → List (List ℕ)
queued [] = []
queued (queue m ∷ es) = m ∷ queued es
queued (complete ec ∷ es) = queued es

-- One transfer at most is under way, and only of a message that still is on the queue.
pub record Inv (s : Session) : Type 0 where
  pub single : s.pending ≤ length s.outbox
  pub one : s.pending ≤ 1

step-Inv : (s : Session) (e : Event) → Inv s → Inv (step s e)
unfolding step
step-Inv s (queue m) v = ground (arith, length-append s.outbox (m ∷ []))
step-Inv s (complete ec) v = ground arith

popped-order : (out sent : List (List ℕ)) → (popped out sent).1 ++ (popped out sent).0 ≡ sent ++ out
popped-order [] sent = refl
popped-order (m ∷ ms) sent = append_assoc sent (m ∷ []) ms

queued-cons : (e : Event) (es : List Event) → queued (e ∷ []) ++ queued es ≡ queued (e ∷ es)
unfolding queued
queued-cons (queue m) es = refl
queued-cons (complete ec) es = refl

step-order :
    (s : Session) (e : Event)
    → (step s e).sent ++ (step s e).outbox ≡ (s.sent ++ s.outbox) ++ queued (e ∷ [])
unfolding step queued
step-order s (queue m) = ground (arith, append_assoc s.sent s.outbox (m ∷ []))
step-order s (complete ec) =
    ground (arith, append-nil (s.sent ++ s.outbox), popped-order s.outbox s.sent)

run-order :
    (s : Session) (es : List Event)
    → (run s es).sent ++ (run s es).outbox ≡ (s.sent ++ s.outbox) ++ queued es
unfolding run queued
run-order s [] = sym (append-nil (s.sent ++ s.outbox))
run-order s (e ∷ es) =
    run-order (step s e) es
    ∙ ap (λ q. q ++ queued es) (step-order s e)
    ∙ append_assoc (s.sent ++ s.outbox) (queued (e ∷ [])) (queued es)
    ∙ ap (◌++◌ (s.sent ++ s.outbox)) (queued-cons e es)

run-Inv : (s : Session) (es : List Event) → Inv s → Inv (run s es)
unfolding run
run-Inv s [] v = v
run-Inv s (e ∷ es) v = run-Inv (step s e) es (step-Inv s e v)

-- After any events, failed transfers included, the messages that the socket took followed by those
-- that still wait are the messages given to the session, in their order; and two transfers are
-- never under way at once, nor one without a message.
pub run_in_order :
    (es : List Event)
    → let s = run new_session es in
      (s.sent ++ s.outbox ≡ queued es) × (s.pending ≤ 1) × (s.pending ≤ length s.outbox)
unfolding new_session
run_in_order es =
    let v = run-Inv new_session es (ground arith) in (run-order new_session es, v.one, v.single)

-- A transfer is under way whenever a message waits.
abbrev pub IsBusy : Session → Type 0
IsBusy s = s.pending ≡ (if is_empty s.outbox then 0 else 1)

abbrev pub is_fine : Event → Bool
is_fine (queue m) = true
is_fine (complete ec) = not (has_tcp_error ec)

step-IsBusy : (s : Session) (e : Event) → is_fine e ≡ true → IsBusy s → IsBusy (step s e)
unfolding step
step-IsBusy s (queue m) f b = ground (arith, length-append s.outbox (m ∷ []))
step-IsBusy s (complete ec) f b = ground arith

pub drain : ℕ → List Event
drain zero = []
drain (suc n) = complete ErrorCode.success ∷ drain n

run-IsBusy :
    (s : Session) (es : List Event) → All (λ e. is_fine e ≡ true) es → IsBusy s → IsBusy (run s es)
unfolding run
run-IsBusy s [] f b = b
run-IsBusy s (e ∷ es) f b = run-IsBusy (step s e) es f.1 (step-IsBusy s e f.0 b)

step-complete :
    (s : Session) (m : List ℕ) (ms : List (List ℕ))
    → s.outbox ≡ m ∷ ms
    → IsBusy s
    → ((step s (complete ErrorCode.success)).outbox ≡ ms)
      × ((step s (complete ErrorCode.success)).sent ≡ s.sent ++ m ∷ [])
      × IsBusy (step s (complete ErrorCode.success))
unfolding step
step-complete s m ms e b = (ground arith, ground arith, ground arith)

run-drain :
    (out : List (List ℕ)) (s : Session)
    → s.outbox ≡ out
    → IsBusy s
    → (run s (drain (length out))).sent ≡ s.sent ++ out
unfolding run drain
run-drain [] s e b = sym (append-nil s.sent)
run-drain (m ∷ ms) s e b =
    let (out, sent, busy) = step-complete s m ms e b in
    run-drain ms (step s (complete ErrorCode.success)) out busy
    ∙ ap (λ q. q ++ ms) sent
    ∙ append_assoc s.sent (m ∷ []) ms

-- If no transfer fails, a transfer is under way whenever a message waits, and so every message
-- that was given to the session is taken by the socket, in order, once the transfers of the
-- messages that still wait have completed.
pub run_drains :
    (es : List Event)
    → All (λ e. is_fine e ≡ true) es
    → let s = run new_session es in IsBusy s × ((run s (drain (length s.outbox))).sent ≡ queued es)
unfolding new_session
run_drains es f =
    let s = run new_session es in
    let busy = run-IsBusy new_session es f refl in
    (busy, run-drain s.outbox s refl busy ∙ (run_in_order es).0)

IsBroken : Session → Type 0
IsBroken s = (s.pending ≡ 0) × (0 < length s.outbox)

step-IsBroken :
    (s : Session) (e : Event) → IsBroken s → IsBroken (step s e) × ((step s e).sent ≡ s.sent)
unfolding step IsBroken
step-IsBroken s (queue m) b = ground (arith, length-append s.outbox (m ∷ []))
step-IsBroken s (complete ec) b = ground arith

run-IsBroken : (s : Session) (es : List Event) → IsBroken s → (run s es).sent ≡ s.sent
unfolding run
run-IsBroken s [] b = refl
run-IsBroken s (e ∷ es) b =
    let (broken, same) = step-IsBroken s e b in run-IsBroken (step s e) es broken ∙ same

-- A transfer that fails ends the session: whatever happens afterwards, nothing more is given to
-- the socket, neither the message whose transfer failed nor a later one.
pub run_after_error :
    (before after : List Event) (ec : ErrorCode)
    → has_tcp_error ec ≡ true
    → (run new_session before).pending ≡ 1
    → (run (step (run new_session before) (complete ec)) after).sent ≡ (run new_session before).sent
unfolding step IsBroken new_session
run_after_error before after ec bad one =
    let s = run new_session before in
    let v = run-Inv new_session before (ground arith) in
    run-IsBroken (step s (complete ec)) after (ground arith) ∙ ground arith
