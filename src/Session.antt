-- ===== src/Session.antt =====
-- The writing side of a connection: `Session::write`, `do_write` and `do_write_loop` of
-- ServerSource/src/Server/Session.cpp. All of them run on the strand of the session's socket, so
-- they are steps one after another. An `async_write` that was started is `pending` until its
-- handler is called; `sent` is what the socket took, in its order.
pub mod Outbox
use nat_data_collector.Prelude.{
  ℕ, zero, suc, ◌+◌, ◌-◌, Bool, true, false, not, List, [], ◌∷◌, ◌++◌, ◌==◌, if◌then◌else◌, length,
}
use nat_data_collector.Errors.{ErrorCode}

pub record Session : Type 0 where
  pub outbox : List (List ℕ)
  pub pending : ℕ
  pub sent : List (List ℕ)

-- A session after `start()`.
unfoldable pub new_session : Session
new_session = record { outbox = []; pending = 0; sent = [] }

-- `HasTCPError`.
unfoldable pub has_tcp_error : ErrorCode → Bool
has_tcp_error ErrorCode.success = false
has_tcp_error ErrorCode.eof = true
has_tcp_error _ = true

-- `do_write_loop` starts the transfer of the front of the queue.
abbrev pub started : List (List ℕ) → ℕ → ℕ
started [] pending = pending
started (m ∷ ms) pending = pending + 1

unfoldable pub do_write_loop : Session → Session
do_write_loop s = record s { pending = started s.outbox s.pending }

-- `do_write`: only a message that finds the queue empty starts a transfer.
unfoldable pub do_write : Session → List ℕ → Session
unfolding do_write_loop
do_write s message =
    let t = record s { outbox = s.outbox ++ message ∷ [] } in
    if length t.outbox == 1 then do_write_loop t else t

-- The handler of the `async_write` that `do_write_loop` started: the front goes off the queue, and
-- the next transfer starts; after an error it does neither.
abbrev pub popped : List (List ℕ) → List (List ℕ) → List (List ℕ) × List (List ℕ)
popped [] sent = ([], sent)
popped (m ∷ ms) sent = (ms, sent ++ m ∷ [])

unfoldable pub on_written : Session → ErrorCode → Session
unfolding do_write_loop has_tcp_error
on_written s ec =
    let t = record s { pending = s.pending - 1 } in
    if has_tcp_error ec
    then t
    else let (rest, sent) = popped s.outbox s.sent in
      do_write_loop (record t { outbox = rest; sent = sent })

pub data Event : Type 0 where
  queue : List ℕ → Event
  complete : ErrorCode → Event

-- A handler is called only for a transfer that was started.
unfoldable pub step : Session → Event → Session
unfolding do_write on_written
step s (queue message) = do_write s message
step s (complete ec) = if s.pending == 0 then s else on_written s ec

unfoldable pub run : Session → List Event → Session
unfolding step
run s [] = s
run s (e ∷ es) = run (step s e) es
