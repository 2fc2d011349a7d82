-- ===== src/Client/Connection.antt =====
-- The reading and writing of the connection in AndroidSource/src/Components/NatTraverserClient.cpp: each
-- completion of an asio operation, and each round of the timer of `write_loop`, is a step.
pub mod Overlap
use nat_data_collector.Prelude.{
  ℕ, String, Bool, true, false, not, Option, none, some, List, [], ◌∷◌, ◌++◌, length, ◌==◌,
  if◌then◌else◌,
}
use nat_data_collector.Types.{ErrorType}
use nat_data_collector.Errors.{Error, ErrorCode, from_asio, failed}
use nat_data_collector.Framing.{stoi, max_msg_length_decimals}
use nat_data_collector.Framing.Package.{Wire}
use nat_data_collector.Client.{Queue, push, try_pop, push_error}

-- What the connection waits for: the header of a message, the bytes of one, or what is thrown away
-- after a header that is no number; or nothing any more.
pub data Reading : Type 0 where
  reads_length : Reading
  reads_message : ℕ → Reading
  discards : Reading
  ends : Reading

-- The queues that the connection shares with the client, the writes that are under way, the oldest
-- first, what is read, and whether the io context was stopped.
pub record Connection : Type 0 where
  pub write_queue : Queue
  pub read_queue : Queue
  pub in_flight : List (List ℕ)
  pub reading : Reading
  pub stopped : Bool

abbrev pub start_write : Connection → Option (List ℕ × Queue) → Connection
start_write c none = c
start_write c (some (buf, q)) = record c { write_queue = q; in_flight = c.in_flight ++ buf ∷ [] }

-- `async_write_msg`.
unfoldable pub async_write_msg : Connection → Connection
async_write_msg c = start_write c (try_pop c.write_queue)

-- A round of `write_loop`: the timer fires and is set again; `shutdown` is the flag.
unfoldable pub write_loop : Bool → Connection → Connection
unfolding async_write_msg
write_loop shutdown c =
    let d = async_write_msg c in if shutdown then record d { stopped = true } else d

module _ {J : Type 0} (wire : Wire J) where
  abbrev pub complain : Connection → Error → Connection
  complain c err = record c { read_queue = push_error wire c.read_queue err }

  abbrev pub finish_write : Connection → ErrorCode → String → Connection
  finish_write c ec message =
      let error = from_asio ec message "Write message" in
      if failed error then complain c error else async_write_msg c

  -- The completion of the oldest write.
  unfoldable pub on_written : Connection → ErrorCode → String → Connection
  unfolding push_error from_asio async_write_msg
  on_written c ec message = elim c.in_flight [
    | [] ↦ c
    | buf ∷ rest ↦ finish_write (record c { in_flight = rest }) ec message
  ]

  abbrev pub invalid_length : String → Error
  invalid_length message = record { error = ErrorType.warning; messages = message ∷ [] }

  abbrev pub next_length : Connection → Option ℕ → Connection
  next_length c none = record c { reading = Reading.discards }
  next_length c (some n) = record c { reading = Reading.reads_message n }

  abbrev pub on_length : Connection → ErrorCode → String → List ℕ → Connection
  on_length c ec message buf =
      let error = from_asio ec message "Read length of server answer" in
      if failed error
      then record (complain c error) { reading = Reading.ends }
      else if not (length buf == max_msg_length_decimals)
      then record (complain c
          (invalid_length "Received invalid message length when reading msg length")) {
            reading = Reading.reads_length;
          }
      else next_length c (stoi buf)

  abbrev pub on_message : Connection → ℕ → ErrorCode → String → List ℕ → Connection
  on_message c msg_len ec message buf =
      let error = from_asio ec message "Read server answer" in
      if failed error
      then record (complain c error) { reading = Reading.ends }
      else if not (length buf == msg_len)
      then record (complain c
          (invalid_length "Received invalid message length when reading message")) {
            reading = Reading.reads_length;
          }
      else record c { read_queue = push c.read_queue buf; reading = Reading.reads_length }

  -- The completion of a read: `async_read_msg_length` or `async_read_msg`, or the read that throws
  -- bytes away, after which the header is read again whatever it ends with.
  unfoldable pub on_read : Connection → ErrorCode → String → List ℕ → Connection
  unfolding push_error from_asio stoi
  on_read c ec message buf = elim c.reading [
    | reads_length ↦ on_length c ec message buf
    | reads_message msg_len ↦ on_message c msg_len ec message buf
    | discards ↦ record c { reading = Reading.reads_length }
    | ends ↦ c
  ]
