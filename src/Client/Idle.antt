-- ===== src/Client/Idle.antt =====
-- A client of AndroidSource/src/Components/NatTraverserClient.cpp without a connection, and the shape of
-- the handlers that use a client: an error that they end with shuts it down.
use nat_data_collector.Prelude.{
  ℕ, String, ◌>>=◌, ◌≡◌, refl, true, false, Option, none, some, Bool-cases, inl, inr, Whenever,
  Whenever-bind, if◌then◌else◌,
}
use nat_data_collector.Errors.{Error, failed}
use nat_data_collector.Protocol.{DataPackage, create_bare, create_data}
use nat_data_collector.Types.{Transaction, MetaDataField}
use nat_data_collector.Client.{Client, Ends, invalid, disconnect}
use nat_data_collector.Json.{Codec}
use nat_data_collector.Data.{Address, Lobby}
use nat_data_collector.Client.Requests.{
  request, add_text, add_number, Formats, server_transaction_async, upload_to_mongo_db_async,
  register_user_async, ask_join_lobby_async, exchange_prediction_async, confirm_lobby_async,
}
use nat_data_collector.Client.Tasks.{
  prepare_collect_task_async, prepare_http_task_async, prepare_traverse_task_async,
  create_timer_async,
}
use nat_data_collector.Client.Publishing.{timer_over}

-- No queue, no flag and no task.
pub record IsIdle (c : Client) : Type 0 where
  pub no_write_queue : c.write_queue ≡ none
  pub no_read_queue : c.read_queue ≡ none
  pub no_flag : c.shutdown_flag ≡ none
  pub no_rw : c.rw_future ≡ invalid
  pub no_analyze : c.analyze_nat_future ≡ invalid
  pub no_traverse : c.traverse_nat_future ≡ invalid
  pub no_http : c.http_future ≡ invalid

pub disconnect-IsIdle : (c : Client) (ends : Ends) → IsIdle (disconnect c ends).1
unfolding disconnect
disconnect-IsIdle c ends = record {
  no_write_queue = refl;
  no_read_queue = refl;
  no_flag = refl;
  no_rw = refl;
  no_analyze = refl;
  no_traverse = refl;
  no_http = refl;
}

-- Without a connection every request and every task is refused.
pub server_transaction_async-idle :
    {J : Type 0} (formats : Formats J) (c : Client) (pkg : DataPackage J)
    → IsIdle c
    → failed (server_transaction_async formats c pkg).0 ≡ true
unfolding server_transaction_async
server_transaction_async-idle formats c pkg idle = rw idle.no_rw refl

pub prepare_collect_task_async-idle :
    (c : Client) → IsIdle c → failed (prepare_collect_task_async c).0 ≡ true
unfolding prepare_collect_task_async
prepare_collect_task_async-idle c idle = rw (idle.no_analyze, idle.no_read_queue) refl

pub prepare_http_task_async-idle :
    (c : Client) → IsIdle c → failed (prepare_http_task_async c).0 ≡ true
unfolding prepare_http_task_async
prepare_http_task_async-idle c idle = rw (idle.no_http, idle.no_read_queue) refl

pub prepare_traverse_task_async-idle :
    (c : Client) → IsIdle c → failed (prepare_traverse_task_async c).0 ≡ true
unfolding prepare_traverse_task_async
prepare_traverse_task_async-idle c idle = rw (idle.no_traverse, idle.no_read_queue) refl

-- The end of a handler: `if (err) Shutdown(DataPackage::Create(err))`.
abbrev pub conclude {ℓ} : {W : Type ℓ} → (Error → W → W) → Option (Error × W) → Option W
conclude shutdown none = none
conclude shutdown (some (err, w)) = some (if failed err then shutdown err w else w)

-- What holds after the handler if it holds after its work without an error, and after a shutdown.
pub conclude-Whenever {ℓ} :
    {W : Type ℓ} (P : W → Type 0) (shutdown : Error → W → W) (m : Option (Error × W))
    → Whenever (λ r. failed r.0 ≡ false → P r.1) m
    → ((err : Error) (w : W) → failed err ≡ true → P (shutdown err w))
    → Whenever P (conclude shutdown m)
conclude-Whenever P shutdown none h stops = tt
conclude-Whenever P shutdown (some (err, w)) h stops = elim (Bool-cases (failed err)) [
  | inl bad ↦ rw bad (stops err w bad)
  | inr fine ↦ rw fine (h fine)
]

-- A timer does not make a connection.
pub timed-IsIdle :
    (c : Client) (now duration : ℕ) → IsIdle c → IsIdle (create_timer_async c now duration)
unfolding create_timer_async
timed-IsIdle c now duration idle = record {
  no_write_queue = idle.no_write_queue;
  no_read_queue = idle.no_read_queue;
  no_flag = idle.no_flag;
  no_rw = idle.no_rw;
  no_analyze = idle.no_analyze;
  no_traverse = idle.no_traverse;
  no_http = idle.no_http;
}

pub stopped-IsIdle : (c : Client) → IsIdle c → IsIdle (timer_over c)
stopped-IsIdle c idle = record {
  no_write_queue = idle.no_write_queue;
  no_read_queue = idle.no_read_queue;
  no_flag = idle.no_flag;
  no_rw = idle.no_rw;
  no_analyze = idle.no_analyze;
  no_traverse = idle.no_traverse;
  no_http = idle.no_http;
}

-- The answer of a request that is refused.
abbrev pub IsRefused : Error × Client → Type 0
IsRefused r = failed r.0 ≡ true

module _ {J : Type 0} (formats : Formats J) (c : Client) (idle : IsIdle c) where
  -- The last step of a request, and one that adds an entry before it.
  abbrev send : DataPackage J → Option (Error × Client)
  send all = some (server_transaction_async formats c all)

  send-refused : (pkg : DataPackage J) → Whenever IsRefused (send pkg)
  send-refused pkg = server_transaction_async-idle formats c pkg idle

  then-refused :
      (m : Option (DataPackage J)) (f : DataPackage J → Option (Error × Client))
      → ((pkg : DataPackage J) → Whenever IsRefused (f pkg))
      → Whenever IsRefused (m >>= f)
  then-refused m f h = Whenever-bind IsRefused m f (λ pkg _. h pkg)

  text-refused :
      (pkg : DataPackage J) (field : MetaDataField) (s : String)
      (f : DataPackage J → Option (Error × Client))
      → ((p : DataPackage J) → Whenever IsRefused (f p))
      → Whenever IsRefused (add_text formats pkg field s >>= f)
  text-refused pkg field s f h = then-refused (add_text formats pkg field s) f h

  number-refused :
      (pkg : DataPackage J) (field : MetaDataField) (n : ℕ)
      (f : DataPackage J → Option (Error × Client))
      → ((p : DataPackage J) → Whenever IsRefused (f p))
      → Whenever IsRefused (add_number formats pkg field n >>= f)
  number-refused pkg field n f h = then-refused (add_number formats pkg field n) f h

  pub upload_to_mongo_db_async-idle :
      {A : Type 0} (codec : Codec J A) (object : A) (db coll users id : String)
      → Whenever IsRefused (upload_to_mongo_db_async formats c codec object db coll users id)
  unfolding upload_to_mongo_db_async
  upload_to_mongo_db_async-idle codec object db coll users id =
      let pkg = create_data formats.wire.json codec object Transaction.server_insert_mongo in
      let with_id =
        λ (r : DataPackage J). add_text formats r MetaDataField.android_id id >>= send in
      let with_users =
        λ (q : DataPackage J). add_text formats q MetaDataField.users_coll_name users >>= with_id in
      let with_coll =
        λ (p : DataPackage J). add_text formats p MetaDataField.coll_name coll >>= with_users in
      text-refused pkg MetaDataField.db_name db with_coll (λ p.
        text-refused p MetaDataField.coll_name coll with_users (λ q.
          text-refused q MetaDataField.users_coll_name users with_id
            (λ r. text-refused r MetaDataField.android_id id send send-refused)))

  pub register_user_async-idle :
      (username : String) → Whenever IsRefused (register_user_async formats c username)
  unfolding register_user_async
  register_user_async-idle username =
      text-refused (create_bare formats.wire.json Transaction.server_create_lobby)
        MetaDataField.username username
        (λ pkg. some (request formats c "Please call connect before registering anything" pkg))
        (λ pkg. rw idle.no_rw refl)

  pub ask_join_lobby_async-idle :
      (join user : ℕ) → Whenever IsRefused (ask_join_lobby_async formats c join user)
  unfolding ask_join_lobby_async
  ask_join_lobby_async-idle join user =
      number-refused (create_bare formats.wire.json Transaction.server_ask_join_lobby)
        MetaDataField.join_session_key join
        (λ p. add_number formats p MetaDataField.user_session_key user >>= send)
        (λ p. number-refused p MetaDataField.user_session_key user send send-refused)

  pub exchange_prediction_async-idle :
      (prediction : Address) (size rate : ℕ)
      → Whenever IsRefused (exchange_prediction_async formats c prediction size rate)
  unfolding exchange_prediction_async
  exchange_prediction_async-idle prediction size rate =
      number-refused
        (create_data formats.wire.json formats.address prediction
          Transaction.server_exchange_prediction)
        MetaDataField.traversal_size size
        (λ p. add_number formats p MetaDataField.traversal_rate rate >>= send)
        (λ p. number-refused p MetaDataField.traversal_rate rate send send-refused)

  pub confirm_lobby_async-idle :
      (lobby : Lobby J) → failed (confirm_lobby_async formats c lobby).0 ≡ true
  unfolding confirm_lobby_async
  confirm_lobby_async-idle lobby = server_transaction_async-idle formats c _ idle
