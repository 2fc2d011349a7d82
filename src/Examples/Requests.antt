-- ===== src/Examples/Requests.antt =====
-- Requests to a server with two clients.
use mathlib.Core.List.{Perm}
use nat_data_collector.Prelude.{
  ◌||◌, All, List, length, ℕ, ◌≡◌, ◌⊎◌, ◌↔◌, ◌∷◌, ◌++◌, [], refl, true, false, some, none, is_some,
  Option, arith,
}
use nat_data_collector.Prelude.OrderedMap.{find, find_if}
use nat_data_collector.Types.{Transaction, transaction_code, ConnectionType, meta_data_to_string}
use nat_data_collector.Errors.{no_error}
use nat_data_collector.Protocol.{DataPackage, create_bare, create_data, empty_package, get_object}
use nat_data_collector.TraversalUpload.{Upload}
use nat_data_collector.TraversalUpload.Results.{uploaded, lobby_with, database_after, uploads_lem}
use nat_data_collector.Data.{User, TraversalResult, blank_traversal_client, lobby}
use nat_data_collector.Server.{Server, accept, remove_expired_sessions}
use nat_data_collector.Server.Sessions.{IsConnected, live_only, remove_expired_sessions_lem}
use nat_data_collector.Server.Members.{
  remove_member, joined_count, IsMember, IsNoMember, remove_member_keeps_count,
}
use nat_data_collector.System.{System}
use nat_data_collector.LobbyRequests.{exchange_prediction, confirm_lobby, has_member}
use nat_data_collector.LobbyRequests.Exchange.{
  ArePaired, sent_to_both, given, exchange_prediction_lem,
}
use nat_data_collector.LobbyRequests.Confirm.{Confirms, confirm_lobby_lem}
use nat_data_collector.Transactions.{handle}
use nat_data_collector.Transactions.Steps.{Step, Reach, new_server, new_system}
use nat_data_collector.Transactions.Reachable.{IsSound, reachable-IsSound}
use nat_data_collector.Transactions.Posts.{IsAnswered, handle_lem}
use nat_data_collector.Transactions.Rejected.{IsRefused, rejected_lem}
use nat_data_collector.Transactions.Returns.{IsReadable, IsInLiteral, handle-is_some}
use nat_data_collector.Examples.{
  Doc, doc_json, doc_contains, doc_text, texts, doc_libs, counting, waiting, together, meeting, ada,
  bob, create_request,
}

abbrev sent_package : ℕ → DataPackage Doc
unfolding create_bare
sent_package n = record (create_bare doc_json Transaction.server_exchange_prediction) {
  content = Doc.number n;
}

paired : ArePaired together ada bob
unfolding find_if has_member
paired = record {
  result = meeting.result;
  differ = ground arith;
  owner_finds = refl;
  joined_finds = refl;
}

exchange_prediction_lem_example :
    let p = sent_package 1 in
    let q = sent_package 2 in
    let first = (exchange_prediction doc_libs together p 3).0 in
    let second = (exchange_prediction doc_libs first q 5).0 in
    let other_first = (exchange_prediction doc_libs together q 5).0 in
    let other_second = (exchange_prediction doc_libs other_first p 3).0 in
    (first.posts ≡ [])
    × (second.posts ≡ [] ++ sent_to_both doc_libs q 3 p 5)
    × (find 3 second.lobbies ≡ some (lobby (given ada q) (given bob p ∷ [])))
    × (other_first.posts ≡ [])
    × (other_second.posts ≡ [] ++ sent_to_both doc_libs q 3 p 5)
    × (find 3 other_second.lobbies ≡ some (lobby (given ada q) (given bob p ∷ [])))
unfolding sent_package create_bare empty_package
exchange_prediction_lem_example =
    exchange_prediction_lem doc_libs together ada bob (sent_package 1) (sent_package 2) paired refl
      refl refl refl

-- The two share a lobby once one of them confirms.
abbrev confirmation : DataPackage Doc
unfolding create_data
confirmation = create_data doc_json doc_libs.lobby_codec meeting Transaction.server_confirm_lobby

confirm_lobby_lem_example :
    (r : Server Doc × DataPackage Doc) × (confirm_lobby doc_libs waiting confirmation 3 ≡ some r)
    × Confirms doc_libs waiting ada bob r
unfolding confirmation create_data get_object
confirm_lobby_lem_example =
    confirm_lobby_lem doc_libs waiting confirmation 3 meeting bob no_error refl refl refl

abbrev system : System Doc ℕ
system = record { server = waiting; database = 0 }

waiting-IsSound : IsSound waiting
waiting-IsSound = record {
  sessions = ground arith;
  lobbies = record { sorted = ground arith; entries = ((refl, tt), ((refl, tt), tt)) };
}

-- The request has a user name, which is a text, and every collection has a document.
create_request-IsReadable : IsReadable doc_libs counting create_request 0
unfolding create_request doc_json texts create_bare doc_contains doc_text meta_data_to_string
create_request-IsReadable = record {
  texts = λ f h k e c. ground arith;
  user_key = λ k e c.
      let no : doc_contains create_request.meta_data "user_session_key" ≡ false = refl in
      cc (e, c, no);
  join_key = λ k e c.
      let no : doc_contains create_request.meta_data "join_session_key" ≡ false = refl in
      cc (e, c, no);
  success = λ k e c.
      let no : doc_contains create_request.meta_data "success" ≡ false = refl in cc (e, c, no);
  documents = λ db coll n e. cc e;
}

create_request-IsInLiteral : IsInLiteral doc_libs counting create_request.transaction
unfolding transaction_code create_request
create_request-IsInLiteral = refl

handle-is_some_example : is_some (handle doc_libs counting system create_request 3) ≡ true
handle-is_some_example =
    handle-is_some doc_libs counting system create_request 3 create_request-IsReadable
      create_request-IsInLiteral

abbrev or_stay : {A : Type 0} → A → Option A → A
or_stay a none = a
or_stay a (some b) = b

some-or_stay : {A : Type 0} (a : A) (o : Option A) → is_some o ≡ true → o ≡ some (or_stay a o)
some-or_stay a none h = cc h
some-or_stay a (some b) h = refl

abbrev served : System Doc ℕ
served = or_stay system (handle doc_libs counting system create_request 3)

handle_lem_example : IsAnswered doc_libs counting system served create_request 3
handle_lem_example =
    handle_lem doc_libs counting system served create_request 3 waiting-IsSound (
      some-or_stay system (handle doc_libs counting system create_request 3) handle-is_some_example)

-- A client connects and creates a lobby.
abbrev joined_system : System Doc ℕ
unfolding accept
joined_system = record { server = accept new_server 3; database = 0 }

joined_system-is_some : is_some (handle doc_libs counting joined_system create_request 3) ≡ true
unfolding joined_system
joined_system-is_some =
    handle-is_some doc_libs counting joined_system create_request 3 create_request-IsReadable
      create_request-IsInLiteral

abbrev created_system : System Doc ℕ
unfolding joined_system
created_system = or_stay joined_system (handle doc_libs counting joined_system create_request 3)

Reach-created_system : Reach doc_libs counting (new_system 0) created_system
unfolding joined_system
Reach-created_system =
    Reach.go (new_system 0) joined_system created_system
      (Reach.go (new_system 0) (new_system 0) joined_system (Reach.stay (new_system 0))
        (Step.accepted (new_system 0) 3))
      (Step.requested joined_system created_system create_request 3 (
        some-or_stay joined_system (handle doc_libs counting joined_system create_request 3)
          joined_system-is_some))

reachable-IsSound_example : IsSound created_system.server
reachable-IsSound_example =
    reachable-IsSound doc_libs counting 0 created_system Reach-created_system

abbrev old_request : DataPackage Doc
unfolding create_request
old_request = record create_request { version = "v0.0.9" }

rejected_lem_example :
    (u : System Doc ℕ) × (handle doc_libs counting system old_request 3 ≡ some u)
    × IsRefused doc_libs system u 3
unfolding old_request create_request create_bare
rejected_lem_example = rejected_lem doc_libs counting system old_request 3 refl

remove_member_keeps_count_example :
    let t = remove_member (λ n. bob) together ada (bob ∷ []) in
    (joined_count (find 3 t.lobbies) ≡ joined_count (find 3 together.lobbies))
    × ((front : List (User Doc)) × (gone : List (User Doc)) × (rest : List (User Doc)) × (find 3
            t.lobbies
          ≡ some (record meeting { joined = front ++ rest }))
        × Perm (front ++ gone) meeting.joined
        × All (IsNoMember (bob ∷ [])) front
        × All (IsMember (bob ∷ [])) gone
        × (length rest ≡ length gone))
unfolding find
remove_member_keeps_count_example =
    remove_member_keeps_count (λ n. bob) together ada (bob ∷ []) meeting 3 refl

-- One of the two clients is gone.
abbrev left : Server Doc
left = record together { sessions = (3, true) ∷ (5, false) ∷ [] }

remove_expired_sessions_lem_example :
    let t = remove_expired_sessions doc_libs left in
    (find 3 t.sessions ≡ live_only (find 3 left.sessions))
    × ((All (λ x. x.1 ≡ true) left.sessions × (t ≡ left))
        ⊎ (¬ (All (λ x. x.1 ≡ true) left.sessions)
            × ((find 3 t.lobbies ≡ some meeting)
                ↔ ((find 3 left.lobbies ≡ some meeting) × IsConnected t.sessions (3, meeting)))))
remove_expired_sessions_lem_example =
    remove_expired_sessions_lem doc_libs left 3 meeting (ground arith) (ground arith)

abbrev found_upload : Upload
found_upload = record {
  client = record blank_traversal_client { connection_type = ConnectionType.wifi };
  success = true;
  db = "nat";
  coll = "results";
  users = "users";
}

abbrev lost_upload : Upload
lost_upload = record found_upload { success = false }

abbrev both_there : System Doc ℕ
both_there = record { server = together; database = 0 }

uploads_lem_example :
    let last =
      uploaded doc_libs counting
        (uploaded doc_libs counting both_there 3 found_upload)
        5
        lost_upload in
    let other_last =
      uploaded doc_libs counting
        (uploaded doc_libs counting both_there 5 lost_upload)
        3
        found_upload in
    let first : TraversalResult = record paired.result {
      success = paired.result.success || true;
      client_punch_hole = found_upload.client;
    } in
    let other_first : TraversalResult = record paired.result {
      success = paired.result.success || false;
      client_target_hole = lost_upload.client;
    } in
    let both : TraversalResult = record paired.result {
      success = paired.result.success || true || false;
      client_punch_hole = found_upload.client;
      client_target_hole = lost_upload.client;
    } in
    (find 3 last.server.lobbies ≡ some (lobby_with doc_libs counting ada bob both))
    × (find 3 other_last.server.lobbies ≡ some (lobby_with doc_libs counting ada bob both))
    × (last.database
        ≡ database_after doc_libs counting
            (database_after doc_libs counting 0 first found_upload)
            both
            lost_upload)
    × (other_last.database
        ≡ database_after doc_libs counting
            (database_after doc_libs counting 0 other_first lost_upload)
            both
            found_upload)
uploads_lem_example =
    uploads_lem doc_libs counting both_there ada bob found_upload lost_upload paired
