-- ===== src/TraversalUpload/Kept.antt =====
-- What the handler SERVER_UPLOAD_TRAVERSAL_RESULT keeps of the lobbies, and what it makes of a
-- lobby's result.
use nat_data_collector.Prelude.{
  ℕ, String, Bool, some, List, [], ◌∷◌, Bool-cases, Option-cases, inl, inr, After, After-bind,
  ◌>>=◌,
}
use nat_data_collector.Prelude.OrderedMap.{find_if, find_if-All}
use nat_data_collector.Errors.{Error, failed}
use nat_data_collector.Types.{MetaDataField, Transaction}
use nat_data_collector.Protocol.{DataPackage, MetaVariant, get, start_object, create_data}
use nat_data_collector.Data.{User, Lobby, TraversalClient}
use nat_data_collector.Database.{Mongo}
use nat_data_collector.Server.{Server, Libs, add_lobby, send_session}
use nat_data_collector.Server.Lobbies.{JoinedIsValid, EntryIsValid}
use nat_data_collector.System.{System}
use nat_data_collector.LobbyRequests.{has_member}
use nat_data_collector.LobbyRequests.Kept.{IsKept}
use nat_data_collector.TraversalUpload.{
  Upload, both_connected, stored, told, store_result, with_result, upload_pair, upload_in,
  upload_with, upload_traversal_result, upload_of,
}

module _ {J D : Type 0} (lib : Libs J) (mongo : Mongo D) (P : Server J → Type 0)
    (kept : IsKept lib P) where
  abbrev HasKept : System J D → Type 0
  HasKept t = P t.server

  told-P :
      (s : Server J) (owner joined : ℕ) (r : D × Error) → P s → P (told lib s owner joined r).server
  told-P s owner joined r v =
      kept.sent (send_session lib s _ owner) _ joined (kept.sent s _ owner v)

  store_result-P :
      (t : System J D) (l : Lobby J) (joined : User J) (db coll : String)
      → P t.server
      → P (store_result lib mongo t l joined db coll).server
  store_result-P t l joined db coll p = elim (Bool-cases (both_connected l.result)) [
    | inl e ↦
        let pkg = create_data lib.json lib.traversal_result l.result Transaction.no_transaction in
        rw e (
          told-P t.server l.owner.session joined.session (stored lib mongo t.database pkg db coll)
            p)
    | inr e ↦ rw e p
  ]

  upload_pair-P :
      (t : System J D) (hash : ℕ) (l : Lobby J) (joined : User J) (v : Upload)
      → JoinedIsValid l.owner.session l.joined
      → P t.server
      → P (upload_pair lib mongo t hash l joined v).0.server
  upload_pair-P t hash l joined v j valid =
      let m = with_result l hash v in
      store_result-P (record t { server = add_lobby t.server m }) m joined v.db v.coll
        (kept.added t.server m j valid)

  upload_in-P :
      (t : System J D) (hash : ℕ) (l : Lobby J) (joined : List (User J)) (v : Upload)
      → JoinedIsValid l.owner.session l.joined
      → HasKept t
      → HasKept (upload_in lib mongo t hash l joined v).0
  upload_in-P t hash l [] v j valid = valid
  upload_in-P t hash l (u ∷ []) v j valid = upload_pair-P t hash l u v j valid
  upload_in-P t hash l (u ∷ w ∷ us) v j valid = valid

  upload_with-P :
      (t : System J D) (hash : ℕ)
      (v : MetaVariant J (((((Unit {0} × TraversalClient) × Bool) × String) × String) × String))
      → HasKept t
      → HasKept (upload_with lib mongo t hash v).0
  upload_with-P t hash v valid = elim (Bool-cases (failed v.error)) [
    | inl e ↦ rw e valid
    | inr e ↦ elim (Option-cases (find_if (has_member hash) t.server.lobbies)) [
      | inl none_found ↦ rw (e, none_found) valid
      | inr (x, found) ↦
          let (entry, _) =
            find_if-All EntryIsValid (has_member hash) x t.server.lobbies
              (kept.entries t.server valid) found in
          rw (e, found) (upload_in-P t hash x.1 x.1.joined (upload_of v.values) entry.1 valid)
    ]
  ]

  pub upload_traversal_result-After :
      (t : System J D) (pkg : DataPackage J) (hash : ℕ)
      → HasKept t
      → After HasKept (upload_traversal_result lib mongo t pkg hash)
  unfolding upload_traversal_result
  upload_traversal_result-After t pkg hash valid =
      After-bind HasKept
        (get lib.json lib.flag (start_object lib.traversal_client pkg) MetaDataField.success)
        (λ a. get lib.json lib.text a MetaDataField.db_name >>= λ b.
          get lib.json lib.text b MetaDataField.coll_name >>= λ c.
          get lib.json lib.text c MetaDataField.users_coll_name >>= λ v.
          some (upload_with lib mongo t hash v))
        λ a.
          After-bind HasKept (get lib.json lib.text a MetaDataField.db_name)
            (λ b. get lib.json lib.text b MetaDataField.coll_name >>= λ c.
              get lib.json lib.text c MetaDataField.users_coll_name >>= λ v.
              some (upload_with lib mongo t hash v))
            λ b.
              After-bind HasKept (get lib.json lib.text b MetaDataField.coll_name)
                (λ c. get lib.json lib.text c MetaDataField.users_coll_name >>= λ v.
                  some (upload_with lib mongo t hash v))
                λ c.
                  After-bind HasKept (get lib.json lib.text c MetaDataField.users_coll_name)
                    (λ v. some (upload_with lib mongo t hash v)) λ v. upload_with-P t hash v valid
