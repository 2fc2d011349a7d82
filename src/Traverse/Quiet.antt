-- ===== src/Traverse/Quiet.antt =====
-- What every step of AndroidSource/src/Components/GlobTraverse.cpp keeps.
use nat_data_collector.Prelude.{
  ℕ, ◌≡◌, true, false, not, ◌&&◌, ◌==◌, Option, none, some, List, [], ◌∷◌, Whenever, Whenever-bind,
  Whenever-at, Bool-cases, inl, inr, if-both, length,
}
use nat_data_collector.Prelude.OrderedMap.{contains}
use nat_data_collector.Types.{NatType}
use nat_data_collector.Errors.{Error, failed}
use nat_data_collector.Protocol.{DataPackage, MetaVariant}
use nat_data_collector.Data.{IpMetaData, User, Lobby, AllLobbies}
use nat_data_collector.UserData.{validate_username}
use nat_data_collector.Model.{
  Model, GlobalState, TabState, PopUpState, Argument, set_client_meta_data, set_client_nat_type,
  tab_code,
}
use nat_data_collector.Model.Keeps.{
  Keeps, push_pop_up_state-keeps, set_tab_state-keeps, set_next_global_state-keeps,
}
use nat_data_collector.Client.{Client, disconnect}
use nat_data_collector.Client.Requests.{
  server_transaction_async, register_user_async, ask_join_lobby_async, confirm_lobby_async,
}
use nat_data_collector.Client.Tasks.{prepare_collect_task_async, prepare_http_task_async}
use nat_data_collector.Client.Idle.{
  IsIdle, IsRefused, disconnect-IsIdle, server_transaction_async-idle,
  prepare_collect_task_async-idle, prepare_http_task_async-idle, register_user_async-idle,
  confirm_lobby_async-idle,
}
use nat_data_collector.CollectPlan.{CollectingConfig}
use nat_data_collector.Traverse.{
  Step, connected, join_lobby, confirm_lobby, App, Codecs, Surroundings, is_disconnected,
  blank_traverse, set_traverse, set_step, set_client, put_client, shutdown, on_frame_time, connect,
  start_draw, end_draw, joining, join_as, join_at, join, confirm, unless_failed,
  on_join_lobby_accept, ask_server, start_task, on_collection, on_nat_type, on_traceroute,
  on_lobbies, is_joining, confirming, on_confirm_join_lobby,
}

-- In the state DISCONNECTED there is no connection, no task and no queue.
abbrev pub Rests : {J S : Type 0} → App J S → Type 0
Rests a = is_disconnected a.traverse.current ≡ true → IsIdle a.traverse.client

-- A client that has made a request was not idle.
pub request-Rests :
    {J S : Type 0} (w : Model × App J S) (r : Error × Client)
    → Rests w.1
    → (IsIdle w.1.traverse.client → failed r.0 ≡ true)
    → failed r.0 ≡ false
    → Rests (set_client r.1 w).1
request-Rests w r rests refused fine e = absurd (cc (refused (rests e), fine))

-- The work of a handler, as far as it ends without an error.
abbrev pub Done : {J S : Type 0} → Error × (Model × App J S) → Type 0
Done r = failed r.0 ≡ false → Rests r.1.1

module _ {J S : Type 0} (codecs : Codecs J)
    (call : ℕ → Argument J → Model × App J S → Model × App J S) (keeps : Keeps Rests call)
    (env : Surroundings) where
  pub shutdown-Rests : (w : Model × App J S) → Rests (shutdown codecs call env w).1
  unfolding shutdown
  shutdown-Rests (m, a) =
      let c = (disconnect a.traverse.client env.ends).1 in
      set_next_global_state-keeps Rests call keeps GlobalState.idle
        (set_traverse (blank_traverse codecs c) (m, a))
        (λ e. disconnect-IsIdle a.traverse.client env.ends)

  pub ask_server-Done :
      (request : Option (DataPackage J)) (w : Model × App J S)
      → Rests w.1
      → Whenever Done (ask_server codecs call env request w)
  ask_server-Done none w rests = tt
  ask_server-Done (some pkg) w rests =
      request-Rests w (server_transaction_async codecs.formats w.1.traverse.client pkg) rests
        (server_transaction_async-idle codecs.formats w.1.traverse.client pkg)

  pub start_task-Done : (w : Model × App J S) → Rests w.1 → Done (start_task codecs call env w)
  start_task-Done w rests =
      request-Rests w (prepare_collect_task_async w.1.traverse.client) rests
        (prepare_collect_task_async-idle w.1.traverse.client)

  pub on_collection-Done :
      (r : CollectingConfig J × Error) (w : Model × App J S)
      → Rests w.1
      → Done (on_collection codecs call env r w)
  on_collection-Done (config, err) w rests =
      let known = set_traverse (record w.1.traverse { config = config }) w in
      if-both (λ (r : Error × (Model × App J S)). Done r) (failed err) _ _ (λ _. rests)
        (start_task-Done known rests)

  pub on_nat_type-Done :
      (res : MetaVariant J (Unit {0} × NatType)) (w : Model × App J S)
      → Rests w.1
      → Done (on_nat_type codecs call env res w)
  on_nat_type-Done res (m, a) rests =
      if-both (λ (r : Error × (Model × App J S)). Done r) (failed res.error) _ _ (λ _. rests)
        (request-Rests (set_client_nat_type m res.values.1, a)
          (prepare_http_task_async a.traverse.client) rests
          (prepare_http_task_async-idle a.traverse.client))

  pub on_traceroute-Done :
      (r : IpMetaData × Error) (w : Model × App J S)
      → Rests w.1
      → Whenever Done (on_traceroute codecs call env r w)
  on_traceroute-Done (info, err) (m, a) rests =
      if-both (Whenever (λ (r : Error × (Model × App J S)). Done r)) (failed err) _ _ (λ _. rests)
        (Whenever-bind (Done {J = J} {S = S})
          (register_user_async codecs.formats a.traverse.client a.user_data.info.username) _
          (λ r e.
            request-Rests (set_client_meta_data m info, a) r rests
              (λ idle.
                Whenever-at IsRefused _
                  (register_user_async-idle codecs.formats a.traverse.client idle
                    a.user_data.info.username)
                  e)))

  pub on_lobbies-Done :
      (r : AllLobbies J × Error) (w : Model × App J S)
      → Rests w.1
      → Done (on_lobbies codecs call env r w)
  on_lobbies-Done (lobbies, err) w rests =
      if-both (λ (r : Error × (Model × App J S)). Done r) (failed err) _ _ (λ _. rests)
        (if-both (λ (r : Error × (Model × App J S)). Done r)
          (is_joining codecs call env w.1.traverse.current
            && not (contains w.1.traverse.join_info.other_session lobbies))
          _ _ (λ _. shutdown-Rests _) (λ _. rests))

  confirming-Done :
      (joined : List (User J)) (l : Lobby J) (w : Model × App J S)
      → Done (confirming codecs call env joined l w)
  confirming-Done [] l w = λ _. shutdown-Rests w
  confirming-Done (other ∷ others) l w = λ _.
      push_pop_up_state-keeps Rests call keeps PopUpState.join_lobby_pop_up_window _ (λ e. cc e)

  pub on_confirm_join_lobby-Done :
      (r : Lobby J × Error) (w : Model × App J S)
      → Rests w.1
      → Done (on_confirm_join_lobby codecs call env r w)
  on_confirm_join_lobby-Done (l, err) w rests =
      if-both (λ (r : Error × (Model × App J S)). Done r) (failed err) _ _ (λ _. rests)
        (confirming-Done l.joined l _)

  -- The operations that the model asks for.
  pub on_frame_time-Rests :
      (time : ℕ) (w : Model × App J S) → Rests w.1 → Rests (on_frame_time codecs call env time w).1
  unfolding on_frame_time
  on_frame_time-Rests time w rests =
      if-both (λ (u : Model × App J S). Rests u.1) _ _ _ (shutdown-Rests w) rests

  pub start_draw-Rests : (w : Model × App J S) → Rests w.1 → Rests (start_draw codecs call env w).1
  unfolding start_draw
  start_draw-Rests w rests =
      let r = connect codecs call env w in
      if-both (λ (u : Model × App J S). Rests u.1) (failed (validate_username w.1.user_data.info)) _
        _ (shutdown-Rests w)
        (if-both (λ (u : Model × App J S). Rests u.1) (failed r.0) _ _ (shutdown-Rests r.1)
          (set_tab_state-keeps Rests call keeps TabState.traversal (set_step connected r.1)
            (λ e. cc e)))

  pub end_draw-Rests : (w : Model × App J S) → Rests (end_draw codecs call env w).1
  unfolding end_draw
  end_draw-Rests w =
      let u = shutdown codecs call env w in
      if-both (λ (u : Model × App J S). Rests u.1)
        (tab_code u.0.current_tab_state == tab_code TabState.traversal) _ _
        (set_tab_state-keeps Rests call keeps TabState.log u (shutdown-Rests w)) (shutdown-Rests w)

  joining-Rests :
      (session : ℕ) (r : Error × (Model × App J S)) → Rests (joining codecs call env session r).1
  joining-Rests session (err, w) =
      if-both (λ (u : Model × App J S). Rests u.1) (failed err) _ _ (shutdown-Rests w)
        (push_pop_up_state-keeps Rests call keeps PopUpState.join_lobby_pop_up_window
          (set_step join_lobby w) (λ e. cc e))

  join_as-Rests :
      (o : Option ℕ) (session : ℕ) (w : Model × App J S)
      → Whenever (λ u. Rests u.1) (join_as codecs call env o session w)
  join_as-Rests none session w = shutdown-Rests w
  join_as-Rests (some user) session w =
      Whenever-bind (λ (u : Model × App J S). Rests u.1)
        (ask_join_lobby_async codecs.formats w.1.traverse.client session user)
        (λ r. some (joining codecs call env session (put_client r w)))
        (λ r e. joining-Rests session (put_client r w))

  join_at-Rests :
      (s : Step) (session : ℕ) (w : Model × App J S)
      → Rests w.1
      → Whenever (λ u. Rests u.1) (join_at codecs call env s session w)
  join_at-Rests connected session w rests = join_as-Rests _ session w
  join_at-Rests _ session w rests = rests

  pub join-Rests :
      (session : ℕ) (w : Model × App J S)
      → Rests w.1
      → Whenever (λ u. Rests u.1) (join codecs call env session w)
  unfolding join
  join-Rests session w rests = join_at-Rests w.1.traverse.current session w rests

  pub unless_failed-Rests :
      (r : Error × (Model × App J S)) → Done r → Rests (unless_failed codecs call env r).1
  unless_failed-Rests (err, w) done = elim (Bool-cases (failed err)) [
    | inl bad ↦ rw bad (shutdown-Rests w)
    | inr fine ↦ rw fine (done fine)
  ]

  pub confirm-Done :
      (l : Lobby J) (w : Model × App J S) → Rests w.1 → Done (confirm codecs call env l w)
  confirm-Done l w rests =
      request-Rests w (confirm_lobby_async codecs.formats w.1.traverse.client l) rests
        (λ idle. confirm_lobby_async-idle codecs.formats w.1.traverse.client idle l)

  pub on_join_lobby_accept-Rests :
      (l : Lobby J) (w : Model × App J S) → Rests (on_join_lobby_accept codecs call env l w).1
  unfolding on_join_lobby_accept
  on_join_lobby_accept-Rests l w =
      if-both (λ (u : Model × App J S). Rests u.1) (not (length l.joined == 1)) _ _
        (shutdown-Rests w)
        (unless_failed-Rests (confirm codecs call env l (set_step confirm_lobby w))
          (confirm-Done l (set_step confirm_lobby w) (λ e. cc e)))
