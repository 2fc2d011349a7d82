-- ===== src/UserGuidance/Quiet.antt =====
-- What every step of AndroidSource/src/Components/GlobUserGuidance.cpp keeps.
use nat_data_collector.Prelude.{
  ℕ, String, ◌≡◌, Bool, true, false, not, ◌&&◌, Option, none, some, List, [], ◌∷◌, Whenever,
  Whenever-bind, Whenever-step, is_empty, if-both,
}
use text.Mathlib.Text.{◌==◌ as str_eq}
use nat_data_collector.Types.{Transaction, NatType}
use nat_data_collector.Errors.{Error, failed}
use nat_data_collector.Protocol.{DataPackage, MetaVariant}
use nat_data_collector.Data.{VersionUpdate, InformationUpdate, IpMetaData}
use nat_data_collector.AppConfig.{Asset}
use nat_data_collector.Model.{set_client_meta_data, Model, PopUpState, Argument}
use nat_data_collector.Model.Keeps.{Keeps, push_pop_up_state-keeps, try_switch_glob_state-keeps}
use nat_data_collector.Client.{Client, Ends, connect_async}
use nat_data_collector.Client.Requests.{server_transaction_async}
use nat_data_collector.Client.Tasks.{prepare_collect_task_async, prepare_http_task_async}
use nat_data_collector.Client.Publishing.{marked}
use nat_data_collector.Client.Idle.{
  IsIdle, disconnect-IsIdle, server_transaction_async-idle, prepare_collect_task_async-idle,
  prepare_http_task_async-idle, conclude-Whenever,
}
use nat_data_collector.UserGuidance.{
  Step, disconnected, connected_no_interrupt, wait_for_ui, UserGuidance, App, Codecs, set_client,
  shutdown, recalc_at, start_at, notify_if, ask_server, on_version, on_information, on_traceroute,
  on_nat_type, on_transaction, on_nat_client_event, on_published, on_packages, after_update,
  update_glob_state, set_guidance,
}

abbrev pub is_disconnected : Step → Bool
is_disconnected disconnected = true
is_disconnected _ = false

-- In the state DISCONNECTED there is no connection, no task and no queue.
abbrev pub IsQuiet : UserGuidance → Type 0
IsQuiet g = is_disconnected g.current ≡ true → IsIdle g.client

-- The same of the whole state.
abbrev pub Rests : {S : Type 0} → App S → Type 0
Rests a = IsQuiet a.guidance

shutdown-Rests : {S : Type 0} (ends : Ends) (w : Model × App S) → Rests (shutdown ends w).1
unfolding shutdown
shutdown-Rests ends w e = disconnect-IsIdle w.1.guidance.client ends

-- A client that has made a request was not idle.
request-Rests :
    {S : Type 0} (w : Model × App S) (r : Error × Client)
    → Rests w.1
    → (IsIdle w.1.guidance.client → failed r.0 ≡ true)
    → failed r.0 ≡ false
    → Rests (set_client r.1 w).1
request-Rests w r rests refused fine e = absurd (cc (refused (rests e), fine))

module _ {J S : Type 0} (codecs : Codecs J) (call : ℕ → Argument J → Model × App S → Model × App S)
    (keeps : Keeps Rests call) (ends : Ends) where
  ask_server-Rests :
      (request : Option (DataPackage J)) (w : Model × App S)
      → Rests w.1
      → Whenever (λ r. failed r.0 ≡ false → Rests r.1.1) (ask_server codecs call ends request w)
  ask_server-Rests none w rests = tt
  ask_server-Rests (some pkg) w rests =
      request-Rests w (server_transaction_async codecs.formats w.1.guidance.client pkg) rests
        (server_transaction_async-idle codecs.formats w.1.guidance.client pkg)

  notify_if-Rests :
      (b : Bool) (p : PopUpState) (w : Model × App S)
      → Rests w.1
      → Rests (notify_if codecs call ends b p w).1
  notify_if-Rests true p w rests = push_pop_up_state-keeps Rests call keeps p w rests
  notify_if-Rests false p w rests = rests

  on_version-Rests :
      (r : VersionUpdate × Error) (w : Model × App S)
      → Rests w.1
      → Whenever (λ r. failed r.0 ≡ false → Rests r.1.1) (on_version codecs call ends r w)
  on_version-Rests (info, err) w rests =
      if-both (Whenever (λ (r : Error × (Model × App S)). failed r.0 ≡ false → Rests r.1.1))
        (failed err) _ _ (λ _. rests) (ask_server-Rests _ _ (notify_if-Rests _ _ _ rests))

  on_information-Rests :
      (r : InformationUpdate × Error) (w : Model × App S)
      → Rests w.1
      → Whenever (λ r. failed r.0 ≡ false → Rests r.1.1) (on_information codecs call ends r w)
  on_information-Rests (info, err) w rests =
      let known = set_guidance (record w.1.guidance { information_update_info = info }) w in
      let fresh =
        not (str_eq info.identifier "")
        && not (str_eq w.1.user_data.info.information_identifier info.identifier) in
      let shown = notify_if codecs call ends fresh PopUpState.information_update_window known in
      if-both (Whenever (λ (r : Error × (Model × App S)). failed r.0 ≡ false → Rests r.1.1))
        (failed err) _ _ (λ _. rests)
        (request-Rests shown (prepare_http_task_async shown.1.guidance.client)
          (notify_if-Rests fresh PopUpState.information_update_window known rests)
          (prepare_http_task_async-idle shown.1.guidance.client))

  on_traceroute-Rests :
      (r : IpMetaData × Error) (w : Model × App S)
      → Rests w.1
      → Whenever (λ r. failed r.0 ≡ false → Rests r.1.1) (on_traceroute codecs call ends r w)
  on_traceroute-Rests (info, err) (m, a) rests =
      if-both (Whenever (λ (r : Error × (Model × App S)). failed r.0 ≡ false → Rests r.1.1))
        (failed err) _ _ (λ _. rests)
        (request-Rests (set_client_meta_data m info, a)
          (prepare_collect_task_async a.guidance.client) rests
          (prepare_collect_task_async-idle a.guidance.client))

  on_nat_type-Rests :
      (result : MetaVariant J (Unit {0} × NatType)) (w : Model × App S)
      → Rests w.1
      → Whenever (λ r. failed r.0 ≡ false → Rests r.1.1) (on_nat_type codecs call ends result w)
  on_nat_type-Rests result w rests =
      if-both (Whenever (λ (r : Error × (Model × App S)). failed r.0 ≡ false → Rests r.1.1))
        (failed result.error) _ _ (λ _. rests) (λ _ e. cc e)

  on_transaction-Rests :
      (t : Transaction) (pkg : DataPackage J) (w : Model × App S)
      → Rests w.1
      → Whenever (λ r. failed r.0 ≡ false → Rests r.1.1) (on_transaction codecs call ends t pkg w)
  on_transaction-Rests Transaction.client_connected pkg w rests = ask_server-Rests _ w rests
  on_transaction-Rests Transaction.client_receive_version_data pkg w rests =
      on_version-Rests _ w rests
  on_transaction-Rests Transaction.client_receive_information_data pkg w rests =
      on_information-Rests _ w rests
  on_transaction-Rests Transaction.client_receive_traceroute pkg w rests =
      on_traceroute-Rests _ w rests
  on_transaction-Rests Transaction.client_receive_nat_type pkg w rests =
      Whenever-bind (λ r. failed r.0 ≡ false → Rests r.1.1) _ _
        (λ result _. on_nat_type-Rests result w rests)
  on_transaction-Rests _ pkg w rests = λ _. rests

  on_nat_client_event-Rests :
      (pkg : DataPackage J) (w : Model × App S)
      → Rests w.1
      → Whenever (λ u. Rests u.1) (on_nat_client_event codecs call ends pkg w)
  unfolding on_nat_client_event
  on_nat_client_event-Rests pkg w rests =
      conclude-Whenever (λ (u : Model × App S). Rests u.1) (λ err. shutdown ends)
        (on_transaction codecs call ends pkg.transaction pkg w)
        (on_transaction-Rests pkg.transaction pkg w rests) (λ err u bad. shutdown-Rests ends u)

  on_published-Rests :
      (t : Transaction) (pkg : DataPackage J) (w : Model × App S)
      → Rests w.1
      → Whenever (λ u. Rests u.1) (on_published codecs call ends t pkg w)
  on_published-Rests Transaction.error pkg w rests = shutdown-Rests ends w
  on_published-Rests _ pkg w rests = on_nat_client_event-Rests pkg w rests

  on_packages-Rests :
      (pkgs : List (DataPackage J)) (w : Model × App S)
      → Rests w.1
      → Whenever (λ u. Rests u.1) (on_packages codecs call ends pkgs w)
  unfolding on_packages
  on_packages-Rests [] w rests = rests
  on_packages-Rests (pkg ∷ pkgs) w rests =
      let p = marked pkg in
      Whenever-step (λ (u : Model × App S). Rests u.1)
        (on_published codecs call ends p.transaction p w) _
        (on_published-Rests p.transaction p w rests) (λ u r. on_packages-Rests pkgs u r)

  after_update-Rests :
      (s : Step) (w : Model × App S) → Rests w.1 → Rests (after_update codecs call ends s w).1
  after_update-Rests disconnected w rests = try_switch_glob_state-keeps Rests call keeps w rests
  after_update-Rests wait_for_ui w rests =
      if-both (λ (u : Model × App S). Rests u.1) (is_empty w.0.popup_queue) _ _
        (shutdown-Rests ends w) rests
  after_update-Rests connected_no_interrupt w rests = rests

  pub update_glob_state-Rests :
      (pkgs : List (DataPackage J)) (w : Model × App S)
      → Rests w.1
      → Whenever (λ u. Rests u.1) (update_glob_state codecs call ends pkgs w)
  unfolding update_glob_state
  update_glob_state-Rests pkgs w rests =
      Whenever-step (λ (u : Model × App S). Rests u.1) (on_packages codecs call ends pkgs w) _
        (on_packages-Rests pkgs w rests) (λ u r. after_update-Rests u.1.guidance.current u r)

  pub start_at-Rests :
      (s : Step) (asset : Asset) (id : Option String) (w : Model × App S)
      → Rests w.1
      → Rests (start_at codecs call ends s asset id w).1
  start_at-Rests disconnected asset id w rests = λ e. cc e
  start_at-Rests connected_no_interrupt asset id w rests = rests
  start_at-Rests wait_for_ui asset id w rests = rests

pub recalc_at-Rests :
    {S : Type 0} (s : Step) (ends : Ends) (w : Model × App S)
    → Rests w.1
    → Rests (recalc_at s ends w).1
recalc_at-Rests {S} wait_for_ui ends w rests =
    let (err, c) = connect_async w.1.guidance.client ends in
    if-both (λ (u : Model × App S). Rests u.1) (failed err) _ _ (shutdown-Rests ends _) (λ e. cc e)
recalc_at-Rests disconnected ends w rests = rests
recalc_at-Rests connected_no_interrupt ends w rests = rests
