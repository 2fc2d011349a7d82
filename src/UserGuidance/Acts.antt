-- ===== src/UserGuidance/Acts.antt =====
-- Any sequence of calls of AndroidSource/src/Components/GlobUserGuidance.cpp.
use nat_data_collector.Prelude.{
  ℕ, String, Bool, Option, some, List, [], ◌∷◌, ◌>>=◌, Whenever, Whenever-step, if-both,
}
use nat_data_collector.Protocol.{DataPackage}
use nat_data_collector.AppConfig.{Asset}
use nat_data_collector.UserData.{Writing}
use nat_data_collector.Model.{Model, Argument}
use nat_data_collector.Model.Keeps.{Keeps}
use nat_data_collector.Client.{Ends}
use nat_data_collector.UserGuidance.{
  App, Codecs, on_close_pop_up_window, on_close_info_update_window, on_recalc_nat, start_glob_state,
  update_glob_state,
}
use nat_data_collector.UserGuidance.Quiet.{
  Rests, start_at-Rests, update_glob_state-Rests, recalc_at-Rests,
}

-- What the app asks of this part: its start, a frame with the packages that come, a request for the
-- NAT type, and the two windows that are closed.
pub data Act (J : Type 0) : Type 0 where
  start : Asset → Option String → Act J
  update : List (DataPackage J) → Act J
  recalculate : Act J
  close_pop_up : Bool → Writing → Act J
  close_information : Bool → Writing → Act J

module _ {J S : Type 0} (codecs : Codecs J)
    (call : ℕ → Argument J → Model × App S → Model × App S) where
  -- One act, with what the tasks of the client end with if it disconnects.
  abbrev pub act : Ends → Act J → Model × App S → Option (Model × App S)
  act ends (start asset id) w = some (start_glob_state codecs call ends asset id w)
  act ends (update pkgs) w = update_glob_state codecs call ends pkgs w
  act ends recalculate w = some (on_recalc_nat ends w)
  act ends (close_pop_up ignored writing) w = some (on_close_pop_up_window codecs ignored writing w)
  act ends (close_information ignored writing) w =
      some (on_close_info_update_window codecs ignored writing w)

  unfoldable pub run_guidance : List (Ends × Act J) → Model × App S → Option (Model × App S)
  run_guidance [] w = some w
  run_guidance ((ends, a) ∷ rest) w = act ends a w >>= λ u. run_guidance rest u

module _ {J S : Type 0} (codecs : Codecs J) (call : ℕ → Argument J → Model × App S → Model × App S)
    (keeps : Keeps Rests call) where
  act-Rests :
      (ends : Ends) (a : Act J) (w : Model × App S)
      → Rests w.1
      → Whenever (λ u. Rests u.1) (act codecs call ends a w)
  unfolding start_glob_state on_recalc_nat on_close_pop_up_window on_close_info_update_window
  act-Rests ends (start asset id) w rests =
      start_at-Rests codecs call keeps ends w.1.guidance.current asset id w rests
  act-Rests ends (update pkgs) w rests = update_glob_state-Rests codecs call keeps ends pkgs w rests
  act-Rests ends recalculate w rests = recalc_at-Rests w.1.guidance.current ends w rests
  act-Rests ends (close_pop_up ignored writing) w rests = rests
  act-Rests ends (close_information ignored writing) (m, a) rests =
      if-both (λ (u : Model × App S). Rests u.1) ignored _ _ rests rests

  -- Whatever the app asks of the user guidance, whatever packages come and in whatever order: if it
  -- starts without a connection in the state DISCONNECTED, then whenever it is in that state again
  -- its client has no connection, no queue and no task that runs, provided that the callbacks of the
  -- model, which may come back to the user guidance, keep this too. Exceptions of the JSON library
  -- end the run.
  pub run_guidance-Rests :
      (acts : List (Ends × Act J)) (w : Model × App S)
      → Rests w.1
      → Whenever (λ u. Rests u.1) (run_guidance codecs call acts w)
  unfolding run_guidance
  run_guidance-Rests [] w rests = rests
  run_guidance-Rests ((ends, a) ∷ acts) w rests =
      Whenever-step (λ (u : Model × App S). Rests u.1) (act codecs call ends a w) _
        (act-Rests ends a w rests) (λ u r. run_guidance-Rests acts u r)
