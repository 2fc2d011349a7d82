-- ===== src/Model/Keeps.antt =====
-- What the operations of AndroidSource/src/Model/NatCollectorModel.cpp leave alone in the rest of the
-- app, if the callbacks do.
use nat_data_collector.Prelude.{
  ℕ, Bool, true, false, Option, none, some, List, [], ◌∷◌, ◌++◌, is_empty, ◌==◌, if-both,
}
use nat_data_collector.Prelude.OrderedMap.{Map, find}
use nat_data_collector.Model.{
  Model, GlobalState, TabState, PopUpState, Argument, global_code, tab_code, pop_up_code,
  global_state, tab_state, pop_up_state, push_pop_up_state, pop_pop_up_state, pop_front,
  start_front, set_tab_state, set_next_global_state, try_switch_glob_state,
}
use nat_data_collector.Model.Events.{Event, publish, publish_some, publish_map}

-- `P` is a property of the rest of the app.
abbrev pub Keeps : {J S : Type 0} → (S → Type 0) → (ℕ → Argument J → Model × S → Model × S) → Type 0
Keeps {J} {S} P call = (cb : ℕ) (a : Argument J) (w : Model × S) → P w.1 → P (call cb a w).1

module _ {J S : Type 0} (P : S → Type 0) (call : ℕ → Argument J → Model × S → Model × S)
    (keeps : Keeps P call) where
  pub publish-keeps :
      (event : Event) (a : Argument J) (w : Model × S) → P w.1 → P (publish call event a w).1
  unfolding publish
  publish-keeps [] a w p = p
  publish-keeps (cb ∷ event) a w p = publish-keeps event a (call cb a w) (keeps cb a w p)

  publish_some-keeps :
      (o : Option Event) (a : Argument J) (w : Model × S) → P w.1 → P (publish_some call o a w).1
  publish_some-keeps none a w p = p
  publish_some-keeps (some event) a w p = publish-keeps event a w p

  publish_map-keeps :
      (events : Map Event) (code : ℕ) (a : Argument J) (w : Model × S)
      → P w.1
      → P (publish_map call events code a w).1
  unfolding publish_map
  publish_map-keeps events code a w p = publish_some-keeps (find code events) a w p

  pub push_pop_up_state-keeps :
      (p : PopUpState) (w : Model × S) → P w.1 → P (push_pop_up_state call p w).1
  unfolding push_pop_up_state
  push_pop_up_state-keeps p (m, s) h =
      let pushed : Model = record m { popup_queue = m.popup_queue ++ p ∷ [] } in
      if-both (λ (u : Model × S). P u.1) (is_empty m.popup_queue)
        (publish_map call pushed.start_draw_popup_event (pop_up_code p) (pop_up_state p)
          (pushed, s))
        (pushed, s)
        (publish_map-keeps pushed.start_draw_popup_event (pop_up_code p) (pop_up_state p)
          (pushed, s) h)
        h

  start_front-keeps : (q : List PopUpState) (w : Model × S) → P w.1 → P (start_front call q w).1
  start_front-keeps [] w h = h
  start_front-keeps (p ∷ q) w h =
      publish_map-keeps w.0.start_draw_popup_event (pop_up_code p) (pop_up_state p) w h

  pop_front-keeps : (q : List PopUpState) (w : Model × S) → P w.1 → P (pop_front call q w).1
  pop_front-keeps [] w h = h
  pop_front-keeps (p ∷ q) (m, s) h =
      let popped : Model = record m { popup_queue = q } in
      let ended =
        publish_map call popped.end_draw_popup_event (pop_up_code p) (pop_up_state p) (popped, s) in
      start_front-keeps ended.0.popup_queue ended (
        publish_map-keeps popped.end_draw_popup_event (pop_up_code p) (pop_up_state p) (popped, s)
          h)

  pub pop_pop_up_state-keeps : (w : Model × S) → P w.1 → P (pop_pop_up_state call w).1
  unfolding pop_pop_up_state
  pop_pop_up_state-keeps w h = pop_front-keeps w.0.popup_queue w h

  pub set_tab_state-keeps : (t : TabState) (w : Model × S) → P w.1 → P (set_tab_state call t w).1
  unfolding set_tab_state
  set_tab_state-keeps t (m, s) h =
      let ended =
        publish_map call m.end_draw_tab_event (tab_code m.current_tab_state)
          (tab_state m.current_tab_state) (m, s) in
      let entered : Model = record ended.0 { current_tab_state = t } in
      if-both (λ (u : Model × S). P u.1) (tab_code t == tab_code m.current_tab_state) (m, s)
        (publish_map call entered.start_draw_tab_event (tab_code t) (tab_state t)
          (entered, ended.1))
        h
        (publish_map-keeps entered.start_draw_tab_event (tab_code t) (tab_state t)
          (entered, ended.1)
          (publish_map-keeps m.end_draw_tab_event (tab_code m.current_tab_state)
            (tab_state m.current_tab_state) (m, s) h))

  pub set_next_global_state-keeps :
      (g : GlobalState) (w : Model × S) → P w.1 → P (set_next_global_state call g w).1
  unfolding set_next_global_state
  set_next_global_state-keeps g (m, s) h =
      let changed : Model = record m { next_global_state = g } in
      if-both (λ (u : Model × S). P u.1) (global_code g == global_code m.next_global_state) (m, s)
        (publish call changed.on_next_global_state_changed (global_state g) (changed, s)) h
        (publish-keeps changed.on_next_global_state_changed (global_state g) (changed, s) h)

  pub try_switch_glob_state-keeps : (w : Model × S) → P w.1 → P (try_switch_glob_state call w).1.1
  unfolding try_switch_glob_state
  try_switch_glob_state-keeps (m, s) h =
      let ended =
        publish_map call m.end_glob_event (global_code m.current_global_state)
          (global_state m.current_global_state) (m, s) in
      let next = ended.0.next_global_state in
      let entered : Model = record ended.0 { current_global_state = next } in
      if-both (λ (u : Bool × (Model × S)). P u.1.1)
        (global_code m.next_global_state == global_code m.current_global_state) (false, (m, s))
        (
          true,
          publish_map call entered.start_glob_event (global_code next) (global_state next)
              (entered, ended.1),
        )
        h
        (publish_map-keeps entered.start_glob_event (global_code next) (global_state next)
          (entered, ended.1)
          (publish_map-keeps m.end_glob_event (global_code m.current_global_state)
            (global_state m.current_global_state) (m, s) h))
