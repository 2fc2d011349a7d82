-- ===== src/Model.antt =====
-- The model of the app, with its global states, tabs and pop-ups:
-- AndroidSource/src/Model/NatCollectorModel.cpp and .h. The rest of the app is a state `S` that the
-- callbacks may change, together with the model itself. Lines for the log are left out.
pub mod Events
pub mod Popups
pub mod Keeps
use nat_data_collector.Prelude.{
  ℕ, zero, Bool, true, false, not, String, Option, none, some, List, [], ◌∷◌, ◌++◌, ◌==◌, is_empty,
  if◌then◌else◌,
}
use nat_data_collector.Prelude.OrderedMap.{Map}
use nat_data_collector.Types.{NatType}
use nat_data_collector.Data.{Lobby, ClientMetaData, IpMetaData, blank_client_meta_data}
use nat_data_collector.AppConfig.{AppConfig, blank_app_config}
use nat_data_collector.Model.Events.{Event, subscribe, subscribe_map, publish, publish_map}

pub data GlobalState : Type 0 where
  idle user_guidance collect traverse : GlobalState

pub data TabState : Type 0 where
  log copy_log scoreboard traversal : TabState

pub data PopUpState : Type 0 where
  idle pop_up nat_info_window version_update_window information_update_window : PopUpState
  join_lobby_pop_up_window wait : PopUpState

abbrev pub global_code : GlobalState → ℕ
global_code GlobalState.idle = 0
global_code GlobalState.user_guidance = 1
global_code GlobalState.collect = 2
global_code GlobalState.traverse = 3

abbrev pub tab_code : TabState → ℕ
tab_code TabState.log = 0
tab_code TabState.copy_log = 1
tab_code TabState.scoreboard = 2
tab_code TabState.traversal = 3

abbrev pub pop_up_code : PopUpState → ℕ
pop_up_code PopUpState.idle = 0
pop_up_code PopUpState.pop_up = 1
pop_up_code PopUpState.nat_info_window = 2
pop_up_code PopUpState.version_update_window = 3
pop_up_code PopUpState.information_update_window = 4
pop_up_code PopUpState.join_lobby_pop_up_window = 5
pop_up_code PopUpState.wait = 6

-- The members; the first to leave a queue stands in front.
pub record Model : Type 0 where
  pub current_global_state : GlobalState
  pub next_global_state : GlobalState
  pub start_glob_event : Map Event
  pub update_glob_event : Map Event
  pub end_glob_event : Map Event
  pub on_next_global_state_changed : Event
  pub client_meta_data : ClientMetaData
  pub app_config : AppConfig
  pub flip_dark_mode_event : Event
  pub current_tab_state : TabState
  pub start_draw_tab_event : Map Event
  pub update_draw_tab_event : Map Event
  pub end_draw_tab_event : Map Event
  pub popup_queue : List PopUpState
  pub start_draw_popup_event : Map Event
  pub update_draw_popup_event : Map Event
  pub end_draw_popup_event : Map Event
  pub on_recalculate_nat : Event
  pub on_join_lobby : Event
  pub on_confirm_join_lobby : Event
  pub on_cancel_join_lobby : Event

-- `nat_type` of the meta data of a new model has the value that it happens to have.
abbrev pub new_model : NatType → Model
new_model nat_type = record {
  current_global_state = GlobalState.idle;
  next_global_state = GlobalState.idle;
  start_glob_event = [];
  update_glob_event = [];
  end_glob_event = [];
  on_next_global_state_changed = [];
  client_meta_data = blank_client_meta_data nat_type;
  app_config = blank_app_config;
  flip_dark_mode_event = [];
  current_tab_state = TabState.log;
  start_draw_tab_event = [];
  update_draw_tab_event = [];
  end_draw_tab_event = [];
  popup_queue = [];
  start_draw_popup_event = [];
  update_draw_popup_event = [];
  end_draw_popup_event = [];
  on_recalculate_nat = [];
  on_join_lobby = [];
  on_confirm_join_lobby = [];
  on_cancel_join_lobby = [];
}

-- What a callback is called with; the pointer to the application tells nothing.
pub data Argument (J : Type 0) : Type 0 where
  global_state : GlobalState → Argument J
  tab_state : TabState → Argument J
  pop_up_state : PopUpState → Argument J
  recalculate : Bool → Argument J
  session : ℕ → Argument J
  lobby : Lobby J → Argument J
  application : Argument J

-- The three subscriptions; `none` is an empty callback.
unfoldable pub subscribe_glob_event : Model → GlobalState → Option ℕ → Option ℕ → Option ℕ → Model
unfolding subscribe_map
subscribe_glob_event m gs start_cb update_cb end_cb = record m {
  start_glob_event = subscribe_map m.start_glob_event (global_code gs) start_cb;
  update_glob_event = subscribe_map m.update_glob_event (global_code gs) update_cb;
  end_glob_event = subscribe_map m.end_glob_event (global_code gs) end_cb;
}

unfoldable pub subscribe_tab_event : Model → TabState → Option ℕ → Option ℕ → Option ℕ → Model
unfolding subscribe_map
subscribe_tab_event m dt start_cb update_cb end_cb = record m {
  start_draw_tab_event = subscribe_map m.start_draw_tab_event (tab_code dt) start_cb;
  update_draw_tab_event = subscribe_map m.update_draw_tab_event (tab_code dt) update_cb;
  end_draw_tab_event = subscribe_map m.end_draw_tab_event (tab_code dt) end_cb;
}

unfoldable pub subscribe_pop_up_event : Model → PopUpState → Option ℕ → Option ℕ → Option ℕ → Model
unfolding subscribe_map
subscribe_pop_up_event m ps start_cb update_cb end_cb = record m {
  start_draw_popup_event = subscribe_map m.start_draw_popup_event (pop_up_code ps) start_cb;
  update_draw_popup_event = subscribe_map m.update_draw_popup_event (pop_up_code ps) update_cb;
  end_draw_popup_event = subscribe_map m.end_draw_popup_event (pop_up_code ps) end_cb;
}

-- `SetClientMetaData`, `SetClientNATType` and `SetClientAndroidId`.
unfoldable pub set_client_meta_data : Model → IpMetaData → Model
set_client_meta_data m val = record m {
  client_meta_data = record m.client_meta_data {
    country = val.country;
    city = val.city;
    region = val.region;
    isp = val.isp;
    timezone = val.timezone;
  };
}

unfoldable pub set_client_nat_type : Model → NatType → Model
set_client_nat_type m val = record m {
  client_meta_data = record m.client_meta_data { nat_type = val };
}

unfoldable pub set_client_android_id : Model → String → Model
set_client_android_id m id = record m {
  client_meta_data = record m.client_meta_data { android_id = id };
}

-- `call` is what a callback does when it is called.
module _ {J S : Type 0} (call : ℕ → Argument J → Model × S → Model × S) where
  -- `SetTabState`.
  unfoldable pub set_tab_state : TabState → Model × S → Model × S
  unfolding publish_map
  set_tab_state val (m, s) =
      let ended =
        publish_map call m.end_draw_tab_event (tab_code m.current_tab_state)
          (tab_state m.current_tab_state) (m, s) in
      let entered : Model = record ended.0 { current_tab_state = val } in
      if tab_code val == tab_code m.current_tab_state
      then (m, s)
      else publish_map call entered.start_draw_tab_event (tab_code val) (tab_state val)
          (entered, ended.1)

  -- `PushPopUpState`.
  unfoldable pub push_pop_up_state : PopUpState → Model × S → Model × S
  unfolding publish_map
  push_pop_up_state val (m, s) =
      let pushed : Model = record m { popup_queue = m.popup_queue ++ val ∷ [] } in
      if is_empty m.popup_queue
      then publish_map call pushed.start_draw_popup_event (pop_up_code val) (pop_up_state val)
          (pushed, s)
      else (pushed, s)

  -- The start event of the pop-up that is in front now.
  abbrev pub start_front : List PopUpState → Model × S → Model × S
  start_front [] w = w
  start_front (current ∷ q) w =
      publish_map call w.0.start_draw_popup_event (pop_up_code current) (pop_up_state current) w

  abbrev pub pop_front : List PopUpState → Model × S → Model × S
  pop_front [] w = w
  pop_front (last ∷ q) (m, s) =
      let popped : Model = record m { popup_queue = q } in
      let ended =
        publish_map call popped.end_draw_popup_event (pop_up_code last) (pop_up_state last)
          (popped, s) in
      start_front ended.0.popup_queue ended

  -- `PopPopUpState`.
  unfoldable pub pop_pop_up_state : Model × S → Model × S
  unfolding publish_map
  pop_pop_up_state w = pop_front w.0.popup_queue w

  -- `SetNextGlobalState`.
  unfoldable pub set_next_global_state : GlobalState → Model × S → Model × S
  unfolding publish
  set_next_global_state next (m, s) =
      let changed : Model = record m { next_global_state = next } in
      if global_code next == global_code m.next_global_state
      then (m, s)
      else publish call changed.on_next_global_state_changed (global_state next) (changed, s)

  -- `TrySwitchGlobState`. The end event may choose another next state, which is then taken.
  unfoldable pub try_switch_glob_state : Model × S → Bool × (Model × S)
  unfolding publish_map
  try_switch_glob_state (m, s) =
      let ended =
        publish_map call m.end_glob_event (global_code m.current_global_state)
          (global_state m.current_global_state) (m, s) in
      let next = ended.0.next_global_state in
      let entered : Model = record ended.0 { current_global_state = next } in
      if global_code m.next_global_state == global_code m.current_global_state
      then (false, (m, s))
      else (
        true,
        publish_map call entered.start_glob_event (global_code next) (global_state next)
            (entered, ended.1),
      )

  -- `Start`.
  unfoldable pub start : Model × S → Model × S
  unfolding set_next_global_state try_switch_glob_state
  start w =
      set_next_global_state GlobalState.idle
        (try_switch_glob_state (set_next_global_state GlobalState.user_guidance w)).1

  -- `Draw`.
  abbrev pub draw_front : List PopUpState → Model × S → Model × S
  draw_front [] w = w
  draw_front (current ∷ q) w =
      publish_map call w.0.update_draw_popup_event (pop_up_code current) (pop_up_state current) w

  unfoldable pub draw : Model × S → Model × S
  unfolding publish_map
  draw (m, s) =
      let drawn =
        publish_map call m.update_draw_tab_event (tab_code m.current_tab_state)
          (tab_state m.current_tab_state) (m, s) in
      draw_front drawn.0.popup_queue drawn

  -- `Update`.
  unfoldable pub update : Model × S → Model × S
  unfolding publish_map
  update (m, s) =
      publish_map call m.update_glob_event (global_code m.current_global_state)
        (global_state m.current_global_state) (m, s)

  -- `RecalculateNAT`, `JoinLobby`, `ConfirmJoinLobby`, `CancelJoinLobby` and `FlipDarkMode`.
  unfoldable pub recalculate_nat : Model × S → Model × S
  unfolding publish
  recalculate_nat w = publish call w.0.on_recalculate_nat (recalculate true) w

  unfoldable pub join_lobby : ℕ → Model × S → Model × S
  unfolding publish
  join_lobby owner_session w = publish call w.0.on_join_lobby (session owner_session) w

  unfoldable pub confirm_join_lobby : Lobby J → Model × S → Model × S
  unfolding publish
  confirm_join_lobby l w = publish call w.0.on_confirm_join_lobby (lobby l) w

  unfoldable pub cancel_join_lobby : Model × S → Model × S
  unfolding publish
  cancel_join_lobby w = publish call w.0.on_cancel_join_lobby application w

  unfoldable pub flip_dark_mode : Model × S → Model × S
  unfolding publish
  flip_dark_mode w = publish call w.0.flip_dark_mode_event application w
