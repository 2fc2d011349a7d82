-- ===== src/Collect/Safe.antt =====
-- What every event of a task of AndroidSource/src/Components/UDPCollectTask.cpp keeps.
pub mod Events
pub mod Sockets
pub mod Handlers
pub mod Kept
use mathlib.Core.Path.{subst}
use mathlib.Core.Option.{some_inj}
use nat_data_collector.Prelude.{
  Gives, Gives-bind, if-both, ℕ, zero, suc, ◌+◌, ◌%◌, ◌<◌, ◌≤◌, ◌≡◌, ◌∙◌, refl, sym, ap, Bool, true,
  false, Option, none, some, List, [], ◌∷◌, ◌++◌, map, length, length-append, get_elem?, All,
  All-append, arith, ◌>>=◌, not, ◌&&◌, ◌||◌, Bool-cases, Option-cases, inl, inr, if◌then◌else◌,
  ◌==◌, ltb,
}
use nat_data_collector.Collect.{
  Settings, Stage, Socket, Device, requests, socket_requests, sockets, sockets_for,
  clamp_if_not_enough_files,
}
use nat_data_collector.Collect.Stages.{
  Task, Deadline, Handle, update, clear_stage, settle, plan_stage, prepare_stage, run_callback,
  set_rate, with_settings, new_task, set_settings,
}
use nat_data_collector.Data.{CollectVector, MultiAddressVector}

module _ {ℓ} {A : Type ℓ} where
  pub length-update : (f : A → A) (i : ℕ) (xs : List A) → length (update f i xs) ≡ length xs
  length-update f i [] = refl
  length-update f zero (x ∷ xs) = refl
  length-update f (suc i) (x ∷ xs) = ap suc (length-update f i xs)

  All-update {κ} :
      (P : A → Type κ) (f : A → A) (i : ℕ) (xs : List A)
      → ((x : A) → P x → P (f x))
      → All P xs
      → All P (update f i xs)
  All-update P f i [] k h = h
  All-update P f zero (x ∷ xs) k h = (k x h.0, h.1)
  All-update P f (suc i) (x ∷ xs) k h = (h.0, All-update P f i xs k h.1)

  get_elem?-holds :
      (P : A → Type 0) (xs : List A) (i : ℕ) (x : A) → get_elem? xs i ≡ some x → All P xs → P x
  get_elem?-holds P [] i x e a = cc e
  get_elem?-holds P (y ∷ xs) zero x e a = subst P (some_inj.0 e) a.0
  get_elem?-holds P (y ∷ xs) (suc i) x e a = get_elem?-holds P xs i x e a.1

  get_elem?-bound : (xs : List A) (i : ℕ) (x : A) → get_elem? xs i ≡ some x → i < length xs
  get_elem?-bound [] i x h = cc h
  get_elem?-bound (y ∷ xs) zero x h = omega arith
  get_elem?-bound (y ∷ xs) (suc i) x h = omega (arith, get_elem?-bound xs i x h)

clamp-Gives :
    (rem95 : Option ℕ) (sample services : ℕ)
    → 0 < services
    → Gives (λ _. Unit) (clamp_if_not_enough_files rem95 sample services)
unfolding clamp_if_not_enough_files
clamp-Gives none sample services pos = tt
clamp-Gives (some r) sample zero pos = absurd (omega arith)
clamp-Gives (some r) sample (suc n) pos = tt

module _ (bound : ℕ) where
  abbrev Below : Socket → Type 0
  Below sock = sock.stage_index < bound

  requests-Below :
      (s : Settings) (i first clamped : ℕ) (last : Bool) (req n : ℕ)
      → i < bound
      → All Below (requests s i first clamped last req n)
  unfolding requests
  requests-Below s i first clamped last req zero h = tt
  requests-Below s i first clamped last req (suc n) h =
      (h, requests-Below s i first clamped last (suc req) n h)

  sockets-Below :
      (s : Settings) (i total sock n : ℕ) → i < bound → All Below (sockets s i total sock n)
  unfolding sockets socket_requests
  sockets-Below s i total sock zero h = tt
  sockets-Below s i total sock (suc n) h =
      All-append Below (socket_requests s i total sock) (sockets s i total (suc sock) n)
        (requests-Below s i _ _ _ 0 _ h) (sockets-Below s i total (suc sock) n h)

module _ {S : Type 0} where
  -- A stage with echo services, whose callback always gives settings with echo services.
  pub record Sound (stage : Stage S) : Type 0 where
    pub services : 0 < stage.settings.echo_server_num_services
    pub callback :
        (cb : Settings → MultiAddressVector → ℕ → ℕ → Option Settings)
        → stage.start_stage_cb ≡ some cb
        → (s : Settings) (collected : MultiAddressVector) (start now : ℕ)
        → 0 < s.echo_server_num_services
        → Gives (λ r. 0 < r.echo_server_num_services) (cb s collected start now)

  -- The vectors of a task and its static port.
  pub record Fits (collected : List CollectVector) (stages : List (Stage S))
      (socket_list : List Socket) (current_port : ℕ) : Type 0 where
    pub results : length collected ≡ length stages
    pub sound : All Sound stages
    pub placed : All (λ sock. sock.stage_index < length stages) socket_list
    pub port : current_port < 65536

  -- A task has a result for each stage, sound stages, sockets of its stages only, and a uint16_t as
  -- static port.
  abbrev pub WellFormed : Task S → Type 0
  WellFormed t = Fits t.result.stages t.stages t.socket_list t.current_port

  run_callback-Sound :
      (stage : Stage S) (collected : MultiAddressVector) (start now : ℕ)
      → Sound stage
      → Gives (λ s. 0 < s.echo_server_num_services) (run_callback stage collected start now)
  run_callback-Sound stage collected start now sound = elim (Option-cases stage.start_stage_cb) [
    | inl e ↦ rw e sound.services
    | inr (cb, e) ↦ rw e (sound.callback cb e stage.settings collected start now sound.services)
  ]

  settle-Sound :
      (device : Device) (t : Task S) (stage : Stage S)
      → Sound stage
      → Gives (λ s. 0 < s.echo_server_num_services) (settle device t stage)
  unfolding settle
  settle-Sound device t stage sound =
      Gives-bind (λ s. 0 < s.echo_server_num_services)
        (run_callback stage t.result t.start_time_task device.now) _
        (run_callback-Sound stage t.result t.start_time_task device.now sound)
        (λ s pos.
          if-both (Gives (λ s. 0 < s.echo_server_num_services))
            (s.sample_rate_ms == 0 || not s.close_socket_early) _ (some s)
            (Gives-bind (λ s. 0 < s.echo_server_num_services)
              (clamp_if_not_enough_files device.rem95 s.sample_size s.echo_server_num_services) _
              (clamp-Gives device.rem95 s.sample_size s.echo_server_num_services pos) (λ n p. pos))
            pos)

  set_settings-Sound :
      (s : Settings)
      → 0 < s.echo_server_num_services
      → (stage : Stage S) → Sound stage
      → Sound (set_settings s stage)
  set_settings-Sound s pos stage w = record { services = pos; callback = w.callback }

  plan_stage-WellFormed :
      (t : Task S) (i : ℕ) (s : Settings)
      → 0 < s.echo_server_num_services
      → i < length t.stages
      → t.socket_list ≡ []
      → WellFormed t
      → Gives WellFormed (plan_stage t i s)
  unfolding plan_stage
  plan_stage-WellFormed t i s pos h e w =
      let z : (s.echo_server_num_services == 0) ≡ false = ground (arith, pos) in
      let same = length-update (set_settings s) i t.stages in
      let bound = length (update (set_settings s) i t.stages) in
      let results =
        length-update (set_rate s.sample_rate_ms) i t.result.stages ∙ w.results ∙ sym same in
      let sound = All-update Sound (set_settings s) i t.stages (set_settings-Sound s pos) w.sound in
      let n = sockets_for s.sample_size s.echo_server_num_services in
      let empty : All (Below bound) t.socket_list = rw e tt in
      let here : i < bound = rw same h in
      rw z (
        if-both WellFormed (not (s.local_port == 0) && ltb 1 n) _ _
          (record { results = results; sound = sound; placed = empty; port = w.port })
          (record {
            results = results;
            sound = sound;
            placed = sockets-Below bound s i n 0 n here;
            port = w.port;
          }))

  clear_stage-WellFormed : (t : Task S) → WellFormed t → WellFormed (clear_stage t)
  unfolding clear_stage
  clear_stage-WellFormed t w = record {
    results = w.results;
    sound = w.sound;
    placed = tt;
    port = w.port;
  }

  -- The preparation of a stage gives a task, and a well-formed one.
  pub prepare_stage-WellFormed :
      (device : Device) (t : Task S) (i : ℕ)
      → WellFormed t
      → Gives WellFormed (prepare_stage device t i)
  unfolding prepare_stage clear_stage
  prepare_stage-WellFormed device t i w =
      let cleared = clear_stage-WellFormed t w in
      let k = i % 65536 in
      elim (Option-cases (get_elem? t.stages k)) [
        | inl e ↦ rw e cleared
        | inr (stage, e) ↦
            let h = get_elem?-bound t.stages k stage e in
            let sound = get_elem?-holds Sound t.stages k stage e w.sound in
            rw e (
              Gives-bind WellFormed (settle device (clear_stage t) stage)
                (plan_stage (clear_stage t) k) (settle-Sound device (clear_stage t) stage sound)
                (λ s pos. plan_stage-WellFormed (clear_stage t) k s pos h refl cleared))
      ]
