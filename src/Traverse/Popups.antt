-- ===== src/Traverse/Popups.antt =====
-- The loop over the pop-ups in AndroidSource/src/Components/GlobTraverse.cpp ends.
use nat_data_collector.Prelude.{
  ℕ, zero, suc, ◌≤◌, ◌≡◌, refl, ◌∙◌, ap, Bool, Option, none, some, List, [], ◌∷◌, length, is_empty,
  Gives, arith, true, false, if◌then◌else◌,
}
use nat_data_collector.Prelude.OrderedMap.{Map, find}
use nat_data_collector.Model.{
  Model, PopUpState, Argument, pop_up_code, pop_up_state, pop_front, start_front, pop_pop_up_state,
}
use nat_data_collector.Model.Events.{Event, publish, publish_some, publish_map}
use nat_data_collector.Traverse.{App, Codecs, Surroundings}
use nat_data_collector.Traverse.Run.{clear_pop_ups}

if_true-P {ℓ} :
    {A : Type ℓ} (P : A → Type 0) (b : Bool) (x y : A) → b ≡ true → P x → P (if b then x else y)
if_true-P P true x y e p = p
if_true-P P false x y e p = cc e

if_false-P {ℓ} :
    {A : Type ℓ} (P : A → Type 0) (b : Bool) (x y : A) → b ≡ false → P y → P (if b then x else y)
if_false-P P true x y e p = cc e
if_false-P P false x y e p = p

-- The callbacks open and close no pop-ups.
abbrev pub KeepsQueue : {J S : Type 0} → (ℕ → Argument J → Model × S → Model × S) → Type 0
KeepsQueue {J} {S} call =
    (cb : ℕ) (a : Argument J) (w : Model × S) → (call cb a w).0.popup_queue ≡ w.0.popup_queue

module _ {J S : Type 0} (call : ℕ → Argument J → Model × S → Model × S)
    (keeps : KeepsQueue call) where
  publish-queue :
      (event : Event) (a : Argument J) (w : Model × S)
      → (publish call event a w).0.popup_queue ≡ w.0.popup_queue
  unfolding publish
  publish-queue [] a w = refl
  publish-queue (cb ∷ event) a w = publish-queue event a (call cb a w) ∙ keeps cb a w

  publish_some-queue :
      (o : Option Event) (a : Argument J) (w : Model × S)
      → (publish_some call o a w).0.popup_queue ≡ w.0.popup_queue
  publish_some-queue none a w = refl
  publish_some-queue (some event) a w = publish-queue event a w

  publish_map-queue :
      (events : Map Event) (code : ℕ) (a : Argument J) (w : Model × S)
      → (publish_map call events code a w).0.popup_queue ≡ w.0.popup_queue
  unfolding publish_map
  publish_map-queue events code a w = publish_some-queue (find code events) a w

  start_front-queue :
      (q : List PopUpState) (w : Model × S) → (start_front call q w).0.popup_queue ≡ w.0.popup_queue
  start_front-queue [] w = refl
  start_front-queue (p ∷ q) w =
      publish_map-queue w.0.start_draw_popup_event (pop_up_code p) (pop_up_state p) w

  -- A pop takes one away.
  pub pop_front-queue :
      (p : PopUpState) (q : List PopUpState) (w : Model × S)
      → (pop_front call (p ∷ q) w).0.popup_queue ≡ q
  pop_front-queue p q (m, s) =
      let popped : Model = record m { popup_queue = q } in
      let ended =
        publish_map call popped.end_draw_popup_event (pop_up_code p) (pop_up_state p) (popped, s) in
      start_front-queue ended.0.popup_queue ended
      ∙ publish_map-queue popped.end_draw_popup_event (pop_up_code p) (pop_up_state p) (popped, s)

module _ {J S : Type 0} (codecs : Codecs J)
    (call : ℕ → Argument J → Model × App J S → Model × App J S) (keeps : KeepsQueue call)
    (env : Surroundings) where
  clears :
      (f : ℕ) (q : List PopUpState) (w : Model × App J S)
      → w.0.popup_queue ≡ q
      → length q ≤ f
      → Gives (λ u. u.0.popup_queue ≡ []) (clear_pop_ups codecs call env f w)
  unfolding clear_pop_ups pop_pop_up_state
  clears zero [] w e h =
      if_true-P (Gives (λ (u : Model × App J S). u.0.popup_queue ≡ [])) (is_empty w.0.popup_queue)
        (some w) none (ap is_empty e) e
  clears zero (p ∷ q) w e h = absurd (omega arith)
  clears (suc f) [] w e h =
      if_true-P (Gives (λ (u : Model × App J S). u.0.popup_queue ≡ [])) (is_empty w.0.popup_queue)
        (some w) (clear_pop_ups codecs call env f (pop_pop_up_state call w)) (ap is_empty e) e
  clears (suc f) (p ∷ q) w e h =
      let shorter =
        ap (λ (l : List PopUpState). (pop_front call l w).0.popup_queue) e
        ∙ pop_front-queue call keeps p q w in
      if_false-P (Gives (λ (u : Model × App J S). u.0.popup_queue ≡ [])) (is_empty w.0.popup_queue)
        (some w) (clear_pop_ups codecs call env f (pop_pop_up_state call w)) (ap is_empty e)
        (clears f q (pop_pop_up_state call w) shorter (omega arith))

  -- The loop that closes all pop-ups ends, and none is left: as many rounds as there are pop-ups
  -- are enough, provided that the callbacks open and close none themselves.
  pub clear_pop_ups-empty :
      (f : ℕ) (w : Model × App J S)
      → length w.0.popup_queue ≤ f
      → Gives (λ u. u.0.popup_queue ≡ []) (clear_pop_ups codecs call env f w)
  clear_pop_ups-empty f w h = clears f w.0.popup_queue w refl h
