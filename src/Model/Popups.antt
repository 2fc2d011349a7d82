-- ===== src/Model/Popups.antt =====
-- The pop-ups of AndroidSource/src/Model/NatCollectorModel.cpp, seen as a queue.
use nat_data_collector.Prelude.{
  ℕ, ◌≡◌, refl, sym, ap, ◌∙◌, Option, none, some, List, [], ◌∷◌, ◌++◌, map,
}
use mathlib.Core.List.{append_assoc, append-nil}
use nat_data_collector.Prelude.OrderedMap.{Map, find}
use nat_data_collector.Model.{
  Model, PopUpState, Argument, pop_up_state, pop_up_code, push_pop_up_state, pop_pop_up_state,
  start_front,
}
use nat_data_collector.Model.Events.{
  Event, publish, publish_map, publish_some, subscribers, subscribers_of,
}

-- What is asked of the pop-ups.
pub data Request : Type 0 where
  push : PopUpState → Request
  pop : Request

-- The queue as it should be: the pop-ups that wait, the first in front, and those that have left.
abbrev pub queue_step :
    Request → List PopUpState × List PopUpState → List PopUpState × List PopUpState
queue_step (push p) (waiting, left) = (waiting ++ p ∷ [], left)
queue_step pop ([], left) = ([], left)
queue_step pop (p ∷ waiting, left) = (waiting, left ++ p ∷ [])

unfoldable pub queue_run :
    List Request → List PopUpState × List PopUpState → List PopUpState × List PopUpState
queue_run [] q = q
queue_run (r ∷ rs) q = queue_run rs (queue_step r q)

abbrev pub pushed : List Request → List PopUpState
pushed [] = []
pushed (push p ∷ rs) = p ∷ pushed rs
pushed (pop ∷ rs) = pushed rs

-- What has left stands before what waits, in the order of the pushes.
pub queue_run-fifo :
    (rs : List Request) (waiting left : List PopUpState)
    → (queue_run rs (waiting, left)).1 ++ (queue_run rs (waiting, left)).0
      ≡ left ++ waiting ++ pushed rs
unfolding queue_run
queue_run-fifo [] waiting left = simp (append-nil)
queue_run-fifo (push p ∷ rs) waiting left =
    queue_run-fifo rs (waiting ++ p ∷ []) left ∙ simp (append_assoc)
queue_run-fifo (pop ∷ rs) [] left = queue_run-fifo rs [] left
queue_run-fifo (pop ∷ rs) (p ∷ waiting) left =
    queue_run-fifo rs waiting (left ++ p ∷ []) ∙ simp (append_assoc)

-- The calls of callbacks, with their arguments.
abbrev pub Calls : Type 0 → Type 0
Calls J = List (ℕ × Argument J)

module _ {J : Type 0} where
  -- A callback that notes each call.
  abbrev pub note : ℕ → Argument J → Model × Calls J → Model × Calls J
  note cb a (m, calls) = (m, calls ++ (cb, a) ∷ [])

  abbrev pub calls_of : Event → Argument J → Calls J
  calls_of event a = map (λ (cb : ℕ). (cb, a)) event

  publish-note :
      (event : Event) (a : Argument J) (m : Model) (calls : Calls J)
      → publish note event a (m, calls) ≡ (m, calls ++ calls_of event a)
  unfolding publish
  publish-note [] a m calls = ap (λ (c : Calls J). (m, c)) (sym (append-nil calls))
  publish-note (cb ∷ event) a m calls =
      publish-note event a m (calls ++ (cb, a) ∷ [])
      ∙ ap (λ (c : Calls J). (m, c)) (append_assoc calls ((cb, a) ∷ []) (calls_of event a))

  publish_some-note :
      (o : Option Event) (a : Argument J) (m : Model) (calls : Calls J)
      → publish_some note o a (m, calls) ≡ (m, calls ++ calls_of (subscribers_of o) a)
  publish_some-note none a m calls = ap (λ (c : Calls J). (m, c)) (sym (append-nil calls))
  publish_some-note (some event) a m calls = publish-note event a m calls

  publish_map-note :
      (events : Map Event) (code : ℕ) (a : Argument J) (m : Model) (calls : Calls J)
      → publish_map note events code a (m, calls)
        ≡ (m, calls ++ calls_of (subscribers events code) a)
  unfolding publish_map
  publish_map-note events code a m calls = publish_some-note (find code events) a m calls

  -- The calls that a pop-up causes when it comes to the front, when it leaves, and in all.
  abbrev pub begins : Model → PopUpState → Calls J
  begins m p = calls_of (subscribers m.start_draw_popup_event (pop_up_code p)) (pop_up_state p)

  abbrev pub ends : Model → PopUpState → Calls J
  ends m p = calls_of (subscribers m.end_draw_popup_event (pop_up_code p)) (pop_up_state p)

  abbrev pub lives : Model → List PopUpState → Calls J
  lives m [] = []
  lives m (p ∷ ps) = (begins m p ++ ends m p) ++ lives m ps

  abbrev pub front_begins : Model → List PopUpState → Calls J
  front_begins m [] = []
  front_begins m (p ∷ ps) = begins m p

  -- All calls, for the pop-ups that wait and those that have left.
  abbrev pub story : Model → List PopUpState × List PopUpState → Calls J
  story m (waiting, left) = lives m left ++ front_begins m waiting

  lives-snoc :
      (m : Model) (ps : List PopUpState) (p : PopUpState)
      → lives m (ps ++ p ∷ []) ≡ lives m ps ++ begins m p ++ ends m p
  lives-snoc m [] p = append-nil (begins m p ++ ends m p)
  lives-snoc m (q ∷ ps) p = rw (lives-snoc m ps p) simp (append_assoc)

  -- The model with a queue of pop-ups, and the calls so far.
  abbrev pub state_of : Model → List PopUpState × List PopUpState → Model × Calls J
  state_of m q = (record m { popup_queue = q.0 }, story m q)

  abbrev pub perform : Request → Model × Calls J → Model × Calls J
  perform (push p) w = push_pop_up_state note p w
  perform pop w = pop_pop_up_state note w

  unfoldable pub perform_all : List Request → Model × Calls J → Model × Calls J
  perform_all [] w = w
  perform_all (r ∷ rs) w = perform_all rs (perform r w)

  perform-push :
      (m : Model) (p : PopUpState) (waiting left : List PopUpState)
      → push_pop_up_state note p (state_of m (waiting, left)) ≡ state_of m (waiting ++ p ∷ [], left)
  unfolding push_pop_up_state
  perform-push m p [] left =
      let showing : Model = record m { popup_queue = p ∷ [] } in
      publish_map-note m.start_draw_popup_event (pop_up_code p) (pop_up_state p) showing
        (story m ([], left))
      ∙ ap (λ (c : Calls J). (showing, c)) (simp (append-nil))
  perform-push m p (x ∷ waiting) left = refl

  ends-first :
      (m : Model) (x : PopUpState) (waiting left : List PopUpState)
      → publish_map note m.end_draw_popup_event
          (pop_up_code x)
          (pop_up_state x)
          (record m { popup_queue = waiting }, story m (x ∷ waiting, left))
        ≡ (record m { popup_queue = waiting }, lives m (left ++ x ∷ []))
  ends-first m x waiting left =
      let rest : Model = record m { popup_queue = waiting } in
      publish_map-note m.end_draw_popup_event (pop_up_code x) (pop_up_state x) rest
        (story m (x ∷ waiting, left))
      ∙ ap (λ (c : Calls J). (rest, c)) (sym (lives-snoc m left x))

  start_front-state :
      (m : Model) (waiting left : List PopUpState)
      → start_front note waiting (record m { popup_queue = waiting }, lives m left)
        ≡ state_of m (waiting, left)
  start_front-state m [] left =
      ap (λ (c : Calls J). (record m { popup_queue = [] }, c)) (sym (append-nil (lives m left)))
  start_front-state m (y ∷ waiting) left =
      publish_map-note m.start_draw_popup_event (pop_up_code y) (pop_up_state y)
        (record m { popup_queue = y ∷ waiting }) (lives m left)

  perform-pop :
      (m : Model) (waiting left : List PopUpState)
      → pop_pop_up_state note (state_of m (waiting, left))
        ≡ state_of m (queue_step pop (waiting, left))
  unfolding pop_pop_up_state
  perform-pop m [] left = refl
  perform-pop m (x ∷ waiting) left =
      ap (λ (w : Model × Calls J). start_front note w.0.popup_queue w) (ends-first m x waiting left)
      ∙ start_front-state m waiting (left ++ x ∷ [])

  perform_all-queue_run :
      (m : Model) (rs : List Request) (waiting left : List PopUpState)
      → perform_all rs (state_of m (waiting, left)) ≡ state_of m (queue_run rs (waiting, left))
  unfolding perform_all queue_run
  perform_all-queue_run m [] waiting left = refl
  perform_all-queue_run m (push p ∷ rs) waiting left =
      ap (perform_all rs) (perform-push m p waiting left)
      ∙ perform_all-queue_run m rs (waiting ++ p ∷ []) left
  perform_all-queue_run m (pop ∷ rs) [] left =
      ap (perform_all rs) (perform-pop m [] left) ∙ perform_all-queue_run m rs [] left
  perform_all-queue_run m (pop ∷ rs) (x ∷ waiting) left =
      ap (perform_all rs) (perform-pop m (x ∷ waiting) left)
      ∙ perform_all-queue_run m rs waiting (left ++ x ∷ [])

  -- From a model without pop-ups, whose callbacks only note their calls: after any pushes and pops
  -- the queue of the model is that of the specification, in which each pop takes the first pop-up
  -- that waits, if any; the pop-ups that have left it and those that wait are, in this order, the
  -- ones that were pushed; and the calls are, for each pop-up that has left, those of its start event
  -- and then those of its end event, in the order of the pop-ups, and then the start event of the one
  -- in front, if any. Nothing else of the model has changed.
  pub perform_all-queue :
      (m : Model) (rs : List Request)
      → m.popup_queue ≡ []
      → let q = queue_run rs ([], []) in
        (perform_all rs (m, [])
          ≡ (record m { popup_queue = q.0 }, lives m q.1 ++ front_begins m q.0))
        × (q.1 ++ q.0 ≡ pushed rs)
  perform_all-queue m rs none_waits = (
    ap (λ (ps : List PopUpState). perform_all rs (record m { popup_queue = ps }, [])) none_waits
        ∙ perform_all-queue_run m rs [] [],
    queue_run-fifo rs [] [],
  )
