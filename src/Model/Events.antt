-- ===== src/Model/Events.antt =====
-- Events and their subscribers: AndroidSource/src/CustomCollections/Event.h, and `SubscribeMap` of
-- AndroidSource/src/Model/NatCollectorModel.cpp. A callback is known by its number, and is not empty.
use nat_data_collector.Prelude.{ℕ, Option, none, some, List, [], ◌∷◌, ◌++◌}
use nat_data_collector.Prelude.OrderedMap.{Map, find, insert}

abbrev pub Event : Type 0
Event = List ℕ

-- `Event::Subscribe`.
abbrev pub subscribe : Event → ℕ → Event
subscribe event cb = event ++ cb ∷ []

-- `SubscribeMap`; an empty callback is not subscribed.
abbrev pub subscribe_to : Option Event → ℕ → Event
subscribe_to none cb = subscribe [] cb
subscribe_to (some event) cb = subscribe event cb

unfoldable pub subscribe_map : Map Event → ℕ → Option ℕ → Map Event
subscribe_map m state none = m
subscribe_map m state (some cb) = insert state (subscribe_to (find state m) cb) m

-- The subscribers of a key, of which there are none if the key is missing.
abbrev pub subscribers_of : Option Event → Event
subscribers_of none = []
subscribers_of (some event) = event

abbrev pub subscribers : Map Event → ℕ → Event
subscribers m state = subscribers_of (find state m)

-- `call` is what a callback does with an argument: it may change the whole state `W`.
module _ {A W : Type 0} (call : ℕ → A → W → W) where
  -- `Event::Publish`.
  unfoldable pub publish : Event → A → W → W
  publish [] a w = w
  publish (cb ∷ cbs) a w = publish cbs a (call cb a w)

  -- `if (m.contains(state)) m[state].Publish(a)`.
  abbrev pub publish_some : Option Event → A → W → W
  publish_some none a w = w
  publish_some (some event) a w = publish event a w

  unfoldable pub publish_map : Map Event → ℕ → A → W → W
  unfolding publish
  publish_map m state a w = publish_some (find state m) a w
