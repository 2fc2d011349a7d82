-- ===== src/Client/Connection/Overlap.antt =====
-- The writes that `write_loop` of AndroidSource/src/Components/NatTraverserClient.cpp starts.
use mathlib.Core.List.{append_assoc, append-nil}
use nat_data_collector.Prelude.{
  ℕ, zero, suc, false, List, [], ◌∷◌, ◌++◌, ◌≡◌, ◌∙◌, refl, sym, ap, take, drop,
}
use nat_data_collector.Client.Connection.{Connection, write_loop}

-- Rounds of the timer while no write completes and no shutdown is asked for.
unfoldable pub rounds : ℕ → Connection → Connection
rounds zero c = c
rounds (suc n) c = rounds n (write_loop false c)

take-nil : (n : ℕ) → take {A = List ℕ} n [] ≡ []
take-nil zero = refl
take-nil (suc n) = refl

drop-nil : (n : ℕ) → drop {A = List ℕ} n [] ≡ []
drop-nil zero = refl
drop-nil (suc n) = refl

rounds-from :
    (n : ℕ) (q flight : List (List ℕ)) (c : Connection)
    → let r = rounds n (record c { write_queue = q; in_flight = flight }) in
      (r.in_flight ≡ flight ++ take n q) × (r.write_queue ≡ drop n q)
unfolding rounds write_loop
rounds-from zero q flight c = (sym (append-nil flight), refl)
rounds-from (suc n) [] flight c =
    let rest = rounds-from n [] flight c in
    (rest.0 ∙ ap (◌++◌ flight) (take-nil n), rest.1 ∙ drop-nil n)
rounds-from (suc n) (m ∷ q) flight c =
    let rest = rounds-from n q (flight ++ m ∷ []) c in
    (rest.0 ∙ append_assoc flight (m ∷ []) (take n q), rest.1)

-- In every number of rounds while no write completes, each round starts one write more, as long as
-- there are messages: the writes under way are those from before and the messages taken from the
-- queue, in its order, whose rest stays.
pub rounds-in_flight :
    (n : ℕ) (c : Connection)
    → ((rounds n c).in_flight ≡ c.in_flight ++ take n c.write_queue)
      × ((rounds n c).write_queue ≡ drop n c.write_queue)
rounds-in_flight n c = rounds-from n c.write_queue c.in_flight c
