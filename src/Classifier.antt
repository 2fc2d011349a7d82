-- ===== src/Classifier.antt =====
-- The classification of a NAT by two echoed addresses:
-- AndroidSource/src/Components/NatClassifier.cpp.
pub mod Largest
pub mod Classify
pub mod Verdict
use text.Mathlib.Text.{◌==◌ as str_eq}
use nat_data_collector.Prelude.{
  ℕ, ◌+◌, ◌-◌, ◌%◌, String, Bool, true, false, not, ◌&&◌, ◌||◌, Option, none, some, List, [], ◌∷◌,
  ◌==◌, ltb, if◌then◌else◌,
}
use nat_data_collector.Prelude.OrderedMap.{Map, find, insert}
use nat_data_collector.Types.{NatType, nat_type_code}
use nat_data_collector.Data.{Address}

-- `std::abs` of the difference of two numbers that fit an int.
abbrev pub distance : ℕ → ℕ → ℕ
distance a b = if ltb a b then b - a else a - b

-- `IdentifyNatType`; `max_delta` is `_max_prog_nat_delta`.
unfoldable pub identify_nat_type : ℕ → Address → Address → NatType
identify_nat_type max_delta first second =
    if not (str_eq first.ip_address second.ip_address)
    then NatType.undefined
    else if first.port == second.port
    then NatType.cone
    else if ltb (distance first.port second.port) max_delta
    then NatType.progressing_sym
    else NatType.random_sym

-- The counts of `GetMostFrequentNatType` by the number of the type, each with the type. A count is a
-- uint16_t.
abbrev pub Counts : Type 0
Counts = Map (NatType × ℕ)

abbrev pub one_more : NatType → Option (NatType × ℕ) → NatType × ℕ
one_more t none = (t, 1)
one_more t (some (u, n)) = (u, (n + 1) % 65536)

unfoldable pub count_type : Counts → NatType → Counts
unfolding nat_type_code
count_type m t = insert (nat_type_code t) (one_more t (find (nat_type_code t) m)) m

unfoldable pub count_types : Counts → List NatType → Counts
unfolding count_type
count_types m [] = m
count_types m (t ∷ ts) = count_types (count_type m t) ts

-- The order of `std::pair`, which `std::max_element` uses on the entries of a map.
abbrev pub pair_less : ℕ × (NatType × ℕ) → ℕ × (NatType × ℕ) → Bool
pair_less (k, (t, n)) (j, (u, m)) = ltb k j || (k == j && ltb n m)

unfoldable pub max_element : ℕ × (NatType × ℕ) → Counts → ℕ × (NatType × ℕ)
max_element best [] = best
max_element best (x ∷ m) = max_element (if pair_less best x then x else best) m

abbrev pub type_of_max : Counts → NatType
type_of_max [] = NatType.undefined
type_of_max (x ∷ m) = (max_element x m).1.0

-- `GetMostFrequentNatType`.
unfoldable pub get_most_frequent_nat_type : List NatType → NatType
unfolding count_types max_element
get_most_frequent_nat_type [] = NatType.undefined
get_most_frequent_nat_type (t ∷ ts) = type_of_max (count_types [] (t ∷ ts))
