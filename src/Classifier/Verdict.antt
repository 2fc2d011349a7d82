-- ===== src/Classifier/Verdict.antt =====
-- What the answer of `ClassifyNAT` of AndroidSource/src/Components/NatClassifier.cpp tells.
use mathlib.Core.List.{append_assoc, append-nil}
use nat_data_collector.Prelude.{
  ℕ, Bool, true, false, ◌&&◌, some, List, [], ◌∷◌, ◌++◌, map, ◌≡◌, ◌∙◌, refl, sym, ap,
  if◌then◌else◌,
}
use nat_data_collector.Types.{ErrorType, NatType, Transaction, error_type_code, meta_data_to_string}
use nat_data_collector.Errors.{Error, no_error, add}
use nat_data_collector.Json.{Conversion}
use nat_data_collector.Protocol.{DataPackage, create_error, add_meta}
use nat_data_collector.Data.{Address, CollectVector}
use nat_data_collector.Collect.Run.{Formats}
use nat_data_collector.Classifier.{get_most_frequent_nat_type}
use nat_data_collector.Classifier.Classify.{identify_stages, sample_of, classified}

-- Whether two addresses were received.
abbrev hreceivedpair : List Address → Bool
hreceivedpair (a ∷ b ∷ rest) = true
hreceivedpair _ = false

unfoldable pub all_pairs : List CollectVector → Bool
all_pairs [] = true
all_pairs (c ∷ cs) = hreceivedpair c.addresses && all_pairs cs

abbrev type_of : ℕ → CollectVector → NatType
type_of max_delta c = (sample_of max_delta c.addresses).0

abbrev verdict : Bool → ErrorType
verdict true = ErrorType.ok
verdict false = ErrorType.warning

sample-verdict :
    (max_delta : ℕ) (received : List Address)
    → (sample_of max_delta received).1.error ≡ verdict (hreceivedpair received)
sample-verdict max_delta [] = refl
sample-verdict max_delta (a ∷ []) = refl
sample-verdict max_delta (a ∷ b ∷ rest) = refl

add-verdict :
    (x y : Bool) (e f : Error)
    → e.error ≡ verdict x
    → f.error ≡ verdict y
    → (add e f).error ≡ verdict (x && y)
unfolding add error_type_code
add-verdict true true e f p q = rw (p, q) refl
add-verdict true false e f p q = rw (p, q) refl
add-verdict false true e f p q = rw (p, q) refl
add-verdict false false e f p q = rw (p, q) refl

and_assoc : (x y z : Bool) → ((x && y) && z) ≡ (x && (y && z))
and_assoc true y z = refl
and_assoc false y z = refl

identify_stages-verdict :
    (max_delta : ℕ) (stages : List CollectVector) (types : List NatType) (e : Error) (x : Bool)
    → e.error ≡ verdict x
    → let r = identify_stages max_delta stages (types, e) in
      (r.0 ≡ types ++ map (type_of max_delta) stages)
      × (r.1.error ≡ verdict (x && all_pairs stages))
unfolding identify_stages all_pairs
identify_stages-verdict max_delta [] types e true p = (sym (append-nil types), p)
identify_stages-verdict max_delta [] types e false p = (sym (append-nil types), p)
identify_stages-verdict max_delta (c ∷ cs) types e x p =
    let sample = sample_of max_delta c.addresses in
    let here =
      add-verdict x (hreceivedpair c.addresses) e sample.1 p
        (sample-verdict max_delta c.addresses) in
    let rest =
      identify_stages-verdict max_delta cs (types ++ sample.0 ∷ []) (add e sample.1)
        (x && hreceivedpair c.addresses) here in
    (
      rest.0 ∙ append_assoc types (sample.0 ∷ []) (map (type_of max_delta) cs),
      rest.1 ∙ ap verdict (and_assoc x (hreceivedpair c.addresses) (all_pairs cs)),
    )

verdict_if : (x : Bool) → verdict x ≡ (if x then ErrorType.ok else ErrorType.warning)
verdict_if true = refl
verdict_if false = refl

module _ {J : Type 0} (formats : Formats J) (nat_types : Conversion J NatType) where
  -- However few addresses were received, `ClassifyNAT` answers with the type that
  -- `GetMostFrequentNatType` picks of the types of the stages, which is the one with the largest
  -- number and not the most frequent one, where a stage without two addresses counts as undefined. The answer is a warning exactly if some
  -- stage has less than two addresses, and never a failure.
  pub classified_lem :
      (max_delta : ℕ) (stages : List CollectVector)
      → (pkg : DataPackage J) × (classified formats nat_types max_delta stages ≡ some pkg)
        × (pkg.error.error ≡ (if all_pairs stages then ErrorType.ok else ErrorType.warning))
        × (pkg.meta_data
            ≡ formats.json.put formats.json.null "nat_type" (
                nat_types.to_json (
                  get_most_frequent_nat_type
                    (map (λ c. (sample_of max_delta c.addresses).0) stages))))
        × (pkg.transaction ≡ Transaction.client_receive_nat_type)
  unfolding classified add_meta create_error meta_data_to_string
  classified_lem max_delta stages =
      let r = identify_stages-verdict max_delta stages [] no_error true refl in
      (
        _,
        refl,
        r.1 ∙ verdict_if (all_pairs stages),
        ap
            (λ types.
              formats.json.put formats.json.null "nat_type"
                (nat_types.to_json (get_most_frequent_nat_type types)))
            r.0,
        refl,
      )
