-- ===== src/Predictor.antt =====
-- The prediction of the address that a NAT will use: AndroidSource/src/Predictors/Predictor.h.
pub mod Random
use nat_data_collector.Prelude.{
  ℕ, zero, suc, ◌+◌, ◌/◌, ◌%◌, String, Option, none, some, List, [], ◌∷◌, ◌==◌, if◌then◌else◌,
  length, get_elem?,
}
use nat_data_collector.Types.{ErrorType, Transaction}
use nat_data_collector.Json.{Json, Codec}
use nat_data_collector.Protocol.{DataPackage, create, create_data}
use nat_data_collector.Data.{Address, CollectVector, MultiAddressVector}

-- What a prediction comes to: an address, the loop still drawing when the fuel is used up, or a
-- read behind the end of a vector.
pub data Draw : Type 0 where
  drawn : Address → Draw
  drawing : Draw
  out_of_range : Draw

-- The index that a value of `rand()` leads to; `rand_max` is RAND_MAX, below 2 ^ 32 - 1,
-- and `size` is at most RAND_MAX + 1; the source divides by 0 for more addresses, which no device holds.
unfoldable pub config_index : ℕ → ℕ → ℕ → ℕ
config_index rand_max r size = r / ((rand_max + 1) / size)

-- A prediction on the last port of the repetition stage is drawn again.
abbrev pub redraw : ℕ → Option Address → Draw → Draw
redraw last none again = out_of_range
redraw last (some a) again = if a.port == last then again else drawn a

-- The loop of `PredictRandomNAT`; `rand n` is the value of call number n, and a round takes one.
unfoldable pub draw : ℕ → (ℕ → ℕ) → List Address → ℕ → ℕ → ℕ → Draw
unfolding config_index
draw rand_max rand addresses last zero n = drawing
draw rand_max rand addresses last (suc f) n =
    let again = draw rand_max rand addresses last f (suc n) in
    redraw last (get_elem? addresses (config_index rand_max (rand n) (length addresses))) again

-- `data.back().port` of a stage with an address.
unfoldable pub last_port : Address → List Address → ℕ
last_port a [] = a.port
last_port a (b ∷ bs) = last_port b bs

module _ {J : Type 0} (json : Json J) (codec : Codec J Address) where
  -- `PredictConeNAT`.
  abbrev pub cone_of : List CollectVector → ℕ → DataPackage J
  cone_of [] local_port =
      create json ErrorType.error ("Predict Cone NAT address failed. No received addresses." ∷ [])
  cone_of (stage ∷ stages) local_port = elim stage.addresses [
    | [] ↦
        create json ErrorType.error ("Predict Cone NAT address failed. No received addresses." ∷ [])
    | a ∷ rest ↦
        create_data json codec
          (record { ip_address = a.ip_address; port = local_port; index = 0; rtt_ms = 0 })
          Transaction.no_transaction
  ]

  unfoldable pub predict_cone_nat : MultiAddressVector → ℕ → DataPackage J
  predict_cone_nat samples local_port = cone_of samples.stages local_port

-- What a call of `PredictRandomNAT` comes to: a package, no end within the fuel, or a read behind
-- the end of a vector.
pub data Prediction (J : Type 0) : Type 0 where
  predicted : DataPackage J → Prediction J
  undecided : Prediction J
  undefined : Prediction J

module _ {J : Type 0} (json : Json J) (codec : Codec J Address) where
  abbrev pub of_draw : Draw → Prediction J
  of_draw (drawn a) = predicted (create_data json codec a Transaction.no_transaction)
  of_draw drawing = undecided
  of_draw out_of_range = undefined

  abbrev pub no_prediction : Prediction J
  no_prediction = predicted (
      create json ErrorType.error
        ("Can perform prediction for random symmetric NAT, based on collected data" ∷ []))

  abbrev pub with_two : ℕ → (ℕ → ℕ) → ℕ → List Address → List Address → Prediction J
  with_two rand_max rand fuel (a ∷ b ∷ rest) (c ∷ others) =
      of_draw (draw rand_max rand (a ∷ b ∷ rest) (last_port c others) fuel 0)
  with_two rand_max rand fuel _ _ = no_prediction

  -- With one stage the source reads the second one.
  abbrev pub random_of : ℕ → (ℕ → ℕ) → ℕ → List CollectVector → Prediction J
  random_of rand_max rand fuel [] = no_prediction
  random_of rand_max rand fuel (first ∷ []) = undefined
  random_of rand_max rand fuel (first ∷ second ∷ rest) =
      with_two rand_max rand fuel first.addresses second.addresses

  -- `PredictRandomNAT`.
  unfoldable pub predict_random_nat : ℕ → (ℕ → ℕ) → ℕ → MultiAddressVector → Prediction J
  unfolding draw last_port
  predict_random_nat rand_max rand fuel samples = random_of rand_max rand fuel samples.stages
