-- ===== src/Examples/Predictions.antt =====
-- Predictions from concrete samples.
use nat_data_collector.Prelude.{ℕ, ◌-◌, ◌^◌, ◌≡◌, ◌≢◌, ◌==◌, refl, false, [], ◌∷◌, arith}
use nat_data_collector.Types.{Transaction}
use nat_data_collector.Protocol.{DataPackage, create_data, empty_package}
use nat_data_collector.Data.{Address}
use nat_data_collector.Predictor.{config_index, predict_random_nat, predicted, last_port}
use nat_data_collector.Predictor.Random.{
  two_stages, predict_random_nat_stops, predict_random_nat_never,
}
use nat_data_collector.Examples.{Doc, doc_json, constant}

abbrev at_port : ℕ → Address
at_port n = record { ip_address = "1.2.3.4"; port = n; index = 0; rtt_ms = 0 }

abbrev rand_max : ℕ
rand_max = 2 ^ 31 - 1

-- Three addresses do not divide RAND_MAX + 1: the largest value leads behind the third.
config_index_beyond : config_index rand_max rand_max 3 ≡ 3
unfolding config_index
config_index_beyond = refl

predict_random_nat_stops_example :
    (p : Address) × (predict_random_nat doc_json
        (constant (at_port 0))
        rand_max
        (λ n. rand_max)
        1
        (two_stages (at_port 7 ∷ at_port 9 ∷ []) (at_port 7 ∷ []))
      ≡ predicted (create_data doc_json (constant (at_port 0)) p Transaction.no_transaction))
    × ((p.port == 7) ≡ false)
unfolding config_index last_port
predict_random_nat_stops_example =
    predict_random_nat_stops doc_json (constant (at_port 0)) rand_max (λ n. rand_max) 1 0
      (at_port 7) (at_port 9) (at_port 7) [] [] (omega arith) (λ j h. (at_port 9, refl))
      (record { address = at_port 9; chosen = refl; other = refl })

abbrev any_package : DataPackage Doc
unfolding empty_package
any_package = empty_package doc_json

predict_random_nat_never_example :
    predict_random_nat doc_json
      (constant (at_port 0))
      rand_max
      (λ n. n)
      50
      (two_stages (at_port 7 ∷ at_port 7 ∷ []) (at_port 7 ∷ []))
    ≢ predicted any_package
unfolding last_port
predict_random_nat_never_example =
    predict_random_nat_never doc_json (constant (at_port 0)) rand_max (λ n. n) 50 (at_port 7)
      (at_port 7) (at_port 7) [] [] any_package (refl, (refl, tt))
