-- ===== src/Classifier/Classify.antt =====
-- `ClassifyNAT` of AndroidSource/src/Components/NatClassifier.cpp.
use Prim.Native.String.{◌++◌ as append}
use nat_data_collector.Prelude.{
  ℕ, String, Option, none, some, List, [], ◌∷◌, ◌++◌, ltb, if◌then◌else◌, ◌>>=◌,
}
use nat_data_collector.Prelude.Decimal.{to_string}
use nat_data_collector.Types.{ErrorType, NatType, Transaction, MetaDataField}
use nat_data_collector.Errors.{Error, no_error, add, failed}
use nat_data_collector.Json.{Conversion}
use nat_data_collector.Protocol.{DataPackage, create, create_error, get_object, add_meta}
use nat_data_collector.Data.{Address, CollectVector, MultiAddressVector}
use nat_data_collector.Collect.{Settings, Stage, Device}
use nat_data_collector.Collect.Run.{Formats, Event, start_collect_task}
use nat_data_collector.Classifier.{identify_nat_type, get_most_frequent_nat_type}

-- The messages of the loop that checks the configuration, if one of its returns is taken.
abbrev pub refuse : Settings → Option (List String)
refuse s =
    if ltb s.echo_server_num_services 2
    then some ("To classify NAT, at least 2 echo servers are required" ∷ [])
    else if ltb s.echo_server_num_services s.sample_size
    then some (
        "To classify NAT the same socket must be used for each request"
        ∷ "Sample size must be <= number of echo services" ∷ [])
    else none

abbrev pub or_next : Option (List String) → Option (List String) → Option (List String)
or_next none rest = rest
or_next (some messages) rest = some messages

unfoldable pub refuse_any : {S : Type 0} → List (Stage S) → Option (List String)
refuse_any [] = none
refuse_any (stage ∷ stages) = or_next (refuse stage.settings) (refuse_any stages)

-- The type and the messages of one stage; `max_delta` is `_max_prog_nat_delta`.
abbrev pub sample_of : ℕ → List Address → NatType × Error
sample_of max_delta (a ∷ b ∷ rest) = (
  identify_nat_type max_delta a b,
  record {
    error = ErrorType.ok;
    messages =
        "-- Collected NAT Sample --"
        ∷ append "Address : " a.ip_address
        ∷ append "Port 1  : " (to_string a.port)
        ∷ append "Port 2  : " (to_string b.port)
        ∷ [];
  },
)
sample_of max_delta _ = (
  NatType.undefined,
  record {
    error = ErrorType.warning;
    messages = "-- Collected NAT Sample --" ∷ "Failed to receive both ports" ∷ [];
  },
)

-- The loop over the stages.
unfoldable pub identify_stages :
    ℕ → List CollectVector → List NatType × Error → List NatType × Error
unfolding identify_nat_type to_string add
identify_stages max_delta [] (types, errors) = (types, errors)
identify_stages max_delta (c ∷ cs) (types, errors) =
    let sample = sample_of max_delta c.addresses in
    identify_stages max_delta cs (types ++ sample.0 ∷ [], add errors sample.1)

module _ {J : Type 0} (formats : Formats J) (nat_types : Conversion J NatType) where
  -- The answer for what was received.
  unfoldable pub classified : ℕ → List CollectVector → Option (DataPackage J)
  unfolding identify_stages get_most_frequent_nat_type create_error add_meta
  classified max_delta stages =
      let r = identify_stages max_delta stages ([], no_error) in
      add_meta formats.json nat_types
        (record (create_error formats.json r.1) {
          transaction = Transaction.client_receive_nat_type;
        })
        MetaDataField.nat_type (get_most_frequent_nat_type r.0)

  abbrev pub classify_received : ℕ → MultiAddressVector × Error → Option (DataPackage J)
  classify_received max_delta (rcvd, err) =
      if failed err then some (create_error formats.json err) else classified max_delta rcvd.stages

  abbrev pub classify_result : ℕ → DataPackage J → Option (DataPackage J)
  classify_result max_delta collect_result =
      if failed collect_result.error
      then some collect_result
      else classify_received max_delta
          (get_object formats.result collect_result formats.result.fresh)

  abbrev pub unless_refused : Option (List String) → Option (DataPackage J) → Option (DataPackage J)
  unless_refused none answer = answer
  unless_refused (some messages) answer = some (create formats.json ErrorType.error messages)

  -- `ClassifyNAT`, for the events of its collection.
  unfoldable pub classify_nat :
      {S : Type 0} → ℕ → Device → List (Stage S) → S → ℕ → List Event → Option (DataPackage J)
  unfolding refuse_any classified start_collect_task get_object create_error
  classify_nat max_delta device config state current_port events =
      unless_refused (refuse_any config) (
        start_collect_task formats device config state current_port events >>= λ r.
        classify_result max_delta r.1)
