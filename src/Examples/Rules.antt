-- ===== src/Examples/Rules.antt =====
-- Errors, names, meta data, the classification, sessions and headers at concrete inputs.
use nat_data_collector.Prelude.{
  ℕ, String, ◌≡◌, ◌≤◌, ◌∷◌, ◌++◌, [], refl, true, List, All, arith, length, some,
}
use nat_data_collector.Types.{ErrorType, MetaDataField, NatType, nat_type_code}
use nat_data_collector.Errors.{Error, ErrorCode, no_error}
use nat_data_collector.Protocol.{MetaVariant}
use nat_data_collector.Protocol.Meta.{write_then_read, write_then_read_lem}
use nat_data_collector.Classifier.{get_most_frequent_nat_type}
use nat_data_collector.Classifier.Largest.{IsIn, get_most_frequent_nat_type_lem}
use nat_data_collector.Transactions.{literal_at}
use nat_data_collector.Session.{Event, new_session, run, has_tcp_error}
use nat_data_collector.Session.Outbox.{queued, run_in_order, IsBusy, drain, run_drains}
use nat_data_collector.Framing.{read_all}
use nat_data_collector.Framing.Stream.{frames, read_all-frames}
use nat_data_collector.Examples.{
  Doc, doc_json, doc_json-IsJson, texts, numbers, texts-IsConversion, numbers-IsConversion,
  create_request,
}

abbrev warned : Error
warned = record { error = ErrorType.warning; messages = "slow" ∷ [] }

abbrev broken : Error
broken = record { error = ErrorType.error; messages = "gone" ∷ [] }

write_then_read_lem_example :
    write_then_read doc_json texts numbers create_request
      (MetaDataField.db_name, "nat")
      (MetaDataField.session, 7)
    ≡ some (((tt, "nat"), 7), create_request.error)
unfolding doc_json create_request
write_then_read_lem_example =
    write_then_read_lem doc_json doc_json-IsJson texts numbers create_request MetaDataField.db_name
      MetaDataField.session "nat" 7 texts-IsConversion numbers-IsConversion refl refl (ground arith)

abbrev no_fields : MetaVariant Doc (Unit {0})
no_fields = record { values = tt; error = no_error; meta_data = Doc.nil }

abbrev missing : MetaVariant Doc (Unit {0} × String)
missing = record {
  values = (tt, "");
  error = record {
    error = ErrorType.error;
    messages = "Meta data json misses mandatory field : username" ∷ [];
  };
  meta_data = Doc.nil;
}

get_most_frequent_nat_type_lem_example :
    let best = get_most_frequent_nat_type (NatType.cone ∷ NatType.cone ∷ NatType.random_sym ∷ []) in
    IsIn best (NatType.cone ∷ NatType.cone ∷ NatType.random_sym ∷ [])
    × All
        (λ u. nat_type_code u ≤ nat_type_code best)
        (NatType.cone ∷ NatType.cone ∷ NatType.random_sym ∷ [])
get_most_frequent_nat_type_lem_example =
    get_most_frequent_nat_type_lem NatType.cone (NatType.cone ∷ NatType.random_sym ∷ [])

abbrev busy : List Event
busy = Event.queue (1 ∷ []) ∷ Event.queue (2 ∷ []) ∷ Event.complete ErrorCode.success ∷ []

run_in_order_example :
    let s = run new_session busy in
    (s.sent ++ s.outbox ≡ queued busy) × (s.pending ≤ 1) × (s.pending ≤ length s.outbox)
run_in_order_example = run_in_order busy

run_drains_example :
    let s = run new_session busy in
    IsBusy s × ((run s (drain (length s.outbox))).sent ≡ queued busy)
unfolding has_tcp_error
run_drains_example = run_drains busy (refl, (refl, (refl, tt)))

abbrev two_messages : List (List ℕ)
two_messages = (1 ∷ 2 ∷ []) ∷ (3 ∷ []) ∷ []

read_all-frames_example : read_all 3 (frames two_messages) ≡ (two_messages, [], true)
read_all-frames_example =
    read_all-frames 3 two_messages (omega arith) (omega arith, (omega arith, tt))

-- The pointer into the text is moved by the number of the transaction.
literal_at_three :
    literal_at "No handler implemented for type " 3 ≡ some "handler implemented for type "
unfolding literal_at
literal_at_three = refl
