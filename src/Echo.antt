-- ===== src/Echo.antt =====
-- The UDP service that tells a client its address: ServerSource/src/Server/AddressRequest.cpp.
pub mod Answers
use nat_data_collector.Prelude.{ℕ, String, Option, none, some, List, [], ◌∷◌, if◌then◌else◌}
use nat_data_collector.Errors.{ErrorCode}
use nat_data_collector.Data.{Address}
use nat_data_collector.Collect.Steps.{fails}
use nat_data_collector.Collect.Run.{Formats}

abbrev pub answered : {J : Type 0} → J × List String → Option J
answered (document, []) = some document
answered (document, m ∷ ms) = none

module _ {J : Type 0} (formats : Formats J) where
  abbrev pub answer_to : String → ℕ → Address × List String → Option J
  answer_to ip_address port (address, []) = answered (
      formats.address.serialize (record {
        ip_address = ip_address;
        port = port;
        index = address.index;
        rtt_ms = address.rtt_ms;
      }))
  answer_to ip_address port (address, m ∷ ms) = none

  -- `handle_receive`: the document that goes back to the endpoint, whose address and port are given;
  -- `none` is no answer. The service then receives again in every case.
  unfoldable pub handle_receive : ErrorCode → List ℕ → String → ℕ → Option J
  handle_receive error buffer ip_address port =
      let json_buffer = formats.from_msgpack buffer in
      if fails error
      then none
      else if formats.json.is_null json_buffer
      then none
      else answer_to ip_address port (formats.address.deserialize formats.address.fresh json_buffer)
