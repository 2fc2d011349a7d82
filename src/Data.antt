-- ===== src/Data.antt =====
-- The structs that client and server exchange: Shared/Data/Address.h, Shared/Data/IPMetaData.h and
-- Shared/Data/Traversal.h. Field `data` of the source is `addresses` here. A uint16_t, uint32_t or
-- uint64_t is a number below 2 ^ 16, 2 ^ 32 or 2 ^ 64. Also Shared/Data/WindowData.h and
-- Shared/Data/ScoreboardData.h.
use nat_data_collector.Prelude.{ℕ, String, Bool, false, List, []}
use nat_data_collector.Prelude.OrderedMap.{Map}
use nat_data_collector.Types.{NatType, ConnectionType}
use nat_data_collector.Protocol.{DataPackage, app_version, empty_package}
use nat_data_collector.Json.{Json}

pub record Address : Type 0 where
  pub ip_address : String
  pub port : ℕ
  pub index : ℕ
  pub rtt_ms : ℕ

abbrev pub blank_address : Address
blank_address = record { ip_address = "0.0.0.0"; port = 0; index = 0; rtt_ms = 0 }

pub record CollectVector : Type 0 where
  pub addresses : List Address
  pub sampling_rate_ms : ℕ

pub record MultiAddressVector : Type 0 where
  pub stages : List CollectVector

pub record ClientMetaData : Type 0 where
  pub isp : String
  pub country : String
  pub region : String
  pub city : String
  pub timezone : String
  pub android_id : String
  pub nat_type : NatType
  pub version : String

-- The fields of the source's `IPMetaData` that the program uses; the others are `status`,
-- `countryCode`, `regionName`, `zip`, `lat`, `lon`, `org`, `as` and `query`.
pub record IpMetaData : Type 0 where
  pub country : String
  pub region : String
  pub city : String
  pub timezone : String
  pub isp : String

abbrev pub blank_ip_meta_data : IpMetaData
blank_ip_meta_data = record { country = ""; region = ""; city = ""; timezone = ""; isp = "" }

-- The source leaves `nat_type` of a default-constructed ClientMetaData indeterminate; `nat_type`
-- here is the value that it happens to have.
abbrev pub blank_client_meta_data : NatType → ClientMetaData
blank_client_meta_data nat_type = record {
  isp = "";
  country = "";
  region = "";
  city = "";
  timezone = "";
  android_id = "";
  nat_type = nat_type;
  version = app_version;
}

pub record NatSample : Type 0 where
  pub meta_data : ClientMetaData
  pub timestamp : String
  pub connection_type : ConnectionType
  pub stage_results : List CollectVector
  pub delay_between_samples_ms : ℕ

pub record TraversalClient : Type 0 where
  pub success_index : ℕ
  pub traversal_attempts : ℕ
  pub analyze_results : MultiAddressVector
  pub connection_type : ConnectionType
  pub prediction : Address
  pub start_time_stamp : String
  pub duration_ms : ℕ
  pub meta_data : ClientMetaData

abbrev pub blank_traversal_client : TraversalClient
blank_traversal_client = record {
  success_index = 0;
  traversal_attempts = 0;
  analyze_results = record { stages = [] };
  connection_type = ConnectionType.not_connected;
  prediction = blank_address;
  start_time_stamp = "";
  duration_ms = 0;
  meta_data = blank_client_meta_data NatType.undefined;
}

pub record TraversalResult : Type 0 where
  pub success : Bool
  pub time_stamp : String
  pub client_punch_hole : TraversalClient
  pub client_target_hole : TraversalClient

abbrev pub blank_traversal_result : TraversalResult
blank_traversal_result = record {
  success = false;
  time_stamp = "";
  client_punch_hole = blank_traversal_client;
  client_target_hole = blank_traversal_client;
}

-- `prediction` is the package that the server keeps for a user; it is not serialized.
pub record User (J : Type 0) : Type 0 where
  pub session : ℕ
  pub username : String
  pub prediction : DataPackage J

pub record Lobby (J : Type 0) : Type 0 where
  pub owner : User J
  pub joined : List (User J)
  pub result : TraversalResult

module _ {J : Type 0} (json : Json J) where
  -- `User{session, username}`.
  abbrev pub user : ℕ → String → User J
  user session username = record {
    session = session;
    username = username;
    prediction = empty_package json;
  }

-- `Lobby{owner, joined}`.
abbrev pub lobby : {J : Type 0} → User J → List (User J) → Lobby J
lobby owner joined = record { owner = owner; joined = joined; result = blank_traversal_result }

-- `GetAllLobbies`: the lobbies under the session of their owner.
abbrev pub AllLobbies : Type 0 → Type 0
AllLobbies J = Map (Lobby J)

pub record VersionUpdate : Type 0 where
  pub latest_version : String
  pub download_link : String
  pub version_header : String
  pub version_details : String

abbrev pub blank_version_update : VersionUpdate
blank_version_update = record {
  latest_version = "";
  download_link = "";
  version_header = "";
  version_details = "";
}

pub record InformationUpdate : Type 0 where
  pub information_header : String
  pub information_details : String
  pub identifier : String

abbrev pub blank_information_update : InformationUpdate
blank_information_update = record {
  information_header = "";
  information_details = "";
  identifier = "";
}

-- `Scores` holds a list of these.
pub record ClientId : Type 0 where
  pub android_id : String
  pub username : String
  pub show_score : Bool
  pub uploaded_samples : ℕ
