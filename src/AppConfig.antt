-- ===== src/AppConfig.antt =====
-- The configuration file of the app: AndroidSource/src/Components/Config.h and Config.cpp. The asset
-- manager of Android is a parameter: there is none, the file is not there, or it holds a text.
use nat_data_collector.Prelude.{ℕ, String, Bool, true, false, [], ◌∷◌}
use nat_data_collector.Types.{ErrorType}
use nat_data_collector.Json.{Json}
use nat_data_collector.Protocol.{DataPackage, app_version, empty_package, create}
use nat_data_collector.Framing.{max_msg_length_decimals}
use nat_data_collector.Collect.{socket_timeout_ms}

pub record Mongo : Type 0 where
  pub db_name : String
  pub coll_version_name : String
  pub coll_information_name : String
  pub coll_users_name : String
  pub coll_collect_config : String
  pub coll_traverse_config : String

pub record NatIdent : Type 0 where
  pub sample_size : ℕ
  pub max_delta_progressing_nat : ℕ

pub record App : Type 0 where
  pub random_nat_required : Bool
  pub traversal_feature_enabled : Bool
  pub max_log_lines : ℕ
  pub use_debug_collect_config : Bool

-- `Config::Data`; `version` is its field `app_version`.
pub record AppConfig : Type 0 where
  pub server_address : String
  pub server_transaction_port : ℕ
  pub server_echo_start_port : ℕ
  pub server_echo_port_size : ℕ
  pub global_socket_timeout_ms : ℕ
  pub version : String
  pub max_msg_length_decimals : ℕ
  pub mongo : Mongo
  pub nat_ident : NatIdent
  pub app : App

abbrev pub blank_app_config : AppConfig
blank_app_config = record {
  server_address = "";
  server_transaction_port = 0;
  server_echo_start_port = 0;
  server_echo_port_size = 0;
  global_socket_timeout_ms = socket_timeout_ms;
  version = app_version;
  max_msg_length_decimals = max_msg_length_decimals;
  mongo = record {
    db_name = "";
    coll_version_name = "";
    coll_information_name = "";
    coll_users_name = "";
    coll_collect_config = "";
    coll_traverse_config = "";
  };
  nat_ident = record { sample_size = 5; max_delta_progressing_nat = 50 };
  app = record {
    random_nat_required = false;
    traversal_feature_enabled = true;
    max_log_lines = 400;
    use_debug_collect_config = false;
  };
}

pub data Asset : Type 0 where
  no_manager no_file : Asset
  holding : String → Asset

module _ {J : Type 0} (json : Json J) where
  -- `ReadAssetFile`.
  unfoldable pub read_asset_file : Asset → DataPackage J
  unfolding empty_package
  read_asset_file Asset.no_manager =
      create json ErrorType.error ("No AssetManager, Initialization Error" ∷ [])
  read_asset_file Asset.no_file = create json ErrorType.error ("Invalid file path" ∷ [])
  read_asset_file (Asset.holding text) = record (empty_package json) {
    content = json.parse text;
    error = record { error = ErrorType.answer; messages = [] };
  }
