-- ===== src/Types.antt =====
-- Shared/SharedTypes.h: the enumerations that client and server share, their numbers, and the
-- constant maps from enumerators to text.
pub mod Names
use nat_data_collector.Prelude.{ℕ, ◌%◌, String, Bool, true, false, Option, some}

pub data ErrorType : Type 0 where
  ok answer warning error : ErrorType

-- `unknown` is a value that is none of the enumerators, as any number can come over the wire.
pub data Transaction : Type 0 where
  no_transaction error client_start client_connected client_receive_lobbies : Transaction
  client_confirm_join_lobby client_start_analyze_nat client_receive_collected_ports : Transaction
  client_receive_nat_type client_receive_prediction client_receive_traceroute : Transaction
  client_receive_version_data client_receive_information_data client_receive_collection :
      Transaction
  client_receive_scores client_timer_over client_start_traversal client_traversal_result :
      Transaction
  client_upload_success client_end server_start server_insert_mongo server_get_scores : Transaction
  server_get_version_data server_get_information_data server_get_collection : Transaction
  server_create_lobby server_ask_join_lobby server_confirm_lobby server_exchange_prediction :
      Transaction
  server_upload_traversal_result server_end : Transaction
  unknown : ℕ → Transaction

pub data MetaDataField : Type 0 where
  db_name coll_name curr_version identifier android_id users_coll_name data_coll_name :
      MetaDataField
  username session join_session_key user_session_key holepunch_role success nat_type : MetaDataField
  traversal_rate traversal_size : MetaDataField

pub data HolepunchRole : Type 0 where
  punch_holes target_holes : HolepunchRole

pub data PhysicalDeviceError : Type 0 where
  no_error sockets_exhausted : PhysicalDeviceError

pub data NatType : Type 0 where
  undefined cone progressing_sym random_sym : NatType

pub data ConnectionType : Type 0 where
  not_connected wifi mobile wimax ethernet bluetooth twog_gprs twog_edge twog_umts : ConnectionType
  twog_cdma threeg_evdo_0 threeg_evdo_a twog_rtt threeg_hsdpa threeg_hsupa threeg_hspa iden :
      ConnectionType
  threeg_evdo_b fourg_lte threeg_ehrpd threeg_hspap twog_gsm threeg_td_scdma fourg_iwlan :
      ConnectionType
  fourg_lte_ca fifveg_nr : ConnectionType

-- The number of an enumerator, as `static_cast` gives it and `std::map` orders by it.
unfoldable pub error_type_code : ErrorType → ℕ
error_type_code ErrorType.ok = 0
error_type_code ErrorType.answer = 1
error_type_code ErrorType.warning = 2
error_type_code ErrorType.error = 3

unfoldable pub transaction_code : Transaction → ℕ
transaction_code (Transaction.unknown n) = n % 4294967296
transaction_code Transaction.no_transaction = 0
transaction_code Transaction.error = 1
transaction_code Transaction.client_start = 2
transaction_code Transaction.client_connected = 3
transaction_code Transaction.client_receive_lobbies = 4
transaction_code Transaction.client_confirm_join_lobby = 5
transaction_code Transaction.client_start_analyze_nat = 6
transaction_code Transaction.client_receive_collected_ports = 7
transaction_code Transaction.client_receive_nat_type = 8
transaction_code Transaction.client_receive_prediction = 9
transaction_code Transaction.client_receive_traceroute = 10
transaction_code Transaction.client_receive_version_data = 11
transaction_code Transaction.client_receive_information_data = 12
transaction_code Transaction.client_receive_collection = 13
transaction_code Transaction.client_receive_scores = 14
transaction_code Transaction.client_timer_over = 15
transaction_code Transaction.client_start_traversal = 16
transaction_code Transaction.client_traversal_result = 17
transaction_code Transaction.client_upload_success = 18
transaction_code Transaction.client_end = 19
transaction_code Transaction.server_start = 20
transaction_code Transaction.server_insert_mongo = 21
transaction_code Transaction.server_get_scores = 22
transaction_code Transaction.server_get_version_data = 23
transaction_code Transaction.server_get_information_data = 24
transaction_code Transaction.server_get_collection = 25
transaction_code Transaction.server_create_lobby = 26
transaction_code Transaction.server_ask_join_lobby = 27
transaction_code Transaction.server_confirm_lobby = 28
transaction_code Transaction.server_exchange_prediction = 29
transaction_code Transaction.server_upload_traversal_result = 30
transaction_code Transaction.server_end = 31

unfoldable pub nat_type_code : NatType → ℕ
nat_type_code NatType.undefined = 0
nat_type_code NatType.cone = 1
nat_type_code NatType.progressing_sym = 2
nat_type_code NatType.random_sym = 3

unfoldable pub connection_type_code : ConnectionType → ℕ
connection_type_code ConnectionType.not_connected = 2
connection_type_code ConnectionType.wifi = 1
connection_type_code ConnectionType.mobile = 0
connection_type_code ConnectionType.wimax = 6
connection_type_code ConnectionType.ethernet = 9
connection_type_code ConnectionType.bluetooth = 7
connection_type_code ConnectionType.twog_gprs = 10
connection_type_code ConnectionType.twog_edge = 20
connection_type_code ConnectionType.twog_umts = 30
connection_type_code ConnectionType.twog_cdma = 40
connection_type_code ConnectionType.threeg_evdo_0 = 50
connection_type_code ConnectionType.threeg_evdo_a = 60
connection_type_code ConnectionType.twog_rtt = 70
connection_type_code ConnectionType.threeg_hsdpa = 80
connection_type_code ConnectionType.threeg_hsupa = 90
connection_type_code ConnectionType.threeg_hspa = 100
connection_type_code ConnectionType.iden = 110
connection_type_code ConnectionType.threeg_evdo_b = 120
connection_type_code ConnectionType.fourg_lte = 130
connection_type_code ConnectionType.threeg_ehrpd = 140
connection_type_code ConnectionType.threeg_hspap = 150
connection_type_code ConnectionType.twog_gsm = 160
connection_type_code ConnectionType.threeg_td_scdma = 170
connection_type_code ConnectionType.fourg_iwlan = 180
connection_type_code ConnectionType.fourg_lte_ca = 190
connection_type_code ConnectionType.fifveg_nr = 200

-- A look-up in a constant map; `none` would be a key that the map lacks.
unfoldable pub meta_data_to_string : MetaDataField → Option String
meta_data_to_string MetaDataField.db_name = some "db_name"
meta_data_to_string MetaDataField.coll_name = some "coll_name"
meta_data_to_string MetaDataField.curr_version = some "curr_version"
meta_data_to_string MetaDataField.identifier = some "identifier"
meta_data_to_string MetaDataField.android_id = some "android_id"
meta_data_to_string MetaDataField.users_coll_name = some "users_coll_name"
meta_data_to_string MetaDataField.data_coll_name = some "data_coll_name"
meta_data_to_string MetaDataField.username = some "username"
meta_data_to_string MetaDataField.session = some "session"
meta_data_to_string MetaDataField.join_session_key = some "join_session_key"
meta_data_to_string MetaDataField.user_session_key = some "user_session_key"
meta_data_to_string MetaDataField.holepunch_role = some "holepunch_role"
meta_data_to_string MetaDataField.success = some "success"
meta_data_to_string MetaDataField.nat_type = some "nat_type"
meta_data_to_string MetaDataField.traversal_rate = some "traversal_rate"
meta_data_to_string MetaDataField.traversal_size = some "traversal_size"

unfoldable pub holepunch_role_to_string : HolepunchRole → Option String
holepunch_role_to_string HolepunchRole.punch_holes = some "Punch Holes"
holepunch_role_to_string HolepunchRole.target_holes = some "Target Holes"

unfoldable pub nat_to_string : NatType → Option String
nat_to_string NatType.undefined = some "Undefined"
nat_to_string NatType.cone = some "Full/Restricted Cone"
nat_to_string NatType.progressing_sym = some "Progressing Symmetric"
nat_to_string NatType.random_sym = some "Random Symmetric"

unfoldable pub connect_type_to_string : ConnectionType → Option String
connect_type_to_string ConnectionType.not_connected = some "Not Connected"
connect_type_to_string ConnectionType.wifi = some "WIFI"
connect_type_to_string ConnectionType.mobile = some "Mobile"
connect_type_to_string ConnectionType.wimax = some "Wimax"
connect_type_to_string ConnectionType.ethernet = some "Ethernet"
connect_type_to_string ConnectionType.bluetooth = some "Bluetooth"
connect_type_to_string ConnectionType.twog_gprs = some "2G GPRS"
connect_type_to_string ConnectionType.twog_edge = some "2G EDGE"
connect_type_to_string ConnectionType.twog_umts = some "2G UMTS"
connect_type_to_string ConnectionType.twog_cdma = some "2G CDMA"
connect_type_to_string ConnectionType.threeg_evdo_0 = some "3G EVDO 0"
connect_type_to_string ConnectionType.threeg_evdo_a = some "3G EVDO A"
connect_type_to_string ConnectionType.twog_rtt = some "2G RTT"
connect_type_to_string ConnectionType.threeg_hsdpa = some "3G HSDPA"
connect_type_to_string ConnectionType.threeg_hsupa = some "3G HSUPA"
connect_type_to_string ConnectionType.threeg_hspa = some "3G HSPA"
connect_type_to_string ConnectionType.iden = some "IDEN"
connect_type_to_string ConnectionType.threeg_evdo_b = some "3G EVDO B"
connect_type_to_string ConnectionType.fourg_lte = some "4G LTE"
connect_type_to_string ConnectionType.threeg_ehrpd = some "3G EHRPD"
connect_type_to_string ConnectionType.threeg_hspap = some "3G HSPAP"
connect_type_to_string ConnectionType.twog_gsm = some "2G GSM"
connect_type_to_string ConnectionType.threeg_td_scdma = some "3G TD SCDMA"
connect_type_to_string ConnectionType.fourg_iwlan = some "4G IWLAN"
connect_type_to_string ConnectionType.fourg_lte_ca = some "4G LTE CA"
connect_type_to_string ConnectionType.fifveg_nr = some "5G NR"

-- `nat_type == NATType::RANDOM_SYM`.
abbrev pub is_random_sym : NatType → Bool
is_random_sym NatType.random_sym = true
is_random_sym _ = false
