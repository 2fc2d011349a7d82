-- ===== src/Types/Names.antt =====
-- That the enumerators of Shared/SharedTypes.h are told apart by their texts and their numbers.
use text.Mathlib.Text.{◌==◌ as str_eq}
use nat_data_collector.Prelude.{String, Option, none, some, ◌≡◌, refl, ap, if◌then◌else◌, ◌>>=◌}
use nat_data_collector.Types.{MetaDataField, meta_data_to_string}

-- Which field a key names.
field_of_key : String → Option MetaDataField
field_of_key s =
    if str_eq s "db_name"
    then some MetaDataField.db_name
    else if str_eq s "coll_name"
    then some MetaDataField.coll_name
    else if str_eq s "curr_version"
    then some MetaDataField.curr_version
    else if str_eq s "identifier"
    then some MetaDataField.identifier
    else if str_eq s "android_id"
    then some MetaDataField.android_id
    else if str_eq s "users_coll_name"
    then some MetaDataField.users_coll_name
    else if str_eq s "data_coll_name"
    then some MetaDataField.data_coll_name
    else if str_eq s "username"
    then some MetaDataField.username
    else if str_eq s "session"
    then some MetaDataField.session
    else if str_eq s "join_session_key"
    then some MetaDataField.join_session_key
    else if str_eq s "user_session_key"
    then some MetaDataField.user_session_key
    else if str_eq s "holepunch_role"
    then some MetaDataField.holepunch_role
    else if str_eq s "success"
    then some MetaDataField.success
    else if str_eq s "nat_type"
    then some MetaDataField.nat_type
    else if str_eq s "traversal_rate"
    then some MetaDataField.traversal_rate
    else if str_eq s "traversal_size"
    then some MetaDataField.traversal_size
    else none

field_of_key-meta_data_to_string :
    (f : MetaDataField) → (meta_data_to_string f >>= field_of_key) ≡ some f
unfolding meta_data_to_string field_of_key
field_of_key-meta_data_to_string MetaDataField.db_name = refl
field_of_key-meta_data_to_string MetaDataField.coll_name = refl
field_of_key-meta_data_to_string MetaDataField.curr_version = refl
field_of_key-meta_data_to_string MetaDataField.identifier = refl
field_of_key-meta_data_to_string MetaDataField.android_id = refl
field_of_key-meta_data_to_string MetaDataField.users_coll_name = refl
field_of_key-meta_data_to_string MetaDataField.data_coll_name = refl
field_of_key-meta_data_to_string MetaDataField.username = refl
field_of_key-meta_data_to_string MetaDataField.session = refl
field_of_key-meta_data_to_string MetaDataField.join_session_key = refl
field_of_key-meta_data_to_string MetaDataField.user_session_key = refl
field_of_key-meta_data_to_string MetaDataField.holepunch_role = refl
field_of_key-meta_data_to_string MetaDataField.success = refl
field_of_key-meta_data_to_string MetaDataField.nat_type = refl
field_of_key-meta_data_to_string MetaDataField.traversal_rate = refl
field_of_key-meta_data_to_string MetaDataField.traversal_size = refl

-- Two meta data fields with one key are one field.
pub meta_data_to_string_injective :
    (f g : MetaDataField) → meta_data_to_string f ≡ meta_data_to_string g → f ≡ g
meta_data_to_string_injective f g e = cc (
  field_of_key-meta_data_to_string f,
  field_of_key-meta_data_to_string g,
  ap (λ k. k >>= field_of_key) e,
)

-- Every meta data field has a key.
pub meta_data_to_string_total :
    (f : MetaDataField) → (k : String) × (meta_data_to_string f ≡ some k)
unfolding meta_data_to_string
meta_data_to_string_total MetaDataField.db_name = ("db_name", refl)
meta_data_to_string_total MetaDataField.coll_name = ("coll_name", refl)
meta_data_to_string_total MetaDataField.curr_version = ("curr_version", refl)
meta_data_to_string_total MetaDataField.identifier = ("identifier", refl)
meta_data_to_string_total MetaDataField.android_id = ("android_id", refl)
meta_data_to_string_total MetaDataField.users_coll_name = ("users_coll_name", refl)
meta_data_to_string_total MetaDataField.data_coll_name = ("data_coll_name", refl)
meta_data_to_string_total MetaDataField.username = ("username", refl)
meta_data_to_string_total MetaDataField.session = ("session", refl)
meta_data_to_string_total MetaDataField.join_session_key = ("join_session_key", refl)
meta_data_to_string_total MetaDataField.user_session_key = ("user_session_key", refl)
meta_data_to_string_total MetaDataField.holepunch_role = ("holepunch_role", refl)
meta_data_to_string_total MetaDataField.success = ("success", refl)
meta_data_to_string_total MetaDataField.nat_type = ("nat_type", refl)
meta_data_to_string_total MetaDataField.traversal_rate = ("traversal_rate", refl)
meta_data_to_string_total MetaDataField.traversal_size = ("traversal_size", refl)
