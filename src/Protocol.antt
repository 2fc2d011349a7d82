-- ===== src/Protocol.antt =====
-- shared::DataPackage and shared::MetaVariant of Shared/SharedProtocol.h. A `none` is an exception
-- of nlohmann::json that leaves the function.
pub mod Meta
pub mod Chains
use Prim.Native.String.{◌++◌ as append}
use nat_data_collector.Prelude.{
  ℕ, String, Bool, true, false, not, Option, none, some, List, [], ◌∷◌, if◌then◌else◌, ◌>>=◌,
}
use nat_data_collector.Types.{ErrorType, Transaction, MetaDataField, meta_data_to_string}
use nat_data_collector.Json.{Json, Conversion, Codec}
use nat_data_collector.Errors.{Error, no_error, add, is, failed}

-- APP_VERSION, which CMakeLists.txt sets.
abbrev pub app_version : String
app_version = "v0.1.0"

pub record DataPackage (J : Type 0) : Type 0 where
  pub content : J
  pub meta_data : J
  pub transaction : Transaction
  pub error : Error
  pub version : String

-- The values read so far, the error so far, and the document that they are read from.
pub record MetaVariant (J A : Type 0) : Type 0 where
  pub values : A
  pub error : Error
  pub meta_data : J

module _ {J : Type 0} (json : Json J) where
  -- `DataPackage()`.
  unfoldable pub empty_package : DataPackage J
  empty_package = record {
    content = json.null;
    meta_data = json.null;
    transaction = Transaction.no_transaction;
    error = no_error;
    version = app_version;
  }

  -- `DataPackage::Create(err)`, and `Create<E>(messages)` with the error built from both.
  unfoldable pub create_error : Error → DataPackage J
  unfolding empty_package
  create_error err = record empty_package { error = err }

  abbrev pub create : ErrorType → List String → DataPackage J
  create e messages = create_error (record { error = e; messages = messages })

  -- `DataPackage::Create(nullptr, transaction)`.
  unfoldable pub create_bare : Transaction → DataPackage J
  unfolding empty_package
  create_bare t = record empty_package { transaction = t }

  -- `DataPackage::Create(&data, transaction)` once the data is serialized.
  abbrev pub create_serialized : J × List String → Transaction → DataPackage J
  create_serialized (j, []) t = record (create_bare t) {
    content = j;
    error = record { error = ErrorType.answer; messages = [] };
  }
  create_serialized (j, m ∷ ms) t = create ErrorType.error (m ∷ ms)

  unfoldable pub create_data : {A : Type 0} → Codec J A → A → Transaction → DataPackage J
  unfolding create_error create_bare
  create_data codec a t = create_serialized (codec.serialize a) t

  -- `DataPackage::Add`; the look-up of the key is `std::map::at`, which throws on a missing key.
  unfoldable pub add_meta :
      {M : Type 0} → Conversion J M → DataPackage J → MetaDataField → M → Option (DataPackage J)
  unfolding meta_data_to_string
  add_meta conv pkg f m = meta_data_to_string f >>= λ k.
      some (record pkg { meta_data = json.put pkg.meta_data k (conv.to_json m) })

  -- `DataPackage::Has`.
  unfoldable pub has : DataPackage J → MetaDataField → Option Bool
  has pkg f = meta_data_to_string f >>= λ k. some (json.contains pkg.meta_data k)

  -- `MetaVariant::Get<M>(field)`: the first error stays, with value-initialised values behind it.
  abbrev pub with_blank :
      {A M : Type 0} → Conversion J M → MetaVariant J A → Error → MetaVariant J (A × M)
  with_blank conv v e = record {
    values = (v.values, conv.blank);
    error = e;
    meta_data = v.meta_data;
  }

  abbrev pub extra_error : Error → String → Error
  extra_error e message = add e (record { error = ErrorType.error; messages = message ∷ [] })

  abbrev pub get_key :
      {A M : Type 0}
      → Conversion J M
      → MetaVariant J A
      → Option String
      → Option (MetaVariant J (A × M))
  get_key conv v none =
      some (with_blank conv v (extra_error v.error "Meta data field has no string representation"))
  get_key conv v (some k) =
      if not (json.contains v.meta_data k)
      then some (
          with_blank conv v
            (extra_error v.error (append "Meta data json misses mandatory field : " k)))
      else conv.from_json (json.at v.meta_data k) >>= λ obj.
          some (record { values = (v.values, obj); error = v.error; meta_data = v.meta_data })

  unfoldable pub get :
      {A M : Type 0}
      → Conversion J M
      → MetaVariant J A
      → MetaDataField
      → Option (MetaVariant J (A × M))
  get conv v f =
      if failed v.error
      then some (with_blank conv v v.error)
      else get_key conv v (meta_data_to_string f)

  -- `DataPackage::Get<M>(field)` starts the chain.
  abbrev pub start : DataPackage J → MetaVariant J (Unit {0})
  start pkg = record { values = tt; error = pkg.error; meta_data = pkg.meta_data }

-- `DataPackage::Get(object)`: a package that is no ANSWER leaves the object as it is and gives
-- back its own error, which need not be a failure.
abbrev pub parsed : {A : Type 0} → A × List String → A × Error
parsed (a, []) = (a, no_error)
parsed (a, m ∷ ms) = (a, record { error = ErrorType.error; messages = m ∷ ms })

unfoldable pub get_object : {J A : Type 0} → Codec J A → DataPackage J → A → A × Error
get_object codec pkg object =
    if not (is ErrorType.answer pkg.error)
    then (object, pkg.error)
    else parsed (codec.deserialize object pkg.content)

-- `DataPackage::Get<T>()` starts a chain with an object.
abbrev pub start_object : {J A : Type 0} → Codec J A → DataPackage J → MetaVariant J (Unit {0} × A)
start_object codec pkg =
    let (t, err) = get_object codec pkg codec.fresh in
    record { values = (tt, t); error = err; meta_data = pkg.meta_data }
