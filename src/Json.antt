-- ===== src/Json.antt =====
-- What the program takes from the JSON and the serialization libraries (nlohmann::json and
-- JSerializer, git submodules that are not part of the repository's own text): JSON documents `J`
-- with their member access, the conversion of single values, and the codecs of structs.
use text.Mathlib.Text.{◌==◌ as str_eq}
use nat_data_collector.Prelude.{String, ◌≡◌, Bool, true, false, Option, some, List, if◌then◌else◌}

-- `contains(key)`, `operator[]` as a read of a member that is there, and `operator[]` as a write.
-- `open_object` tells whether a write of a member is legal: on an object, or on null, which the
-- write turns into an object. `parse` does not throw.
pub record Json (J : Type 0) : Type 0 where
  pub null : J
  pub is_null : J → Bool
  pub open_object : J → Bool
  pub contains : J → String → Bool
  pub at : J → String → J
  pub put : J → String → J → J
  -- `dump` of a document whose strings are all UTF-8; for another one the library throws.
  pub dump : J → String
  pub parse : String → J

-- The documented behaviour of these.
pub record IsJson {J : Type 0} (json : Json J) : Type 0 where
  pub open_null : json.open_object json.null ≡ true
  pub open_put : (o : J) (k : String) (v : J) → json.open_object (json.put o k v) ≡ true
  pub contains_null : (k : String) → json.contains json.null k ≡ false
  pub contains_put :
      (o : J) (k i : String) (v : J)
      → json.open_object o ≡ true
      → json.contains (json.put o k v) i ≡ (if str_eq k i then true else json.contains o i)
  pub at_put :
      (o : J) (k i : String) (v : J)
      → json.open_object o ≡ true
      → json.at (json.put o k v) i ≡ (if str_eq k i then v else json.at o i)

-- The conversion of a C++ value to JSON and back; `none` is the exception that nlohmann::json
-- throws when the document holds a value of another type. `blank` is the value-initialised `M()`.
pub record Conversion (J M : Type 0) : Type 0 where
  pub blank : M
  pub to_json : M → J
  pub from_json : J → Option M

pub record IsConversion {J M : Type 0} (conv : Conversion J M) : Type 0 where
  pub from_to : (m : M) → conv.from_json (conv.to_json m) ≡ some m

-- `SerializeObjectJson` and `DeserializeObject` of a struct, each with the messages of the errors
-- that it reports. Deserialization starts from
-- the object as it is; it reads a document or the text of one.
pub record Codec (J A : Type 0) : Type 0 where
  pub fresh : A
  pub serialize : A → J × List String
  pub deserialize : A → J → A × List String
  pub deserialize_text : A → String → A × List String
