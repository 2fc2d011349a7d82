-- ===== src/Examples.antt =====
-- Concrete libraries, packages and servers for the examples.
pub mod Requests
pub mod Messages
pub mod Rules
pub mod Predictions
pub mod Collections
pub mod App
use text.Mathlib.Text.{◌==◌ as str_eq}
use nat_data_collector.Prelude.{
  ℕ, String, ◌≡◌, refl, Bool, true, false, Option, none, some, List, [], ◌∷◌, length, if◌then◌else◌,
}
use nat_data_collector.Types.{Transaction}
use nat_data_collector.Json.{Json, IsJson, Conversion, IsConversion, Codec}
use nat_data_collector.Protocol.{DataPackage, create_bare}
use nat_data_collector.Framing.Package.{Wire, ContentSize}
use nat_data_collector.Data.{
  User, Lobby, user, lobby, blank_traversal_client, blank_traversal_result, blank_version_update,
  blank_information_update,
}
use nat_data_collector.Database.{Mongo}
use nat_data_collector.Server.{Server, Libs}

-- A document: null, a value, or an object with a member in front of others.
pub data Doc : Type 0 where
  nil : Doc
  words : String → Doc
  number : ℕ → Doc
  flag : Bool → Doc
  member : String → Doc → Doc → Doc

unfoldable pub doc_is_null : Doc → Bool
doc_is_null nil = true
doc_is_null _ = false

unfoldable pub doc_is_open : Doc → Bool
doc_is_open nil = true
doc_is_open (member k v o) = true
doc_is_open _ = false

unfoldable pub doc_contains : Doc → String → Bool
doc_contains (member k v o) i = if str_eq k i then true else doc_contains o i
doc_contains _ i = false

unfoldable pub doc_at : Doc → String → Doc
doc_at (member k v o) i = if str_eq k i then v else doc_at o i
doc_at _ i = nil

abbrev pub doc_json : Json Doc
unfolding doc_is_null doc_is_open doc_contains doc_at
doc_json = record {
  null = nil;
  is_null = doc_is_null;
  open_object = doc_is_open;
  contains = doc_contains;
  at = doc_at;
  put = λ o k v. member k v o;
  dump = λ o. "";
  parse = λ s. nil;
}

pub doc_json-IsJson : IsJson doc_json
unfolding doc_is_null doc_is_open doc_contains doc_at
doc_json-IsJson = record {
  open_null = refl;
  open_put = λ o k v. refl;
  contains_null = λ k. refl;
  contains_put = λ o k i v h. refl;
  at_put = λ o k i v h. refl;
}

unfoldable pub doc_text : Doc → Option String
doc_text (words s) = some s
doc_text _ = none

unfoldable pub doc_number : Doc → Option ℕ
doc_number (number n) = some n
doc_number _ = none

unfoldable pub doc_flag : Doc → Option Bool
doc_flag (flag b) = some b
doc_flag _ = none

abbrev pub texts : Conversion Doc String
unfolding doc_text
texts = record { blank = ""; to_json = words; from_json = doc_text }

abbrev pub numbers : Conversion Doc ℕ
unfolding doc_number
numbers = record { blank = 0; to_json = number; from_json = doc_number }

abbrev pub flags : Conversion Doc Bool
unfolding doc_flag
flags = record { blank = false; to_json = flag; from_json = doc_flag }

pub texts-IsConversion : IsConversion texts
unfolding doc_text
texts-IsConversion = record { from_to = λ m. refl }

pub numbers-IsConversion : IsConversion numbers
unfolding doc_number
numbers-IsConversion = record { from_to = λ m. refl }

-- A codec that reads one value from every document.
abbrev pub constant : {A : Type 0} → A → Codec Doc A
constant a = record {
  fresh = a;
  serialize = λ x. (nil, []);
  deserialize = λ x j. (x, []);
  deserialize_text = λ x s. (x, []);
}

abbrev pub doc_wire : Wire Doc
doc_wire = record {
  json = doc_json;
  serialize = λ pkg. (pkg.content, []);
  deserialize = λ pkg j. (pkg, []);
  to_msgpack = λ j. 7 ∷ [];
  from_msgpack = λ bytes. nil;
  zstd_compress = some;
  zstd_content_size = λ bytes. ContentSize.known (length bytes);
  zstd_decompress = λ bytes n. some bytes;
}

-- The users of two sessions, and the lobbies in which each waits, or both meet.
abbrev pub ada : User Doc
ada = user doc_json 3 "ada"

abbrev pub bob : User Doc
bob = user doc_json 5 "bob"

abbrev pub meeting : Lobby Doc
meeting = lobby ada (bob ∷ [])

abbrev pub doc_libs : Libs Doc
doc_libs = record {
  wire = doc_wire;
  all_lobbies = constant [];
  lobby_codec = constant meeting;
  traversal_client = constant blank_traversal_client;
  traversal_result = constant blank_traversal_result;
  version_update = constant blank_version_update;
  information_update = constant blank_information_update;
  client_id =
      constant
        (record { android_id = "a"; username = "ada"; show_score = true; uploaded_samples = 2 });
  scores = constant [];
  text = texts;
  number = numbers;
  flag = flags;
}

-- A database that counts its writes, with one document in every collection.
abbrev pub counting : Mongo ℕ
counting = record {
  context = λ d. true;
  database = λ d db. true;
  collection = λ d db coll. true;
  bson_error = λ s. none;
  insert_one = λ d db coll s. (d, none);
  update_one = λ d db coll q u o. (d, none);
  count = λ d db coll q. some 1;
  find = λ d db coll q. record { early_error = none; documents = "{}" ∷ []; late_error = none };
}

abbrev pub waiting : Server Doc
waiting = record {
  sessions = (3, true) ∷ (5, true) ∷ [];
  lobbies = (3, lobby ada []) ∷ (5, lobby bob []) ∷ [];
  posts = [];
  written = [];
}

abbrev pub together : Server Doc
together = record waiting { lobbies = (3, meeting) ∷ [] }

-- A request with a user name.
abbrev pub create_request : DataPackage Doc
unfolding create_bare
create_request = record (create_bare doc_json Transaction.server_create_lobby) {
  meta_data = member "username" (words "ada") nil;
}
