-- ===== src/UserData.antt =====
-- What the app knows of its user, and the file that keeps it: AndroidSource/src/Components/UserData.cpp
-- and .h. The directory comes from Android and is a parameter; the file system is a function from
-- paths to texts, and `none` is a file that cannot be opened. Lines for the log are left out.
pub mod Disc
use Prim.Native.String.{count, ◌++◌ as append}
use text.Mathlib.Text.{◌==◌ as str_eq}
use nat_data_collector.Prelude.{
  ℕ, String, Bool, true, false, ◌&&◌, ◌==◌, not, ltb, Option, none, some, List, [], ◌∷◌, ◌++◌,
  if◌then◌else◌,
}
use nat_data_collector.Prelude.Decimal.{to_string}
use nat_data_collector.Types.{ErrorType, Transaction}
use nat_data_collector.Errors.{Error, no_error, failed}
use nat_data_collector.Json.{Json, Codec}
use nat_data_collector.Protocol.{DataPackage, create, create_data, get_object}

pub record Information : Type 0 where
  pub username : String
  pub version_update : String
  pub information_identifier : String
  pub show_score : Bool
  pub ignore_pop_up : Bool

abbrev pub blank_information : Information
blank_information = record {
  username = "";
  version_update = "";
  information_identifier = "";
  show_score = true;
  ignore_pop_up = false;
}

abbrev pub max_username_length : ℕ
max_username_length = 14

abbrev pub user_data_file : String
user_data_file = "user_data.json"

pub record UserData : Type 0 where
  pub info : Information
  pub external_files_dir : Option String

abbrev pub new_user_data : UserData
new_user_data = record { info = blank_information; external_files_dir = none }

abbrev pub Files : Type 0
Files = String → Option String

-- How a write to a file that is opened with "w+" goes: it cannot be opened, a part is written, or
-- all of it.
pub data Writing : Type 0 where
  refused : Writing
  partly : String → Writing
  done : Writing

-- `SerializeObjectString`, with the messages of its errors, next to the codec.
pub record Storage (J : Type 0) : Type 0 where
  pub json : Json J
  pub information : Codec J Information
  pub serialize_string : Information → String × List String

-- `ValidateUsername`.
unfoldable pub validate_username : Information → Error
unfolding to_string
validate_username info =
    if not (count info.username == 0) && ltb (count info.username) max_username_length
    then no_error
    else record {
      error = ErrorType.error;
      messages =
          "Please enter valid username first."
          ∷ append (append "Username must have at least 1 and max" (to_string max_username_length))
              " characters."
          ∷ [];
    }

-- `GetAbsoluteUserDataPath`.
abbrev pub get_absolute_user_data_path : Option String → Option String
get_absolute_user_data_path none = none
get_absolute_user_data_path (some dir) = some (append (append dir "/") user_data_file)

abbrev pub write_file : Files → String → String → Files
write_file files path text p = if str_eq p path then some text else files p

abbrev pub failure : List String → Error
failure messages = record { error = ErrorType.error; messages = messages }

abbrev pub put_file : Writing → String → String → Files → Error × Files
put_file Writing.refused path text files =
    (failure (append "Failed to open user data file : " path ∷ []), files)
put_file (Writing.partly part) path text files =
    (failure ("Failed to write User Info to disc, write error" ∷ []), write_file files path part)
put_file Writing.done path text files = (no_error, write_file files path text)

abbrev pub write_text : Option String → Writing → String × List String → Files → Error × Files
write_text path writing (text, m ∷ ms) files =
    (failure ((m ∷ ms) ++ "Read User data from disc" ∷ []), files)
write_text none writing (text, []) files =
    (failure ("Absolute Android User Data Path is invalid" ∷ []), files)
write_text (some path) writing (text, []) files = put_file writing path text files

module _ {J : Type 0} (storage : Storage J) where
  -- `WriteToDisc`.
  unfoldable pub write_to_disc : UserData → Writing → Files → Error × Files
  write_to_disc u writing files =
      write_text (get_absolute_user_data_path u.external_files_dir) writing
        (storage.serialize_string u.info) files

  abbrev pub read_information : Information × List String → DataPackage J
  read_information (info, m ∷ ms) =
      create storage.json ErrorType.error ((m ∷ ms) ++ "Read User data from disc" ∷ [])
  read_information (info, []) =
      create_data storage.json storage.information info Transaction.no_transaction

  abbrev pub read_text : Option String → DataPackage J
  read_text none = create storage.json ErrorType.ok []
  read_text (some text) =
      read_information (storage.information.deserialize_text blank_information text)

  abbrev pub read_path : Option String → Files → DataPackage J
  read_path none files =
      create storage.json ErrorType.error ("Absolute Android User Data Path is invalid" ∷ [])
  read_path (some path) files = read_text (files path)

  -- `ReadFromDisc`.
  unfoldable pub read_from_disc : UserData → Files → DataPackage J
  unfolding create_data
  read_from_disc u files = read_path (get_absolute_user_data_path u.external_files_dir) files

  -- `Activate`, for the directory that Android gives; the error of the reading is only logged.
  unfoldable pub activate : UserData → Option String → Files → UserData
  unfolding read_from_disc get_object
  activate u dir files =
      let here : UserData = record u {
        external_files_dir = elim dir [ none ↦ u.external_files_dir | some d ↦ some d ];
      } in
      record here {
        info = (get_object storage.information (read_from_disc here files) here.info).0;
      }
