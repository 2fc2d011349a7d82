-- ===== src/UserData/Disc.antt =====
-- Writing and reading the user data of AndroidSource/src/Components/UserData.cpp.
use Prim.Native.String.{◌++◌ as append, count}
use text.Mathlib.Text.{◌==◌ as str_eq}
use text.Mathlib.TextEquality.{eq_iff}
use nat_data_collector.Prelude.{String, false, some, List, [], ◌∷◌, ◌≡◌, refl, ◌↔◌, ◌≤◌, arith}
use nat_data_collector.Errors.{failed, no_error}
use nat_data_collector.Types.{Transaction}
use nat_data_collector.Protocol.{get_object, create_serialized, create_data}
use nat_data_collector.UserData.{
  UserData, Information, blank_information, Storage, Files, Writing, validate_username,
  write_to_disc, read_from_disc, activate, write_file, user_data_file, write_text, read_text,
}

-- The documented behaviour of the library on a struct: it is written without errors, and what is
-- written is read back, from a text and from a document.
pub record IsFaithful {J : Type 0} (storage : Storage J) (info : Information) : Type 0 where
  pub no_text_errors : (storage.serialize_string info).1 ≡ []
  pub no_errors : (storage.information.serialize info).1 ≡ []
  pub text_back :
      storage.information.deserialize_text blank_information (storage.serialize_string info).0
      ≡ (info, [])
  pub read_back :
      (b : Information)
      → storage.information.deserialize b (storage.information.serialize info).0 ≡ (info, [])

-- A name is valid exactly if it has at least one and at most 13 characters, while the message of the
-- error names 14.
pub validate_username-failed :
    (info : Information)
    → (failed (validate_username info) ≡ false)
      ↔ ((1 ≤ count info.username) × (count info.username ≤ 13))
unfolding validate_username
validate_username-failed info = ground arith

module _ {J : Type 0} (storage : Storage J) where
  write_text-done :
      (path : String) (r : String × List String) (files : Files)
      → r.1 ≡ []
      → write_text (some path) Writing.done r files ≡ (no_error, write_file files path r.0)
  write_text-done path (text, []) files e = refl
  write_text-done path (text, m ∷ ms) files e = cc e

  write_to_disc-file :
      (u : UserData) (files : Files) (dir : String)
      → IsFaithful storage u.info
      → u.external_files_dir ≡ some dir
      → write_to_disc storage u Writing.done files ≡ (
        no_error,
        write_file files
            (append (append dir "/") user_data_file)
            (storage.serialize_string u.info).0,
      )
  unfolding write_to_disc
  write_to_disc-file u files dir f e = rw e (
      write_text-done (append (append dir "/") user_data_file) (storage.serialize_string u.info)
        files f.no_text_errors)

  read_serialized :
      (b info : Information) (r : J × List String)
      → r.1 ≡ []
      → storage.information.deserialize b r.0 ≡ (info, [])
      → (get_object storage.information
          (create_serialized storage.json r Transaction.no_transaction)
          b).0
        ≡ info
  unfolding get_object
  read_serialized b info (j, []) e back = rw back refl
  read_serialized b info (j, m ∷ ms) e back = cc e

  read_text-back :
      (b info : Information) (text : String)
      → IsFaithful storage info
      → storage.information.deserialize_text blank_information text ≡ (info, [])
      → (get_object storage.information (read_text storage (some text)) b).0 ≡ info
  unfolding create_data
  read_text-back b info text f back =
      rw back
        (read_serialized b info (storage.information.serialize info) f.no_errors (f.read_back b))

  -- What is written without an error is what the app knows when it is started anew: for a known
  -- directory, libraries that behave on the information as documented and a file that is written
  -- completely. No other file changes.
  pub activate-write_to_disc :
      (u fresh : UserData) (files : Files) (dir : String)
      → IsFaithful storage u.info
      → u.external_files_dir ≡ some dir
      → (failed (write_to_disc storage u Writing.done files).0 ≡ false)
        × ((activate storage fresh (some dir) (write_to_disc storage u Writing.done files).1).info
            ≡ u.info)
        × ((p : String)
            → str_eq p (append (append dir "/") user_data_file) ≡ false
            → (write_to_disc storage u Writing.done files).1 p ≡ files p)
  unfolding activate read_from_disc
  activate-write_to_disc u fresh files dir f e = rw (write_to_disc-file u files dir f e) (
    refl,
    rw
        ((eq_iff (append (append dir "/") user_data_file)
            (append (append dir "/") user_data_file)).1
          refl)
        (read_text-back fresh.info u.info (storage.serialize_string u.info).0 f f.text_back),
    λ p other. rw other refl,
  )
