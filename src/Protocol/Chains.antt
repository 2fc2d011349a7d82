-- ===== src/Protocol/Chains.antt =====
-- Chains of `Get` that end without an exception (Shared/SharedProtocol.h).
use nat_data_collector.Prelude.{
  String, ◌≡◌, refl, Bool, true, false, Option, none, some, is_some, inl, inr, Bool-cases,
  Option-cases, arith, ◌>>=◌,
}
use nat_data_collector.Types.{MetaDataField, meta_data_to_string}
use nat_data_collector.Json.{Json, Conversion}
use nat_data_collector.Errors.{failed}
use nat_data_collector.Protocol.{MetaVariant, get, get_key}

-- The fields that the server reads as a text.
abbrev pub is_text : MetaDataField → Bool
is_text MetaDataField.db_name = true
is_text MetaDataField.coll_name = true
is_text MetaDataField.users_coll_name = true
is_text MetaDataField.identifier = true
is_text MetaDataField.android_id = true
is_text MetaDataField.username = true
is_text _ = false

module _ {J : Type 0} (json : Json J) where
  -- A field that the document has can be converted.
  abbrev pub Readable : {M : Type 0} → Conversion J M → J → MetaDataField → Type 0
  Readable conv doc f =
      (k : String)
      → meta_data_to_string f ≡ some k
      → json.contains doc k ≡ true
      → is_some (conv.from_json (json.at doc k)) ≡ true

  -- The fields that hold a text can be converted to one.
  abbrev pub ReadableTexts : Conversion J String → J → Type 0
  ReadableTexts text doc = (f : MetaDataField) → is_text f ≡ true → Readable text doc f

  get_key_then :
      {A M X : Type 0} (conv : Conversion J M) (v : MetaVariant J A) (key : Option String)
      (rest : MetaVariant J (A × M) → Option X)
      → ((k : String)
          → key ≡ some k
          → json.contains v.meta_data k ≡ true
          → is_some (conv.from_json (json.at v.meta_data k)) ≡ true)
      → ((w : MetaVariant J (A × M)) → w.meta_data ≡ v.meta_data → is_some (rest w) ≡ true)
      → is_some (get_key json conv v key >>= rest) ≡ true
  get_key_then conv v none rest r h = h _ refl
  get_key_then conv v (some k) rest r h = elim (Bool-cases (json.contains v.meta_data k)) [
    | inr e ↦ rw e (h _ refl)
    | inl e ↦ elim (Option-cases (conv.from_json (json.at v.meta_data k))) [
      | inl f ↦ absurd (ground (arith, r k refl e))
      | inr (m, f) ↦ rw (e, f) (h _ refl)
    ]
  ]

  pub get_then :
      {A M X : Type 0} (conv : Conversion J M) (v : MetaVariant J A) (f : MetaDataField)
      (rest : MetaVariant J (A × M) → Option X)
      → Readable conv v.meta_data f
      → ((w : MetaVariant J (A × M)) → w.meta_data ≡ v.meta_data → is_some (rest w) ≡ true)
      → is_some (get json conv v f >>= rest) ≡ true
  unfolding get
  get_then conv v f rest r h = elim (Bool-cases (failed v.error)) [
    | inl e ↦ rw e (h _ refl)
    | inr e ↦ rw e (get_key_then conv v (meta_data_to_string f) rest r h)
  ]
