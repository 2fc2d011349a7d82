-- ===== src/DatabaseRequests/Reading.antt =====
-- Reading a collection ends with a result (ServerSource/src/Utils/DBUtils.h).
use nat_data_collector.Prelude.{
  ℕ, zero, suc, String, ◌≡◌, ◌≢◌, refl, Bool, true, false, Option, none, some, is_some, List, [],
  ◌∷◌, ◌⊎◌, inl, inr, Bool-cases, Option-cases, arith, ◌>>=◌, if◌then◌else◌, not,
}
use nat_data_collector.Errors.{Error, failed}
use nat_data_collector.Json.{Codec}
use nat_data_collector.Database.{
  Mongo, Cursor, check_cursor, open_collection, find_elements, with_bson, found, read_documents,
  cursor_to_jser_vector, and_then,
}
use nat_data_collector.DatabaseRequests.{unless_empty, visited}

pub bind-is_some :
    {A B : Type 0} (m : Option A) (f : A → Option B)
    → is_some m ≡ true
    → ((a : A) → is_some (f a) ≡ true)
    → is_some (m >>= f) ≡ true
bind-is_some none f h g = h
bind-is_some (some a) f h g = g a

pub if-is_some :
    {A : Type 0} (b : Bool) (x y : Option A)
    → is_some x ≡ true
    → is_some y ≡ true
    → is_some (if b then x else y) ≡ true
if-is_some true x y h g = h
if-is_some false x y h g = g

module _ {D : Type 0} (mongo : Mongo D) where
  bson-is_some :
      {A : Type 0} (what text : String) (otherwise : Error → Option A) (rest : Option A)
      → ((e : Error) → is_some (otherwise e) ≡ true)
      → is_some rest ≡ true
      → is_some (with_bson mongo what text otherwise rest) ≡ true
  bson-is_some what text otherwise rest o h = elim (Option-cases (mongo.bson_error text)) [
    | inl e ↦ rw (e, is_some) h
    | inr (m, e) ↦ rw (e, is_some) (o _)
  ]

  found-is_some :
      {A : Type 0} (cursor : Cursor) (n : Option ℕ) (otherwise : Error → Option A)
      (callback : Option Cursor → Option ℕ → Option A)
      → ((e : Error) → is_some (otherwise e) ≡ true)
      → is_some (callback none (some zero)) ≡ true
      → ((n ≢ some zero) → is_some (callback (some cursor) n) ≡ true)
      → is_some (found mongo cursor n otherwise callback) ≡ true
  found-is_some cursor none otherwise callback o z h =
      ground (arith, o (check_cursor cursor.early_error), h (λ e. cc e))
  found-is_some cursor (some zero) otherwise callback o z h = z
  found-is_some cursor (some (suc n)) otherwise callback o z h =
      ground (arith, o (check_cursor cursor.early_error), h (λ e. cc e))

  pub find_elements-is_some :
      {A : Type 0} (d : D) (query db coll : String) (otherwise : Error → Option A)
      (callback : Option Cursor → Option ℕ → Option A)
      → ((e : Error) → is_some (otherwise e) ≡ true)
      → is_some (callback none (some zero)) ≡ true
      → ((mongo.count d db coll query ≢ some zero)
          → is_some (callback (some (mongo.find d db coll query)) (mongo.count d db coll query))
            ≡ true)
      → is_some (find_elements mongo d query db coll otherwise callback) ≡ true
  unfolding find_elements open_collection
  find_elements-is_some d query db coll otherwise callback o z h =
      if-is_some (not (mongo.context d)) _ _ (o _) (
        if-is_some (not (mongo.database d db)) _ _ (o _) (
          if-is_some (not (mongo.collection d db coll)) _ _ (o _) (
            bson-is_some _ query otherwise
              (found mongo (mongo.find d db coll query) (mongo.count d db coll query) otherwise
                callback)
              o (found-is_some _ _ otherwise callback o z h))))

  -- A collection that is not counted as empty yields a document.
  abbrev pub HasDocuments : D → String → String → Type 0
  HasDocuments d db coll =
      mongo.count d db coll "{}" ≢ some zero → (mongo.find d db coll "{}").documents ≢ []

module _ {J T : Type 0} (codec : Codec J T) where
  and_then-ne :
      (r : T × List String) (rest : Error ⊎ List T) (ts : List T)
      → and_then codec r rest ≡ inr ts
      → ts ≢ []
  and_then-ne (t, m ∷ ms) rest ts e = λ f. cc e
  and_then-ne (t, []) (inl x) ts e = λ f. cc e
  and_then-ne (t, []) (inr us) ts e = λ f. cc (e, f)

  read_documents-ne :
      (texts : List String) (late : Option String) (ts : List T)
      → texts ≢ []
      → read_documents codec texts late ≡ inr ts
      → ts ≢ []
  unfolding read_documents
  read_documents-ne [] late ts ne e = absurd (ne refl)
  read_documents-ne (x ∷ xs) late ts ne e =
      and_then-ne (codec.deserialize_text codec.fresh x) (read_documents codec xs late) ts e

  pub visited-is_some :
      {A : Type 0} (use_documents : List T → Option (Error × A)) (blank : A) (r : Error ⊎ List T)
      → ((ts : List T) → r ≡ inr ts → is_some (use_documents ts) ≡ true)
      → is_some (visited use_documents blank r) ≡ true
  visited-is_some use_documents blank (inl e) h = refl
  visited-is_some use_documents blank (inr ts) h = h ts refl

  cursor-ne :
      (cursor : Cursor) (ts : List T)
      → cursor.documents ≢ []
      → cursor_to_jser_vector codec (some cursor) ≡ inr ts
      → ts ≢ []
  unfolding cursor_to_jser_vector
  cursor-ne cursor ts ne e = elim (Bool-cases (failed (check_cursor cursor.early_error))) [
    | inl f ↦ λ g. cc (rw f at e)
    | inr f ↦ read_documents-ne cursor.documents cursor.late_error ts ne (rw f at e)
  ]

  pub unless_empty-is_some :
      {A : Type 0} (use_documents : List T → Option (Error × A)) (blank : A) (cursor : Cursor)
      (n : Option ℕ)
      → ((ts : List T) → ts ≢ [] → is_some (use_documents ts) ≡ true)
      → cursor.documents ≢ []
      → is_some (unless_empty codec use_documents blank (some cursor) n) ≡ true
  unless_empty-is_some use_documents blank cursor none h ne =
      visited-is_some use_documents blank (cursor_to_jser_vector codec (some cursor))
        (λ ts e. h ts (cursor-ne cursor ts ne e))
  unless_empty-is_some use_documents blank cursor (some zero) h ne = refl
  unless_empty-is_some use_documents blank cursor (some (suc n)) h ne =
      visited-is_some use_documents blank (cursor_to_jser_vector codec (some cursor))
        (λ ts e. h ts (cursor-ne cursor ts ne e))
