-- ===== src/Protocol/Meta.antt =====
-- Chains of `Get` over the meta data of a package (Shared/SharedProtocol.h).
use text.Mathlib.Text.{◌==◌ as str_eq}
use text.Mathlib.TextEquality.{eq_iff}
use text.Mathlib.TextPositions.{eq_refl}
use nat_data_collector.Prelude.{
  String, true, false, Option, some, ◌≡◌, ◌≢◌, sym, ap, ◌∙◌, arith, inl, inr, if◌then◌else◌, ◌>>=◌,
  Bool-cases,
}
use nat_data_collector.Types.{MetaDataField, meta_data_to_string}
use nat_data_collector.Types.Names.{meta_data_to_string_injective, meta_data_to_string_total}
use nat_data_collector.Json.{Json, IsJson, Conversion, IsConversion}
use nat_data_collector.Errors.{Error, failed, add}
use nat_data_collector.Protocol.{DataPackage, MetaVariant, add_meta, get, start}

-- Two fields have two keys.
key_ne :
    (f g : MetaDataField) (k i : String)
    → meta_data_to_string f ≡ some k
    → meta_data_to_string g ≡ some i
    → f ≢ g
    → str_eq k i ≡ false
key_ne f g k i e d ne = elim (Bool-cases (str_eq k i)) [
  | inl same ↦
      absurd (ne (meta_data_to_string_injective f g (e ∙ ap some ((eq_iff k i).0 same) ∙ sym d)))
  | inr other ↦ other
]

module _ {J : Type 0} (json : Json J) where
  -- A step of a chain leaves a failure exactly if there was one before or the field is missing,
  -- and then the values read before it and the document stay.
  pub get_fails_iff :
      {A M : Type 0} (conv : Conversion J M) (v : MetaVariant J A) (f : MetaDataField) (k : String)
      (w : MetaVariant J (A × M))
      → meta_data_to_string f ≡ some k
      → get json conv v f ≡ some w
      → (failed w.error
          ≡ (if failed v.error then true else if json.contains v.meta_data k then false else true))
        × (w.values.0 ≡ v.values)
        × (w.meta_data ≡ v.meta_data)
  unfolding get add
  get_fails_iff conv v f k w e h = (ground arith, ground arith, ground arith)

module _ {J : Type 0} (json : Json J) (laws : IsJson json) where
  -- A step over a document in which the field was written last.
  get-put :
      {A M : Type 0} (conv : Conversion J M) (o : J) (f : MetaDataField) (k : String) (m : M)
      (a : A) (e : Error)
      → IsConversion conv
      → json.open_object o ≡ true
      → failed e ≡ false
      → meta_data_to_string f ≡ some k
      → get json conv
          (record { values = a; error = e; meta_data = json.put o k (conv.to_json m) })
          f
        ≡ some (record { values = (a, m); error = e; meta_data = json.put o k (conv.to_json m) })
  unfolding get
  get-put conv o f k m a e c op ok key =
      rw
        (
          ok,
          key,
          laws.contains_put o k k (conv.to_json m) op,
          laws.at_put o k k (conv.to_json m) op,
        )
        (rw (eq_refl k) (rw (c.from_to m)))

  -- A step over a document in which another field was written last.
  get-put_ne :
      {A M : Type 0} (conv : Conversion J M) (o : J) (f : MetaDataField) (k i : String) (x : J)
      (a : A) (e : Error) (m : M)
      → json.open_object o ≡ true
      → str_eq k i ≡ false
      → meta_data_to_string f ≡ some i
      → failed e ≡ false
      → json.contains o i ≡ true
      → conv.from_json (json.at o i) ≡ some m
      → get json conv (record { values = a; error = e; meta_data = json.put o k x }) f
        ≡ some (record { values = (a, m); error = e; meta_data = json.put o k x })
  unfolding get
  get-put_ne conv o f k i x a e m op ne key ok present is =
      rw (ok, key, laws.contains_put o k i x op, laws.at_put o k i x op)
        (rw ne (rw present (rw is)))

-- Two fields written into a package, and then read back from it by a chain.
abbrev pub write_then_read :
    {J M N : Type 0}
    → Json J
    → Conversion J M
    → Conversion J N
    → DataPackage J
    → MetaDataField × M
    → MetaDataField × N
    → Option (((Unit {0} × M) × N) × Error)
write_then_read json ca cb pkg (f, a) (g, b) = do
  q ← add_meta json ca pkg f a
  p ← add_meta json cb q g b
  v ← get json ca (start json p) f
  w ← get json cb v g
  some (w.values, w.error)

module _ {J : Type 0} (json : Json J) (laws : IsJson json) where
  write_then_read_keys :
      {M N : Type 0} (ca : Conversion J M) (cb : Conversion J N) (pkg : DataPackage J)
      (f g : MetaDataField) (a : M) (b : N) (k i : String)
      → IsConversion ca
      → IsConversion cb
      → json.open_object pkg.meta_data ≡ true
      → failed pkg.error ≡ false
      → meta_data_to_string f ≡ some k
      → meta_data_to_string g ≡ some i
      → str_eq i k ≡ false
      → write_then_read json ca cb pkg (f, a) (g, b) ≡ some (((tt, a), b), pkg.error)
  unfolding add_meta
  write_then_read_keys {M} ca cb pkg f g a b k i ha hb op ok ek ei ne =
      let first : Unit {0} × M = (tt, a) in
      let o = pkg.meta_data in
      let x = ca.to_json a in
      let y = cb.to_json b in
      let present : json.contains (json.put o k x) k ≡ true =
        rw (laws.contains_put o k k x op) (rw (eq_refl k)) in
      let reads : ca.from_json (json.at (json.put o k x) k) ≡ some a =
        rw (laws.at_put o k k x op) (rw (eq_refl k) (ha.from_to a)) in
      rw (ek, ei)
        (rw
          (get-put_ne json laws ca (json.put o k x) f i k y tt pkg.error a (laws.open_put o k x) ne
            ek ok present reads)
          (rw (
            get-put json laws cb (json.put o k x) g i b first pkg.error hb (laws.open_put o k x) ok
              ei)))

  -- With a JSON library that behaves as `IsJson` says: what a client writes under two different
  -- fields into an object (or a null), whose conversions give values back, the server reads back under them in the order in which
  -- they were written, whatever the package held before, if the package is no failure; and the
  -- package's error is handed on as it is.
  pub write_then_read_lem :
      {M N : Type 0} (ca : Conversion J M) (cb : Conversion J N) (pkg : DataPackage J)
      (f g : MetaDataField) (a : M) (b : N)
      → IsConversion ca
      → IsConversion cb
      → json.open_object pkg.meta_data ≡ true
      → failed pkg.error ≡ false
      → f ≢ g
      → write_then_read json ca cb pkg (f, a) (g, b) ≡ some (((tt, a), b), pkg.error)
  write_then_read_lem ca cb pkg f g a b ha hb op ok ne =
      let (k, ek) = meta_data_to_string_total f in
      let (i, ei) = meta_data_to_string_total g in
      write_then_read_keys ca cb pkg f g a b k i ha hb op ok ek ei
        (key_ne g f i k ei ek (λ e. ne (sym e)))
