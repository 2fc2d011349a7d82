-- ===== src/Framing/Package/RoundTrip.antt =====
-- A package that one side compresses and frames is the package that the other side unpacks.
use mathlib.Core.List.{append-nil}
use nat_data_collector.Prelude.{
  ℕ, ◌^◌, ◌<◌, ◌≤◌, ap, length-append, ◌≡◌, ◌≢◌, refl, Bool, true, false, some, List, [], ◌∷◌,
  arith, length, String, Option-cases, inl, inr,
}
use nat_data_collector.Protocol.{DataPackage, empty_package}
use nat_data_collector.Framing.{Read, frame, read, encode_msg_length}
use nat_data_collector.Framing.Stream.{read-frame}
use nat_data_collector.Framing.Package.{
  Wire, ContentSize, compress, decompress, compress_zstd, decompress_zstd, compress_serialized,
  with_length,
}

-- What the libraries promise: a document that serialization reports no error for gives back the
-- object, MessagePack and zstd give back what they were given, and none of them is empty or null.
pub record IsWire {J : Type 0} (w : Wire J) : Type 0 where
  pub serialize_back :
      (pkg from : DataPackage J)
      → (w.serialize pkg).1 ≡ []
      → w.deserialize from (w.serialize pkg).0 ≡ (pkg, [])
  pub serialize_object : (pkg : DataPackage J) → w.json.is_null (w.serialize pkg).0 ≡ false
  pub msgpack_back : (j : J) → w.from_msgpack (w.to_msgpack j) ≡ j
  pub msgpack_some : (j : J) → w.to_msgpack j ≢ []
  pub zstd_size :
      (s c : List ℕ)
      → w.zstd_compress s ≡ some c
      → w.zstd_content_size c ≡ ContentSize.known (length s)
  pub zstd_back :
      (s c : List ℕ) → w.zstd_compress s ≡ some c → w.zstd_decompress c (length s) ≡ some s

length-frame : (m : List ℕ) → length m ≤ length (frame m)
unfolding frame
length-frame m = omega (arith, length-append {0} (encode_msg_length (length m)) m)

read_framed :
    (bytes d : List ℕ) → bytes ≡ frame d → length bytes < 10 ^ 9 → read bytes ≡ Read.message d []
read_framed bytes d framed short =
    let fits : length d < 10 ^ 9 = omega (arith, ap length framed, length-frame d) in
    rw framed (rw (← append-nil (frame d)) (read-frame d [] fits))

module _ {J : Type 0} (w : Wire J) (laws : IsWire w) where
  decompress_zstd-compress_zstd :
      (s c : List ℕ) → w.zstd_compress s ≡ some c → decompress_zstd w c ≡ s
  unfolding decompress_zstd
  decompress_zstd-compress_zstd s c e = rw (laws.zstd_size s c e) (rw (laws.zstd_back s c e))

  compress_inv :
      (b : Bool) (j : J) (es : List String) (c : List ℕ)
      → compress_serialized w b (j, es) ≡ some c
      → (es ≡ [])
        × (d : List ℕ) × (w.zstd_compress (w.to_msgpack j) ≡ some d)
        × (c ≡ with_length w b d)
        × (compress_serialized w false (j, es) ≡ some d)
  unfolding compress_zstd
  compress_inv b j (m ∷ ms) c h = cc
  compress_inv b j [] c h = elim (Option-cases (w.zstd_compress (w.to_msgpack j))) [
    | inl e ↦ cc (rw e at h)
    | inr (d, e) ↦ (refl, d, e, ground arith, ground arith)
  ]

  decompress-msgpack :
      (pkg : DataPackage J) (d : List ℕ)
      → (w.serialize pkg).1 ≡ []
      → w.zstd_compress (w.to_msgpack (w.serialize pkg).0) ≡ some d
      → decompress w d ≡ pkg
  unfolding decompress
  decompress-msgpack pkg d es e = ground (
    arith,
    decompress_zstd-compress_zstd (w.to_msgpack (w.serialize pkg).0) d e,
    laws.msgpack_some (w.serialize pkg).0,
    laws.msgpack_back (w.serialize pkg).0,
    laws.serialize_object pkg,
    laws.serialize_back pkg (empty_package w.json) es,
  )

  -- With libraries that behave as `IsWire` says: what one side writes for a package, if that is below 10⁹ bytes, the other side reads as one
  -- message with nothing left over, and unpacks to the same package; what stays in the program,
  -- compressed without a header, is unpacked to the same package, too.
  pub decompress-compress :
      (pkg : DataPackage J) (bytes : List ℕ)
      → compress w true pkg ≡ some bytes
      → length bytes < 10 ^ 9
      → (m : List ℕ) × (read bytes ≡ Read.message m [])
        × (decompress w m ≡ pkg)
        × (compress w false pkg ≡ some m)
  unfolding compress
  decompress-compress pkg bytes h short =
      let (es, d, e, framed, plain) =
        compress_inv true (w.serialize pkg).0 (w.serialize pkg).1 bytes h in
      (d, read_framed bytes d framed short, decompress-msgpack pkg d es e, plain)
