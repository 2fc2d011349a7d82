-- ===== src/Framing/Package.antt =====
-- Packages as bytes: `compressZstd` and `decompressZstd` of Shared/Compression.h, and
-- `DataPackage::Compress` and `DataPackage::Decompress` of Shared/SharedProtocol.h.
pub mod RoundTrip
use nat_data_collector.Prelude.{
  ℕ, Bool, true, false, Option, none, some, List, [], ◌∷◌, ◌++◌, String, if◌then◌else◌, is_empty,
}
use nat_data_collector.Types.{ErrorType}
use nat_data_collector.Json.{Json}
use nat_data_collector.Protocol.{DataPackage, empty_package, create}
use nat_data_collector.Framing.{frame}

-- `ZSTD_getFrameContentSize`.
pub data ContentSize : Type 0 where
  invalid unknown : ContentSize
  known : ℕ → ContentSize

-- The libraries below a package: JSerializer, MessagePack of nlohmann::json, and zstd. `none` is
-- an error code of zstd; decompression is told the size of its buffer.
pub record Wire (J : Type 0) : Type 0 where
  pub json : Json J
  pub serialize : DataPackage J → J × List String
  pub deserialize : DataPackage J → J → DataPackage J × List String
  pub to_msgpack : J → List ℕ
  pub from_msgpack : List ℕ → J
  pub zstd_compress : List ℕ → Option (List ℕ)
  pub zstd_content_size : List ℕ → ContentSize
  pub zstd_decompress : List ℕ → ℕ → Option (List ℕ)

abbrev pub or_empty : Option (List ℕ) → List ℕ
or_empty none = []
or_empty (some bytes) = bytes

module _ {J : Type 0} (w : Wire J) where
  unfoldable pub compress_zstd : List ℕ → List ℕ
  compress_zstd bytes = or_empty (w.zstd_compress bytes)

  abbrev pub decompress_sized : List ℕ → ContentSize → List ℕ
  decompress_sized bytes invalid = []
  decompress_sized bytes unknown = or_empty (w.zstd_decompress bytes 150_000_000)
  decompress_sized bytes (known n) = or_empty (w.zstd_decompress bytes n)

  unfoldable pub decompress_zstd : List ℕ → List ℕ
  decompress_zstd bytes = decompress_sized bytes (w.zstd_content_size bytes)

  -- `DataPackage::Compress(prepend_msg_length)`.
  abbrev pub with_length : Bool → List ℕ → List ℕ
  with_length prepend bytes = if prepend then frame bytes else bytes

  abbrev pub compress_serialized : Bool → J × List String → Option (List ℕ)
  compress_serialized prepend (j, m ∷ ms) = none
  compress_serialized prepend (j, []) =
      let bytes = compress_zstd (w.to_msgpack j) in
      if is_empty bytes then none else some (with_length prepend bytes)

  unfoldable pub compress : Bool → DataPackage J → Option (List ℕ)
  unfolding compress_zstd
  compress prepend pkg = compress_serialized prepend (w.serialize pkg)

  -- `DataPackage::Decompress`.
  abbrev pub decompress_parsed : DataPackage J × List String → DataPackage J
  decompress_parsed (pkg, []) = pkg
  decompress_parsed (pkg, m ∷ ms) =
      create w.json ErrorType.error ((m ∷ ms) ++ "Failed to deserialize Server Request" ∷ [])

  unfoldable pub decompress : List ℕ → DataPackage J
  unfolding decompress_zstd
  decompress bytes =
      let plain = decompress_zstd bytes in
      if is_empty plain
      then create w.json ErrorType.error ("Decompressed zstd package is empty" ∷ [])
      else if w.json.is_null (w.from_msgpack plain)
      then create w.json ErrorType.error ("Decompress data package is invalid" ∷ [])
      else decompress_parsed (w.deserialize (empty_package w.json) (w.from_msgpack plain))
