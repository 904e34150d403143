-- ===== src/Fs/Support.antt =====
-- fs/compression.rs, what does not concern a writer. Which codecs a build has is a parameter: the features of the crate.
use tux_io_encoding.Prelude.{Bool, true, none, some, [], ◌∷◌, if◌then◌else◌}
use tux_io_encoding.Error.{ok, err, panicked}
use tux_io_encoding.Io.{Bytes}
use tux_io_encoding.Compression.{CompressionTypes, no_compression, zstd, gzip}
use tux_io_encoding.Fs.Error.{ObjectFileResult, unsupported_compression}
use tux_io_encoding.Tags.Keys.MetaKey.{HeaderNames}

pub record Features : Type 0 where
  pub has_zstd : Bool
  pub has_gzip : Bool

module _ (features : Features) where
  unfoldable pub is_supported : CompressionTypes → Bool
  is_supported no_compression = true
  is_supported (zstd level) = features.has_zstd
  is_supported (gzip level) = features.has_gzip

  unfoldable pub ensure_supported : CompressionTypes → ObjectFileResult (Unit {0})
  unfolding is_supported
  ensure_supported compression =
      if is_supported compression then ok tt else err (unsupported_compression compression)

-- "x-tuxio-uncompressed-length".
abbrev pub uncompressed_length_name : Bytes
uncompressed_length_name =
    120 ∷ 45 ∷ 116 ∷ 117 ∷ 120 ∷ 105 ∷ 111 ∷ 45 ∷ 117 ∷ 110 ∷ 99 ∷ 111 ∷ 109 ∷ 112 ∷ 114 ∷ 101 ∷ 115
    ∷ 115 ∷ 101 ∷ 100 ∷ 45 ∷ 108 ∷ 101 ∷ 110 ∷ 103 ∷ 116 ∷ 104 ∷ []

-- `HeaderName::from_static` panics where the text is not a name.
unfoldable pub uncompressed_length_key :
    {HeaderName : Type 0} → HeaderNames HeaderName → ObjectFileResult HeaderName
uncompressed_length_key http = elim (http.of_bytes uncompressed_length_name) [
  | some name ↦ ok name
  | none ↦ panicked
]
