-- ===== src/Fs/Error.antt =====
-- fs/error.rs.
use tux_io_encoding.Prelude.{ℕ, Bool, true, false}
use tux_io_encoding.Error.{IoErrorKind, not_found, EncodingError, io_error, Result}
use tux_io_encoding.Io.{Bytes}
use tux_io_encoding.Compression.{CompressionTypes}

-- A path, by its bytes.
abbrev pub FilePath : Type 0
FilePath = Bytes

pub data ObjectFileError : Type 0 where
  encoding : EncodingError → ObjectFileError
  io : IoErrorKind → ObjectFileError
  reserved_space_exceeded : ℕ → ℕ → ObjectFileError
  section_offset_too_large : ℕ → ℕ → ObjectFileError
  range_out_of_bounds : ℕ → ℕ → ℕ → ObjectFileError
  read_only : FilePath → ObjectFileError
  unsupported_compression : CompressionTypes → ObjectFileError
  ranged_read_on_compressed : ObjectFileError

abbrev pub ObjectFileResult : Type 0 → Type 0
ObjectFileResult = Result ObjectFileError

is_kind_not_found : IoErrorKind → Bool
is_kind_not_found not_found = true
is_kind_not_found _ = false

unfoldable pub is_not_found : ObjectFileError → Bool
unfolding is_kind_not_found
is_not_found (io kind) = is_kind_not_found kind
is_not_found (encoding (io_error kind)) = is_kind_not_found kind
is_not_found _ = false
