-- ===== src/Fs/Prefix.antt =====
-- `encode_prefix` of fs/writer.rs: the header and the two sections in one buffer, padded with zeros.
pub mod Encode
pub mod Written
use tux_io_encoding.Prelude.{ℕ, ◌+◌, ◌++◌, ltb, if◌then◌else◌, length, take, drop, replicate}
use tux_io_encoding.Error.{
  write_zero, EncodingError, io_error, Result, ok, err, ◌>>=◌, ◌>>◌, map_err,
}
use tux_io_encoding.Io.{Bytes}
use tux_io_encoding.Header.{ObjectHeader, header_type}
use tux_io_encoding.Tags.{TagKeyType, Tags, tags_type}
use tux_io_encoding.Tags.Keys.Text.{string_key}
use tux_io_encoding.Codec.{ObjectType}
use tux_io_encoding.Tags.Keys.MetaKey.{HeaderNames, meta_key}
use tux_io_encoding.Fs.Error.{ObjectFileError, ObjectFileResult, encoding, reserved_space_exceeded}
use tux_io_encoding.Fs.Layout.{SectionLayout, metadata_space, tags_space, prefix_size, header_size}

-- `write_all` through a cursor over a slice, at a position: a slice does not grow.
unfoldable pub write_at : ℕ → Bytes → Bytes → Result EncodingError Bytes
write_at position bs buffer =
    if ltb (length buffer) (position + length bs)
    then err (io_error write_zero)
    else ok (take position buffer ++ (bs ++ drop (position + length bs) buffer))

module _ {HeaderName : Type 0} (http : HeaderNames HeaderName) where
  abbrev pub metadata_type : ObjectType (Tags HeaderName)
  metadata_type = tags_type (meta_key http)

  -- The three encodings, each placed where its section starts.
  unfoldable pub place_sections :
      ObjectHeader → Tags HeaderName → Tags Bytes → SectionLayout → Result EncodingError Bytes
  place_sections header metadata tags layout = do
    let buffer = replicate (prefix_size layout) 0
    bs ← header_type.write header
    buffer ← write_at 0 bs buffer
    bs ← metadata_type.write metadata
    buffer ← write_at header_size bs buffer
    bs ← (tags_type string_key).write tags
    write_at layout.tags_start bs buffer

  unfoldable pub encode_prefix :
      ObjectHeader → Tags HeaderName → Tags Bytes → SectionLayout → ObjectFileResult Bytes
  unfolding place_sections
  encode_prefix header metadata tags layout = do
    let metadata_size = metadata_type.size metadata
    let tags_size = (tags_type string_key).size tags
    metadata_room ← metadata_space layout
    if ltb metadata_room metadata_size
        then err (reserved_space_exceeded metadata_size metadata_room)
        else (do
          tags_room ← tags_space layout
          if ltb tags_room tags_size
              then err (reserved_space_exceeded tags_size tags_room)
              else map_err encoding (place_sections header metadata tags layout))
