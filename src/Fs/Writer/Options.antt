-- ===== src/Fs/Writer/Options.antt =====
-- The builder methods of `CreateOptions`, and `metadata_mut` and `tags_mut` of `ObjectWriter`.
use tux_io_encoding.Prelude.{Bool}
use tux_io_encoding.Io.{Bytes}
use tux_io_encoding.Compression.{CompressionTypes}
use tux_io_encoding.Tags.{Tags}
use tux_io_encoding.Tags.Keys.MetaKey.{HeaderNames}
use tux_io_encoding.Fs.Layout.{LayoutOptions}
use tux_io_encoding.Fs.Writer.{CreateOptions, ObjectWriter}

module _ {HeaderName : Type 0} (http : HeaderNames HeaderName) where
  abbrev pub with_metadata : Tags HeaderName → CreateOptions http → CreateOptions http
  with_metadata metadata self = record self { metadata = metadata }

  abbrev pub with_tags : Tags Bytes → CreateOptions http → CreateOptions http
  with_tags tags self = record self { tags = tags }

  abbrev pub with_layout : LayoutOptions → CreateOptions http → CreateOptions http
  with_layout layout self = record self { layout = layout }

  abbrev pub with_compression : CompressionTypes → CreateOptions http → CreateOptions http
  with_compression compression self = record self { compression = compression }

  abbrev pub with_sync : Bool → CreateOptions http → CreateOptions http
  with_sync sync self = record self { sync = sync }

  -- What a caller does through the reference that `metadata_mut` or `tags_mut` returns.
  abbrev pub metadata_mut :
      (Tags HeaderName → Tags HeaderName) → ObjectWriter http → ObjectWriter http
  metadata_mut change self = record self { metadata = change self.metadata }

  abbrev pub tags_mut : (Tags Bytes → Tags Bytes) → ObjectWriter http → ObjectWriter http
  tags_mut change self = record self { tags = change self.tags }
