-- ===== src/Fs/Object/RoundTrip.antt =====
-- A file that starts with what `encode_prefix` returns, opened again.
use tux_io_encoding.Prelude.{sizes, ℕ, ◌≡◌, ◌∙◌, Bool, ◌++◌, length}
use tux_io_encoding.Error.{ok}
use tux_io_encoding.Io.{Bytes}
use tux_io_encoding.Header.{ObjectHeader, header_type}
use tux_io_encoding.Header.Codec.{IsHeader, header_type-Agrees}
use tux_io_encoding.Map.{lookup}
use tux_io_encoding.Types.Text.{IsString, string_type-Agrees}
use tux_io_encoding.Tags.{Tags}
use tux_io_encoding.Tags.Codec.{IsTags}
use tux_io_encoding.Tags.Keys.Text.{string_key, text_eq}
use tux_io_encoding.Tags.Keys.MetaKey.{HeaderNames, meta_key, meta_key_type-Agrees, IsMetaKey}
use tux_io_encoding.Fs.Error.{FilePath}
use tux_io_encoding.Fs.Layout.{SectionLayout}
use tux_io_encoding.Fs.Prefix.{encode_prefix}
use tux_io_encoding.Fs.Prefix.Written.{encode_prefix-Pieces}
use tux_io_encoding.Fs.Object.{TuxObject, from_file, read_tags, tag_count, find_tag}
use tux_io_encoding.Fs.Object.Sections.{
  from_file-stored, read_tags-stored, tag_count-stored, find_tag-stored,
}

module _ {HeaderName : Type 0} (http : HeaderNames HeaderName) (header : ObjectHeader)
    (metadata : Tags HeaderName) (tags : Tags Bytes) (bytes : Bytes) where
  -- The open object, with its handle at a position.
  abbrev pub handle : FilePath → Bool → ℕ → TuxObject http
  handle path writable position = record {
    file = record { bytes = bytes; position = position };
    path = path;
    header = header;
    metadata = metadata;
    writable = writable;
  }

  -- What opening the file and the methods of the object answer, where the handle stands at a position.
  pub record Holds (key : Bytes) (path : FilePath) (writable : Bool) (position : ℕ) : Type 0 where
    pub opens :
        (p : ℕ) × (from_file http (handle path writable position).file path writable
          ≡ ok (handle path writable p))
    pub reads_tags :
        (p : ℕ) × (read_tags http (handle path writable position)
          ≡ ok (tags, handle path writable p))
    pub counts_tags :
        (p : ℕ) × (tag_count http (handle path writable position)
          ≡ ok (length tags, handle path writable p))
    pub finds_tag :
        (p : ℕ) × (find_tag http key (handle path writable position)
          ≡ ok (lookup text_eq key tags, handle path writable p))

module _ {HeaderName : Type 0} (http : HeaderNames HeaderName) (header : ObjectHeader)
    (metadata : Tags HeaderName) (tags : Tags Bytes) (layout : SectionLayout)
    (prefix content : Bytes) (header_valid : IsHeader header)
    (metadata_valid : IsTags (meta_key http) (IsMetaKey http) (meta_key_type-Agrees http) metadata)
    (tags_valid : IsTags string_key IsString string_type-Agrees tags)
    (same_tags_start : header.tags_start ≡ layout.tags_start)
    (same_content_start : header.content_start ≡ layout.content_start)
    (written : encode_prefix http header metadata tags layout ≡ ok prefix) where
  -- For a valid header with the layout's offsets and valid maps: a file that starts with what `encode_prefix`
  -- returned, whatever follows, opens with the header and the metadata that were encoded, and its tags are
  -- read, counted and looked up as those that were encoded, wherever the handle stands.
  pub file-Holds :
      (key : Bytes) (path : FilePath) (writable : Bool) (position : ℕ)
      → Holds http header metadata tags (prefix ++ content) key path writable position
  file-Holds key path writable position =
      let w =
        encode_prefix-Pieces http header metadata tags layout prefix header_valid metadata_valid
          tags_valid written in
      let ts = same_tags_start ∙ w.tags_start in
      let cs = same_content_start ∙ w.content_start in
      rw w.is_padded (record {
        opens = (
          _,
          from_file-stored http header metadata tags w.hb w.mb w.tb w.p w.q content header_valid
              metadata_valid tags_valid w.header_written w.metadata_written w.tags_written ts cs
              path writable position,
        );
        reads_tags = (
          _,
          read_tags-stored http header metadata tags w.hb w.mb w.tb w.p w.q content header_valid
              metadata_valid tags_valid w.header_written w.metadata_written w.tags_written ts cs
              path writable position,
        );
        counts_tags = (
          _,
          tag_count-stored http header metadata tags w.hb w.mb w.tb w.p w.q content header_valid
              metadata_valid tags_valid w.header_written w.metadata_written w.tags_written ts cs
              path writable position,
        );
        finds_tag = (
          _,
          find_tag-stored http header metadata tags w.hb w.mb w.tb w.p w.q content header_valid
              metadata_valid tags_valid w.header_written w.metadata_written w.tags_written ts cs key
              path writable position,
        );
      })

  -- A prefix is as long as the offset of the content, so that the content stands right behind it.
  pub prefix-length : length prefix ≡ layout.content_start
  unfolding header_type
  prefix-length =
      let w =
        encode_prefix-Pieces http header metadata tags layout prefix header_valid metadata_valid
          tags_valid written in
      let header_sized = header_type-Agrees.sized header w.hb header_valid w.header_written in
      rw (w.is_padded, w.content_start) (grind (sizes, header_sized))
