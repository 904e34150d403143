-- ===== src/Fs/Object.antt =====
-- fs/object.rs and fs/reader.rs: an object file that is open. The handle is a cursor over the file's bytes, so that reads
-- on a regular file return what is there.
pub mod Content
pub mod Sections
pub mod RoundTrip
pub mod Update
use tux_io_encoding.Fs.Disk.{System}
use tux_io_encoding.Prelude.{
  ℕ, ◌+◌, ◌-◌, ◌^◌, min, Bool, true, false, ◌||◌, not, Option, none, some, [], ◌++◌, ltb, ◌==◌,
  if◌then◌else◌, length, take, drop,
}
use tux_io_encoding.Error.{EncodingError, io_error, ok, err, ◌>>=◌, ◌>>◌, map_err, map_ok}
use tux_io_encoding.Io.{Read, Bytes, Cursor, on_cursor, seek_start, read_exact}
use tux_io_encoding.Word.Usize.{add_usize}
use tux_io_encoding.Types.Number.{u16_type}
use tux_io_encoding.Compression.{CompressionTypes, no_compression}
use tux_io_encoding.Header.{ObjectHeader, header_type}
use tux_io_encoding.Word.Endian.{from_le_bytes}
use tux_io_encoding.Value.{ValueType}
use tux_io_encoding.Tags.{TagKeyType, Tags, tags_type, find_from_reader}
use tux_io_encoding.Tags.Keys.Text.{string_key}
use tux_io_encoding.Tags.Keys.MetaKey.{HeaderNames, meta_key}
use tux_io_encoding.Fs.Error.{
  FilePath, ObjectFileError, ObjectFileResult, encoding, io, reserved_space_exceeded,
  range_out_of_bounds, read_only, ranged_read_on_compressed,
}
use tux_io_encoding.Fs.Layout.{
  SectionLayout, LayoutOptions, repartition, tags_space, header_size, default_alignment,
}
use tux_io_encoding.Fs.Prefix.{metadata_type, encode_prefix}

-- `ContentReader`: what is left of the content, in a file that goes on behind it.
pub record ContentReader : Type 0 where
  pub file : Cursor
  pub remaining : ℕ

-- `Read::read` into a buffer of `n` bytes.
unfoldable pub read_content : ℕ → ContentReader → Bytes × ContentReader
read_content n r =
    if r.remaining == 0 || n == 0
    then ([], r)
    else (let limit = min r.remaining n in
        let found = take limit (drop r.file.position r.file.bytes) in
        (
          found,
          record {
            file = record { bytes = r.file.bytes; position = r.file.position + length found };
            remaining = r.remaining - length found;
          },
        ))

-- An error of `read_exact` on a file is an I/O error of the object.
abbrev pub file_error : EncodingError → ObjectFileError
file_error (io_error kind) = io kind
file_error e = encoding e

abbrev pub read_file : ℕ → Cursor → ObjectFileResult (Bytes × Cursor)
read_file n c = map_err file_error (on_cursor (read_exact n) c)

-- Decoding a section that was read into a buffer.
abbrev pub decode : {A : Type 0} → Read A → Bytes → ObjectFileResult A
decode read buffer = map_err encoding (map_ok (λ p. p.0) (read buffer))

unfoldable pub is_compressed_type : CompressionTypes → Bool
is_compressed_type no_compression = false
is_compressed_type _ = true

module _ {HeaderName : Type 0} (http : HeaderNames HeaderName) where
  pub record TuxObject : Type 0 where
    pub file : Cursor
    pub path : FilePath
    pub header : ObjectHeader
    pub metadata : Tags HeaderName
    pub writable : Bool

  -- `tags_start.saturating_sub(HEADER_SIZE)` bytes of metadata are read, if there are any.
  unfoldable pub read_metadata_section : ℕ → Cursor → ObjectFileResult (Tags HeaderName × Cursor)
  read_metadata_section space c = if space == 0 then ok ([], c) else (do
    (buffer, c) ← read_file space c
    metadata ← decode (metadata_type http).read buffer
    ok (metadata, c))

  unfoldable pub from_file : Cursor → FilePath → Bool → ObjectFileResult TuxObject
  unfolding read_metadata_section
  from_file file path writable = do
    (header_bytes, file) ← read_file header_size (seek_start 0 file)
    header ← map_err encoding (header_type.read_from_bytes header_bytes)
    (metadata, file) ← read_metadata_section (header.tags_start - header_size) file
    ok (record {
      file = file;
      path = path;
      header = header;
      metadata = metadata;
      writable = writable;
    })

  abbrev pub content_length : TuxObject → ℕ
  content_length self = self.header.content_length

  abbrev pub is_compressed : TuxObject → Bool
  is_compressed self = is_compressed_type self.header.compression

  abbrev pub layout : TuxObject → SectionLayout
  layout self = record {
    tags_start = self.header.tags_start;
    content_start = self.header.content_start;
  }

  abbrev at_file : TuxObject → Cursor → TuxObject
  at_file self c = record self { file = c }

  unfoldable pub read_tags : TuxObject → ObjectFileResult (Tags Bytes × TuxObject)
  read_tags self = do
    space ← tags_space (layout self)
    if space == 0 then ok ([], self) else (do
      (buffer, c) ← read_file space (seek_start self.header.tags_start self.file)
      tags ← decode (tags_type string_key).read buffer
      ok (tags, at_file self c))

  unfoldable pub tag_count : TuxObject → ObjectFileResult (ℕ × TuxObject)
  tag_count self = do
    space ← tags_space (layout self)
    if space == 0 then ok (0, self) else (do
      (buffer, c) ← read_file 2 (seek_start self.header.tags_start self.file)
      ok (from_le_bytes buffer, at_file self c))

  unfoldable pub find_tag : Bytes → TuxObject → ObjectFileResult (Option ValueType × TuxObject)
  find_tag key self = do
    space ← tags_space (layout self)
    if space == 0 then ok (none, self) else (do
      (buffer, c) ← read_file space (seek_start self.header.tags_start self.file)
      (found, _) ←
          map_err encoding
            (find_from_reader string_key key (record { bytes = buffer; position = 0 }))
      ok (found, at_file self c))

  -- What `File::write_all` at the start of a file leaves: later bytes stay.
  abbrev pub overwrite : Bytes → Bytes → Bytes
  overwrite prefix bytes = prefix ++ drop (length prefix) bytes

  unfoldable pub set_sections_in_place :
      System → Tags HeaderName → Tags Bytes → TuxObject → ObjectFileResult TuxObject
  set_sections_in_place os metadata tags self =
      if not self.writable then err (read_only self.path) else (do
        let metadata_size = (metadata_type http).size metadata
        let tags_size = (tags_type string_key).size tags
        room ← repartition self.header.content_start metadata_size tags_size default_alignment
        elim room [
          | none ↦ err (
              reserved_space_exceeded (header_size + metadata_size + tags_size)
                self.header.content_start)
          | some l ↦ (do
            let header = record self.header {
              tags_start = l.tags_start;
              content_start = l.content_start;
            }
            prefix ← encode_prefix http header metadata tags l
            elim (os.refuses_write (length prefix)) [
              | some kind ↦ err (io kind)
              | none ↦ ok (record self {
                file = record {
                  bytes = overwrite prefix self.file.bytes;
                  position = length prefix;
                };
                header = header;
                metadata = metadata;
              })
            ])
        ])

  unfoldable pub stored_content_reader : TuxObject → ContentReader
  stored_content_reader self = record {
    file = seek_start self.header.content_start self.file;
    remaining = content_length self;
  }

  -- The bounds checks of `content_range_reader`.
  unfoldable pub range_length : ℕ → ℕ → Option ℕ → ObjectFileResult ℕ
  range_length content_size offset wanted =
      if ltb content_size offset
      then err (range_out_of_bounds offset offset content_size)
      else (let available = content_size - offset in
          let asked : ℕ = elim wanted [ none ↦ available | some n ↦ n ] in
          if ltb available asked
          then err (range_out_of_bounds offset (min (offset + asked) (2 ^ 64 - 1)) content_size)
          else ok asked)

  unfoldable pub content_range_reader : ℕ → Option ℕ → TuxObject → ObjectFileResult ContentReader
  unfolding range_length
  content_range_reader offset asked self =
      if is_compressed self then err ranged_read_on_compressed else (do
        wanted ← range_length (content_length self) offset asked
        start ← add_usize self.header.content_start offset
        ok (record { file = seek_start start self.file; remaining = wanted }))
