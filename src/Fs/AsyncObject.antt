-- ===== src/Fs/AsyncObject.antt =====
-- `AsyncTuxObject` and `ContentSection` of fs/async_io.rs. An `AsyncTuxObject` has the fields of a `TuxObject`; a borrowed
-- and an owned content reader are the same reader.
pub mod Equivalence
use tux_io_encoding.Fs.Disk.{System}
use tux_io_encoding.Prelude.{
  ℕ, ◌+◌, ◌-◌, ◌^◌, min, Bool, Option, none, some, [], ltb, ◌==◌, if◌then◌else◌, length, take, drop,
}
use tux_io_encoding.Error.{ok, err, ◌>>=◌, ◌>>◌, map_err}
use tux_io_encoding.Io.{Bytes, seek_start}
use tux_io_encoding.Word.Usize.{add_usize}
use tux_io_encoding.Word.Endian.{from_le_bytes}
use tux_io_encoding.Compression.{CompressionTypes, no_compression, zstd, gzip}
use tux_io_encoding.Header.{header_type}
use tux_io_encoding.Value.{ValueType}
use tux_io_encoding.Tags.{Tags, tags_type, find_from_reader}
use tux_io_encoding.Tags.Keys.Text.{string_key}
use tux_io_encoding.Tags.Keys.MetaKey.{HeaderNames}
use tux_io_encoding.Io.{Cursor}
use tux_io_encoding.Fs.Error.{
  FilePath, ObjectFileError, ObjectFileResult, encoding, io, read_only, reserved_space_exceeded,
  range_out_of_bounds, ranged_read_on_compressed, unsupported_compression,
}
use tux_io_encoding.Fs.Layout.{
  repartition, tags_space, header_size, default_alignment, default_layout,
}
use tux_io_encoding.Fs.Prefix.{metadata_type, encode_prefix}
use tux_io_encoding.Fs.Object.{
  ContentReader, read_file, decode, TuxObject, layout, is_compressed, overwrite,
}
use tux_io_encoding.Fs.Object.Content.{left}
use tux_io_encoding.Fs.Support.{Features, ensure_supported}
use tux_io_encoding.Fs.Encoder.{Codecs}

-- `ContentSection`.
abbrev pub ContentSection : Type 0
ContentSection = ContentReader

-- `poll_read`, ready, into a buffer with room for `n` bytes.
unfoldable pub poll_read : ℕ → ContentSection → Bytes × ContentSection
poll_read n r =
    if r.remaining == 0
    then ([], r)
    else (let limit = min r.remaining n in
        let found = take limit (drop r.file.position r.file.bytes) in
        (
          found,
          record {
            file = record { bytes = r.file.bytes; position = r.file.position + length found };
            remaining = r.remaining - length found;
          },
        ))

module _ {HeaderName : Type 0} (http : HeaderNames HeaderName) where
  abbrev pub AsyncTuxObject : Type 0
  AsyncTuxObject = TuxObject http

  unfoldable pub from_file : Cursor → FilePath → Bool → ObjectFileResult AsyncTuxObject
  from_file file path writable = do
    (header_bytes, file) ← read_file header_size (seek_start 0 file)
    header ← map_err encoding (header_type.read_from_bytes header_bytes)
    let space = header.tags_start - header_size
    (metadata, file) ← if space == 0 then ok ([], file) else (do
      (buffer, file) ← read_file space file
      metadata ← decode (metadata_type http).read buffer
      ok (metadata, file))
    ok (record {
      file = file;
      path = path;
      header = header;
      metadata = metadata;
      writable = writable;
    })

  unfoldable pub read_tag_section :
      AsyncTuxObject → ObjectFileResult (Option Bytes × AsyncTuxObject)
  read_tag_section self = do
    space ← tags_space (layout http self)
    if space == 0 then ok (none, self) else (do
      (buffer, file) ← read_file space (seek_start self.header.tags_start self.file)
      ok (some buffer, record self { file = file }))

  unfoldable pub read_tags : AsyncTuxObject → ObjectFileResult (Tags Bytes × AsyncTuxObject)
  unfolding read_tag_section
  read_tags self = do
    (section, self) ← read_tag_section self
    elim section [
      | none ↦ ok ([], self)
      | some buffer ↦ (do tags ← decode (tags_type string_key).read buffer; ok (tags, self))
    ]

  unfoldable pub tag_count : AsyncTuxObject → ObjectFileResult (ℕ × AsyncTuxObject)
  tag_count self = do
    space ← tags_space (layout http self)
    if space == 0 then ok (0, self) else (do
      (buffer, file) ← read_file 2 (seek_start self.header.tags_start self.file)
      ok (from_le_bytes buffer, record self { file = file }))

  unfoldable pub find_tag :
      Bytes → AsyncTuxObject → ObjectFileResult (Option ValueType × AsyncTuxObject)
  unfolding read_tag_section
  find_tag key self = do
    (section, self) ← read_tag_section self
    elim section [
      | none ↦ ok (none, self)
      | some buffer ↦ (do
        (found, _) ←
            map_err encoding
              (find_from_reader string_key key (record { bytes = buffer; position = 0 }))
        ok (found, self))
    ]

  unfoldable pub ensure_writable : AsyncTuxObject → ObjectFileResult (Unit {0})
  ensure_writable self = if self.writable then ok tt else err (read_only self.path)

  unfoldable pub set_sections_in_place :
      System → Tags HeaderName → Tags Bytes → AsyncTuxObject → ObjectFileResult AsyncTuxObject
  unfolding ensure_writable
  set_sections_in_place os metadata tags self = do
    ensure_writable self
    let metadata_size = (metadata_type http).size metadata
    let tags_size = (tags_type string_key).size tags
    room ← repartition self.header.content_start metadata_size tags_size default_alignment
    elim room [
      | none ↦ err (
          reserved_space_exceeded (header_size + metadata_size + tags_size)
            self.header.content_start)
      | some l ↦ (do
        let header = record self.header {
          tags_start = l.tags_start;
          content_start = l.content_start;
        }
        prefix ← encode_prefix http header metadata tags l
        elim (os.refuses_write (length prefix)) [
          | some kind ↦ err (io kind)
          | none ↦ ok (record self {
            file = record {
              bytes = overwrite http prefix self.file.bytes;
              position = length prefix;
            };
            header = header;
            metadata = metadata;
          })
        ])
    ]

  -- What may be read, and the object with its file at that place.
  unfoldable pub seek_to_content_start : AsyncTuxObject → ObjectFileResult (ℕ × AsyncTuxObject)
  seek_to_content_start self = ok (
    self.header.content_length,
    record self { file = seek_start self.header.content_start self.file },
  )

  unfoldable pub seek_within_content :
      ℕ → Option ℕ → AsyncTuxObject → ObjectFileResult (ℕ × AsyncTuxObject)
  seek_within_content offset wanted self =
      if is_compressed http self
      then err ranged_read_on_compressed
      else (let content_length = self.header.content_length in
          if ltb content_length offset
          then err (range_out_of_bounds offset offset content_length)
          else (let available = content_length - offset in
              let asked : ℕ = elim wanted [ none ↦ available | some n ↦ n ] in
              if ltb available asked
              then err
                  (range_out_of_bounds offset (min (offset + asked) (2 ^ 64 - 1)) content_length)
              else (do
                start ← add_usize self.header.content_start offset
                ok (asked, record self { file = seek_start start self.file }))))

  unfoldable pub stored_content_reader : AsyncTuxObject → ObjectFileResult ContentSection
  unfolding seek_to_content_start
  stored_content_reader self = do
    (remaining, self) ← seek_to_content_start self
    ok (record { file = self.file; remaining = remaining })

  unfoldable pub content_range_reader :
      ℕ → Option ℕ → AsyncTuxObject → ObjectFileResult ContentSection
  unfolding seek_within_content
  content_range_reader offset wanted self = do
    (remaining, self) ← seek_within_content offset wanted self
    ok (record { file = self.file; remaining = remaining })

  -- The owned readers take the file with them.
  unfoldable pub into_content_reader : AsyncTuxObject → ObjectFileResult ContentSection
  unfolding seek_to_content_start
  into_content_reader self = do
    (remaining, self) ← seek_to_content_start self
    ok (record { file = self.file; remaining = remaining })

  unfoldable pub into_content_range_reader :
      ℕ → Option ℕ → AsyncTuxObject → ObjectFileResult ContentSection
  unfolding seek_within_content
  into_content_range_reader offset wanted self = do
    (remaining, self) ← seek_within_content offset wanted self
    ok (record { file = self.file; remaining = remaining })

  module _ (codecs : Codecs) (features : Features) where
    -- The task on the blocking pool runs to its end.
    unfoldable pub decode_blocking : Bytes → CompressionTypes → ObjectFileResult Bytes
    decode_blocking bytes no_compression = ensure_supported features no_compression >> ok bytes
    decode_blocking bytes (zstd level) =
        ensure_supported features (zstd level)
        >> (if features.has_zstd
            then map_err io ((codecs.zstd_codec level).decode bytes)
            else err (unsupported_compression (zstd level)))
    decode_blocking bytes (gzip level) =
        ensure_supported features (gzip level)
        >> (if features.has_gzip
            then map_err io ((codecs.gzip_codec level).decode bytes)
            else err (unsupported_compression (gzip level)))

    unfoldable pub read_content_to_vec : AsyncTuxObject → ObjectFileResult Bytes
    unfolding decode_blocking stored_content_reader
    read_content_to_vec self = do
      reader ← stored_content_reader self
      if is_compressed http self
          then decode_blocking (left reader) self.header.compression
          else ok (left reader)
