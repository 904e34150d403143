-- ===== src/Fs/Object/Sections.antt =====
-- Opening a file that holds an encoded prefix, and reading its tags.
use tux_io_encoding.Prelude.{
  sizes, ℕ, ◌+◌, ◌-◌, ◌<◌, ◌≡◌, refl, sym, ap, ◌∙◌, Bool, false, [], ◌++◌, append-nil, append_assoc,
  arith, ◌==◌, length,
}
use tux_io_encoding.Error.{ok}
use tux_io_encoding.Fs.Object.{layout}
use tux_io_encoding.Io.{Bytes, seek_start, read_exact, read_exact-append, on_cursor-between}
use tux_io_encoding.Word.Endian.{to_le_bytes, from-to_le_bytes, length-to_le_bytes}
use tux_io_encoding.Word.Usize.{sub_usize_fits}
use tux_io_encoding.Header.{ObjectHeader, header_type}
use tux_io_encoding.Header.Codec.{IsHeader, header_type-Agrees}
use tux_io_encoding.Map.{lookup}
use tux_io_encoding.Types.Text.{IsString, string_type-Agrees}
use tux_io_encoding.Tags.{Tags, tags_type}
use tux_io_encoding.Tags.Codec.{IsTags, tags_type-Agrees}
use tux_io_encoding.Tags.Codec.Entries.{write_tags-ok}
use tux_io_encoding.Tags.Find.{find_from_reader-eq-lookup}
use tux_io_encoding.Tags.Keys.Text.{string_key, text_eq}
use tux_io_encoding.Tags.Keys.MetaKey.{HeaderNames, meta_key, meta_key_type-Agrees, IsMetaKey}
use tux_io_encoding.Fs.Error.{FilePath, ObjectFileError}
use tux_io_encoding.Fs.Layout.{tags_space}
use tux_io_encoding.Fs.Prefix.{metadata_type}
use tux_io_encoding.Fs.Prefix.Encode.{padded, zeros}
use tux_io_encoding.Fs.Object.{TuxObject, from_file, read_tags, tag_count, find_tag, read_file}

==_no : {n : ℕ} → 0 < n → (n == 0) ≡ false
==_no h = ground arith

-- Reading the bytes that stand at the position.
read_file_at :
    (all front bs back : Bytes) (position n : ℕ)
    → all ≡ front ++ (bs ++ back)
    → position ≡ length front
    → n ≡ length bs
    → read_file n (record { bytes = all; position = position })
      ≡ ok (bs, record { bytes = all; position = position + n })
read_file_at all front bs back position n e here len =
    rw
      (
        e,
        here,
        len,
        on_cursor-between (read_exact (length bs)) front bs back bs
            (read_exact-append (length bs) bs back refl),
      )
      refl

-- The sections of a file, and what stands behind them.
abbrev stored : Bytes → Bytes → Bytes → ℕ → ℕ → Bytes → Bytes
stored hb mb tb p q content = padded hb mb tb p q ++ content

module _ {HeaderName : Type 0} (http : HeaderNames HeaderName) (header : ObjectHeader)
    (metadata : Tags HeaderName) (tags : Tags Bytes) (hb mb tb : Bytes) (p q : ℕ) (content : Bytes)
    (header_valid : IsHeader header)
    (metadata_valid : IsTags (meta_key http) (IsMetaKey http) (meta_key_type-Agrees http) metadata)
    (tags_valid : IsTags string_key IsString string_type-Agrees tags)
    (header_written : header_type.write header ≡ ok hb)
    (metadata_written : (metadata_type http).write metadata ≡ ok mb)
    (tags_written : (tags_type string_key).write tags ≡ ok tb)
    (tags_start : header.tags_start ≡ 32 + length mb + p)
    (content_start : header.content_start ≡ 32 + length mb + p + length tb + q) where
  -- The file, cut where its sections start.
  cut : stored hb mb tb p q content ≡ hb ++ ((mb ++ zeros p) ++ ((tb ++ zeros q) ++ content))
  cut =
      rw
        (
          append_assoc hb (mb ++ (zeros p ++ (tb ++ zeros q))) content,
          append_assoc mb (zeros p ++ (tb ++ zeros q)) content,
          append_assoc (zeros p) (tb ++ zeros q) content,
          append_assoc mb (zeros p) ((tb ++ zeros q) ++ content),
        )
        refl

  cut_tags : stored hb mb tb p q content ≡ (hb ++ (mb ++ zeros p)) ++ ((tb ++ zeros q) ++ content)
  cut_tags = cut ∙ sym (append_assoc hb (mb ++ zeros p) ((tb ++ zeros q) ++ content))

  front_length : length (hb ++ (mb ++ zeros p)) ≡ header.tags_start
  unfolding header_type
  front_length =
      let header_sized = header_type-Agrees.sized header hb header_valid header_written in
      grind (sizes, tags_start, header_sized)

  -- The object that opening the file gives, with the file at some position.
  abbrev pub opened : FilePath → Bool → ℕ → TuxObject http
  opened path writable position = record {
    file = record { bytes = stored hb mb tb p q content; position = position };
    path = path;
    header = header;
    metadata = metadata;
    writable = writable;
  }

  section_length : (bs : Bytes) (n : ℕ) → length (bs ++ zeros n) ≡ length bs + n
  section_length bs n = grind sizes

  abbrev tag_bytes : Bytes
  tag_bytes = tb ++ zeros q

  header_length : 32 ≡ length hb
  unfolding header_type
  header_length = sym (header_type-Agrees.sized header hb header_valid header_written)

  -- The three reads: of the header, of the metadata section behind it, and of the tag section.
  header_section :
      (path : FilePath) (writable : Bool) (position : ℕ)
      → read_file 32 (seek_start 0 (opened path writable position).file)
        ≡ ok (hb, (opened path writable 32).file)
  unfolding seek_start
  header_section path writable position =
      read_file_at _ [] hb ((mb ++ zeros p) ++ (tag_bytes ++ content)) 0 32 cut refl header_length

  metadata_section :
      (path : FilePath) (writable : Bool)
      → read_file (length mb + p) (opened path writable 32).file
        ≡ ok (mb ++ zeros p, (opened path writable (32 + (length mb + p))).file)
  metadata_section path writable =
      read_file_at _ hb (mb ++ zeros p) (tag_bytes ++ content) 32 (length mb + p) cut header_length
        (sym (section_length mb p))

  tag_section :
      (path : FilePath) (writable : Bool) (position : ℕ)
      → read_file
          (length tb + q)
          (seek_start header.tags_start (opened path writable position).file)
        ≡ ok (tag_bytes, (opened path writable (header.tags_start + (length tb + q))).file)
  unfolding seek_start
  tag_section path writable position =
      read_file_at _ (hb ++ (mb ++ zeros p)) tag_bytes content header.tags_start (length tb + q)
        cut_tags (sym front_length) (sym (section_length tb q))

  room :
      (path : FilePath) (writable : Bool) (position : ℕ)
      → tags_space (layout http (opened path writable position)) ≡ ok (length tb + q)
  unfolding tags_space
  room path writable position =
      rw (sub_usize_fits {E = ObjectFileError} header.content_start header.tags_start (omega arith))
        (ap ok (omega arith))

  not_empty : (length tb + q == 0) ≡ false
  unfolding to_le_bytes tags_type
  not_empty =
      let (entries, fits, e, eq) = write_tags-ok string_key tags tb tags_written in
      ==_no (rw eq (omega arith))

  metadata_not_empty : (length mb + p == 0) ≡ false
  unfolding to_le_bytes tags_type
  metadata_not_empty =
      let (entries, fits, e, eq) = write_tags-ok (meta_key http) metadata mb metadata_written in
      ==_no (rw eq (omega arith))

  -- Opening the file gives the header and the metadata that were written, wherever the handle stood.
  pub from_file-stored :
      (path : FilePath) (writable : Bool) (position : ℕ)
      → from_file http (opened path writable position).file path writable
        ≡ ok (opened path writable (32 + (length mb + p)))
  unfolding from_file
  from_file-stored path writable position =
      let parsed =
        rw append-nil at (header_type-Agrees.parsed header hb [] header_valid header_written) in
      let law = tags_type-Agrees (meta_key http) (IsMetaKey http) (meta_key_type-Agrees http) in
      let space : header.tags_start - 32 ≡ length mb + p = omega arith in
      rw
        (
          header_section path writable position,
          parsed,
          space,
          metadata_not_empty,
          metadata_section path writable,
          law.decoded metadata mb (zeros p) metadata_valid metadata_written,
        )
        refl

  -- Reading the tags gives the map that was written.
  pub read_tags-stored :
      (path : FilePath) (writable : Bool) (position : ℕ)
      → read_tags http (opened path writable position)
        ≡ ok (tags, opened path writable (header.tags_start + (length tb + q)))
  unfolding read_tags
  read_tags-stored path writable position =
      let law = tags_type-Agrees string_key IsString string_type-Agrees in
      rw
        (
          room path writable position,
          not_empty,
          tag_section path writable position,
          law.decoded tags tb (zeros q) tags_valid tags_written,
        )
        refl

  -- The count is that of the map, from two bytes.
  pub tag_count-stored :
      (path : FilePath) (writable : Bool) (position : ℕ)
      → tag_count http (opened path writable position)
        ≡ ok (length tags, opened path writable (header.tags_start + 2))
  unfolding tag_count seek_start tags_type
  tag_count-stored path writable position =
      let (entries, fits, e, eq) = write_tags-ok string_key tags tb tags_written in
      let count = to_le_bytes 2 (length tags) in
      let layout : stored hb mb tb p q content
          ≡ (hb ++ (mb ++ zeros p)) ++ (count ++ ((entries ++ zeros q) ++ content)) =
        cut_tags
        ∙ ap (λ bs. (hb ++ (mb ++ zeros p)) ++ ((bs ++ zeros q) ++ content)) eq
        ∙ ap (λ bs. (hb ++ (mb ++ zeros p)) ++ (bs ++ content))
            (append_assoc count entries (zeros q))
        ∙ ap (λ bs. (hb ++ (mb ++ zeros p)) ++ bs)
            (append_assoc count (entries ++ zeros q) content) in
      rw
        (
          room path writable position,
          not_empty,
          read_file_at _ (hb ++ (mb ++ zeros p)) count ((entries ++ zeros q) ++ content)
              header.tags_start 2 layout (sym front_length)
              (sym (length-to_le_bytes 2 (length tags))),
          from-to_le_bytes 2 (length tags) (omega arith),
        )
        refl

  -- Looking up one key answers what a lookup in the map does.
  pub find_tag-stored :
      (key : Bytes) (path : FilePath) (writable : Bool) (position : ℕ)
      → find_tag http key (opened path writable position)
        ≡ ok (lookup text_eq key tags, opened path writable (header.tags_start + (length tb + q)))
  unfolding find_tag
  find_tag-stored key path writable position =
      let (c, found) =
        find_from_reader-eq-lookup string_key IsString string_type-Agrees key tags [] tb (zeros q)
          tags_valid tags_written in
      rw (room path writable position, not_empty, tag_section path writable position, found) refl
