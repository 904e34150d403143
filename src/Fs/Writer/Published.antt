-- ===== src/Fs/Writer/Published.antt =====
-- What `finish` leaves on the disk where the sections fit in front of the content.
use tux_io_encoding.Fs.Disk.{Handle}
use tux_io_encoding.Fs.Disk.{clone_file}
use tux_io_encoding.Prelude.{
  ℕ, ◌+◌, ◌^◌, ◌<◌, ◌≡◌, refl, sym, ap, ◌∙◌, inl, inr, Bool, true, false, none, some, ◌++◌, arith,
  ◌==◌, ==_self, Bool-cases, Option-cases, length,
}
use tux_io_encoding.Error.{ok, err, panicked}
use tux_io_encoding.Fs.Writer.{write_prefix}
use tux_io_encoding.Io.{Bytes}
use tux_io_encoding.Tags.{Tags}
use tux_io_encoding.Tags.Codec.{IsTags}
use tux_io_encoding.Tags.Keys.Text.{string_key}
use tux_io_encoding.Tags.Keys.MetaKey.{HeaderNames, meta_key, meta_key_type-Agrees, IsMetaKey}
use tux_io_encoding.Types.Text.{IsString, string_type-Agrees}
use tux_io_encoding.Header.Codec.{IsHeader}
use tux_io_encoding.Compression.{IsCompression}
use tux_io_encoding.Fs.Error.{FilePath, ObjectFileResult}
use tux_io_encoding.Fs.Layout.{SectionLayout, repartition}
use tux_io_encoding.Fs.Prefix.{encode_prefix}
use tux_io_encoding.Fs.Object.Update.{repartition-keeps}
use tux_io_encoding.Tags.Keys.Text.{text_eq}
use tux_io_encoding.Fs.Object.{TuxObject}
use tux_io_encoding.Fs.Object.RoundTrip.{prefix-length}
use tux_io_encoding.Fs.Support.{Features}
use tux_io_encoding.Fs.Disk.{
  Disk, System, same_path, write_bytes, write_file, set_bytes, set_name, sync_file, rename_file,
}
use tux_io_encoding.Fs.Disk.Laws.{
  >>=-ok, lift-ok, pure-ok, write_bytes_start, write_file-ok, rename_file-ok, same_path_self,
}
use tux_io_encoding.Fs.Writer.{
  ObjectWriter, build_header, drop_unless_ok, or_drop, publish, finish_in_place,
}
use tux_io_encoding.Fs.Writer.State.{IsWriting}

module _ {HeaderName : Type 0} (http : HeaderNames HeaderName) where
  -- Since the disk `start`, the object has been put under `path`: the name stands for a file whose bytes are an encoded
  -- prefix and the content, and no other name and no other file has changed.
  pub record Published (start d : Disk) (path : FilePath) (metadata : Tags HeaderName)
      (tags : Tags Bytes) (content : Bytes) (object : TuxObject http) : Type 0 where
    pub prefix : Bytes
    pub sections : SectionLayout
    pub id : ℕ
    pub encoded : encode_prefix http object.header metadata tags sections ≡ ok prefix
    pub same_tags_start : object.header.tags_start ≡ sections.tags_start
    pub same_content_start : object.header.content_start ≡ sections.content_start
    pub header_valid : IsHeader object.header
    pub content_counted : object.header.content_length ≡ length content
    pub named : d.names path ≡ some id
    pub stored : d.bytes_of id ≡ prefix ++ content
    pub read_through : object.file.bytes ≡ prefix ++ content
    pub at_path : object.path ≡ path
    pub is_writable : object.writable ≡ true
    pub with_metadata : object.metadata ≡ metadata
    pub names_kept : (q : FilePath) → same_path path q ≡ false → d.names q ≡ start.names q
    pub bytes_kept : (i : ℕ) → i < start.next → d.bytes_of i ≡ start.bytes_of i

  -- What the sections and the header of a writer must meet for their encoding to be read back.
  pub record CanEncode (w : ObjectWriter http) : Type 0 where
    pub metadata_valid :
        IsTags (meta_key http) (IsMetaKey http) (meta_key_type-Agrees http) w.metadata
    pub tags_valid : IsTags string_key IsString string_type-Agrees w.tags
    pub compression_valid : IsCompression w.compression
    pub content_start_fits : w.layout.content_start < 2 ^ 32
    pub floor_fits : w.layout_options.min_content_start < 2 ^ 32

  module _ (os : System) (features : Features) where
    pub or_drop-ok :
        {A : Type 0} (w : ObjectWriter http) (x : ObjectFileResult A × Disk) {a : A} {d' : Disk}
        → drop_unless_ok http os features w x ≡ (ok a, d')
        → x ≡ (ok a, d')
    or_drop-ok w (ok a, d) h = h
    or_drop-ok w (err e, d) h = cc
    or_drop-ok w (panicked, d) h = cc

    sync_file-ok :
        (sync : Bool) (d : Disk) {u : Unit {0}} {d' : Disk}
        → sync_file os sync d ≡ (ok u, d')
        → d' ≡ d
    unfolding sync_file
    sync_file-ok true d h = ground arith
    sync_file-ok false d h = ground arith

    pub write_prefix-ok :
        (w : ObjectWriter http) (d : Disk) {w' : ObjectWriter http} {d' : Disk}
        → write_prefix http os features w d ≡ (ok w', d')
        → (prefix : Bytes) × (encode_prefix http (build_header http w) w.metadata w.tags w.layout
            ≡ ok prefix)
          × (w' ≡ record w { file = record w.file { position = length prefix } })
          × (d' ≡ set_bytes w.file.id (write_bytes 0 prefix (d.bytes_of w.file.id)) d)
    unfolding write_prefix
    write_prefix-ok w d h =
        let (prefix, encoded, h1) =
          lift-ok (encode_prefix http (build_header http w) w.metadata w.tags w.layout) _ d h in
        let (file, d1, written, h2) =
          >>=-ok (write_file os prefix (record w.file { position = 0 })) _ d h1 in
        let (u, d2, synced, h3) = >>=-ok (sync_file os w.sync) _ d1 h2 in
        let (same, after) = pure-ok (record w { file = file }) d2 h3 in
        let (moved, changed) = write_file-ok os prefix (record w.file { position = 0 }) d written in
        let start : 0 + length prefix ≡ length prefix = omega arith in
        (
          prefix,
          encoded,
          same ∙ rw (moved, start) refl,
          after ∙ sync_file-ok w.sync d1 synced ∙ changed,
        )

    publish-ok :
        (temp : FilePath) (id : ℕ) (w : ObjectWriter http) (d : Disk) {w' : ObjectWriter http}
        {d' : Disk}
        → w.temp_path ≡ some temp
        → d.names temp ≡ some id
        → publish http os features w d ≡ (ok w', d')
        → (w' ≡ record w { temp_path = none })
          × (d' ≡ set_name w.final_path (some id) (set_name temp none d))
    unfolding publish
    publish-ok temp id w d has named h =
        let (u, d1, renamed, h1) =
          >>=-ok (rename_file os temp w.final_path) _ d (rw (has, publish) at h) in
        let (same, after) = pure-ok (record w { temp_path = none }) d1 h1 in
        (same, after ∙ rename_file-ok os temp w.final_path id d named renamed)

    clone_file-ok :
        (h : Handle) (d : Disk) {h' : Handle} {d' : Disk}
        → clone_file os h d ≡ (ok h', d')
        → (h' ≡ h) × (d' ≡ d)
    unfolding clone_file
    clone_file-ok h d made = elim (Option-cases os.refuses_clone) [
      | inl allowed ↦ pure-ok h d (rw (clone_file, allowed) at made)
      | inr (kind, refused) ↦ cc (rw (clone_file, refused) at made)
    ]

    -- The steps of a `finish` that succeeds in place.
    pub finish_in_place-ok :
        (l : SectionLayout) (temp : FilePath) (w : ObjectWriter http) (d : Disk)
        {object : TuxObject http} {d' : Disk}
        → w.temp_path ≡ some temp
        → d.names temp ≡ some w.file.id
        → finish_in_place http os features l w d ≡ (ok object, d')
        → (prefix : Bytes) × (encode_prefix http
              (build_header http (record w { layout = l }))
              w.metadata
              w.tags
              l
            ≡ ok prefix)
          × (d'
              ≡ set_name w.final_path (some w.file.id) (
                  set_name temp none
                    (set_bytes w.file.id (write_bytes 0 prefix (d.bytes_of w.file.id)) d)))
          × (object ≡ record {
            file = record {
              bytes = write_bytes 0 prefix (d.bytes_of w.file.id);
              position = length prefix;
            };
            path = w.final_path;
            header = build_header http (record w { layout = l });
            metadata = w.metadata;
            writable = true;
          })
    unfolding finish_in_place
    finish_in_place-ok l temp w d has named h =
        let wl : ObjectWriter http = record w { layout = l } in
        let (w1, d1, step, h1) =
          >>=-ok (or_drop http os features wl (write_prefix http os features wl)) _ d h in
        let (prefix, encoded, same, changed) = write_prefix-ok wl d (or_drop-ok wl _ step) in
        let (w2, d2, published, h2) = >>=-ok (publish http os features w1) _ d1 h1 in
        let (same2, renamed) =
          publish-ok temp w.file.id w1 d1 (rw same has) (rw changed named) published in
        let (file, d3, cloned, h3) = >>=-ok (clone_file os w2.file) _ d2 h2 in
        let (same_file, same_disk) = clone_file-ok w2.file d2 cloned in
        let (object_is, after) = pure-ok _ d3 h3 in
        (
          prefix,
          encoded,
          after ∙ same_disk ∙ renamed ∙ rw (same, changed) refl,
          object_is
              ∙ rw (same_file, same_disk, same2, same, renamed, changed, ==_self w.file.id) refl,
        )

    pub finished-IsHeader :
        (l : SectionLayout) (w : ObjectWriter http)
        → CanEncode w
        → w.content_length < 2 ^ 64
        → l.tags_start < 2 ^ 16
        → l.content_start ≡ w.layout.content_start
        → IsHeader (build_header http (record w { layout = l }))
    finished-IsHeader l w valid counted small keeps = record {
      is_current = refl;
      compression_valid = valid.compression_valid;
      tags_start_fits = small;
      content_start_fits = rw keeps valid.content_start_fits;
      content_length_fits = counted;
      bit_flags_fit = omega arith;
    }

    -- A `finish` that succeeds in place publishes the content behind the encoded sections.
    pub finish_in_place-Published :
        (l : SectionLayout) (m t : ℕ) (content : Bytes) (w : ObjectWriter http) (start d : Disk)
        (temp : FilePath) {object : TuxObject http} {d' : Disk}
        → IsWriting http start d temp w content
        → CanEncode w
        → repartition w.layout.content_start m t w.layout_options.alignment ≡ ok (some l)
        → finish_in_place http os features l w d ≡ (ok object, d')
        → Published start d' w.final_path w.metadata w.tags content object
    finish_in_place-Published l m t content w start d temp v valid fits h =
        let (prefix, encoded, after, same) = finish_in_place-ok l temp w d v.has_temp v.named h in
        let (keeps, small) =
          repartition-keeps w.layout.content_start m t w.layout_options.alignment l fits in
        let header_valid = finished-IsHeader l w valid v.small small keeps in
        let len : length prefix ≡ w.layout.content_start =
          prefix-length http (build_header http (record w { layout = l })) w.metadata w.tags l
            prefix content header_valid valid.metadata_valid valid.tags_valid refl refl encoded
          ∙ keeps in
        let bytes : write_bytes 0 prefix (d.bytes_of w.file.id) ≡ prefix ++ content =
          write_bytes_start prefix _ ∙ rw (len, v.stored) refl in
        rw (after, same, bytes)
          (record {
            prefix = prefix;
            sections = l;
            id = w.file.id;
            encoded = encoded;
            same_tags_start = refl;
            same_content_start = refl;
            header_valid = header_valid;
            content_counted = v.counted;
            named = rw (same_path_self w.final_path) refl;
            stored = rw (==_self w.file.id) refl;
            read_through = refl;
            at_path = refl;
            is_writable = refl;
            with_metadata = refl;
            names_kept = λ q apart. rw apart (elim (Bool-cases (same_path temp q)) [
              | inl own ↦ rw own (sym v.unused ∙ ap start.names ((text_eq.same_iff temp q).0 own))
              | inr not_own ↦ rw not_own (v.names_kept q not_own)
            ]);
            bytes_kept = λ i old.
                let newer : (i == w.file.id) ≡ false = ground (arith, v.is_new) in
                rw newer (v.bytes_kept i old);
          })
