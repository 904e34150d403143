-- ===== src/Fs/Writer/Total.antt =====
-- On a system that refuses nothing, a writer succeeds.
use tux_io_encoding.Prelude.{
  ℕ, suc, ◌+◌, ◌-◌, ◌%◌, ◌^◌, ◌≤◌, ◌<◌, ◌≡◌, refl, sym, Bool, true, false, none, some, [], arith,
  length,
}
use tux_io_encoding.Error.{IoErrorKind, ok, err}
use tux_io_encoding.Fs.Disk.{clone_file}
use tux_io_encoding.Fs.Writer.{finish_calls}
use tux_io_encoding.Io.{Bytes}
use tux_io_encoding.Word.Usize.{add_usize_fits}
use tux_io_encoding.Header.{header_type}
use tux_io_encoding.Header.Codec.{encode_header, write_header_lem, header_type-Agrees}
use tux_io_encoding.Types.Text.{IsString, string_type-Agrees}
use tux_io_encoding.Tags.{tags_type}
use tux_io_encoding.Tags.Codec.{tags_type-Agrees}
use tux_io_encoding.Tags.Keys.Text.{string_key}
use tux_io_encoding.Tags.Keys.MetaKey.{HeaderNames, meta_key, meta_key_type-Agrees, IsMetaKey}
use tux_io_encoding.Fs.Disk.{same_path}
use tux_io_encoding.Fs.Error.{io, FilePath, ObjectFileError}
use tux_io_encoding.Fs.Layout.{SectionLayout, repartition, compute}
use tux_io_encoding.Fs.Layout.Align.{rounded}
use tux_io_encoding.Fs.Layout.Repartition.{NoOverflow, repartition-some, repartition_fits}
use tux_io_encoding.Fs.Prefix.{metadata_type, encode_prefix}
use tux_io_encoding.Fs.Prefix.Encode.{encode_prefix-padded}
use tux_io_encoding.Fs.Object.{TuxObject}
use tux_io_encoding.Fs.Support.{Features, ensure_supported, is_supported}
use tux_io_encoding.Fs.TempFile.{temp_name, try_names, next_temp_counter, or_next_name}
use tux_io_encoding.Fs.Disk.{
  Disk, Handle, System, write_file, sync_file, rename_file, create_new, set_name, set_bytes,
  write_bytes,
}
use tux_io_encoding.Fs.Writer.{
  ObjectWriter, CreateOptions, build_header, create, write, write_prefix, publish, finish_in_place,
  finish,
}
use tux_io_encoding.Fs.Writer.State.{IsWriting}
use tux_io_encoding.Fs.Writer.Published.{CanEncode, finished-IsHeader}

-- A system that refuses neither to create nor to write.
pub record Accepts (os : System) : Type 0 where
  pub creates : (p : FilePath) → os.refuses_create p ≡ none
  pub writes : (offset : ℕ) → os.refuses_write offset ≡ none
  pub syncs : os.refuses_sync ≡ none

module _ {HeaderName : Type 0} (http : HeaderNames HeaderName) (os : System) (features : Features)
    (accepts : Accepts os) where
  write_file_accepted :
      (bs : Bytes) (h : Handle) (d : Disk)
      → write_file os bs h d ≡ (
        ok (record h { position = h.position + length bs }),
        set_bytes h.id (write_bytes h.position bs (d.bytes_of h.id)) d,
      )
  unfolding write_file
  write_file_accepted bs h d = ground (arith, accepts.writes (h.position + length bs))

  sync_file_accepted : (sync : Bool) (d : Disk) → sync_file os sync d ≡ (ok tt, d)
  unfolding sync_file
  sync_file_accepted true d = ground (arith, accepts.syncs)
  sync_file_accepted false d = refl

  -- Where the number of bytes stays below 2 ^ 64, a write to a writer that accepts raw writes succeeds.
  pub write_total :
      (bs : Bytes) (w : ObjectWriter http) (d : Disk)
      → w.allow_raw_writes ≡ true
      → w.content_length + length bs < 2 ^ 64
      → (w' : ObjectWriter http) × (d' : Disk) × (write http os features bs w d ≡ (ok w', d'))
  unfolding write
  write_total bs w d allowed fits =
      rw
        (
          allowed,
          write_file_accepted bs w.file d,
          add_usize_fits {E = ObjectFileError} w.content_length (length bs) fits,
        )
        (_, _, refl)

  pub write_prefix_total :
      (prefix : Bytes) (w : ObjectWriter http) (d : Disk)
      → encode_prefix http (build_header http w) w.metadata w.tags w.layout ≡ ok prefix
      → write_prefix http os features w d ≡ (
        ok (record w { file = record w.file { position = 0 + length prefix } }),
        set_bytes w.file.id (write_bytes 0 prefix (d.bytes_of w.file.id)) d,
      )
  unfolding write_prefix
  write_prefix_total prefix w d encoded =
      rw
        (
          encoded,
          write_file_accepted prefix (record w.file { position = 0 }) d,
          sync_file_accepted w.sync,
        )
        refl

  pub publish_total :
      (temp : FilePath) (id : ℕ) (w : ObjectWriter http) (d : Disk)
      → os.refuses_rename w.final_path ≡ none
      → w.temp_path ≡ some temp
      → d.names temp ≡ some id
      → publish http os features w d ≡ (
        ok (record w { temp_path = none }),
        set_name w.final_path (some id) (set_name temp none d),
      )
  unfolding publish rename_file
  publish_total temp id w d renamed has named = ground (arith, renamed)

  finish_in_place_total :
      (l : SectionLayout) (prefix content : Bytes) (w : ObjectWriter http) (start d : Disk)
      (temp : FilePath)
      → os.refuses_rename w.final_path ≡ none
      → os.refuses_clone ≡ none
      → IsWriting http start d temp w content
      → encode_prefix http (build_header http (record w { layout = l })) w.metadata w.tags l
        ≡ ok prefix
      → (object : TuxObject http) × (d' : Disk) × (finish_in_place http os features l w d
          ≡ (ok object, d'))
  unfolding finish_in_place clone_file
  finish_in_place_total l prefix content w start d temp renamed clones v encoded =
      let wl : ObjectWriter http = record w { layout = l } in
      let w1 : ObjectWriter http = record wl {
        file = record w.file { position = 0 + length prefix };
      } in
      rw
        (
          write_prefix_total prefix wl d encoded,
          publish_total temp w.file.id w1
              (set_bytes w.file.id (write_bytes 0 prefix (d.bytes_of w.file.id)) d) renamed
              v.has_temp v.named,
          clones,
        )
        (_, _, refl)

  -- Where the codec is supported, the layout is computed and the first candidate for the temporary name is unused, a
  -- writer is created.
  pub create_total :
      (path : FilePath) (options : CreateOptions http) (l : SectionLayout) (d : Disk)
      → is_supported features options.compression ≡ true
      → compute options.layout
          ((metadata_type http).size options.metadata)
          ((tags_type string_key).size options.tags)
        ≡ ok l
      → d.names (temp_name os path d.temp_counter) ≡ none
      → (w : ObjectWriter http) × (d' : Disk) × (create http os features path options d
          ≡ (ok w, d'))
  unfolding create ensure_supported try_names next_temp_counter or_next_name create_new
  create_total path options l d supported computed unused =
      let candidate = temp_name os path d.temp_counter in
      let created : create_new os candidate
            (record d { temp_counter = (d.temp_counter + 1) % 2 ^ 64 })
          ≡ (
            ok (record { id = d.next; position = 0 }),
            record (set_name candidate (some d.next)
                (set_bytes d.next [] (record d { temp_counter = (d.temp_counter + 1) % 2 ^ 64 }))) {
                  next = d.next + 1;
                },
          ) =
        ground (arith, accepts.creates candidate) in
      rw (supported, computed, created) (_, _, refl)

  -- Sections that can be encoded, where there is room for them, are finished in place.
  pub placed_total :
      (calls : ℕ) (mb tb content : Bytes) (w : ObjectWriter http) (start d : Disk) (temp : FilePath)
      (l : SectionLayout)
      → os.refuses_rename w.final_path ≡ none
      → os.refuses_clone ≡ none
      → IsWriting http start d temp w content
      → CanEncode http w
      → (metadata_type http).write w.metadata ≡ ok mb
      → (tags_type string_key).write w.tags ≡ ok tb
      → NoOverflow (length mb) (length tb) w.layout_options.alignment
      → repartition w.layout.content_start (length mb) (length tb) w.layout_options.alignment
        ≡ ok (some l)
      → (object : TuxObject http) × (d' : Disk) × (finish_calls http os features (suc calls) w d
          ≡ (ok object, d'))
  unfolding finish_calls header_type
  placed_total calls mb tb content w start d temp l renamed clones v valid em et range found =
      let ml =
        (tags_type-Agrees (meta_key http) (IsMetaKey http) (meta_key_type-Agrees http)).sized
          w.metadata mb valid.metadata_valid em in
      let tl =
        (tags_type-Agrees string_key IsString string_type-Agrees).sized w.tags tb valid.tags_valid
          et in
      let fits =
        repartition_fits w.layout.content_start (length mb) (length tb) w.layout_options.alignment
          range l found in
      let header = build_header http (record w { layout = l }) in
      let p : ℕ = l.tags_start - (32 + length mb) in
      let q : ℕ = l.content_start - (l.tags_start + length tb) in
      let encoded =
        encode_prefix-padded http header w.metadata w.tags l (encode_header header) mb tb p q
          (write_header_lem header) em et
          (header_type-Agrees.sized header (encode_header header)
            (finished-IsHeader http os features l w valid v.small (omega (arith, fits)) fits.0)
            (write_header_lem header))
          (omega arith) (omega arith) (sym ml) (sym tl) in
      rw (← ml, ← tl, found)
        (finish_in_place_total l _ content w start d temp renamed clones v encoded)

  -- On a system that refuses no creation, write, sync or clone of a handle, nor the rename: for an open writer with
  -- valid maps that can be encoded, `finish` succeeds where the header and the encodings fit in front of the
  -- content, the aligned end of the metadata fits a `u16`, and no sum overflows.
  pub finish_total :
      (mb tb content : Bytes) (w : ObjectWriter http) (start d : Disk) (temp : FilePath)
      → os.refuses_rename w.final_path ≡ none
      → os.refuses_clone ≡ none
      → IsWriting http start d temp w content
      → CanEncode http w
      → (metadata_type http).write w.metadata ≡ ok mb
      → (tags_type string_key).write w.tags ≡ ok tb
      → NoOverflow (length mb) (length tb) w.layout_options.alignment
      → rounded (32 + length mb) w.layout_options.alignment ≤ 65535
      → 32 + length mb + length tb ≤ w.layout.content_start
      → (object : TuxObject http) × (d' : Disk) × (finish http os features w d ≡ (ok object, d'))
  finish_total mb tb content w start d temp renamed clones v valid em et range addressable room =
      let (l, found, keeps) =
        repartition-some w.layout.content_start (length mb) (length tb) w.layout_options.alignment
          range addressable room in
      placed_total 1 mb tb content w start d temp l renamed clones v valid em et range found

  -- On a system that refuses no creation, write or sync, but refuses the rename: `finish` of an open writer whose
  -- sections fit and can be encoded, and whose temporary name differs from the destination, fails with the error of
  -- the rename, leaves the destination as it was, and leaves the temporary file behind.
  pub finish_refused :
      (kind : IoErrorKind) (l : SectionLayout) (prefix content : Bytes) (w : ObjectWriter http)
      (start d : Disk) (temp : FilePath)
      → os.refuses_rename w.final_path ≡ some kind
      → IsWriting http start d temp w content
      → same_path temp w.final_path ≡ false
      → repartition w.layout.content_start
          ((metadata_type http).size w.metadata)
          ((tags_type string_key).size w.tags)
          w.layout_options.alignment
        ≡ ok (some l)
      → encode_prefix http (build_header http (record w { layout = l })) w.metadata w.tags l
        ≡ ok prefix
      → (d' : Disk) × (finish http os features w d ≡ (err (io kind), d'))
        × (d'.names temp ≡ some w.file.id)
        × (d'.names w.final_path ≡ start.names w.final_path)
  unfolding finish_calls finish_in_place publish rename_file
  finish_refused kind l prefix content w start d temp refused v beside found encoded =
      let wl : ObjectWriter http = record w { layout = l } in
      let d' : Disk = set_bytes w.file.id (write_bytes 0 prefix (d.bytes_of w.file.id)) d in
      let fails : rename_file os temp w.final_path d' ≡ (err (io kind), d') =
        ground (arith, v.named) in
      rw (found, write_prefix_total prefix wl d encoded, v.has_temp, publish, fails)
        (d', refl, v.named, v.names_kept w.final_path beside)
