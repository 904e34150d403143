-- ===== src/Fs/Writer/Rewriting.antt =====
-- `finish_by_rewriting`: a writer whose sections outgrew their place is finished by its replacement.
use tux_io_encoding.Prelude.{
  ℕ, zero, suc, ◌+◌, ◌^◌, ◌≤◌, ◌<◌, min, ◌≡◌, refl, inl, inr, true, none, some, arith, ◌==◌,
  Bool-cases, length, drop, length-take,
}
use tux_io_encoding.Error.{ok}
use tux_io_encoding.Io.{Bytes}
use tux_io_encoding.Compression.{no_compression}
use tux_io_encoding.Types.Text.{IsString, string_type-Agrees}
use tux_io_encoding.Tags.{tags_type}
use tux_io_encoding.Tags.Codec.{tags_type-Agrees}
use tux_io_encoding.Tags.Keys.Text.{string_key}
use tux_io_encoding.Tags.Keys.MetaKey.{HeaderNames, meta_key, meta_key_type-Agrees, IsMetaKey}
use tux_io_encoding.Fs.Error.{FilePath}
use tux_io_encoding.Fs.Layout.{SectionLayout, repartition, compute}
use tux_io_encoding.Fs.Layout.Compute.{InRange, compute-repartition}
use tux_io_encoding.Fs.Layout.Repartition.{NoOverflow}
use tux_io_encoding.Fs.Prefix.{metadata_type}
use tux_io_encoding.Fs.Object.{is_compressed_type, TuxObject, ContentReader, read_content}
use tux_io_encoding.Fs.Object.Content.{left, read_content_lem, read_content-remaining}
use tux_io_encoding.Fs.Support.{Features, is_supported}
use tux_io_encoding.Fs.TempFile.{temp_name}
use tux_io_encoding.Fs.Disk.{Disk, System}
use tux_io_encoding.Fs.Writer.{
  ObjectWriter, copy_buffer, copy_reads, copy_of, finish, finish_calls, rewrite_options,
}
use tux_io_encoding.Fs.Writer.State.{IsWriting, create-IsWriting, write-ok}
use tux_io_encoding.Fs.Writer.Published.{CanEncode}
use tux_io_encoding.Fs.Writer.Finish.{copy_of-IsWriting, rewritten-CanEncode, source}
use tux_io_encoding.Fs.Writer.Total.{Accepts, write_total, create_total, placed_total}

module _ {HeaderName : Type 0} (http : HeaderNames HeaderName) (os : System) (features : Features)
    (accepts : Accepts os) where
  copy_total :
      (n : ℕ) (source : ContentReader) (w : ObjectWriter http) (d : Disk)
      → source.remaining ≤ n
      → w.allow_raw_writes ≡ true
      → w.content_length + source.remaining < 2 ^ 64
      → (w' : ObjectWriter http) × (d' : Disk) × (copy_reads http os features n source w d
          ≡ (ok w', d'))
  unfolding copy_reads
  copy_total zero source w d enough allowed small = (w, d, refl)
  copy_total (suc n) source w d enough allowed small =
      let bs : Bytes = (read_content copy_buffer source).0 in
      let (now, _) = read_content_lem copy_buffer source in
      let r = read_content-remaining copy_buffer source in
      let counted : length bs ≡ min copy_buffer (length (left source)) =
        rw now (length-take copy_buffer (left source)) in
      let bounded : length (left source) ≤ source.remaining =
        omega (arith, length-take source.remaining (drop source.file.position source.file.bytes)) in
      elim (Bool-cases (length bs == 0)) [
        | inl done ↦ rw done (w, d, refl)
        | inr more ↦
            let (w1, d1, written) =
              write_total http os features accepts bs w d allowed (omega arith) in
            let (_, _, same, _) = write-ok http os features bs w d written in
            let grown : w1.content_length ≡ w.content_length + length bs = rw same refl in
            let allowed' : w1.allow_raw_writes ≡ true = rw same allowed in
            let (w', d', copied) =
              copy_total n (read_content copy_buffer source).1 w1 d1 (ground arith) allowed'
                (omega (arith, r, grown)) in
            (w', d', rw (more, written) copied)
      ]

  copy_of_total :
      (content : Bytes) (w : ObjectWriter http) (start d : Disk) (temp : FilePath)
      (l : SectionLayout)
      → IsWriting http start d temp w content
      → w.compression ≡ no_compression
      → compute
          (rewrite_options http os features w).layout
          ((metadata_type http).size w.metadata)
          ((tags_type string_key).size w.tags)
        ≡ ok l
      → d.names (temp_name os w.final_path d.temp_counter) ≡ none
      → (w' : ObjectWriter http) × (d' : Disk) × (copy_of http os features w d ≡ (ok w', d'))
  unfolding copy_of is_supported is_compressed_type
  copy_of_total content w start d temp l v plain computed unused =
      let options = rewrite_options http os features w in
      let (w1, d1, created) =
        create_total http os features accepts w.final_path options l d (rw plain refl) computed
          unused in
      let (l1, file, temp1, counter, is_temp, computed1, same, v1) =
        create-IsWriting http os features w.final_path options d created in
      let allowed : w1.allow_raw_writes ≡ true = rw (same, plain) refl in
      let empty : w1.content_length ≡ 0 = rw same refl in
      let (w', d', copied) =
        copy_total w.content_length (source http os features w d1) w1 d1 (omega arith) allowed
          (omega (arith, empty, v.small)) in
      (w', d', rw (created, copied) refl)

  -- Where the system refuses no creation, write, sync, rename or clone of a handle, for an open writer that is not
  -- compressed, with valid maps that can be encoded, whose sections outgrew the space in front of the content:
  -- where the layout of the replacement can be computed without overflow and the next temporary name is unused,
  -- `finish` succeeds, by rewriting the object once.
  pub finish_rewrites :
      (mb tb content : Bytes) (w : ObjectWriter http) (start d : Disk) (temp : FilePath)
      (l : SectionLayout)
      → ((p : FilePath) → os.refuses_rename p ≡ none)
      → os.refuses_clone ≡ none
      → IsWriting http start d temp w content
      → CanEncode http w
      → (metadata_type http).write w.metadata ≡ ok mb
      → (tags_type string_key).write w.tags ≡ ok tb
      → w.compression ≡ no_compression
      → InRange
          (rewrite_options http os features w).layout
          ((metadata_type http).size w.metadata)
          ((tags_type string_key).size w.tags)
      → repartition w.layout.content_start
          ((metadata_type http).size w.metadata)
          ((tags_type string_key).size w.tags)
          w.layout_options.alignment
        ≡ ok none
      → compute
          (rewrite_options http os features w).layout
          ((metadata_type http).size w.metadata)
          ((tags_type string_key).size w.tags)
        ≡ ok l
      → d.names (temp_name os w.final_path d.temp_counter) ≡ none
      → (object : TuxObject http) × (d' : Disk) × (finish http os features w d ≡ (ok object, d'))
  unfolding finish_calls
  finish_rewrites mb tb content w start d temp l renames clones v valid em et plain range outgrown
        computed unused =
      let ml =
        (tags_type-Agrees (meta_key http) (IsMetaKey http) (meta_key_type-Agrees http)).sized
          w.metadata mb valid.metadata_valid em in
      let tl =
        (tags_type-Agrees string_key IsString string_type-Agrees).sized w.tags tb valid.tags_valid
          et in
      let (w', d2, copied) = copy_of_total content w start d temp l v plain computed unused in
      let (temp', counter, is_temp, v', l2, computed2, same) =
        copy_of-IsWriting http os features content w start d temp v copied in
      let valid' = rewritten-CanEncode http os features w w' l2 temp' valid computed2 same in
      let (l3, found, _) =
        compute-repartition (rewrite_options http os features w).layout _ _ range l2 computed2 in
      let alignment : w'.layout_options.alignment ≡ w.layout_options.alignment = rw same refl in
      let found' : repartition w'.layout.content_start (length mb) (length tb)
            w'.layout_options.alignment
          ≡ ok (some l3) =
        rw (ml, tl, same) found in
      let range' : NoOverflow (length mb) (length tb) w'.layout_options.alignment =
        rw (alignment, ml, tl) (omega (arith, range.sums)) in
      let (object, d3, finished) =
        placed_total http os features accepts 0 mb tb content w' d d2 temp' l3
          (renames w'.final_path) clones v' valid' (rw same em) (rw same et) range' found' in
      rw (outgrown, copied, finished) (object, _, refl)
