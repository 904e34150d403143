-- ===== src/Fs/Writer/Finish.antt =====
-- `ObjectWriter::finish`, with the rewriting of an object whose sections have outgrown its prefix.
use tux_io_encoding.Prelude.{
  ℕ, zero, suc, ◌^◌, ◌<◌, ◌≡◌, refl, sym, ap, ◌∙◌, inl, inr, false, not, none, some, [], arith,
  Bool-cases, take_all,
}
use tux_io_encoding.Error.{ok}
use tux_io_encoding.Io.{Bytes}
use tux_io_encoding.Tags.{tags_type}
use tux_io_encoding.Tags.Keys.Text.{string_key, text_eq}
use tux_io_encoding.Tags.Keys.MetaKey.{HeaderNames}
use tux_io_encoding.Fs.Error.{FilePath}
use tux_io_encoding.Fs.Layout.{SectionLayout, LayoutOptions, repartition, compute, fresh, reuse}
use tux_io_encoding.Fs.Prefix.{metadata_type}
use tux_io_encoding.Fs.Object.{is_compressed_type, TuxObject, ContentReader}
use tux_io_encoding.Fs.Object.Content.{left}
use tux_io_encoding.Fs.Support.{Features}
use tux_io_encoding.Fs.TempFile.{temp_name}
use tux_io_encoding.Fs.Disk.{Disk, System, Action, lift, ◌>>=◌, same_path, set_name, remove_file}
use tux_io_encoding.Fs.Disk.Laws.{>>=-ok, same_path_sym, lift-same, option_branch}
use tux_io_encoding.Fs.Writer.{
  ObjectWriter, create, or_drop, and_drop, drop_writer, copy_of, rewrite_options, finish_in_place,
  finish_calls,
}
use tux_io_encoding.Fs.Writer.State.{IsWriting, create-IsWriting, copy_reads-IsWriting}
use tux_io_encoding.Fs.Writer.Published.{
  Published, CanEncode, or_drop-ok, finish_in_place-Published,
}

-- The content of a computed layout starts below 2 ^ 32, as the floor does.
pub compute_start_fits :
    (o : LayoutOptions) (m t : ℕ) (l : SectionLayout)
    → o.min_content_start < 2 ^ 32
    → compute o m t ≡ ok l
    → l.content_start < 2 ^ 32
unfolding compute reuse fresh
compute_start_fits o m t l floor h = ground arith

-- The names of temporary files differ from their destination's, and those files can be removed.
pub record IsTidy (os : System) : Type 0 where
  pub beside : (p : FilePath) (counter : ℕ) → same_path (temp_name os p counter) p ≡ false
  pub removes : (p : FilePath) → os.refuses_remove p ≡ none

module _ {HeaderName : Type 0} (http : HeaderNames HeaderName) (os : System)
    (features : Features) where
  pub drop_writer-removes :
      (temp : FilePath) (id : ℕ) (w : ObjectWriter http) (d : Disk)
      → w.temp_path ≡ some temp
      → d.names temp ≡ some id
      → os.refuses_remove temp ≡ none
      → drop_writer http os features w d ≡ set_name temp none d
  unfolding drop_writer remove_file
  drop_writer-removes temp id w d has named allowed = ground arith

  -- The reader of the content that a writer has written so far.
  abbrev pub source : ObjectWriter http → Disk → ContentReader
  source w d = record {
    file = record { bytes = d.bytes_of w.file.id; position = w.layout.content_start };
    remaining = w.content_length;
  }

  -- A replacement, with the file and the count of the second writer.
  abbrev pub replaced :
      ObjectWriter http → ObjectWriter http → SectionLayout → FilePath → ObjectWriter http
  replaced w w' l temp' = record w {
    file = w'.file;
    temp_path = some temp';
    layout = l;
    layout_options = (rewrite_options http os features w).layout;
    content_length = w'.content_length;
    allow_raw_writes = not (is_compressed_type w.compression);
  }

  -- A replacement has the content of the writer it replaces, and its sections.
  pub copy_of-IsWriting :
      (content : Bytes) (w : ObjectWriter http) (start d : Disk) (temp : FilePath)
      {w' : ObjectWriter http} {d' : Disk}
      → IsWriting http start d temp w content
      → copy_of http os features w d ≡ (ok w', d')
      → (temp' : FilePath) × (counter : ℕ) × (temp' ≡ temp_name os w.final_path counter)
        × IsWriting http d d' temp' w' content
        × (l : SectionLayout) × (compute
              (rewrite_options http os features w).layout
              ((metadata_type http).size w.metadata)
              ((tags_type string_key).size w.tags)
            ≡ ok l)
        × (w' ≡ replaced w w' l temp')
  unfolding copy_of
  copy_of-IsWriting content w start d temp v h =
      let options = rewrite_options http os features w in
      let (w1, d1, created, h1) = >>=-ok (create http os features w.final_path options) _ d h in
      let (l, file, temp1, counter, is_temp, computed, same, v1) =
        create-IsWriting http os features w.final_path options d created in
      let (v', same') =
        copy_reads-IsWriting http os features w.content_length (source w d1) [] w1 d d1 temp1
          (omega arith) v1 (or_drop-ok http os features w1 _ h1) in
      let kept : d1.bytes_of w.file.id ≡ d.bytes_of w.file.id =
        v1.bytes_kept w.file.id v.is_known in
      let all : left (source w d1) ≡ content = rw (kept, v.stored, v.counted) (take_all content) in
      (temp1, counter, is_temp, rw all at v', l, computed, same' ∙ rw same refl)

  and_drop-ok :
      {A : Type 0} (w : ObjectWriter http) (step : Action A) (d : Disk) {a : A} {d' : Disk}
      → and_drop http os features w step d ≡ (ok a, d')
      → (d1 : Disk) × (step d ≡ (ok a, d1)) × (d' ≡ drop_writer http os features w d1)
  and_drop-ok w step d h = ((step d).1, ap (λ x. (x.0, (step d).1)) h, ap (λ x. x.1) (sym h))

  -- A removal of the first writer's file after the replacement was published.
  and_drop-Published :
      (content : Bytes) (w : ObjectWriter http) (start d d1 : Disk) (temp : FilePath)
      (object : TuxObject http)
      → IsTidy os
      → same_path temp w.final_path ≡ false
      → IsWriting http start d temp w content
      → Published http d d1 w.final_path w.metadata w.tags content object
      → Published http start
          (drop_writer http os features w d1)
          w.final_path
          w.metadata
          w.tags
          content
          object
  and_drop-Published content w start d d1 temp object tidy beside v p =
      let apart = same_path_sym temp w.final_path beside in
      let still : d1.names temp ≡ some w.file.id = p.names_kept temp apart ∙ v.named in
      rw (drop_writer-removes temp w.file.id w d1 v.has_temp still (tidy.removes temp)) (record {
        prefix = p.prefix;
        sections = p.sections;
        id = p.id;
        encoded = p.encoded;
        same_tags_start = p.same_tags_start;
        same_content_start = p.same_content_start;
        header_valid = p.header_valid;
        content_counted = p.content_counted;
        named = rw beside p.named;
        stored = p.stored;
        read_through = p.read_through;
        at_path = p.at_path;
        is_writable = p.is_writable;
        with_metadata = p.with_metadata;
        names_kept = λ q apart. elim (Bool-cases (same_path temp q)) [
          | inl own ↦ rw own (sym v.unused ∙ ap start.names ((text_eq.same_iff temp q).0 own))
          | inr not_own ↦ rw not_own (p.names_kept q apart ∙ v.names_kept q not_own)
        ];
        bytes_kept =
            λ i old. p.bytes_kept i (omega (arith, v.is_new, v.is_known)) ∙ v.bytes_kept i old;
      })

  pub rewritten-CanEncode :
      (w w' : ObjectWriter http) (l : SectionLayout) (temp' : FilePath)
      → CanEncode http w
      → compute
          (rewrite_options http os features w).layout
          ((metadata_type http).size w.metadata)
          ((tags_type string_key).size w.tags)
        ≡ ok l
      → w' ≡ replaced w w' l temp'
      → CanEncode http w'
  rewritten-CanEncode w w' l temp' valid computed same = rw same (record {
    metadata_valid = valid.metadata_valid;
    tags_valid = valid.tags_valid;
    compression_valid = valid.compression_valid;
    content_start_fits =
        compute_start_fits (rewrite_options http os features w).layout _ _ l valid.floor_fits
          computed;
    floor_fits = valid.floor_fits;
  })

  -- On a system that refuses no removal and whose temporary names differ from the destination, for a writer that has
  -- written `content`, with valid maps: a `finish` that succeeds, also one that moves the content to make room for the
  -- sections, has put the object under its path, with the encoded sections in front of the content, has removed the
  -- temporary files, and has changed no other name and no other file.
  pub finish-Published :
      (calls : ℕ) (content : Bytes) (w : ObjectWriter http) (start d : Disk) (temp : FilePath)
      {object : TuxObject http} {d' : Disk}
      → IsTidy os
      → same_path temp w.final_path ≡ false
      → CanEncode http w
      → IsWriting http start d temp w content
      → finish_calls http os features calls w d ≡ (ok object, d')
      → Published http start d' w.final_path w.metadata w.tags content object
  unfolding finish_calls
  finish-Published zero content w start d temp tidy beside valid v h = cc
  finish-Published (suc calls) content w start d temp {object} tidy beside valid v h =
      let m = (metadata_type http).size w.metadata in
      let t = (tags_type string_key).size w.tags in
      let (room, d0, step, h1) =
        >>=-ok
          (or_drop http os features w
            (lift (repartition w.layout.content_start m t w.layout_options.alignment)))
          _ d h in
      let (found, same_disk) = lift-same _ d (or_drop-ok http os features w _ step) in
      elim (option_branch room _ (λ l. finish_in_place http os features l w) d0 h1) [
        | inr (l, fits, h2) ↦
            finish_in_place-Published http os features l m t content w start d temp v valid
              (found ∙ ap ok fits) (rw same_disk at h2)
        | inl (outgrown, h2) ↦
            let (d3, rewritten, dropped) =
              and_drop-ok w (copy_of http os features w >>= finish_calls http os features calls) d0
                h2 in
            let (w', d2, copied, h3) = >>=-ok (copy_of http os features w) _ d0 rewritten in
            let v0 = rw (← same_disk) at v in
            let (temp', counter, is_temp, v', l, computed, same) =
              copy_of-IsWriting content w start d0 temp v0 copied in
            let valid' = rewritten-CanEncode w w' l temp' valid computed same in
            let path_same : w'.final_path ≡ w.final_path = rw same refl in
            let p =
              finish-Published calls content w' d0 d2 temp' tidy
                (rw (path_same, is_temp) (tidy.beside w.final_path counter)) valid' v' h3 in
            let p' : Published http d0 d3 w.final_path w.metadata w.tags content object =
              rw same at p in
            rw dropped (and_drop-Published content w start d0 d3 temp object tidy beside v0 p')
      ]
