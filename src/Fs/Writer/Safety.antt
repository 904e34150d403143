-- ===== src/Fs/Writer/Safety.antt =====
-- A `finish` that does not succeed leaves the destination as it was.
use tux_io_encoding.Fs.Disk.{clone_file}
use tux_io_encoding.Prelude.{
  ℕ, zero, suc, ◌≡◌, refl, ◌∙◌, inl, inr, false, Option, none, some, [], arith,
}
use tux_io_encoding.Fs.Writer.Finish.{source}
use tux_io_encoding.Fs.Disk.Laws.{lift-same}
use tux_io_encoding.Io.{Bytes}
use tux_io_encoding.Tags.{tags_type}
use tux_io_encoding.Tags.Keys.Text.{string_key}
use tux_io_encoding.Tags.Keys.MetaKey.{HeaderNames}
use tux_io_encoding.Fs.Error.{FilePath}
use tux_io_encoding.Fs.Layout.{SectionLayout, repartition}
use tux_io_encoding.Fs.Prefix.{metadata_type}
use tux_io_encoding.Fs.Object.{TuxObject}
use tux_io_encoding.Fs.Support.{Features}
use tux_io_encoding.Fs.Disk.{Disk, System, Action, lift, ◌>>=◌, same_path, rename_file}
use tux_io_encoding.Fs.Writer.{
  ObjectWriter, create, write_prefix, publish, or_drop, and_drop, drop_writer, copy, copy_of,
  rewrite_options, finish_in_place, finish_calls,
}
use tux_io_encoding.Fs.Writer.State.{IsWriting, create-IsWriting}
use tux_io_encoding.Fs.Writer.Finish.{IsTidy}
use tux_io_encoding.Fs.Writer.Failure.{
  IsFailure, Restored, Restored-via, >>=-failed, or_drop-failed, write_prefix-OnlyFile,
  copy_reads-OnlyFile, drop_writer-Restored, drop_again-Restored, create_failed, OnlyFile-refl,
}
use tux_io_encoding.Fs.Writer.Finish.{copy_of-IsWriting}
use tux_io_encoding.Fs.Writer.Published.{or_drop-ok, write_prefix-ok}

module _ {HeaderName : Type 0} (http : HeaderNames HeaderName) (os : System) (features : Features)
    (tidy : IsTidy os) (renames : (p : FilePath) → os.refuses_rename p ≡ none)
    (clones : os.refuses_clone ≡ none) where
  -- A rename that is not refused publishes.
  publish-total :
      (w : ObjectWriter http) (temp : FilePath) (id : ℕ) (d : Disk)
      → w.temp_path ≡ some temp
      → d.names temp ≡ some id
      → IsFailure (publish http os features w d).0
      → ⊥
  unfolding publish rename_file
  publish-total w temp id d has named h = ground (arith, renames w.final_path)

  finish_in_place-failed :
      (l : SectionLayout) (content : Bytes) (w : ObjectWriter http) (start d : Disk)
      (temp : FilePath)
      → IsWriting http start d temp w content
      → IsFailure (finish_in_place http os features l w d).0
      → Restored start (finish_in_place http os features l w d).1
  unfolding finish_in_place drop_writer clone_file
  finish_in_place-failed l content w start d temp v h =
      let wl : ObjectWriter http = record w { layout = l } in
      elim (>>=-failed (or_drop http os features wl (write_prefix http os features wl)) _ d h) [
        | inl (failed, same) ↦
            Restored-via _ _ _
              (same
                ∙ or_drop-failed http os features wl (write_prefix http os features wl d) failed)
              (drop_writer-Restored http os features content w start d _ temp tidy v
                (write_prefix-OnlyFile http os features wl d))
        | inr (w1, d1, step, h1, same) ↦
            let (prefix, encoded, same_writer, after) =
              write_prefix-ok http os features wl d (or_drop-ok http os features wl _ step) in
            elim (>>=-failed (publish http os features w1) _ d1 h1) [
              | inl (failed, _) ↦ absurd (
                  publish-total w1 temp w.file.id d1 (rw same_writer v.has_temp) (rw after v.named)
                    failed)
              | inr (w2, d2, published, h2, _) ↦ absurd (rw (clone_file, clones) at h2)
            ]
      ]

  -- A replacement that cannot be made is dropped, and leaves the disk to the first writer.
  copy_of-failed :
      (w : ObjectWriter http) (d : Disk)
      → IsFailure (copy_of http os features w d).0
      → Restored d (copy_of http os features w d).1
  unfolding copy_of
  copy_of-failed w d h =
      let options = rewrite_options http os features w in
      elim (>>=-failed (create http os features w.final_path options) _ d h) [
        | inl (failed, same) ↦
            Restored-via d _ _ same (create_failed http os features w.final_path options d failed)
        | inr (w1, d1, created, h1, same) ↦
            let (l, file, temp1, counter, is_temp, computed, _, v1) =
              create-IsWriting http os features w.final_path options d created in
            Restored-via d _ _
              (same
                ∙ or_drop-failed http os features w1
                    (copy http os features (source http os features w d1) w1 d1) h1)
              (drop_writer-Restored http os features [] w1 d d1 _ temp1 tidy v1
                (copy_reads-OnlyFile http os features _ _ w1 d1))
      ]

  -- What `finish` leaves where it fails, for a number of nested calls.
  abbrev Recovers : ℕ → Type 0
  Recovers calls =
      (content : Bytes) (w : ObjectWriter http) (start d : Disk) (temp : FilePath)
      → same_path temp w.final_path ≡ false
      → IsWriting http start d temp w content
      → IsFailure (finish_calls http os features calls w d).0
      → Restored start (finish_calls http os features calls w d).1

  -- The replacement of a writer whose sections have outgrown its prefix.
  rewriting-failed :
      (calls : ℕ) (content : Bytes) (w : ObjectWriter http) (start d : Disk) (temp : FilePath)
      → Recovers calls
      → IsWriting http start d temp w content
      → let step = copy_of http os features w >>= finish_calls http os features calls in
        IsFailure (step d).0 → Restored d (step d).1
  rewriting-failed calls content w start d temp recovers v h =
      elim (>>=-failed (copy_of http os features w) (finish_calls http os features calls) d h) [
        | inl (failed, same) ↦ Restored-via d _ _ same (copy_of-failed w d failed)
        | inr (w', d2, copied, h2, same) ↦
            let (temp', counter, is_temp, v', l, computed, replaces) =
              copy_of-IsWriting http os features content w start d temp v copied in
            let path_same : w'.final_path ≡ w.final_path = rw replaces refl in
            Restored-via d _ _ same (
              recovers content w' d d2 temp'
                (rw (path_same, is_temp) (tidy.beside w.final_path counter)) v' h2)
      ]

  -- The step of `finish` that follows the decision of `repartition`.
  after_room :
      (calls : ℕ) (content : Bytes) (w : ObjectWriter http) (start d : Disk) (temp : FilePath)
      (room : Option SectionLayout)
      → Recovers calls
      → IsWriting http start d temp w content
      → let step : Action (TuxObject http) = elim room [
        | some layout ↦ finish_in_place http os features layout w
        | none ↦
            and_drop http os features w
              (copy_of http os features w >>= finish_calls http os features calls)
      ] in
        IsFailure (step d).0 → Restored start (step d).1
  after_room calls content w start d temp (some l) recovers v h =
      finish_in_place-failed l content w start d temp v h
  after_room calls content w start d temp none recovers v h =
      drop_again-Restored http os features content w start d _ temp tidy v
        (rewriting-failed calls content w start d temp recovers v h)

  -- On a system that refuses no removal, no rename and no clone of a handle, and whose temporary names differ from
  -- the destination: a `finish` of an open writer that fails, by its layout, its encoding, or a refused creation,
  -- write or sync, also in the replacement that it writes, leaves every name of the disk as it was before the
  -- writer was created, the destination and the temporary file included, and the bytes of every file that there
  -- was.
  pub finish-Restored :
      (calls : ℕ) (content : Bytes) (w : ObjectWriter http) (start d : Disk) (temp : FilePath)
      → same_path temp w.final_path ≡ false
      → IsWriting http start d temp w content
      → IsFailure (finish_calls http os features calls w d).0
      → Restored start (finish_calls http os features calls w d).1
  unfolding finish_calls
  finish-Restored zero content w start d temp beside v h =
      drop_writer-Restored http os features content w start d d temp tidy v
        (OnlyFile-refl w.file.id d)
  finish-Restored (suc calls) content w start d temp beside v h =
      let m = (metadata_type http).size w.metadata in
      let t = (tags_type string_key).size w.tags in
      let room = lift (repartition w.layout.content_start m t w.layout_options.alignment) in
      elim (>>=-failed (or_drop http os features w room) _ d h) [
        | inl (failed, same) ↦
            Restored-via start _ _ (same ∙ or_drop-failed http os features w (room d) failed) (
              drop_writer-Restored http os features content w start d d temp tidy v
                (OnlyFile-refl w.file.id d))
        | inr (found, d1, step, h1, same) ↦
            let (_, same_disk) = lift-same _ d (or_drop-ok http os features w (room d) step) in
            Restored-via start _ _ same (
              after_room calls content w start d1 temp found (finish-Restored calls)
                (rw same_disk v) h1)
      ]
