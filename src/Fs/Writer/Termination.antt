-- ===== src/Fs/Writer/Termination.antt =====
-- `finish` calls itself at most once: a replacement has room for its sections.
use tux_io_encoding.Prelude.{ℕ, suc, ◌≡◌, refl, ap, Option, none, some}
use tux_io_encoding.Error.{ok, err, panicked}
use tux_io_encoding.Io.{Bytes}
use tux_io_encoding.Tags.{tags_type}
use tux_io_encoding.Tags.Keys.Text.{string_key}
use tux_io_encoding.Tags.Keys.MetaKey.{HeaderNames}
use tux_io_encoding.Fs.Error.{FilePath, ObjectFileResult}
use tux_io_encoding.Fs.Layout.{SectionLayout, repartition, compute}
use tux_io_encoding.Fs.Layout.Compute.{InRange, compute-repartition}
use tux_io_encoding.Fs.Prefix.{metadata_type}
use tux_io_encoding.Fs.Object.{TuxObject}
use tux_io_encoding.Fs.Support.{Features}
use tux_io_encoding.Fs.Disk.{Disk, System, Action, continue_with, lift, ◌>>=◌}
use tux_io_encoding.Fs.Disk.Laws.{lift-same}
use tux_io_encoding.Fs.Writer.{
  ObjectWriter, copy_of, rewrite_options, finish_in_place, finish_calls, or_drop, and_drop,
  drop_writer, finish,
}
use tux_io_encoding.Fs.Writer.State.{IsWriting}
use tux_io_encoding.Fs.Writer.Published.{or_drop-ok}
use tux_io_encoding.Fs.Writer.Finish.{copy_of-IsWriting, replaced}

continue_with-Agree :
    {A B : Type 0} (f g : A → Action B) (x : ObjectFileResult A × Disk)
    → ((a : A) (d1 : Disk) → x ≡ (ok a, d1) → f a d1 ≡ g a d1)
    → continue_with f x ≡ continue_with g x
continue_with-Agree f g (ok a, d1) h = h a d1 refl
continue_with-Agree f g (err e, d1) h = refl
continue_with-Agree f g (panicked, d1) h = refl

module _ {HeaderName : Type 0} (http : HeaderNames HeaderName) (os : System)
    (features : Features) where
  -- The replacement finishes in place.
  replacement_fits :
      (n : ℕ) (w w' : ObjectWriter http) (l : SectionLayout) (temp' : FilePath) (d : Disk)
      → InRange
          (rewrite_options http os features w).layout
          ((metadata_type http).size w.metadata)
          ((tags_type string_key).size w.tags)
      → compute
          (rewrite_options http os features w).layout
          ((metadata_type http).size w.metadata)
          ((tags_type string_key).size w.tags)
        ≡ ok l
      → w' ≡ replaced http os features w w' l temp'
      → finish_calls http os features (suc n) w' d ≡ finish_calls http os features 1 w' d
  unfolding finish_calls
  replacement_fits n w w' l temp' d range computed same =
      let (l', found, _) =
        compute-repartition (rewrite_options http os features w).layout _ _ range l computed in
      let fits : repartition w'.layout.content_start ((metadata_type http).size w'.metadata)
            ((tags_type string_key).size w'.tags) w'.layout_options.alignment
          ≡ ok (some l') =
        rw same found in
      rw fits refl

  -- Where the sums of the layout stay in the range of `usize` and the floor is a `u32`: `finish` on an open writer
  -- comes to the same result and the same disk whether one nested call is allowed or more, so it never rewrites twice.
  pub finish_terminates :
      (n : ℕ) (content : Bytes) (w : ObjectWriter http) (start d : Disk) (temp : FilePath)
      → InRange
          (rewrite_options http os features w).layout
          ((metadata_type http).size w.metadata)
          ((tags_type string_key).size w.tags)
      → IsWriting http start d temp w content
      → finish_calls http os features (suc (suc n)) w d ≡ finish http os features w d
  unfolding finish_calls
  finish_terminates n content w start d temp range v =
      let m = (metadata_type http).size w.metadata in
      let t = (tags_type string_key).size w.tags in
      let room = lift (repartition w.layout.content_start m t w.layout_options.alignment) in
      continue_with-Agree _ _ (or_drop http os features w room d) (λ found d1 step.
        let (_, same_disk) = lift-same _ d (or_drop-ok http os features w (room d) step) in
        after_room found d1 (rw same_disk v))
    where
      rewritings :
          (d1 : Disk)
          → IsWriting http start d1 temp w content
          → (copy_of http os features w >>= finish_calls http os features (suc n)) d1
            ≡ (copy_of http os features w >>= finish_calls http os features 1) d1
      rewritings d1 v1 = continue_with-Agree _ _ (copy_of http os features w d1) (λ w' d2 copied.
          let (temp', counter, is_temp, v', l, computed, same) =
            copy_of-IsWriting http os features content w start d1 temp v1 copied in
          replacement_fits n w w' l temp' d2 range computed same)

      after_room :
          (found : Option SectionLayout) (d1 : Disk)
          → IsWriting http start d1 temp w content
          → (elim found as (λ x. Action (TuxObject http)) [
            | some l ↦ finish_in_place http os features l w
            | none ↦
                and_drop http os features w
                  (copy_of http os features w >>= finish_calls http os features (suc n))
          ])
              d1
            ≡ (elim found as (λ x. Action (TuxObject http)) [
              | some l ↦ finish_in_place http os features l w
              | none ↦
                  and_drop http os features w
                    (copy_of http os features w >>= finish_calls http os features 1)
            ])
                d1
      after_room (some l) d1 v1 = refl
      after_room none d1 v1 = ap (λ x. (x.0, drop_writer http os features w x.1)) (rewritings d1 v1)
