-- ===== src/Fs/AsyncWriter/Refinement.antt =====
-- The async writer does what the blocking one does.
use tux_io_encoding.Prelude.{
  ℕ, zero, suc, ◌≡◌, refl, inl, inr, false, Option, none, some, Option-cases,
}
use tux_io_encoding.Error.{ok, err, panicked}
use tux_io_encoding.Fs.AsyncWriter.{rename_file}
use tux_io_encoding.Fs.AsyncWriter.{sync_file}
use tux_io_encoding.Fs.AsyncWriter.{metadata_type}
use tux_io_encoding.Tags.{tags_type}
use tux_io_encoding.Tags.Keys.Text.{string_key}
use tux_io_encoding.Tags.Keys.MetaKey.{HeaderNames}
use tux_io_encoding.Fs.Error.{ObjectFileResult}
use tux_io_encoding.Fs.Layout.{SectionLayout, repartition}
use tux_io_encoding.Fs.Object.{TuxObject, is_compressed_type}
use tux_io_encoding.Fs.Prefix.{metadata_type}
use tux_io_encoding.Fs.Support.{Features}
use tux_io_encoding.Fs.Disk.{Disk, System, Action, lift, ◌>>=◌}
use tux_io_encoding.Fs.Writer
use tux_io_encoding.Fs.Writer.{CreateOptions, ObjectWriter, copy_buffer}
use tux_io_encoding.Fs.AsyncWriter
use tux_io_encoding.Fs.AsyncWriter.{AsyncObjectWriter}
use tux_io_encoding.Fs.AsyncWriter.Steps.{
  async, then_object, both_take, or_drop-async, or_drop_same, copy_of-async, copy_of-plain,
  write_prefix-async, publish-async,
}

module _ {HeaderName : Type 0} (http : HeaderNames HeaderName) (os : System)
    (features : Features) where
  finish_in_place-async :
      (l : SectionLayout) (w : ObjectWriter http) (d : Disk)
      → AsyncWriter.finish_in_place http os features l (async http w) d
        ≡ Writer.finish_in_place http os features l w d
  unfolding Writer.finish_in_place AsyncWriter.finish_in_place
  finish_in_place-async l w d =
      let wl : ObjectWriter http = record w { layout = l } in
      rw
        (
          write_prefix-async http os features wl d,
          or_drop-async http os features wl (Writer.write_prefix http os features wl d),
        )
        (then_object http _ _
          (Writer.or_drop http os features wl (Writer.write_prefix http os features wl) d)
          (λ w1 d1 _.
            rw (publish-async http os features w1 d1)
              (then_object http _ _ (Writer.publish http os features w1 d1) (λ w2 d2 _. refl))))

  and_abort-async :
      {A : Type 0} (w : ObjectWriter http) (x : ObjectFileResult A × Disk)
      → AsyncWriter.and_abort http os features (async http w) x
        ≡ (x.0, Writer.drop_writer http os features w x.1)
  unfolding Writer.drop_writer AsyncWriter.drop_writer AsyncWriter.abort
  and_abort-async w (ok a, d) = elim (Option-cases w.temp_path) [
    | inl gone ↦ rw (gone, Writer.drop_writer, AsyncWriter.abort) refl
    | inr (temp, there) ↦ rw (there, Writer.drop_writer, AsyncWriter.abort) refl
  ]
  and_abort-async w (err e, d) = refl
  and_abort-async w (panicked, d) = refl

  -- The replacement, and its `finish`.
  rewriting-async :
      (calls : ℕ) (w : ObjectWriter http) (d : Disk)
      → is_compressed_type w.compression ≡ false
      → ((w : ObjectWriter http) (d : Disk)
          → is_compressed_type w.compression ≡ false
          → AsyncWriter.finish_calls http os features calls (async http w) d
            ≡ Writer.finish_calls http os features calls w d)
      → (AsyncWriter.copy_of http os features (async http w)
            >>= AsyncWriter.finish_calls http os features calls)
          d
        ≡ (Writer.copy_of http os features w >>= Writer.finish_calls http os features calls) d
  rewriting-async calls w d plain again = rw (copy_of-async http os features w d plain) (
      then_object http _ _ (Writer.copy_of http os features w d)
        (λ w1 d1 copied. again w1 d1 (copy_of-plain http os features w w1 d d1 plain copied)))

  after_room :
      (calls : ℕ) (w : ObjectWriter http)
      → is_compressed_type w.compression ≡ false
      → ((w : ObjectWriter http) (d : Disk)
          → is_compressed_type w.compression ≡ false
          → AsyncWriter.finish_calls http os features calls (async http w) d
            ≡ Writer.finish_calls http os features calls w d)
      → (found : Option SectionLayout) (d : Disk)
      → (elim found as (λ x. Action (TuxObject http)) [
        | some l ↦ AsyncWriter.finish_in_place http os features l (async http w)
        | none ↦ (λ d. AsyncWriter.and_abort http os features (async http w) (
            (AsyncWriter.copy_of http os features (async http w)
                >>= AsyncWriter.finish_calls http os features calls)
              d))
      ])
          d
        ≡ (elim found as (λ x. Action (TuxObject http)) [
          | some l ↦ Writer.finish_in_place http os features l w
          | none ↦
              Writer.and_drop http os features w
                (Writer.copy_of http os features w >>= Writer.finish_calls http os features calls)
        ])
            d
  after_room calls w plain again (some l) d = finish_in_place-async l w d
  after_room calls w plain again none d = rw (rewriting-async calls w d plain again) (
      and_abort-async w
        ((Writer.copy_of http os features w >>= Writer.finish_calls http os features calls) d))

  -- For an object that is not compressed, where the blocking writer accepts raw writes: `finish` of the async writer
  -- comes to the same result and leaves the same disk as that of the blocking writer with the same fields, whether it
  -- succeeds in place, rewrites the object or fails, for any number of nested calls.
  pub finish-async :
      (calls : ℕ) (w : ObjectWriter http) (d : Disk)
      → is_compressed_type w.compression ≡ false
      → AsyncWriter.finish_calls http os features calls (async http w) d
        ≡ Writer.finish_calls http os features calls w d
  unfolding Writer.finish_calls AsyncWriter.finish_calls
  finish-async zero w d plain = or_drop_same http os features w (panicked, d)
  finish-async (suc calls) w d plain =
      let m = (metadata_type http).size w.metadata in
      let t = (tags_type string_key).size w.tags in
      let room : ObjectFileResult (Option SectionLayout) =
        repartition w.layout.content_start m t w.layout_options.alignment in
      rw (or_drop_same http os features w (room, d)) (
        both_take http _ _ (Writer.or_drop http os features w (lift room) d)
          (λ found d1 _. after_room calls w plain (finish-async calls) found d1))
