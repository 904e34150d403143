-- ===== src/Fs/AsyncWriter/Steps.antt =====
-- Each step of the async writer does what the same step of the blocking one does.
use tux_io_encoding.Prelude.{
  ℕ, zero, suc, ◌≡◌, refl, inl, inr, true, false, [], arith, ◌==◌, Bool-cases, Option-cases, length,
}
use tux_io_encoding.Error.{ok, err, panicked, map_ok}
use tux_io_encoding.Fs.AsyncWriter.{rename_file}
use tux_io_encoding.Fs.AsyncWriter.{sync_file}
use tux_io_encoding.Fs.AsyncWriter.{metadata_type}
use tux_io_encoding.Io.{Bytes}
use tux_io_encoding.Word.Usize.{add_usize}
use tux_io_encoding.Tags.{tags_type}
use tux_io_encoding.Tags.Keys.Text.{string_key}
use tux_io_encoding.Tags.Keys.MetaKey.{HeaderNames}
use tux_io_encoding.Fs.Error.{FilePath, ObjectFileResult}
use tux_io_encoding.Fs.Layout.{compute}
use tux_io_encoding.Fs.Object.{ContentReader, read_content, is_compressed_type}
use tux_io_encoding.Fs.Prefix.{encode_prefix, metadata_type}
use tux_io_encoding.Fs.Support.{Features, ensure_supported}
use tux_io_encoding.Fs.Disk.{Disk, System, Action, continue_with, write_file}
use tux_io_encoding.Fs.TempFile.{create_temp_file}
use tux_io_encoding.Fs.Writer
use tux_io_encoding.Fs.Writer.{CreateOptions, ObjectWriter, copy_buffer}
use tux_io_encoding.Fs.AsyncWriter
use tux_io_encoding.Fs.Writer.State.{write-ok, create-ok, create-IsWriting, copy_reads-IsWriting}
use tux_io_encoding.Fs.Writer.Published.{or_drop-ok}
use tux_io_encoding.Fs.Disk.Laws.{>>=-ok}
use tux_io_encoding.Fs.Writer.Finish.{source}
use tux_io_encoding.Fs.AsyncWriter.{AsyncObjectWriter}

module _ {HeaderName : Type 0} (http : HeaderNames HeaderName) where
  -- What an async writer keeps of a blocking one: all but the guard of raw writes.
  abbrev pub async : ObjectWriter http → AsyncObjectWriter http
  async w = record {
    file = w.file;
    temp_path = w.temp_path;
    final_path = w.final_path;
    layout = w.layout;
    layout_options = w.layout_options;
    compression = w.compression;
    metadata = w.metadata;
    tags = w.tags;
    content_length = w.content_length;
    sync = w.sync;
  }

  abbrev pub async_result :
      ObjectFileResult (ObjectWriter http) × Disk → ObjectFileResult (AsyncObjectWriter http) × Disk
  async_result (r, d) = (map_ok async r, d)

  -- A step that both writers take, and what each does next.
  pub same_step :
      {A : Type 0} (f : A → Action (ObjectWriter http)) (g : A → Action (AsyncObjectWriter http))
      (x : ObjectFileResult A × Disk)
      → ((a : A) (d1 : Disk) → x ≡ (ok a, d1) → g a d1 ≡ async_result (f a d1))
      → continue_with g x ≡ async_result (continue_with f x)
  same_step f g (ok a, d) h = h a d refl
  same_step f g (err e, d) h = refl
  same_step f g (panicked, d) h = refl

  -- A step of each writer, and what follows.
  pub after_step :
      (f : ObjectWriter http → Action (ObjectWriter http))
      (g : AsyncObjectWriter http → Action (AsyncObjectWriter http))
      (x : ObjectFileResult (ObjectWriter http) × Disk)
      → ((w : ObjectWriter http) (d1 : Disk)
          → x ≡ (ok w, d1)
          → g (async w) d1 ≡ async_result (f w d1))
      → continue_with g (async_result x) ≡ async_result (continue_with f x)
  after_step f g (ok a, d) h = h a d refl
  after_step f g (err e, d) h = refl
  after_step f g (panicked, d) h = refl

  -- The same, where what follows gives an object.
  pub then_object :
      {A : Type 0} (f : ObjectWriter http → Action A) (g : AsyncObjectWriter http → Action A)
      (x : ObjectFileResult (ObjectWriter http) × Disk)
      → ((w : ObjectWriter http) (d1 : Disk) → x ≡ (ok w, d1) → g (async w) d1 ≡ f w d1)
      → continue_with g (async_result x) ≡ continue_with f x
  then_object f g (ok a, d) h = h a d refl
  then_object f g (err e, d) h = refl
  then_object f g (panicked, d) h = refl

  -- A step that both take, where what follows gives an object.
  pub both_take :
      {A B : Type 0} (f g : A → Action B) (x : ObjectFileResult A × Disk)
      → ((a : A) (d1 : Disk) → x ≡ (ok a, d1) → g a d1 ≡ f a d1)
      → continue_with g x ≡ continue_with f x
  both_take f g (ok a, d) h = h a d refl
  both_take f g (err e, d) h = refl
  both_take f g (panicked, d) h = refl

  module _ (os : System) (features : Features) where
    pub create-async :
        (path : FilePath) (options : CreateOptions http) (d : Disk)
        → is_compressed_type options.compression ≡ false
        → AsyncWriter.create http os features path options d
          ≡ async_result (Writer.create http os features path options d)
    unfolding Writer.create AsyncWriter.create
    create-async path options d plain =
        same_step _ _ (ensure_supported features options.compression, d)
          (λ u d1 _. rw plain (
            same_step _ _
              (
                compute options.layout ((metadata_type http).size options.metadata)
                    ((tags_type string_key).size options.tags),
                d1,
              )
              (λ layout d2 _. same_step _ _ (create_temp_file os path d2) (λ file d3 _. refl))))

    pub write-async :
        (bs : Bytes) (w : ObjectWriter http) (d : Disk)
        → w.allow_raw_writes ≡ true
        → AsyncWriter.poll_write http os features bs (async w) d
          ≡ async_result (Writer.write http os features bs w d)
    unfolding Writer.write AsyncWriter.poll_write
    write-async bs w d allowed = rw allowed (
        same_step _ _ (write_file os bs w.file d) (λ file d1 _.
          same_step _ _ (add_usize w.content_length (length bs), d1) (λ n d2 _. refl)))

    pub copy_reads-async :
        (n : ℕ) (source : ContentReader) (w : ObjectWriter http) (d : Disk)
        → w.allow_raw_writes ≡ true
        → AsyncWriter.copy_reads http os features n source (async w) d
          ≡ async_result (Writer.copy_reads http os features n source w d)
    unfolding Writer.copy_reads AsyncWriter.copy_reads
    copy_reads-async zero source w d allowed = refl
    copy_reads-async (suc n) source w d allowed =
        let bs : Bytes = (read_content copy_buffer source).0 in
        let rest : ContentReader = (read_content copy_buffer source).1 in
        elim (Bool-cases (length bs == 0)) [
          | inl done ↦ rw done refl
          | inr more ↦
              rw (more, write-async bs w d allowed)
                (after_step (Writer.copy_reads http os features n rest)
                  (AsyncWriter.copy_reads http os features n rest)
                  (Writer.write http os features bs w d)
                  (λ w1 d1 written.
                    let (_, _, same, _) = write-ok http os features bs w d written in
                    copy_reads-async n rest w1 d1 (rw same allowed)))
        ]

    drop_writer-async :
        (w : ObjectWriter http) (d : Disk)
        → AsyncWriter.drop_writer http os features (async w) d
          ≡ Writer.drop_writer http os features w d
    unfolding Writer.drop_writer AsyncWriter.drop_writer
    drop_writer-async w d = refl

    pub or_drop-async :
        (w : ObjectWriter http) (x : ObjectFileResult (ObjectWriter http) × Disk)
        → AsyncWriter.drop_unless_ok http os features (async w) (async_result x)
          ≡ async_result (Writer.drop_unless_ok http os features w x)
    unfolding Writer.drop_writer AsyncWriter.drop_writer
    or_drop-async w (ok a, d) = refl
    or_drop-async w (err e, d) = refl
    or_drop-async w (panicked, d) = refl

    pub or_drop_same :
        {A : Type 0} (w : ObjectWriter http) (x : ObjectFileResult A × Disk)
        → AsyncWriter.drop_unless_ok http os features (async w) x
          ≡ Writer.drop_unless_ok http os features w x
    unfolding Writer.drop_writer AsyncWriter.drop_writer
    or_drop_same w (ok a, d) = refl
    or_drop_same w (err e, d) = refl
    or_drop_same w (panicked, d) = refl

    pub copy_of-async :
        (w : ObjectWriter http) (d : Disk)
        → is_compressed_type w.compression ≡ false
        → AsyncWriter.copy_of http os features (async w) d
          ≡ async_result (Writer.copy_of http os features w d)
    unfolding Writer.copy_of AsyncWriter.copy_of
    copy_of-async w d plain =
        let options = Writer.rewrite_options http os features w in
        rw (create-async w.final_path options d plain) (
          after_step _ _ (Writer.create http os features w.final_path options d) (λ w1 d1 created.
            let (l, file, temp, computed, c, same) =
              create-ok http os features w.final_path options d created in
            let allowed : w1.allow_raw_writes ≡ true = rw (same, plain) refl in
            let from : ContentReader = source http os features w d1 in
            rw (copy_reads-async w.content_length from w1 d1 allowed)
              (or_drop-async w1 (Writer.copy_reads http os features w.content_length from w1 d1))))

    -- A replacement has the compression of the writer that it replaces.
    pub copy_of-plain :
        (w w' : ObjectWriter http) (d d' : Disk)
        → is_compressed_type w.compression ≡ false
        → Writer.copy_of http os features w d ≡ (ok w', d')
        → is_compressed_type w'.compression ≡ false
    unfolding Writer.copy_of
    copy_of-plain w w' d d' plain h =
        let options = Writer.rewrite_options http os features w in
        let (w1, d1, created, h1) =
          >>=-ok (Writer.create http os features w.final_path options) _ d h in
        let (l, file, temp, counter, is_temp, computed, is_new, v) =
          create-IsWriting http os features w.final_path options d created in
        let (v', is_copy) =
          copy_reads-IsWriting http os features w.content_length (source http os features w d1) []
            w1 d d1 temp (omega arith) v (or_drop-ok http os features w1 _ h1) in
        rw (is_copy, is_new) plain

    pub write_prefix-async :
        (w : ObjectWriter http) (d : Disk)
        → AsyncWriter.write_prefix http os features (async w) d
          ≡ async_result (Writer.write_prefix http os features w d)
    unfolding Writer.write_prefix AsyncWriter.write_prefix
    write_prefix-async w d =
        same_step _ _
          (encode_prefix http (Writer.build_header http w) w.metadata w.tags w.layout, d)
          (λ prefix d1 _.
            same_step _ _ (write_file os prefix (record w.file { position = 0 }) d1)
              (λ file d2 _. same_step _ _ (sync_file os w.sync d2) (λ u d3 _. refl)))

    pub publish-async :
        (w : ObjectWriter http) (d : Disk)
        → AsyncWriter.publish http os features (async w) d
          ≡ async_result (Writer.publish http os features w d)
    unfolding Writer.publish AsyncWriter.publish
    publish-async w d = elim (Option-cases w.temp_path) [
      | inl gone ↦ rw (gone, Writer.publish, AsyncWriter.publish) refl
      | inr (temp, there) ↦
          rw (there, Writer.publish, AsyncWriter.publish)
            (same_step _ _ (rename_file os temp w.final_path d) (λ u d1 _. refl))
    ]
