-- ===== src/Fs/AsyncStore/Equivalence.antt =====
-- The async updates do what the blocking ones do, except for compressed objects.
use tux_io_encoding.Prelude.{◌≡◌, refl, true, false, [], arith, if◌then◌else◌}
use tux_io_encoding.Error.{err}
use tux_io_encoding.Io.{Bytes}
use tux_io_encoding.Tags.{Tags}
use tux_io_encoding.Tags.Keys.MetaKey.{HeaderNames}
use tux_io_encoding.Fs.Error.{read_only, unsupported_compression}
use tux_io_encoding.Fs.Support.{Features, ensure_supported}
use tux_io_encoding.Fs.Object
use tux_io_encoding.Fs.Object.{TuxObject, is_compressed, is_compressed_type, ContentReader}
use tux_io_encoding.Fs.AsyncObject
use tux_io_encoding.Fs.Disk.{Disk, System}
use tux_io_encoding.Fs.Writer
use tux_io_encoding.Fs.Writer.State.{create-IsWriting, copy_reads-IsWriting}
use tux_io_encoding.Fs.Writer.Published.{or_drop-ok}
use tux_io_encoding.Fs.AsyncWriter
use tux_io_encoding.Fs.AsyncWriter.Steps.{
  then_object, both_take, or_drop-async, create-async, copy_reads-async,
}
use tux_io_encoding.Fs.AsyncWriter.Refinement.{finish-async}
use tux_io_encoding.Fs.Store
use tux_io_encoding.Fs.AsyncStore

module _ {HeaderName : Type 0} (http : HeaderNames HeaderName) (os : System)
    (features : Features) where
  -- For an object that is not compressed: the async update comes to the same result and leaves the same disk as the
  -- blocking one, errors included.
  pub rewrite-async :
      (metadata : Tags HeaderName) (tags : Tags Bytes) (self : TuxObject http) (d : Disk)
      → is_compressed http self ≡ false
      → AsyncStore.rewrite http os features metadata tags self d
        ≡ Store.rewrite http os features metadata tags self d
  unfolding Store.rewrite AsyncStore.rewrite AsyncObject.ensure_writable Store.ensure_writable
      AsyncObject.stored_content_reader Object.stored_content_reader
      AsyncObject.seek_to_content_start
  rewrite-async metadata tags self d plain =
      let options = Store.options_for http os metadata tags self in
      let reader : ContentReader = Object.stored_content_reader http self in
      both_take http _ _ (Store.ensure_writable http os self, d)
        (λ u d0 _. rw (create-async http os features self.path options d0 plain) (
          then_object http _ _ (Writer.create http os features self.path options d0)
            (λ w d1 created.
              let (l, file, temp, counter, is_temp, computed, is_new, v) =
                create-IsWriting http os features self.path options d0 created in
              let allowed : w.allow_raw_writes ≡ true = rw (is_new, plain) refl in
              rw
                (
                  copy_reads-async http os features reader.remaining reader w d1 allowed,
                  or_drop-async http os features w
                      (Writer.copy_reads http os features reader.remaining reader w d1),
                )
                (then_object http _ _
                  (Writer.or_drop http os features w (Writer.copy http os features reader w) d1)
                  (λ w' d2 copied.
                    let (v', is_copy) =
                      copy_reads-IsWriting http os features reader.remaining reader [] w d0 d1 temp
                        (omega arith) v (or_drop-ok http os features w _ copied) in
                    finish-async http os features 2 w' d2 (rw (is_copy, is_new) plain))))))

  -- For an object whose header says that its content is compressed: the async `rewrite` fails and leaves the disk
  -- as it is, with the error for an unsupported compression where the object is open for writing, and with the
  -- error for a read-only object where it is not.
  pub rewrite_compressed-async :
      (metadata : Tags HeaderName) (tags : Tags Bytes) (self : TuxObject http) (d : Disk)
      → is_compressed http self ≡ true
      → AsyncStore.rewrite http os features metadata tags self d ≡ (
        err (
            if self.writable
            then unsupported_compression self.header.compression
            else read_only self.path),
        d,
      )
  unfolding AsyncStore.rewrite AsyncObject.ensure_writable AsyncWriter.create ensure_supported
  rewrite_compressed-async metadata tags self d compressed = ground arith
