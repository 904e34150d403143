-- ===== src/Fs/Store/Compressed.antt =====
-- What the atomic updates do to an object whose content is compressed.
use tux_io_encoding.Prelude.{
  ℕ, zero, suc, ◌≤◌, ◌≡◌, refl, ◌≢◌, inl, inr, true, false, [], arith, ◌==◌, ==_iff, length,
}
use tux_io_encoding.Error.{ok}
use tux_io_encoding.Io.{Bytes}
use tux_io_encoding.Tags.{Tags}
use tux_io_encoding.Tags.Keys.MetaKey.{HeaderNames}
use tux_io_encoding.Fs.Object.{
  TuxObject, ContentReader, read_content, stored_content_reader, is_compressed,
}
use tux_io_encoding.Fs.Object.Content.{left, read_content_end}
use tux_io_encoding.Fs.Support.{Features}
use tux_io_encoding.Fs.Disk.{Disk, System}
use tux_io_encoding.Fs.Disk.Laws.{>>=-ok, lift-ok, branch}
use tux_io_encoding.Fs.Writer.{ObjectWriter, copy_buffer, create, write, copy, copy_reads, or_drop}
use tux_io_encoding.Fs.Writer.State.{create-IsWriting, write-ok}
use tux_io_encoding.Fs.Writer.Published.{or_drop-ok}
use tux_io_encoding.Fs.Writer.Failure.{IsFailure, IsFailure-unless}
use tux_io_encoding.Fs.Store.{rewrite, options_for, ensure_writable}

module _ {HeaderName : Type 0} (http : HeaderNames HeaderName) (os : System)
    (features : Features) where
  -- A writer that refuses raw writes can be copied to only where there is nothing to copy.
  pub copy_reads_refused :
      (n : ℕ) (source : ContentReader) (w : ObjectWriter http) (d : Disk) {w' : ObjectWriter http}
      {d' : Disk}
      → source.remaining ≤ n
      → w.allow_raw_writes ≡ false
      → copy_reads http os features n source w d ≡ (ok w', d')
      → left source ≡ []
  unfolding copy_reads
  copy_reads_refused zero source w d enough closed h =
      let done : source.remaining ≡ 0 = omega arith in rw done refl
  copy_reads_refused (suc n) source w d enough closed h =
      let bs : Bytes = (read_content copy_buffer source).0 in
      elim (branch (length bs == 0) _ _ d h) [
        | inl (done, _) ↦ read_content_end copy_buffer source (omega arith) ((==_iff _ _).0 done)
        | inr (more, h1) ↦
            let (w1, d1, written, _) = >>=-ok (write http os features bs w) _ d h1 in
            let (open_, _, _, _) = write-ok http os features bs w d written in cc
      ]

  -- For an object whose header says that its content is compressed, with content that is not empty: `rewrite`
  -- fails, with any metadata and tags, on any system and disk.
  pub rewrite_compressed :
      (metadata : Tags HeaderName) (tags : Tags Bytes) (self : TuxObject http) (d : Disk)
      → is_compressed http self ≡ true
      → left (stored_content_reader http self) ≢ []
      → IsFailure (rewrite http os features metadata tags self d).0
  unfolding rewrite
  rewrite_compressed metadata tags self d compressed content =
      IsFailure-unless (rewrite http os features metadata tags self d) (λ object done.
        let options = options_for http os metadata tags self in
        let reader = stored_content_reader http self in
        let (u, _, h1) = lift-ok (ensure_writable http os self) _ d done in
        let (w, d1, created, h2) = >>=-ok (create http os features self.path options) _ d h1 in
        let (l, file, temp, counter, is_temp, computed, same, v) =
          create-IsWriting http os features self.path options d created in
        let (w', d2, copied, h3) =
          >>=-ok (or_drop http os features w (copy http os features reader w)) _ d1 h2 in
        let closed : w.allow_raw_writes ≡ false = rw (same, compressed) refl in
        content (
          copy_reads_refused reader.remaining reader w d1 (omega arith) closed
            (or_drop-ok http os features w _ copied)))
