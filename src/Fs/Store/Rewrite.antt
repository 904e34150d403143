-- ===== src/Fs/Store/Rewrite.antt =====
-- The atomic updates of an object: what they publish, and what a failed one leaves.
use tux_io_encoding.Prelude.{
  ℕ, ◌^◌, ◌<◌, ◌≡◌, refl, sym, ap, ◌∙◌, inl, inr, true, false, none, [], arith,
}
use tux_io_encoding.Error.{ok, ok-injective}
use tux_io_encoding.Io.{Bytes}
use tux_io_encoding.Tags.{Tags}
use tux_io_encoding.Tags.Codec.{IsTags}
use tux_io_encoding.Tags.Keys.Text.{string_key}
use tux_io_encoding.Tags.Keys.MetaKey.{HeaderNames, meta_key, meta_key_type-Agrees, IsMetaKey}
use tux_io_encoding.Types.Text.{IsString, string_type-Agrees}
use tux_io_encoding.Compression.{IsCompression}
use tux_io_encoding.Fs.Error.{FilePath}
use tux_io_encoding.Header.{ObjectHeader}
use tux_io_encoding.Header.Codec.{IsHeader}
use tux_io_encoding.Fs.Object.RoundTrip.{handle, Holds}
use tux_io_encoding.Io.{seek_start}
use tux_io_encoding.Fs.Object.{TuxObject, read_tags, stored_content_reader}
use tux_io_encoding.Fs.Object.Content.{left}
use tux_io_encoding.Fs.Support.{Features}
use tux_io_encoding.Fs.Disk.{Disk, System, lift, ◌>>=◌, same_path}
use tux_io_encoding.Fs.Disk.Laws.{>>=-ok, lift-ok, lift-same}
use tux_io_encoding.Fs.Writer.{new_writer, create, copy, or_drop, finish}
use tux_io_encoding.Fs.Writer.State.{create-IsWriting, copy_reads-IsWriting}
use tux_io_encoding.Fs.Writer.Published.{Published, CanEncode, or_drop-ok}
use tux_io_encoding.Fs.Writer.Finish.{IsTidy, finish-Published, compute_start_fits}
use tux_io_encoding.Fs.Writer.Failure.{
  IsFailure, Restored, >>=-failed, Restored-via, Restored-eq, Restored-start, or_drop-failed,
  drop_writer-Restored, copy_reads-OnlyFile, create_failed,
}
use tux_io_encoding.Fs.Writer.Safety.{finish-Restored}
use tux_io_encoding.Fs.Store.{rewrite, set_metadata, options_for, ensure_writable}

module _ {HeaderName : Type 0} (http : HeaderNames HeaderName) (os : System) (features : Features)
    (tidy : IsTidy os) (metadata : Tags HeaderName) (tags : Tags Bytes) (self : TuxObject http)
    (d : Disk) where
  -- On a system that refuses no removal and whose temporary names differ from the destination, for valid maps and an
  -- object whose header has a valid compression and an offset that fits a `u32`: an update that succeeds has put the
  -- new sections under the object's path in front of the stored content, byte for byte, and has changed no other name
  -- and no other file.
  pub rewrite-Published :
      {object : TuxObject http} {d' : Disk}
      → IsTags (meta_key http) (IsMetaKey http) (meta_key_type-Agrees http) metadata
      → IsTags string_key IsString string_type-Agrees tags
      → IsCompression self.header.compression
      → self.header.content_start < 2 ^ 32
      → rewrite http os features metadata tags self d ≡ (ok object, d')
      → Published http d d' self.path metadata tags (left (stored_content_reader http self)) object
  unfolding rewrite
  rewrite-Published metadata_valid tags_valid compression_valid start_fits h =
      let options = options_for http os metadata tags self in
      let reader = stored_content_reader http self in
      let (u, _, h1) = lift-ok (ensure_writable http os self) _ d h in
      let (w, d1, created, h2) = >>=-ok (create http os features self.path options) _ d h1 in
      let (l, file, temp, counter, is_temp, computed, same, v) =
        create-IsWriting http os features self.path options d created in
      let (w', d2, copied, h3) =
        >>=-ok (or_drop http os features w (copy http os features reader w)) _ d1 h2 in
      let (v', same') =
        copy_reads-IsWriting http os features reader.remaining reader [] w d d1 temp (omega arith) v
          (or_drop-ok http os features w _ copied) in
      let is_copy : w' ≡ record (new_writer http self.path options l file temp) {
        file = w'.file;
        content_length = w'.content_length;
      } =
        same' ∙ rw same refl in
      let valid : CanEncode http w' = rw is_copy (record {
        metadata_valid = metadata_valid;
        tags_valid = tags_valid;
        compression_valid = compression_valid;
        content_start_fits = compute_start_fits options.layout _ _ l start_fits computed;
        floor_fits = start_fits;
      }) in
      let path_same : w'.final_path ≡ self.path = rw is_copy refl in
      let beside : same_path temp w'.final_path ≡ false =
        rw (path_same, is_temp) (tidy.beside self.path counter) in
      rw is_copy at
        (finish-Published http os features 2 (left reader) w' d d2 temp tidy beside valid v' h3)

  -- The steps behind the check that the object is writable.
  after_ensuring :
      ((p : FilePath) → os.refuses_rename p ≡ none)
      → os.refuses_clone ≡ none
      → (d0 : Disk)
      → let step =
          create http os features self.path (options_for http os metadata tags self) >>= λ w.
          or_drop http os features w (copy http os features (stored_content_reader http self) w)
          >>= finish http os features in
        IsFailure (step d0).0 → Restored d0 (step d0).1
  after_ensuring renames clones d0 h =
      let options = options_for http os metadata tags self in
      let reader = stored_content_reader http self in
      elim (>>=-failed (create http os features self.path options) _ d0 h) [
        | inl (failed, same) ↦
            Restored-via d0 _ _ same (create_failed http os features self.path options d0 failed)
        | inr (w, d1, created, h1, same) ↦
            let (l, file, temp, counter, is_temp, computed, is_new, v) =
              create-IsWriting http os features self.path options d0 created in
            let path_same : w.final_path ≡ self.path = rw is_new refl in
            elim (>>=-failed (or_drop http os features w (copy http os features reader w)) _ d1
              h1) [
                | inl (failed, same') ↦
                    Restored-via d0 _ _
                      (same
                        ∙ same'
                        ∙ or_drop-failed http os features w (copy http os features reader w d1)
                            failed)
                      (drop_writer-Restored http os features [] w d0 d1 _ temp tidy v
                        (copy_reads-OnlyFile http os features _ reader w d1))
                | inr (w', d2, copied, h2, same') ↦
                    let (v', is_copy) =
                      copy_reads-IsWriting http os features reader.remaining reader [] w d0 d1 temp
                        (omega arith) v (or_drop-ok http os features w _ copied) in
                    let path_same' : w'.final_path ≡ self.path = rw is_copy path_same in
                    Restored-via d0 _ _ (same ∙ same') (
                      finish-Restored http os features tidy renames clones 2 (left reader) w' d0 d2
                        temp (rw (path_same', is_temp) (tidy.beside self.path counter)) v' h2)
              ]
      ]

  -- On a system that refuses no removal, no rename and no clone of a handle, and whose temporary names differ from
  -- the destination: an update that fails, because the object is not writable, its compression is not supported or
  -- refuses the copy, by its layout, its encoding, or a refused creation, write or sync, leaves every name of the
  -- disk and the bytes of every file as they were.
  pub rewrite-Restored :
      ((p : FilePath) → os.refuses_rename p ≡ none)
      → os.refuses_clone ≡ none
      → IsFailure (rewrite http os features metadata tags self d).0
      → Restored d (rewrite http os features metadata tags self d).1
  unfolding rewrite
  rewrite-Restored renames clones h =
      let options = options_for http os metadata tags self in
      let reader = stored_content_reader http self in
      elim (>>=-failed (lift (ensure_writable http os self)) _ d h) [
        | inl (_, same) ↦ Restored-eq d _ same
        | inr (u, d0, may, h1, same) ↦
            let (_, same0) = lift-same (ensure_writable http os self) d may in
            Restored-start d0 d _ same0
              (Restored-via d0 _ _ same (after_ensuring renames clones d0 h1))
      ]

module _ {HeaderName : Type 0} (http : HeaderNames HeaderName) (os : System) (features : Features)
    (tidy : IsTidy os) (header : ObjectHeader) (old metadata : Tags HeaderName) (tags : Tags Bytes)
    (bytes key : Bytes) (path : FilePath) (position : ℕ) where
  -- For an object that is open for writing and holds a header, metadata and tags, with valid maps and a valid header, on
  -- a system that refuses no removal and whose temporary names differ from the destination: a `set_metadata` that
  -- succeeds has put the new metadata under the object's path, with the tags and the stored content that there were.
  pub set_metadata-Published :
      (d : Disk) {object : TuxObject http} {d' : Disk}
      → Holds http header old tags bytes key path true position
      → IsTags (meta_key http) (IsMetaKey http) (meta_key_type-Agrees http) metadata
      → IsTags string_key IsString string_type-Agrees tags
      → IsHeader header
      → set_metadata http os features metadata
          (handle http header old tags bytes path true position)
          d
        ≡ (ok object, d')
      → Published http d d' path metadata tags
          (left (stored_content_reader http (handle http header old tags bytes path true position)))
          object
  unfolding set_metadata stored_content_reader seek_start
  set_metadata-Published d {object} {d'} holds metadata_valid tags_valid header_valid h =
      let (p, read) = holds.reads_tags in
      let ((found, self), is_read, h1) =
        lift-ok (read_tags http (handle http header old tags bytes path true position)) _ d h in
      let same : (found, self) ≡ (tags, handle http header old tags bytes path true p) =
        ok-injective (sym is_read ∙ read) in
      let now : TuxObject http = handle http header old tags bytes path true p in
      let h2 : rewrite http os features metadata tags now d ≡ (ok object, d') =
        rw (ap (λ x. x.0) same, ap (λ x. x.1) same) at h1 in
      rewrite-Published http os features tidy metadata tags now d metadata_valid tags_valid
        header_valid.compression_valid header_valid.content_start_fits h2
