-- ===== src/Fs/Writer/Failure.antt =====
-- What an `ObjectWriter` leaves on the disk where `finish` does not succeed.
use tux_io_encoding.Prelude.{
  ℕ, zero, suc, ◌<◌, ◌≡◌, refl, sym, ap, ◌∙◌, ◌≢◌, ◌⊎◌, inl, inr, false, arith, ◌==◌, Bool-cases,
  length,
}
use tux_io_encoding.Error.{ok, err, panicked, Result-cases}
use tux_io_encoding.Fs.Disk.Laws.{lift-same}
use tux_io_encoding.Fs.TempFile.Laws.{try_names_total}
use tux_io_encoding.Fs.Writer.State.{write-ok}
use tux_io_encoding.Fs.Writer.{copy_buffer}
use tux_io_encoding.Io.{Bytes}
use tux_io_encoding.Tags.{tags_type}
use tux_io_encoding.Tags.Keys.Text.{string_key, text_eq}
use tux_io_encoding.Tags.Keys.MetaKey.{HeaderNames}
use tux_io_encoding.Fs.Error.{FilePath, ObjectFileResult}
use tux_io_encoding.Fs.Layout.{compute}
use tux_io_encoding.Fs.Prefix.{metadata_type}
use tux_io_encoding.Fs.Object.{ContentReader, read_content}
use tux_io_encoding.Fs.Support.{Features, ensure_supported}
use tux_io_encoding.Fs.TempFile.{create_temp_file}
use tux_io_encoding.Fs.TempFile.Laws.{SameFiles, try_names-SameFiles}
use tux_io_encoding.Fs.Disk.{
  Disk, System, Action, lift, ◌>>=◌, continue_with, same_path, write_file, sync_file,
}
use tux_io_encoding.Fs.Writer.{
  ObjectWriter, CreateOptions, create, write, write_prefix, drop_unless_ok, drop_writer, copy_reads,
}
use tux_io_encoding.Fs.Writer.State.{IsWriting}
use tux_io_encoding.Fs.Writer.Finish.{IsTidy, drop_writer-removes}

-- An outcome other than success.
abbrev pub IsFailure : {A : Type 0} → ObjectFileResult A → Type 0
IsFailure (ok a) = ⊥
IsFailure (err e) = Unit {0}
IsFailure panicked = Unit {0}

-- What cannot succeed fails.
pub IsFailure-unless :
    {A : Type 0} (x : ObjectFileResult A × Disk) → ((a : A) → x ≢ (ok a, x.1)) → IsFailure x.0
IsFailure-unless (ok a, d) h = h a refl
IsFailure-unless (err e, d) h = tt
IsFailure-unless (panicked, d) h = tt

-- The names are those of `start`, and so are the files that it had.
pub record Restored (start d : Disk) : Type 0 where
  pub names_same : (q : FilePath) → d.names q ≡ start.names q
  pub bytes_kept : (i : ℕ) → i < start.next → d.bytes_of i ≡ start.bytes_of i

pub Restored-eq : (start d : Disk) → d ≡ start → Restored start d
Restored-eq start d h = rw h (record { names_same = λ q. refl; bytes_kept = λ i old. refl })

pub Restored-via : (start d d' : Disk) → d' ≡ d → Restored start d → Restored start d'
Restored-via start d d' e h = rw e h

pub Restored-start : (start' start d : Disk) → start' ≡ start → Restored start' d → Restored start d
Restored-start start' start d e h = rw e at h

pub Restored-same : (start d d' : Disk) → SameFiles start d → d' ≡ d → Restored start d'
Restored-same start d d' s h =
    rw h (record { names_same = s.same_names; bytes_kept = λ i old. s.same_bytes i })

-- Nothing but the bytes of one file has changed.
pub record OnlyFile (id : ℕ) (d d' : Disk) : Type 0 where
  pub names_same : (q : FilePath) → d'.names q ≡ d.names q
  pub bytes_same : (i : ℕ) → (i == id) ≡ false → d'.bytes_of i ≡ d.bytes_of i

pub OnlyFile-refl : (id : ℕ) (d : Disk) → OnlyFile id d d
OnlyFile-refl id d = record { names_same = λ q. refl; bytes_same = λ i h. refl }

OnlyFile-id : (i j : ℕ) (d d' : Disk) → i ≡ j → OnlyFile i d d' → OnlyFile j d d'
OnlyFile-id i j d d' e h = rw e at h

pub OnlyFile-trans :
    (id : ℕ) (d d1 d2 : Disk) → OnlyFile id d d1 → OnlyFile id d1 d2 → OnlyFile id d d2
OnlyFile-trans id d d1 d2 a b = record {
  names_same = λ q. b.names_same q ∙ a.names_same q;
  bytes_same = λ i h. b.bytes_same i h ∙ a.bytes_same i h;
}

continue_with-OnlyFile :
    {A B : Type 0} (id : ℕ) (f : A → Action B) (d : Disk) (x : ObjectFileResult A × Disk)
    → OnlyFile id d x.1
    → ((a : A) (d1 : Disk) → x ≡ (ok a, d1) → OnlyFile id d1 (f a d1).1)
    → OnlyFile id d (continue_with f x).1
continue_with-OnlyFile id f d (ok a, d1) h k = OnlyFile-trans id d d1 _ h (k a d1 refl)
continue_with-OnlyFile id f d (err e, d1) h k = h
continue_with-OnlyFile id f d (panicked, d1) h k = h

pub bind-OnlyFile :
    {A B : Type 0} (id : ℕ) (m : Action A) (f : A → Action B) (d : Disk)
    → OnlyFile id d (m d).1
    → ((a : A) (d1 : Disk) → m d ≡ (ok a, d1) → OnlyFile id d1 (f a d1).1)
    → OnlyFile id d ((m >>= f) d).1
bind-OnlyFile id m f d h k = continue_with-OnlyFile id f d (m d) h k

continue_with-failed :
    {A B : Type 0} (f : A → Action B) (x : ObjectFileResult A × Disk)
    → IsFailure (continue_with f x).0
    → (IsFailure x.0 × ((continue_with f x).1 ≡ x.1))
      ⊎ ((a : A) × (d1 : Disk) × (x ≡ (ok a, d1))
          × IsFailure (f a d1).0
          × ((continue_with f x).1 ≡ (f a d1).1))
continue_with-failed f (ok a, d1) h = inr (a, d1, refl, h, refl)
continue_with-failed f (err e, d1) h = inl (tt, refl)
continue_with-failed f (panicked, d1) h = inl (tt, refl)

-- Where a chain fails, its first step does, or the rest of it.
pub >>=-failed :
    {A B : Type 0} (m : Action A) (f : A → Action B) (d : Disk)
    → IsFailure ((m >>= f) d).0
    → (IsFailure (m d).0 × (((m >>= f) d).1 ≡ (m d).1))
      ⊎ ((a : A) × (d1 : Disk) × (m d ≡ (ok a, d1))
          × IsFailure (f a d1).0
          × (((m >>= f) d).1 ≡ (f a d1).1))
>>=-failed m f d h = continue_with-failed f (m d) h

module _ {HeaderName : Type 0} (http : HeaderNames HeaderName) (os : System)
    (features : Features) where
  pub or_drop-failed :
      {A : Type 0} (w : ObjectWriter http) (x : ObjectFileResult A × Disk)
      → IsFailure (drop_unless_ok http os features w x).0
      → (drop_unless_ok http os features w x).1 ≡ drop_writer http os features w x.1
  or_drop-failed w (ok a, d) h = absurd h
  or_drop-failed w (err e, d) h = refl
  or_drop-failed w (panicked, d) h = refl

  pub write-OnlyFile :
      (bs : Bytes) (w : ObjectWriter http) (d : Disk)
      → OnlyFile w.file.id d (write http os features bs w d).1
  unfolding write write_file
  write-OnlyFile bs w d = record {
    names_same = λ q. ground arith;
    bytes_same = λ i h. ground arith;
  }

  pub write_prefix-OnlyFile :
      (w : ObjectWriter http) (d : Disk)
      → OnlyFile w.file.id d (write_prefix http os features w d).1
  unfolding write_prefix write_file sync_file
  write_prefix-OnlyFile w d = record {
    names_same = λ q. ground arith;
    bytes_same = λ i h. ground arith;
  }

  -- A write keeps the writer's file, whatever it comes to.
  pub copy_reads-OnlyFile :
      (n : ℕ) (source : ContentReader) (w : ObjectWriter http) (d : Disk)
      → OnlyFile w.file.id d (copy_reads http os features n source w d).1
  unfolding copy_reads
  copy_reads-OnlyFile zero source w d = OnlyFile-refl w.file.id d
  copy_reads-OnlyFile (suc n) source w d =
      let bs : Bytes = (read_content copy_buffer source).0 in
      elim (Bool-cases (length bs == 0)) [
        | inl done ↦ rw done (OnlyFile-refl w.file.id d)
        | inr more ↦ rw more (
            bind-OnlyFile w.file.id (write http os features bs w) _ d (write-OnlyFile bs w d)
              (λ w1 d1 written.
                let (_, _, same, _) = write-ok http os features bs w d written in
                let same_id : w1.file.id ≡ w.file.id = rw same refl in
                OnlyFile-id w1.file.id w.file.id d1 _ same_id
                  (copy_reads-OnlyFile n (read_content copy_buffer source).1 w1 d1)))
      ]

  drop_writer_lem :
      (content : Bytes) (w : ObjectWriter http) (start d d1 : Disk) (temp : FilePath)
      → IsTidy os
      → IsWriting http start d temp w content
      → ((q : FilePath) → d1.names q ≡ d.names q)
      → ((i : ℕ) → i < start.next → d1.bytes_of i ≡ d.bytes_of i)
      → Restored start (drop_writer http os features w d1)
  drop_writer_lem content w start d d1 temp tidy v names bytes =
      rw
        (drop_writer-removes http os features temp w.file.id w d1 v.has_temp (names temp ∙ v.named)
          (tidy.removes temp))
        (record {
          names_same = λ q. elim (Bool-cases (same_path temp q)) [
            | inl own ↦ rw own (sym v.unused ∙ ap start.names ((text_eq.same_iff temp q).0 own))
            | inr not_own ↦ rw not_own (names q ∙ v.names_kept q not_own)
          ];
          bytes_kept = λ i old. bytes i old ∙ v.bytes_kept i old;
        })

  -- Dropping a writer whose file alone has changed since removes all that it had created.
  pub drop_writer-Restored :
      (content : Bytes) (w : ObjectWriter http) (start d d1 : Disk) (temp : FilePath)
      → IsTidy os
      → IsWriting http start d temp w content
      → OnlyFile w.file.id d d1
      → Restored start (drop_writer http os features w d1)
  drop_writer-Restored content w start d d1 temp tidy v only =
      drop_writer_lem content w start d d1 temp tidy v only.names_same (λ i old.
        let newer : (i == w.file.id) ≡ false = ground (arith, v.is_new) in only.bytes_same i newer)

  -- The same where the disk is as the writer had left it.
  pub drop_again-Restored :
      (content : Bytes) (w : ObjectWriter http) (start d d1 : Disk) (temp : FilePath)
      → IsTidy os
      → IsWriting http start d temp w content
      → Restored d d1
      → Restored start (drop_writer http os features w d1)
  drop_again-Restored content w start d d1 temp tidy v r =
      drop_writer_lem content w start d d1 temp tidy v r.names_same
        (λ i old. r.bytes_kept i (omega (arith, v.is_new, v.is_known)))

  temp_failed :
      (path : FilePath) (d : Disk)
      → IsFailure (create_temp_file os path d).0
      → SameFiles d (create_temp_file os path d).1
  temp_failed path d h = elim (Result-cases (create_temp_file os path d).0) [
    | inl (a, e) ↦ absurd (rw e at h)
    | inr (inl (e, is_err)) ↦
        try_names-SameFiles os path 32 e d _ (ap (λ r. (r, (create_temp_file os path d).1)) is_err)
    | inr (inr panics) ↦
        absurd
          (try_names_total os path 32 d _ (ap (λ r. (r, (create_temp_file os path d).1)) panics))
  ]

  -- A writer that is not created leaves nothing behind.
  pub create_failed :
      (path : FilePath) (options : CreateOptions http) (d : Disk)
      → IsFailure (create http os features path options d).0
      → Restored d (create http os features path options d).1
  unfolding create
  create_failed path options d h =
      elim (>>=-failed (lift (ensure_supported features options.compression)) _ d h) [
        | inl (_, same) ↦ Restored-eq d _ same
        | inr (u, d1, supported, h1, after1) ↦
            let (_, same1) =
              lift-same (ensure_supported features options.compression) d supported in
            elim (>>=-failed
              (lift (
                compute options.layout ((metadata_type http).size options.metadata)
                  ((tags_type string_key).size options.tags)))
              _ d1 h1) [
                | inl (_, same) ↦ Restored-eq d _ (after1 ∙ same ∙ same1)
                | inr (layout, d2, computed, h2, after2) ↦
                    let (_, same2) = lift-same (compute options.layout _ _) d1 computed in
                    elim (>>=-failed (create_temp_file os path) _ d2 h2) [
                      | inl (failed, same) ↦ Restored-start d2 d _ (same2 ∙ same1) (
                          Restored-same d2 _ _ (temp_failed path d2 failed)
                            (after1 ∙ after2 ∙ same))
                      | inr (file, d3, reserved, h3, after3) ↦ absurd h3
                    ]
              ]
      ]
