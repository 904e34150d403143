-- ===== src/Fs/TempFile/Laws.antt =====
-- What `create_temp_file` does to a disk.
use tux_io_encoding.Prelude.{
  ℕ, zero, suc, ◌+◌, ◌%◌, ◌^◌, ◌≡◌, refl, ◌≢◌, true, false, none, some, [], ◌==◌, if◌then◌else◌,
}
use tux_io_encoding.Error.{ok, err, panicked}
use tux_io_encoding.Fs.TempFile.{is_already_exists}
use tux_io_encoding.Fs.Error.{FilePath, ObjectFileError, ObjectFileResult}
use tux_io_encoding.Fs.Disk.{Disk, Handle, System, Action, same_path, create_new}
use tux_io_encoding.Fs.Disk.Laws.{create_new-ok, create_new-err, create_new_total}
use tux_io_encoding.Fs.TempFile.{try_names, or_next_name, temp_name, next_temp_counter}

-- Two disks with the same files.
pub record SameFiles (d d' : Disk) : Type 0 where
  pub same_names : (q : FilePath) → d'.names q ≡ d.names q
  pub same_bytes : (i : ℕ) → d'.bytes_of i ≡ d.bytes_of i
  pub same_next : d'.next ≡ d.next

-- A new, empty file under an unused name of those for the destination `final_path`.
pub record Creates (os : System) (final_path : FilePath) (d d' : Disk) (file : Handle)
    (path : FilePath) : Type 0 where
  pub counter : ℕ
  pub is_temp : path ≡ temp_name os final_path counter
  pub unused : d.names path ≡ none
  pub opened : file ≡ record { id = d.next; position = 0 }
  pub names_after :
      (q : FilePath) → d'.names q ≡ (if same_path path q then some d.next else d.names q)
  pub bytes_after : (i : ℕ) → d'.bytes_of i ≡ (if i == d.next then [] else d.bytes_of i)
  pub next_after : d'.next ≡ d.next + 1

abbrev counting : ℕ → Disk → Disk
counting c d = record d { temp_counter = c }

module _ (os : System) (final_path : FilePath) where
  -- What a run of the loop may come to.
  Outcome : Disk → ObjectFileResult (Handle × FilePath) × Disk → Type 0
  Outcome d (ok (file, path), d') = Creates os final_path d d' file path
  Outcome d (err e, d') = SameFiles d d'
  Outcome d (panicked, d') = ⊥

  recount :
      (c : ℕ) (d : Disk) (x : ObjectFileResult (Handle × FilePath) × Disk)
      → Outcome (counting c d) x
      → Outcome d x
  unfolding Outcome
  recount c d (ok (file, path), d') h = record {
    counter = h.counter;
    is_temp = h.is_temp;
    unused = h.unused;
    opened = h.opened;
    names_after = h.names_after;
    bytes_after = h.bytes_after;
    next_after = h.next_after;
  }
  recount c d (err e, d') h = record {
    same_names = h.same_names;
    same_bytes = h.same_bytes;
    same_next = h.same_next;
  }
  recount c d (panicked, d') h = h

  after_attempt :
      (retry : Action (Handle × FilePath)) (counter : ℕ) (d : Disk)
      → Outcome d (retry d)
      → (x : ObjectFileResult Handle × Disk) → create_new os (temp_name os final_path counter) d ≡ x
      → Outcome d (or_next_name os retry (temp_name os final_path counter) x)
  unfolding Outcome or_next_name
  after_attempt retry counter d again (ok file, d') h =
      let (free, opened, after) = create_new-ok os (temp_name os final_path counter) d h in
      rw after (record {
        counter = counter;
        is_temp = refl;
        unused = free;
        opened = opened;
        names_after = λ q. refl;
        bytes_after = λ i. refl;
        next_after = refl;
      })
  after_attempt retry counter d again (err e, d') h =
      let same = create_new-err os (temp_name os final_path counter) d h in
      elim (is_already_exists os e)
        as (λ b. Outcome d (elim b [ true ↦ retry d' | false ↦ (err e, d') ])) [
          | true ↦ rw same again
          | false ↦
              rw same (record { same_names = λ q. refl; same_bytes = λ i. refl; same_next = refl })
        ]
  after_attempt retry counter d again (panicked, d') h =
      create_new_total os (temp_name os final_path counter) d d' h

  -- The loop creates an empty file under a name that was free, or leaves the files as they were, and it never panics.
  try_names_lem : (attempts : ℕ) (d : Disk) → Outcome d (try_names os attempts final_path d)
  unfolding try_names next_temp_counter Outcome
  try_names_lem zero d = record { same_names = λ q. refl; same_bytes = λ i. refl; same_next = refl }
  try_names_lem (suc n) d =
      let c : ℕ = (d.temp_counter + 1) % 2 ^ 64 in
      recount c d _ (
        after_attempt (try_names os n final_path) d.temp_counter (counting c d)
          (try_names_lem n (counting c d)) _ refl)

  pub try_names-Creates :
      (attempts : ℕ) (temp : FilePath) (file : Handle) (d d' : Disk)
      → try_names os attempts final_path d ≡ (ok (file, temp), d')
      → Creates os final_path d d' file temp
  unfolding Outcome
  try_names-Creates attempts temp file d d' h = rw h at (try_names_lem attempts d)

  pub try_names-SameFiles :
      (attempts : ℕ) (e : ObjectFileError) (d d' : Disk)
      → try_names os attempts final_path d ≡ (err e, d')
      → SameFiles d d'
  unfolding Outcome
  try_names-SameFiles attempts e d d' h = rw h at (try_names_lem attempts d)

  pub try_names_total :
      (attempts : ℕ) (d d' : Disk) → try_names os attempts final_path d ≢ (panicked, d')
  unfolding Outcome
  try_names_total attempts d d' h = rw h at (try_names_lem attempts d)
