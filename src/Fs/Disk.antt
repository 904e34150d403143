-- ===== src/Fs/Disk.antt =====
-- The parts of `std::fs` and `std::io` that the writers use: names of files, the bytes behind them, and open handles.
-- An operation returns the disk after an error too. What the operating system refuses is a parameter.
pub mod Laws
use tux_io_encoding.Prelude.{
  ℕ, ◌+◌, ◌-◌, Bool, true, false, Option, none, some, [], ◌++◌, ◌==◌, if◌then◌else◌, length, take,
  drop, replicate,
}
use tux_io_encoding.Error.{IoErrorKind, not_found, already_exists, ok, err, panicked}
use tux_io_encoding.Io.{Bytes}
use tux_io_encoding.Tags.Keys.Text.{text_eq}
use tux_io_encoding.Fs.Error.{FilePath, ObjectFileError, ObjectFileResult, io}

-- A name stands for a file, whose bytes live on as long as a handle or a name refers to them. `temp_counter` is the
-- static counter of fs/writer.rs.
pub record Disk : Type 0 where
  pub names : FilePath → Option ℕ
  pub bytes_of : ℕ → Bytes
  pub next : ℕ
  pub temp_counter : ℕ

-- An open file, and the position of its handle.
pub record Handle : Type 0 where
  pub id : ℕ
  pub position : ℕ

-- What the platform decides: the parts of a path, the process id, and the kind of error with which it refuses an
-- operation. To open a file for writing may be refused where to read it is not. A write is refused by the offset of
-- its end, which stands for the seek in front of it and the flush behind it too, and is otherwise complete.
pub record System : Type 0 where
  pub parent : FilePath → Option FilePath
  pub file_name : FilePath → Option Bytes
  pub join : FilePath → Bytes → FilePath
  pub process_id : ℕ
  pub refuses_open : Bool → FilePath → Option IoErrorKind
  pub refuses_create : FilePath → Option IoErrorKind
  pub refuses_rename : FilePath → Option IoErrorKind
  pub refuses_remove : FilePath → Option IoErrorKind
  pub refuses_write : ℕ → Option IoErrorKind
  pub refuses_sync : Option IoErrorKind
  pub refuses_clone : Option IoErrorKind

abbrev pub Action : Type 0 → Type 0
Action A = Disk → ObjectFileResult A × Disk

abbrev pub lift : {A : Type 0} → ObjectFileResult A → Action A
lift r d = (r, d)

abbrev pub pure : {A : Type 0} → A → Action A
pure a d = (ok a, d)

abbrev pub raise : {A : Type 0} → ObjectFileError → Action A
raise e d = (err e, d)

abbrev pub continue_with :
    {A B : Type 0} → (A → Action B) → ObjectFileResult A × Disk → ObjectFileResult B × Disk
continue_with f (ok a, d) = f a d
continue_with f (err e, d) = (err e, d)
continue_with f (panicked, d) = (panicked, d)

infixl 5 ◌>>=◌ ◌>>◌
abbrev pub ◌>>=◌ : {A B : Type 0} → Action A → (A → Action B) → Action B
◌>>=◌ m f d = continue_with f (m d)

abbrev pub ◌>>◌ : {A B : Type 0} → Action A → Action B → Action B
m >> k = m >>= λ _. k

abbrev pub same_path : FilePath → FilePath → Bool
same_path = text_eq.same

abbrev pub set_name : FilePath → Option ℕ → Disk → Disk
set_name path file d = record d { names = λ q. if same_path path q then file else d.names q }

abbrev pub set_bytes : ℕ → Bytes → Disk → Disk
set_bytes id bytes d = record d { bytes_of = λ i. if i == id then bytes else d.bytes_of i }

-- `write` at an offset: a gap behind the end is filled with zeros, and an empty write does nothing.
unfoldable pub write_bytes : ℕ → Bytes → Bytes → Bytes
write_bytes p bs old =
    if length bs == 0
    then old
    else take p old ++ (replicate (p - length old) 0 ++ (bs ++ drop (p + length bs) old))

module _ (os : System) where
  -- `OpenOptions::new().read(true).write(true).create_new(true).open(path)`.
  unfoldable pub create_new : FilePath → Action Handle
  create_new path d = elim (d.names path) [
    | some id ↦ (err (io already_exists), d)
    | none ↦ elim (os.refuses_create path) [
      | some kind ↦ (err (io kind), d)
      | none ↦ (
        ok (record { id = d.next; position = 0 }),
        record (set_name path (some d.next) (set_bytes d.next [] d)) { next = d.next + 1 },
      )
    ]
  ]

  unfoldable pub open_file : Bool → FilePath → Action Handle
  open_file writable path d = elim (d.names path) [
    | none ↦ (err (io not_found), d)
    | some id ↦ elim (os.refuses_open writable path) [
      | some kind ↦ (err (io kind), d)
      | none ↦ (ok (record { id = id; position = 0 }), d)
    ]
  ]

  -- `write` and `write_all` on a file.
  unfoldable pub write_file : Bytes → Handle → Action Handle
  write_file bs h d = elim (os.refuses_write (h.position + length bs)) [
    | some kind ↦ (err (io kind), d)
    | none ↦ (
      ok (record h { position = h.position + length bs }),
      set_bytes h.id (write_bytes h.position bs (d.bytes_of h.id)) d,
    )
  ]

  -- `sync_all` changes no byte.
  unfoldable pub sync_file : Bool → Action (Unit {0})
  sync_file false d = (ok tt, d)
  sync_file true d = elim os.refuses_sync [ some kind ↦ (err (io kind), d) | none ↦ (ok tt, d) ]

  -- `try_clone`: a second handle, which shares the position of the first.
  unfoldable pub clone_file : Handle → Action Handle
  clone_file h d = elim os.refuses_clone [ some kind ↦ (err (io kind), d) | none ↦ (ok h, d) ]

  -- Renaming a file to its own name leaves it there.
  unfoldable pub rename_file : FilePath → FilePath → Action (Unit {0})
  rename_file from to d = elim (d.names from) [
    | none ↦ (err (io not_found), d)
    | some id ↦ elim (os.refuses_rename to) [
      | some kind ↦ (err (io kind), d)
      | none ↦ (ok tt, set_name to (some id) (set_name from none d))
    ]
  ]

  unfoldable pub remove_file : FilePath → Action (Unit {0})
  remove_file path d = elim (d.names path) [
    | none ↦ (err (io not_found), d)
    | some id ↦ elim (os.refuses_remove path) [
      | some kind ↦ (err (io kind), d)
      | none ↦ (ok tt, set_name path none d)
    ]
  ]
