-- ===== src/Examples/Disks.antt =====
-- A system that refuses nothing, and a disk with one file, on which an object is written.
use tux_io_encoding.Prelude.{sizes}
use tux_io_encoding.Prelude.{
  ℕ, ◌<◌, ◌≡◌, refl, ap, inl, inr, Bool, true, false, Option, none, some, [], ◌∷◌, ◌++◌, arith,
  ◌==◌, if◌then◌else◌, Bool-cases, length, replicate,
}
use tux_io_encoding.Error.{IoErrorKind, other}
use tux_io_encoding.Compression.{CompressionTypes}
use tux_io_encoding.Tags.Keys.Text.{bytes_eq}
use tux_io_encoding.Io.{Bytes}
use tux_io_encoding.Tags.Keys.Text.{text_eq}
use tux_io_encoding.Compression.{no_compression}
use tux_io_encoding.Fs.Error.{FilePath}
use tux_io_encoding.Fs.Layout.{LayoutOptions}
use tux_io_encoding.Fs.Support.{Features}
use tux_io_encoding.Fs.Disk.{Disk, System, same_path, set_name, set_bytes}
use tux_io_encoding.Fs.TempFile.{temp_name, decimal}
use tux_io_encoding.Fs.Writer.Options.{
  with_metadata, with_tags, with_layout, with_compression, with_sync,
}
use tux_io_encoding.Fs.Writer.{default_options}
use tux_io_encoding.Fs.Writer.{ObjectWriter, CreateOptions, new_writer}
use tux_io_encoding.Fs.Writer.State.{IsWriting}
use tux_io_encoding.Fs.Writer.Finish.{IsTidy}
use tux_io_encoding.Fs.Writer.Published.{CanEncode}
use tux_io_encoding.Examples.Data.{
  names, some_metadata, some_tags, some_metadata-IsTags, some_tags-IsTags,
}

-- Every path is a name in the root directory. What is refused are writes and renames.
abbrev pub os_with : (ℕ → Option IoErrorKind) → (FilePath → Option IoErrorKind) → System
os_with refuses_write refuses_rename = record {
  parent = λ path. some [];
  file_name = λ path. some path;
  join = λ parent name. parent ++ (47 ∷ name);
  process_id = 7;
  refuses_open = λ writable path. none;
  refuses_create = λ path. none;
  refuses_rename = refuses_rename;
  refuses_remove = λ path. none;
  refuses_write = refuses_write;
  refuses_sync = none;
  refuses_clone = none;
}

abbrev pub plain_os : System
plain_os = os_with (λ offset. none) (λ path. none)

-- A disk that is full.
abbrev pub full_os : System
full_os = os_with (λ offset. some other) (λ path. none)

-- A directory that lets no file be replaced.
abbrev pub stubborn_os : System
stubborn_os = os_with (λ offset. none) (λ path. some other)

longer : (p q : FilePath) → length p < length q → same_path q p ≡ false
longer p q h = elim (Bool-cases (same_path q p)) [
  | inl same ↦
      let equal : length q ≡ length p = ap length ((text_eq.same_iff q p).0 same) in
      absurd (omega (arith, equal))
  | inr apart ↦ apart
]

pub os_with-IsTidy :
    (refuses_write : ℕ → Option IoErrorKind) (refuses_rename : FilePath → Option IoErrorKind)
    → IsTidy (os_with refuses_write refuses_rename)
unfolding temp_name
os_with-IsTidy refuses_write refuses_rename = record {
  beside = λ p counter.
      longer p (temp_name (os_with refuses_write refuses_rename) p counter) (grind sizes);
  removes = λ p. refl;
}

abbrev pub all_features : Features
all_features = record { has_zstd = true; has_gzip = true }

abbrev pub some_path : FilePath
some_path = 111 ∷ []

-- One file, under the path that the object will have.
abbrev pub some_disk : Disk
some_disk = record {
  names = λ q. if same_path some_path q then some 0 else none;
  bytes_of = λ i. 9 ∷ [];
  next = 1;
  temp_counter = 0;
}

abbrev pub tight : LayoutOptions
tight = record { metadata_reserve = 0; tag_reserve = 0; alignment = 32; min_content_start = 0 }

abbrev pub some_options : CreateOptions names
some_options = with_sync names true (
    with_compression names no_compression (
      with_layout names tight
        (with_tags names some_tags (with_metadata names some_metadata (default_options names)))))

abbrev pub some_temp : FilePath
some_temp = temp_name plain_os some_path 0

-- The writer and the disk after `create`.
abbrev pub new_one : ObjectWriter names
new_one =
    new_writer names some_path some_options (record { tags_start = 64; content_start = 96 })
      (record { id = 1; position = 0 }) some_temp

abbrev pub new_disk : Disk
new_disk = record (set_name some_temp (some 1) (set_bytes 1 [] some_disk)) {
  next = 2;
  temp_counter = 1;
}

abbrev pub some_content : Bytes
some_content = 1 ∷ 2 ∷ 3 ∷ []

-- The writer and the disk after a write of three bytes.
abbrev pub written_one : ObjectWriter names
written_one = record new_one { file = record { id = 1; position = 99 }; content_length = 3 }

abbrev pub written_disk : Disk
written_disk = set_bytes 1 (replicate 96 0 ++ some_content) new_disk

pub some_temp-beside : same_path some_temp some_path ≡ false
unfolding temp_name decimal bytes_eq
some_temp-beside = refl

new_id : (i : ℕ) → i < 1 → (i == 1) ≡ false
new_id i h = ground arith

pub written_one-IsWriting :
    IsWriting names some_disk written_disk some_temp written_one some_content
unfolding temp_name decimal bytes_eq
written_one-IsWriting = record {
  has_temp = refl;
  unused = refl;
  named = refl;
  is_new = omega arith;
  is_known = omega arith;
  names_kept = λ q apart. rw apart refl;
  bytes_kept = λ i old. rw (new_id i old) refl;
  counted = refl;
  small = omega arith;
  at_end = refl;
  stored = refl;
}

pub new_one-IsWriting :
    (chosen : CompressionTypes) (raw : Bool)
    → IsWriting names some_disk new_disk some_temp
        (record new_one { compression = chosen; allow_raw_writes = raw })
        []
unfolding temp_name decimal bytes_eq
new_one-IsWriting chosen raw = record {
  has_temp = refl;
  unused = refl;
  named = refl;
  is_new = omega arith;
  is_known = omega arith;
  names_kept = λ q apart. rw apart refl;
  bytes_kept = λ i old. rw (new_id i old) refl;
  counted = refl;
  small = omega arith;
  at_end = refl;
  stored = refl;
}

pub written_one-CanEncode : CanEncode names written_one
written_one-CanEncode = record {
  metadata_valid = some_metadata-IsTags;
  tags_valid = some_tags-IsTags;
  compression_valid = tt;
  content_start_fits = omega arith;
  floor_fits = omega arith;
}
