-- ===== src/Fs/TempFile.antt =====
-- `create_temp_file` of fs/writer.rs: a file under an unused name beside the destination.
pub mod Laws
use tux_io_encoding.Prelude.{
  ℕ, zero, suc, ◌+◌, ◌/◌, ◌%◌, ◌^◌, Bool, true, false, none, some, [], ◌∷◌, ◌++◌, ltb,
  if◌then◌else◌,
}
use tux_io_encoding.Error.{already_exists, ok, err, panicked}
use tux_io_encoding.Io.{Bytes}
use tux_io_encoding.Word.Usize.{add_usize, sub_usize}
use tux_io_encoding.Compression.{CompressionTypes, no_compression}
use tux_io_encoding.Header.{ObjectHeader}
use tux_io_encoding.Tags.{Tags, tags_type}
use tux_io_encoding.Tags.Keys.Text.{string_key}
use tux_io_encoding.Tags.Keys.MetaKey.{HeaderNames}
use tux_io_encoding.Fs.Error.{FilePath, ObjectFileError, ObjectFileResult, io}
use tux_io_encoding.Fs.Layout.{
  SectionLayout, LayoutOptions, compute, repartition, prefix_size, header_size, default_layout,
}
use tux_io_encoding.Fs.Prefix.{metadata_type, encode_prefix}
use tux_io_encoding.Fs.Object.{ContentReader, read_content, TuxObject}
use tux_io_encoding.Fs.Support.{Features, ensure_supported}
use tux_io_encoding.Fs.Disk.{
  Disk, Handle, System, Action, lift, pure, raise, ◌>>=◌, ◌>>◌, create_new, write_file, sync_file,
  rename_file, remove_file,
}

-- A number in decimal, as `format!` prints it. There is at most one digit for each step of `n`.
decimal_digits : ℕ → ℕ → Bytes
decimal_digits zero n = []
decimal_digits (suc fuel) n =
    let rest = decimal_digits fuel (n / 10) in
    if ltb n 10 then (48 + n) ∷ [] else rest ++ ((48 + n % 10) ∷ [])

-- Twenty digits hold every `u64`.
unfoldable pub decimal : ℕ → Bytes
unfolding decimal_digits
decimal n = decimal_digits 20 n

-- `TEMP_COUNTER.fetch_add(1)`.
unfoldable pub next_temp_counter : Action ℕ
next_temp_counter d = (ok d.temp_counter, record d { temp_counter = (d.temp_counter + 1) % 2 ^ 64 })

module _ (os : System) where
  -- `.{stem}.{pid}.{counter}.tuxtmp` beside the destination.
  unfoldable pub temp_name : FilePath → ℕ → FilePath
  temp_name final_path counter =
      let parent : FilePath = elim (os.parent final_path) [ some p ↦ p | none ↦ 46 ∷ [] ] in
      let stem : Bytes = elim (os.file_name final_path) [
        | some name ↦ name
        | none ↦ 111 ∷ 98 ∷ 106 ∷ 101 ∷ 99 ∷ 116 ∷ []
      ] in
      os.join parent (
        (46 ∷ stem)
        ++ ((46 ∷ decimal os.process_id)
            ++ ((46 ∷ decimal counter) ++ (46 ∷ 116 ∷ 117 ∷ 120 ∷ 116 ∷ 109 ∷ 112 ∷ []))))

  pub is_already_exists : ObjectFileError → Bool
  is_already_exists (io already_exists) = true
  is_already_exists _ = false

  -- What one attempt at a name does with the result of `create_new`.
  unfoldable pub or_next_name :
      Action (Handle × FilePath)
      → FilePath
      → ObjectFileResult Handle × Disk
      → ObjectFileResult (Handle × FilePath) × Disk
  unfolding is_already_exists
  or_next_name retry candidate (ok file, d) = (ok (file, candidate), d)
  or_next_name retry candidate (err e, d) = elim (is_already_exists e) [
    | true ↦ retry d
    | false ↦ (err e, d)
  ]
  or_next_name retry candidate (panicked, d) = (panicked, d)

  -- The loop over the attempts that are left.
  unfoldable pub try_names : ℕ → FilePath → Action (Handle × FilePath)
  unfolding or_next_name next_temp_counter
  try_names zero final_path = raise (io already_exists)
  try_names (suc attempts) final_path = do
    counter ← next_temp_counter
    let candidate = temp_name final_path counter
    λ d. or_next_name (try_names attempts final_path) candidate (create_new os candidate d)

  abbrev pub create_temp_file : FilePath → Action (Handle × FilePath)
  create_temp_file = try_names 32
