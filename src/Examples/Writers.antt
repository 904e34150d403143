-- ===== src/Examples/Writers.antt =====
-- An object is written, finished, opened and updated.
use tux_io_encoding.Fs.Disk.{System}
use tux_io_encoding.Prelude.{
  ◌+◌, ◌≡◌, refl, true, false, Option, none, some, ◌++◌, arith, length, replicate,
}
use tux_io_encoding.Error.{IoErrorKind, other, ok, err}
use tux_io_encoding.Fs.Disk.{clone_file}
use tux_io_encoding.Fs.Writer.Unclonable.{finish_unclonable}
use tux_io_encoding.Examples.Disks.{os_with}
use tux_io_encoding.Word.Usize.{add_usize, mul_usize}
use tux_io_encoding.Tags.Keys.MetaKey.{meta_key_type}
use tux_io_encoding.Value.{value_type}
use tux_io_encoding.Types.Text.{string_type}
use tux_io_encoding.Types.Number.{u32_type, u8_type}
use tux_io_encoding.Types.Scalar.{bool_type}
use tux_io_encoding.Fs.Layout.{align_up}
use tux_io_encoding.Fs.Layout.Align.{rounded}
use tux_io_encoding.Fs.Layout.{div_ceil}
use tux_io_encoding.Fs.Error.{FilePath, io}
use tux_io_encoding.Fs.Layout.Compute.{InRange}
use tux_io_encoding.Fs.Object.{stored_content_reader}
use tux_io_encoding.Fs.Object.Content.{left}
use tux_io_encoding.Fs.Object.RoundTrip.{Holds}
use tux_io_encoding.Fs.Store.{open_object}
use tux_io_encoding.Fs.Store.Open.{open_object-Published}
use tux_io_encoding.Fs.Writer.{rewrite_options}
use tux_io_encoding.Fs.Writer.Failure.{IsFailure, Restored}
use tux_io_encoding.Fs.Writer.Safety.{finish-Restored}
use tux_io_encoding.Fs.Writer.Termination.{finish_terminates}
use tux_io_encoding.Fs.Writer.Total.{Accepts, finish_total, finish_refused}
use tux_io_encoding.Examples.Data.{
  size_key, metadata_bytes, tags_bytes, some_metadata-write, some_tags-write,
}
use tux_io_encoding.Fs.Object.{TuxObject}
use tux_io_encoding.Fs.Layout.{repartition}
use tux_io_encoding.Fs.Prefix.{metadata_type}
use tux_io_encoding.Tags.{tags_type}
use tux_io_encoding.Tags.Keys.Text.{string_key, bytes_eq}
use tux_io_encoding.Fs.TempFile.{temp_name, decimal}
use tux_io_encoding.Fs.Disk.{write_file, sync_file, rename_file}
use tux_io_encoding.Fs.Writer.{publish}
use tux_io_encoding.Examples.Data.{some_layout}
use tux_io_encoding.Fs.Object.RoundTrip.{handle}
use tux_io_encoding.Fs.Disk.{Disk, set_name, set_bytes, write_bytes}
use tux_io_encoding.Fs.Writer.{finish, finish_calls, finish_in_place, write_prefix}
use tux_io_encoding.Fs.Writer.Published.{Published}
use tux_io_encoding.Fs.Writer.Finish.{finish-Published}
use tux_io_encoding.Examples.Data.{
  names, some_metadata, some_tags, some_header, some_prefix, some_prefix-encode,
  some_metadata-IsTags, some_tags-IsTags,
}
use tux_io_encoding.Examples.Disks.{
  os_with-IsTidy, full_os, stubborn_os, some_temp-beside, plain_os, all_features, some_path,
  some_disk, some_temp, some_content, written_one, written_disk, written_one-IsWriting,
  written_one-CanEncode,
}

abbrev finished_object : TuxObject names
finished_object =
    handle names some_header some_metadata some_tags
      (write_bytes 0 some_prefix (replicate 96 0 ++ some_content)) some_path true
      (0 + length some_prefix)

abbrev finished_disk : Disk
finished_disk = set_name some_path (some 1) (
    set_name some_temp none
      (set_bytes 1 (write_bytes 0 some_prefix (replicate 96 0 ++ some_content)) written_disk))

room_found :
    repartition 96
      ((metadata_type names).size some_metadata)
      ((tags_type string_key).size some_tags)
      32
    ≡ ok (some some_layout)
unfolding repartition add_usize tags_type meta_key_type value_type string_type u8_type u32_type
    bool_type align_up mul_usize
room_found = refl

finish_run :
    finish names plain_os all_features written_one written_disk
    ≡ (ok finished_object, finished_disk)
unfolding clone_file finish_calls finish_in_place write_prefix write_file sync_file publish
    rename_file temp_name decimal bytes_eq
finish_run = rw (room_found, some_prefix-encode) refl

finish-Published_example :
    Published names some_disk finished_disk some_path some_metadata some_tags some_content
      finished_object
finish-Published_example =
    finish-Published names plain_os all_features 2 some_content written_one some_disk written_disk
      some_temp (os_with-IsTidy _ _) some_temp-beside written_one-CanEncode written_one-IsWriting
      finish_run

open_object-Published_example :
    (found : TuxObject names) × (open_object names plain_os some_path finished_disk
      ≡ (ok found, finished_disk))
    × (found.header ≡ some_header)
    × (found.metadata ≡ some_metadata)
    × Holds names found.header some_metadata some_tags found.file.bytes size_key some_path false
        found.file.position
    × (left (stored_content_reader names found) ≡ some_content)
open_object-Published_example =
    open_object-Published names plain_os some_disk finished_disk some_path some_metadata some_tags
      some_content finished_object some_metadata-IsTags some_tags-IsTags
      (finish-Published names plain_os all_features 2 some_content written_one some_disk
        written_disk some_temp (os_with-IsTidy _ _) some_temp-beside written_one-CanEncode
        written_one-IsWriting finish_run)
      size_key refl

finish_fails : IsFailure (finish names full_os all_features written_one written_disk).0
unfolding finish_calls finish_in_place write_prefix write_file
finish_fails = rw (room_found, some_prefix-encode) tt

finish-Restored_example :
    Restored some_disk (finish names full_os all_features written_one written_disk).1
finish-Restored_example =
    finish-Restored names full_os all_features (os_with-IsTidy _ _) (λ p. refl) refl 2 some_content
      written_one some_disk written_disk some_temp some_temp-beside written_one-IsWriting
      finish_fails

rewrite_range :
    InRange
      (rewrite_options names plain_os all_features written_one).layout
      ((metadata_type names).size some_metadata)
      ((tags_type string_key).size some_tags)
unfolding tags_type meta_key_type value_type string_type u8_type u32_type bool_type
rewrite_range = record { sums = omega arith; floor_sum = omega arith; floor_fits = omega arith }

finish_terminates_example :
    finish_calls names plain_os all_features 5 written_one written_disk
    ≡ finish names plain_os all_features written_one written_disk
finish_terminates_example =
    finish_terminates names plain_os all_features 3 some_content written_one some_disk written_disk
      some_temp rewrite_range written_one-IsWriting

accepts :
    (refuses_rename : FilePath → Option IoErrorKind)
    → Accepts (os_with (λ offset. none) refuses_rename)
accepts refuses_rename = record { creates = λ p. refl; writes = λ offset. refl; syncs = refl }

finish_total_example :
    (object : TuxObject names) × (d : Disk) × (finish names plain_os all_features written_one
        written_disk
      ≡ (ok object, d))
unfolding rounded div_ceil
finish_total_example =
    finish_total names plain_os all_features (accepts _) metadata_bytes tags_bytes some_content
      written_one some_disk written_disk some_temp refl refl written_one-IsWriting
      written_one-CanEncode some_metadata-write some_tags-write (omega arith) (omega arith)
      (omega arith)

finish_refused_example :
    (d : Disk) × (finish names stubborn_os all_features written_one written_disk
      ≡ (err (io other), d))
    × (d.names some_temp ≡ some 1)
    × (d.names some_path ≡ some 0)
unfolding bytes_eq
finish_refused_example =
    finish_refused names stubborn_os all_features (accepts _) other some_layout some_prefix
      some_content written_one some_disk written_disk some_temp refl written_one-IsWriting
      some_temp-beside room_found some_prefix-encode

-- A system that has no handle left.
abbrev spent_os : System
spent_os = record plain_os { refuses_clone = some other }

finish_unclonable_example :
    (d : Disk) × (finish names spent_os all_features written_one written_disk ≡ (err (io other), d))
    × (d.names some_path ≡ some 1)
    × (d.bytes_of 1 ≡ some_prefix ++ some_content)
    × (d.names some_temp ≡ none)
finish_unclonable_example =
    finish_unclonable names spent_os all_features
      (record { creates = λ p. refl; writes = λ offset. refl; syncs = refl }) other some_layout
      some_prefix some_content written_one some_disk written_disk some_temp refl refl
      written_one-IsWriting written_one-CanEncode some_temp-beside room_found some_prefix-encode
