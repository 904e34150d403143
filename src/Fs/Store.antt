-- ===== src/Fs/Store.antt =====
-- The operations of `TuxObject` in fs/object.rs that find an object by its path, and those that replace its file.
pub mod Rewrite
pub mod Open
pub mod Compressed
use tux_io_encoding.Prelude.{Bool, true, false, Option, none, some, if◌then◌else◌}
use tux_io_encoding.Error.{ok, err, panicked}
use tux_io_encoding.Io.{Bytes}
use tux_io_encoding.Tags.{Tags}
use tux_io_encoding.Tags.Keys.MetaKey.{HeaderNames}
use tux_io_encoding.Fs.Error.{FilePath, ObjectFileError, ObjectFileResult, read_only, is_not_found}
use tux_io_encoding.Fs.Layout.{default_layout}
use tux_io_encoding.Fs.Object.{TuxObject, from_file, read_tags, stored_content_reader}
use tux_io_encoding.Fs.Support.{Features}
use tux_io_encoding.Fs.Disk.{Disk, System, Action, lift, pure, raise, ◌>>=◌, ◌>>◌, open_file}
use tux_io_encoding.Fs.Writer.{CreateOptions, ObjectWriter, create, copy, or_drop, finish}

module _ {HeaderName : Type 0} (http : HeaderNames HeaderName) (os : System) where
  -- `from_file` on what the file holds.
  open_as : Bool → FilePath → Action (TuxObject http)
  open_as writable path = do
    file ← open_file os writable path
    λ d. (
      from_file http (record { bytes = d.bytes_of file.id; position = file.position }) path
          writable,
      d,
    )

  unfoldable pub open_object : FilePath → Action (TuxObject http)
  unfolding open_as
  open_object = open_as false

  unfoldable pub open_writable : FilePath → Action (TuxObject http)
  unfolding open_as
  open_writable = open_as true

  found_or_none : ObjectFileResult (TuxObject http) → ObjectFileResult (Option (TuxObject http))
  found_or_none (ok object) = ok (some object)
  found_or_none (err e) = if is_not_found e then ok none else err e
  found_or_none panicked = panicked

  unfoldable pub open_optional : FilePath → Action (Option (TuxObject http))
  unfolding found_or_none
  open_optional path d = let (r, d) = open_object path d in (found_or_none r, d)

  -- The current prefix is the floor of the new layout.
  abbrev pub options_for : Tags HeaderName → Tags Bytes → TuxObject http → CreateOptions http
  options_for metadata tags self = record {
    metadata = metadata;
    tags = tags;
    layout = record default_layout { min_content_start = self.header.content_start };
    compression = self.header.compression;
    sync = true;
  }

  unfoldable pub ensure_writable : TuxObject http → ObjectFileResult (Unit {0})
  ensure_writable self = if self.writable then ok tt else err (read_only self.path)

  module _ (features : Features) where
    -- The object afterwards is the replacement; where the rewriting fails the caller keeps the old one.
    unfoldable pub rewrite : Tags HeaderName → Tags Bytes → TuxObject http → Action (TuxObject http)
    unfolding ensure_writable
    rewrite metadata tags self = do
      lift (ensure_writable self)
      w ← create http os features self.path (options_for metadata tags self)
      w ← or_drop http os features w (copy http os features (stored_content_reader http self) w)
      finish http os features w

    unfoldable pub set_metadata : Tags HeaderName → TuxObject http → Action (TuxObject http)
    unfolding rewrite
    set_metadata metadata self = do
      (tags, self) ← lift (read_tags http self)
      rewrite metadata tags self

    unfoldable pub set_tags : Tags Bytes → TuxObject http → Action (TuxObject http)
    unfolding rewrite
    set_tags tags self = rewrite self.metadata tags self

    unfoldable pub set_sections :
        Tags HeaderName → Tags Bytes → TuxObject http → Action (TuxObject http)
    unfolding rewrite
    set_sections metadata tags self = rewrite metadata tags self

    unfoldable pub modify_metadata :
        (Tags HeaderName → Tags HeaderName) → TuxObject http → Action (TuxObject http)
    unfolding set_metadata
    modify_metadata modify self = set_metadata (modify self.metadata) self
