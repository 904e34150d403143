-- ===== src/Fs/AsyncStore.antt =====
-- The operations of `AsyncTuxObject` of fs/async_io.rs that find an object by its path, and those that replace its file.
pub mod Equivalence
use tux_io_encoding.Prelude.{Bool, true, false, Option, none, some, if◌then◌else◌}
use tux_io_encoding.Error.{ok, err, panicked}
use tux_io_encoding.Io.{Bytes}
use tux_io_encoding.Tags.{Tags}
use tux_io_encoding.Tags.Keys.MetaKey.{HeaderNames}
use tux_io_encoding.Fs.Error.{FilePath, ObjectFileError, ObjectFileResult, is_not_found}
use tux_io_encoding.Fs.Layout.{default_layout}
use tux_io_encoding.Fs.AsyncObject.{
  AsyncTuxObject, from_file, read_tags, ensure_writable, stored_content_reader,
}
use tux_io_encoding.Fs.Support.{Features}
use tux_io_encoding.Fs.Disk.{Disk, System, Action, lift, pure, raise, ◌>>=◌, ◌>>◌, open_file}
use tux_io_encoding.Fs.Writer.{CreateOptions}
use tux_io_encoding.Fs.AsyncWriter.{AsyncObjectWriter, create, copy, drop_unless_ok, finish}

module _ {HeaderName : Type 0} (http : HeaderNames HeaderName) (os : System) where
  open_as : Bool → FilePath → Action (AsyncTuxObject http)
  open_as writable path = do
    file ← open_file os writable path
    λ d. (
      from_file http (record { bytes = d.bytes_of file.id; position = file.position }) path
          writable,
      d,
    )

  unfoldable pub open_object : FilePath → Action (AsyncTuxObject http)
  unfolding open_as
  open_object = open_as false

  unfoldable pub open_writable : FilePath → Action (AsyncTuxObject http)
  unfolding open_as
  open_writable = open_as true

  found_or_none :
      ObjectFileResult (AsyncTuxObject http) → ObjectFileResult (Option (AsyncTuxObject http))
  found_or_none (ok object) = ok (some object)
  found_or_none (err e) = if is_not_found e then ok none else err e
  found_or_none panicked = panicked

  unfoldable pub open_optional : FilePath → Action (Option (AsyncTuxObject http))
  unfolding found_or_none open_object
  open_optional path d = let (r, d) = open_object path d in (found_or_none r, d)

  abbrev pub options_for : Tags HeaderName → Tags Bytes → AsyncTuxObject http → CreateOptions http
  options_for metadata tags self = record {
    metadata = metadata;
    tags = tags;
    layout = record default_layout { min_content_start = self.header.content_start };
    compression = self.header.compression;
    sync = true;
  }

  module _ (features : Features) where
    -- Opening the reader and copying, where the writer is dropped if one of them fails.
    abbrev pub copy_stored :
        AsyncTuxObject http → AsyncObjectWriter http → Action (AsyncObjectWriter http)
    copy_stored self w = do
      reader ← lift (stored_content_reader http self)
      copy http os features reader w

    unfoldable pub rewrite :
        Tags HeaderName → Tags Bytes → AsyncTuxObject http → Action (AsyncTuxObject http)
    rewrite metadata tags self = do
      lift (ensure_writable http self)
      w ← create http os features self.path (options_for metadata tags self)
      w ← λ d. drop_unless_ok http os features w (copy_stored self w d)
      finish http os features w

    unfoldable pub set_metadata :
        Tags HeaderName → AsyncTuxObject http → Action (AsyncTuxObject http)
    unfolding rewrite
    set_metadata metadata self = do
      (tags, self) ← lift (read_tags http self)
      rewrite metadata tags self

    unfoldable pub set_tags : Tags Bytes → AsyncTuxObject http → Action (AsyncTuxObject http)
    unfolding rewrite
    set_tags tags self = rewrite self.metadata tags self

    unfoldable pub set_sections :
        Tags HeaderName → Tags Bytes → AsyncTuxObject http → Action (AsyncTuxObject http)
    unfolding rewrite
    set_sections metadata tags self = rewrite metadata tags self
