-- ===== src/Fs/Writer/Edited.antt =====
-- `metadata_mut` of `ObjectWriter`, and the flag that `content_encoder` sets: neither touches the file.
use tux_io_encoding.Prelude.{Bool}
use tux_io_encoding.Io.{Bytes}
use tux_io_encoding.Tags.{Tags}
use tux_io_encoding.Tags.Keys.MetaKey.{HeaderNames}
use tux_io_encoding.Fs.Error.{FilePath}
use tux_io_encoding.Fs.Disk.{Disk}
use tux_io_encoding.Fs.Writer.{ObjectWriter}
use tux_io_encoding.Fs.Writer.State.{IsWriting}

module _ {HeaderName : Type 0} (http : HeaderNames HeaderName) where
  -- The same writer with other metadata, or opened for raw writes.
  pub edited-IsWriting :
      (start d : Disk) (temp : FilePath) (w : ObjectWriter http) (content : Bytes)
      (metadata : Tags HeaderName) (allow : Bool)
      → IsWriting http start d temp w content
      → IsWriting http start d temp
          (record w { metadata = metadata; allow_raw_writes = allow })
          content
  edited-IsWriting start d temp w content metadata allow v = record {
    has_temp = v.has_temp;
    unused = v.unused;
    named = v.named;
    is_new = v.is_new;
    is_known = v.is_known;
    names_kept = v.names_kept;
    bytes_kept = v.bytes_kept;
    counted = v.counted;
    small = v.small;
    at_end = v.at_end;
    stored = v.stored;
  }
