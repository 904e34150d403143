-- ===== src/Fs/Writer/Unclonable.antt =====
-- `finish` where the handle cannot be cloned behind the rename.
use tux_io_encoding.Prelude.{◌+◌, ◌≡◌, refl, ◌∙◌, false, none, some, ◌++◌, arith, ==_self, length}
use tux_io_encoding.Error.{IoErrorKind, ok, err}
use tux_io_encoding.Io.{Bytes}
use tux_io_encoding.Tags.{tags_type}
use tux_io_encoding.Tags.Keys.Text.{string_key, text_eq}
use tux_io_encoding.Tags.Keys.MetaKey.{HeaderNames}
use tux_io_encoding.Fs.Error.{FilePath, io}
use tux_io_encoding.Fs.Layout.{SectionLayout, repartition}
use tux_io_encoding.Fs.Prefix.{metadata_type, encode_prefix}
use tux_io_encoding.Fs.Object.RoundTrip.{prefix-length}
use tux_io_encoding.Fs.Object.Update.{repartition-keeps}
use tux_io_encoding.Fs.Support.{Features}
use tux_io_encoding.Fs.Disk.{Disk, System, same_path, set_bytes, write_bytes, clone_file}
use tux_io_encoding.Fs.Disk.Laws.{write_bytes_start, same_path_self}
use tux_io_encoding.Fs.Writer.{ObjectWriter, build_header, finish, finish_calls, finish_in_place}
use tux_io_encoding.Fs.Writer.State.{IsWriting}
use tux_io_encoding.Fs.Writer.Published.{CanEncode, finished-IsHeader}
use tux_io_encoding.Fs.Writer.Total.{Accepts, write_prefix_total, publish_total}

module _ {HeaderName : Type 0} (http : HeaderNames HeaderName) (os : System) (features : Features)
    (accepts : Accepts os) where
  -- On a system that refuses no creation, write or sync, nor the rename, but refuses to clone a handle: `finish` of
  -- an open writer whose sections fit and can be encoded, and whose temporary name differs from the destination,
  -- fails with the error of the clone, although the destination has been replaced by the finished object, with the
  -- encoded sections in front of the content, and the temporary name is gone.
  pub finish_unclonable :
      (kind : IoErrorKind) (l : SectionLayout) (prefix content : Bytes) (w : ObjectWriter http)
      (start d : Disk) (temp : FilePath)
      → os.refuses_rename w.final_path ≡ none
      → os.refuses_clone ≡ some kind
      → IsWriting http start d temp w content
      → CanEncode http w
      → same_path temp w.final_path ≡ false
      → repartition w.layout.content_start
          ((metadata_type http).size w.metadata)
          ((tags_type string_key).size w.tags)
          w.layout_options.alignment
        ≡ ok (some l)
      → encode_prefix http (build_header http (record w { layout = l })) w.metadata w.tags l
        ≡ ok prefix
      → (d' : Disk) × (finish http os features w d ≡ (err (io kind), d'))
        × (d'.names w.final_path ≡ some w.file.id)
        × (d'.bytes_of w.file.id ≡ prefix ++ content)
        × (d'.names temp ≡ none)
  unfolding finish_calls finish_in_place clone_file
  finish_unclonable kind l prefix content w start d temp renamed refused v valid beside found
        encoded =
      let wl : ObjectWriter http = record w { layout = l } in
      let w1 : ObjectWriter http = record wl {
        file = record w.file { position = 0 + length prefix };
      } in
      let bytes = write_bytes 0 prefix (d.bytes_of w.file.id) in
      let (keeps, small) =
        repartition-keeps w.layout.content_start _ _ w.layout_options.alignment l found in
      let len : length prefix ≡ w.layout.content_start =
        prefix-length http (build_header http wl) w.metadata w.tags l prefix content
          (finished-IsHeader http os features l w valid v.small small keeps) valid.metadata_valid
          valid.tags_valid refl refl encoded
        ∙ keeps in
      let stored : bytes ≡ prefix ++ content =
        write_bytes_start prefix _ ∙ rw (len, v.stored) refl in
      rw
        (
          found,
          write_prefix_total http os features accepts prefix wl d encoded,
          publish_total http os features accepts temp w.file.id w1 (set_bytes w.file.id bytes d)
              renamed v.has_temp v.named,
          refused,
        )
        (
          _,
          refl,
          rw (same_path_self w.final_path) refl,
          rw (==_self w.file.id) stored,
          (let apart : same_path w.final_path temp ≡ false =
                ground
                  (arith, text_eq.same_iff temp w.final_path, text_eq.same_iff w.final_path temp) in
              rw (apart, same_path_self temp) refl),
        )
