-- ===== src/Fs/Store/Open.antt =====
-- Opening objects by their path.
use tux_io_encoding.Prelude.{
  ℕ, ◌≡◌, refl, sym, ◌∙◌, false, none, ◌++◌, length, drop-append, take_all,
}
use tux_io_encoding.Error.{ok}
use tux_io_encoding.Fs.Error.{is_not_found}
use tux_io_encoding.Io.{seek_start}
use tux_io_encoding.Io.{Bytes}
use tux_io_encoding.Tags.{Tags}
use tux_io_encoding.Tags.Codec.{IsTags}
use tux_io_encoding.Tags.Keys.Text.{string_key}
use tux_io_encoding.Tags.Keys.MetaKey.{HeaderNames, meta_key, meta_key_type-Agrees, IsMetaKey}
use tux_io_encoding.Types.Text.{IsString, string_type-Agrees}
use tux_io_encoding.Fs.Error.{FilePath}
use tux_io_encoding.Fs.Object.{TuxObject, stored_content_reader}
use tux_io_encoding.Fs.Object.RoundTrip.{Holds, file-Holds, prefix-length, handle}
use tux_io_encoding.Fs.Object.Content.{left}
use tux_io_encoding.Fs.Disk.{Disk, System, open_file}
use tux_io_encoding.Fs.Disk.Laws.{open_file-found, open_file-absent}
use tux_io_encoding.Fs.Writer.Published.{Published}
use tux_io_encoding.Fs.Store.{open_object, open_optional}

module _ {HeaderName : Type 0} (http : HeaderNames HeaderName) (os : System) where
  -- A path without a file is no error of `open_optional`, which creates nothing.
  pub open_optional_absent :
      (path : FilePath) (d : Disk)
      → d.names path ≡ none
      → open_optional http os path d ≡ (ok none, d)
  unfolding open_optional open_object open_file is_not_found
  open_optional_absent path d absent = rw (open_file-absent os false path d absent) refl

  module _ (start d : Disk) (path : FilePath) (metadata : Tags HeaderName) (tags : Tags Bytes)
      (content : Bytes) (object : TuxObject http)
      (metadata_valid : IsTags
        (meta_key http)
        (IsMetaKey http)
        (meta_key_type-Agrees http)
        metadata)
      (tags_valid : IsTags string_key IsString string_type-Agrees tags)
      (p : Published http start d path metadata tags content object) where
    holds :
        (key : Bytes) (position : ℕ)
        → Holds http object.header metadata tags (p.prefix ++ content) key path false position
    holds key position =
        file-Holds http object.header metadata tags p.sections p.prefix content p.header_valid
          metadata_valid tags_valid p.same_tags_start p.same_content_start p.encoded key path false
          position

    -- An object that was published, with valid maps, where the system lets it be read: it opens by its path with the
    -- header and the metadata that were published, its tags are read, counted and looked up as those that were, and
    -- its reader has the content left, byte for byte.
    pub open_object-Published :
        (key : Bytes)
        → os.refuses_open false path ≡ none
        → (found : TuxObject http) × (open_object http os path d ≡ (ok found, d))
          × (found.header ≡ object.header)
          × (found.metadata ≡ metadata)
          × Holds http found.header metadata tags found.file.bytes key path false
              found.file.position
          × (left (stored_content_reader http found) ≡ content)
    unfolding open_object open_file stored_content_reader seek_start
    open_object-Published key allowed =
        let (position, opens) = (holds key 0).opens in
        let start_of_content : object.header.content_start ≡ length p.prefix =
          p.same_content_start
          ∙ sym (
              prefix-length http object.header metadata tags p.sections p.prefix content
                p.header_valid metadata_valid tags_valid p.same_tags_start p.same_content_start
                p.encoded) in
        (
          handle http object.header metadata tags (p.prefix ++ content) path false position,
          rw (open_file-found os false path p.id d p.named allowed, p.stored, opens) refl,
          refl,
          refl,
          holds key position,
          rw (start_of_content, drop-append p.prefix content, p.content_counted) (take_all content),
        )
