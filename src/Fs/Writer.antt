-- ===== src/Fs/Writer.antt =====
-- `ObjectWriter` of fs/writer.rs: an object that is written to a temporary file and renamed over its destination.
pub mod State
pub mod Published
pub mod Finish
pub mod Failure
pub mod Safety
pub mod Termination
pub mod Total
pub mod Rewriting
pub mod Edited
pub mod Options
pub mod Unclonable
use tux_io_encoding.Fs.Disk.{clone_file}
use tux_io_encoding.Prelude.{
  ℕ, zero, suc, max, Bool, true, false, not, Option, none, some, [], ◌==◌, if◌then◌else◌, length,
}
use tux_io_encoding.Error.{other, ok, err, panicked}
use tux_io_encoding.Io.{Bytes}
use tux_io_encoding.Word.Usize.{add_usize, sub_usize}
use tux_io_encoding.Compression.{CompressionTypes, no_compression}
use tux_io_encoding.Header.{ObjectHeader}
use tux_io_encoding.Tags.{Tags, tags_type}
use tux_io_encoding.Tags.Keys.Text.{string_key}
use tux_io_encoding.Tags.Keys.MetaKey.{HeaderNames}
use tux_io_encoding.Fs.Error.{FilePath, ObjectFileError, ObjectFileResult, io}
use tux_io_encoding.Fs.Layout.{
  SectionLayout, LayoutOptions, compute, repartition, prefix_size, header_size, default_layout,
}
use tux_io_encoding.Fs.Prefix.{metadata_type, encode_prefix}
use tux_io_encoding.Fs.Object.{ContentReader, read_content, TuxObject}
use tux_io_encoding.Fs.Support.{Features, ensure_supported}
use tux_io_encoding.Fs.Disk.{
  Disk, Handle, System, Action, lift, pure, raise, ◌>>=◌, ◌>>◌, create_new, write_file, sync_file,
  rename_file, remove_file,
}
use tux_io_encoding.Fs.TempFile.{create_temp_file}
use tux_io_encoding.Fs.Error.{is_not_found}
use tux_io_encoding.Fs.Object.{is_compressed_type}

abbrev pub default_rewrite_reserve : ℕ
default_rewrite_reserve = 256

-- The buffer of `std::io::copy`.
abbrev pub copy_buffer : ℕ
copy_buffer = 8192

module _ {HeaderName : Type 0} (http : HeaderNames HeaderName) where
  pub record CreateOptions : Type 0 where
    pub metadata : Tags HeaderName
    pub tags : Tags Bytes
    pub layout : LayoutOptions
    pub compression : CompressionTypes
    pub sync : Bool

  abbrev pub default_options : CreateOptions
  default_options = record {
    metadata = [];
    tags = [];
    layout = default_layout;
    compression = no_compression;
    sync = false;
  }

  pub record ObjectWriter : Type 0 where
    pub file : Handle
    pub temp_path : Option FilePath
    pub final_path : FilePath
    pub layout : SectionLayout
    pub layout_options : LayoutOptions
    pub compression : CompressionTypes
    pub metadata : Tags HeaderName
    pub tags : Tags Bytes
    pub content_length : ℕ
    pub sync : Bool
    pub allow_raw_writes : Bool

  abbrev pub reserved_space : ObjectWriter → ObjectFileResult ℕ
  reserved_space w = sub_usize (prefix_size w.layout) header_size

  abbrev pub build_header : ObjectWriter → ObjectHeader
  build_header w = record {
    version = 0;
    compression = w.compression;
    tags_start = w.layout.tags_start;
    content_start = w.layout.content_start;
    content_length = w.content_length;
    bit_flags = 0;
  }

  -- What `create` returns, with the handle at the start of the content.
  abbrev pub new_writer :
      FilePath → CreateOptions → SectionLayout → Handle → FilePath → ObjectWriter
  new_writer final_path options layout file temp_path = record {
    file = record file { position = layout.content_start };
    temp_path = some temp_path;
    final_path = final_path;
    layout = layout;
    layout_options = options.layout;
    compression = options.compression;
    metadata = options.metadata;
    tags = options.tags;
    content_length = 0;
    sync = options.sync;
    allow_raw_writes = not (is_compressed_type options.compression);
  }

  module _ (os : System) (features : Features) where
    unfoldable pub create : FilePath → CreateOptions → Action ObjectWriter
    create final_path options = do
      lift (ensure_supported features options.compression)
      layout ← lift (
          compute options.layout ((metadata_type http).size options.metadata)
            ((tags_type string_key).size options.tags))
      (file, temp_path) ← create_temp_file os final_path
      pure (new_writer final_path options layout file temp_path)

    -- `Write::write`. A write that the file accepts is complete.
    unfoldable pub write : Bytes → ObjectWriter → Action ObjectWriter
    write buf w = if not w.allow_raw_writes then raise (io other) else (do
      file ← write_file os buf w.file
      written ← lift (add_usize w.content_length (length buf))
      pure (record w { file = file; content_length = written }))

    -- `Drop`: what an early return leaves behind is removed, and a refusal is ignored.
    unfoldable pub drop_writer : ObjectWriter → Disk → Disk
    drop_writer w d = elim w.temp_path [ none ↦ d | some temp ↦ (remove_file os temp d).1 ]

    -- A step that owns a writer, which is dropped where the step does not succeed.
    abbrev pub drop_unless_ok :
        {A : Type 0} → ObjectWriter → ObjectFileResult A × Disk → ObjectFileResult A × Disk
    drop_unless_ok w (ok a, d) = (ok a, d)
    drop_unless_ok w (err e, d) = (err e, drop_writer w d)
    drop_unless_ok w (panicked, d) = (panicked, drop_writer w d)

    abbrev pub or_drop : {A : Type 0} → ObjectWriter → Action A → Action A
    or_drop w step d = drop_unless_ok w (step d)

    ignore_not_found : ObjectFileResult (Unit {0}) → ObjectFileResult (Unit {0})
    ignore_not_found (err e) = if is_not_found e then ok tt else err e
    ignore_not_found (ok _) = ok tt
    ignore_not_found panicked = panicked

    unfoldable pub abort : ObjectWriter → Action (Unit {0})
    unfolding ignore_not_found
    abort w = elim w.temp_path [
      | none ↦ pure tt
      | some temp ↦ (λ d. let (r, d) = remove_file os temp d in (ignore_not_found r, d))
    ]

    -- The path of the temporary file is taken before the rename. The sync of the directory that follows changes no name and
    -- no file, and what it answers is ignored.
    unfoldable pub publish : ObjectWriter → Action ObjectWriter
    publish w = elim w.temp_path [
      | none ↦ pure w
      | some temp ↦ (do rename_file os temp w.final_path; pure (record w { temp_path = none }))
    ]

    -- `std::io::copy`, with the number of reads that are left: each delivers a byte or is the last.
    unfoldable pub copy_reads : ℕ → ContentReader → ObjectWriter → Action ObjectWriter
    copy_reads zero source w = pure w
    copy_reads (suc n) source w =
        let (bs, source) = read_content copy_buffer source in
        if length bs == 0 then pure w else (do w ← write bs w; copy_reads n source w)

    abbrev pub copy : ContentReader → ObjectWriter → Action ObjectWriter
    copy source w = copy_reads source.remaining source w

    -- The steps of `finish` that may fail before the temporary file is renamed.
    unfoldable pub write_prefix : ObjectWriter → Action ObjectWriter
    write_prefix w = do
      prefix ← lift (encode_prefix http (build_header w) w.metadata w.tags w.layout)
      file ← write_file os prefix (record w.file { position = 0 })
      sync_file os w.sync
      pure (record w { file = file })

    -- `TuxObject::from_parts` on a clone of the handle. Where the clone is refused, the object is published all the same.
    abbrev pub reopened : ObjectWriter → Action (TuxObject http)
    reopened w = do
      file ← clone_file os w.file
      λ d. (
        ok (record {
          file = record { bytes = d.bytes_of file.id; position = file.position };
          path = w.final_path;
          header = build_header w;
          metadata = w.metadata;
          writable = true;
        }),
        d,
      )

    -- `finish` where the sections fit in front of the content.
    unfoldable pub finish_in_place : SectionLayout → ObjectWriter → Action (TuxObject http)
    unfolding write_prefix publish
    finish_in_place layout w = do
      let w : ObjectWriter = record w { layout = layout }
      w ← or_drop w (write_prefix w)
      w ← publish w
      reopened w

    -- The options of the replacement.
    abbrev pub rewrite_options : ObjectWriter → CreateOptions
    rewrite_options w = record {
      metadata = w.metadata;
      tags = w.tags;
      layout = record w.layout_options {
        metadata_reserve = max w.layout_options.metadata_reserve default_rewrite_reserve;
        tag_reserve = max w.layout_options.tag_reserve default_rewrite_reserve;
      };
      compression = w.compression;
      sync = w.sync;
    }

    -- The replacement of `finish_by_rewriting`, with the content copied into it.
    unfoldable pub copy_of : ObjectWriter → Action ObjectWriter
    copy_of w = do
      replacement ← create w.final_path (rewrite_options w)
      source ← (λ d. (
        ok (record {
          file = record { bytes = d.bytes_of w.file.id; position = w.layout.content_start };
          remaining = w.content_length;
        }),
        d,
      ))
      or_drop replacement (copy source replacement)

    -- The writer is dropped at the end of `finish_by_rewriting` on every path.
    abbrev pub and_drop : {A : Type 0} → ObjectWriter → Action A → Action A
    and_drop w step d = let (r, d) = step d in (r, drop_writer w d)

    -- `finish`, which calls itself on the replacement: with the number of calls that may be nested.
    unfoldable pub finish_calls : ℕ → ObjectWriter → Action (TuxObject http)
    finish_calls zero w = or_drop w (lift panicked)
    finish_calls (suc calls) w = do
      room ← or_drop w (
          lift (
            repartition w.layout.content_start ((metadata_type http).size w.metadata)
              ((tags_type string_key).size w.tags) w.layout_options.alignment))
      elim room [
        | some layout ↦ finish_in_place layout w
        | none ↦ and_drop w (do replacement ← copy_of w; finish_calls calls replacement)
      ]

    abbrev pub finish : ObjectWriter → Action (TuxObject http)
    finish = finish_calls 2
