-- ===== src/Fs/AsyncWriter.antt =====
-- `AsyncObjectWriter` of fs/async_io.rs, each `await` of which ends before the next step: the writer is owned by one task.
-- Its `create_temp_file` has the body of the blocking one.
pub mod Steps
pub mod Refinement
use tux_io_encoding.Fs.Disk.{clone_file}
use tux_io_encoding.Prelude.{
  ℕ, zero, suc, max, Bool, true, Option, none, some, ◌==◌, if◌then◌else◌, length,
}
use tux_io_encoding.Error.{ok, err, panicked}
use tux_io_encoding.Io.{Bytes}
use tux_io_encoding.Word.Usize.{add_usize}
use tux_io_encoding.Compression.{CompressionTypes, no_compression}
use tux_io_encoding.Header.{ObjectHeader}
use tux_io_encoding.Tags.{Tags, tags_type}
use tux_io_encoding.Tags.Keys.Text.{string_key}
use tux_io_encoding.Tags.Keys.MetaKey.{HeaderNames}
use tux_io_encoding.Fs.Error.{
  FilePath, ObjectFileError, ObjectFileResult, is_not_found, unsupported_compression,
}
use tux_io_encoding.Fs.Layout.{SectionLayout, LayoutOptions, compute, repartition}
use tux_io_encoding.Fs.Prefix.{metadata_type, encode_prefix}
use tux_io_encoding.Fs.Object.{ContentReader, read_content, TuxObject, is_compressed_type}
use tux_io_encoding.Fs.Support.{Features, ensure_supported}
use tux_io_encoding.Fs.Disk.{
  Disk, Handle, System, Action, lift, pure, raise, ◌>>=◌, ◌>>◌, write_file, sync_file, rename_file,
  remove_file,
}
use tux_io_encoding.Fs.TempFile.{create_temp_file}
use tux_io_encoding.Fs.Writer.{CreateOptions, copy_buffer}

module _ {HeaderName : Type 0} (http : HeaderNames HeaderName) where
  pub record AsyncObjectWriter : Type 0 where
    pub file : Handle
    pub temp_path : Option FilePath
    pub final_path : FilePath
    pub layout : SectionLayout
    pub layout_options : LayoutOptions
    pub compression : CompressionTypes
    pub metadata : Tags HeaderName
    pub tags : Tags Bytes
    pub content_length : ℕ
    pub sync : Bool

  -- The header that `finish` builds.
  abbrev pub finished_header : AsyncObjectWriter → ObjectHeader
  finished_header w = record {
    version = 0;
    compression = w.compression;
    tags_start = w.layout.tags_start;
    content_start = w.layout.content_start;
    content_length = w.content_length;
    bit_flags = 0;
  }

  module _ (os : System) (features : Features) where
    -- Compressed content cannot be streamed through this writer.
    unfoldable pub create : FilePath → CreateOptions http → Action AsyncObjectWriter
    create final_path options = do
      lift (ensure_supported features options.compression)
      if is_compressed_type options.compression
          then raise (unsupported_compression options.compression)
          else (do
            layout ← lift (
                compute options.layout ((metadata_type http).size options.metadata)
                  ((tags_type string_key).size options.tags))
            (file, temp_path) ← create_temp_file os final_path
            pure (record {
              file = record file { position = layout.content_start };
              temp_path = some temp_path;
              final_path = final_path;
              layout = layout;
              layout_options = options.layout;
              compression = options.compression;
              metadata = options.metadata;
              tags = options.tags;
              content_length = 0;
              sync = options.sync;
            }))

    -- `poll_write`, ready.
    unfoldable pub poll_write : Bytes → AsyncObjectWriter → Action AsyncObjectWriter
    poll_write buf w = do
      file ← write_file os buf w.file
      written ← lift (add_usize w.content_length (length buf))
      pure (record w { file = file; content_length = written })

    -- `Drop`.
    unfoldable pub drop_writer : AsyncObjectWriter → Disk → Disk
    drop_writer w d = elim w.temp_path [ none ↦ d | some temp ↦ (remove_file os temp d).1 ]

    abbrev pub drop_unless_ok :
        {A : Type 0} → AsyncObjectWriter → ObjectFileResult A × Disk → ObjectFileResult A × Disk
    drop_unless_ok w (ok a, d) = (ok a, d)
    drop_unless_ok w (err e, d) = (err e, drop_writer w d)
    drop_unless_ok w (panicked, d) = (panicked, drop_writer w d)

    abbrev pub or_drop : {A : Type 0} → AsyncObjectWriter → Action A → Action A
    or_drop w step d = drop_unless_ok w (step d)

    ignore_not_found : ObjectFileResult (Unit {0}) → ObjectFileResult (Unit {0})
    ignore_not_found (err e) = if is_not_found e then ok tt else err e
    ignore_not_found (ok _) = ok tt
    ignore_not_found panicked = panicked

    unfoldable pub abort : AsyncObjectWriter → Action (Unit {0})
    unfolding ignore_not_found
    abort w = elim w.temp_path [
      | none ↦ pure tt
      | some temp ↦ (λ d. let (r, d) = remove_file os temp d in (ignore_not_found r, d))
    ]

    -- As in the blocking writer, the path is taken before the rename, and the sync of the directory is ignored.
    unfoldable pub publish : AsyncObjectWriter → Action AsyncObjectWriter
    publish w = elim w.temp_path [
      | none ↦ pure w
      | some temp ↦ (do rename_file os temp w.final_path; pure (record w { temp_path = none }))
    ]

    -- `tokio::io::copy`, whose reads are as large as those of the blocking one.
    unfoldable pub copy_reads : ℕ → ContentReader → AsyncObjectWriter → Action AsyncObjectWriter
    copy_reads zero source w = pure w
    copy_reads (suc n) source w =
        let (bs, source) = read_content copy_buffer source in
        if length bs == 0 then pure w else (do w ← poll_write bs w; copy_reads n source w)

    abbrev pub copy : ContentReader → AsyncObjectWriter → Action AsyncObjectWriter
    copy source w = copy_reads source.remaining source w

    -- The steps of `finish` before the rename.
    unfoldable pub write_prefix : AsyncObjectWriter → Action AsyncObjectWriter
    write_prefix w = do
      prefix ← lift (encode_prefix http (finished_header w) w.metadata w.tags w.layout)
      file ← write_file os prefix (record w.file { position = 0 })
      sync_file os w.sync
      pure (record w { file = file })

    abbrev pub reopened : AsyncObjectWriter → Action (TuxObject http)
    reopened w = do
      file ← clone_file os w.file
      λ d. (
        ok (record {
          file = record { bytes = d.bytes_of file.id; position = file.position };
          path = w.final_path;
          header = finished_header w;
          metadata = w.metadata;
          writable = true;
        }),
        d,
      )

    unfoldable pub finish_in_place : SectionLayout → AsyncObjectWriter → Action (TuxObject http)
    unfolding write_prefix publish
    finish_in_place layout w = do
      let w : AsyncObjectWriter = record w { layout = layout }
      w ← or_drop w (write_prefix w)
      w ← publish w
      reopened w

    abbrev pub rewrite_options : AsyncObjectWriter → CreateOptions http
    rewrite_options w = record {
      metadata = w.metadata;
      tags = w.tags;
      layout = record w.layout_options {
        metadata_reserve = max w.layout_options.metadata_reserve 256;
        tag_reserve = max w.layout_options.tag_reserve 256;
      };
      compression = w.compression;
      sync = w.sync;
    }

    unfoldable pub copy_of : AsyncObjectWriter → Action AsyncObjectWriter
    copy_of w = do
      replacement ← create w.final_path (rewrite_options w)
      source ← (λ d. (
        ok (record {
          file = record { bytes = d.bytes_of w.file.id; position = w.layout.content_start };
          remaining = w.content_length;
        }),
        d,
      ))
      or_drop replacement (copy source replacement)

    -- After the replacement is finished the first writer is aborted, and what that answers is ignored.
    abbrev pub and_abort :
        {A : Type 0} → AsyncObjectWriter → ObjectFileResult A × Disk → ObjectFileResult A × Disk
    and_abort w (ok a, d) = (ok a, (abort w d).1)
    and_abort w (err e, d) = (err e, drop_writer w d)
    and_abort w (panicked, d) = (panicked, drop_writer w d)

    -- `finish`, with the number of calls that may be nested.
    unfoldable pub finish_calls : ℕ → AsyncObjectWriter → Action (TuxObject http)
    finish_calls zero w = or_drop w (lift panicked)
    finish_calls (suc calls) w = do
      room ← or_drop w (
          lift (
            repartition w.layout.content_start ((metadata_type http).size w.metadata)
              ((tags_type string_key).size w.tags) w.layout_options.alignment))
      elim room [
        | some layout ↦ finish_in_place layout w
        | none ↦ (λ d. and_abort w ((copy_of w >>= finish_calls calls) d))
      ]

    abbrev pub finish : AsyncObjectWriter → Action (TuxObject http)
    finish = finish_calls 2
