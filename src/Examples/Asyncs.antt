-- ===== src/Examples/Asyncs.antt =====
-- The async files at work on the example object, and an encoder of its content.
use tux_io_encoding.Prelude.{
  ℕ, min, ◌≡◌, refl, ap, ◌∙◌, true, false, none, List, [], ◌∷◌, ◌++◌, append-nil, append_assoc,
  arith, length, take, replicate,
}
use tux_io_encoding.Error.{IoErrorKind, unexpected_end, Result, ok, err}
use tux_io_encoding.Fs.Support.{ensure_supported, uncompressed_length_key}
use tux_io_encoding.Fs.Encoder.{encoder_write, uncompressed_length}
use tux_io_encoding.Word.Usize.{add_usize}
use Writer.{write}
use tux_io_encoding.Fs.Disk.{write_file}
use tux_io_encoding.Examples.Data.{name_of_bytes}
use tux_io_encoding.Tags.{insert}
use tux_io_encoding.Map.{put}
use tux_io_encoding.Io.{Bytes}
use tux_io_encoding.Compression.{CompressionTypes, no_compression, gzip}
use tux_io_encoding.Value.{u64}
use tux_io_encoding.Examples.Data.{names, some_metadata, some_tags, plain_length, some_header}
use tux_io_encoding.Examples.Disks.{
  plain_os, all_features, some_path, some_disk, some_temp, some_content, written_one, written_disk,
  new_one, new_disk, new_one-IsWriting,
}
use tux_io_encoding.Fs.Object.RoundTrip.{handle}
use tux_io_encoding.Fs.Object.{TuxObject, is_compressed_type}
use tux_io_encoding.Fs.AsyncWriter.Steps.{async}
use tux_io_encoding.Fs.AsyncWriter.Refinement.{finish-async}
use tux_io_encoding.Fs.AsyncObject.Equivalence.{SameAnswers, async-SameAnswers}
use tux_io_encoding.Fs.AsyncStore.Equivalence.{rewrite-async, rewrite_compressed-async}
use tux_io_encoding.Fs.AsyncWriter as AsyncWriter
use tux_io_encoding.Fs.AsyncStore as AsyncStore
use tux_io_encoding.Fs.Writer as Writer
use tux_io_encoding.Fs.Store as Store
use tux_io_encoding.Fs.Error.{unsupported_compression}
use tux_io_encoding.Fs.Disk.{Disk, set_bytes, write_bytes}
use tux_io_encoding.Fs.Writer.{ObjectWriter}
use tux_io_encoding.Fs.Writer.State.{IsWriting}
use tux_io_encoding.Fs.Encoder.{
  Codec, Codecs, ContentEncoder, gzip_encoder, content_encoder, finish_encoder, decode_content,
}
use tux_io_encoding.Fs.Encoder.Laws.{IsFaithful, AreFaithful, encoded, taken, write_buffers}
use tux_io_encoding.Fs.Encoder.RoundTrip.{Recorded, encoder-round_trip}

-- The example object, under a compression.
abbrev object_as : CompressionTypes → TuxObject names
object_as chosen =
    handle names (record some_header { compression = chosen }) some_metadata some_tags
      (replicate 96 0 ++ some_content) some_path true 0

-- A codec that keeps what it takes, at most two bytes at a time, and hands it on behind a mark when it is finished.
abbrev unmark : Bytes → Result IoErrorKind Bytes
unmark [] = err unexpected_end
unmark (mark ∷ bs) = ok bs

abbrev marked : Codec
marked = record {
  State = Bytes;
  start = [];
  takes = λ buf state. min 2 (length buf);
  emits = λ buf state. [];
  next = λ buf state. state ++ take (min 2 (length buf)) buf;
  rest = λ state. 255 ∷ state;
  decode = unmark;
}

abbrev some_codecs : Codecs
some_codecs = record {
  zstd_codec = λ level. marked;
  zstd_refuses = λ level. none;
  gzip_codec = λ level. marked;
}

marked-encoded :
    (bufs : List Bytes) (state : Bytes)
    → encoded marked bufs state ≡ 255 ∷ (state ++ taken marked bufs state)
marked-encoded [] state = rw (append-nil state) refl
marked-encoded (buf ∷ bufs) state =
    let part = take (min 2 (length buf)) buf in
    let later = taken marked bufs (state ++ part) in
    marked-encoded bufs (state ++ part) ∙ ap (λ x. 255 ∷ x) (append_assoc state part later)

marked-IsFaithful : IsFaithful marked
marked-IsFaithful = record {
  takes_part = λ buf state. omega arith;
  decodes = λ bufs. rw (marked-encoded bufs []) refl;
}

finish-async_example :
    AsyncWriter.finish_calls names plain_os all_features 2 (async names written_one) written_disk
    ≡ Writer.finish_calls names plain_os all_features 2 written_one written_disk
unfolding is_compressed_type
finish-async_example = finish-async names plain_os all_features 2 written_one written_disk refl

async-SameAnswers_example : SameAnswers names some_codecs all_features (object_as (gzip 6))
async-SameAnswers_example = async-SameAnswers names some_codecs all_features (object_as (gzip 6))

rewrite-async_example :
    AsyncStore.rewrite names plain_os all_features some_metadata []
      (object_as no_compression)
      some_disk
    ≡ Store.rewrite names plain_os all_features some_metadata []
        (object_as no_compression)
        some_disk
unfolding is_compressed_type
rewrite-async_example =
    rewrite-async names plain_os all_features some_metadata [] (object_as no_compression) some_disk
      refl

rewrite_compressed-async_example :
    AsyncStore.rewrite names plain_os all_features some_metadata [] (object_as (gzip 6)) some_disk
    ≡ (err (unsupported_compression (gzip 6)), some_disk)
unfolding is_compressed_type
rewrite_compressed-async_example =
    rewrite_compressed-async names plain_os all_features some_metadata [] (object_as (gzip 6))
      some_disk refl

some_codecs-AreFaithful : AreFaithful some_codecs
some_codecs-AreFaithful = record {
  zstd_faithful = λ level. marked-IsFaithful;
  gzip_faithful = λ level. marked-IsFaithful;
}

-- A new writer of a compressed object, its encoder after two writes, of which the second is taken in part, and what is
-- left when the encoder is finished.
abbrev empty_writer : ObjectWriter names
empty_writer = record new_one { compression = gzip 6; allow_raw_writes = false }

abbrev encoder_with : Bytes → ℕ → ContentEncoder names some_codecs
encoder_with state n = gzip_encoder 6 state (record empty_writer { allow_raw_writes = true }) n

abbrev two_writes : List Bytes
two_writes = (1 ∷ []) ∷ (2 ∷ 3 ∷ 4 ∷ []) ∷ []

abbrev full_writer : ObjectWriter names
full_writer = record empty_writer {
  allow_raw_writes = true;
  file = record { id = 1; position = 100 };
  content_length = 4;
  metadata = some_metadata ++ ((plain_length, u64 3) ∷ []);
}

abbrev full_disk : Disk
full_disk = set_bytes 1 (write_bytes 96 (255 ∷ 1 ∷ 2 ∷ 3 ∷ []) []) new_disk

starts :
    content_encoder names some_codecs all_features empty_writer new_disk
    ≡ (ok (encoder_with [] 0), new_disk)
unfolding content_encoder ensure_supported
starts = refl

takes_three :
    write_buffers names some_codecs plain_os all_features two_writes (encoder_with [] 0) new_disk
    ≡ (ok (encoder_with (1 ∷ 2 ∷ 3 ∷ []) 3), new_disk)
unfolding encoder_write add_usize
takes_three = refl

finishes :
    finish_encoder names some_codecs plain_os all_features
      (encoder_with (1 ∷ 2 ∷ 3 ∷ []) 3)
      new_disk
    ≡ (ok (3, full_writer), full_disk)
unfolding finish_encoder write write_file add_usize uncompressed_length uncompressed_length_key
    name_of_bytes insert put
finishes = refl

encoder-round_trip_example :
    (content : Bytes) × IsWriting names some_disk full_disk some_temp full_writer content
    × (decode_content names some_codecs all_features (gzip 6) content ≡ ok (1 ∷ 2 ∷ 3 ∷ []))
    × (length {A = ℕ} (1 ∷ 2 ∷ 3 ∷ []) ≡ 3)
    × Recorded names some_codecs all_features empty_writer full_writer (length content) 3
encoder-round_trip_example =
    encoder-round_trip names some_codecs all_features plain_os two_writes empty_writer some_disk
      new_disk new_disk new_disk some_temp some_codecs-AreFaithful
      (new_one-IsWriting (gzip 6) false) starts takes_three finishes
