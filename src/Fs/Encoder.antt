-- ===== src/Fs/Encoder.antt =====
-- `ContentEncoder` of fs/compression.rs, and the decoding of the content in fs/object.rs and fs/reader.rs. The codecs are
-- the crates `zstd` and `flate2`, which are a parameter.
pub mod Laws
pub mod RoundTrip
use tux_io_encoding.Prelude.{ℕ, true, Option, none, some, ◌==◌, if◌then◌else◌, length}
use tux_io_encoding.Error.{IoErrorKind, Result, ok, err, map_err, map_ok}
use tux_io_encoding.Io.{Bytes}
use tux_io_encoding.Word.Signed.{ℤ}
use tux_io_encoding.Word.Usize.{add_usize}
use tux_io_encoding.Compression.{CompressionTypes, no_compression, zstd, gzip}
use tux_io_encoding.Value.{ValueType, u64}
use tux_io_encoding.Tags.{Tags, insert}
use tux_io_encoding.Tags.Keys.MetaKey.{HeaderNames, meta_key}
use tux_io_encoding.Fs.Error.{ObjectFileError, ObjectFileResult, io, unsupported_compression}
use tux_io_encoding.Fs.Object.{TuxObject, stored_content_reader}
use tux_io_encoding.Fs.Object.Content.{left}
use tux_io_encoding.Fs.Support.{Features, ensure_supported, uncompressed_length_key}
use tux_io_encoding.Fs.Disk.{System, Action, lift, pure, raise, ◌>>=◌, ◌>>◌}
use tux_io_encoding.Fs.Writer.{ObjectWriter, write}

-- A codec: an encoder takes some of the bytes that it is given and hands bytes on, and at its end the rest of them. A
-- decoder reads the whole stored content.
pub record Codec : Type 1 where
  pub State : Type 0
  pub start : State
  pub takes : Bytes → State → ℕ
  pub emits : Bytes → State → Bytes
  pub next : Bytes → State → State
  pub rest : State → Bytes
  pub decode : Bytes → Result IoErrorKind Bytes

-- The codecs of a level. `Encoder::new` of the crate `zstd` may refuse it.
pub record Codecs : Type 1 where
  pub zstd_codec : ℤ → Codec
  pub zstd_refuses : ℤ → Option IoErrorKind
  pub gzip_codec : ℕ → Codec

module _ {HeaderName : Type 0} (http : HeaderNames HeaderName) (codecs : Codecs) where
  -- The encoder holds the writer, and the length before compression.
  pub data ContentEncoder : Type 0 where
    stored : ObjectWriter http → ℕ → ContentEncoder
    zstd_encoder :
        (level : ℤ) → (codecs.zstd_codec level).State → ObjectWriter http → ℕ → ContentEncoder
    gzip_encoder :
        (level : ℕ) → (codecs.gzip_codec level).State → ObjectWriter http → ℕ → ContentEncoder

  unfoldable pub uncompressed_length : ContentEncoder → ℕ
  uncompressed_length (stored w n) = n
  uncompressed_length (zstd_encoder level state w n) = n
  uncompressed_length (gzip_encoder level state w n) = n

  -- `record`, whose name is a keyword here.
  unfoldable pub record_written : ℕ → ContentEncoder → ObjectFileResult ContentEncoder
  record_written written (stored w n) = map_ok (stored w) (add_usize n written)
  record_written written (zstd_encoder level state w n) =
      map_ok (zstd_encoder level state w) (add_usize n written)
  record_written written (gzip_encoder level state w n) =
      map_ok (gzip_encoder level state w) (add_usize n written)

  -- The match of `ContentEncoder::new`, behind `ensure_supported`.
  encoder_of : CompressionTypes → ObjectWriter http → ObjectFileResult ContentEncoder
  encoder_of no_compression w = ok (stored w 0)
  encoder_of (zstd level) w = elim (codecs.zstd_refuses level) [
    | some kind ↦ err (io kind)
    | none ↦ ok (zstd_encoder level (codecs.zstd_codec level).start w 0)
  ]
  encoder_of (gzip level) w = ok (gzip_encoder level (codecs.gzip_codec level).start w 0)

  unfoldable pub new_encoder :
      Features → ObjectWriter http → CompressionTypes → Action ContentEncoder
  unfolding encoder_of
  new_encoder features w compression = do
    lift (ensure_supported features compression)
    lift (encoder_of compression w)

  -- `ObjectWriter::content_encoder`, which opens the writer for the encoder's bytes.
  unfoldable pub content_encoder : Features → ObjectWriter http → Action ContentEncoder
  unfolding new_encoder
  content_encoder features w =
      new_encoder features (record w { allow_raw_writes = true }) w.compression

  module _ (os : System) (features : Features) where
    -- A codec calls the writer where it has bytes.
    unfoldable pub hand_on : Bytes → ObjectWriter http → Action (ObjectWriter http)
    hand_on bs w = if length bs == 0 then pure w else write http os features bs w

    -- `Write::write`, with the number of bytes that were taken.
    unfoldable pub encoder_write : Bytes → ContentEncoder → Action (ℕ × ContentEncoder)
    unfolding hand_on record_written
    encoder_write buf (stored w n) = do
      w ← write http os features buf w
      e ← lift (record_written (length buf) (stored w n))
      pure (length buf, e)
    encoder_write buf (zstd_encoder level state w n) = do
      let codec = codecs.zstd_codec level
      w ← hand_on (codec.emits buf state) w
      e ←
          lift
            (record_written (codec.takes buf state) (zstd_encoder level (codec.next buf state) w n))
      pure (codec.takes buf state, e)
    encoder_write buf (gzip_encoder level state w n) = do
      let codec = codecs.gzip_codec level
      w ← hand_on (codec.emits buf state) w
      e ←
          lift
            (record_written (codec.takes buf state) (gzip_encoder level (codec.next buf state) w n))
      pure (codec.takes buf state, e)

    -- The writer that the encoder gives back, once the codec is flushed.
    unfoldable pub flush_codec : ContentEncoder → Action (ObjectWriter http)
    unfolding hand_on
    flush_codec (stored w n) = pure w
    flush_codec (zstd_encoder level state w n) = hand_on ((codecs.zstd_codec level).rest state) w
    flush_codec (gzip_encoder level state w n) = hand_on ((codecs.gzip_codec level).rest state) w

    -- The length is recorded only where it differs from what is stored.
    unfoldable pub finish_encoder : ContentEncoder → Action (ℕ × ObjectWriter http)
    unfolding flush_codec
    finish_encoder e = do
      w ← flush_codec e
      if w.content_length == uncompressed_length e then pure (uncompressed_length e, w) else (do
        key ← lift (uncompressed_length_key http)
        pure (
          uncompressed_length e,
          record w {
            metadata = (insert (meta_key http) key (u64 (uncompressed_length e)) w.metadata).1;
          },
        ))

  -- `DecodedContentReader`, read to its end.
  unfoldable pub decode_content : Features → CompressionTypes → Bytes → ObjectFileResult Bytes
  decode_content features no_compression bytes = ok bytes
  decode_content features (zstd level) bytes =
      if features.has_zstd
      then map_err io ((codecs.zstd_codec level).decode bytes)
      else err (unsupported_compression (zstd level))
  decode_content features (gzip level) bytes =
      if features.has_gzip
      then map_err io ((codecs.gzip_codec level).decode bytes)
      else err (unsupported_compression (gzip level))

  unfoldable pub read_content_to_vec : Features → TuxObject http → ObjectFileResult Bytes
  unfolding decode_content
  read_content_to_vec features self =
      decode_content features self.header.compression (left (stored_content_reader http self))
