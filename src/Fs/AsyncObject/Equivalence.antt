-- ===== src/Fs/AsyncObject/Equivalence.antt =====
-- The async methods of an open object answer what the blocking ones do.
use tux_io_encoding.Fs.Disk.{System}
use tux_io_encoding.Prelude.{
  ℕ, ◌+◌, ◌-◌, min, ◌≡◌, refl, inl, inr, Bool, Option, arith, ◌==◌, if◌then◌else◌, ==_iff,
  Bool-cases,
}
use tux_io_encoding.Error.{ok}
use tux_io_encoding.Io.{Bytes, Cursor}
use tux_io_encoding.Compression.{CompressionTypes, no_compression, zstd, gzip}
use tux_io_encoding.Tags.{Tags}
use tux_io_encoding.Tags.Keys.MetaKey.{HeaderNames}
use tux_io_encoding.Fs.Error.{FilePath}
use tux_io_encoding.Fs.Support.{Features, ensure_supported, is_supported}
use tux_io_encoding.Fs.Encoder
use tux_io_encoding.Fs.Encoder.{Codecs}
use tux_io_encoding.Fs.Object
use tux_io_encoding.Fs.Object.{ContentReader, TuxObject, layout, is_compressed_type, is_compressed}
use tux_io_encoding.Fs.AsyncObject

pub poll_read-read_content :
    (n : ℕ) (r : ContentReader) → AsyncObject.poll_read n r ≡ Object.read_content n r
unfolding Object.read_content AsyncObject.poll_read
poll_read-read_content n r = elim (Bool-cases (r.remaining == 0)) [
  | inl done ↦ rw done refl
  | inr more ↦ elim (Bool-cases (n == 0)) [
    | inl no_room ↦
        let n_zero : n ≡ 0 = (==_iff _ _).0 no_room in
        let nothing : min r.remaining 0 ≡ 0 = omega arith in
        let stays : r.file.position + 0 ≡ r.file.position = omega arith in
        let keeps : r.remaining - 0 ≡ r.remaining = omega arith in
        rw (n_zero, more, nothing, stays, keeps) refl
    | inr room ↦ rw (more, room) refl
  ]
]

module _ {HeaderName : Type 0} (http : HeaderNames HeaderName) where
  from_file_same :
      (file : Cursor) (path : FilePath) (writable : Bool)
      → AsyncObject.from_file http file path writable ≡ Object.from_file http file path writable
  unfolding Object.from_file AsyncObject.from_file Object.read_metadata_section
  from_file_same file path writable = refl

  read_tags_same :
      (self : TuxObject http) → AsyncObject.read_tags http self ≡ Object.read_tags http self
  unfolding Object.read_tags AsyncObject.read_tags AsyncObject.read_tag_section
  read_tags_same self = ground arith

  tag_count_same :
      (self : TuxObject http) → AsyncObject.tag_count http self ≡ Object.tag_count http self
  unfolding Object.tag_count AsyncObject.tag_count
  tag_count_same self = refl

  find_tag_same :
      (key : Bytes) (self : TuxObject http)
      → AsyncObject.find_tag http key self ≡ Object.find_tag http key self
  unfolding Object.find_tag AsyncObject.find_tag AsyncObject.read_tag_section
  find_tag_same key self = ground arith

  set_sections_in_place_same :
      (os : System) (metadata : Tags HeaderName) (tags : Tags Bytes) (self : TuxObject http)
      → AsyncObject.set_sections_in_place http os metadata tags self
        ≡ Object.set_sections_in_place http os metadata tags self
  unfolding Object.set_sections_in_place AsyncObject.set_sections_in_place
      AsyncObject.ensure_writable
  set_sections_in_place_same os metadata tags self = ground arith

  content_range_reader_same :
      (offset : ℕ) (wanted : Option ℕ) (self : TuxObject http)
      → AsyncObject.content_range_reader http offset wanted self
        ≡ Object.content_range_reader http offset wanted self
  unfolding Object.content_range_reader AsyncObject.content_range_reader
      AsyncObject.seek_within_content Object.range_length
  content_range_reader_same offset wanted self = ground arith

  into_content_range_reader_same :
      (offset : ℕ) (wanted : Option ℕ) (self : TuxObject http)
      → AsyncObject.into_content_range_reader http offset wanted self
        ≡ Object.content_range_reader http offset wanted self
  unfolding AsyncObject.content_range_reader AsyncObject.into_content_range_reader
  into_content_range_reader_same offset wanted self = content_range_reader_same offset wanted self

  supported_decode :
      (codecs : Codecs) (features : Features) (chosen : CompressionTypes) (bytes : Bytes)
      → (if is_compressed_type chosen
          then AsyncObject.decode_blocking http codecs features bytes chosen
          else ok bytes)
        ≡ Encoder.decode_content http codecs features chosen bytes
  unfolding AsyncObject.decode_blocking Encoder.decode_content is_compressed_type ensure_supported
      is_supported
  supported_decode codecs features no_compression bytes = refl
  supported_decode codecs features (zstd level) bytes = ground arith
  supported_decode codecs features (gzip level) bytes = ground arith

  read_content_to_vec_same :
      (codecs : Codecs) (features : Features) (self : TuxObject http)
      → AsyncObject.read_content_to_vec http codecs features self
        ≡ Encoder.read_content_to_vec http codecs features self
  unfolding AsyncObject.read_content_to_vec AsyncObject.stored_content_reader
      AsyncObject.seek_to_content_start Encoder.read_content_to_vec Object.stored_content_reader
  read_content_to_vec_same codecs features self =
      supported_decode codecs features self.header.compression _

  -- What every method of an open object answers, for one set of arguments.
  pub record SameAnswers (codecs : Codecs) (features : Features) (self : TuxObject http)
      : Type 0 where
    pub from_file :
        (file : Cursor) (path : FilePath) (writable : Bool)
        → AsyncObject.from_file http file path writable ≡ Object.from_file http file path writable
    pub read_tags : AsyncObject.read_tags http self ≡ Object.read_tags http self
    pub tag_count : AsyncObject.tag_count http self ≡ Object.tag_count http self
    pub find_tag :
        (key : Bytes) → AsyncObject.find_tag http key self ≡ Object.find_tag http key self
    pub set_sections_in_place :
        (os : System) (metadata : Tags HeaderName) (tags : Tags Bytes)
        → AsyncObject.set_sections_in_place http os metadata tags self
          ≡ Object.set_sections_in_place http os metadata tags self
    pub stored_content_reader :
        AsyncObject.stored_content_reader http self ≡ ok (Object.stored_content_reader http self)
    pub content_range_reader :
        (offset : ℕ) (wanted : Option ℕ)
        → AsyncObject.content_range_reader http offset wanted self
          ≡ Object.content_range_reader http offset wanted self
    pub into_content_reader :
        AsyncObject.into_content_reader http self ≡ ok (Object.stored_content_reader http self)
    pub into_content_range_reader :
        (offset : ℕ) (wanted : Option ℕ)
        → AsyncObject.into_content_range_reader http offset wanted self
          ≡ Object.content_range_reader http offset wanted self
    pub poll_read :
        (n : ℕ) (r : ContentReader) → AsyncObject.poll_read n r ≡ Object.read_content n r
    pub read_content_to_vec :
        AsyncObject.read_content_to_vec http codecs features self
        ≡ Encoder.read_content_to_vec http codecs features self

  -- For every open object, with any codecs, features and system: opening its file, reading, counting and looking up
  -- tags, updating the sections in place, and reading its content, whole, in part or decoded, borrowed or owned,
  -- answer the same with the async methods as with the blocking ones, errors included.
  pub async-SameAnswers :
      (codecs : Codecs) (features : Features) (self : TuxObject http)
      → SameAnswers codecs features self
  unfolding AsyncObject.stored_content_reader AsyncObject.into_content_reader
      AsyncObject.seek_to_content_start Object.stored_content_reader
  async-SameAnswers codecs features self = record {
    from_file = from_file_same;
    read_tags = read_tags_same self;
    tag_count = tag_count_same self;
    find_tag = λ key. find_tag_same key self;
    set_sections_in_place = λ os metadata tags. set_sections_in_place_same os metadata tags self;
    stored_content_reader = refl;
    content_range_reader = λ offset wanted. content_range_reader_same offset wanted self;
    into_content_reader = refl;
    into_content_range_reader = λ offset wanted. into_content_range_reader_same offset wanted self;
    poll_read = poll_read-read_content;
    read_content_to_vec = read_content_to_vec_same codecs features self;
  }
