-- ===== src/Fs/Prefix/Encode.antt =====
-- What `encode_prefix` returns.
use tux_io_encoding.Prelude.{
  sizes, ℕ, ◌+◌, ◌-◌, ◌≡◌, refl, sym, ap, ◌∙◌, [], ◌++◌, append_assoc, arith, le→ltb, length,
  replicate, take-append, length-replicate, replicate-add, drop-append_two,
}
use tux_io_encoding.Error.{ok}
use tux_io_encoding.Io.{Bytes}
use tux_io_encoding.Word.Usize.{sub_usize_fits}
use tux_io_encoding.Header.{ObjectHeader, header_type}
use tux_io_encoding.Tags.{Tags, tags_type}
use tux_io_encoding.Tags.Keys.Text.{string_key}
use tux_io_encoding.Tags.Keys.MetaKey.{HeaderNames}
use tux_io_encoding.Fs.Error.{ObjectFileError}
use tux_io_encoding.Fs.Layout.{SectionLayout, metadata_space, tags_space}
use tux_io_encoding.Fs.Prefix.{write_at, metadata_type, place_sections, encode_prefix}

abbrev pub zeros : ℕ → Bytes
zeros n = replicate n 0

-- A write in the middle of a buffer replaces as many bytes as it has.
write_at-append :
    (n : ℕ) (front mid back bs : Bytes)
    → n ≡ length front
    → length bs ≡ length mid
    → write_at n bs (front ++ (mid ++ back)) ≡ ok (front ++ (bs ++ back))
unfolding write_at
write_at-append n front mid back bs here same =
    let room : length (front ++ (mid ++ back)) ≡ length front + (length mid + length back) =
      grind sizes in
    rw (
      here,
      same,
      le→ltb (length (front ++ (mid ++ back))) (length front + length mid) (omega (arith, room)),
      take-append front (mid ++ back),
      drop-append_two front mid back,
    )

-- The bytes of a prefix with `p` bytes of padding behind the metadata and `q` behind the tags.
abbrev pub padded : Bytes → Bytes → Bytes → ℕ → ℕ → Bytes
padded hb mb tb p q = hb ++ (mb ++ (zeros p ++ (tb ++ zeros q)))

-- A blank prefix, cut where the sections and their padding end.
blank :
    (h m p t q : ℕ)
    → zeros (h + (m + (p + (t + q)))) ≡ zeros h ++ (zeros m ++ (zeros p ++ (zeros t ++ zeros q)))
blank h m p t q = rw (
  replicate-add {A = ℕ} h (m + (p + (t + q))) 0,
  replicate-add {A = ℕ} m (p + (t + q)) 0,
  replicate-add {A = ℕ} p (t + q) 0,
  replicate-add {A = ℕ} t q 0,
)

module _ {HeaderName : Type 0} (http : HeaderNames HeaderName) (header : ObjectHeader)
    (metadata : Tags HeaderName) (tags : Tags Bytes) (layout : SectionLayout) (hb mb tb : Bytes)
    (p q : ℕ) (header_written : header_type.write header ≡ ok hb)
    (metadata_written : (metadata_type http).write metadata ≡ ok mb)
    (tags_written : (tags_type string_key).write tags ≡ ok tb) (header_length : length hb ≡ 32)
    (tags_start : layout.tags_start ≡ 32 + length mb + p)
    (content_start : layout.content_start ≡ 32 + length mb + p + length tb + q) where
  place_sections-padded : place_sections http header metadata tags layout ≡ ok (padded hb mb tb p q)
  unfolding place_sections
  place_sections-padded =
      let m = length mb in
      let t = length tb in
      let whole : layout.content_start ≡ 32 + (m + (p + (t + q))) = omega arith in
      let behind_header = zeros m ++ (zeros p ++ (zeros t ++ zeros q)) in
      let front = hb ++ (mb ++ zeros p) in
      let here : layout.tags_start ≡ length front = grind (sizes, tags_start, header_length) in
      let join : (back : Bytes) → hb ++ (mb ++ (zeros p ++ back)) ≡ front ++ back =
        λ back. rw (append_assoc hb (mb ++ zeros p) back, append_assoc mb (zeros p) back) in
      let third : write_at layout.tags_start tb (hb ++ (mb ++ (zeros p ++ (zeros t ++ zeros q))))
          ≡ ok (padded hb mb tb p q) =
        ap (write_at layout.tags_start tb) (join (zeros t ++ zeros q))
        ∙ write_at-append layout.tags_start front (zeros t) (zeros q) tb here
            (sym (length-replicate t 0))
        ∙ ap ok (sym (join (tb ++ zeros q))) in
      rw
        (
          whole,
          blank 32 m p t q,
          header_written,
          write_at-append 0 [] (zeros 32) behind_header hb refl header_length,
          metadata_written,
          write_at-append 32 hb (zeros m) (zeros p ++ (zeros t ++ zeros q)) mb (sym header_length)
              (sym (length-replicate m 0)),
          tags_written,
        )
        third

  -- Sections that fit in the layout are placed at its offsets, and the gaps are filled with zeros.
  pub encode_prefix-padded :
      (metadata_type http).size metadata ≡ length mb
      → (tags_type string_key).size tags ≡ length tb
      → encode_prefix http header metadata tags layout ≡ ok (padded hb mb tb p q)
  unfolding encode_prefix metadata_space tags_space
  encode_prefix-padded metadata_size tags_size = rw (
    metadata_size,
    tags_size,
    sub_usize_fits {E = ObjectFileError} layout.tags_start 32 (omega arith),
    le→ltb (layout.tags_start - 32) (length mb) (omega arith),
    sub_usize_fits {E = ObjectFileError} layout.content_start layout.tags_start (omega arith),
    le→ltb (layout.content_start - layout.tags_start) (length tb) (omega arith),
    place_sections-padded,
  )
