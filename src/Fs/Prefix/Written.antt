-- ===== src/Fs/Prefix/Written.antt =====
-- What follows when `encode_prefix` succeeds.
use tux_io_encoding.Prelude.{
  ℕ, ◌+◌, ◌-◌, ◌≤◌, ◌≡◌, refl, sym, ap, ◌∙◌, Bool, true, false, arith, ltb, if◌then◌else◌, ltb→le,
  length,
}
use tux_io_encoding.Error.{Result, ok, err, panicked, map_err, >>=-eq-ok, ok-injective}
use tux_io_encoding.Io.{Bytes}
use tux_io_encoding.Header.{ObjectHeader, header_type}
use tux_io_encoding.Header.Codec.{IsHeader, header_type-Agrees}
use tux_io_encoding.Types.Text.{IsString, string_type-Agrees}
use tux_io_encoding.Tags.{Tags, tags_type}
use tux_io_encoding.Tags.Codec.{IsTags, tags_type-Agrees}
use tux_io_encoding.Tags.Keys.Text.{string_key}
use tux_io_encoding.Tags.Keys.MetaKey.{HeaderNames, meta_key, meta_key_type-Agrees, IsMetaKey}
use tux_io_encoding.Word.Usize.{sub_usize}
use tux_io_encoding.Fs.Error.{ObjectFileError, encoding}
use tux_io_encoding.Fs.Layout.{SectionLayout, metadata_space, tags_space, header_size}
use tux_io_encoding.Fs.Prefix.{write_at, metadata_type, place_sections, encode_prefix}
use tux_io_encoding.Fs.Prefix.Encode.{padded, zeros, encode_prefix-padded}

map_err-eq-ok :
    {E F A : Type 0} (f : E → F) (r : Result E A) {a : A} → map_err f r ≡ ok a → r ≡ ok a
map_err-eq-ok f (ok a) h = ap ok (ok-injective h)
map_err-eq-ok f (err e) h = cc
map_err-eq-ok f panicked h = cc

sub_usize-ok :
    (a b : ℕ) {c : ℕ} → sub_usize {E = ObjectFileError} a b ≡ ok c → (b ≤ a) × (c ≡ a - b)
unfolding sub_usize
sub_usize-ok a b h = ground arith

-- A guard that was passed.
pub guard-eq-ok :
    {E A : Type 0} (b : Bool) (e : E) (r : Result E A) {a : A}
    → (if b then err e else r) ≡ ok a
    → (b ≡ false) × (r ≡ ok a)
guard-eq-ok true e r h = cc
guard-eq-ok false e r h = (refl, h)

module _ {HeaderName : Type 0} (http : HeaderNames HeaderName) (header : ObjectHeader)
    (metadata : Tags HeaderName) (tags : Tags Bytes) (layout : SectionLayout) where
  -- The pieces of a prefix that was encoded.
  pub record Pieces (prefix : Bytes) : Type 0 where
    pub hb : Bytes
    pub mb : Bytes
    pub tb : Bytes
    pub p : ℕ
    pub q : ℕ
    pub header_written : header_type.write header ≡ ok hb
    pub metadata_written : (metadata_type http).write metadata ≡ ok mb
    pub tags_written : (tags_type string_key).write tags ≡ ok tb
    pub tags_start : layout.tags_start ≡ 32 + length mb + p
    pub content_start : layout.content_start ≡ 32 + length mb + p + length tb + q
    pub is_padded : prefix ≡ padded hb mb tb p q

  places :
      (bytes : Bytes)
      → place_sections http header metadata tags layout ≡ ok bytes
      → (hb : Bytes) × (mb : Bytes) × (tb : Bytes) × (header_type.write header ≡ ok hb)
        × ((metadata_type http).write metadata ≡ ok mb)
        × ((tags_type string_key).write tags ≡ ok tb)
  unfolding place_sections
  places bytes h =
      let (hb, eh, h1) = >>=-eq-ok (header_type.write header) _ h in
      let (b1, _, h2) = >>=-eq-ok (write_at 0 hb (zeros layout.content_start)) _ h1 in
      let (mb, em, h3) = >>=-eq-ok ((metadata_type http).write metadata) _ h2 in
      let (b2, _, h4) = >>=-eq-ok (write_at header_size mb b1) _ h3 in
      let (tb, et, h5) = >>=-eq-ok ((tags_type string_key).write tags) _ h4 in
      (hb, mb, tb, eh, em, et)

  encode_prefix-ok :
      (prefix : Bytes)
      → encode_prefix http header metadata tags layout ≡ ok prefix
      → (place_sections http header metadata tags layout ≡ ok prefix)
        × (32 + (metadata_type http).size metadata ≤ layout.tags_start)
        × (layout.tags_start + (tags_type string_key).size tags ≤ layout.content_start)
  unfolding encode_prefix metadata_space tags_space
  encode_prefix-ok prefix h =
      let (m, e1, h1) = >>=-eq-ok (metadata_space layout) _ h in
      let (fits, h2) = guard-eq-ok (ltb m ((metadata_type http).size metadata)) _ _ h1 in
      let (t, e2, h3) = >>=-eq-ok (tags_space layout) _ h2 in
      let (fits', h4) = guard-eq-ok (ltb t ((tags_type string_key).size tags)) _ _ h3 in
      let a = sub_usize-ok layout.tags_start 32 e1 in
      let b = sub_usize-ok layout.content_start layout.tags_start e2 in
      (
        map_err-eq-ok encoding _ h4,
        omega (arith, a, ltb→le _ _ fits),
        omega (arith, b, ltb→le _ _ fits'),
      )

  -- A prefix that `encode_prefix` returns consists of the three encodings at the offsets of the layout.
  pub encode_prefix-Pieces :
      (prefix : Bytes)
      → IsHeader header
      → IsTags (meta_key http) (IsMetaKey http) (meta_key_type-Agrees http) metadata
      → IsTags string_key IsString string_type-Agrees tags
      → encode_prefix http header metadata tags layout ≡ ok prefix
      → Pieces prefix
  unfolding header_type
  encode_prefix-Pieces prefix hv mv tv h =
      let (placed, room, room') = encode_prefix-ok prefix h in
      let (hb, mb, tb, eh, em, et) = places prefix placed in
      let hl = header_type-Agrees.sized header hb hv eh in
      let ml =
        (tags_type-Agrees (meta_key http) (IsMetaKey http) (meta_key_type-Agrees http)).sized
          metadata mb mv em in
      let tl = (tags_type-Agrees string_key IsString string_type-Agrees).sized tags tb tv et in
      let p : ℕ = layout.tags_start - (32 + length mb) in
      let q : ℕ = layout.content_start - (layout.tags_start + length tb) in
      let at_tags : layout.tags_start ≡ 32 + length mb + p = omega arith in
      let at_content : layout.content_start ≡ 32 + length mb + p + length tb + q = omega arith in
      let same =
        encode_prefix-padded http header metadata tags layout hb mb tb p q eh em et hl at_tags
          at_content (sym ml) (sym tl) in
      record {
        hb = hb;
        mb = mb;
        tb = tb;
        p = p;
        q = q;
        header_written = eh;
        metadata_written = em;
        tags_written = et;
        tags_start = at_tags;
        content_start = at_content;
        is_padded = ok-injective (sym h ∙ same);
      }
