-- ===== src/Fs/Object/Update.antt =====
-- `set_sections_in_place`.
use tux_io_encoding.Fs.Object.{none}
use tux_io_encoding.Fs.Object.{System}
use tux_io_encoding.Prelude.{
  ℕ, ◌+◌, ◌-◌, ◌^◌, ◌≤◌, ◌<◌, max, ◌≡◌, refl, sym, ap, ◌∙◌, inl, inr, Bool, true, false, not, some,
  ◌++◌, arith, ltb, Bool-cases, Option-cases, length, take, drop, drop-append,
}
use tux_io_encoding.Error.{ok, err, >>=-eq-ok, ok-injective}
use tux_io_encoding.Io.{Bytes}
use tux_io_encoding.Header.{ObjectHeader, header_type}
use tux_io_encoding.Header.Codec.{IsHeader, header_type-Agrees}
use tux_io_encoding.Types.Text.{IsString, string_type-Agrees}
use tux_io_encoding.Tags.{Tags, tags_type}
use tux_io_encoding.Tags.Codec.{IsTags}
use tux_io_encoding.Tags.Keys.Text.{string_key}
use tux_io_encoding.Tags.Keys.MetaKey.{HeaderNames, meta_key, meta_key_type-Agrees, IsMetaKey}
use tux_io_encoding.Fs.Error.{FilePath, read_only}
use tux_io_encoding.Fs.Layout.{SectionLayout, repartition}
use tux_io_encoding.Fs.Prefix.{metadata_type, encode_prefix}
use tux_io_encoding.Fs.Prefix.Written.{guard-eq-ok}
use tux_io_encoding.Fs.Object.{TuxObject, stored_content_reader}
use tux_io_encoding.Fs.Object.Content.{left}
use tux_io_encoding.Word.Usize.{add_usize}
use tux_io_encoding.Io.{seek_start}
use tux_io_encoding.Fs.Layout.{align_up}
use tux_io_encoding.Fs.Layout.Align.{rounded}
use tux_io_encoding.Fs.Layout.Repartition.{NoOverflow}
use tux_io_encoding.Header.Codec.{encode_header, write_header_lem}
use tux_io_encoding.Tags.Codec.{tags_type-Agrees}
use tux_io_encoding.Fs.Prefix.Encode.{encode_prefix-padded}
use tux_io_encoding.Fs.Layout.Repartition.{repartition-some, repartition_fits}
use tux_io_encoding.Fs.Object.{set_sections_in_place, overwrite}
use tux_io_encoding.Fs.Object.RoundTrip.{Holds, file-Holds, prefix-length}

-- A layout that `repartition` returns keeps the content's offset and has an offset of 16 bits.
pub repartition-keeps :
    (content_start m t alignment : ℕ) (l : SectionLayout)
    → repartition content_start m t alignment ≡ ok (some l)
    → (l.content_start ≡ content_start) × (l.tags_start < 2 ^ 16)
unfolding repartition
repartition-keeps content_start m t alignment l h =
    let (me, _, h1) = >>=-eq-ok (add_usize 32 m) _ h in
    let (needed, _, h2) = >>=-eq-ok (add_usize me t) _ h1 in
    elim (Bool-cases (ltb content_start needed)) [
      | inl short ↦ cc (rw short at h2)
      | inr fits ↦
          let (aligned, _, h3) = >>=-eq-ok (align_up me (max alignment 1)) _ (rw fits at h2) in
          let (te, _, h4) = >>=-eq-ok (add_usize aligned t) _ h3 in ground arith
    ]

module _ {HeaderName : Type 0} (http : HeaderNames HeaderName) (os : System) (self : TuxObject http)
    (metadata : Tags HeaderName) (tags : Tags Bytes) where
  -- The object's header with the offsets of a layout.
  abbrev moved : SectionLayout → ObjectHeader
  moved l = record self.header { tags_start = l.tags_start; content_start = l.content_start }

  -- Without a writable handle nothing is written.
  pub set_sections_in_place_read_only :
      self.writable ≡ false
      → set_sections_in_place http os metadata tags self ≡ err (read_only self.path)
  unfolding set_sections_in_place
  set_sections_in_place_read_only h = rw h refl

  module _ (old content : Bytes) (header_valid : IsHeader self.header)
      (metadata_valid : IsTags
        (meta_key http)
        (IsMetaKey http)
        (meta_key_type-Agrees http)
        metadata)
      (tags_valid : IsTags string_key IsString string_type-Agrees tags)
      (file : self.file.bytes ≡ old ++ content)
      (old_length : length old ≡ self.header.content_start) where
    moved-IsHeader :
        (l : SectionLayout)
        → l.tags_start < 2 ^ 16
        → l.content_start ≡ self.header.content_start
        → IsHeader (moved l)
    moved-IsHeader l small keeps = record {
      is_current = header_valid.is_current;
      compression_valid = header_valid.compression_valid;
      tags_start_fits = small;
      content_start_fits = rw keeps header_valid.content_start_fits;
      content_length_fits = header_valid.content_length_fits;
      bit_flags_fit = header_valid.bit_flags_fit;
    }

    -- The header, the layout and the prefix of a successful update.
    parts :
        (self' : TuxObject http)
        → set_sections_in_place http os metadata tags self ≡ ok self'
        → (l : SectionLayout) × (prefix : Bytes) × (repartition self.header.content_start
              ((metadata_type http).size metadata)
              ((tags_type string_key).size tags)
              32
            ≡ ok (some l))
          × (encode_prefix http (moved l) metadata tags l ≡ ok prefix)
          × (self' ≡ record self {
            file = record {
              bytes = overwrite http prefix self.file.bytes;
              position = length prefix;
            };
            header = moved l;
            metadata = metadata;
          })
    unfolding set_sections_in_place
    parts self' h =
        let (_, h1) = guard-eq-ok (not self.writable) _ _ h in
        let (room, er, h2) =
          >>=-eq-ok
            (repartition self.header.content_start ((metadata_type http).size metadata)
              ((tags_type string_key).size tags) 32)
            _ h1 in
        elim (Option-cases room) [
          | inl none_fits ↦ cc (rw none_fits at h2)
          | inr (l, found) ↦
              let (prefix, ep, h3) =
                >>=-eq-ok (encode_prefix http (moved l) metadata tags l) _ (rw found at h2) in
              elim (Option-cases (os.refuses_write (length prefix))) [
                | inl accepted ↦
                    (l, prefix, er ∙ ap ok found, ep, ok-injective (sym (rw accepted at h3)))
                | inr (kind, refused) ↦ cc (rw refused at h3)
              ]
        ]

    -- For a valid header, valid maps and a file whose content stands at the header's offset: after an update
    -- that succeeds, the content stands where it was, byte for byte, behind a new prefix of the old length; the
    -- object has the new metadata; the file opens again with the object's header, and its tags are read,
    -- counted and looked up as the new ones; and the reader of the stored content has the same bytes left.
    pub set_sections_in_place-ok :
        (self' : TuxObject http) (key : Bytes) (path : FilePath) (writable : Bool) (position : ℕ)
        → set_sections_in_place http os metadata tags self ≡ ok self'
        → (prefix : Bytes) × (self'.file.bytes ≡ prefix ++ content)
          × (length prefix ≡ length old)
          × (self'.metadata ≡ metadata)
          × Holds http self'.header metadata tags self'.file.bytes key path writable position
          × (left (stored_content_reader http self') ≡ left (stored_content_reader http self))
    unfolding stored_content_reader seek_start
    set_sections_in_place-ok self' key path writable position h =
        let (l, prefix, er, ep, same) = parts self' h in
        let (keeps, small) = repartition-keeps self.header.content_start _ _ 32 l er in
        let valid = moved-IsHeader l small keeps in
        let len : length prefix ≡ length old =
          prefix-length http (moved l) metadata tags l prefix content valid metadata_valid
            tags_valid refl refl ep
          ∙ keeps
          ∙ sym old_length in
        let bytes : overwrite http prefix self.file.bytes ≡ prefix ++ content =
          rw (len, file, drop-append old content) refl in
        rw same (
          prefix,
          bytes,
          len,
          refl,
          rw bytes (
              file-Holds http (moved l) metadata tags l prefix content valid metadata_valid
                tags_valid refl refl ep key path writable position),
          rw (bytes, keeps, file, ← old_length, drop-append old content)
              (ap (λ bs. take self.header.content_length bs)
                (ap (λ n. drop n (prefix ++ content)) (sym len) ∙ drop-append prefix content)),
        )

    -- For a valid header and valid maps that can be encoded, on a writable object, where the system does not refuse
    -- the write of the prefix: the update succeeds if the header and the encodings fit in front of the content, the
    -- aligned end of the metadata fits a `u16`, and no sum overflows.
    pub set_sections_in_place_total :
        (mb tb : Bytes)
        → (metadata_type http).write metadata ≡ ok mb
        → (tags_type string_key).write tags ≡ ok tb
        → self.writable ≡ true
        → os.refuses_write self.header.content_start ≡ none
        → NoOverflow (length mb) (length tb) 32
        → rounded (32 + length mb) 32 ≤ 65535
        → 32 + length mb + length tb ≤ self.header.content_start
        → (self' : TuxObject http) × (set_sections_in_place http os metadata tags self ≡ ok self')
    unfolding set_sections_in_place header_type
    set_sections_in_place_total mb tb em et writable accepted range addressable room =
        let ml =
          (tags_type-Agrees (meta_key http) (IsMetaKey http) (meta_key_type-Agrees http)).sized
            metadata mb metadata_valid em in
        let tl =
          (tags_type-Agrees string_key IsString string_type-Agrees).sized tags tb tags_valid et in
        let (l, found, keeps) =
          repartition-some self.header.content_start (length mb) (length tb) 32 range addressable
            room in
        let fits =
          repartition_fits self.header.content_start (length mb) (length tb) 32 range l found in
        let hb = encode_header (moved l) in
        let p : ℕ = l.tags_start - (32 + length mb) in
        let q : ℕ = l.content_start - (l.tags_start + length tb) in
        let encoded =
          encode_prefix-padded http (moved l) metadata tags l hb mb tb p q
            (write_header_lem (moved l)) em et
            (header_type-Agrees.sized (moved l) hb (moved-IsHeader l (omega (arith, fits)) keeps)
              (write_header_lem (moved l)))
            (omega arith) (omega arith) (sym ml) (sym tl) in
        let len =
          prefix-length http (moved l) metadata tags l _ content
            (moved-IsHeader l (omega (arith, fits)) keeps) metadata_valid tags_valid refl refl
            encoded
          ∙ keeps in
        rw (writable, ← ml, ← tl, found, encoded, len, accepted) (_, refl)
