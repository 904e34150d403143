-- ===== src/Tags/Codec.antt =====
-- The block of a map keeps the invariant of the traits.
pub mod Entries
use tux_io_encoding.Prelude.{
  ℕ, ◌+◌, ◌≡◌, sym, ap, ◌∙◌, [], ◌++◌, append_assoc, arith, length, All, length-append, All-append,
}
use tux_io_encoding.Error.{ok}
use mathlib.Core.Path.{ap₂}
use tux_io_encoding.Io.{Bytes, IsByte, AreBytes, Cursor, between, between-append}
use tux_io_encoding.Codec.{Agrees, read_whole-append}
use tux_io_encoding.Word.Endian.{
  to_le_bytes, length-to_le_bytes, AreBytes-to_le_bytes, length-two_bytes,
}
use tux_io_encoding.Types.Number.Agreement.{u16-read, u16-measure}
use tux_io_encoding.Map.{IsMap}
use tux_io_encoding.Tags.{
  write_tags, TagKeyType, Tags, tags_type, entries_size, write_entries, read_tags, measure_tags,
}
use tux_io_encoding.Tags.Codec.Entries.{IsEntry, write_tags-ok, entries_shape, read_entries-append}
use tux_io_encoding.Tags.Measure.{measure_entries-between}

module _ {K : Type 0} (key : TagKeyType K) (IsKey : K → Type 0)
    (law : Agrees key.object IsKey) where
  -- The maps of the Rust type: valid entries, no key twice.
  pub record IsTags (tags : Tags K) : Type 0 where
    pub entries : All (IsEntry key IsKey law) tags
    pub distinct : IsMap key.eq tags

  read_tags-append :
      (tags : Tags K) (bs rest : Bytes)
      → IsTags tags
      → write_tags key tags ≡ ok bs
      → read_tags key (bs ++ rest) ≡ ok (tags, rest)
  unfolding read_tags
  read_tags-append tags bs rest valid h =
      let (entries, fits, e, eq) = write_tags-ok key tags bs h in
      rw
        (
          eq,
          append_assoc (to_le_bytes 2 (length tags)) entries rest,
          u16-read (length tags) (entries ++ rest) fits,
        )
        (read_entries-append key IsKey law tags [] entries rest valid.entries valid.distinct e)

  tags_shape :
      (tags : Tags K) (bs : Bytes)
      → IsTags tags
      → write_tags key tags ≡ ok bs
      → AreBytes bs × (length bs ≡ entries_size key tags + 2)
  tags_shape tags bs valid h =
      let (entries, fits, e, eq) = write_tags-ok key tags bs h in
      let (bytes, len) = entries_shape key IsKey law tags entries valid.entries e in
      let count = to_le_bytes 2 (length tags) in
      rw eq (
        All-append IsByte count entries (AreBytes-to_le_bytes 2 (length tags)) bytes,
        omega (arith, length-two_bytes (length tags) entries, len),
      )

  measure_tags-between :
      (tags : Tags K) (front bs rest : Bytes)
      → IsTags tags
      → write_tags key tags ≡ ok bs
      → (p : ℕ) × (measure_tags key (between front (bs ++ rest))
          ≡ ok (entries_size key tags + 2, record { bytes = front ++ (bs ++ rest); position = p }))
  unfolding measure_tags
  measure_tags-between tags front bs rest valid h =
      let (entries, fits, e, eq) = write_tags-ok key tags bs h in
      let count = to_le_bytes 2 (length tags) in
      let all = entries ++ rest in
      let len = length-to_le_bytes 2 (length tags) in
      let (p, measured) =
        measure_entries-between key IsKey law (length front) 2 tags (front ++ count) entries rest
          valid.entries e (omega (arith, length-append {0} front count, len)) in
      let layout : bs ++ rest ≡ count ++ all =
        ap (λ xs. xs ++ rest) eq ∙ append_assoc count entries rest in
      let passed =
        u16-measure (length tags) front all fits
        ∙ ap
            (λ n. ok (
              length tags,
              record { bytes = front ++ (count ++ all); position = length front + n },
            ))
            (sym len)
        ∙ ap (λ c. ok (length tags, c)) (between-append front count all) in
      rw layout (
        p,
        rw passed (
            measured
            ∙ ap₂ (λ n bytes. ok (n, record { bytes = bytes; position = p })) (omega arith)
                (append_assoc front count all)),
      )

  -- The invariant holds of a map whose keys keep it, in whatever order the map iterates.
  pub tags_type-Agrees : Agrees (tags_type key) IsTags
  unfolding tags_type
  tags_type-Agrees = record {
    constant = λ tags n h. cc;
    encoded = λ tags bs valid h. (tags_shape tags bs valid h).0;
    sized = λ tags bs valid h. (tags_shape tags bs valid h).1;
    decoded = read_tags-append;
    parsed = λ tags bs rest valid h.
        read_whole-append (read_tags key) bs rest tags (read_tags-append tags bs rest valid h);
    measured = measure_tags-between;
  }
