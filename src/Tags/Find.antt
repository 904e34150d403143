-- ===== src/Tags/Find.antt =====
-- `Tags::find_from_reader`: a lookup in the encoded block, without decoding the map.
use tux_io_encoding.Prelude.{
  ◌≡◌, refl, ap, ◌∙◌, inl, inr, [], ◌∷◌, ◌++◌, append_assoc, Bool-cases, length, All,
}
use tux_io_encoding.Error.{EncodingError, Result, ok}
use tux_io_encoding.Io.{Bytes, Cursor, on_cursor, between, between-append, on_cursor-between}
use tux_io_encoding.Codec.{Agrees}
use tux_io_encoding.Word.Endian.{to_le_bytes}
use tux_io_encoding.Types.Number.{u16_type}
use tux_io_encoding.Types.Number.Agreement.{u16-read}
use tux_io_encoding.Value.{value_type}
use tux_io_encoding.Value.Codec.{value_type-Agrees, value-skip}
use tux_io_encoding.Map.{lookup}
use tux_io_encoding.Tags.{
  TagKeyType, Tags, write_entries, tags_type, find_entries, find_from_reader,
}
use tux_io_encoding.Tags.Codec.{IsTags}
use tux_io_encoding.Tags.Codec.Entries.{IsEntry, write_entries-ok, write_tags-ok}

-- Reading one item moves the cursor behind it.
on_cursor-pass :
    {A : Type 0} (read : Bytes → Result EncodingError (A × Bytes)) (front bs rest : Bytes) (a : A)
    → read (bs ++ rest) ≡ ok (a, rest)
    → on_cursor read (between front (bs ++ rest)) ≡ ok (a, between (front ++ bs) rest)
on_cursor-pass read front bs rest a h =
    on_cursor-between read front bs rest a h ∙ ap (λ c. ok (a, c)) (between-append front bs rest)

module _ {K : Type 0} (key : TagKeyType K) (IsKey : K → Type 0) (law : Agrees key.object IsKey)
    (wanted : K) where
  find_entries-between :
      (tags : Tags K) (front bs rest : Bytes)
      → All (IsEntry key IsKey law) tags
      → write_entries key tags ≡ ok bs
      → (c : Cursor) × (find_entries key wanted (length tags) (between front (bs ++ rest))
          ≡ ok (lookup key.eq wanted tags, c))
  unfolding find_entries lookup write_entries
  find_entries-between [] front bs rest valid h = (between front (bs ++ rest), refl)
  find_entries-between ((k, v) ∷ tags) front bs rest valid h =
      let (kb, vb, tail, ek, ev, er, eq) = write_entries-ok key k v tags bs h in
      let back = tail ++ rest in
      let layout : bs ++ rest ≡ kb ++ (vb ++ back) =
        ap (λ xs. xs ++ rest) eq
        ∙ append_assoc kb (vb ++ tail) rest
        ∙ ap (λ xs. kb ++ xs) (append_assoc vb tail rest) in
      let reads_key =
        on_cursor-pass key.read front kb (vb ++ back) k
          (law.decoded k kb (vb ++ back) valid.0.0 ek) in
      let reads_value =
        on_cursor-pass value_type.read (front ++ kb) vb back v
          (value_type-Agrees.decoded v vb back valid.0.1 ev) in
      let skips = value-skip v (front ++ kb) vb back valid.0.1 ev in
      let (c, ih) = find_entries-between tags ((front ++ kb) ++ vb) tail rest valid.1 er in
      rw layout (elim (Bool-cases (key.eq.same k wanted)) [
        | inl found ↦ (between ((front ++ kb) ++ vb) back, rw (reads_key, found, reads_value) refl)
        | inr other_key ↦ (c, rw (reads_key, other_key, skips) ih)
      ])

  -- On the encoding of a valid map, wherever it stands and for every key type that keeps the invariant,
  -- `find_from_reader` answers what a lookup in the map does.
  pub find_from_reader-eq-lookup :
      (tags : Tags K) (front bs rest : Bytes)
      → IsTags key IsKey law tags
      → (tags_type key).write tags ≡ ok bs
      → (c : Cursor) × (find_from_reader key wanted (between front (bs ++ rest))
          ≡ ok (lookup key.eq wanted tags, c))
  unfolding find_from_reader tags_type
  find_from_reader-eq-lookup tags front bs rest valid h =
      let (entries, fits, e, eq) = write_tags-ok key tags bs h in
      let count = to_le_bytes 2 (length tags) in
      let layout : bs ++ rest ≡ count ++ (entries ++ rest) =
        ap (λ xs. xs ++ rest) eq ∙ append_assoc count entries rest in
      let (c, found) = find_entries-between tags (front ++ count) entries rest valid.entries e in
      rw layout (
        c,
        rw
            (on_cursor-pass u16_type.read front count (entries ++ rest) (length tags)
              (u16-read (length tags) (entries ++ rest) fits))
            found,
      )
