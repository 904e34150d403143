-- ===== src/Tags/Codec/Entries.antt =====
-- The entries of a block, one after the other.
use tux_io_encoding.Prelude.{
  ◌%◌, ◌^◌, ◌≤◌, ◌≡◌, refl, sym, ◌∙◌, [], ◌∷◌, ◌++◌, append-nil, append_assoc, arith, length, All,
  length-append, All-append,
}
use tux_io_encoding.Error.{ok, >>=-eq-ok, ok-injective}
use tux_io_encoding.Io.{Bytes, IsByte, AreBytes}
use tux_io_encoding.Codec.{Agrees}
use tux_io_encoding.Word.Endian.{to_le_bytes}
use tux_io_encoding.Types.Number.Agreement.{u16-write}
use tux_io_encoding.Types.Limit.{count_is_allowed, count_is_allowed-ok}
use tux_io_encoding.Value.{ValueType, value_type}
use tux_io_encoding.Value.Codec.{value_type-Agrees}
use tux_io_encoding.Value.Arms.{IsValue}
use tux_io_encoding.Map.{IsMap}
use tux_io_encoding.Map.Laws.{put-append_new, IsMap-middle}
use tux_io_encoding.Tags.{TagKeyType, Tags, entries_size, write_entries, write_tags, read_entries}

module _ {K : Type 0} (key : TagKeyType K) where
  -- A successful write of an entry and the rest, taken apart.
  pub write_entries-ok :
      (k : K) (v : ValueType) (tags : Tags K) (bs : Bytes)
      → write_entries key ((k, v) ∷ tags) ≡ ok bs
      → (kb : Bytes) × (vb : Bytes) × (rest : Bytes) × (key.write k ≡ ok kb)
        × (value_type.write v ≡ ok vb)
        × (write_entries key tags ≡ ok rest)
        × (bs ≡ kb ++ (vb ++ rest))
  unfolding write_entries
  write_entries-ok k v tags bs h =
      let (kb, ek, h1) = >>=-eq-ok (key.write k) _ h in
      let (vb, ev, h2) = >>=-eq-ok (value_type.write v) _ h1 in
      let (rest, er, h3) = >>=-eq-ok (write_entries key tags) _ h2 in
      (kb, vb, rest, ek, ev, er, sym (ok-injective h3))

  pub write_tags-ok :
      (tags : Tags K) (bs : Bytes)
      → write_tags key tags ≡ ok bs
      → (entries : Bytes) × (length tags ≤ 65535)
        × (write_entries key tags ≡ ok entries)
        × (bs ≡ to_le_bytes 2 (length tags) ++ entries)
  unfolding write_tags
  write_tags-ok tags bs h =
      let (u, allowed, h1) = >>=-eq-ok (count_is_allowed "Tags" (length tags)) _ h in
      let fits = count_is_allowed-ok "Tags" (length tags) allowed in
      let small : length tags % 2 ^ 16 ≡ length tags = omega arith in
      let (entries, e, h2) = >>=-eq-ok (write_entries key tags) _ (rw (small, u16-write) at h1) in
      (entries, fits, e, sym (ok-injective h2))

module _ {K : Type 0} (key : TagKeyType K) (IsKey : K → Type 0)
    (law : Agrees key.object IsKey) where
  abbrev pub IsEntry : K × ValueType → Type 0
  IsEntry (k, v) = IsKey k × IsValue v

  pub entries_shape :
      (tags : Tags K) (bs : Bytes)
      → All IsEntry tags
      → write_entries key tags ≡ ok bs
      → AreBytes bs × (length bs ≡ entries_size key tags)
  unfolding entries_size write_entries
  entries_shape [] bs valid h = rw (← ok-injective h) (tt, refl)
  entries_shape ((k, v) ∷ tags) bs valid h =
      let (kb, vb, rest, ek, ev, er, eq) = write_entries-ok key k v tags bs h in
      let (bytes, len) = entries_shape tags rest valid.1 er in
      (
        rw eq (
            All-append IsByte kb (vb ++ rest) (law.encoded k kb valid.0.0 ek)
              (All-append IsByte vb rest (value_type-Agrees.encoded v vb valid.0.1 ev) bytes)),
        rw eq (
            omega (
              arith,
              length-append {0} kb (vb ++ rest),
              length-append {0} vb rest,
              law.sized k kb valid.0.0 ek,
              value_type-Agrees.sized v vb valid.0.1 ev,
              len,
            )),
      )

  -- Reading goes on from the entries read so far, `front`, and adds those of the input behind them.
  pub read_entries-append :
      (tags front : Tags K) (bs rest : Bytes)
      → All IsEntry tags
      → IsMap key.eq (front ++ tags)
      → write_entries key tags ≡ ok bs
      → read_entries key (length tags) front (bs ++ rest) ≡ ok (front ++ tags, rest)
  unfolding read_entries write_entries
  read_entries-append [] front bs rest valid distinct h = rw (← ok-injective h, append-nil)
  read_entries-append ((k, v) ∷ tags) front bs rest valid distinct h =
      let (kb, vb, tail, ek, ev, er, eq) = write_entries-ok key k v tags bs h in
      rw
        (
          eq,
          append_assoc kb (vb ++ tail) rest,
          append_assoc vb tail rest,
          law.decoded k kb (vb ++ (tail ++ rest)) valid.0.0 ek,
          value_type-Agrees.decoded v vb (tail ++ rest) valid.0.1 ev,
          put-append_new key.eq k v front (IsMap-middle key.eq k v front tags distinct),
        )
        (read_entries-append tags (front ++ ((k, v) ∷ [])) tail rest valid.1
            (rw (append_assoc front ((k, v) ∷ []) tags) distinct) er
          ∙ rw (append_assoc front ((k, v) ∷ []) tags))
