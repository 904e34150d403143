-- ===== src/Map/Encoded.antt =====
-- types/map.rs: `HashMap<K, V>` as an encoded type: a count, the two type keys, and the entries.
use tux_io_encoding.Prelude.{sizes, sizes}
use tux_io_encoding.Prelude.{
  sizes, ℕ, zero, suc, ◌+◌, ◌%◌, ◌^◌, ◌<◌, ◌≡◌, refl, ◌∙◌, not, none, [], ◌∷◌, ◌++◌, append-nil,
  append_assoc, arith, ◌==◌, if◌then◌else◌, ==_self, length, All,
}
use tux_io_encoding.Error.{
  EncodingError, mismatched_object_type, Result, ok, err, ◌>>=◌, ◌>>◌, >>=-eq-ok, ok-injective,
}
use tux_io_encoding.Io.{Bytes, Cursor, Read, on_cursor, seek_current}
use tux_io_encoding.Codec.{ObjectType, TypedObjectType, Agrees, read_whole, skip_by_reading}
use tux_io_encoding.Word.Endian.{to_le_bytes, length-two_bytes}
use tux_io_encoding.Types.Limit.{count_is_allowed, count_is_allowed-ok}
use tux_io_encoding.Types.Number.{u8_type, u16_type}
use tux_io_encoding.Types.Number.Agreement.{u16-write, u16-read, u8-read_byte}
use tux_io_encoding.Map.{KeyEq, HashMap, put, IsMap}
use tux_io_encoding.Map.Laws.{put-append_new, IsMap-middle}

module _ {K V : Type 0} (key : TypedObjectType K) (value : TypedObjectType V) (e : KeyEq K) where
  unfoldable pub pairs_size : HashMap K V → ℕ
  pairs_size [] = 0
  pairs_size ((k, v) ∷ m) = key.size k + value.size v + pairs_size m

  unfoldable pub write_pairs : HashMap K V → Result EncodingError Bytes
  write_pairs [] = ok []
  write_pairs ((k, v) ∷ m) = do
    kb ← key.write k
    vb ← value.write v
    rest ← write_pairs m
    ok (kb ++ (vb ++ rest))

  unfoldable pub write_map : HashMap K V → Result EncodingError Bytes
  unfolding u8_type
  write_map m = do
    count_is_allowed "HashMap" (length m)
    count ← u16_type.write (length m % 2 ^ 16)
    pairs ← write_pairs m
    ok (count ++ (key.type_key ∷ value.type_key ∷ pairs))

  unfoldable pub read_pairs : ℕ → HashMap K V → Read (HashMap K V)
  read_pairs zero m input = ok (m, input)
  read_pairs (suc n) m input = do
    (k, input) ← key.read input
    (v, input) ← value.read input
    read_pairs n (put e k v m) input

  unfoldable pub read_map : Read (HashMap K V)
  read_map input = do
    (count, input) ← u16_type.read input
    (key_type, input) ← u8_type.read input
    (value_type, input) ← u8_type.read input
    if not (key_type == key.type_key)
        then err (mismatched_object_type key.type_key key_type)
        else if not (value_type == value.type_key)
        then err (mismatched_object_type value.type_key value_type)
        else read_pairs count [] input

  -- The loop of `read_size`, which does not seek between the items.
  unfoldable pub measure_pairs : ℕ → ℕ → Cursor → Result EncodingError (ℕ × Cursor)
  measure_pairs zero base_size c = ok (base_size, c)
  measure_pairs (suc n) base_size c = do
    (key_size, c) ← key.read_size c
    (value_size, c) ← value.read_size c
    measure_pairs n (base_size + (key_size + value_size)) c

  unfoldable pub measure_map : Cursor → Result EncodingError (ℕ × Cursor)
  measure_map c = do
    (count, c) ← on_cursor u16_type.read c
    measure_pairs count 4 (seek_current 2 c)

  unfoldable pub map_type : ObjectType (HashMap K V)
  unfolding pairs_size write_map read_map measure_map
  map_type = record {
    const_size = λ _. none;
    size = λ m. 4 + pairs_size m;
    write = write_map;
    read = read_map;
    read_from_bytes = read_whole read_map;
    read_size = measure_map;
    skip = skip_by_reading read_map;
  }

module _ {K V : Type 0} (key : TypedObjectType K) (value : TypedObjectType V) (e : KeyEq K)
    (IsKey : K → Type 0) (IsValue : V → Type 0) (key_law : Agrees key.object IsKey)
    (value_law : Agrees value.object IsValue) where
  -- The entries of the Rust type.
  abbrev pub IsPair : K × V → Type 0
  IsPair (k, v) = IsKey k × IsValue v

  pairs_back :
      (m front : HashMap K V) (bs rest : Bytes)
      → All IsPair m
      → IsMap e (front ++ m)
      → write_pairs key value e m ≡ ok bs
      → (length bs ≡ pairs_size key value e m)
        × (read_pairs key value e (length m) front (bs ++ rest) ≡ ok (front ++ m, rest))
  unfolding write_pairs read_pairs pairs_size
  pairs_back [] front bs rest valid distinct h =
      let nil : [] ≡ bs = ok-injective h in rw (← nil, append-nil) (refl, refl)
  pairs_back ((k, v) ∷ m) front bs rest valid distinct h =
      let (kb, ek, h1) = >>=-eq-ok (key.write k) _ h in
      let (vb, ev, h2) = >>=-eq-ok (value.write v) _ h1 in
      let (tail, er, h3) = >>=-eq-ok (write_pairs key value e m) _ h2 in
      let eq : kb ++ (vb ++ tail) ≡ bs = ok-injective h3 in
      let one = append_assoc front ((k, v) ∷ []) m in
      let (len, back) =
        pairs_back m (front ++ ((k, v) ∷ [])) tail rest valid.1 (rw one distinct) er in
      let sized_key = key_law.sized k kb valid.0.0 ek in
      let sized_value = value_law.sized v vb valid.0.1 ev in
      rw (← eq) (
        grind (sizes, sized_key, sized_value, len),
        rw
            (
              append_assoc kb (vb ++ tail) rest,
              append_assoc vb tail rest,
              key_law.decoded k kb (vb ++ (tail ++ rest)) valid.0.0 ek,
              value_law.decoded v vb (tail ++ rest) valid.0.1 ev,
              put-append_new e k v front (IsMap-middle e k v front m distinct),
            )
            (back ∙ rw one refl),
      )

  -- What a successful write of a `HashMap` without repeated keys appends has the announced size, and is read back as the map,
  -- whatever follows, for key and value types that keep the invariant and whose type keys are bytes.
  pub map-read_back :
      (m : HashMap K V) (bs rest : Bytes)
      → All IsPair m
      → IsMap e m
      → key.type_key < 256
      → value.type_key < 256
      → (map_type key value e).write m ≡ ok bs
      → (length bs ≡ (map_type key value e).size m)
        × ((map_type key value e).read (bs ++ rest) ≡ ok (m, rest))
  unfolding map_type write_map read_map
  map-read_back m bs rest valid distinct key_byte value_byte h =
      let (u, allowed, h1) = >>=-eq-ok (count_is_allowed "HashMap" (length m)) _ h in
      let fits = count_is_allowed-ok "HashMap" (length m) allowed in
      let small : length m % 2 ^ 16 ≡ length m = omega arith in
      let (pairs, ep, h2) = >>=-eq-ok (write_pairs key value e m) _ (rw (small, u16-write) at h1) in
      let count = to_le_bytes 2 (length m) in
      let eq : count ++ (key.type_key ∷ value.type_key ∷ pairs) ≡ bs = ok-injective h2 in
      let (len, back) = pairs_back m [] pairs rest valid distinct ep in
      rw (← eq) (
        omega (arith, length-two_bytes (length m) (key.type_key ∷ value.type_key ∷ pairs), len),
        rw
            (
              append_assoc count (key.type_key ∷ value.type_key ∷ pairs) rest,
              u16-read (length m) (key.type_key ∷ value.type_key ∷ (pairs ++ rest)) fits,
              u8-read_byte key.type_key (value.type_key ∷ (pairs ++ rest)) key_byte,
              u8-read_byte value.type_key (pairs ++ rest) value_byte,
              ==_self key.type_key,
              ==_self value.type_key,
            )
            back,
      )
