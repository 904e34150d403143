-- ===== src/Tags.antt =====
-- tags.rs: a map from keys to values, and its encoding as a block.
pub mod Codec
pub mod Measure
pub mod Find
pub mod Ops
pub mod Keys
use tux_io_encoding.Prelude.{
  ℕ, zero, suc, ◌+◌, ◌*◌, ◌%◌, ◌^◌, Bool, true, false, Option, none, some, List, [], ◌∷◌, ◌++◌,
  if◌then◌else◌, length,
}
use tux_io_encoding.Error.{EncodingError, Result, ok, ◌>>=◌, ◌>>◌}
use tux_io_encoding.Io.{Read, Bytes, Cursor, on_cursor, seek_start}
use tux_io_encoding.Codec.{ObjectType, read_whole, skip_by_reading}
use tux_io_encoding.Types.Number.{u16_type}
use tux_io_encoding.Types.Limit.{count_is_allowed}
use tux_io_encoding.Value.{ValueType, value_type}
use tux_io_encoding.Map.{KeyEq, HashMap, lookup, contains_key, put, delete}

-- The trait `TagKeyType`.
pub record TagKeyType (K : Type 0) : Type 0 where
  pub object : ObjectType K
  pub open object use *
  pub eq : KeyEq K

abbrev pub Tags : Type 0 → Type 0
Tags K = HashMap K ValueType

module _ {K : Type 0} (key : TagKeyType K) where
  unfoldable pub insert : K → ValueType → Tags K → Option ValueType × Tags K
  insert k v tags = (lookup key.eq k tags, put key.eq k v tags)

  unfoldable pub get : K → Tags K → Option ValueType
  get k tags = lookup key.eq k tags

  unfoldable pub remove : K → Tags K → Option ValueType × Tags K
  remove k tags = (lookup key.eq k tags, delete key.eq k tags)

  -- The entry API: an occupied entry is left alone.
  unfoldable pub insert_if_absent : K → ValueType → Tags K → Bool × Tags K
  insert_if_absent k v tags = elim (lookup key.eq k tags) [
    | some old ↦ (false, tags)
    | none ↦ (true, put key.eq k v tags)
  ]

  unfoldable pub extend : List (K × ValueType) → Tags K → Tags K
  extend [] tags = tags
  extend ((k, v) ∷ entries) tags = extend entries (put key.eq k v tags)

  -- `FromIterator`.
  unfoldable pub from_iter : List (K × ValueType) → Tags K
  unfolding extend
  from_iter entries = extend entries []

  unfoldable pub entries_size : Tags K → ℕ
  entries_size [] = 0
  entries_size ((k, v) ∷ tags) = key.size k + value_type.size v + entries_size tags

  unfoldable pub write_entries : Tags K → Result EncodingError Bytes
  write_entries [] = ok []
  write_entries ((k, v) ∷ tags) = do
    kb ← key.write k
    vb ← value_type.write v
    rest ← write_entries tags
    ok (kb ++ (vb ++ rest))

  unfoldable pub write_tags : Tags K → Result EncodingError Bytes
  write_tags tags = do
    count_is_allowed "Tags" (length tags)
    count ← u16_type.write (length tags % 2 ^ 16)
    entries ← write_entries tags
    ok (count ++ entries)

  -- The loop of `read_from_reader`, over the map read so far.
  unfoldable pub read_entries : ℕ → Tags K → Read (Tags K)
  read_entries zero tags input = ok (tags, input)
  read_entries (suc n) tags input = do
    (k, input) ← key.read input
    (v, input) ← value_type.read input
    read_entries n (put key.eq k v tags) input

  unfoldable pub read_tags : Read (Tags K)
  read_tags input = do (count, input) ← u16_type.read input; read_entries count [] input

  -- The loop of `read_size`, which seeks to where the next item has to be after each one.
  unfoldable pub measure_entries : ℕ → ℕ → ℕ → Cursor → Result EncodingError (ℕ × Cursor)
  measure_entries block_start zero total_size c = ok (total_size, c)
  measure_entries block_start (suc n) total_size c = do
    (key_size, c) ← key.read_size c
    let total_size = total_size + key_size
    let c = seek_start (block_start + total_size) c
    (value_size, c) ← value_type.read_size c
    let total_size = total_size + value_size
    measure_entries block_start n total_size (seek_start (block_start + total_size) c)

  unfoldable pub measure_tags : Cursor → Result EncodingError (ℕ × Cursor)
  measure_tags c = do
    let block_start = c.position
    (count, c) ← on_cursor u16_type.read c
    measure_entries block_start count 2 c

  -- The loop of `find_from_reader`: a value whose key does not match is skipped.
  unfoldable pub find_entries : K → ℕ → Cursor → Result EncodingError (Option ValueType × Cursor)
  find_entries wanted zero c = ok (none, c)
  find_entries wanted (suc n) c = do
    (k, c) ← on_cursor key.read c
    let next = (do c ← value_type.skip c; find_entries wanted n c)
    if key.eq.same k wanted then (do (v, c) ← on_cursor value_type.read c; ok (some v, c)) else next

  unfoldable pub find_from_reader : K → Cursor → Result EncodingError (Option ValueType × Cursor)
  find_from_reader wanted c = do (count, c) ← on_cursor u16_type.read c; find_entries wanted count c

  unfoldable pub read_tag_count : Cursor → Result EncodingError (ℕ × Cursor)
  read_tag_count c = on_cursor u16_type.read c

  unfoldable pub tags_type : ObjectType (Tags K)
  unfolding entries_size write_tags read_tags measure_tags
  tags_type = record {
    const_size = λ _. none;
    size = λ tags. entries_size tags + 2;
    write = write_tags;
    read = read_tags;
    read_from_bytes = read_whole read_tags;
    read_size = measure_tags;
    skip = skip_by_reading read_tags;
  }
