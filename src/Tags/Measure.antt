-- ===== src/Tags/Measure.antt =====
-- `Tags::read_size`: the seeks after each item make up for readers that leave the cursor elsewhere.
use tux_io_encoding.Prelude.{
  ℕ, suc, ◌+◌, ◌≡◌, ap, ◌∙◌, [], ◌∷◌, ◌++◌, append_assoc, arith, length, All, length-append,
}
use tux_io_encoding.Error.{ok}
use mathlib.Core.Path.{ap₂}
use tux_io_encoding.Io.{Bytes, between, seek_start-between}
use tux_io_encoding.Codec.{Agrees}
use tux_io_encoding.Value.{ValueType, value_type}
use tux_io_encoding.Value.Codec.{value_type-Agrees}
use tux_io_encoding.Tags.{TagKeyType, Tags, entries_size, write_entries, measure_entries}
use tux_io_encoding.Tags.Codec.Entries.{IsEntry, write_entries-ok}

-- One round of the loop, from what the two readers and the rounds after it do.
module _ {K : Type 0} (key : TagKeyType K) (block_start total : ℕ) (k : K) (v : ValueType)
    (tags : Tags K) (front kb vb back : Bytes) (p q r : ℕ)
    (reads_key : key.read_size (between front (kb ++ (vb ++ back)))
      ≡ ok (key.size k, record { bytes = front ++ (kb ++ (vb ++ back)); position = p }))
    (reads_value : value_type.read_size (between (front ++ kb) (vb ++ back))
      ≡ ok (value_type.size v, record { bytes = (front ++ kb) ++ (vb ++ back); position = q }))
    (key_size : length kb ≡ key.size k) (value_size : length vb ≡ value_type.size v)
    (here : length front ≡ block_start + total) where
  measure_entries_step :
      measure_entries key block_start
          (length tags)
          (total + key.size k + value_type.size v)
          (between ((front ++ kb) ++ vb) back)
        ≡ ok (
          total + key.size k + value_type.size v + entries_size key tags,
          record { bytes = ((front ++ kb) ++ vb) ++ back; position = r },
        )
      → measure_entries key block_start
          (suc (length tags))
          total
          (between front (kb ++ (vb ++ back)))
        ≡ ok (
          total + entries_size key ((k, v) ∷ tags),
          record { bytes = front ++ (kb ++ (vb ++ back)); position = r },
        )
  unfolding measure_entries entries_size
  measure_entries_step rest =
      let after = total + key.size k + value_type.size v in
      let sum : after + entries_size key tags
          ≡ total + (key.size k + value_type.size v + entries_size key tags) =
        omega arith in
      let bytes : ((front ++ kb) ++ vb) ++ back ≡ front ++ (kb ++ (vb ++ back)) =
        append_assoc (front ++ kb) vb back ∙ append_assoc front kb (vb ++ back) in
      let sought =
        seek_start-between (block_start + after) q (front ++ kb) vb back
          (omega (arith, length-append {0} front kb)) in
      rw
        (
          reads_key,
          seek_start-between (block_start + (total + key.size k)) p front kb (vb ++ back)
              (omega arith),
          reads_value,
        )
        (ap (measure_entries key block_start (length tags) after) sought
          ∙ rest
          ∙ ap₂ (λ n bs. ok (n, record { bytes = bs; position = r })) sum bytes)

module _ {K : Type 0} (key : TagKeyType K) (IsKey : K → Type 0)
    (law : Agrees key.object IsKey) where
  pub measure_entries-between :
      (block_start total : ℕ) (tags : Tags K) (front bs rest : Bytes)
      → All (IsEntry key IsKey law) tags
      → write_entries key tags ≡ ok bs
      → length front ≡ block_start + total
      → (p : ℕ) × (measure_entries key block_start (length tags) total (between front (bs ++ rest))
          ≡ ok (
            total + entries_size key tags,
            record { bytes = front ++ (bs ++ rest); position = p },
          ))
  unfolding entries_size write_entries measure_entries
  measure_entries-between block_start total [] front bs rest valid h here =
      (length front, ap (λ n. ok (n, between front (bs ++ rest))) (omega arith))
  measure_entries-between block_start total ((k, v) ∷ tags) front bs rest valid h here =
      let (kb, vb, tail, ek, ev, er, eq) = write_entries-ok key k v tags bs h in
      let ksize = law.sized k kb valid.0.0 ek in
      let vsize = value_type-Agrees.sized v vb valid.0.1 ev in
      let back = tail ++ rest in
      let (p, reads_key) = law.measured k front kb (vb ++ back) valid.0.0 ek in
      let (q, reads_value) = value_type-Agrees.measured v (front ++ kb) vb back valid.0.1 ev in
      let (r, ih) =
        measure_entries-between block_start (total + key.size k + value_type.size v) tags
          ((front ++ kb) ++ vb) tail rest valid.1 er
          (omega (
            arith,
            length-append {0} (front ++ kb) vb,
            length-append {0} front kb,
            ksize,
            vsize,
          )) in
      let layout : bs ++ rest ≡ kb ++ (vb ++ back) =
        ap (λ xs. xs ++ rest) eq
        ∙ append_assoc kb (vb ++ tail) rest
        ∙ ap (λ xs. kb ++ xs) (append_assoc vb tail rest) in
      rw layout (
        r,
        measure_entries_step key block_start total k v tags front kb vb back p q r reads_key
            reads_value ksize vsize here ih,
      )
