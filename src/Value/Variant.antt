-- ===== src/Value/Variant.antt =====
-- One variant of `ValueType` over an inner type that keeps the invariant.
use tux_io_encoding.Prelude.{
  ℕ, ◌<◌, ◌≡◌, sym, inl, inr, some, [], ◌∷◌, ◌++◌, append_assoc, arith, Option-cases, length,
}
use tux_io_encoding.Error.{ok, >>=-eq-ok, ok-injective}
use tux_io_encoding.Io.{Bytes, AreBytes, Cursor, between, on_cursor-between, between-append}
use tux_io_encoding.Codec.{TypedObjectType, Agrees}
use tux_io_encoding.Types.Number.{u8_type}
use tux_io_encoding.Types.Number.Agreement.{u8-read_byte}
use tux_io_encoding.Value.{
  ValueType, variant_const_size, variant_size, write_variant, read_variant, measure_variant,
}
use tux_io_encoding.Value.{read_by_key, measure_by_key, read_value, measure_value}

pub variant-constant :
    {A : Type 0} (t : TypedObjectType A) (IsValid : A → Type 0)
    → Agrees t.object IsValid
    → (v : A) (n : ℕ) → variant_const_size t v ≡ some n
    → n ≡ variant_size t v
variant-constant t IsValid law v n h = elim (Option-cases (t.const_size v)) [
  | inl unknown ↦ cc (rw (unknown, variant_const_size) at h)
  | inr (size, known) ↦ cc (rw (known, variant_const_size) at h, law.constant v size known)
]

module _ {A : Type 0} (t : TypedObjectType A) (variant : A → ValueType) (IsValid : A → Type 0)
    (law : Agrees t.object IsValid) (key_fits : t.type_key < 256)
    (reads : (input : Bytes) → read_by_key t.type_key input ≡ read_variant t variant input)
    (measures : (c : Cursor) → measure_by_key t.type_key c ≡ measure_variant t c) (v : A)
    (valid : IsValid v) where
  write_variant-ok :
      (bs : Bytes)
      → write_variant t v ≡ ok bs
      → (b : Bytes) × (t.write v ≡ ok b) × (bs ≡ t.type_key ∷ b)
  write_variant-ok bs h = let (b, e, k) = >>=-eq-ok (t.write v) _ h in (b, e, sym (ok-injective k))

  pub variant-shape :
      (bs : Bytes) → write_variant t v ≡ ok bs → AreBytes bs × (length bs ≡ variant_size t v)
  variant-shape bs h =
      let (b, e, eq) = write_variant-ok bs h in
      rw eq ((key_fits, law.encoded v b valid e), omega (arith, law.sized v b valid e))

  pub variant-read :
      (bs rest : Bytes) → write_variant t v ≡ ok bs → read_value (bs ++ rest) ≡ ok (variant v, rest)
  unfolding read_value
  variant-read bs rest h =
      let (b, e, eq) = write_variant-ok bs h in
      rw (
        eq,
        u8-read_byte t.type_key (b ++ rest) key_fits,
        reads (b ++ rest),
        law.decoded v b rest valid e,
      )

  pub variant-measure :
      (front bs rest : Bytes)
      → write_variant t v ≡ ok bs
      → (p : ℕ) × (measure_value (between front (bs ++ rest))
          ≡ ok (variant_size t v, record { bytes = front ++ (bs ++ rest); position = p }))
  unfolding measure_value
  variant-measure front bs rest h =
      let (b, e, eq) = write_variant-ok bs h in
      let key = t.type_key ∷ [] in
      let (p, inner) = law.measured v (front ++ key) b rest valid e in
      (
        p,
        rw (
          eq,
          on_cursor-between u8_type.read front key (b ++ rest) t.type_key
              (u8-read_byte t.type_key (b ++ rest) key_fits),
          between-append front key (b ++ rest),
          measures (between (front ++ key) (b ++ rest)),
          inner,
          append_assoc front key (b ++ rest),
        ),
      )
