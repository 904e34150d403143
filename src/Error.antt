-- ===== src/Error.antt =====
-- The errors of lib.rs, and results. A Rust panic is an outcome of its own, so that its absence can be
-- stated. Integer overflow panics, as in a build with overflow checks.
use tux_io_encoding.Prelude.{ℕ, String, ◌≡◌, refl, ◌⊎◌, inl, inr}

-- The kinds of `std::io::Error` that the program meets or makes.
pub data IoErrorKind : Type 0 where
  unexpected_end write_zero not_found already_exists invalid_input other : IoErrorKind

-- `other_decoding_error` holds a boxed error of any type, and carries nothing here.
pub data EncodingError : Type 0 where
  io_error : IoErrorKind → EncodingError
  invalid_magic : EncodingError
  unsupported_version : ℕ → EncodingError
  invalid_compression_type : ℕ → EncodingError
  unexpected_eof : EncodingError
  unknown_type_key : ℕ → EncodingError
  invalid_utf8 : EncodingError
  invalid_value : String → ℕ → EncodingError
  type_too_large : String → ℕ → ℕ → EncodingError
  too_many_entries : String → ℕ → ℕ → EncodingError
  length_mismatch : String → ℕ → ℕ → EncodingError
  other_decoding_error : EncodingError
  mismatched_object_type : ℕ → ℕ → EncodingError

pub data Result {ℓ κ} (E : Type ℓ) (A : Type κ) : Type (ℓ ⊔ κ) where
  ok : A → Result E A
  err : E → Result E A
  panicked : Result E A

module _ {ℓ κ μ} {E : Type ℓ} {A : Type κ} {B : Type μ} where
  infixl 5 ◌>>=◌ ◌>>◌
  abbrev pub ◌>>=◌ : Result E A → (A → Result E B) → Result E B
  panicked >>= next = panicked
  err failure >>= next = err failure
  ok value >>= next = next value

  abbrev pub ◌>>◌ : Result E A → Result E B → Result E B
  first >> second = first >>= λ _. second

  -- A chain that succeeds came through its first step.
  pub >>=-eq-ok :
      (first : Result E A) (next : A → Result E B) {last : B}
      → (first >>= next) ≡ ok last
      → (value : A) × (first ≡ ok value) × (next value ≡ ok last)
  >>=-eq-ok panicked next chain = cc
  >>=-eq-ok (err failure) next chain = cc
  >>=-eq-ok (ok value) next chain = (value, refl, chain)

-- `?` on a result whose error is converted by `From`.
abbrev pub map_err {ℓ κ μ} :
    {E : Type ℓ} {F : Type κ} {A : Type μ} → (E → F) → Result E A → Result F A
map_err f (ok a) = ok a
map_err f (err e) = err (f e)
map_err f panicked = panicked

abbrev pub map_ok {ℓ κ μ} :
    {E : Type ℓ} {A : Type κ} {B : Type μ} → (A → B) → Result E A → Result E B
map_ok f (ok a) = ok (f a)
map_ok f (err e) = err e
map_ok f panicked = panicked

pub Result-cases {ℓ κ} :
    {E : Type ℓ} {A : Type κ} (r : Result E A)
    → ((a : A) × (r ≡ ok a)) ⊎ (((e : E) × (r ≡ err e)) ⊎ (r ≡ panicked))
Result-cases (ok a) = inl (a, refl)
Result-cases (err e) = inr (inl (e, refl))
Result-cases panicked = inr (inr refl)

pub ok-injective {ℓ κ} :
    {E : Type ℓ} {A : Type κ} {a b : A} → ◌≡◌ {A = Result E A} (ok a) (ok b) → a ≡ b
ok-injective h = cc
