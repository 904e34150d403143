-- ===== src/Types/Time/Derive.antt =====
-- The derive `ObjectType` of macros/src/object_type: a constant size and a type key from the attribute.
use tux_io_encoding.Prelude.{ℕ, ◌≡◌, refl, sym, ◌∙◌, some, ◌++◌, length}
use tux_io_encoding.Error.{EncodingError, Result, ok, ok-injective}
use tux_io_encoding.Io.{Read, Bytes, AreBytes}
use tux_io_encoding.Codec.{
  TypedObjectType, Agrees, Agrees_of_encoding, read_whole, read_whole-append, skip_by_reading,
}

-- What the derive and the hand-written impls make of a `const_size` and a `type_key`: `read_size` answers the
-- constant, and the rest are the default methods.
unfoldable pub fixed_type :
    {A : Type 0} → ℕ → ℕ → (A → Result EncodingError Bytes) → Read A → TypedObjectType A
fixed_type const_size key write read = record {
  object = record {
    const_size = λ _. some const_size;
    size = λ _. const_size;
    write = write;
    read = read;
    read_from_bytes = read_whole read;
    read_size = λ c. ok (const_size, c);
    skip = skip_by_reading read;
  };
  type_key = key;
}

module _ {A : Type 0} (n key : ℕ) (write : A → Result EncodingError Bytes) (read : Read A)
    (IsValid : A → Type 0) (encode : A → Bytes) (written : (a : A) → write a ≡ ok (encode a))
    (shape : (a : A) → AreBytes (encode a) × (length (encode a) ≡ n))
    (back : (a : A) (rest : Bytes) → IsValid a → read (encode a ++ rest) ≡ ok (a, rest)) where
  pub fixed-Agrees : Agrees (fixed_type n key write read).object IsValid
  unfolding fixed_type
  fixed-Agrees =
      Agrees_of_encoding _ IsValid encode (λ a bs v h. sym (ok-injective (sym (written a) ∙ h)))
        (λ a n h. cc) (λ a v h. shape a)
        (λ a rest v h. (back a rest v, read_whole-append read (encode a) rest a (back a rest v)))
        (λ a front rest v h. (length front, refl))
