-- ===== src/Codec.antt =====
-- The traits of lib.rs: TuxIOType, WritableObjectType, ReadableObjectType and TypedObjectType as records of
-- operations, their default methods, and the invariant that lib.rs states of an implementation.
use tux_io_encoding.Prelude.{ℕ, ◌+◌, ◌≡◌, refl, Option, none, some, ◌∷◌, ◌++◌, length}
use tux_io_encoding.Error.{EncodingError, Result, ok, ◌>>=◌, map_ok}
use tux_io_encoding.Io.{Bytes, AreBytes, Read, Cursor, on_cursor, between, on_cursor-between}

-- One implementation of the three traits. A writer appends to its output, so `write` is what it appends.
pub record ObjectType (A : Type 0) : Type 0 where
  pub const_size : A → Option ℕ
  pub size : A → ℕ
  pub write : A → Result EncodingError Bytes
  pub read : Read A
  pub read_from_bytes : Bytes → Result EncodingError A
  pub read_size : Cursor → Result EncodingError (ℕ × Cursor)
  pub skip : Cursor → Result EncodingError Cursor

-- `TypedObjectType` and `ConstTypedObjectType`, which hold one key.
pub record TypedObjectType (A : Type 0) : Type 0 where
  pub object : ObjectType A
  pub open object use *
  pub type_key : ℕ

-- The default `read_from_bytes`: read, and ignore what follows.
abbrev pub read_whole : {A : Type 0} → Read A → Bytes → Result EncodingError A
read_whole read bytes = map_ok (λ p. p.0) (read bytes)

-- The default `skip`: read and discard.
unfoldable pub skip_by_reading : {A : Type 0} → Read A → Cursor → Result EncodingError Cursor
skip_by_reading read c = map_ok (λ p. p.1) (on_cursor read c)

-- `TypedObjectType::write_with_type`.
unfoldable pub write_with_type : {A : Type 0} → TypedObjectType A → A → Result EncodingError Bytes
write_with_type t a = do bs ← t.write a; ok (t.type_key ∷ bs)

-- The invariant: what is announced, what is written, what a reader measures and what it takes are one number, and the
-- decoders return the value, for every value that its Rust type admits (`IsValid`).
pub record Agrees {A : Type 0} (t : ObjectType A) (IsValid : A → Type 0) : Type 0 where
  pub constant : (a : A) (n : ℕ) → t.const_size a ≡ some n → n ≡ t.size a
  pub encoded : (a : A) (bs : Bytes) → IsValid a → t.write a ≡ ok bs → AreBytes bs
  pub sized : (a : A) (bs : Bytes) → IsValid a → t.write a ≡ ok bs → length bs ≡ t.size a
  pub decoded :
      (a : A) (bs rest : Bytes) → IsValid a → t.write a ≡ ok bs → t.read (bs ++ rest) ≡ ok (a, rest)
  pub parsed :
      (a : A) (bs rest : Bytes)
      → IsValid a
      → t.write a ≡ ok bs
      → t.read_from_bytes (bs ++ rest) ≡ ok a
  pub measured :
      (a : A) (front bs rest : Bytes)
      → IsValid a
      → t.write a ≡ ok bs
      → (p : ℕ) × (t.read_size (between front (bs ++ rest))
          ≡ ok (t.size a, record { bytes = front ++ (bs ++ rest); position = p }))

-- A constant size is the size of every value.
abbrev IsConstant : Option ℕ → ℕ → Type 0
IsConstant none n = Unit
IsConstant (some c) n = c ≡ n

IsConstant-const : (c : Option ℕ) (n : ℕ) → ((m : ℕ) → c ≡ some m → m ≡ n) → IsConstant c n
IsConstant-const none n h = tt
IsConstant-const (some m) n h = h m refl

-- `bs` is an encoding of `a`: bytes, as many as `size` and `const_size` announce and as `read_size` measures where they stand
-- between `front` and `rest`, and both decoders give `a` back and leave what follows.
pub record Encodes {A : Type 0} (t : ObjectType A) (a : A) (bs front rest : Bytes) : Type 0 where
  pub encoded : AreBytes bs
  pub sized : length bs ≡ t.size a
  pub constant : IsConstant (t.const_size a) (t.size a)
  pub decoded : t.read (bs ++ rest) ≡ ok (a, rest)
  pub parsed : t.read_from_bytes (bs ++ rest) ≡ ok a
  pub measured :
      (p : ℕ) × (t.read_size (between front (bs ++ rest))
        ≡ ok (t.size a, record { bytes = front ++ (bs ++ rest); position = p }))

-- The writer succeeds, with an encoding.
abbrev pub Writes : {A : Type 0} → ObjectType A → A → Bytes → Bytes → Type 0
Writes t a front rest = (bs : Bytes) × (t.write a ≡ ok bs) × Encodes t a bs front rest

module _ {A : Type 0} (t : ObjectType A) (IsValid : A → Type 0) (law : Agrees t IsValid) (a : A)
    (front rest : Bytes) (valid : IsValid a) where
  pub Agrees-Encodes : (bs : Bytes) → t.write a ≡ ok bs → Encodes t a bs front rest
  Agrees-Encodes bs h = record {
    encoded = law.encoded a bs valid h;
    sized = law.sized a bs valid h;
    constant = IsConstant-const (t.const_size a) (t.size a) (law.constant a);
    decoded = law.decoded a bs rest valid h;
    parsed = law.parsed a bs rest valid h;
    measured = law.measured a front bs rest valid h;
  }

  pub Agrees-Writes : (bs : Bytes) → t.write a ≡ ok bs → Writes t a front rest
  Agrees-Writes bs h = (bs, h, Agrees-Encodes bs h)

-- The default methods on an encoding that the decoder reads back.
pub read_whole-append :
    {A : Type 0} (read : Read A) (bs rest : Bytes) (a : A)
    → read (bs ++ rest) ≡ ok (a, rest)
    → read_whole read (bs ++ rest) ≡ ok a
read_whole-append read bs rest a h = rw h

pub skip_by_reading-between :
    {A : Type 0} (read : Read A) (front bs rest : Bytes) (a : A)
    → read (bs ++ rest) ≡ ok (a, rest)
    → skip_by_reading read (between front (bs ++ rest))
      ≡ ok (record { bytes = front ++ (bs ++ rest); position = length front + length bs })
unfolding skip_by_reading
skip_by_reading-between read front bs rest a h = rw (on_cursor-between read front bs rest a h)

-- `Agrees` from laws about the one encoding `encode a` that a successful write can append.
module _ {A : Type 0} (t : ObjectType A) (IsValid : A → Type 0) (encode : A → Bytes)
    (written : (a : A) (bs : Bytes) → IsValid a → t.write a ≡ ok bs → bs ≡ encode a) where
  pub Agrees_of_encoding :
      ((a : A) (n : ℕ) → t.const_size a ≡ some n → n ≡ t.size a)
      → ((a : A)
          → IsValid a
          → t.write a ≡ ok (encode a)
          → AreBytes (encode a) × (length (encode a) ≡ t.size a))
      → ((a : A) (rest : Bytes)
          → IsValid a
          → t.write a ≡ ok (encode a)
          → (t.read (encode a ++ rest) ≡ ok (a, rest))
            × (t.read_from_bytes (encode a ++ rest) ≡ ok a))
      → ((a : A) (front rest : Bytes)
          → IsValid a
          → t.write a ≡ ok (encode a)
          → (p : ℕ) × (t.read_size (between front (encode a ++ rest))
              ≡ ok (t.size a, record { bytes = front ++ (encode a ++ rest); position = p })))
      → Agrees t IsValid
  Agrees_of_encoding constant shape back measure = record {
    constant = constant;
    encoded = λ a bs v h. rw (written a bs v h) (shape a v (rw (written a bs v h) at h)).0;
    sized = λ a bs v h. rw (written a bs v h) (shape a v (rw (written a bs v h) at h)).1;
    decoded = λ a bs rest v h. rw (written a bs v h) (back a rest v (rw (written a bs v h) at h)).0;
    parsed = λ a bs rest v h. rw (written a bs v h) (back a rest v (rw (written a bs v h) at h)).1;
    measured = λ a front bs rest v h.
        rw (written a bs v h) (measure a front rest v (rw (written a bs v h) at h));
  }
