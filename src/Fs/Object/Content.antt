-- ===== src/Fs/Object/Content.antt =====
-- Reads of the content, whole or in part.
use tux_io_encoding.Prelude.{sizes}
use tux_io_encoding.Prelude.{
  ℕ, zero, suc, ◌+◌, ◌-◌, ◌^◌, ◌≤◌, ◌<◌, min, ◌≡◌, refl, sym, ap, ◌∙◌, inl, inr, false, some, List,
  [], ◌∷◌, ◌++◌, arith, ltb, ◌==◌, if◌then◌else◌, lt→ltb, le→ltb, ltb→le, ==_iff, Bool-cases,
  length, take, drop, drop-append, length-take,
}
use tux_io_encoding.Error.{ok, err, map_ok}
use native.Mathlib.Numerals.{unary_clauses}
use tux_io_encoding.Io.{Bytes, seek_start}
use tux_io_encoding.Word.Usize.{add_usize_fits}
use tux_io_encoding.Fs.Error.{ObjectFileError, range_out_of_bounds}
use tux_io_encoding.Tags.Keys.MetaKey.{HeaderNames}
use tux_io_encoding.Fs.Object.{
  ContentReader, read_content, TuxObject, content_range_reader, content_length, is_compressed,
}

-- What a reader has still to deliver.
abbrev pub left : ContentReader → Bytes
left r = take r.remaining (drop r.file.position r.file.bytes)

-- Reads into buffers of the given sizes, one after another.
unfoldable pub read_buffers : List ℕ → ContentReader → Bytes × ContentReader
unfolding read_content
read_buffers [] r = ([], r)
read_buffers (n ∷ ns) r =
    let (bs, r) = read_content n r in let (rest, r) = read_buffers ns r in (bs ++ rest, r)

abbrev pub total : List ℕ → ℕ
total [] = 0
total (n ∷ ns) = n + total ns

module _ {A : Type 0} where
  take_nil : (n : ℕ) → take {A = A} n [] ≡ []
  take_nil zero = refl
  take_nil (suc n) = refl

  drop_nil : (n : ℕ) → drop {A = A} n [] ≡ []
  drop_nil zero = refl
  drop_nil (suc n) = refl

  drop-drop : (m n : ℕ) (xs : List A) → drop n (drop m xs) ≡ drop (m + n) xs
  drop-drop zero n xs = ap (λ k. drop k xs) (omega arith)
  drop-drop (suc m) n [] = drop_nil n ∙ sym (drop_nil (suc m + n))
  drop-drop (suc m) n (x ∷ xs) =
      let e : suc m + n ≡ suc (m + n) = omega arith in rw e (drop-drop m n xs)

  take-take : (r n : ℕ) (xs : List A) → take (min r n) xs ≡ take n (take r xs)
  take-take zero n xs = simp unary_clauses (sym (take_nil n))
  take-take (suc r) zero xs = simp unary_clauses refl
  take-take (suc r) (suc n) [] = take_nil (min (suc r) (suc n))
  take-take (suc r) (suc n) (x ∷ xs) = simp unary_clauses (ap (λ ys. x ∷ ys) (take-take r n xs))

  -- The part of a window behind what was taken from it.
  drop-take :
      (r n : ℕ) (xs : List A)
      → take (r - length (take (min r n) xs)) (drop (length (take (min r n) xs)) xs)
        ≡ drop n (take r xs)
  drop-take zero n xs = simp unary_clauses (sym (drop_nil n))
  drop-take (suc r) zero xs = simp unary_clauses refl
  drop-take (suc r) (suc n) [] = simp (unary_clauses, take_nil, drop_nil) refl
  drop-take (suc r) (suc n) (x ∷ xs) = simp unary_clauses (drop-take r n xs)

  take-add : (m n : ℕ) (xs : List A) → take m xs ++ take n (drop m xs) ≡ take (m + n) xs
  take-add zero n xs = ap (λ k. take k xs) (omega arith)
  take-add (suc m) n [] = simp (unary_clauses, take_nil) refl
  take-add (suc m) n (x ∷ xs) =
      let e : suc m + n ≡ suc (m + n) = omega arith in rw e (ap (λ ys. x ∷ ys) (take-add m n xs))

module _ {A : Type 0} where
  -- A window inside the first of two lists.
  window-append :
      (o n : ℕ) (xs ys : List A)
      → o + n ≤ length xs
      → take n (drop o (xs ++ ys)) ≡ take n (drop o xs)
  window-append zero zero xs ys h = refl
  window-append zero (suc n) [] ys h = absurd (omega arith)
  window-append zero (suc n) (x ∷ xs) ys h =
      ap (λ zs. x ∷ zs) (window-append zero n xs ys (omega arith))
  window-append (suc o) zero [] ys h = refl
  window-append (suc o) (suc n) [] ys h = absurd (omega arith)
  window-append (suc o) n (x ∷ xs) ys h = window-append o n xs ys (omega arith)

-- A read delivers the next bytes that are left, and no byte behind them.
pub read_content_lem :
    (n : ℕ) (r : ContentReader)
    → ((read_content n r).0 ≡ take n (left r)) × (left (read_content n r).1 ≡ drop n (left r))
unfolding read_content
read_content_lem n r = elim (Bool-cases (r.remaining == 0)) [
  | inl done ↦
      (let z : r.remaining ≡ 0 = (==_iff _ _).0 done in
        rw (z, take_nil {A = ℕ} n, drop_nil {A = ℕ} n) (refl, refl))
  | inr more ↦ (elim (Bool-cases (n == 0)) [
    | inl empty ↦ (let z : n ≡ 0 = (==_iff _ _).0 empty in rw (more, z) (refl, refl))
    | inr some_room ↦
        rw (more, some_room)
          (
            take-take r.remaining n (drop r.file.position r.file.bytes),
            rw (← drop-drop r.file.position _ r.file.bytes)
                (drop-take r.remaining n (drop r.file.position r.file.bytes)),
          )
  ])
]

pub read_content-remaining :
    (n : ℕ) (r : ContentReader)
    → (read_content n r).1.remaining ≡ r.remaining - length (read_content n r).0
unfolding read_content
read_content-remaining n r = ground arith

empty_of_length : {A : Type 0} (xs : List A) → length xs ≡ 0 → xs ≡ []
empty_of_length [] h = refl
empty_of_length (x ∷ xs) h = absurd (omega arith)

-- A read that finds nothing ends the content.
pub read_content_end :
    (n : ℕ) (r : ContentReader) → 0 < n → length (read_content n r).0 ≡ 0 → left r ≡ []
read_content_end n r room h =
    let (now, _) = read_content_lem n r in
    let none_left : min n (length (left r)) ≡ 0 =
      sym (length-take n (left r)) ∙ ap length (sym now) ∙ h in
    empty_of_length (left r) (omega arith)

pub read_buffers-take :
    (ns : List ℕ) (r : ContentReader) → (read_buffers ns r).0 ≡ take (total ns) (left r)
unfolding read_buffers
read_buffers-take [] r = refl
read_buffers-take (n ∷ ns) r =
    let (now, later) = read_content_lem n r in
    rw (now, read_buffers-take ns (read_content n r).1, later) (take-add n (total ns) (left r))

module _ {HeaderName : Type 0} (http : HeaderNames HeaderName) (self : TuxObject http) where
  -- In a file shorter than 2 ^ 64 bytes whose content stands at the header's offset and has the header's
  -- length: a range inside the content of an object that is not compressed is delivered, by reads into buffers
  -- of any sizes, byte for byte, and nothing behind it is.
  pub content_range_reader-slice :
      (offset n : ℕ) (ns : List ℕ) (prefix content behind : Bytes)
      → is_compressed http self ≡ false
      → self.file.bytes ≡ prefix ++ (content ++ behind)
      → length prefix ≡ self.header.content_start
      → length content ≡ content_length http self
      → length self.file.bytes < 2 ^ 64
      → offset + n ≤ length content
      → map_ok (λ r. (read_buffers ns r).0) (content_range_reader http offset (some n) self)
        ≡ ok (take (total ns) (take n (drop offset content)))
  unfolding content_range_reader seek_start
  content_range_reader-slice offset n ns prefix content behind plain bytes start whole small
        inside =
      let len : length self.file.bytes ≡ length prefix + (length content + length behind) =
        rw bytes (grind sizes) in
      let window : left (record {
        file = record self.file { position = self.header.content_start + offset };
        remaining = n;
      })
          ≡ take n (drop offset content) =
        rw
          (
            bytes,
            ← start,
            ← drop-drop (length prefix) offset (prefix ++ (content ++ behind)),
            drop-append prefix (content ++ behind),
          )
          (window-append offset n content behind inside) in
      rw
        (
          plain,
          le→ltb (content_length http self) offset (omega arith),
          le→ltb (content_length http self - offset) n (omega arith),
          add_usize_fits {E = ObjectFileError} self.header.content_start offset (omega arith),
          read_buffers-take,
          window,
        )
        refl

  -- A range that ends behind the content of an object that is not compressed is refused, whatever the file
  -- holds, with the range that was asked for (its end cut to a `u64`, and the offset alone where that is
  -- already behind the content).
  pub content_range_reader_outside :
      (offset n : ℕ)
      → is_compressed http self ≡ false
      → content_length http self < offset + n
      → content_range_reader http offset (some n) self
        ≡ err (
            range_out_of_bounds offset
              (if ltb (content_length http self) offset
                then offset
                else min (offset + n) (2 ^ 64 - 1))
              (content_length http self))
  unfolding content_range_reader
  content_range_reader_outside offset n plain outside =
      elim (Bool-cases (ltb (content_length http self) offset)) [
        | inl far ↦ rw (plain, far) refl
        | inr near ↦
            rw
              (
                plain,
                near,
                lt→ltb (content_length http self - offset) n
                    (omega (arith, ltb→le (content_length http self) offset near)),
              )
              refl
      ]
