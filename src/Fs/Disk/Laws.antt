-- ===== src/Fs/Disk/Laws.antt =====
-- What the operations of a disk change, and what they leave.
use tux_io_encoding.Fs.Disk.{io}
use tux_io_encoding.Prelude.{sizes}
use tux_io_encoding.Prelude.{
  ℕ, ◌+◌, ◌-◌, ◌≤◌, ◌≡◌, refl, sym, ap, ◌∙◌, ◌≢◌, ◌⊎◌, inl, inr, Bool, true, false, Option, none,
  some, [], ◌∷◌, ◌++◌, append-nil, arith, leb, ◌==◌, if◌then◌else◌, Bool-cases, length, drop,
  replicate, length-drop, drop-append_two, take_beyond, drop_beyond, drop_within,
}
use tux_io_encoding.Error.{not_found, ok, err, panicked, ok-injective}
use tux_io_encoding.Fs.Disk.{raise}
use tux_io_encoding.Io.{Bytes}
use tux_io_encoding.Tags.Keys.Text.{text_eq}
use tux_io_encoding.Fs.Error.{FilePath, ObjectFileError, ObjectFileResult}
use tux_io_encoding.Fs.Disk.{
  Disk, Handle, System, Action, continue_with, lift, raise, ◌>>=◌, same_path, set_name, set_bytes,
  write_bytes, create_new, write_file, rename_file, open_file,
}

-- A step that succeeded in a chain that did.
continue_with-ok :
    {A B : Type 0} (f : A → Action B) (x : ObjectFileResult A × Disk) {b : B} {d' : Disk}
    → continue_with f x ≡ (ok b, d')
    → (a : A) × (d1 : Disk) × (x ≡ (ok a, d1)) × (f a d1 ≡ (ok b, d'))
continue_with-ok f (ok a, d1) h = (a, d1, refl, h)
continue_with-ok f (err e, d1) h = cc
continue_with-ok f (panicked, d1) h = cc

pub >>=-ok :
    {A B : Type 0} (m : Action A) (f : A → Action B) (d : Disk) {b : B} {d' : Disk}
    → (m >>= f) d ≡ (ok b, d')
    → (a : A) × (d1 : Disk) × (m d ≡ (ok a, d1)) × (f a d1 ≡ (ok b, d'))
>>=-ok m f d h = continue_with-ok f (m d) h

pub lift-ok :
    {A B : Type 0} (r : ObjectFileResult A) (f : A → Action B) (d : Disk) {b : B} {d' : Disk}
    → continue_with f (r, d) ≡ (ok b, d')
    → (a : A) × (r ≡ ok a) × (f a d ≡ (ok b, d'))
lift-ok (ok a) f d h = (a, refl, h)
lift-ok (err e) f d h = cc
lift-ok panicked f d h = cc

pub pure-ok :
    {A : Type 0} (a : A) (d : Disk) {b : A} {d' : Disk}
    → ◌≡◌ {A = ObjectFileResult A × Disk} (ok a, d) (ok b, d')
    → (b ≡ a) × (d' ≡ d)
pure-ok a d h = (ok-injective (ap (λ x. x.0) (sym h)), ap (λ x. x.1) (sym h))

-- A guard that was passed.
pub guard-ok :
    {A : Type 0} (b : Bool) (e : ObjectFileError) (m : Action A) (d : Disk) {a : A} {d' : Disk}
    → (if b then raise e else m) d ≡ (ok a, d')
    → (b ≡ false) × (m d ≡ (ok a, d'))
guard-ok true e m d h = cc
guard-ok false e m d h = (refl, h)

-- Which branch of a test was taken.
pub branch :
    {A : Type 0} (b : Bool) (m k : Action A) (d : Disk) {r : ObjectFileResult A × Disk}
    → (if b then m else k) d ≡ r
    → ((b ≡ true) × (m d ≡ r)) ⊎ ((b ≡ false) × (k d ≡ r))
branch true m k d h = inl (refl, h)
branch false m k d h = inr (refl, h)

pub option_branch :
    {A B : Type 0} (o : Option A) (m : Action B) (k : A → Action B) (d : Disk)
    {r : ObjectFileResult B × Disk}
    → (elim o as (λ x. Action B) [ some a ↦ k a | none ↦ m ]) d ≡ r
    → ((o ≡ none) × (m d ≡ r)) ⊎ ((a : A) × (o ≡ some a) × (k a d ≡ r))
option_branch none m k d h = inl (refl, h)
option_branch (some a) m k d h = inr (a, refl, h)

pub lift-same :
    {A : Type 0} (r : ObjectFileResult A) (d : Disk) {a : A} {d' : Disk}
    → lift r d ≡ (ok a, d')
    → (r ≡ ok a) × (d' ≡ d)
lift-same r d h = (ap (λ x. x.0) h, ap (λ x. x.1) (sym h))

pub same_path_self : (p : FilePath) → same_path p p ≡ true
same_path_self p = (text_eq.same_iff p p).1 refl

pub same_path_no : (p q : FilePath) → same_path p q ≡ false → p ≢ q
same_path_no p q h e = cc (same_path_self p)

pub same_path_sym : (p q : FilePath) → same_path p q ≡ false → same_path q p ≡ false
same_path_sym p q h = elim (Bool-cases (same_path q p)) [
  | inl same ↦ absurd (same_path_no p q h (sym ((text_eq.same_iff q p).0 same)))
  | inr apart ↦ apart
]

zeros_behind :
    (cs : ℕ) (bs old : Bytes)
    → length old ≤ cs
    → drop cs (old ++ (replicate (cs - length old) 0 ++ bs)) ≡ bs
zeros_behind cs bs old h =
    let n : cs ≡ length old + length (replicate (cs - length old) 0) = grind (sizes) in
    ap (λ k. drop k (old ++ (replicate (cs - length old) 0 ++ bs))) n
    ∙ drop-append_two old (replicate (cs - length old) 0) bs

-- A write at or behind the end.
write_bytes_end :
    (p b : ℕ) (bs old : Bytes)
    → length old ≤ p
    → write_bytes p (b ∷ bs) old ≡ old ++ (replicate (p - length old) 0 ++ (b ∷ bs))
unfolding write_bytes
write_bytes_end p b bs old h =
    let nonempty : (length (b ∷ bs) == 0) ≡ false = ground arith in
    rw
      (
        nonempty,
        take_beyond p old h,
        drop_beyond (p + length (b ∷ bs)) old (omega arith),
        append-nil (b ∷ bs),
      )
      refl

-- A write at the end of the bytes behind an offset adds to them, also where the file does not reach that far.
pub write_bytes-append :
    (cs : ℕ) (bs content old : Bytes)
    → drop cs old ≡ content
    → drop cs (write_bytes (cs + length content) bs old) ≡ content ++ bs
unfolding write_bytes
write_bytes-append cs [] content old h = h ∙ sym (append-nil content)
write_bytes-append cs (b ∷ bs) content old h =
    let behind : length content ≡ length old - cs = ap length (sym h) ∙ length-drop cs old in
    elim (Bool-cases (leb cs (length old))) [
      | inl reaches ↦
          let within : cs ≤ length old = ground arith in
          let gap : cs + length content - length old ≡ 0 = omega arith in
          rw
            (
              write_bytes_end (cs + length content) b bs old (omega arith),
              gap,
              drop_within cs old (b ∷ bs) within,
              h,
            )
            refl
      | inr short ↦
          let over : length old ≤ cs = ground arith in
          let none_yet : content ≡ [] = sym h ∙ drop_beyond cs old over in
          let at_start : cs + length content ≡ cs = omega arith in
          rw (write_bytes_end (cs + length content) b bs old (omega arith), at_start, none_yet)
            (zeros_behind cs (b ∷ bs) old over)
    ]

-- A write at the start replaces as many bytes as it has.
pub write_bytes_start : (bs old : Bytes) → write_bytes 0 bs old ≡ bs ++ drop (length bs) old
unfolding write_bytes
write_bytes_start [] old = refl
write_bytes_start (b ∷ bs) old =
    let nonempty : (length (b ∷ bs) == 0) ≡ false = ground arith in
    let no_gap : 0 - length old ≡ 0 = omega arith in
    let whole : 0 + length (b ∷ bs) ≡ length (b ∷ bs) = omega arith in
    rw (nonempty, no_gap, whole) refl

module _ (os : System) where
  pub create_new-ok :
      (p : FilePath) (d : Disk) {h : Handle} {d' : Disk}
      → create_new os p d ≡ (ok h, d')
      → (d.names p ≡ none)
        × (h ≡ record { id = d.next; position = 0 })
        × (d' ≡ record (set_name p (some d.next) (set_bytes d.next [] d)) { next = d.next + 1 })
  unfolding create_new
  create_new-ok p d h = ground arith

  pub create_new-err :
      (p : FilePath) (d : Disk) {e : ObjectFileError} {d' : Disk}
      → create_new os p d ≡ (err e, d')
      → d' ≡ d
  unfolding create_new
  create_new-err p d h = ground arith

  pub create_new_total : (p : FilePath) (d d' : Disk) → create_new os p d ≢ (panicked, d')
  unfolding create_new
  create_new_total p d d' h = ground arith

  -- A write that is accepted.
  pub write_file-ok :
      (bs : Bytes) (h : Handle) (d : Disk) {h' : Handle} {d' : Disk}
      → write_file os bs h d ≡ (ok h', d')
      → (h' ≡ record h { position = h.position + length bs })
        × (d' ≡ set_bytes h.id (write_bytes h.position bs (d.bytes_of h.id)) d)
  unfolding write_file
  write_file-ok bs h d e = ground arith

  pub rename_file-ok :
      (from to : FilePath) (id : ℕ) (d : Disk) {u : Unit {0}} {d' : Disk}
      → d.names from ≡ some id
      → rename_file os from to d ≡ (ok u, d')
      → d' ≡ set_name to (some id) (set_name from none d)
  unfolding rename_file
  rename_file-ok from to id d h e = ground arith

  pub open_file-found :
      (writable : Bool) (p : FilePath) (id : ℕ) (d : Disk)
      → d.names p ≡ some id
      → os.refuses_open writable p ≡ none
      → open_file os writable p d ≡ (ok (record { id = id; position = 0 }), d)
  unfolding open_file
  open_file-found writable p id d found allowed = ground arith

  pub open_file-absent :
      (writable : Bool) (p : FilePath) (d : Disk)
      → d.names p ≡ none
      → open_file os writable p d ≡ (err (io not_found), d)
  unfolding open_file
  open_file-absent writable p d absent = ground arith
