-- ===== src/Map/Laws.antt =====
-- The laws of the map operations.
use tux_io_encoding.Prelude.{
  ◌≡◌, refl, sym, ap, ◌∙◌, inl, inr, true, false, none, some, [], ◌∷◌, ◌++◌, arith, if◌then◌else◌,
  Bool-cases,
}
use tux_io_encoding.Map.{KeyEq, HashMap, lookup, put, delete, IsMap}

module _ {K : Type 0} (e : KeyEq K) where
  pub same_refl : (k : K) → e.same k k ≡ true
  same_refl k = (e.same_iff k k).1 refl

  pub same_comm : (j k : K) → e.same j k ≡ e.same k j
  same_comm j k = elim (Bool-cases (e.same j k)) [
    | inl eq ↦
        let jk = (e.same_iff j k).0 eq in ap (λ x. e.same x k) jk ∙ ap (λ x. e.same k x) (sym jk)
    | inr ne ↦ elim (Bool-cases (e.same k j)) [
      | inl eq ↦
          let kj = (e.same_iff k j).0 eq in ap (λ x. e.same x k) (sym kj) ∙ ap (λ x. e.same k x) kj
      | inr ne' ↦ ne ∙ sym ne'
    ]
  ]

module _ {K V : Type 0} (e : KeyEq K) where
  pub lookup-put :
      (k j : K) (v : V) (m : HashMap K V)
      → lookup e j (put e k v m) ≡ (if e.same k j then some v else lookup e j m)
  unfolding lookup put
  lookup-put k j v [] = refl
  lookup-put k j v ((i, w) ∷ m) =
      ground (arith, e.same_iff i k, e.same_iff k j, e.same_iff i j, lookup-put k j v m)

  pub put-append_new :
      (k : K) (v : V) (m : HashMap K V) → lookup e k m ≡ none → put e k v m ≡ m ++ ((k, v) ∷ [])
  unfolding lookup put
  put-append_new k v [] h = refl
  put-append_new k v ((i, w) ∷ m) h = ground (arith, put-append_new k v m)

  pub put-IsMap : (k : K) (v : V) (m : HashMap K V) → IsMap e m → IsMap e (put e k v m)
  unfolding lookup put
  put-IsMap k v [] h = (refl, tt)
  put-IsMap k v ((i, w) ∷ m) h =
      ground (arith, put-IsMap k v m h.1, lookup-put k i v m, e.same_iff i k, e.same_iff k i)

  pub lookup-delete :
      (k j : K) (m : HashMap K V)
      → IsMap e m
      → lookup e j (delete e k m) ≡ (if e.same k j then none else lookup e j m)
  unfolding lookup delete
  lookup-delete k j [] h = ground arith
  lookup-delete k j ((i, w) ∷ m) h =
      ground (arith, e.same_iff i k, e.same_iff k j, e.same_iff i j, lookup-delete k j m h.1)

  lookup-middle :
      (j k : K) (v : V) (m m' : HashMap K V)
      → lookup e j (m ++ ((k, v) ∷ m')) ≡ none
      → e.same k j ≡ false
  unfolding lookup
  lookup-middle j k v [] m' h = ground arith
  lookup-middle j k v ((i, w) ∷ m) m' h = ground (arith, lookup-middle j k v m m')

  -- A key in the middle of a map is not among those before it.
  pub IsMap-middle :
      (k : K) (v : V) (m m' : HashMap K V) → IsMap e (m ++ ((k, v) ∷ m')) → lookup e k m ≡ none
  unfolding lookup
  IsMap-middle k v [] m' h = refl
  IsMap-middle k v ((i, w) ∷ m) m' h =
      ground (arith, same_comm e i k, lookup-middle i k v m m' h.0, IsMap-middle k v m m' h.1)
