-- ===== src/Tags/Ops.antt =====
-- The map operations of tags.rs.
use tux_io_encoding.Prelude.{
  ◌≡◌, refl, ◌∙◌, inl, inr, not, none, some, arith, if◌then◌else◌, Bool-cases, Option-cases,
}
use tux_io_encoding.Value.{ValueType}
use tux_io_encoding.Map.{lookup, put, contains_key, IsMap}
use tux_io_encoding.Map.Laws.{lookup-put, put-IsMap, lookup-delete}
use tux_io_encoding.Tags.{TagKeyType, Tags, insert, get, remove, insert_if_absent}

module _ {K : Type 0} (key : TagKeyType K) where
  -- In a map without repeated keys: removing a key that was just inserted returns the value, and leaves what removing it
  -- from the map before would have left, at every key.
  pub remove-insert :
      (tags : Tags K) (k j : K) (v : ValueType)
      → IsMap key.eq tags
      → ((remove key k (insert key k v tags).1).0 ≡ some v)
        × (get key j (remove key k (insert key k v tags).1).1 ≡ get key j (remove key k tags).1)
        × (get key k (remove key k tags).1 ≡ none)
  unfolding remove insert get
  remove-insert tags k j v valid = ground (
    arith,
    put-IsMap key.eq k v tags valid,
    lookup-put key.eq k k v tags,
    lookup-put key.eq k j v tags,
    lookup-delete key.eq k j (put key.eq k v tags),
    lookup-delete key.eq k j tags valid,
    lookup-delete key.eq k k tags valid,
    key.eq.same_iff k k,
  )

  same_or_new :
      (tags : Tags K) (k j : K) (v : ValueType)
      → lookup key.eq k tags ≡ none
      → lookup key.eq j (put key.eq k v tags) ≡ elim (lookup key.eq j tags) [
        | some w ↦ some w
        | none ↦ if key.eq.same k j then some v else none
      ]
  same_or_new tags k j v missing = elim (Option-cases (lookup key.eq j tags)) [
    | inl e ↦ lookup-put key.eq k j v tags ∙ rw e refl
    | inr (w, e) ↦ (elim (Bool-cases (key.eq.same k j)) [
      | inr differs ↦ lookup-put key.eq k j v tags ∙ rw (differs, e) refl
      | inl same ↦ (let eq : k ≡ j = (key.eq.same_iff k j).0 same in cc (rw eq at missing, e))
    ])
  ]

  kept :
      (tags : Tags K) (k j : K) (v old : ValueType)
      → lookup key.eq k tags ≡ some old
      → lookup key.eq j tags ≡ elim (lookup key.eq j tags) [
        | some w ↦ some w
        | none ↦ if key.eq.same k j then some v else none
      ]
  kept tags k j v old found = elim (Option-cases (lookup key.eq j tags)) [
    | inr (w, e) ↦ rw e refl
    | inl e ↦ (elim (Bool-cases (key.eq.same k j)) [
      | inr differs ↦ rw (e, differs) refl
      | inl same ↦ (let eq : k ≡ j = (key.eq.same_iff k j).0 same in cc (rw eq at found))
    ])
  ]

  -- `insert_if_absent` reports whether the key was missing; afterwards every key that had a value has it still, and the key
  -- has the new value if it had none.
  pub insert_if_absent-get :
      (tags : Tags K) (k j : K) (v : ValueType)
      → ((insert_if_absent key k v tags).0 ≡ not (contains_key key.eq k tags))
        × (get key j (insert_if_absent key k v tags).1 ≡ elim (get key j tags) [
          | some w ↦ some w
          | none ↦ if key.eq.same k j then some v else none
        ])
  unfolding insert_if_absent get contains_key
  insert_if_absent-get tags k j v = elim (Option-cases (lookup key.eq k tags)) [
    | inl missing ↦ (
      rw (insert_if_absent, contains_key, missing) refl,
      rw (insert_if_absent, missing) (same_or_new tags k j v missing),
    )
    | inr (old, found) ↦ (
      rw (insert_if_absent, contains_key, found) refl,
      rw (insert_if_absent, found) (kept tags k j v old found),
    )
  ]
