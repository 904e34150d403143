-- ===== src/Map.antt =====
-- `std::collections::HashMap`, as the list of its entries in the order in which it iterates. That order is not specified:
-- a statement about maps is made for every list without a repeated key.
pub mod Encoded
pub mod Laws
use tux_io_encoding.Prelude.{
  ◌≡◌, ◌↔◌, Bool, true, false, Option, none, some, List, [], ◌∷◌, if◌then◌else◌,
}

pub record KeyEq (K : Type 0) : Type 0 where
  pub same : K → K → Bool
  pub same_iff : (a b : K) → (same a b ≡ true) ↔ (a ≡ b)

abbrev pub HashMap : Type 0 → Type 0 → Type 0
HashMap K V = List (K × V)

module _ {K V : Type 0} (e : KeyEq K) where
  unfoldable pub lookup : K → HashMap K V → Option V
  lookup k [] = none
  lookup k ((j, v) ∷ m) = if e.same j k then some v else lookup k m

  unfoldable pub contains_key : K → HashMap K V → Bool
  contains_key k m = elim (lookup k m) [ none ↦ false | some v ↦ true ]

  -- A new value takes the place of the old one, and a new key goes to the end.
  unfoldable pub put : K → V → HashMap K V → HashMap K V
  put k v [] = (k, v) ∷ []
  put k v ((j, w) ∷ m) = if e.same j k then (j, v) ∷ m else (j, w) ∷ put k v m

  unfoldable pub delete : K → HashMap K V → HashMap K V
  delete k [] = []
  delete k ((j, w) ∷ m) = if e.same j k then m else (j, w) ∷ delete k m

  -- No key is repeated.
  abbrev pub IsMap : HashMap K V → Type 0
  IsMap [] = Unit
  IsMap ((k, v) ∷ m) = (lookup k m ≡ none) × IsMap m
