-- ===== src/Object.antt =====
-- src/aggregate.rs: `AstarteObject`, the map from names to values that is sent on an interface with
-- object aggregation. It keeps its entries in a vector; the values are of any type.
pub mod Laws
pub mod Removal
use astarte_device_sdk_rust.Common.{
  [], ℕ, zero, suc, Bool, true, false, Option, none, some, List, ◌∷◌, ◌++◌, if◌then◌else◌, length,
  ◌==◌, nat_eq, Str, str_eq, option_eq, int_eq,
}

pub record AstarteObject {ℓ} (V : Type ℓ) : Type ℓ where
  pub inner : List (Str × V)

module _ {ℓ} {V : Type ℓ} where
  unfoldable pub new : AstarteObject V
  new = record { inner = [] }

  -- The first entry of that name gets the value, which replaces the old one.
  unfoldable pub replace : Str → V → List (Str × V) → Option (V × List (Str × V))
  replace key value [] = none
  replace key value ((item, old) ∷ rest) =
      let later = replace key value rest in
      if item == key
      then some (old, (item, value) ∷ rest)
      else elim later [ none ↦ none | some (v, rest') ↦ some (v, (item, old) ∷ rest') ]

  unfoldable pub insert : AstarteObject V → Str → V → Option V × AstarteObject V
  insert o key value = elim (replace key value o.inner) [
    | some (old, inner) ↦ (some old, record { inner = inner })
    | none ↦ (none, record { inner = o.inner ++ (key, value) ∷ [] })
  ]

  unfoldable pub find : Str → List (Str × V) → Option V
  find name [] = none
  find name ((item, value) ∷ rest) = if item == name then some value else find name rest

  unfoldable pub get : AstarteObject V → Str → Option V
  unfolding find
  get o name = find name o.inner

  -- `Iterator::position`.
  unfoldable pub position : Str → List (Str × V) → Option ℕ
  position name [] = none
  position name ((item, value) ∷ rest) =
      let later = position name rest in
      if item == name then some 0 else elim later [ none ↦ none | some i ↦ some (suc i) ]

  split_last : Str × V → List (Str × V) → List (Str × V) × (Str × V)
  split_last e [] = ([], e)
  split_last e (e' ∷ rest) = let (front, last) = split_last e' rest in (e ∷ front, last)

  -- `Vec::swap_remove`: the last entry takes the place of the one that is taken out.
  unfoldable pub swap_remove : ℕ → List (Str × V) → Option ((Str × V) × List (Str × V))
  unfolding split_last
  swap_remove i [] = none
  swap_remove zero (e ∷ []) = some (e, [])
  swap_remove zero (e ∷ e' ∷ rest) =
      let (front, last) = split_last e' rest in some (e, last ∷ front)
  swap_remove (suc i) (e ∷ rest) =
      let later = swap_remove i rest in
      elim later [ none ↦ none | some (x, rest') ↦ some (x, e ∷ rest') ]

  unfoldable pub remove : AstarteObject V → Str → Option V × AstarteObject V
  remove o name = elim (position name o.inner) [
    | none ↦ (none, o)
    | some i ↦ elim (swap_remove i o.inner) [
      | none ↦ (none, o)
      | some ((n, value), inner) ↦ (some value, record { inner = inner })
    ]
  ]

  unfoldable pub len : AstarteObject V → ℕ
  len o = length o.inner

  unfoldable pub is_empty : AstarteObject V → Bool
  is_empty o = elim o.inner [ [] ↦ true | _ ∷ _ ↦ false ]
