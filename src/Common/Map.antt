-- ===== src/Common/Map.antt =====
-- A `HashMap` as an association list. Insertion overwrites in place or appends, removal drops every
-- entry of the key; the order in which a hash map is iterated is that of the list.
use mathlib.Core.Path.{◌≡◌, refl}
use mathlib.Core.Bool.{false}
use mathlib.Core.Option.{Option, none, some}
use mathlib.Core.List.{List, [], ◌∷◌}
use native.Mathlib.Omega.{arith}
use astarte_device_sdk_rust.Common.Tests.{if◌then◌else◌}
use astarte_device_sdk_rust.Common.Keys.{Eq, ◌==◌}

abbrev pub apply_to {κ} : {V : Type κ} → (V → V) → Option V → Option V
apply_to f none = none
apply_to f (some v) = some (f v)

module _ {ℓ κ} {K : Type ℓ} {V : Type κ} ⦃e : Eq K⦄ where
  unfoldable pub lookup : K → List (K × V) → Option V
  lookup k [] = none
  lookup k ((key, value) ∷ rest) = if key == k then some value else lookup k rest

  unfoldable pub insert : K → V → List (K × V) → List (K × V)
  insert k v [] = (k, v) ∷ []
  insert k v ((key, value) ∷ rest) =
      if key == k then (k, v) ∷ rest else (key, value) ∷ insert k v rest

  unfoldable pub remove : K → List (K × V) → List (K × V)
  remove k [] = []
  remove k ((j, v) ∷ m) = let rest = remove k m in if j == k then rest else (j, v) ∷ rest

  -- `get_mut` and an assignment through it.
  unfoldable pub modify : K → (V → V) → List (K × V) → List (K × V)
  modify k f [] = []
  modify k f ((j, v) ∷ m) = if j == k then (j, f v) ∷ m else (j, v) ∷ modify k f m

  -- No entry has the key.
  abbrev pub IsMissing : K → List (K × V) → Type 0
  IsMissing k [] = Unit
  IsMissing k ((j, v) ∷ m) = ((j == k) ≡ false) × IsMissing k m

  -- The keys are different, as they are in a hash map.
  abbrev pub HasUniqueKeys : List (K × V) → Type 0
  HasUniqueKeys [] = Unit
  HasUniqueKeys ((j, v) ∷ m) = IsMissing j m × HasUniqueKeys m

  pub lookup-insert :
      (new other : K) (v : V) (m : List (K × V))
      → lookup other (insert new v m) ≡ (if new == other then some v else lookup other m)
  unfolding insert lookup
  lookup-insert new other v [] = refl
  lookup-insert new other v ((key, value) ∷ rest) = ground (
    arith,
    e.beq_iff new other,
    e.beq_iff key new,
    e.beq_iff key other,
    lookup-insert new other v rest,
  )

  pub lookup-remove :
      (k j : K) (m : List (K × V)) → lookup j (remove k m) ≡ (if k == j then none else lookup j m)
  unfolding lookup remove
  lookup-remove k j [] = ground arith
  lookup-remove k j ((i, w) ∷ m) =
      ground (arith, lookup-remove k j m, e.beq_iff k j, e.beq_iff i k, e.beq_iff i j)

  pub lookup-modify :
      (k j : K) (f : V → V) (m : List (K × V))
      → lookup j (modify k f m) ≡ (if k == j then apply_to f (lookup j m) else lookup j m)
  unfolding lookup modify
  lookup-modify k j f [] = ground arith
  lookup-modify k j f ((i, w) ∷ m) =
      ground (arith, lookup-modify k j f m, e.beq_iff k j, e.beq_iff i k, e.beq_iff i j)

  pub lookup-missing : (k : K) (m : List (K × V)) → IsMissing k m → lookup k m ≡ none
  unfolding lookup
  lookup-missing k [] h = refl
  lookup-missing k ((j, v) ∷ m) h = ground (arith, lookup-missing k m h.1)

  pub insert-IsMissing :
      (k j : K) (v : V) (m : List (K × V))
      → (k == j) ≡ false
      → IsMissing j m
      → IsMissing j (insert k v m)
  unfolding insert
  insert-IsMissing k j v [] h a = (h, tt)
  insert-IsMissing k j v ((i, w) ∷ m) h a = ground (arith, insert-IsMissing k j v m h a.1)

  pub insert-HasUniqueKeys :
      (k : K) (v : V) (m : List (K × V)) → HasUniqueKeys m → HasUniqueKeys (insert k v m)
  unfolding insert
  insert-HasUniqueKeys k v [] u = (tt, tt)
  insert-HasUniqueKeys k v ((i, w) ∷ m) u = ground (
    arith,
    insert-HasUniqueKeys k v m u.1,
    insert-IsMissing k i v m,
    e.beq_iff k i,
    e.beq_iff i k,
    u.0,
  )

  pub remove-IsMissing : (k j : K) (m : List (K × V)) → IsMissing j m → IsMissing j (remove k m)
  unfolding remove
  remove-IsMissing k j [] a = tt
  remove-IsMissing k j ((i, w) ∷ m) a = ground (arith, remove-IsMissing k j m a.1)

  pub remove-HasUniqueKeys :
      (k : K) (m : List (K × V)) → HasUniqueKeys m → HasUniqueKeys (remove k m)
  unfolding remove
  remove-HasUniqueKeys k [] u = tt
  remove-HasUniqueKeys k ((i, w) ∷ m) u =
      ground (arith, remove-HasUniqueKeys k m u.1, remove-IsMissing k i m u.0)

  pub modify-IsMissing :
      (k j : K) (f : V → V) (m : List (K × V)) → IsMissing j m → IsMissing j (modify k f m)
  unfolding modify
  modify-IsMissing k j f [] a = tt
  modify-IsMissing k j f ((i, w) ∷ m) a = ground (arith, modify-IsMissing k j f m a.1)

  pub modify-HasUniqueKeys :
      (k : K) (f : V → V) (m : List (K × V)) → HasUniqueKeys m → HasUniqueKeys (modify k f m)
  unfolding modify
  modify-HasUniqueKeys k f [] u = tt
  modify-HasUniqueKeys k f ((i, w) ∷ m) u =
      ground (arith, modify-HasUniqueKeys k f m u.1, modify-IsMissing k i f m u.0)
