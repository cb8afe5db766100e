-- ===== src/Common/Selection.antt =====
-- The entries of a map that pass a test, in order: the first of them is found under its key, and
-- changing it so that it fails the test, or removing it, leaves the others.
use mathlib.Core.Path.{◌≡◌, refl, subst}
use mathlib.Core.Bool.{Bool, true, false}
use mathlib.Core.Option.{some}
use mathlib.Core.Logic.{inl, inr}
use astarte_device_sdk_rust.Common.Tests.{Bool-cases}
use mathlib.Core.List.{List, [], ◌∷◌}
use native.Mathlib.Omega.{arith}
use astarte_device_sdk_rust.Common.Keys.{Eq, ◌==◌}
use astarte_device_sdk_rust.Common.Lists.{retain, All}
use astarte_device_sdk_rust.Common.Map.{lookup, remove, modify, IsMissing, HasUniqueKeys}

module _ {K V : Type 0} ⦃e : Eq K⦄ (p : K × V → Bool) where
  selected-differs :
      (j k : K) (v : V) (m rest : List (K × V))
      → IsMissing j m
      → retain p m ≡ (k, v) ∷ rest
      → (j == k) ≡ false
  selected-differs j k v [] rest a h = ground (arith, h)
  selected-differs j k v ((i, w) ∷ m) rest a h =
      ground (
        arith,
        a,
        h,
        selected-differs j k v m rest a.1,
        e.beq_iff i j,
        e.beq_iff j k,
        e.beq_iff i k,
      )

  remove-missing : (k : K) (m : List (K × V)) → IsMissing k m → remove k m ≡ m
  unfolding remove
  remove-missing k [] a = refl
  remove-missing k ((i, w) ∷ m) a = ground (arith, remove-missing k m a.1, a.0)

  pub lookup-selected :
      (k : K) (v : V) (m rest : List (K × V))
      → HasUniqueKeys m
      → retain p m ≡ (k, v) ∷ rest
      → lookup k m ≡ some v
  unfolding lookup
  lookup-selected k v [] rest u h = ground (arith, h)
  lookup-selected k v ((i, w) ∷ m) rest u h = ground (
    arith,
    u,
    h,
    lookup-selected k v m rest u.1,
    selected-differs i k v m rest u.0,
    e.beq_iff i k,
  )

  pub remove-selected :
      (k : K) (v : V) (m rest : List (K × V))
      → HasUniqueKeys m
      → retain p m ≡ (k, v) ∷ rest
      → retain p (remove k m) ≡ rest
  unfolding remove
  remove-selected k v [] rest u h = ground (arith, h)
  remove-selected k v ((i, w) ∷ m) rest u h = ground (
    arith,
    u,
    h,
    remove-selected k v m rest u.1,
    remove-missing i m u.0,
    selected-differs i k v m rest u.0,
    e.beq_iff i k,
  )

  pub modify-selected :
      (k : K) (v : V) (f : V → V) (m rest : List (K × V))
      → HasUniqueKeys m
      → retain p m ≡ (k, v) ∷ rest
      → p (k, f v) ≡ false
      → retain p (modify k f m) ≡ rest
  unfolding modify
  modify-selected k v f [] rest u h q = ground (arith, h)
  modify-selected k v f ((i, w) ∷ m) rest u h q = ground (
    arith,
    u,
    h,
    q,
    modify-selected k v f m rest u.1,
    selected-differs i k v m rest u.0,
    e.beq_iff i k,
  )

  missing-selected :
      (k : K) (m : List (K × V)) → IsMissing k m → All (λ x. (x.0 == k) ≡ false) (retain p m)
  missing-selected k [] a = tt
  missing-selected k ((i, w) ∷ m) a =
      ground (arith, a, missing-selected k m a.1, e.beq_iff i k, e.beq_iff k i)

  same-IsMissing : (i k : K) (m : List (K × V)) → (i == k) ≡ true → IsMissing i m → IsMissing k m
  same-IsMissing i k m h a = subst (λ (j : K). IsMissing j m) ((e.beq_iff i k).0 h) a

  head-selected :
      (i k : K) (f : V → V) (w v : V) (m : List (K × V))
      → (i == k) ≡ true
      → lookup k ((i, w) ∷ m) ≡ some v
      → p (k, f v) ≡ false
      → IsMissing i m
      → All (λ x. (x.0 == k) ≡ false) (retain p (modify k f ((i, w) ∷ m)))
  unfolding lookup modify
  head-selected i k f w v m h l q a =
      ground (arith, h, l, q, (e.beq_iff i k).0 h, missing-selected k m (same-IsMissing i k m h a))

  -- Changing an entry so that it fails the test leaves no entry of its key.
  pub modify-unselected :
      (k : K) (f : V → V) (v : V) (m : List (K × V))
      → HasUniqueKeys m
      → lookup k m ≡ some v
      → p (k, f v) ≡ false
      → All (λ x. (x.0 == k) ≡ false) (retain p (modify k f m))
  unfolding lookup modify
  modify-unselected k f v [] u l q = tt
  modify-unselected k f v ((i, w) ∷ m) u l q = elim (Bool-cases (i == k)) [
    | inl h ↦ head-selected i k f w v m h l q u.0
    | inr h ↦ ground (arith, h, l, modify-unselected k f v m u.1)
  ]
