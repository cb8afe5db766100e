-- ===== src/Object/Laws.antt =====
-- `AstarteObject` is a map with unique keys: insertion, removal and lookup.
use astarte_device_sdk_rust.Common.{
  ◌≡◌, refl, inl, inr, false, none, some, List, [], ◌∷◌, ◌++◌, arith, if◌then◌else◌, Option-cases,
  nat_eq, Str, str_beq, str_beq_iff, str_eq, option_eq, int_eq,
}
use astarte_device_sdk_rust.Object.{AstarteObject, replace, insert, find, get}

module _ {ℓ} {V : Type ℓ} where
  -- No entry has the name.
  abbrev pub IsFresh : Str → List (Str × V) → Type 0
  IsFresh k [] = Unit
  IsFresh k ((i, w) ∷ l) = (str_beq i k ≡ false) × IsFresh k l

  -- The keys of an object are unique.
  abbrev pub IsUnique : List (Str × V) → Type 0
  IsUnique [] = Unit
  IsUnique ((i, w) ∷ l) = IsFresh i l × IsUnique l

  find-append-new :
      (k j : Str) (v : V) (l : List (Str × V))
      → IsFresh k l
      → find j (l ++ (k, v) ∷ []) ≡ (if str_beq k j then some v else find j l)
  unfolding find
  find-append-new k j v [] h = refl
  find-append-new k j v ((i, w) ∷ l) h =
      ground (arith, find-append-new k j v l h.1, str_beq_iff k j, str_beq_iff i j, str_beq_iff i k)

  find-fresh : (k : Str) (l : List (Str × V)) → IsFresh k l → find k l ≡ none
  unfolding find
  find-fresh k [] h = refl
  find-fresh k ((i, w) ∷ l) h = ground (arith, find-fresh k l h.1)

  replace-none : (k : Str) (v : V) (l : List (Str × V)) → replace k v l ≡ none → IsFresh k l
  unfolding replace
  replace-none k v [] h = tt
  replace-none k v ((i, w) ∷ l) h = ground (arith, replace-none k v l)

  find-replace :
      (k j : Str) (v old : V) (l l' : List (Str × V))
      → replace k v l ≡ some (old, l')
      → (find j l' ≡ (if str_beq k j then some v else find j l)) × (find k l ≡ some old)
  unfolding replace find
  find-replace k j v old [] l' h = cc
  find-replace k j v old ((i, w) ∷ l) l' h = elim (Option-cases (replace k v l)) [
    | inl e ↦ ground (arith, str_beq_iff k j, str_beq_iff i j, str_beq_iff i k)
    | inr ((o, r), e) ↦
        ground
          (arith, find-replace k j v o l r e, str_beq_iff k j, str_beq_iff i j, str_beq_iff i k)
  ]

  -- `insert` returns the previous value of the name, and then the name has the new value and every
  -- other name the value that it had.
  pub get-insert :
      (o : AstarteObject V) (k j : Str) (v : V)
      → ((insert o k v).0 ≡ get o k)
        × (get (insert o k v).1 j ≡ (if str_beq k j then some v else get o j))
  unfolding insert get
  get-insert o k j v = elim (Option-cases (replace k v o.inner)) [
    | inl e ↦ ground (
      arith,
      find-append-new k j v o.inner (replace-none k v o.inner e),
      find-fresh k o.inner (replace-none k v o.inner e),
    )
    | inr ((old, l'), e) ↦ ground (arith, find-replace k j v old o.inner l' e)
  ]

  IsFresh-append :
      (k i : Str) (v : V) (l : List (Str × V))
      → IsFresh i l
      → str_beq k i ≡ false
      → IsFresh i (l ++ (k, v) ∷ [])
  IsFresh-append k i v [] h e = (e, tt)
  IsFresh-append k i v ((m, w) ∷ l) h e = (h.0, IsFresh-append k i v l h.1 e)

  IsUnique-append :
      (k : Str) (v : V) (l : List (Str × V))
      → IsUnique l
      → IsFresh k l
      → IsUnique (l ++ (k, v) ∷ [])
  IsUnique-append k v [] u f = (tt, tt)
  IsUnique-append k v ((i, w) ∷ l) u f = (
    IsFresh-append k i v l u.0 (ground (arith, f.0, str_beq_iff i k, str_beq_iff k i)),
    IsUnique-append k v l u.1 f.1,
  )

  replace-IsFresh :
      (k i : Str) (v old : V) (l l' : List (Str × V))
      → replace k v l ≡ some (old, l')
      → IsFresh i l
      → IsFresh i l'
  unfolding replace
  replace-IsFresh k i v old [] l' h f = cc
  replace-IsFresh k i v old ((m, w) ∷ l) l' h f = elim (Option-cases (replace k v l)) [
    | inl e ↦ ground arith
    | inr ((o, r), e) ↦ ground (arith, replace-IsFresh k i v o l r e f.1)
  ]

  replace-IsUnique :
      (k : Str) (v old : V) (l l' : List (Str × V))
      → replace k v l ≡ some (old, l')
      → IsUnique l
      → IsUnique l'
  unfolding replace
  replace-IsUnique k v old [] l' h u = cc
  replace-IsUnique k v old ((m, w) ∷ l) l' h u = elim (Option-cases (replace k v l)) [
    | inl e ↦ ground arith
    | inr ((o, r), e) ↦
        ground (arith, replace-IsUnique k v o l r e u.1, replace-IsFresh k m v o l r e u.0)
  ]

  -- Insertion keeps the keys unique.
  pub insert-IsUnique :
      (o : AstarteObject V) (k : Str) (v : V) → IsUnique o.inner → IsUnique (insert o k v).1.inner
  unfolding insert
  insert-IsUnique o k v u = elim (Option-cases (replace k v o.inner)) [
    | inl e ↦ ground (arith, IsUnique-append k v o.inner u (replace-none k v o.inner e))
    | inr ((old, l'), e) ↦ ground (arith, replace-IsUnique k v old o.inner l' e u)
  ]
