-- ===== src/Object/Removal.antt =====
-- Removal from an `AstarteObject`: `swap_remove` moves the last entry, and the map does not see it.
use astarte_device_sdk_rust.Common.{
  ℕ, suc, ◌≡◌, refl, sym, subst, ◌⊎◌, inl, inr, false, none, some, List, [], ◌∷◌, arith,
  if◌then◌else◌, Bool-cases, nat_eq, Str, str_beq, str_beq_iff, str_eq, option_eq, int_eq,
}
use astarte_device_sdk_rust.Object.{
  AstarteObject, find, get, remove, position, swap_remove, split_last,
}
use astarte_device_sdk_rust.Object.Laws.{IsFresh, IsUnique}

module _ {ℓ} {V : Type ℓ} where
  -- The entries of a list with its last one in front.
  abbrev rotated : Str × V → List (Str × V) → List (Str × V)
  rotated e l = (split_last e l).1 ∷ (split_last e l).0

  rotated-IsFresh :
      (i : Str) (e : Str × V) (l : List (Str × V)) → IsFresh i (e ∷ l) → IsFresh i (rotated e l)
  unfolding split_last
  rotated-IsFresh i (k, v) [] h = h
  rotated-IsFresh i (k, v) (e' ∷ l) h = let r = rotated-IsFresh i e' l h.1 in (r.0, (h.0, r.1))

  rotated-IsUnique : (e : Str × V) (l : List (Str × V)) → IsUnique (e ∷ l) → IsUnique (rotated e l)
  unfolding split_last
  rotated-IsUnique (k, v) [] u = u
  rotated-IsUnique (k, v) (e' ∷ l) u =
      let r = rotated-IsFresh k e' l u.0 in
      let q = rotated-IsUnique e' l u.1 in
      (
        (
          ground (
            arith,
            r.0,
            str_beq_iff k (split_last e' l).1.0,
            str_beq_iff (split_last e' l).1.0 k,
          ),
          q.0,
        ),
        (r.1, q.1),
      )

  find-rotated :
      (j : Str) (e : Str × V) (l : List (Str × V))
      → IsUnique (e ∷ l)
      → find j (rotated e l) ≡ find j (e ∷ l)
  unfolding find split_last
  find-rotated j (k, v) [] u = refl
  find-rotated j (k, v) (e' ∷ l) u =
      let r = rotated-IsFresh k e' l u.0 in
      ground (
        arith,
        find-rotated j e' l u.1,
        r.0,
        str_beq_iff k j,
        str_beq_iff (split_last e' l).1.0 j,
        str_beq_iff (split_last e' l).1.0 k,
      )

  -- What `position` and `swap_remove` do together on a list with unique keys.
  record Removes (k : Str) (l : List (Str × V)) (v : V) (l' : List (Str × V)) : Type ℓ where
    found : find k l ≡ some v
    others : (j : Str) → find j l' ≡ (if str_beq k j then none else find j l)
    fresh : (i : Str) → IsFresh i l → IsFresh i l'
    unique : IsUnique l'

  find-fresh : (k : Str) (l : List (Str × V)) → IsFresh k l → find k l ≡ none
  unfolding find
  find-fresh k [] h = refl
  find-fresh k ((i, w) ∷ l) h = ground (arith, find-fresh k l h.1)

  head-Removes :
      (k : Str) (v : V) (l : List (Str × V))
      → IsUnique ((k, v) ∷ l)
      → (l' : List (Str × V)) × (swap_remove 0 ((k, v) ∷ l) ≡ some ((k, v), l'))
        × Removes k ((k, v) ∷ l) v l'
  unfolding swap_remove find
  head-Removes k v [] u = (
    [],
    refl,
    record {
      found = ground (arith, str_beq_iff k k);
      others = λ j. ground arith;
      fresh = λ i h. tt;
      unique = tt;
    },
  )
  head-Removes k v (e ∷ l) u = (
    rotated e l,
    refl,
    record {
      found = ground (arith, str_beq_iff k k);
      others =
          λ j. ground (arith, find-rotated j e l u.1, str_beq_iff k j, find-fresh k (e ∷ l) u.0);
      fresh = λ i h. rotated-IsFresh i e l h.1;
      unique = rotated-IsUnique e l u.1;
    },
  )

  -- The key of the entry that goes is another one than the head's.
  cons-Removes :
      (k m : Str) (w v : V) (l l' : List (Str × V))
      → IsUnique ((m, w) ∷ l)
      → str_beq m k ≡ false
      → Removes k l v l'
      → Removes k ((m, w) ∷ l) v ((m, w) ∷ l')
  unfolding find
  cons-Removes k m w v l l' u ne r = record {
    found = ground (arith, r.found);
    others = λ j. ground (arith, r.others j, str_beq_iff m k, str_beq_iff m j, str_beq_iff k j);
    fresh = λ i h. (h.0, r.fresh i h.1);
    unique = (r.fresh m u.0, r.unique);
  }

  abbrev Removed : Str → List (Str × V) → Type ℓ
  Removed k l =
      (i : ℕ) × (e : Str × V) × (l' : List (Str × V)) × (position k l ≡ some i)
      × (swap_remove i l ≡ some (e, l'))
      × Removes k l e.1 l'

  here-Removed :
      (k : Str) (v : V) (l : List (Str × V)) → IsUnique ((k, v) ∷ l) → Removed k ((k, v) ∷ l)
  unfolding position
  here-Removed k v l u =
      let (l', s, r) = head-Removes k v l u in
      (0, (k, v), l', ground (arith, str_beq_iff k k), s, r)

  position-Removes :
      (k : Str) (l : List (Str × V))
      → IsUnique l
      → ((position k l ≡ none) × IsFresh k l) ⊎ Removed k l
  unfolding position swap_remove
  position-Removes k [] u = inl (refl, tt)
  position-Removes k ((m, w) ∷ l) u = elim (Bool-cases (str_beq m k)) [
    | inl same ↦ inr (
        subst (λ (x : Str). Removed x ((m, w) ∷ l)) ((str_beq_iff m k).0 same)
          (here-Removed m w l u))
    | inr ne ↦ elim (position-Removes k l u.1) [
      | inl (p, f) ↦ inl (rw (ne, p) refl, (ne, f))
      | inr (i, e, l', p, s, r) ↦
          inr
            (suc i, e, (m, w) ∷ l', rw (ne, p) refl, rw s refl, cons-Removes k m w e.1 l l' u ne r)
    ]
  ]

  -- From an object with unique keys `remove` returns the value of the name, if it has one; then the
  -- name has none, every other name keeps its value, and the keys are still unique.
  pub remove-get :
      (o : AstarteObject V) (k : Str)
      → IsUnique o.inner
      → ((remove o k).0 ≡ get o k)
        × ((j : Str) → get (remove o k).1 j ≡ (if str_beq k j then none else get o j))
        × IsUnique (remove o k).1.inner
  unfolding remove get
  remove-get o k u = elim (position-Removes k o.inner u) [
    | inl (p, f) ↦
        rw (p, remove)
          (
            ground (arith, find-fresh k o.inner f),
            (λ j. ground (arith, find-fresh k o.inner f, str_beq_iff k j)),
            u,
          )
    | inr (i, (n, v), l', p, s, r) ↦
        rw (p, remove) (rw (s, remove) (sym r.found, r.others, r.unique))
  ]
