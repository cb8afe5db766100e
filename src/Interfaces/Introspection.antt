-- ===== src/Interfaces/Introspection.antt =====
-- The introspection that a change of the interfaces announces, against the collection that the change
-- leaves behind.
use astarte_device_sdk_rust.Common.{
  ◌+◌, ◌≡◌, refl, sym, Bool, true, not, none, some, List, [], ◌∷◌, ◌++◌, arith, if◌then◌else◌,
  retain, count, ok, eq_refl, nat_eq, Str, str_beq, str_beq_iff, str_eq, option_eq, int_eq,
}
use astarte_device_sdk_rust.Common.Map.{
  lookup, insert, remove, IsMissing, HasUniqueKeys, insert-HasUniqueKeys, remove-HasUniqueKeys,
  lookup-insert,
}
use astarte_device_sdk_rust.Foreign.{InterfaceApi}
use astarte_device_sdk_rust.Interfaces.{
  Interfaces, Validated, values, add, validate, remove_many, iter_with_added, iter_without_removed,
}

module _ {I M : Type 0} (api : InterfaceApi I M) where
  -- Each interface stands under its name.
  abbrev pub IsNamed : Interfaces I → Type 0
  IsNamed [] = Unit
  IsNamed ((k, i) ∷ m) = (k ≡ api.interface_name i) × IsNamed m

  abbrev pub has_name : Str → I → Bool
  has_name name i = str_beq (api.interface_name i) name

  -- A collection as the program builds it.
  pub record IsProper (m : Interfaces I) : Type 0 where
    pub named : IsNamed m
    pub unique : HasUniqueKeys m

  insert-IsNamed :
      (i : I) (m : Interfaces I) → IsNamed m → IsNamed (insert (api.interface_name i) i m)
  unfolding insert
  insert-IsNamed i [] h = (refl, tt)
  insert-IsNamed i ((k, w) ∷ m) h = ground (arith, insert-IsNamed i m h.1)

  remove-IsNamed : (name : Str) (m : Interfaces I) → IsNamed m → IsNamed (remove name m)
  unfolding remove
  remove-IsNamed name [] h = tt
  remove-IsNamed name ((k, w) ∷ m) h = ground (arith, remove-IsNamed name m h.1)

  pub add-IsProper : (m : Interfaces I) (v : Validated I) → IsProper m → IsProper (add api m v)
  unfolding add
  add-IsProper m v h = record {
    named = insert-IsNamed v.interface m h.named;
    unique = insert-HasUniqueKeys (api.interface_name v.interface) v.interface m h.unique;
  }

  -- Removing interfaces keeps one interface for each name, under its own name.
  pub remove_many-IsProper :
      (m : Interfaces I) (names : List Str) → IsProper m → IsProper (remove_many api m names)
  unfolding remove_many
  remove_many-IsProper m [] h = h
  remove_many-IsProper m (name ∷ rest) h = remove_many-IsProper (remove name m) rest (record {
    named = remove-IsNamed name m h.named;
    unique = remove-HasUniqueKeys name m h.unique;
  })

  insert-missing :
      (i : I) (m : Interfaces I)
      → IsMissing (api.interface_name i) m
      → values (insert (api.interface_name i) i m) ≡ values m ++ i ∷ []
  unfolding insert
  insert-missing i [] h = refl
  insert-missing i ((k, w) ∷ m) h = ground (arith, insert-missing i m h.1)

  -- Where no interface has the name of the added one, the announced interfaces are the collection
  -- after the addition.
  pub iter_with_added-values :
      (m : Interfaces I) (v : Validated I)
      → IsMissing (api.interface_name v.interface) m
      → iter_with_added api m v ≡ values (add api m v)
  unfolding iter_with_added add
  iter_with_added-values m v h = sym (insert-missing v.interface m h)

  without-values :
      (name : Str) (m : Interfaces I)
      → IsNamed m
      → retain (λ i. not (has_name name i)) (values m) ≡ values (remove name m)
  unfolding remove
  without-values name [] h = refl
  without-values name ((k, w) ∷ m) h = ground (arith, without-values name m h.1)

  -- The interfaces announced for a removal are the collection after it.
  pub iter_without_removed-values :
      (m : Interfaces I) (removed : I)
      → IsProper m
      → iter_without_removed api m removed
        ≡ values (remove_many api m (api.interface_name removed ∷ []))
  unfolding iter_without_removed remove_many
  iter_without_removed-values m removed h = without-values (api.interface_name removed) m h.named

  count-append :
      (p : I → Bool) (l : List I) (i : I)
      → count p (l ++ i ∷ []) ≡ count p l + (if p i then 1 else 0)
  count-append p [] i = ground arith
  count-append p (x ∷ l) i = ground (arith, count-append p l i)

  count-missing :
      (name : Str) (m : Interfaces I)
      → IsNamed m
      → IsMissing name m
      → count (has_name name) (values m) ≡ 0
  count-missing name [] h a = refl
  count-missing name ((k, w) ∷ m) h a =
      ground (arith, count-missing name m h.1 a.1, str_beq_iff k name)

  count-present :
      (name : Str) (prev : I) (m : Interfaces I)
      → IsNamed m
      → HasUniqueKeys m
      → lookup name m ≡ some prev
      → count (has_name name) (values m) ≡ 1
  unfolding lookup
  count-present name prev [] h u e = cc
  count-present name prev ((k, w) ∷ m) h u e =
      ground (
        arith,
        count-present name prev m h.1 u.1,
        count-missing k m h.1 u.0,
        str_beq_iff k name,
        h.0,
      )

  -- An interface that replaces another version of itself is announced next to the version that it
  -- replaces: the announced interfaces hold its name twice, the collection after the addition once.
  pub iter_with_added-twice :
      (m : Interfaces I) (v : Validated I) (prev : I)
      → IsProper m
      → lookup (api.interface_name v.interface) m ≡ some prev
      → (count (has_name (api.interface_name v.interface)) (iter_with_added api m v) ≡ 2)
        × (count (has_name (api.interface_name v.interface)) (values (add api m v)) ≡ 1)
  unfolding iter_with_added
  iter_with_added-twice m v prev h e =
      let name = api.interface_name v.interface in
      let after = add-IsProper m v h in
      (
        ground (
          arith,
          count-append (has_name name) (values m) v.interface,
          count-present name prev m h.named h.unique e,
          str_beq_iff name name,
        ),
        count-present name v.interface (add api m v) after.named after.unique
            (unfold add in rw (lookup-insert name name v.interface m, eq_refl name) refl),
      )

  -- A validated interface that was added is found unchanged when it is validated again, if the
  -- crate's equality is reflexive there.
  pub validate-add :
      (m : Interfaces I) (v : Validated I)
      → api.same v.interface v.interface ≡ true
      → validate api (add api m v) v.interface ≡ ok none
  unfolding validate add
  validate-add m v h =
      let name = api.interface_name v.interface in
      ground (arith, lookup-insert name name v.interface m, str_beq_iff name name)
