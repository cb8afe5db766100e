-- ===== src/Store/Contract/InMemory.antt =====
-- The store in memory of src/store/memory.rs keeps the promise of `PropertyStore`.
use astarte_device_sdk_rust.Common.{
  ◌≡◌, refl, ◌∙◌, inl, inr, Bool, false, not, Option, none, some, List, [], ◌∷◌, map, arith,
  if◌then◌else◌, Option-cases, retain, Eq, ◌==◌, nat_eq, str_beq, str_eq, option_beq, option_eq,
  int_eq,
}
use astarte_device_sdk_rust.Common.Map.{
  lookup, remove, modify, lookup-insert, lookup-remove, lookup-modify, apply_to,
}
use astarte_device_sdk_rust.Foreign.{Ownership}
use astarte_device_sdk_rust.Store.{StoredProp, PropertyState, PropertyMapping, changed}
use astarte_device_sdk_rust.Store.Memory.{
  Memory, Key, Value, key_eq, key_of, prop_key, store_prop, load_prop, unset_prop, delete_prop,
  update_state, delete_expected_prop, delete_interface, reset_state, unset_value, has_value,
  with_state, clear,
}
use astarte_device_sdk_rust.Store.Contract.{
  Prop, Props, Call, store_call, load_call, unset_call, delete_call, update_state_call,
  delete_expected_call, delete_interface_call, reset_state_call, clear_call, Answer, done, loaded,
  matched, promised, is_value, answers, answers-related,
}

module _ {K V : Type 0} ⦃e : Eq K⦄ where
  pub lookup-retain :
      (p : K → Bool) (k : K) (m : List (K × V))
      → lookup k (retain (λ x. not (p x.0)) m) ≡ (if p k then none else lookup k m)
  unfolding lookup
  lookup-retain p k [] = ground arith
  lookup-retain p k ((j, v) ∷ m) = ground (arith, lookup-retain p k m, e.beq_iff j k)

  pub lookup-map :
      (f : V → V) (k : K) (m : List (K × V))
      → lookup k (map (λ x. (x.0, f x.1)) m) ≡ apply_to f (lookup k m)
  unfolding lookup
  lookup-map f k [] = ground arith
  lookup-map f k ((j, v) ∷ m) = ground (arith, lookup-map f k m)

module _ {V : Type 0} ⦃eq : Eq V⦄ where
  unfoldable pub memory_step : Memory V → Call V → Answer V × Memory V
  unfolding store_prop load_prop unset_prop delete_prop update_state delete_expected_prop
      delete_interface reset_state clear
  memory_step s (store_call p) = (done, store_prop s p)
  memory_step s (load_call p) = let (value, s') = load_prop s p in (loaded value, s')
  memory_step s (unset_call p) = (done, unset_prop s p)
  memory_step s (delete_call p) = (done, delete_prop s p)
  memory_step s (update_state_call p state v) =
      let (same, s') = update_state s p state (some v) in (matched same, s')
  memory_step s (delete_expected_call p v) =
      let (same, s') = delete_expected_prop s p (some v) in (matched same, s')
  memory_step s (delete_interface_call name) = (done, delete_interface s name)
  memory_step s (reset_state_call owner) = (done, reset_state s owner)
  memory_step s clear_call = (done, clear s)

  -- The property of an entry that has a value.
  abbrev pub entry_view : Option (Value V) → Option (Prop V)
  entry_view none = none
  entry_view (some v) = elim v.value [
    | none ↦ none
    | some value ↦
        some
          (record { value = value; interface_major = v.interface_major; ownership = v.ownership })
  ]

  unfoldable pub MemoryHolds : Memory V → Props V → Type 0
  MemoryHolds s props = (key : Key) → entry_view (lookup key s) ≡ props key

  lookup-reset :
      (owner : Ownership) (key : Key) (s : Memory V)
      → entry_view (lookup key (reset_state s owner)) ≡ entry_view (lookup key s)
  unfolding lookup reset_state
  lookup-reset owner key [] = refl
  lookup-reset owner key ((k, v) ∷ s) = ground (arith, lookup-reset owner key s)

  modified-view :
      (f : Value V → Value V) (o : Option (Value V))
      → ((v : Value V) → entry_view (some (f v)) ≡ entry_view (some v))
      → entry_view (apply_to f o) ≡ entry_view o
  modified-view f none h = refl
  modified-view f (some v) h = h v

  unset-view : (o : Option (Value V)) → entry_view (apply_to unset_value o) ≡ none
  unset-view none = refl
  unset-view (some v) = refl

  step-store :
      (s : Memory V) (props : Props V) (p : StoredProp V) (key : Key)
      → entry_view (lookup key s) ≡ props key
      → entry_view (lookup key (store_prop s p)) ≡ (promised props (store_call p)).1 key
  unfolding store_prop promised
  step-store s props p key h =
      let stored : Value V = record {
        value = some p.value;
        interface_major = p.interface_major;
        ownership = p.ownership;
        state = changed;
      } in
      ground (arith, h, lookup-insert (prop_key p) key stored s)

  step-remove :
      (s : Memory V) (props : Props V) (k key : Key)
      → entry_view (lookup key s) ≡ props key
      → entry_view (lookup key (remove k s)) ≡ (if k == key then none else props key)
  step-remove s props k key h = ground (arith, h, lookup-remove k key s)

  step-unset :
      (s : Memory V) (props : Props V) (k key : Key)
      → entry_view (lookup key s) ≡ props key
      → entry_view (lookup key (modify k unset_value s)) ≡ (if k == key then none else props key)
  step-unset s props k key h =
      ground (arith, h, lookup-modify k key unset_value s, unset-view (lookup key s))

  step-state :
      (s : Memory V) (k key : Key) (state : PropertyState)
      → entry_view (lookup key (modify k (with_state state) s)) ≡ entry_view (lookup key s)
  step-state s k key state = ground (
    arith,
    lookup-modify k key (with_state state) s,
    modified-view (with_state state) (lookup key s) (λ v. refl),
  )

  matches-view :
      (o : Option (Value V)) (v : V)
      → is_value (entry_view o) v ≡ elim o [ none ↦ false | some x ↦ has_value (some v) x ]
  matches-view none v = refl
  matches-view (some x) v =
      elim x.value
        as (λ o.
          is_value
            (elim o [
              | none ↦ none
              | some value ↦ some (record {
                value = value;
                interface_major = x.interface_major;
                ownership = x.ownership;
              })
            ])
            v
          ≡ option_beq o (some v)) [ none ↦ refl | some w ↦ refl ]

  step-update :
      (s : Memory V) (props : Props V) (p : PropertyMapping) (state : PropertyState) (v : V)
      → MemoryHolds s props
      → ((memory_step s (update_state_call p state v)).0 ≡ matched (is_value (props (key_of p)) v))
        × MemoryHolds (memory_step s (update_state_call p state v)).1 props
  unfolding memory_step update_state MemoryHolds
  step-update s props p state v h =
      let view = matches-view (lookup (key_of p) s) v in
      elim (Option-cases (lookup (key_of p) s)) [
        | inl e ↦ (ground (arith, e, view, h (key_of p)), λ key. ground (arith, e, h key))
        | inr (x, e) ↦ (
          ground (arith, e, view, h (key_of p)),
          λ key. ground (arith, e, h key, step-state s (key_of p) key state),
        )
      ]

  step-delete_expected :
      (s : Memory V) (props : Props V) (p : PropertyMapping) (v : V)
      → MemoryHolds s props
      → ((memory_step s (delete_expected_call p v)).0
          ≡ (promised props (delete_expected_call p v)).0)
        × MemoryHolds
            (memory_step s (delete_expected_call p v)).1
            (promised props (delete_expected_call p v)).1
  unfolding memory_step promised delete_expected_prop MemoryHolds
  step-delete_expected s props p v h =
      let view = matches-view (lookup (key_of p) s) v in
      elim (Option-cases (lookup (key_of p) s)) [
        | inl e ↦ (
          ground (arith, e, view, h (key_of p)),
          λ key. ground (arith, e, view, h (key_of p), h key),
        )
        | inr (x, e) ↦ (
          ground (arith, e, view, h (key_of p)),
          λ key.
              ground
                (arith, e, view, h (key_of p), h key, step-remove s props (key_of p) key (h key)),
        )
      ]

  -- Each call answers as promised and keeps the relation.
  memory_step-promised :
      (s : Memory V) (props : Props V) (call : Call V)
      → MemoryHolds s props
      → ((memory_step s call).0 ≡ (promised props call).0)
        × MemoryHolds (memory_step s call).1 (promised props call).1
  unfolding memory_step promised MemoryHolds load_prop unset_prop delete_prop update_state
      delete_expected_prop delete_interface clear lookup
  memory_step-promised s props (store_call p) h = (refl, λ key. step-store s props p key (h key))
  memory_step-promised s props (load_call p) h = elim (Option-cases (lookup (key_of p) s)) [
    | inl e ↦ (ground (arith, e, h (key_of p)), λ key. ground (arith, e, h (key_of p), h key))
    | inr (v, e) ↦ (
      ground (arith, e, h (key_of p)),
      λ key. ground (
        arith,
        e,
        h (key_of p),
        h key,
        step-remove s props (key_of p) key (h key),
        (key_eq.beq_iff (key_of p) key),
      ),
    )
  ]
  memory_step-promised s props (unset_call p) h =
      (refl, λ key. step-unset s props (key_of p) key (h key))
  memory_step-promised s props (delete_call p) h =
      (refl, λ key. step-remove s props (key_of p) key (h key))
  memory_step-promised s props (update_state_call p state v) h = step-update s props p state v h
  memory_step-promised s props (delete_expected_call p v) h = step-delete_expected s props p v h
  memory_step-promised s props (delete_interface_call name) h = (
    refl,
    λ key. ground (arith, h key, lookup-retain (λ (k : Key). str_beq k.interface name) key s),
  )
  memory_step-promised s props (reset_state_call owner) h =
      (refl, λ key. lookup-reset owner key s ∙ h key)
  memory_step-promised s props clear_call h = (refl, λ key. refl)

  -- Whatever the calls, the store in memory, when it starts empty, answers as promised.
  pub memory_answers :
      (calls : List (Call V)) → answers memory_step [] calls ≡ answers promised (λ _. none) calls
  unfolding MemoryHolds lookup
  memory_answers calls =
      answers-related memory_step promised MemoryHolds memory_step-promised [] (λ _. none) calls
        (λ key. refl)
