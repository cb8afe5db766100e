-- ===== src/Retention/Volatile/Marks.antt =====
-- `mark_sent`, `mark_received` and `delete_interface` of the volatile store.
use astarte_device_sdk_rust.Common.{
  ℕ, ◌+◌, ◌≡◌, refl, Bool, false, not, Option, none, some, List, [], ◌∷◌, arith, if◌then◌else◌,
  length, retain, All, retain-count, nat_eq, Str, str_eq, option_eq, int_eq,
}
use astarte_device_sdk_rust.Foreign.{Retention}
use astarte_device_sdk_rust.Retention.{PublishId, id_beq}
use astarte_device_sdk_rust.Retention.Volatile.{
  State, ItemValue, VolatileItem, mark_sent, mark_first, mark_received, take_first,
  delete_interface, is_live, is_dropped, is_expired, is_interface,
}

module _ {V : Type 0} where
  -- No item has the identifier.
  abbrev pub IsAbsent : PublishId → List (VolatileItem V) → Type 0
  IsAbsent id [] = Unit
  IsAbsent id (item ∷ l) = (id_beq item.id id ≡ false) × IsAbsent id l

  -- The identifiers of the items are different.
  abbrev pub HasUniqueIds : List (VolatileItem V) → Type 0
  HasUniqueIds [] = Unit
  HasUniqueIds (item ∷ l) = IsAbsent item.id l × HasUniqueIds l

  -- The item of an identifier.
  unfoldable pub item_of : PublishId → List (VolatileItem V) → Option (VolatileItem V)
  item_of id [] = none
  item_of id (item ∷ l) = if id_beq item.id id then some item else item_of id l

  abbrev pub with_sent : Bool → Option (VolatileItem V) → Option (VolatileItem V)
  with_sent sent none = none
  with_sent sent (some item) = some (record item { sent = sent })

  abbrev pub sent_flag : Option (VolatileItem V) → Option Bool
  sent_flag none = none
  sent_flag (some item) = some item.sent

  abbrev pub value_of : Option (VolatileItem V) → Option (ItemValue V)
  value_of none = none
  value_of (some item) = some item.value

  item_of-mark_first :
      (id other : PublishId) (sent : Bool) (l : List (VolatileItem V))
      → ((mark_first id sent l).0 ≡ sent_flag (item_of id l))
        × (item_of other (mark_first id sent l).1
            ≡ (if id_beq id other then with_sent sent (item_of other l) else item_of other l))
  unfolding mark_first item_of
  item_of-mark_first id other sent [] = ground arith
  item_of-mark_first id other sent (item ∷ l) = ground (arith, item_of-mark_first id other sent l)

  item_of-absent :
      (id : PublishId) (l : List (VolatileItem V)) → IsAbsent id l → item_of id l ≡ none
  unfolding item_of
  item_of-absent id [] h = refl
  item_of-absent id (item ∷ l) h = ground (arith, item_of-absent id l h.1)

  item_of-take_first :
      (id other : PublishId) (l : List (VolatileItem V))
      → HasUniqueIds l
      → ((take_first id l).0 ≡ value_of (item_of id l))
        × (item_of other (take_first id l).1 ≡ (if id_beq id other then none else item_of other l))
  unfolding take_first item_of
  item_of-take_first id other [] u = ground arith
  item_of-take_first id other (item ∷ l) u = ground (
    arith,
    item_of-take_first id other l u.1,
    item_of-absent item.id l u.0,
    item_of-absent other l,
  )

  -- `mark_sent` returns the flag that the item of the identifier had, or nothing; then that item has
  -- the new flag and is the same otherwise, and every other item is as it was.
  pub mark_sent-item :
      (s : State V) (id other : PublishId) (sent : Bool)
      → ((mark_sent s id sent).0 ≡ sent_flag (item_of id s.store))
        × (item_of other (mark_sent s id sent).1.store ≡ (
            if id_beq id other
            then with_sent sent (item_of other s.store)
            else item_of other s.store))
  unfolding mark_sent
  mark_sent-item s id other sent = item_of-mark_first id other sent s.store

  -- Where the identifiers are different, `mark_received` returns the value of the item of the
  -- identifier, or nothing; then no item has that identifier, and every other is as it was.
  pub mark_received-item :
      (s : State V) (id other : PublishId)
      → HasUniqueIds s.store
      → ((mark_received s id).0 ≡ value_of (item_of id s.store))
        × (item_of other (mark_received s id).1.store
            ≡ (if id_beq id other then none else item_of other s.store))
  unfolding mark_received
  mark_received-item s id other u = item_of-take_first id other s.store u

module _ {V : Type 0} (as_expiry : Retention → Option ℕ) where
  -- `delete_interface` removes the items of the interface and the expired ones, counts what it
  -- removed, and keeps every other item, in order.
  pub delete_interface-store :
      (s : State V) (name : Str) (now : ℕ)
      → let (removed, s') = delete_interface as_expiry s name now in
        (removed + length s'.store ≡ length s.store)
        × All
            (λ item. (is_interface item name ≡ false) × (is_expired as_expiry item now ≡ false))
            s'.store
        × (retain (λ item. not (is_interface item name)) (retain (is_live as_expiry now) s.store)
            ≡ s'.store)
  unfolding delete_interface
  delete_interface-store s name now = (
    omega (arith, retain-count (is_dropped as_expiry name now) s.store),
    kept s.store,
    twice s.store,
  )
    where
      kept :
          (l : List (VolatileItem V))
          → All
              (λ item. (is_interface item name ≡ false) × (is_expired as_expiry item now ≡ false))
              (retain (λ item. not (is_dropped as_expiry name now item)) l)
      kept [] = tt
      kept (item ∷ l) = ground (arith, kept l)

      twice :
          (l : List (VolatileItem V))
          → retain (λ item. not (is_interface item name)) (retain (is_live as_expiry now) l)
            ≡ retain (λ item. not (is_dropped as_expiry name now item)) l
      twice [] = refl
      twice (item ∷ l) = ground (arith, twice l)
