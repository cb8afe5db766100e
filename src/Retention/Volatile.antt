-- ===== src/Retention/Volatile.antt =====
-- src/retention/memory.rs: the volatile store, a queue of bounded capacity for the publishes of
-- interfaces with volatile retention, oldest first. The mutex makes each method one step on `State`.
-- Times are numbers of nanoseconds: `now` is what a method reads from the clock when it looks for
-- expired items, `stored_at` what `VolatileItem::new` reads. Two parameters stand for other crates:
-- `as_expiry` of `astarte_interfaces`, and `grown`, the capacity that `VecDeque::push_back` chooses
-- when the queue is full. The capacity of a new queue is the one that was allocated.
pub mod Bounds
pub mod Order
pub mod Marks
use astarte_device_sdk_rust.Common.{
  ℕ, ◌+◌, ◌-◌, Bool, true, false, not, ◌||◌, Option, none, some, List, [], ◌∷◌, ◌++◌, map, ltb, eqb,
  if◌then◌else◌, length, take, tail, retain, count, Result, ok, err, nat_eq, Str, str_beq, str_eq,
  option_eq, int_eq,
}
use astarte_device_sdk_rust.Foreign.{Retention, discard, volatile, stored}
use astarte_device_sdk_rust.Packet.{ValidatedIndividual, ValidatedObject}
use astarte_device_sdk_rust.Retention.{PublishId, id_beq}

pub data ItemValue (V : Type 0) : Type 0 where
  individual : ValidatedIndividual V → ItemValue V
  object : ValidatedObject V → ItemValue V

pub record VolatileItemError : Type 0 where
  pub interface : Str
  pub retention : Retention

pub record VolatileItem (V : Type 0) : Type 0 where
  pub id : PublishId
  pub store_time : ℕ
  pub sent : Bool
  pub value : ItemValue V

pub record State (V : Type 0) : Type 0 where
  pub store : List (VolatileItem V)
  pub capacity : ℕ

-- `is_retenton_stored_or_volatile`.
unfoldable pub is_stored_or_volatile : Retention → Bool
is_stored_or_volatile discard = false
is_stored_or_volatile (volatile expiry) = true
is_stored_or_volatile (stored expiry) = true

module _ {V : Type 0} where
  -- The two `TryFrom` implementations of `ItemValue`.
  unfoldable pub from_individual : ValidatedIndividual V → Result VolatileItemError (ItemValue V)
  unfolding is_stored_or_volatile
  from_individual v =
      if not (is_stored_or_volatile v.retention)
      then err (record { interface = v.interface; retention = v.retention })
      else ok (individual v)

  unfoldable pub from_object : ValidatedObject V → Result VolatileItemError (ItemValue V)
  unfolding is_stored_or_volatile
  from_object v =
      if not (is_stored_or_volatile v.retention)
      then err (record { interface = v.interface; retention = v.retention })
      else ok (object v)

  unfoldable pub retention_of : ItemValue V → Retention
  retention_of (individual v) = v.retention
  retention_of (object v) = v.retention

  unfoldable pub interface_of : ItemValue V → Str
  interface_of (individual v) = v.interface
  interface_of (object v) = v.interface

  unfoldable pub is_interface : VolatileItem V → Str → Bool
  unfolding interface_of
  is_interface item name = str_beq (interface_of item.value) name

  unfoldable pub is_full : State V → Bool
  is_full s = eqb (length s.store) s.capacity

  abbrev pub clear_sent : VolatileItem V → VolatileItem V
  clear_sent item = record item { sent = false }

  unfoldable pub reset_sent : State V → State V
  reset_sent s = record s { store = map clear_sent s.store }

  -- `iter_mut().find(..).map(replace)`: the first item of that id.
  unfoldable pub mark_first :
      PublishId → Bool → List (VolatileItem V) → Option Bool × List (VolatileItem V)
  mark_first id sent [] = (none, [])
  mark_first id sent (item ∷ rest) =
      let (old, rest') = mark_first id sent rest in
      if id_beq item.id id
      then (some item.sent, record item { sent = sent } ∷ rest)
      else (old, item ∷ rest')

  unfoldable pub mark_sent : State V → PublishId → Bool → Option Bool × State V
  unfolding mark_first
  mark_sent s id sent =
      let (old, store) = mark_first id sent s.store in (old, record s { store = store })

  -- `position(..)` and `VecDeque::remove`, which keeps the order of the others.
  unfoldable pub take_first :
      PublishId → List (VolatileItem V) → Option (ItemValue V) × List (VolatileItem V)
  take_first id [] = (none, [])
  take_first id (item ∷ rest) =
      let (found, rest') = take_first id rest in
      if id_beq item.id id then (some item.value, rest) else (found, item ∷ rest')

  unfoldable pub mark_received : State V → PublishId → Option (ItemValue V) × State V
  unfolding take_first
  mark_received s id =
      let (value, store) = take_first id s.store in (value, record s { store = store })

  abbrev pub is_unsent : VolatileItem V → Bool
  is_unsent item = not item.sent

  abbrev pub to_pair : VolatileItem V → PublishId × ItemValue V
  to_pair item = (item.id, item.value)

module _ {V : Type 0} (as_expiry : Retention → Option ℕ) where
  unfoldable pub is_expired : VolatileItem V → ℕ → Bool
  unfolding retention_of
  is_expired item now = elim (as_expiry (retention_of item.value)) [
    | none ↦ false
    | some expiry ↦ ltb (item.store_time + expiry) now
  ]

  abbrev pub is_live : ℕ → VolatileItem V → Bool
  is_live now item = not (is_expired item now)

  unfoldable pub remove_expired : State V → ℕ → State V
  remove_expired s now = record s { store = retain (is_live now) s.store }

  unfoldable pub get_unsent :
      State V
      → List (PublishId × ItemValue V)
      → ℕ
      → ℕ
      → ℕ × List (PublishId × ItemValue V) × State V
  unfolding remove_expired
  get_unsent s unsent limit now =
      let s' = remove_expired s now in
      let unsent' = unsent ++ take limit (map to_pair (retain is_unsent s'.store)) in
      (length unsent' - length unsent, unsent', s')

  abbrev pub is_dropped : Str → ℕ → VolatileItem V → Bool
  is_dropped name now item = is_expired item now || is_interface item name

  unfoldable pub delete_interface : State V → Str → ℕ → ℕ × State V
  delete_interface s name now = (
    count (is_dropped name now) s.store,
    record s { store = retain (λ item. not (is_dropped name now item)) s.store },
  )

  -- The room that a full store makes: the expired items go, and then the oldest if that freed none.
  unfoldable pub make_room : State V → ℕ → State V
  unfolding remove_expired is_full
  make_room s now =
      let s' = remove_expired s now in
      if is_full s' then record s' { store = tail s'.store } else s'

module _ {V : Type 0} (as_expiry : Retention → Option ℕ) (grown : ℕ → ℕ) where
  unfoldable pub push_back : State V → VolatileItem V → State V
  push_back s item = record {
    store = s.store ++ item ∷ [];
    capacity = if ltb (length s.store) s.capacity then s.capacity else grown s.capacity;
  }

  -- The end of `push` in a release build: a value that may not be retained is logged and dropped. A
  -- debug build asserts that there is none.
  unfoldable pub push_value :
      State V → PublishId → Result VolatileItemError (ItemValue V) → Bool → ℕ → State V
  unfolding push_back
  push_value s id (err e) sent stored_at = s
  push_value s id (ok value) sent stored_at =
      push_back s (record { id = id; store_time = stored_at; sent = sent; value = value })

  unfoldable pub push :
      State V → PublishId → Result VolatileItemError (ItemValue V) → Bool → ℕ → ℕ → State V
  unfolding push_value make_room is_full
  push s id value sent now stored_at =
      if is_full s
      then (if eqb s.capacity 0
          then s
          else push_value (make_room as_expiry s now) id value sent stored_at)
      else push_value s id value sent stored_at
