-- ===== src/Client/Sending.antt =====
-- What sending a datastream leaves in the volatile store, online and offline.
use astarte_device_sdk_rust.Common.{
  ℕ, ◌≡◌, refl, ◌⊎◌, inl, inr, Bool, true, false, not, ◌&&◌, Option, none, some, List, [], ◌∷◌,
  ◌++◌, arith, if◌then◌else◌, Option-cases, tail, retain, All, All-retain, Result, ok, err, is_ok,
  nat_eq, str_eq, option_eq, int_eq,
}
use astarte_device_sdk_rust.Client.{
  Clock, Device, store_publish, push_next, send, send_volatile, send_stored, offline_send, try_item,
  volatile_mark_unsent, stored_mark_unsent, send_after_store, publish_stored,
}
use astarte_device_sdk_rust.Foreign.{Retention, discard, volatile, stored}
use astarte_device_sdk_rust.Transport.{
  ConnStatus, disconnected, connected, closed, Publish, Shared, StoredRetention,
}
use astarte_device_sdk_rust.Retention.{next, PublishId, RetentionId, id_beq, id_beq_iff}
use astarte_device_sdk_rust.Retention.Volatile.{
  mark_received, take_first, retention_of, State, VolatileItem, VolatileItemError, ItemValue, push,
  push_value, push_back, make_room, remove_expired, is_live, mark_sent, mark_first,
}

module _ {V : Type 0} where
  -- No item of the queue has the identifier.
  abbrev pub IsNewId : PublishId → List (VolatileItem V) → Type 0
  IsNewId id items = All (λ item. id_beq item.id id ≡ false) items

  -- Every other item than that of the identifier.
  abbrev pub without : PublishId → State V → State V
  without id s = record s { store = retain (λ item. not (id_beq item.id id)) s.store }

  tail-IsNewId :
      (id : PublishId) (items : List (VolatileItem V)) → IsNewId id items → IsNewId id (tail items)
  tail-IsNewId id [] h = tt
  tail-IsNewId id (i ∷ items) h = h.1

  mark-appended :
      (id : PublishId) (items : List (VolatileItem V)) (item : VolatileItem V) (sent : Bool)
      → IsNewId id items
      → item.id ≡ id
      → (mark_first id sent (items ++ item ∷ [])).1 ≡ items ++ record item { sent = sent } ∷ []
  unfolding mark_first
  mark-appended id [] item sent h e = ground (arith, id_beq_iff item.id id)
  mark-appended id (i ∷ items) item sent h e =
      ground (arith, mark-appended id items item sent h.1 e)

  mark-new :
      (id : PublishId) (items : List (VolatileItem V)) (sent : Bool)
      → IsNewId id items
      → (mark_first id sent items).1 ≡ items
  unfolding mark_first
  mark-new id [] sent h = refl
  mark-new id (i ∷ items) sent h = ground (arith, mark-new id items sent h.1)

module _ {V : Type 0} (as_expiry : Retention → Option ℕ) (grown : ℕ → ℕ) where
  mark-push_value :
      (s : State V) (id : PublishId) (v : Result VolatileItemError (ItemValue V)) (stored_at : ℕ)
      → IsNewId id s.store
      → (mark_sent (push_value as_expiry grown s id v true stored_at) id false).1
        ≡ push_value as_expiry grown s id v false stored_at
  unfolding mark_sent push_value push_back
  mark-push_value s id (err e) stored_at h = rw (mark-new id s.store false h) refl
  mark-push_value s id (ok value) stored_at h =
      rw
        (mark-appended id s.store
          (record { id = id; store_time = stored_at; sent = true; value = value }) false h refl)
        refl

  make_room-IsNewId :
      (s : State V) (id : PublishId) (now : ℕ)
      → IsNewId id s.store
      → IsNewId id (make_room as_expiry s now).store
  unfolding make_room remove_expired
  make_room-IsNewId s id now h =
      let kept =
        All-retain (λ (item : VolatileItem V). id_beq item.id id ≡ false) (is_live as_expiry now)
          s.store h in
      ground (arith, kept, tail-IsNewId id (retain (is_live as_expiry now) s.store) kept)

  mark_sent-new : (s : State V) (id : PublishId) → IsNewId id s.store → (mark_sent s id false).1 ≡ s
  unfolding mark_sent
  mark_sent-new s id h = rw (mark-new id s.store false h) refl

  -- Pushing an item as sent and taking that back is pushing it as unsent.
  mark-push :
      (s : State V) (id : PublishId) (v : Result VolatileItemError (ItemValue V))
      (now stored_at : ℕ)
      → IsNewId id s.store
      → (mark_sent (push as_expiry grown s id v true now stored_at) id false).1
        ≡ push as_expiry grown s id v false now stored_at
  unfolding push
  mark-push s id v now stored_at h = ground (
    arith,
    mark-push_value s id v stored_at h,
    mark-push_value (make_room as_expiry s now) id v stored_at (make_room-IsNewId s id now h),
    mark_sent-new s id h,
  )

  take-new :
      (id : PublishId) (items : List (VolatileItem V))
      → IsNewId id items
      → (take_first id items).1 ≡ retain (λ item. not (id_beq item.id id)) items
  unfolding take_first
  take-new id [] h = refl
  take-new id (i ∷ items) h = ground (arith, h, take-new id items h.1)

  take-appended :
      (id : PublishId) (items : List (VolatileItem V)) (item : VolatileItem V)
      → IsNewId id items
      → (take_first id (items ++ item ∷ [])).1
        ≡ retain (λ i. not (id_beq i.id id)) (items ++ item ∷ [])
  unfolding take_first
  take-appended id [] item h = ground arith
  take-appended id (i ∷ items) item h = ground (arith, h, take-appended id items item h.1)

  take-push_value :
      (s : State V) (id : PublishId) (v : Result VolatileItemError (ItemValue V)) (stored_at : ℕ)
      → IsNewId id s.store
      → (mark_received (push_value as_expiry grown s id v true stored_at) id).1
        ≡ without id (push_value as_expiry grown s id v true stored_at)
  unfolding mark_received push_value push_back
  take-push_value s id (err e) stored_at h = rw (take-new id s.store h) refl
  take-push_value s id (ok value) stored_at h =
      rw
        (take-appended id s.store
          (record { id = id; store_time = stored_at; sent = true; value = value }) h)
        refl

  mark_received-new :
      (s : State V) (id : PublishId) → IsNewId id s.store → (mark_received s id).1 ≡ without id s
  unfolding mark_received
  mark_received-new s id h = rw (take-new id s.store h) refl

  -- Pushing an item and marking it as received leaves the others.
  mark_received-push :
      (s : State V) (id : PublishId) (v : Result VolatileItemError (ItemValue V))
      (now stored_at : ℕ)
      → IsNewId id s.store
      → (mark_received (push as_expiry grown s id v true now stored_at) id).1
        ≡ without id (push as_expiry grown s id v true now stored_at)
  unfolding push
  mark_received-push s id v now stored_at h = ground (
    arith,
    take-push_value s id v stored_at h,
    take-push_value (make_room as_expiry s now) id v stored_at (make_room-IsNewId s id now h),
    mark_received-new s id h,
  )

-- Which datastreams the volatile store keeps: those with volatile retention, and those with stored
-- retention where the store has none.
abbrev pub is_kept_volatile : {R : Type 0} → Option R → Retention → Bool
is_kept_volatile r discard = false
is_kept_volatile r (volatile expiry) = true
is_kept_volatile none (stored expiry) = true
is_kept_volatile (some r) (stored expiry) = false

-- Which the store's retention keeps.
abbrev pub is_kept_stored : {R : Type 0} → Option R → Retention → Bool
is_kept_stored r discard = false
is_kept_stored r (volatile expiry) = false
is_kept_stored none (stored expiry) = false
is_kept_stored (some r) (stored expiry) = true

abbrev pub is_connected : ConnStatus → Bool
is_connected connected = true
is_connected disconnected = false
is_connected closed = false

module _ {S R V T : Type 0} (as_expiry : Retention → Option ℕ) (grown : ℕ → ℕ)
    (transport : Publish S R V T) (retention : StoredRetention R V) where
  -- The volatile store after a push under the next identifier, marked sent or not.
  abbrev pub pushed : Device S R V → ItemValue V → Bool → Clock → State V
  pushed d item sent clock =
      push as_expiry grown d.volatile_store (next d.context clock.id_at).0 (try_item item) sent
        clock.now clock.stored_at

  -- A transport takes from the volatile store the item that it sent, unless that one waits for an
  -- acknowledgement, and nothing where the sending failed.
  abbrev pub IsHandler : (ItemValue V → Bool) → Type 0
  IsHandler waits =
      ((id : PublishId) (item : ItemValue V) (s : S) (k : Shared R V)
        → let (r, after) = transport.send_item_stored (RetentionId.volatile id) item s k in
          after.1.volatile_store ≡ (
            if is_ok r && not (waits item)
            then (mark_received k.volatile_store id).1
            else k.volatile_store))
      × ((id : PublishId) (item : ItemValue V) (s : S) (k : Shared R V)
          → (transport.send_item_stored (RetentionId.stored id) item s k).1.1.volatile_store
            ≡ k.volatile_store)

  -- The volatile store once an item was kept there: without it if it was sent and waits for nothing,
  -- else with it, as sent or not.
  abbrev pub left : (ItemValue V → Bool) → Device S R V → ItemValue V → Bool → Clock → State V
  left waits d item sent clock =
      if sent && not (waits item)
      then without (next d.context clock.id_at).0 (pushed d item true clock)
      else pushed d item sent clock

  send_volatile-left :
      (waits : ItemValue V → Bool) (d : Device S R V) (item : ItemValue V) (clock : Clock)
      → IsHandler waits
      → IsNewId (next d.context clock.id_at).0 d.volatile_store.store
      → let (result, d') = send_volatile as_expiry grown transport retention d item clock in
        d'.volatile_store ≡ left waits d item (is_ok result) clock
  unfolding send_volatile publish_stored push_next volatile_mark_unsent
  send_volatile-left waits d item clock l h =
      let id = (next d.context clock.id_at).0 in
      let kept : Shared R V = record {
        volatile_store = pushed d item true clock;
        retention = d.retention;
      } in
      ground (
        arith,
        l.0 id item d.sender kept,
        mark-push as_expiry grown d.volatile_store id (try_item item) clock.now clock.stored_at h,
        mark_received-push as_expiry grown d.volatile_store id (try_item item) clock.now
            clock.stored_at h,
      )

  send_after_store-same :
      (waits : ItemValue V → Bool) (id : PublishId) (item : ItemValue V) (d : Device S R V)
      → IsHandler waits
      → (send_after_store as_expiry grown transport retention id item d).1.volatile_store
        ≡ d.volatile_store
  unfolding send_after_store publish_stored stored_mark_unsent
  send_after_store-same waits id item d l = ground (
    arith,
    l.1 id item d.sender (record { volatile_store = d.volatile_store; retention = d.retention }),
  )

  send_stored-same :
      (waits : ItemValue V → Bool) (d : Device S R V) (item : ItemValue V) (clock : Clock) (r : R)
      → IsHandler waits
      → d.retention ≡ some r
      → (send_stored as_expiry grown transport retention d item clock).1.volatile_store
        ≡ d.volatile_store
  unfolding send_stored
  send_stored-same waits d item clock r l h =
      let id = (next d.context clock.id_at).0 in
      let stored = store_publish as_expiry grown transport retention id item true d.sender r in
      let d' : Device S R V = record d {
        context = (next d.context clock.id_at).1;
        retention = some stored.1;
      } in
      ground (arith, h, send_after_store-same waits id item d' l)

  -- Over a transport that takes from the volatile store the item that it sent, unless that one waits
  -- for an acknowledgement, and nothing else: whatever the status of the connection, sending a
  -- datastream with volatile retention (or stored retention, with a store that keeps none) under an
  -- identifier that the volatile store does not hold yet leaves there what one push makes: without
  -- the item if the device is connected, the sending succeeded and it waits for nothing, else with
  -- it, marked as sent exactly if the device is connected and the sending succeeded. Any other
  -- datastream leaves the volatile store as it is.
  pub send-keeps :
      (waits : ItemValue V → Bool) (status : ConnStatus) (d : Device S R V) (item : ItemValue V)
      (clock : Clock)
      → IsHandler waits
      → IsNewId (next d.context clock.id_at).0 d.volatile_store.store
      → let (result, d') = send as_expiry grown transport retention status d item clock in
        d'.volatile_store ≡ (
          if is_kept_volatile d.retention (retention_of item)
          then left waits d item (is_connected status && is_ok result) clock
          else d.volatile_store)
  unfolding send send_stored offline_send push_next
  send-keeps waits connected d item clock l h = elim (Option-cases d.retention) [
    | inl n ↦ ground (arith, n, send_volatile-left waits d item clock l h)
    | inr (r, e) ↦ ground (
      arith,
      e,
      send_volatile-left waits d item clock l h,
      send_stored-same waits d item clock r l e,
    )
  ]
  send-keeps waits disconnected d item clock l h = ground arith
  send-keeps waits closed d item clock l h = ground arith

  -- While the device is not connected, sending a datastream gives nothing to the transport. It
  -- succeeds only if the device is disconnected and not closed, and fails only if it is closed or the
  -- store's retention keeps the datastream.
  pub send-offline :
      (status : ConnStatus) (d : Device S R V) (item : ItemValue V) (clock : Clock)
      → is_connected status ≡ false
      → let (result, d') = send as_expiry grown transport retention status d item clock in
        (d'.sender ≡ d.sender)
        × (is_ok result ≡ true → (status ≡ disconnected))
        × (is_ok result ≡ false
            → (status ≡ closed) ⊎ (is_kept_stored d.retention (retention_of item) ≡ true))
  unfolding send offline_send push_next
  send-offline connected d item clock h = ground arith
  send-offline disconnected d item clock h = ground arith
  send-offline closed d item clock h = ground arith
