-- ===== src/Connection/Resend/Batches.antt =====
-- What one batch leaves: each loop, while the transport accepts, empties a prefix of what is waiting.
use astarte_device_sdk_rust.Common.{
  ℕ, zero, suc, ◌≡◌, refl, sym, subst, ◌⊎◌, inl, inr, Bool, true, false, Option, none, List, [],
  ◌∷◌, map, arith, Option-cases, take, drop, retain, is_ok, Eq, eq_refl, nat_eq, str_eq, option_eq,
  int_eq,
}
use astarte_device_sdk_rust.Common.Map.{HasUniqueKeys, remove-HasUniqueKeys, modify-HasUniqueKeys}
use astarte_device_sdk_rust.Common.Selection.{lookup-selected, remove-selected, modify-selected}
use astarte_device_sdk_rust.Connection.Resend.{OptStoredProp, Retention, after_sent}
use astarte_device_sdk_rust.Store.{changed, completed, mapping_of}
use astarte_device_sdk_rust.Store.Memory.{
  Key, Value, key_eq, Memory, is_device_in, to_opt_prop, update_state, delete_expected_prop,
  with_state,
}
use astarte_device_sdk_rust.Client.Sending.{IsNewId}
use astarte_device_sdk_rust.Connection.Resend.{Device, send_props, send_items, with_sent}
use astarte_device_sdk_rust.Retention.{PublishId, RetentionId, id_beq, id_beq_iff}
use astarte_device_sdk_rust.Retention.Volatile.{
  State, VolatileItem, ItemValue, mark_sent, mark_first, mark_received, take_first, is_unsent,
  to_pair,
}
use astarte_device_sdk_rust.Transport.{Publish, Shared}

module _ {V : Type 0} ⦃eq : Eq V⦄ where
  -- The device properties that wait to be sent.
  abbrev pub waiting : Memory V → List (Key × Value V)
  waiting s = retain (is_device_in changed) s

  after_sent-waiting :
      (k : Key) (v : Value V) (s : Memory V) (rest : List (Key × Value V))
      → HasUniqueKeys s
      → waiting s ≡ (k, v) ∷ rest
      → (waiting (after_sent (to_opt_prop (k, v)) s) ≡ rest)
        × HasUniqueKeys (after_sent (to_opt_prop (k, v)) s)
  unfolding after_sent update_state delete_expected_prop mapping_of to_opt_prop
  after_sent-waiting k v s rest u h =
      let found = lookup-selected (is_device_in changed) k v s rest u h in
      elim (Option-cases v.value) [
        | inl n ↦ ground (
          arith,
          n,
          found,
          remove-selected (is_device_in changed) k v s rest u h,
          remove-HasUniqueKeys k s u,
        )
        | inr (a, n) ↦ ground (
          arith,
          n,
          found,
          eq_refl a,
          modify-selected (is_device_in changed) k v (with_state completed) s rest u h refl,
          modify-HasUniqueKeys k (with_state completed) s u,
        )
      ]

module _ {V : Type 0} where
  abbrev pub HasDistinctIds : List (VolatileItem V) → Type 0
  HasDistinctIds [] = Unit
  HasDistinctIds (i ∷ items) = IsNewId i.id items × HasDistinctIds items

  mark-ids :
      (id j : PublishId) (sent : Bool) (items : List (VolatileItem V))
      → IsNewId j items
      → IsNewId j (mark_first id sent items).1
  unfolding mark_first
  mark-ids id j sent [] h = tt
  mark-ids id j sent (i ∷ items) h = ground (arith, mark-ids id j sent items h.1)

  mark-HasDistinctIds :
      (id : PublishId) (sent : Bool) (items : List (VolatileItem V))
      → HasDistinctIds items
      → HasDistinctIds (mark_first id sent items).1
  unfolding mark_first
  mark-HasDistinctIds id sent [] h = tt
  mark-HasDistinctIds id sent (i ∷ items) h =
      ground (arith, mark-HasDistinctIds id sent items h.1, mark-ids id i.id sent items h.0)

  take-ids :
      (id j : PublishId) (items : List (VolatileItem V))
      → IsNewId j items
      → IsNewId j (take_first id items).1
  unfolding take_first
  take-ids id j [] h = tt
  take-ids id j (i ∷ items) h = ground (arith, take-ids id j items h.1)

  take-HasDistinctIds :
      (id : PublishId) (items : List (VolatileItem V))
      → HasDistinctIds items
      → HasDistinctIds (take_first id items).1
  unfolding take_first
  take-HasDistinctIds id [] h = tt
  take-HasDistinctIds id (i ∷ items) h =
      ground (arith, take-HasDistinctIds id items h.1, take-ids id i.id items h.0)

  take-marked :
      (id : PublishId) (sent : Bool) (items : List (VolatileItem V))
      → (take_first id (mark_first id sent items).1).1 ≡ (take_first id items).1
  unfolding take_first mark_first
  take-marked id sent [] = refl
  take-marked id sent (i ∷ items) = ground (arith, take-marked id sent items)

  unsent-differs :
      (id : PublishId) (item : VolatileItem V) (items rest : List (VolatileItem V))
      → IsNewId id items
      → retain is_unsent items ≡ item ∷ rest
      → id_beq id item.id ≡ false
  unsent-differs id item [] rest n h = ground (arith, h)
  unsent-differs id item (i ∷ items) rest n h =
      ground
        (arith, n, h, unsent-differs id item items rest n.1, id_beq_iff id i.id, id_beq_iff i.id id)

  mark-unsent :
      (item : VolatileItem V) (items rest : List (VolatileItem V))
      → HasDistinctIds items
      → retain is_unsent items ≡ item ∷ rest
      → retain is_unsent (mark_first item.id true items).1 ≡ rest
  unfolding mark_first
  mark-unsent item [] rest u h = ground (arith, h)
  mark-unsent item (i ∷ items) rest u h = ground (
    arith,
    u,
    h,
    mark-unsent item items rest u.1,
    unsent-differs i.id item items rest u.0,
    id_beq_iff item.id item.id,
  )

  take-unsent :
      (item : VolatileItem V) (items rest : List (VolatileItem V))
      → HasDistinctIds items
      → retain is_unsent items ≡ item ∷ rest
      → retain is_unsent (take_first item.id items).1 ≡ rest
  unfolding take_first
  take-unsent item [] rest u h = ground (arith, h)
  take-unsent item (i ∷ items) rest u h = ground (
    arith,
    u,
    h,
    take-unsent item items rest u.1,
    unsent-differs i.id item items rest u.0,
    id_beq_iff item.id item.id,
  )

  -- What the sender may leave of the volatile store: as it was, or without what it sent.
  abbrev pub IsTakenOr : PublishId → State V → State V → Type 0
  IsTakenOr id s s' = (s' ≡ s) ⊎ (s' ≡ (mark_received s id).1)

  sent-leaves :
      (i : VolatileItem V) (s s' : State V) (rest : List (VolatileItem V))
      → HasDistinctIds s.store
      → retain is_unsent s.store ≡ i ∷ rest
      → IsTakenOr i.id (mark_sent s i.id true).1 s'
      → HasDistinctIds s'.store × (retain is_unsent s'.store ≡ rest)
  unfolding mark_sent mark_received
  sent-leaves i s s' rest u h (inl e) =
      subst (λ (x : State V). HasDistinctIds x.store × (retain is_unsent x.store ≡ rest)) (sym e)
        (mark-HasDistinctIds i.id true s.store u, mark-unsent i s.store rest u h)
  sent-leaves i s s' rest u h (inr e) =
      subst (λ (x : State V). HasDistinctIds x.store × (retain is_unsent x.store ≡ rest)) (sym e)
        (
          rw (take-marked i.id true s.store) (take-HasDistinctIds i.id s.store u),
          rw (take-marked i.id true s.store) (take-unsent i s.store rest u h),
        )

module _ {S R V T : Type 0} ⦃eq : Eq V⦄ (as_expiry : Retention → Option ℕ)
    (transport : Publish S R V T) (IsReady : S → Type 0) where
  -- A ready sender accepts every property and every publish, stays ready, and takes nothing from the
  -- volatile store but what it was given.
  abbrev pub Accepts : Type 0
  Accepts =
      ((p : OptStoredProp V) (s : S)
        → IsReady s
        → let (r, s') = transport.resend_stored_property p s in (is_ok r ≡ true) × IsReady s')
      × ((id : PublishId) (item : ItemValue V) (s : S) (k : Shared R V)
          → IsReady s
          → let (r, after) = transport.send_item_stored (RetentionId.volatile id) item s k in
            (is_ok r ≡ true)
            × IsReady after.0
            × IsTakenOr id k.volatile_store after.1.volatile_store)

  pub send_props-drop :
      (n : ℕ) (l : List (Key × Value V)) (d : Device S V)
      → Accepts
      → IsReady d.sender
      → HasUniqueKeys d.store
      → waiting d.store ≡ l
      → let (result, d') = send_props as_expiry transport (take n (map to_opt_prop l)) d in
        (is_ok result ≡ true)
        × (waiting d'.store ≡ drop n l)
        × HasUniqueKeys d'.store
        × IsReady d'.sender
        × (d'.volatile_store ≡ d.volatile_store)
  unfolding send_props
  send_props-drop zero l d a r u h = (refl, h, u, r, refl)
  send_props-drop (suc n) [] d a r u h = (refl, h, u, r, refl)
  send_props-drop (suc n) ((k, v) ∷ l) d a r u h =
      let (accepted, r') = a.0 (to_opt_prop (k, v)) d.sender r in
      let (e, u') = after_sent-waiting k v d.store l u h in
      let sender = (transport.resend_stored_property (to_opt_prop (k, v)) d.sender).1 in
      let d' = record d { sender = sender; store = after_sent (to_opt_prop (k, v)) d.store } in
      rw accepted (send_props-drop n l d' a r' u' e)

  pub send_items-drop :
      (n : ℕ) (l : List (VolatileItem V)) (d : Device S V)
      → Accepts
      → IsReady d.sender
      → HasDistinctIds d.volatile_store.store
      → retain is_unsent d.volatile_store.store ≡ l
      → let (result, d') = send_items as_expiry transport (take n (map to_pair l)) d in
        (is_ok result ≡ true)
        × (retain is_unsent d'.volatile_store.store ≡ drop n l)
        × HasDistinctIds d'.volatile_store.store
        × IsReady d'.sender
        × (d'.store ≡ d.store)
  unfolding send_items mark_sent
  send_items-drop zero l d a r u h = (refl, h, u, r, refl)
  send_items-drop (suc n) [] d a r u h = (refl, h, u, r, refl)
  send_items-drop (suc n) (i ∷ l) d a r u h =
      let m = with_sent as_expiry transport i.id true d in
      let kept : Shared R V = record { volatile_store = m.volatile_store; retention = none } in
      let after =
        (transport.send_item_stored (RetentionId.volatile i.id) i.value m.sender kept).1 in
      let (accepted, r', taken) = a.1 i.id i.value m.sender kept r in
      let (u', e) =
        sent-leaves i d.volatile_store after.1.volatile_store l u h (unfold mark_sent in taken) in
      rw accepted (
        send_items-drop n l (record m { sender = after.0; volatile_store = after.1.volatile_store })
          a r' u' e)
