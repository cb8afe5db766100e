-- ===== src/Retention/Volatile/Bounds.antt =====
-- The volatile store never outgrows the capacity that was allocated.
use astarte_device_sdk_rust.Common.{
  ℕ, suc, ◌+◌, ◌≤◌, ◌<◌, ◌≡◌, refl, ap, ◌∙◌, Bool, not, Option, List, [], ◌∷◌, map, arith, length,
  tail, retain, length-append, length-retain_le, Result, ok, err, nat_eq, Str, str_eq, option_eq,
  int_eq,
}
use astarte_device_sdk_rust.Foreign.{Retention}
use astarte_device_sdk_rust.Retention.{PublishId}
use astarte_device_sdk_rust.Retention.Volatile.{
  State, ItemValue, VolatileItemError, VolatileItem, push, push_value, make_room, get_unsent,
  delete_interface, mark_sent, mark_received, mark_first, take_first, reset_sent, clear_sent,
  is_live, is_dropped,
}

abbrev pub IsBounded : {V : Type 0} → State V → Type 0
IsBounded s = length s.store ≤ s.capacity

-- A call of one of the methods of the store, with what it reads from the clock.
pub data Call (V : Type 0) : Type 0 where
  pushes : PublishId → Result VolatileItemError (ItemValue V) → Bool → ℕ → ℕ → Call V
  gets_unsent : ℕ → ℕ → Call V
  marks_sent : PublishId → Bool → Call V
  marks_received : PublishId → Call V
  deletes_interface : Str → ℕ → Call V
  resets_sent : Call V

module _ {V : Type 0} (as_expiry : Retention → Option ℕ) (grown : ℕ → ℕ) where
  pub step : State V → Call V → State V
  step s (pushes id value sent now stored_at) = push as_expiry grown s id value sent now stored_at
  step s (gets_unsent limit now) = (get_unsent as_expiry s [] limit now).2
  step s (marks_sent id sent) = (mark_sent s id sent).1
  step s (marks_received id) = (mark_received s id).1
  step s (deletes_interface name now) = (delete_interface as_expiry s name now).1
  step s resets_sent = reset_sent s

  pub run : State V → List (Call V) → State V
  run s [] = s
  run s (c ∷ cs) = run (step s c) cs

  length-mark_first :
      (id : PublishId) (sent : Bool) (l : List (VolatileItem V))
      → length (mark_first id sent l).1 ≡ length l
  unfolding mark_first
  length-mark_first id sent [] = refl
  length-mark_first id sent (item ∷ rest) = ground (arith, length-mark_first id sent rest)

  length-take_first :
      (id : PublishId) (l : List (VolatileItem V)) → length (take_first id l).1 ≤ length l
  unfolding take_first
  length-take_first id [] = omega arith
  length-take_first id (item ∷ rest) = ground (arith, length-take_first id rest)

  length-reset : (l : List (VolatileItem V)) → length (map clear_sent l) ≡ length l
  length-reset [] = refl
  length-reset (item ∷ rest) = ap suc (length-reset rest)

  length-tail : (l : List (VolatileItem V)) → 0 < length l → length (tail l) + 1 ≡ length l
  length-tail [] h = elim h [ ]
  length-tail (item ∷ rest) h = omega arith

  make_room-has_room :
      (s : State V) (now : ℕ)
      → IsBounded s
      → 0 < s.capacity
      → (length (make_room as_expiry s now).store < s.capacity)
        × ((make_room as_expiry s now).capacity ≡ s.capacity)
  unfolding make_room
  make_room-has_room s now b p = ground (
    arith,
    length-retain_le (is_live as_expiry now) s.store,
    length-tail (retain (is_live as_expiry now) s.store),
  )

  push_value-IsBounded :
      (s : State V) (id : PublishId) (value : Result VolatileItemError (ItemValue V)) (sent : Bool)
      (stored_at : ℕ)
      → length s.store < s.capacity
      → IsBounded (push_value as_expiry grown s id value sent stored_at)
        × ((push_value as_expiry grown s id value sent stored_at).capacity ≡ s.capacity)
  unfolding push_value
  push_value-IsBounded s id (err e) sent stored_at h = ground arith
  push_value-IsBounded s id (ok value) sent stored_at h = ground (
    arith,
    length-append s.store
        (record { id = id; store_time = stored_at; sent = sent; value = value } ∷ []),
  )

  push-IsBounded :
      (s : State V) (id : PublishId) (value : Result VolatileItemError (ItemValue V)) (sent : Bool)
      (now stored_at : ℕ)
      → IsBounded s
      → IsBounded (push as_expiry grown s id value sent now stored_at)
        × ((push as_expiry grown s id value sent now stored_at).capacity ≡ s.capacity)
  unfolding push
  push-IsBounded s id value sent now stored_at b = ground (
    arith,
    make_room-has_room s now b,
    push_value-IsBounded s id value sent stored_at,
    push_value-IsBounded (make_room as_expiry s now) id value sent stored_at,
  )

  step-IsBounded :
      (s : State V) (c : Call V)
      → IsBounded s
      → IsBounded (step s c) × ((step s c).capacity ≡ s.capacity)
  unfolding step get_unsent mark_sent mark_received delete_interface reset_sent
  step-IsBounded s (pushes id value sent now stored_at) b =
      push-IsBounded s id value sent now stored_at b
  step-IsBounded s (gets_unsent limit now) b =
      ground (arith, length-retain_le (is_live as_expiry now) s.store)
  step-IsBounded s (marks_sent id sent) b = ground (arith, length-mark_first id sent s.store)
  step-IsBounded s (marks_received id) b = ground (arith, length-take_first id s.store)
  step-IsBounded s (deletes_interface name now) b = ground (
    arith,
    length-retain_le (λ (item : VolatileItem V). not (is_dropped as_expiry name now item)) s.store,
  )
  step-IsBounded s resets_sent b = ground (arith, length-reset s.store)

  -- After any calls, in any order, a store that started with no more items than its capacity has no
  -- more items than its capacity, and the capacity is the one that was allocated: the queue never
  -- grows.
  pub run-IsBounded :
      (s : State V) (cs : List (Call V))
      → IsBounded s
      → IsBounded (run s cs) × ((run s cs).capacity ≡ s.capacity)
  unfolding run
  run-IsBounded s [] b = (b, refl)
  run-IsBounded s (c ∷ cs) b =
      let (b', e) = step-IsBounded s c b in
      let (b'', e') = run-IsBounded (step s c) cs b' in (b'', e' ∙ e)
