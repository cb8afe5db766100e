-- ===== src/Connection/Resend/Drain.antt =====
-- The resend task comes to an end and leaves nothing to be sent, while the transport accepts.
use astarte_device_sdk_rust.Common.{
  ℕ, zero, suc, ◌+◌, ◌-◌, ◌≤◌, ◌<◌, ◌≡◌, refl, sym, ap, ◌∙◌, subst, ◌⊎◌, inl, inr, Bool, true,
  false, Option, some, List, [], ◌∷◌, map, arith, length, drop, retain, length-take, All-retain, ok,
  is_ok, Eq, nat_eq, str_eq, option_eq, int_eq,
}
use astarte_device_sdk_rust.Common.Map.{HasUniqueKeys}
use astarte_device_sdk_rust.Connection.Resend.{
  State, connected, resend, round, Device, send_device_properties, resend_volatile_publishes,
}
use astarte_device_sdk_rust.Connection.Resend.Batches.{
  waiting, HasDistinctIds, Accepts, send_props-drop, send_items-drop,
}
use astarte_device_sdk_rust.Foreign.{Retention}
use astarte_device_sdk_rust.Retention.{id_beq}
use astarte_device_sdk_rust.Retention.Volatile.{
  VolatileItem, get_unsent, remove_expired, is_live, is_unsent, to_pair,
}
use astarte_device_sdk_rust.Store.Memory.{key_eq, device_props_with_unset, to_opt_prop}
use astarte_device_sdk_rust.Transport.{Publish}

length-map : {A B : Type 0} (f : A → B) (xs : List A) → length (map f xs) ≡ length xs
length-map f [] = refl
length-map f (x ∷ xs) = ap suc (length-map f xs)

length-drop : {A : Type 0} (n : ℕ) (xs : List A) → length (drop n xs) ≡ length xs - n
length-drop zero xs = omega arith
length-drop (suc n) [] = omega arith
length-drop (suc n) (x ∷ xs) = omega (arith, length-drop n xs)

empty_lem : {A : Type 0} (xs : List A) → length xs ≡ 0 → xs ≡ []
empty_lem [] h = refl
empty_lem (x ∷ xs) h = absurd (omega (arith, h))

module _ {A : Type 0} (p q : A → Bool) where
  retain-shrinks : (xs : List A) → length (retain p (retain q xs)) ≤ length (retain p xs)
  retain-shrinks [] = omega arith
  retain-shrinks (x ∷ xs) = ground (arith, retain-shrinks xs)

retain-HasDistinctIds :
    {V : Type 0} (p : VolatileItem V → Bool) (items : List (VolatileItem V))
    → HasDistinctIds items
    → HasDistinctIds (retain p items)
retain-HasDistinctIds p [] h = tt
retain-HasDistinctIds p (i ∷ items) h = ground (
  arith,
  retain-HasDistinctIds p items h.1,
  All-retain (λ item. id_beq item.id i.id ≡ false) p items h.0,
)

module _ {S R V T : Type 0} ⦃eq : Eq V⦄ (as_expiry : Retention → Option ℕ)
    (transport : Publish S R V T) (IsReady : S → Type 0) where
  -- How much waits to be sent.
  abbrev pub backlog : Device S V → ℕ
  backlog d = length (retain is_unsent d.volatile_store.store) + length (waiting d.store)

  abbrev pub IsFit : Device S V → Type 0
  IsFit d = HasUniqueKeys d.store × HasDistinctIds d.volatile_store.store × IsReady d.sender

  volatile-drains :
      (limit now : ℕ) (d : Device S V)
      → Accepts as_expiry transport IsReady
      → IsFit d
      → let (sent, outcome) = resend_volatile_publishes as_expiry transport limit now d in
        let d' = outcome.1 in
        (is_ok outcome.0 ≡ true)
        × IsFit d'
        × (d'.store ≡ d.store)
        × (length (retain is_unsent d'.volatile_store.store) + sent
            ≤ length (retain is_unsent d.volatile_store.store))
        × (sent < limit → retain is_unsent d'.volatile_store.store ≡ [])
  unfolding resend_volatile_publishes get_unsent remove_expired
  volatile-drains limit now d a f =
      let kept = retain (is_live as_expiry now) d.volatile_store.store in
      let l = retain is_unsent kept in
      let d1 = record d { volatile_store = remove_expired as_expiry d.volatile_store now } in
      let (r, e, u, ready, s) =
        send_items-drop as_expiry transport IsReady limit l d1 a f.2
          (retain-HasDistinctIds (is_live as_expiry now) d.volatile_store.store f.1) refl in
      (
        r,
        (subst HasUniqueKeys (sym s) f.0, u, ready),
        s,
        rw e (
            omega (
              arith,
              length-drop limit l,
              length-take limit (map to_pair l),
              length-map to_pair l,
              retain-shrinks is_unsent (is_live as_expiry now) d.volatile_store.store,
            )),
        λ h.
            e
            ∙ empty_lem (drop limit l) (
                omega (
                  arith,
                  h,
                  length-drop limit l,
                  length-take limit (map to_pair l),
                  length-map to_pair l,
                )),
      )

  props-drain :
      (limit : ℕ) (d : Device S V)
      → Accepts as_expiry transport IsReady
      → IsFit d
      → let (sent, outcome) = send_device_properties as_expiry transport limit d in
        let d' = outcome.1 in
        (is_ok outcome.0 ≡ true)
        × IsFit d'
        × (d'.volatile_store ≡ d.volatile_store)
        × (length (waiting d'.store) + sent ≤ length (waiting d.store))
        × (sent < limit → waiting d'.store ≡ [])
  unfolding send_device_properties device_props_with_unset
  props-drain limit d a f =
      let l = waiting d.store in
      let (r, e, u, ready, s) =
        send_props-drop as_expiry transport IsReady limit l d a f.2 f.0 refl in
      (
        r,
        (u, subst (λ v. HasDistinctIds v.store) (sym s) f.1, ready),
        s,
        rw e (
            omega (
              arith,
              length-drop limit l,
              length-take limit (map to_opt_prop l),
              length-map to_opt_prop l,
            )),
        λ h.
            e
            ∙ empty_lem (drop limit l) (
                omega (
                  arith,
                  h,
                  length-drop limit l,
                  length-take limit (map to_opt_prop l),
                  length-map to_opt_prop l,
                )),
      )

  round-drains :
      (limit now : ℕ) (d : Device S V)
      → Accepts as_expiry transport IsReady
      → IsFit d
      → 0 < limit
      → let (result, d') = round as_expiry transport limit now d in
        IsFit d'
        × (((result ≡ ok true) × (backlog d' < backlog d))
            ⊎ ((result ≡ ok false)
                × (retain is_unsent d'.volatile_store.store ≡ [])
                × (waiting d'.store ≡ [])))
  unfolding round
  round-drains limit now d a f h =
      let v = resend_volatile_publishes as_expiry transport limit now d in
      let (r, f', s, n, z) = volatile-drains limit now d a f in
      let p = send_device_properties as_expiry transport limit v.1.1 in
      let (r', f'', s', n', z') = props-drain limit v.1.1 a f' in
      ground (
        arith,
        h,
        r,
        r',
        f'',
        ap waiting s,
        ap (λ (x : State V). retain is_unsent x.store) s',
        n,
        n',
        z,
        z',
      )

  -- Where a sender that is ready accepts every publish and property, stays ready, and takes nothing
  -- from the volatile store but what it was given: from a ready sender, with unique keys in the store,
  -- different identifiers in the volatile store and a limit above zero, the resend task ends after at most one
  -- round more than the publishes and properties that wait, whatever the time in each round. Then no
  -- item of the volatile store is unsent, no device property is in the state `Changed`, and the
  -- device is connected.
  pub resend-drains :
      (fuel : ℕ) (clock : ℕ → ℕ) (limit : ℕ) (d : Device S V)
      → Accepts as_expiry transport IsReady
      → IsFit d
      → 0 < limit
      → backlog d < fuel
      → (d' : Device S V) × (resend as_expiry transport fuel clock limit d ≡ some d')
        × (retain is_unsent d'.volatile_store.store ≡ [])
        × (waiting d'.store ≡ [])
        × (d'.status ≡ connected)
  unfolding resend
  resend-drains zero clock limit d a f h b = absurd (omega (arith, b))
  resend-drains (suc fuel) clock limit d a f h b =
      let d1 = (round as_expiry transport limit (clock fuel) d).1 in
      let (f', c) = round-drains limit (clock fuel) d a f h in
      elim c [
        | inl (e, l) ↦
            rw (e, resend) (resend-drains fuel clock limit d1 a f' h (omega (arith, l, b)))
        | inr (e, u, w) ↦ rw (e, resend) (record d1 { status = connected }, refl, u, w, refl)
      ]
