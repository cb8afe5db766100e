-- ===== src/Connection/EventLoop/Reconnecting.antt =====
-- The reconnection of src/connection/resend.rs: when it returns, and what it leaves to be sent again.
use astarte_device_sdk_rust.Common.{
  ℕ, zero, suc, ◌≤◌, ◌≡◌, refl, sym, ap, subst, inl, inr, Bool, true, false, not, ◌&&◌, Option,
  none, some, List, [], ◌∷◌, map, arith, if◌then◌else◌, Bool-cases, All, Result, ok, err, nat_eq,
  Str, str_eq, option_eq, int_eq,
}
use astarte_device_sdk_rust.Error.{ErrorKind}
use astarte_device_sdk_rust.Foreign.{InterfaceApi, device, ownership_beq}
use astarte_device_sdk_rust.Interfaces.{Interfaces}
use astarte_device_sdk_rust.Connection.Incoming.{Value, ReceivedEvent, Deserializers, handle_event}
use astarte_device_sdk_rust.Connection.EventLoop.{
  Device, AttemptStatus, attempt_connected, attempt_received, attempt_disconnected, ControlFlow,
  continue_loop, break_loop, after_event, after_attempt, reset_all, send_handled,
  handle_and_send_to_client, attempts, finish_reconnect, reconnect, map_retention,
}
use astarte_device_sdk_rust.Retention.Stored.{Database, RetentionPublish}
use astarte_device_sdk_rust.Retention.Stored.Tables.{
  reset_all_publishes, delete_expired, clear_sent,
}
use astarte_device_sdk_rust.Retention.Volatile.{VolatileItem, reset_sent, clear_sent as clear_item}
use astarte_device_sdk_rust.Store.{changed, state_beq}
use astarte_device_sdk_rust.Store.Memory
use astarte_device_sdk_rust.Store.Memory.{Memory, Key, reset_state}

-- A device property that does not wait to be sent.
abbrev pub is_settled : {V : Type 0} → Key × Memory.Value V → Bool
is_settled e = ownership_beq e.1.ownership device && not (state_beq e.1.state changed)

abbrev pub IsUnsentIn : Option Database → Type 0
IsUnsentIn none = Unit
IsUnsentIn (some db) = All (λ p. p.sent ≡ false) db.publishes

module _ {C I V : Type 0} where
  -- Everything that is kept is there to be sent.
  abbrev pub IsUnsent : Device C I V → Type 0
  IsUnsent d =
      All (λ item. item.sent ≡ false) d.volatile_store.store
      × IsUnsentIn d.retention
      × All (λ e. is_settled e ≡ false) d.store

module _ {V : Type 0} where
  cleared-items : (l : List (VolatileItem V)) → All (λ item. item.sent ≡ false) (map clear_item l)
  cleared-items [] = tt
  cleared-items (item ∷ l) = (refl, cleared-items l)

  cleared-props : (s : Memory V) → All (λ e. is_settled e ≡ false) (reset_state s device)
  unfolding reset_state
  cleared-props [] = tt
  cleared-props (e ∷ s) = ground (arith, cleared-props s)

cleared-publishes : (l : List RetentionPublish) → All (λ p. p.sent ≡ false) (map clear_sent l)
cleared-publishes [] = tt
cleared-publishes (p ∷ l) = (refl, cleared-publishes l)

cleared-retention :
    (o : Option Database) (clock : ℕ)
    → IsUnsentIn (map_retention (λ db. reset_all_publishes db clock) o)
unfolding reset_all_publishes
cleared-retention none clock = tt
cleared-retention (some db) clock = cleared-publishes (delete_expired db clock).1.publishes

module _ {C I M P V T : Type 0} (api : InterfaceApi I M) (receive : Deserializers I M P V T)
    (is_path : Str → Bool) (debug : Bool) (now : ℕ)
    (next_event : C → Result (ErrorKind T) (Option (ReceivedEvent P)) × C)
    (attempt : Interfaces I → C → Result (ErrorKind T) (AttemptStatus P) × C) (stops : ℕ → Bool)
    (clock : ℕ) where
  reset_all-IsUnsent : (d : Device C I V) → IsUnsent (reset_all d clock)
  unfolding reset_all reset_sent
  reset_all-IsUnsent d = (
    cleared-items d.volatile_store.store,
    cleared-retention d.retention clock,
    cleared-props d.store,
  )

  -- The transport connects, or fails, within that many attempts.
  pub data Concludes (interfaces : Interfaces I) : C → ℕ → Type 0 where
    connects :
        {c c' : C} {session : Bool}
        → attempt interfaces c ≡ (ok (attempt_connected session), c')
        → Concludes interfaces c 1
    fails :
        {c c' : C} {e : ErrorKind T} → attempt interfaces c ≡ (err e, c') → Concludes interfaces c 1
    goes_on :
        {c c' : C} {status : AttemptStatus P} {n : ℕ}
        → attempt interfaces c ≡ (ok status, c')
        → Concludes interfaces c' n
        → Concludes interfaces c (suc n)

  handle-connection :
      (d : Device C I V) (event : ReceivedEvent P)
      → let d' =
          (handle_and_send_to_client api receive is_path debug now next_event attempt stops clock d
            event).1 in
        (d'.connection ≡ d.connection) × (d'.interfaces ≡ d.interfaces)
  unfolding handle_and_send_to_client
  handle-connection d event =
      go (handle_event api receive is_path debug now d.interfaces event d.store)
    where
      go :
          (o : Result (ErrorKind T) (Value V) × Memory V)
          → let d' =
              (send_handled api receive is_path debug now next_event attempt stops clock d event
                o).1 in
            (d'.connection ≡ d.connection) × (d'.interfaces ≡ d.interfaces)
      go (err e, s) = unfold send_handled in (refl, refl)
      go (ok value, s) = unfold send_handled in ground arith

  -- Whether a loop has returned.
  abbrev Returns : Option (Result (ErrorKind T) (Option Bool) × Device C I V) → Type 0
  Returns o = (r : Result (ErrorKind T) (Option Bool) × Device C I V) × (o ≡ some r)

  after_event-Returns :
      (later : Device C I V → Option (Result (ErrorKind T) (Option Bool) × Device C I V))
      (o : Result (ErrorKind T) (Unit {0}) × Device C I V)
      → Returns (later o.1)
      → Returns (after_event api receive is_path debug now next_event attempt stops clock later o)
  unfolding after_event
  after_event-Returns later (err e, d) h = (_, refl)
  after_event-Returns later (ok _, d) h = h

  after_attempt-Returns :
      (stop : Bool)
      (later : Device C I V → Option (Result (ErrorKind T) (Option Bool) × Device C I V))
      (d : Device C I V) (r : Result (ErrorKind T) (AttemptStatus P))
      → ((d' : Device C I V)
          → d'.connection ≡ d.connection
          → d'.interfaces ≡ d.interfaces
          → Returns (later d'))
      → Returns (
          after_attempt api receive is_path debug now next_event attempt stops clock stop later d r)
  unfolding after_attempt
  after_attempt-Returns stop later d (err e) h = (_, refl)
  after_attempt-Returns stop later d (ok (attempt_connected session)) h = (_, refl)
  after_attempt-Returns stop later d (ok (attempt_received event)) h =
      let (same, same_interfaces) = handle-connection d event in
      after_event-Returns later
        (handle_and_send_to_client api receive is_path debug now next_event attempt stops clock d
          event)
        (h _ same same_interfaces)
  after_attempt-Returns true later d (ok attempt_disconnected) h = (_, refl)
  after_attempt-Returns false later d (ok attempt_disconnected) h = h d refl refl

  attempts-after :
      (fuel : ℕ) (d : Device C I V) (r : Result (ErrorKind T) (AttemptStatus P)) (c : C)
      → attempt d.interfaces d.connection ≡ (r, c)
      → attempts api receive is_path debug now next_event attempt stops clock (suc fuel) d
        ≡ after_attempt api receive is_path debug now next_event attempt stops clock
            (stops fuel)
            (λ d'. attempts api receive is_path debug now next_event attempt stops clock fuel d')
            (record d { connection = c })
            r
  unfolding attempts
  attempts-after fuel d r c e =
      ap
        (λ o.
          after_attempt api receive is_path debug now next_event attempt stops clock (stops fuel)
            (λ d'. attempts api receive is_path debug now next_event attempt stops clock fuel d')
            (record d { connection = o.1 }) o.0)
        e

  attempts-Returns :
      (fuel : ℕ) {n : ℕ} (d : Device C I V)
      → Concludes d.interfaces d.connection n
      → n ≤ fuel
      → Returns (attempts api receive is_path debug now next_event attempt stops clock fuel d)
  unfolding after_attempt
  attempts-Returns zero d (connects e) l = absurd (omega (arith, l))
  attempts-Returns zero d (fails e) l = absurd (omega (arith, l))
  attempts-Returns zero d (goes_on e c) l = absurd (omega (arith, l))
  attempts-Returns (suc fuel) d (connects {c' = c'} {session = s} e) l =
      (_, attempts-after fuel d (ok (attempt_connected s)) c' e)
  attempts-Returns (suc fuel) d (fails {c' = c'} {e = x} e) l =
      (_, attempts-after fuel d (err x) c' e)
  attempts-Returns (suc fuel) d (goes_on {c' = c'} {status = status} {n = n} e c) l =
      rw (attempts-after fuel d (ok status) c' e) (
        after_attempt-Returns (stops fuel)
          (λ d'. attempts api receive is_path debug now next_event attempt stops clock fuel d')
          (record d { connection = c' }) (ok status)
          (λ d' same same_interfaces.
            attempts-Returns fuel d'
              (subst (λ i. Concludes i d'.connection n) (sym same_interfaces)
                (subst (λ k. Concludes d.interfaces k n) (sym same) c))
              (omega (arith, l))))

  -- What a reconnection leaves: if it goes on, the transport connected, and unless it found the
  -- session, everything kept is unsent.
  abbrev pub Leaves :
      Option (Result (ErrorKind T) (Option Bool) × Device C I V)
      → Result (ErrorKind T) ControlFlow × Device C I V
      → Type 0
  Leaves o (ok continue_loop, d') =
      (session : Bool) × (d : Device C I V) × (o ≡ some (ok (some session), d))
      × (if session then d' ≡ d else IsUnsent d')
  Leaves o (r, d') = Unit

  finish-Leaves :
      (o : Result (ErrorKind T) (Option Bool) × Device C I V)
      → Leaves
          (some o)
          (finish_reconnect api receive is_path debug now next_event attempt stops clock o)
  unfolding finish_reconnect
  finish-Leaves (err e, d) = tt
  finish-Leaves (ok none, d) = tt
  finish-Leaves (ok (some true), d) = (true, d, refl, refl)
  finish-Leaves (ok (some false), d) = (false, d, refl, reset_all-IsUnsent d)

  -- A reconnection whose transport connects, or fails, within as many attempts as the fuel ends with a
  -- result, whatever events come in between and whenever a client asks to disconnect. If the loop goes
  -- on after it, the transport connected: where that found the session, the device is as the attempts
  -- left it; where it did not, every volatile and every stored publish is unsent and every device
  -- property waits to be sent.
  pub reconnect-returns :
      (fuel : ℕ) {n : ℕ} (d : Device C I V)
      → Concludes d.interfaces d.connection n
      → n ≤ fuel
      → (r : Result (ErrorKind T) ControlFlow × Device C I V) × (reconnect api receive is_path debug
            now next_event attempt stops clock fuel d
          ≡ some r)
        × Leaves (attempts api receive is_path debug now next_event attempt stops clock fuel d) r
  unfolding reconnect
  reconnect-returns fuel d c l =
      let (o, e) = attempts-Returns fuel d c l in
      elim (Bool-cases (stops fuel)) [
        | inl s ↦ ((ok break_loop, d), ground (arith, s), tt)
        | inr s ↦ (
          finish_reconnect api receive is_path debug now next_event attempt stops clock o,
          ground (arith, s, e),
          subst
              (λ x.
                Leaves x
                  (finish_reconnect api receive is_path debug now next_event attempt stops clock o))
              (sym e) (finish-Leaves o),
        )
      ]
