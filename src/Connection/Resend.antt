-- ===== src/Connection/Resend.antt =====
-- src/connection/resend.rs: the task that sends again, after a reconnection, the volatile publishes
-- and the device properties that were not sent, in batches of at most `limit`, and its loop. The
-- store is the one in memory, which has no retention of its own: `resend_stored_publishes` returns 0
-- there. `Device` is what the task reads and writes; `clock` is the time that each round reads.
pub mod Batches
pub mod Drain
use astarte_device_sdk_rust.Common.{
  [], ℕ, zero, suc, Bool, true, false, ◌||◌, Option, none, some, List, ◌∷◌, leb, if◌then◌else◌,
  length, count, Result, ok, err, is_ok, Eq, nat_eq, str_eq, option_eq, int_eq,
}
use astarte_device_sdk_rust.Error.{ErrorKind}
use astarte_device_sdk_rust.Foreign.{Retention}
use astarte_device_sdk_rust.Retention.{PublishId, RetentionId}
use astarte_device_sdk_rust.Retention.Volatile.{State, ItemValue, get_unsent, mark_sent}
use astarte_device_sdk_rust.Store.{OptStoredProp, changed, completed, mapping_of}
use astarte_device_sdk_rust.Store.Memory.{
  Memory, device_props_with_unset, update_state, delete_expected_prop,
}
use astarte_device_sdk_rust.Transport.{ConnStatus, connected, Outcome, Publish, Shared}

pub record Device (S V : Type 0) : Type 0 where
  pub sender : S
  pub store : Memory V
  pub volatile_store : State V
  pub status : ConnStatus

module _ {V : Type 0} ⦃eq : Eq V⦄ where
  -- The update of the store once a property was sent.
  unfoldable pub after_sent : OptStoredProp V → Memory V → Memory V
  unfolding update_state delete_expected_prop mapping_of
  after_sent p s = elim p.value [
    | none ↦ (delete_expected_prop s (mapping_of p) none).1
    | some v ↦ (update_state s (mapping_of p) completed (some v)).1
  ]

module _ {S R V T : Type 0} ⦃eq : Eq V⦄ (as_expiry : Retention → Option ℕ)
    (transport : Publish S R V T) where
  -- The loop of `send_device_properties`.
  unfoldable pub send_props : List (OptStoredProp V) → Device S V → Outcome T (Device S V)
  unfolding after_sent
  send_props [] d = (ok tt, d)
  send_props (p ∷ rest) d =
      let (result, sender) = transport.resend_stored_property p d.sender in
      let later = send_props rest (record d { sender = sender; store = after_sent p d.store }) in
      if is_ok result then later else (result, record d { sender = sender })

  unfoldable pub send_device_properties : ℕ → Device S V → ℕ × Outcome T (Device S V)
  unfolding send_props device_props_with_unset
  send_device_properties limit d =
      let props = device_props_with_unset d.store changed limit 0 in
      (length props, send_props props d)

  abbrev pub with_sent : PublishId → Bool → Device S V → Device S V
  with_sent id sent d = record d { volatile_store = (mark_sent d.volatile_store id sent).1 }

  -- The loop of `resend_volatile_publishes`.
  unfoldable pub send_items : List (PublishId × ItemValue V) → Device S V → Outcome T (Device S V)
  send_items [] d = (ok tt, d)
  send_items ((id, value) ∷ rest) d =
      let d' = with_sent id true d in
      let kept : Shared R V = record { volatile_store = d'.volatile_store; retention = none } in
      let (result, after) =
        transport.send_item_stored (RetentionId.volatile id) value d'.sender kept in
      let (sender, kept') = after in
      let d'' = record d' { sender = sender; volatile_store = kept'.volatile_store } in
      let later = send_items rest d'' in
      if is_ok result then later else (result, with_sent id false d'')

  unfoldable pub resend_volatile_publishes : ℕ → ℕ → Device S V → ℕ × Outcome T (Device S V)
  unfolding send_items get_unsent
  resend_volatile_publishes limit now d =
      let (count, unsent, s) = get_unsent as_expiry d.volatile_store [] limit now in
      (count, send_items unsent (record d { volatile_store = s }))

  -- The body of the loop of `resend`: whether there may be more to send, or the error that ends it.
  unfoldable pub round : ℕ → ℕ → Device S V → Result (ErrorKind T) Bool × Device S V
  unfolding resend_volatile_publishes send_device_properties
  round limit now d =
      let (sent, volatile_result) = resend_volatile_publishes limit now d in
      let (result, d') = volatile_result in
      let (sent', property_result) = send_device_properties limit d' in
      let (result', d'') = property_result in
      elim result [
        | err e ↦ (err e, d')
        | ok _ ↦ elim result' [
          | err e ↦ (err e, d'')
          | ok _ ↦ (ok (leb limit sent || (leb limit 0 || leb limit sent')), d'')
        ]
      ]

  -- `resend`, for at most as many rounds as the fuel. An error ends it as well.
  unfoldable pub resend : ℕ → (ℕ → ℕ) → ℕ → Device S V → Option (Device S V)
  unfolding round
  resend zero clock limit d = none
  resend (suc fuel) clock limit d =
      let (result, d') = round limit (clock fuel) d in
      let later = resend fuel clock limit d' in
      elim result [
        | err e ↦ some (record d' { status = connected })
        | ok more ↦ if more then later else some (record d' { status = connected })
      ]
