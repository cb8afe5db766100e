-- ===== src/Client.antt =====
-- src/client/mod.rs: how the client sends a datastream, by the status of the connection and the
-- retention of the interface. `Device` holds the parts of the client that this reads and writes: the
-- sender, the retention of the store where it has one, the volatile store and the context that makes
-- identifiers. The retention's methods say whether they succeeded. `Clock` is what one call reads
-- from the clock: for the identifier, for the expiry of items, and for the new item.
pub mod Sending
pub mod Property
pub mod Introspection
use astarte_device_sdk_rust.Common.{
  ℕ, Bool, true, false, Option, none, some, if◌then◌else◌, Result, ok, err, ensure, is_ok, nat_eq,
  str_eq, option_eq, int_eq,
}
use astarte_device_sdk_rust.Error
use astarte_device_sdk_rust.Error.{ErrorKind}
use astarte_device_sdk_rust.Foreign.{Retention, discard, volatile, stored}
use astarte_device_sdk_rust.Retention.{PublishId, RetentionId, Context, next}
use astarte_device_sdk_rust.Retention.Volatile.{
  State, ItemValue, individual, object, VolatileItemError, from_individual, from_object,
  retention_of, push, mark_sent,
}
use astarte_device_sdk_rust.Transport.{
  ConnStatus, disconnected, connected, closed, Outcome, Publish, Shared, StoredRetention,
}

pub record Clock : Type 0 where
  pub id_at : ℕ
  pub now : ℕ
  pub stored_at : ℕ

pub record Device (S R V : Type 0) : Type 0 where
  pub sender : S
  pub retention : Option R
  pub volatile_store : State V
  pub context : Context

-- `TryInto<ItemValue>` of the packet.
unfoldable pub try_item : {V : Type 0} → ItemValue V → Result VolatileItemError (ItemValue V)
unfolding from_individual from_object
try_item (individual v) = from_individual v
try_item (object v) = from_object v

module _ {S R V T : Type 0} (as_expiry : Retention → Option ℕ) (grown : ℕ → ℕ)
    (transport : Publish S R V T) (retention : StoredRetention R V) where
  -- `push_sent` and `push_unsent` under a new identifier, and that identifier.
  unfoldable pub push_next : Device S R V → ItemValue V → Bool → Clock → PublishId × Device S R V
  unfolding next push try_item
  push_next d item sent clock =
      let (id, ctx) = next d.context clock.id_at in
      (
        id,
        record d {
          context = ctx;
          volatile_store =
              push as_expiry grown d.volatile_store id (try_item item) sent clock.now
                clock.stored_at;
        },
      )

  -- `store_publish` of the packet: it is serialized, and stored if that succeeds.
  unfoldable pub store_publish : PublishId → ItemValue V → Bool → S → R → Outcome T R
  store_publish id item sent sender r = elim (transport.serialize_item item sender) [
    | err e ↦ (err e, r)
    | ok payload ↦
        let (done, r') = retention.store_publish id item payload sent r in
        (ensure done Error.retention, r')
  ]

  -- `volatile_mark_unsent`.
  unfoldable pub volatile_mark_unsent : Device S R V → PublishId → Device S R V
  unfolding mark_sent
  volatile_mark_unsent d id =
      let (old, s) = mark_sent d.volatile_store id false in record d { volatile_store = s }

  -- `stored_mark_unsent`: an error is logged.
  unfoldable pub stored_mark_unsent : Device S R V → PublishId → Device S R V
  stored_mark_unsent d id = elim d.retention [
    | none ↦ d
    | some r ↦
        let (done, r') = retention.update_sent_flag id false r in record d { retention = some r' }
  ]

  -- `data.send_stored(id, sender)`, where the sender may write to what it shares with the client.
  unfoldable pub publish_stored :
      RetentionId → ItemValue V → Device S R V → Outcome T (Device S R V)
  publish_stored id item d =
      let kept : Shared R V = record {
        volatile_store = d.volatile_store;
        retention = d.retention;
      } in
      let (result, after) = transport.send_item_stored id item d.sender kept in
      let (sender, kept') = after in
      (
        result,
        record d {
          sender = sender;
          volatile_store = kept'.volatile_store;
          retention = kept'.retention;
        },
      )

  unfoldable pub send_volatile : Device S R V → ItemValue V → Clock → Outcome T (Device S R V)
  unfolding push_next publish_stored volatile_mark_unsent
  send_volatile d item clock =
      let (id, d') = push_next d item true clock in
      let (result, d'') = publish_stored (RetentionId.volatile id) item d' in
      (result, (if is_ok result then d'' else volatile_mark_unsent d'' id))

  -- The rest of `send_stored`, once the publish has been stored.
  unfoldable pub send_after_store :
      PublishId → ItemValue V → Device S R V → Outcome T (Device S R V)
  unfolding publish_stored stored_mark_unsent
  send_after_store id item d =
      let (result, d') = publish_stored (RetentionId.stored id) item d in
      (result, (if is_ok result then d' else stored_mark_unsent d' id))

  unfoldable pub send_stored : Device S R V → ItemValue V → Clock → Outcome T (Device S R V)
  unfolding next store_publish send_after_store send_volatile
  send_stored d item clock = elim d.retention [
    | none ↦ send_volatile d item clock
    | some r ↦
        let (id, ctx) = next d.context clock.id_at in
        let (result, r') = store_publish id item true d.sender r in
        let d' = record d { context = ctx; retention = some r' } in
        if is_ok result then send_after_store id item d' else (result, d')
  ]

  unfoldable pub offline_send : Device S R V → ItemValue V → Clock → Outcome T (Device S R V)
  unfolding next store_publish push_next retention_of
  offline_send d item clock = elim (retention_of item) [
    | discard ↦ (ok tt, d)
    | volatile expiry ↦ let (id, d') = push_next d item false clock in (ok tt, d')
    | stored expiry ↦ elim d.retention [
      | none ↦ let (id, d') = push_next d item false clock in (ok tt, d')
      | some r ↦
          let (id, ctx) = next d.context clock.id_at in
          let (result, r') = store_publish id item false d.sender r in
          (result, record d { context = ctx; retention = some r' })
    ]
  ]

  unfoldable pub send : ConnStatus → Device S R V → ItemValue V → Clock → Outcome T (Device S R V)
  unfolding offline_send send_volatile send_stored retention_of
  send connected d item clock = elim (retention_of item) [
    | discard ↦
        let (result, sender) = transport.send_item item d.sender in
        (result, record d { sender = sender })
    | volatile expiry ↦ send_volatile d item clock
    | stored expiry ↦ send_stored d item clock
  ]
  send disconnected d item clock = offline_send d item clock
  send closed d item clock =
      let (result, d') = offline_send d item clock in (err Error.disconnected, d')
