-- ===== src/Transport.antt =====
-- The traits through which the parts meet: `Publish` and `Register` of src/transport/mod.rs, which a
-- transport implements for the client, and the part of `StoredRetention` of src/retention/mod.rs that the
-- client calls. `S` is a sender, `R` a retention, `V` the values. A
-- method takes what it may change and gives it back with its result. The two types of datastream are
-- the two cases of `ItemValue`, each with its own method in the source. `ConnStatus`
-- is of src/state.rs.
use astarte_device_sdk_rust.Common.{List, Bool, Option, Result, Str}
use astarte_device_sdk_rust.Error.{ErrorKind}
use astarte_device_sdk_rust.Interfaces.{Interfaces, Validated}
use astarte_device_sdk_rust.Packet.{ValidatedProperty, ValidatedUnset}
use astarte_device_sdk_rust.Retention.{PublishId, RetentionId}
use astarte_device_sdk_rust.Retention.Volatile.{State, ItemValue}
use astarte_device_sdk_rust.Store.{OptStoredProp}

pub data ConnStatus : Type 0 where
  disconnected connected closed : ConnStatus

-- What a fallible operation on `S` gives.
abbrev pub Outcome : Type 0 → Type 0 → Type 0
Outcome T S = Result (ErrorKind T) (Unit {0}) × S

-- What the client and its sender both write to: the volatile store of `SharedState`, and the
-- retention of the store where it has one.
pub record Shared (R V : Type 0) : Type 0 where
  pub volatile_store : State V
  pub retention : Option R

pub record Publish (S R V T : Type 0) : Type 0 where
  pub send_item : ItemValue V → S → Outcome T S
  pub send_item_stored : RetentionId → ItemValue V → S → Shared R V → Outcome T (S × Shared R V)
  pub serialize_item : ItemValue V → S → Result (ErrorKind T) Str
  pub send_property : ValidatedProperty V → S → Outcome T S
  pub unset : ValidatedUnset → S → Outcome T S
  pub resend_stored_property : OptStoredProp V → S → Outcome T S

pub record StoredRetention (R V : Type 0) : Type 0 where
  pub store_publish : PublishId → ItemValue V → Str → Bool → R → Bool × R
  pub update_sent_flag : PublishId → Bool → R → Bool × R

-- A `ValidatedCollection` and a `HashMap` of the removed are lists of entries.
pub record Register (S I T : Type 0) : Type 0 where
  pub add_interface : Interfaces I → Validated I → S → Outcome T S
  pub extend_interfaces : Interfaces I → List (Str × Validated I) → S → Outcome T S
  pub remove_interface : Interfaces I → I → S → Outcome T S
  pub remove_interfaces : Interfaces I → List (Str × I) → S → Outcome T S
