-- ===== src/Retention/Stored.antt =====
-- src/retention/sqlite/mod.rs and statements.rs: the stored retention in SQLite, with the queries of
-- queries/retention and the tables of migrations/0001_init.sql. A table is the list of its rows:
-- that of the publishes in the order of its primary key, which is the order that the queries ask
-- for. Each method is a step on the database; statements fail where a constraint of the table does,
-- not for a connection that fails. `foreign_keys` is on, so deleting a mapping deletes its publishes.
-- A duration is a number of nanoseconds; `now` is what `TimestampSecs::now` reads, in seconds.
pub mod Tables
pub mod Rows
pub mod Integrity
pub mod Runs
pub mod Delivery
pub mod Unsent
pub mod Cleanup
use astarte_device_sdk_rust.Common.{
  ℕ, ◌+◌, ◌-◌, ◌*◌, ◌/◌, ◌^◌, min, Bool, false, ◌&&◌, Option, none, some, List, [], ◌∷◌, ltb,
  if◌then◌else◌, Result, ok, err, ◌>>=◌, ◌>>◌, nat_eq, Str, str_beq, str_eq, option_beq, option_eq,
  ℤ, int_beq, int_eq,
}
use astarte_device_sdk_rust.Foreign.{Reliability, Retention, reliability_beq}
use astarte_device_sdk_rust.Packet.{ValidatedIndividual, ValidatedObject}
use astarte_device_sdk_rust.Retention.{PublishId, id_beq}
use astarte_device_sdk_rust.Retention.Volatile.{ItemValue, individual, object}

pub data RetentionError : Type 0 where
  store received update_sent reset unsent delete_interface : RetentionError
  delete_interface_many fetch_interfaces set_capacity connection : RetentionError

pub record PublishInfo : Type 0 where
  pub interface : Str
  pub path : Str
  pub version_major : ℤ
  pub reliability : Reliability
  pub expiry : Option ℕ
  pub sent : Bool
  pub value : Str

pub record StoredInterface : Type 0 where
  pub name : Str
  pub version_major : ℤ

pub record RetentionMapping : Type 0 where
  pub interface : Str
  pub path : Str
  pub version_major : ℤ
  pub reliability : Reliability
  pub expiry : Option ℕ

-- A row of `retention_mapping`.
pub record MappingRow : Type 0 where
  pub interface : Str
  pub path : Str
  pub major_version : ℤ
  pub reliability : Reliability
  pub expiry_sec : Option ℕ

-- A row of `retention_publish` too, `expiry_time` in seconds.
pub record RetentionPublish : Type 0 where
  pub id : PublishId
  pub interface : Str
  pub path : Str
  pub expiry_time : Option ℕ
  pub sent : Bool
  pub payload : Str

pub record Database : Type 0 where
  pub mappings : List MappingRow
  pub publishes : List RetentionPublish
  pub retention_capacity : ℕ

-- `from_ref` of an individual or an object, whose debug assertion the callers respect.
unfoldable pub from_value :
    {V : Type 0} → (Retention → Option ℕ) → Bool → ItemValue V → Str → PublishInfo
from_value as_expiry sent (individual v) value = record {
  interface = v.interface;
  path = v.path;
  version_major = v.version_major;
  reliability = v.reliability;
  expiry = as_expiry v.retention;
  sent = sent;
  value = value;
}
from_value as_expiry sent (object v) value = record {
  interface = v.interface;
  path = v.path;
  version_major = v.version_major;
  reliability = v.reliability;
  expiry = as_expiry v.retention;
  sent = sent;
  value = value;
}

abbrev pub mapping_of_info : PublishInfo → RetentionMapping
mapping_of_info info = record {
  interface = info.interface;
  path = info.path;
  version_major = info.version_major;
  reliability = info.reliability;
  expiry = info.expiry;
}

-- An expiry whose seconds are no `i64` is stored as none.
unfoldable pub expiry_to_sql : Option ℕ → Option ℕ
expiry_to_sql none = none
expiry_to_sql (some expiry) =
    if ltb (expiry / 10 ^ 9) (2 ^ 63) then some (expiry / 10 ^ 9) else none

unfoldable pub expiry_from_sql : Option ℕ → Option ℕ
expiry_from_sql none = none
expiry_from_sql (some secs) = some (secs * 10 ^ 9)

-- `TimestampSecs::from_id`, of an identifier whose milliseconds are a `u64`; `saturating_add` ends at
-- the greatest duration.
unfoldable pub from_id : PublishId → ℕ → Result RetentionError ℕ
from_id id expiry =
    if ltb id.timestamp (2 ^ 64)
    then ok (min (id.timestamp * 10 ^ 6 + expiry) (2 ^ 64 * 10 ^ 9 - 1) / 10 ^ 9)
    else err store

unfoldable pub from_info : PublishId → PublishInfo → Result RetentionError RetentionPublish
unfolding from_id
from_info id info = do
  expiry_time ← elim info.expiry [
    | none ↦ ok none
    | some expiry ↦ elim (from_id id expiry) [ ok t ↦ ok (some t) | err e ↦ err e ]
  ]
  ok (record {
    id = id;
    interface = info.interface;
    path = info.path;
    expiry_time = expiry_time;
    sent = info.sent;
    payload = info.value;
  })

unfoldable pub row_to_mapping : MappingRow → RetentionMapping
unfolding expiry_from_sql
row_to_mapping row = record {
  interface = row.interface;
  path = row.path;
  version_major = row.major_version;
  reliability = row.reliability;
  expiry = expiry_from_sql row.expiry_sec;
}

-- The derived equality of `RetentionMapping`.
unfoldable pub same_mapping : RetentionMapping → RetentionMapping → Bool
same_mapping a b =
    str_beq a.interface b.interface
    && str_beq a.path b.path
    && int_beq a.version_major b.version_major
    && reliability_beq a.reliability b.reliability
    && option_beq a.expiry b.expiry

abbrev pub is_row_of : Str → Str → MappingRow → Bool
is_row_of interface path row = str_beq row.interface interface && str_beq row.path path

abbrev pub is_publish_of : Str → Str → RetentionPublish → Bool
is_publish_of interface path p = str_beq p.interface interface && str_beq p.path path

-- `expiry_t_secs < ?`, which is not true of NULL.
abbrev pub is_expired : ℕ → RetentionPublish → Bool
is_expired now p = elim p.expiry_time [ none ↦ false | some t ↦ ltb t now ]

-- `usize::saturating_add`.
abbrev pub saturating_add : ℕ → ℕ → ℕ
saturating_add a b = min (a + b) (2 ^ 64 - 1)

-- `i64::try_from(n).unwrap_or(i64::MAX)`.
abbrev pub cap_limit : ℕ → ℕ
cap_limit n = min n (2 ^ 63 - 1)
