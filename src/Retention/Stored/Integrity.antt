-- ===== src/Retention/Stored/Integrity.antt =====
-- The integrity of the stored retention: what its constraints and its capacity promise.
use astarte_device_sdk_rust.Common.{
  ℕ, ◌+◌, ◌-◌, ◌^◌, ◌≤◌, ◌<◌, min, ◌≡◌, Bool, not, map, arith, length, retain, count, All,
  retain-count, All-retain, nat_eq, str_eq, option_eq, int_eq,
}
use astarte_device_sdk_rust.Retention.Stored.{RetentionPublish, Database, is_expired, cap_limit}
use astarte_device_sdk_rust.Retention.Stored.Rows.{
  IsSorted, HasMapping, HasUniqueRows, IsSorted-retain, IsSorted-drop, All-drop, IsSorted-map,
  All-map, length-drop,
}
use astarte_device_sdk_rust.Retention.Stored.Tables.{
  count_stored, delete_expired, remove_oldest, free_retention_items,
}

-- The publishes are in order with different keys, each has its mapping, and the mappings have
-- different keys.
abbrev pub HasIntegrity : Database → Type 0
HasIntegrity db =
    IsSorted db.publishes × All (HasMapping db.mappings) db.publishes × HasUniqueRows db.mappings

-- The publishes fit the capacity, which is not 0.
abbrev pub IsBounded : Database → Type 0
IsBounded db =
    (0 < db.retention_capacity)
    × (db.retention_capacity < 2 ^ 63)
    × (length db.publishes ≤ db.retention_capacity)

pub retain-HasIntegrity :
    (db : Database) (f : RetentionPublish → Bool)
    → HasIntegrity db
    → HasIntegrity (record db { publishes = retain f db.publishes })
retain-HasIntegrity db f h = (
  IsSorted-retain f db.publishes h.0,
  All-retain (HasMapping db.mappings) f db.publishes h.1,
  h.2,
)

pub map-HasIntegrity :
    (db : Database) (f : RetentionPublish → RetentionPublish)
    → ((p : RetentionPublish)
        → ((f p).id ≡ p.id) × (HasMapping db.mappings p → HasMapping db.mappings (f p)))
    → HasIntegrity db
    → HasIntegrity (record db { publishes = map f db.publishes })
map-HasIntegrity db f k h = (
  IsSorted-map f (λ p. (k p).0) db.publishes h.0,
  All-map (HasMapping db.mappings) f db.publishes (λ p. (k p).1) h.1,
  h.2,
)

remove_oldest-HasIntegrity :
    (db : Database) (n : ℕ) → HasIntegrity db → HasIntegrity (remove_oldest db n).1
unfolding remove_oldest
remove_oldest-HasIntegrity db n h = (
  IsSorted-drop (cap_limit n) db.publishes h.0,
  All-drop (HasMapping db.mappings) (cap_limit n) db.publishes h.1,
  h.2,
)

pub delete_expired-HasIntegrity :
    (db : Database) (now : ℕ) → HasIntegrity db → HasIntegrity (delete_expired db now).1
unfolding delete_expired
delete_expired-HasIntegrity db now h = retain-HasIntegrity db (λ p. not (is_expired now p)) h

pub free-HasIntegrity :
    (db : Database) (n now : ℕ) → HasIntegrity db → HasIntegrity (free_retention_items db n now).1
unfolding free_retention_items
free-HasIntegrity db n now h =
    let expired = delete_expired db now in
    let stored = min (count_stored db + n) (2 ^ 64 - 1) in
    let d = delete_expired-HasIntegrity db now h in
    ground (
      arith,
      h,
      d,
      remove_oldest-HasIntegrity expired.1 (stored - expired.0 - db.retention_capacity) d,
    )

-- Room is made for the items to store, and the capacity and the mappings stay.
pub free-room :
    (db : Database) (n now : ℕ)
    → n ≤ db.retention_capacity
    → db.retention_capacity < 2 ^ 63
    → length db.publishes < 2 ^ 63
    → (length (free_retention_items db n now).1.publishes + n ≤ db.retention_capacity)
      × ((free_retention_items db n now).1.retention_capacity ≡ db.retention_capacity)
      × ((free_retention_items db n now).1.mappings ≡ db.mappings)
unfolding free_retention_items count_stored delete_expired remove_oldest
free-room db n now h c l =
    let rest = retain (λ p. not (is_expired now p)) db.publishes in
    let sum = retain-count (is_expired now) db.publishes in
    let dropped =
      length-drop
        (cap_limit (
          min (length db.publishes + n) (2 ^ 64 - 1)
          - count (is_expired now) db.publishes
          - db.retention_capacity))
        rest in
    ground (arith, h, c, l, sum, dropped)
