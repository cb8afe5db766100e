-- ===== src/Retention/Stored/Runs.antt =====
-- Runs of calls of the stored retention of src/retention/sqlite/mod.rs.
use astarte_device_sdk_rust.Common.{
  str_beq, map, Result, Bool-cases, inl, inr, err, if◌then◌else◌, ℕ, ◌^◌, ◌≤◌, ◌<◌, ◌≡◌, refl, inl,
  inr, Bool, not, List, [], ◌∷◌, arith, if◌then◌else◌, Bool-cases, length, retain, All,
  length-retain_le, Result, ok, err, nat_eq, Str, str_eq, option_eq, int_eq,
}
use astarte_device_sdk_rust.Retention.{id_beq, PublishId}
use astarte_device_sdk_rust.Retention.Stored.{
  is_expired, from_info, mapping_of_info, RetentionMapping, RetentionPublish, MappingRow,
  PublishInfo, Database, is_publish_of, is_row_of, RetentionError, expiry_to_sql,
}
use astarte_device_sdk_rust.Retention.Stored.Rows.{
  length-map, find_row-other_interface, HasMapping, IsSorted-retain, IsSorted-insert_row,
  All-insert_row, length-insert_row, HasUniqueRows-retain, find_row-none, retain-rows,
  find_row-other, All-retain_of,
}
use astarte_device_sdk_rust.Retention.Stored.Integrity.{
  map-HasIntegrity, retain-HasIntegrity, HasIntegrity, IsBounded, free-HasIntegrity, free-room,
}
use astarte_device_sdk_rust.Retention.Stored.Tables.{
  store_converted, clear_sent, delete_expired, with_sent, find_row, store_mapping, store_publish,
  free_retention_items, store, store_info, update_sent_flag, mark_received, delete_interface,
  unsent_publishes, reset_all_publishes, set_max_retention_items, read_mapping, is_stored_as,
  commit,
}

-- The calls that change the database, each with what it reads from the clock.
pub data Call : Type 0 where
  store_call : PublishId → PublishInfo → ℕ → Call
  update_sent_call : PublishId → Bool → Call
  received_call : PublishId → Call
  delete_interface_call : Str → Call
  unsent_call : ℕ → ℕ → Call
  reset_call : ℕ → Call
  set_max_call : ℕ → ℕ → Call

unfoldable pub step : Database → Call → Database
unfolding store_info update_sent_flag mark_received delete_interface unsent_publishes
    reset_all_publishes set_max_retention_items
step db (store_call id info now) = (store_info db id info now).1
step db (update_sent_call id sent) = update_sent_flag db id sent
step db (received_call id) = mark_received db id
step db (delete_interface_call name) = delete_interface db name
step db (unsent_call limit now) = (unsent_publishes db limit [] now).2
step db (reset_call now) = reset_all_publishes db now
step db (set_max_call size now) = set_max_retention_items db size now

unfoldable pub run : Database → List Call → Database
unfolding step
run db [] = db
run db (call ∷ rest) = run (step db call) rest

-- A capacity that is set is a `NonZeroUsize`, and below 2 ^ 63.
abbrev pub IsAllowed : Call → Type 0
IsAllowed (set_max_call size now) = (0 < size) × (size < 2 ^ 63)
IsAllowed (store_call id info now) = Unit
IsAllowed (update_sent_call id sent) = Unit
IsAllowed (received_call id) = Unit
IsAllowed (delete_interface_call name) = Unit
IsAllowed (unsent_call limit now) = Unit
IsAllowed (reset_call now) = Unit

row_of : RetentionMapping → MappingRow
row_of m = record {
  interface = m.interface;
  path = m.path;
  major_version = m.version_major;
  reliability = m.reliability;
  expiry_sec = expiry_to_sql m.expiry;
}

HasMapping-cons :
    (row : MappingRow) (rows : List MappingRow) (p : RetentionPublish)
    → HasMapping rows p
    → HasMapping (row ∷ rows) p
unfolding find_row
HasMapping-cons row rows p h = ground (arith, h)

All-HasMapping-cons :
    (row : MappingRow) (rows : List MappingRow) (l : List RetentionPublish)
    → All (HasMapping rows) l
    → All (HasMapping (row ∷ rows)) l
All-HasMapping-cons row rows [] h = tt
All-HasMapping-cons row rows (p ∷ l) h =
    (HasMapping-cons row rows p h.0, All-HasMapping-cons row rows l h.1)

store_mapping-HasIntegrity :
    (db : Database) (m : RetentionMapping) → HasIntegrity db → HasIntegrity (store_mapping db m)
unfolding store_mapping row_of
store_mapping-HasIntegrity db m h =
    let others = retain (λ r. not (is_row_of m.interface m.path r)) db.mappings in
    let kept = retain (λ p. not (is_publish_of m.interface m.path p)) db.publishes in
    let linked : All (HasMapping others) kept =
      All-retain_of (HasMapping db.mappings) (HasMapping others)
        (λ p. not (is_publish_of m.interface m.path p)) db.publishes
        (λ p k l.
          rw (find_row-other p.interface p.path m.interface m.path db.mappings (ground (arith, k)))
            l)
        h.1 in
    ground (
      arith,
      h,
      find_row-none m.interface m.path db.mappings,
      All-HasMapping-cons (row_of m) db.mappings db.publishes h.1,
      IsSorted-retain (λ p. not (is_publish_of m.interface m.path p)) db.publishes h.0,
      All-HasMapping-cons (row_of m) others kept linked,
      retain-rows m.interface m.path db.mappings,
      HasUniqueRows-retain (λ r. not (is_row_of m.interface m.path r)) db.mappings h.2,
    )

pub store_mapping-length :
    (db : Database) (m : RetentionMapping)
    → (length (store_mapping db m).publishes ≤ length db.publishes)
      × ((store_mapping db m).retention_capacity ≡ db.retention_capacity)
unfolding store_mapping
store_mapping-length db m =
    ground (arith, length-retain_le (λ p. not (is_publish_of m.interface m.path p)) db.publishes)

abbrev pub IsSound : Database → Type 0
IsSound db = HasIntegrity db × IsBounded db

store_publish-IsSound :
    (db db' : Database) (p : RetentionPublish)
    → HasIntegrity db
    → 0 < db.retention_capacity
    → db.retention_capacity < 2 ^ 63
    → length db.publishes < db.retention_capacity
    → store_publish db p ≡ ok db'
    → IsSound db'
unfolding store_publish
store_publish-IsSound db db' p h z c l e = ground (
  arith,
  h,
  z,
  c,
  l,
  e,
  IsSorted-insert_row p db.publishes,
  All-insert_row (HasMapping db.mappings) p db.publishes,
  length-insert_row p db.publishes,
)

pub freed-IsSound :
    (db : Database) (n now : ℕ)
    → HasIntegrity db
    → 0 < db.retention_capacity
    → n ≤ db.retention_capacity
    → db.retention_capacity < 2 ^ 63
    → length db.publishes < 2 ^ 63
    → IsSound (free_retention_items db n now).1
freed-IsSound db n now h z k c l =
    ground (arith, h, z, k, c, free-HasIntegrity db n now h, free-room db n now k c l)

commit-IsSound :
    (before : Database) (r : Result RetentionError Database)
    → IsSound before
    → ((db : Database) → r ≡ ok db → IsSound db)
    → IsSound (commit before r).1
commit-IsSound before (ok db) h k = k db refl
commit-IsSound before (err e) h k = h

store-IsSound :
    (db : Database) (m : RetentionMapping) (p : RetentionPublish) (now : ℕ)
    → IsSound db
    → IsSound (store db m p now).1
unfolding store
store-IsSound db m p now h =
    let freed = (free_retention_items db 1 now).1 in
    let stored = store_mapping freed m in
    let exists = is_stored_as (read_mapping db m.interface m.path) m in
    let room = free-room db 1 now (omega (arith, h.1.0)) h.1.1 (omega (arith, h.1.1, h.1.2)) in
    let sound =
      freed-IsSound db 1 now h.0 h.1.0 (omega (arith, h.1.0)) h.1.1 (omega (arith, h.1.1, h.1.2)) in
    let fits = store_mapping-length freed m in
    let linked = store_mapping-HasIntegrity freed m sound.0 in
    commit-IsSound freed (store_publish (if exists then freed else stored) p) sound (λ db' e.
      elim (Bool-cases exists) [
        | inl t ↦
            store_publish-IsSound freed db' p sound.0 sound.1.0 sound.1.1 (omega (arith, room))
              (ground (arith, t, e))
        | inr f ↦
            store_publish-IsSound stored db' p linked (omega (arith, fits, sound.1.0))
              (omega (arith, fits, sound.1.1)) (omega (arith, room, fits)) (ground (arith, f, e))
      ])

retain-IsSound :
    (db : Database) (f : RetentionPublish → Bool)
    → IsSound db
    → IsSound (record db { publishes = retain f db.publishes })
retain-IsSound db f h = (
  retain-HasIntegrity db f h.0,
  (h.1.0, h.1.1, omega (arith, h.1.2, length-retain_le f db.publishes)),
)

map-IsSound :
    (db : Database) (f : RetentionPublish → RetentionPublish)
    → ((p : RetentionPublish)
        → ((f p).id ≡ p.id) × (HasMapping db.mappings p → HasMapping db.mappings (f p)))
    → IsSound db
    → IsSound (record db { publishes = map f db.publishes })
map-IsSound db f k h =
    (map-HasIntegrity db f k h.0, (h.1.0, h.1.1, omega (arith, h.1.2, length-map f db.publishes)))

delete_expired-IsSound : (db : Database) (now : ℕ) → IsSound db → IsSound (delete_expired db now).1
unfolding delete_expired
delete_expired-IsSound db now h = retain-IsSound db (λ p. not (is_expired now p)) h

pub delete_interface-IsSound :
    (db : Database) (name : Str) → IsSound db → IsSound (delete_interface db name)
unfolding delete_interface
delete_interface-IsSound db name h =
    let rows = retain (λ r. not (str_beq r.interface name)) db.mappings in
    let kept = retain-IsSound db (λ p. not (str_beq p.interface name)) h in
    (
      (
        kept.0.0,
        All-retain_of (HasMapping db.mappings) (HasMapping rows)
            (λ p. not (str_beq p.interface name)) db.publishes
            (λ p k l.
              rw (find_row-other_interface p.interface p.path name db.mappings (ground (arith, k)))
                l)
            h.0.1,
        HasUniqueRows-retain (λ r. not (str_beq r.interface name)) db.mappings h.0.2,
      ),
      kept.1,
    )

store_info-IsSound :
    (db : Database) (id : PublishId) (info : PublishInfo) (now : ℕ)
    → IsSound db
    → IsSound (store_info db id info now).1
unfolding store_info store_converted
store_info-IsSound db id info now h =
    elim (from_info id info) as (λ r. IsSound (store_converted db info now r).1) [
      | err e ↦ h
      | ok p ↦ store-IsSound db (mapping_of_info info) p now h
    ]

step-IsSound : (db : Database) (call : Call) → IsAllowed call → IsSound db → IsSound (step db call)
unfolding step update_sent_flag mark_received unsent_publishes reset_all_publishes
    set_max_retention_items
step-IsSound db (store_call id info now) a h = store_info-IsSound db id info now h
step-IsSound db (update_sent_call id sent) a h =
    map-IsSound db (with_sent id sent) (λ p. ground arith) h
step-IsSound db (received_call id) a h = retain-IsSound db (λ p. not (id_beq p.id id)) h
step-IsSound db (delete_interface_call name) a h = delete_interface-IsSound db name h
step-IsSound db (unsent_call limit now) a h = delete_expired-IsSound db now h
step-IsSound db (reset_call now) a h =
    map-IsSound (delete_expired db now).1 clear_sent (λ p. ground arith)
      (delete_expired-IsSound db now h)
step-IsSound db (set_max_call size now) a h =
    freed-IsSound (record db { retention_capacity = size }) 0 now h.0 a.0 (omega arith) a.1
      (omega (arith, h.1.1, h.1.2))

-- From a database whose publishes are in the order of their different keys, each with its mapping,
-- whose mappings have different keys, and whose publishes fit a capacity from 1 to 2 ^ 63 - 1, every
-- run of calls that sets only such capacities ends in such a database, errors included.
pub run-IsSound :
    (db : Database) (calls : List Call) → All IsAllowed calls → IsSound db → IsSound (run db calls)
unfolding run
run-IsSound db [] a h = h
run-IsSound db (call ∷ rest) a h = run-IsSound (step db call) rest a.1 (step-IsSound db call a.0 h)
