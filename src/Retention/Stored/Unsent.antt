-- ===== src/Retention/Stored/Unsent.antt =====
-- A publish stored by src/retention/sqlite is given back to be sent.
use astarte_device_sdk_rust.Common.{
  ℕ, suc, ◌≤◌, ◌<◌, ◌≡◌, refl, ◌∙◌, subst, inl, inr, true, false, some, [], arith, if◌then◌else◌,
  Bool-cases, Option-cases, length, ok, nat_eq, str_beq_iff, str_eq, option_eq, int_eq,
}
use astarte_device_sdk_rust.Common.Map.{lookup}
use astarte_device_sdk_rust.Retention.{PublishId, id_eq}
use astarte_device_sdk_rust.Retention.Stored.{
  RetentionMapping, RetentionPublish, MappingRow, PublishInfo, Database, mapping_of_info,
  expiry_to_sql, row_to_mapping, cap_limit,
}
use astarte_device_sdk_rust.Retention.Stored.Delivery.{
  same_mapping_iff, has_id, has_id-free, has_id-store_mapping, lookup-unsent_rows, take-all,
  length-unsent_rows, expiry_from-to_sql, from_info-row, unsent_rows, IsRowOf, IsStorable, IsLiveAt,
}
use astarte_device_sdk_rust.Retention.Stored.Integrity.{free-room}
use astarte_device_sdk_rust.Retention.Stored.Runs.{IsSound, store_mapping-length}
use astarte_device_sdk_rust.Retention.Stored.Rows.{length-insert_row}
use astarte_device_sdk_rust.Retention.Stored.Tables.{
  find_row, insert_row, store_mapping, store_publish, free_retention_items, store, store_info,
  store_converted, unsent_publishes, delete_expired, read_mapping, is_stored_as, to_info,
  join_mapping,
}

-- The mapping of the publish is in the table, as the publish has it.
abbrev pub HasRow : Database → PublishInfo → Type 0
HasRow db info =
    (row : MappingRow) × (find_row info.interface info.path db.mappings ≡ some row)
    × (row_to_mapping row ≡ mapping_of_info info)

HasRow-read :
    (db : Database) (info : PublishInfo)
    → is_stored_as (read_mapping db info.interface info.path) (mapping_of_info info) ≡ true
    → HasRow db info
unfolding read_mapping
HasRow-read db info h = elim (Option-cases (find_row info.interface info.path db.mappings)) [
  | inl n ↦ ground (arith, h, n)
  | inr (row, e) ↦ (
    row,
    e,
    (same_mapping_iff (row_to_mapping row) (mapping_of_info info)).0 (ground (arith, h, e)),
  )
]

HasRow-store_mapping :
    (db : Database) (id : PublishId) (info : PublishInfo)
    → IsStorable id info.expiry
    → HasRow (store_mapping db (mapping_of_info info)) info
unfolding store_mapping find_row row_to_mapping
HasRow-store_mapping db id info s =
    let row : MappingRow = record {
      interface = info.interface;
      path = info.path;
      major_version = info.version_major;
      reliability = info.reliability;
      expiry_sec = expiry_to_sql info.expiry;
    } in
    (
      row,
      ground (arith, str_beq_iff info.interface info.interface, str_beq_iff info.path info.path),
      ground (arith, expiry_from-to_sql id info.expiry s),
    )

join_mapping-row :
    (db : Database) (info : PublishInfo) (p : RetentionPublish)
    → HasRow db info
    → p.interface ≡ info.interface
    → p.path ≡ info.path
    → p.sent ≡ info.sent
    → p.payload ≡ info.value
    → join_mapping db p ≡ some (p.id, info)
unfolding join_mapping to_info row_to_mapping
join_mapping-row db info p (row, e, m) i q s v = ground (arith, e, m, i, q, s, v)

pub store_publish-ok :
    (db : Database) (info : PublishInfo) (p : RetentionPublish)
    → HasRow db info
    → p.interface ≡ info.interface
    → p.path ≡ info.path
    → has_id p.id db.publishes ≡ false
    → store_publish db p ≡ ok (record db { publishes = insert_row p db.publishes })
unfolding store_publish
store_publish-ok db info p (row, e, m) i q h = ground (arith, e, i, q, h)

-- The database in which the publish is inserted.
abbrev pub prepared : Database → RetentionMapping → ℕ → Database
prepared db m now =
    let freed = (free_retention_items db 1 now).1 in
    if is_stored_as (read_mapping db m.interface m.path) m then freed else store_mapping freed m

unfoldable pub IsPrepared : Database → PublishId → PublishInfo → Database → Type 0
IsPrepared db id info d =
    HasRow d info
    × (has_id id d.publishes ≡ false)
    × (length d.publishes < db.retention_capacity)
    × (d.retention_capacity ≡ db.retention_capacity)

pub prepared-IsPrepared :
    (db : Database) (id : PublishId) (info : PublishInfo) (now : ℕ)
    → IsSound db
    → IsStorable id info.expiry
    → has_id id db.publishes ≡ false
    → IsPrepared db id info (prepared db (mapping_of_info info) now)
unfolding IsPrepared
prepared-IsPrepared db id info now h s f =
    let m = mapping_of_info info in
    let freed = (free_retention_items db 1 now).1 in
    let room = free-room db 1 now (omega (arith, h.1.0)) h.1.1 (omega (arith, h.1.1, h.1.2)) in
    let fresh = has_id-free db id 1 now f in
    elim (Bool-cases (is_stored_as (read_mapping db m.interface m.path) m)) [
      | inl e ↦
          let (row, found, same) = HasRow-read db info e in
          rw e ((row, rw room.2 found, same), fresh, omega (arith, room), room.1)
      | inr e ↦ rw e (
        HasRow-store_mapping freed id info s,
        has_id-store_mapping freed id m fresh,
        omega (arith, room, store_mapping-length freed m),
        (store_mapping-length freed m).1 ∙ room.1,
      )
    ]

-- The query finds the publish that was inserted.
inserted-unsent :
    (d : Database) (limit later : ℕ) (id : PublishId) (info : PublishInfo) (p : RetentionPublish)
    → HasRow d info
    → has_id id d.publishes ≡ false
    → suc (length d.publishes) ≤ cap_limit limit
    → info.sent ≡ false
    → IsRowOf id info later p
    → lookup id
        (unsent_publishes (record d { publishes = insert_row p d.publishes }) limit [] later).1
      ≡ some info
unfolding unsent_publishes delete_expired join_mapping
inserted-unsent d limit later id info p r f l s (_, i, n, q, x, v, live) =
    let rows = unsent_rows d later (insert_row p d.publishes) in
    let fits : length rows ≤ cap_limit limit = omega (
      arith,
      l,
      length-unsent_rows d later (insert_row p d.publishes),
      length-insert_row p d.publishes,
    ) in
    rw (take-all (cap_limit limit) rows fits) (
      subst (λ k. lookup k rows ≡ some info) i
        (lookup-unsent_rows d later p info d.publishes (join_mapping-row d info p r n q x v) (x ∙ s)
          live (rw i f)))

-- Storing a publish under a new identifier succeeds, and the query for unsent publishes, with a limit
-- of at least the capacity, gives it back as it was stored, if it was stored as not sent, its expiry
-- is whole seconds below 2 ^ 63, the time of the query is not past it, and the database is sound.
pub store_info-unsent :
    (db : Database) (id : PublishId) (info : PublishInfo) (now later limit : ℕ)
    → IsSound db
    → has_id id db.publishes ≡ false
    → info.sent ≡ false
    → IsStorable id info.expiry
    → IsLiveAt later id info.expiry
    → db.retention_capacity ≤ limit
    → ((store_info db id info now).0 ≡ ok tt)
      × (lookup id (unsent_publishes (store_info db id info now).1 limit [] later).1 ≡ some info)
unfolding store_info store_converted store IsPrepared
store_info-unsent db id info now later limit h f s st live l =
    let (p, made) = from_info-row id info later st live in
    let d = prepared db (mapping_of_info info) now in
    let ready : IsPrepared db id info d = prepared-IsPrepared db id info now h st f in
    let (row, fresh, room, cap) = ready in
    let stored = store_publish-ok d info p row made.2 made.3 (rw made.1 fresh) in
    rw (made.0, stored)
      (
        refl,
        inserted-unsent d limit later id info p row fresh (omega (arith, room, l, h.1.1)) s made,
      )
