-- ===== src/Retention/Stored/Tables.antt =====
-- The statements of src/retention/sqlite/statements.rs on the two tables, and the methods that
-- src/retention/sqlite/mod.rs and `cleanup_introspection` of src/retention/mod.rs compose of them.
use astarte_device_sdk_rust.Common.{
  any, ℕ, ◌-◌, min, Bool, false, not, ◌&&◌, Option, none, some, List, [], ◌∷◌, ◌++◌, map, ltb, leb,
  eqb, if◌then◌else◌, length, take, drop, retain, count, filter_map, Result, ok, err, ◌>>=◌, ◌>>◌,
  ok_or, ensure, nat_eq, Str, str_beq, str_eq, option_eq, int_beq, int_eq,
}
use astarte_device_sdk_rust.Common.Map.{lookup}
use astarte_device_sdk_rust.Foreign.{InterfaceApi}
use astarte_device_sdk_rust.Interfaces.{Interfaces}
use astarte_device_sdk_rust.Retention.{PublishId, id_beq}
use astarte_device_sdk_rust.Retention.Stored.{
  RetentionError, PublishInfo, StoredInterface, RetentionMapping, MappingRow, RetentionPublish,
  Database, mapping_of_info, expiry_to_sql, expiry_from_sql, from_info, row_to_mapping,
  same_mapping, is_row_of, is_publish_of, is_expired, saturating_add, cap_limit, connection,
}

-- The order of the primary key (t_millis, counter); a timestamp's bytes are in big-endian order.
abbrev pub id_before : PublishId → PublishId → Bool
id_before a b =
    if eqb a.timestamp b.timestamp then ltb a.counter b.counter else ltb a.timestamp b.timestamp

unfoldable pub find_row : Str → Str → List MappingRow → Option MappingRow
find_row interface path [] = none
find_row interface path (row ∷ rest) =
    let found = find_row interface path rest in
    if is_row_of interface path row then some row else found

unfoldable pub read_mapping : Database → Str → Str → Option RetentionMapping
unfolding find_row row_to_mapping
read_mapping db interface path = elim (find_row interface path db.mappings) [
  | none ↦ none
  | some row ↦ some (row_to_mapping row)
]

-- INSERT OR REPLACE: the row with the same key is deleted first, and its publishes with it.
unfoldable pub store_mapping : Database → RetentionMapping → Database
unfolding find_row expiry_to_sql
store_mapping db m =
    let row : MappingRow = record {
      interface = m.interface;
      path = m.path;
      major_version = m.version_major;
      reliability = m.reliability;
      expiry_sec = expiry_to_sql m.expiry;
    } in
    elim (find_row m.interface m.path db.mappings) [
      | none ↦ record db { mappings = row ∷ db.mappings }
      | some _ ↦ record db {
        mappings = row ∷ retain (λ r. not (is_row_of m.interface m.path r)) db.mappings;
        publishes = retain (λ p. not (is_publish_of m.interface m.path p)) db.publishes;
      }
    ]

unfoldable pub insert_row : RetentionPublish → List RetentionPublish → List RetentionPublish
insert_row p [] = p ∷ []
insert_row p (q ∷ rest) =
    let later = insert_row p rest in if id_before p.id q.id then p ∷ q ∷ rest else q ∷ later

-- INSERT OR FAIL: the key is new and the mapping is there.
unfoldable pub store_publish : Database → RetentionPublish → Result RetentionError Database
unfolding insert_row find_row
store_publish db p = do
  ensure (not (any (λ q. id_beq q.id p.id) db.publishes)) connection
  row ← ok_or (find_row p.interface p.path db.mappings) connection
  ok (record db { publishes = insert_row p db.publishes })

unfoldable pub count_stored : Database → ℕ
count_stored db = length db.publishes

unfoldable pub delete_expired : Database → ℕ → ℕ × Database
delete_expired db now = (
  count (is_expired now) db.publishes,
  record db { publishes = retain (λ p. not (is_expired now p)) db.publishes },
)

unfoldable pub remove_oldest : Database → ℕ → ℕ × Database
remove_oldest db to_remove = (
  min (cap_limit to_remove) (length db.publishes),
  record db { publishes = drop (cap_limit to_remove) db.publishes },
)

unfoldable pub free_retention_items : Database → ℕ → ℕ → ℕ × Database
unfolding count_stored delete_expired remove_oldest
free_retention_items db to_store now =
    let stored = saturating_add (count_stored db) to_store in
    if leb stored db.retention_capacity
    then (0, db)
    else (let (expired, db') = delete_expired db now in
        if leb (stored - expired) db.retention_capacity
        then (expired, db')
        else (let (removed, db'') = remove_oldest db' (stored - expired - db.retention_capacity) in
            (saturating_add removed expired, db'')))

abbrev pub is_stored_as : Option RetentionMapping → RetentionMapping → Bool
is_stored_as none m = false
is_stored_as (some stored) m = same_mapping stored m

-- The end of the transaction: an error rolls it back, but not what made room before it.
abbrev pub commit :
    Database → Result RetentionError Database → Result RetentionError (Unit {0}) × Database
commit before (ok db) = (ok tt, db)
commit before (err e) = (err e, before)

-- `WriteConnection::store`.
unfoldable pub store :
    Database → RetentionMapping → RetentionPublish → ℕ → Result RetentionError (Unit {0}) × Database
unfolding read_mapping free_retention_items store_mapping store_publish
store db m p now =
    let exists = is_stored_as (read_mapping db m.interface m.path) m in
    let freed = (free_retention_items db 1 now).1 in
    commit freed (store_publish (if exists then freed else store_mapping freed m) p)

unfoldable pub store_converted :
    Database
    → PublishInfo
    → ℕ
    → Result RetentionError RetentionPublish
    → Result RetentionError (Unit {0}) × Database
unfolding store
store_converted db info now (err e) = (err e, db)
store_converted db info now (ok p) = store db (mapping_of_info info) p now

-- `StoredRetention::store_publish`.
unfoldable pub store_info :
    Database → PublishId → PublishInfo → ℕ → Result RetentionError (Unit {0}) × Database
unfolding store_converted
store_info db id info now = store_converted db info now (from_info id info)

abbrev pub with_sent : PublishId → Bool → RetentionPublish → RetentionPublish
with_sent id sent p = if id_beq p.id id then record p { sent = sent } else p

unfoldable pub update_sent_flag : Database → PublishId → Bool → Database
update_sent_flag db id sent = record db { publishes = map (with_sent id sent) db.publishes }

unfoldable pub mark_received : Database → PublishId → Database
mark_received db id = record db { publishes = retain (λ p. not (id_beq p.id id)) db.publishes }

unfoldable pub delete_interface : Database → Str → Database
delete_interface db name = record db {
  mappings = retain (λ r. not (str_beq r.interface name)) db.mappings;
  publishes = retain (λ p. not (str_beq p.interface name)) db.publishes;
}

-- A row of the query's join: the publish with its mapping.
unfoldable pub to_info : RetentionPublish → MappingRow → PublishId × PublishInfo
unfolding expiry_from_sql
to_info p row = (
  p.id,
  record {
    interface = p.interface;
    path = p.path;
    version_major = row.major_version;
    reliability = row.reliability;
    expiry = expiry_from_sql row.expiry_sec;
    sent = p.sent;
    value = p.payload;
  },
)

unfoldable pub join_mapping : Database → RetentionPublish → Option (PublishId × PublishInfo)
unfolding find_row to_info
join_mapping db p = elim (find_row p.interface p.path db.mappings) [
  | none ↦ none
  | some row ↦ some (to_info p row)
]

abbrev pub is_unsent : ℕ → RetentionPublish → Bool
is_unsent now p = not p.sent && not (is_expired now p)

unfoldable pub unsent_publishes :
    Database
    → ℕ
    → List (PublishId × PublishInfo)
    → ℕ
    → ℕ × List (PublishId × PublishInfo) × Database
unfolding delete_expired join_mapping
unsent_publishes db limit buf now =
    let db' = (delete_expired db now).1 in
    let found =
      take (cap_limit limit)
        (filter_map (join_mapping db') (retain (is_unsent now) db'.publishes)) in
    (length found, buf ++ found, db')

abbrev pub clear_sent : RetentionPublish → RetentionPublish
clear_sent p = record p { sent = false }

unfoldable pub reset_all_publishes : Database → ℕ → Database
unfolding delete_expired
reset_all_publishes db now =
    let db' = (delete_expired db now).1 in record db' { publishes = map clear_sent db'.publishes }

abbrev pub interface_of_row : MappingRow → StoredInterface
interface_of_row row = record { name = row.interface; version_major = row.major_version }

-- SELECT DISTINCT into a `HashSet`; what follows does not depend on the order or on repetitions.
unfoldable pub fetch_all_interfaces : Database → List StoredInterface
fetch_all_interfaces db = map interface_of_row db.mappings

unfoldable pub set_max_retention_items : Database → ℕ → ℕ → Database
unfolding free_retention_items
set_max_retention_items db size now =
    (free_retention_items (record db { retention_capacity = size }) 0 now).1

unfoldable pub delete_many : Database → List Str → Database
unfolding delete_interface
delete_many db [] = db
delete_many db (name ∷ rest) = delete_many (delete_interface db name) rest

module _ {I M : Type 0} (api : InterfaceApi I M) where
  -- The name of a stored interface that the introspection does not have in that major version.
  unfoldable pub outdated : Interfaces I → StoredInterface → Option Str
  outdated interfaces s = elim (lookup s.name interfaces) [
    | none ↦ some s.name
    | some i ↦ if int_beq (api.version_major i) s.version_major then none else some s.name
  ]

  unfoldable pub cleanup_introspection : Database → Interfaces I → Database
  unfolding fetch_all_interfaces outdated delete_many
  cleanup_introspection db interfaces =
      delete_many db (filter_map (outdated interfaces) (fetch_all_interfaces db))
