-- ===== src/Tests/Stores.antt =====
-- Examples for the stored retention and the property stores.
use astarte_device_sdk_rust.Common.{
  ℕ, ◌*◌, ◌^◌, ◌≡◌, refl, true, false, not, none, some, List, [], ◌∷◌, map, arith, retain, All, ok,
  nat_eq, str_beq, str_eq, bytes, option_eq, pos, int_eq,
}
use astarte_device_sdk_rust.Common.Map.{lookup}
use astarte_device_sdk_rust.Foreign.{unique, device}
use astarte_device_sdk_rust.Retention.{PublishId, id_eq}
use astarte_device_sdk_rust.Retention.Stored.{
  Database, MappingRow, RetentionMapping, RetentionPublish, PublishInfo, is_publish_of,
  row_to_mapping, expiry_from_sql, same_mapping,
}
use astarte_device_sdk_rust.Retention.Stored.Cleanup.{
  store_info-replaces, cleanup_introspection-IsCurrent, IsCurrent, is_outdated,
}
use astarte_device_sdk_rust.Retention.Stored.Runs.{
  IsSound, run, run-IsSound, store_call, update_sent_call, received_call, delete_interface_call,
  unsent_call, reset_call, set_max_call,
}
use astarte_device_sdk_rust.Retention.Stored.Runs as Runs
use astarte_device_sdk_rust.Retention.Stored.Tables.{
  find_row, read_mapping, store_info, unsent_publishes, cleanup_introspection,
}
use astarte_device_sdk_rust.Retention.Stored.Unsent.{store_info-unsent}
use astarte_device_sdk_rust.Store.Contract.{answers, promised}
use astarte_device_sdk_rust.Store.Contract as Contract
use astarte_device_sdk_rust.Store.Contract.InMemory.{memory_step}
use astarte_device_sdk_rust.Store.Contract.Rows.{table_step}
use astarte_device_sdk_rust.Store.Contract.InSqlite.{stores-promised}
use astarte_device_sdk_rust.Store.Sqlite.{Codec}
use astarte_device_sdk_rust.Store.{PropertyMapping, StoredProp, completed}
use astarte_device_sdk_rust.Tests.Data.{path, api, interfaces}

abbrev row : MappingRow
row = record {
  interface = bytes "a.D";
  path = path;
  major_version = pos 0;
  reliability = unique;
  expiry_sec = none;
}

abbrev first : PublishId
first = record { timestamp = 3; counter = 9 }

abbrev second : PublishId
second = record { timestamp = 5; counter = 1 }

abbrev queued : RetentionPublish
queued = record {
  id = first;
  interface = bytes "a.D";
  path = path;
  expiry_time = none;
  sent = false;
  payload = 1 ∷ [];
}

abbrev database : Database
database = record { mappings = row ∷ []; publishes = queued ∷ []; retention_capacity = 2 }

abbrev info : PublishInfo
info = record {
  interface = bytes "a.D";
  path = path;
  version_major = pos 0;
  reliability = unique;
  expiry = some (60 * 10 ^ 9);
  sent = false;
  value = 2 ∷ [];
}

abbrev stored_mapping : RetentionMapping
stored_mapping = record {
  interface = bytes "a.D";
  path = path;
  version_major = pos 0;
  reliability = unique;
  expiry = none;
}

database-IsSound : IsSound database
unfolding find_row str_beq
database-IsSound = (((tt, tt), (λ h. cc, tt), (tt, tt)), (omega arith, omega arith, omega arith))

abbrev calls : List Runs.Call
calls =
    store_call second info 10
    ∷ update_sent_call first true
    ∷ unsent_call 5 11
    ∷ received_call first
    ∷ reset_call 12
    ∷ set_max_call 1 13
    ∷ delete_interface_call (bytes "a.D")
    ∷ []

run-IsSound_example : IsSound (run database calls)
run-IsSound_example =
    run-IsSound database calls (tt, (tt, (tt, (tt, (tt, ((omega arith, omega arith), (tt, tt)))))))
      database-IsSound

store_info-unsent_example :
    ((store_info database second info 10).0 ≡ ok tt)
    × (lookup second (unsent_publishes (store_info database second info 10).1 5 [] 11).1
        ≡ some info)
store_info-unsent_example =
    store_info-unsent database second info 10 11 5 database-IsSound (ground arith) refl
      (omega arith, omega arith, omega arith) (omega arith, omega arith) (omega arith)

store_info-replaces_example :
    ((store_info database second info 10).0 ≡ ok tt)
    × (map
          (λ p. p.id)
          (retain
            (is_publish_of (bytes "a.D") path)
            (store_info database second info 10).1.publishes)
        ≡ second ∷ [])
unfolding read_mapping find_row str_beq row_to_mapping expiry_from_sql same_mapping
store_info-replaces_example =
    store_info-replaces database stored_mapping second info 10 database-IsSound (ground arith)
      (omega arith, omega arith, omega arith) refl refl

cleanup_introspection-IsCurrent_example :
    let db' = cleanup_introspection api database interfaces in
    IsSound db'
    × All (IsCurrent api interfaces) db'.mappings
    × (db'.publishes
        ≡ retain (λ p. not (is_outdated api interfaces database.mappings p)) database.publishes)
cleanup_introspection-IsCurrent_example =
    cleanup_introspection-IsCurrent api database interfaces database-IsSound

-- A value is its own single byte.
abbrev codec : Codec ℕ
codec = record {
  encode = λ v. some (v ∷ []);
  into_stored_type = λ v. 1;
  deserialize_prop = λ type buf. elim buf [ [] ↦ none | b ∷ rest ↦ some b ];
}

abbrev property : PropertyMapping
property = record {
  interface_name = bytes "a.B";
  version_major = pos 1;
  ownership = device;
  path = path;
}

abbrev prop : StoredProp ℕ
prop = record {
  interface = bytes "a.B";
  path = path;
  value = 7;
  interface_major = pos 1;
  ownership = device;
}

abbrev store_calls : List (Contract.Call ℕ)
store_calls =
    Contract.store_call prop
    ∷ Contract.update_state_call property completed 7
    ∷ Contract.load_call property
    ∷ Contract.unset_call property
    ∷ Contract.load_call property
    ∷ []

stores-promised_example :
    (answers memory_step [] store_calls ≡ answers promised (λ _. none) store_calls)
    × (answers (table_step codec) [] store_calls ≡ answers promised (λ _. none) store_calls)
stores-promised_example = stores-promised codec (λ v. (v ∷ [], refl, refl)) store_calls
