-- ===== src/Retention/Stored/Cleanup.antt =====
-- What the stored retention of src/retention drops: the publishes of a mapping that is replaced, and
-- those of the interfaces that `cleanup_introspection` finds outdated.
use astarte_device_sdk_rust.Common.{
  ℕ, ◌≡◌, refl, sym, ap, ◌∙◌, inl, inr, Bool, true, false, not, ◌&&◌, Option, none, some, List, [],
  ◌∷◌, map, arith, if◌then◌else◌, Option-cases, any, retain, All, filter_map, ok, nat_eq, Str,
  str_beq, str_beq_iff, str_eq, option_eq, int_beq, int_beq_iff, int_eq,
}
use astarte_device_sdk_rust.Common.Map.{lookup}
use astarte_device_sdk_rust.Foreign.{InterfaceApi}
use astarte_device_sdk_rust.Interfaces.{Interfaces}
use astarte_device_sdk_rust.Retention.{PublishId, id_eq}
use astarte_device_sdk_rust.Retention.Stored.{
  RetentionMapping, RetentionPublish, MappingRow, StoredInterface, PublishInfo, Database,
  is_publish_of, mapping_of_info,
}
use astarte_device_sdk_rust.Retention.Stored.Delivery.{has_id, from_info-row, IsStorable, IsLiveAt}
use astarte_device_sdk_rust.Retention.Stored.Integrity.{free-room}
use astarte_device_sdk_rust.Retention.Stored.Runs.{IsSound, delete_interface-IsSound}
use astarte_device_sdk_rust.Retention.Stored.Unsent.{
  prepared, IsPrepared, prepared-IsPrepared, store_publish-ok,
}
use astarte_device_sdk_rust.Retention.Stored.Tables.{
  insert_row, store_mapping, free_retention_items, store, store_info, store_converted, read_mapping,
  is_stored_as, interface_of_row, delete_interface, delete_many, outdated, cleanup_introspection,
  fetch_all_interfaces,
}

retain-inserted :
    (f : RetentionPublish → Bool) (p : RetentionPublish) (l : List RetentionPublish)
    → f p ≡ true
    → retain f (insert_row p (retain (λ q. not (f q)) l)) ≡ p ∷ []
unfolding insert_row
retain-inserted f p [] h = ground (arith, h)
retain-inserted f p (q ∷ l) h = ground (arith, h, retain-inserted f p l h, retain-none f l)
  where
    retain-none :
        (f : RetentionPublish → Bool) (l : List RetentionPublish)
        → retain f (retain (λ q. not (f q)) l) ≡ []
    retain-none f [] = refl
    retain-none f (q ∷ l) = ground (arith, retain-none f l)

prepared-replaced :
    (db : Database) (stored : RetentionMapping) (info : PublishInfo) (now : ℕ)
    → IsSound db
    → read_mapping db info.interface info.path ≡ some stored
    → is_stored_as (some stored) (mapping_of_info info) ≡ false
    → (l : List RetentionPublish) × ((prepared db (mapping_of_info info) now).publishes
        ≡ retain (λ q. not (is_publish_of info.interface info.path q)) l)
unfolding read_mapping store_mapping
prepared-replaced db stored info now h r d =
    let room = free-room db 1 now (omega (arith, h.1.0)) h.1.1 (omega (arith, h.1.1, h.1.2)) in
    ((free_retention_items db 1 now).1.publishes, ground (arith, r, d, room))

-- In a sound database, where the table has another mapping for the interface and the path than that
-- of the publish, and where an expiry is whole seconds that fit an `i64` and the timestamp with
-- it is below 2 ^ 64, the call that stores the publish under a new identifier succeeds, and the publish is then the only one
-- of that interface and path: whatever was queued there before, sent or not, is gone.
pub store_info-replaces :
    (db : Database) (stored : RetentionMapping) (id : PublishId) (info : PublishInfo) (now : ℕ)
    → IsSound db
    → has_id id db.publishes ≡ false
    → IsStorable id info.expiry
    → read_mapping db info.interface info.path ≡ some stored
    → is_stored_as (some stored) (mapping_of_info info) ≡ false
    → ((store_info db id info now).0 ≡ ok tt)
      × (map
            (λ p. p.id)
            (retain
              (is_publish_of info.interface info.path)
              (store_info db id info now).1.publishes)
          ≡ id ∷ [])
unfolding store_info store_converted store IsPrepared
store_info-replaces db stored id info now h f st r d =
    let ready : IsPrepared db id info (prepared db (mapping_of_info info) now) =
      prepared-IsPrepared db id info now h st f in
    let (p, made) = from_info-row id info 0 st (IsLiveAt_zero id info.expiry) in
    let (row, fresh, _, _) = ready in
    let written =
      store_publish-ok (prepared db (mapping_of_info info) now) info p row made.2 made.3
        (rw made.1 fresh) in
    let (l, dropped) = prepared-replaced db stored info now h r d in
    let own : is_publish_of info.interface info.path p ≡ true = ground (
      arith,
      made.2,
      made.3,
      str_beq_iff info.interface info.interface,
      str_beq_iff info.path info.path,
    ) in
    rw (made.0, written)
      (
        refl,
        rw (dropped, retain-inserted (is_publish_of info.interface info.path) p l own)
            (ap (λ i. i ∷ []) made.1),
      )
  where
    IsLiveAt_zero : (id : PublishId) (e : Option ℕ) → IsLiveAt 0 id e
    IsLiveAt_zero id none = tt
    IsLiveAt_zero id (some e) = (omega arith, omega arith)

-- The interface of the publish is none of the names.
abbrev pub is_kept : List Str → RetentionPublish → Bool
is_kept names p = not (any (λ name. str_beq p.interface name) names)

abbrev pub is_row_kept : List Str → MappingRow → Bool
is_row_kept names row = not (any (λ name. str_beq row.interface name) names)

retain-twice :
    {A : Type 0} (f g h : A → Bool) (l : List A)
    → ((a : A) → h a ≡ f a && g a)
    → retain g (retain f l) ≡ retain h l
retain-twice f g h [] k = refl
retain-twice f g h (a ∷ l) k = ground (arith, k a, retain-twice f g h l k)

delete_many-rows :
    (db : Database) (names : List Str)
    → IsSound db
    → IsSound (delete_many db names)
      × ((delete_many db names).mappings ≡ retain (is_row_kept names) db.mappings)
      × ((delete_many db names).publishes ≡ retain (is_kept names) db.publishes)
unfolding delete_many delete_interface
delete_many-rows db [] h = (h, sym (retain-all db.mappings), sym (retain-all db.publishes))
  where
    retain-all : {A : Type 0} (l : List A) → retain (λ _. true) l ≡ l
    retain-all [] = refl
    retain-all (a ∷ l) = ap (◌∷◌ a) (retain-all l)
delete_many-rows db (name ∷ names) h =
    let rest =
      delete_many-rows (delete_interface db name) names (delete_interface-IsSound db name h) in
    (
      rest.0,
      rest.1
          ∙ retain-twice (λ r. not (str_beq r.interface name)) (is_row_kept names)
              (is_row_kept (name ∷ names)) db.mappings (λ r. ground arith),
      rest.2
          ∙ retain-twice (λ p. not (str_beq p.interface name)) (is_kept names)
              (is_kept (name ∷ names)) db.publishes (λ p. ground arith),
    )

module _ {I M : Type 0} (api : InterfaceApi I M) where
  abbrev outdated_rows : Interfaces I → List MappingRow → List Str
  outdated_rows interfaces rows = filter_map (outdated api interfaces) (map interface_of_row rows)

  outdated-name :
      (interfaces : Interfaces I) (s : StoredInterface) (name : Str)
      → outdated api interfaces s ≡ some name
      → s.name ≡ name
  unfolding outdated
  outdated-name interfaces s name h = elim (Option-cases (lookup s.name interfaces)) [
    | inl n ↦ ground (arith, h, n)
    | inr (i, e) ↦ ground (arith, h, e)
  ]

  current-rows :
      (interfaces : Interfaces I) (names : List Str) (rows : List MappingRow)
      → ((x : Str)
          → any (λ name. str_beq x name) (outdated_rows interfaces rows) ≡ true
          → any (λ name. str_beq x name) names ≡ true)
      → All
          (λ row. outdated api interfaces (interface_of_row row) ≡ none)
          (retain (is_row_kept names) rows)
  current-rows interfaces names [] k = tt
  current-rows interfaces names (row ∷ rows) k =
      elim (Option-cases (outdated api interfaces (interface_of_row row))) [
        | inl n ↦
            ground
              (arith, n, current-rows interfaces names rows (λ x h. k x (ground (arith, n, h))))
        | inr (name, e) ↦ ground (
          arith,
          e,
          k row.interface (
              ground (
                arith,
                e,
                outdated-name interfaces (interface_of_row row) name e,
                str_beq_iff row.interface name,
              )),
          current-rows interfaces names rows (λ x h. k x (ground (arith, e, h))),
        )
      ]

  -- The device has the interface of the mapping in its major version.
  abbrev pub IsCurrent : Interfaces I → MappingRow → Type 0
  IsCurrent interfaces row =
      (i : I) × (lookup row.interface interfaces ≡ some i)
      × (api.version_major i ≡ row.major_version)

  abbrev pub is_current : Interfaces I → MappingRow → Bool
  is_current interfaces row =
      any (λ i. int_beq (api.version_major i) row.major_version)
        (elim (lookup row.interface interfaces) [ none ↦ [] | some i ↦ i ∷ [] ])

  current-outdated :
      (interfaces : Interfaces I) (row : MappingRow)
      → outdated api interfaces (interface_of_row row)
        ≡ (if is_current interfaces row then none else some row.interface)
  unfolding outdated
  current-outdated interfaces row = elim (Option-cases (lookup row.interface interfaces)) [
    | inl n ↦ ground (arith, n)
    | inr (i, e) ↦ ground (arith, e)
  ]

  none-IsCurrent :
      (interfaces : Interfaces I) (row : MappingRow)
      → outdated api interfaces (interface_of_row row) ≡ none
      → IsCurrent interfaces row
  unfolding outdated
  none-IsCurrent interfaces row h = elim (Option-cases (lookup row.interface interfaces)) [
    | inl n ↦ absurd (ground (arith, h, n))
    | inr (i, e) ↦ (i, e, ground (arith, h, e, int_beq_iff (api.version_major i) row.major_version))
  ]

  not_outdated-IsCurrent :
      (interfaces : Interfaces I) (rows : List MappingRow)
      → All (λ row. outdated api interfaces (interface_of_row row) ≡ none) rows
      → All (IsCurrent interfaces) rows
  not_outdated-IsCurrent interfaces [] h = tt
  not_outdated-IsCurrent interfaces (row ∷ rows) h =
      ground (arith, h, none-IsCurrent interfaces row, not_outdated-IsCurrent interfaces rows)

  -- The interface of the publish is in a mapping that is not current.
  abbrev pub is_outdated : Interfaces I → List MappingRow → RetentionPublish → Bool
  is_outdated interfaces rows p =
      any (λ row. not (is_current interfaces row) && str_beq p.interface row.interface) rows

  kept-outdated :
      (interfaces : Interfaces I) (rows : List MappingRow) (p : RetentionPublish)
      → is_kept (outdated_rows interfaces rows) p ≡ not (is_outdated interfaces rows p)
  kept-outdated interfaces [] p = refl
  kept-outdated interfaces (row ∷ rows) p =
      ground (arith, current-outdated interfaces row, kept-outdated interfaces rows p)

  retain-same :
      {A : Type 0} (f g : A → Bool) (l : List A) → ((a : A) → f a ≡ g a) → retain f l ≡ retain g l
  retain-same f g [] k = refl
  retain-same f g (a ∷ l) k = ground (arith, k a, retain-same f g l k)

  -- Cleaning up the introspection of a sound database leaves it sound, and so each publish with its
  -- mapping. Every mapping left is of an interface that the device has in that major version, and
  -- the publishes left are those whose interface was in no mapping that the device has not in its
  -- major version, in order.
  pub cleanup_introspection-IsCurrent :
      (db : Database) (interfaces : Interfaces I)
      → IsSound db
      → let db' = cleanup_introspection api db interfaces in
        IsSound db'
        × All (IsCurrent interfaces) db'.mappings
        × (db'.publishes ≡ retain (λ p. not (is_outdated interfaces db.mappings p)) db.publishes)
  unfolding cleanup_introspection fetch_all_interfaces
  cleanup_introspection-IsCurrent db interfaces h =
      let names = outdated_rows interfaces db.mappings in
      let (sound, rows, publishes) = delete_many-rows db names h in
      (
        sound,
        not_outdated-IsCurrent interfaces (delete_many db names).mappings
            (rw rows (current-rows interfaces names db.mappings (λ x k. k))),
        publishes ∙ retain-same _ _ db.publishes (kept-outdated interfaces db.mappings),
      )
