-- ===== src/Client/Introspection/Cleaning.antt =====
-- Cleaning up what is stored of an interface, in src/client/introspection.rs.
use astarte_device_sdk_rust.Common.{
  ℕ, ◌≡◌, refl, ◌∙◌, Bool, true, false, not, Option, none, some, List, [], ◌∷◌, arith,
  if◌then◌else◌, retain, Eq, nat_eq, Str, str_beq, str_eq, option_eq, int_eq,
}
use astarte_device_sdk_rust.Common.Map.{lookup}
use astarte_device_sdk_rust.Foreign.{
  InterfaceApi, Retention, Aggregation, datastream_individual, datastream_object, properties,
}
use astarte_device_sdk_rust.Interfaces.{Interfaces}
use astarte_device_sdk_rust.Retention.Stored.{Database}
use astarte_device_sdk_rust.Retention.Stored.Tables as Tables
use astarte_device_sdk_rust.Retention.Volatile.Marks.{delete_interface-store}
use astarte_device_sdk_rust.Retention.Volatile
use astarte_device_sdk_rust.Retention.Volatile.{is_interface, is_live}
use astarte_device_sdk_rust.Store.Memory
use astarte_device_sdk_rust.Store.Memory.{Memory, Key, Value, key_eq}
use astarte_device_sdk_rust.Transport.{Register}
use astarte_device_sdk_rust.Client.Introspection.{Device, cleanup_interface, cleanup_retention}

module _ {K V : Type 0} ⦃e : Eq K⦄ where
  lookup-retain_keys :
      (p : K → Bool) (k : K) (m : List (K × V))
      → lookup k (retain (λ x. p x.0) m) ≡ (if p k then lookup k m else none)
  unfolding lookup
  lookup-retain_keys p k [] = ground arith
  lookup-retain_keys p k ((j, v) ∷ m) = ground (arith, lookup-retain_keys p k m, e.beq_iff j k)

module _ {I S R V : Type 0} where
  -- What is stored in the two devices is the same.
  abbrev pub IsStoredSame : Device I S R V → Device I S R V → Type 0
  IsStoredSame d d' =
      (d'.store ≡ d.store) × (d'.volatile_store ≡ d.volatile_store) × (d'.retention ≡ d.retention)

-- The `delete_interface` of the retention in SQLite.
abbrev pub delete_stored : Str → Database → Database
delete_stored name db = Tables.delete_interface db name

-- The mappings and the publishes of the interface are gone from the database; all others are there,
-- in order.
abbrev pub IsRemovedFrom : Str → Option Database → Option Database → Type 0
IsRemovedFrom name none none = Unit
IsRemovedFrom name (some db) (some db') =
    (db'.mappings ≡ retain (λ row. not (str_beq row.interface name)) db.mappings)
    × (db'.publishes ≡ retain (λ p. not (str_beq p.interface name)) db.publishes)
IsRemovedFrom name none (some db') = ⊥
IsRemovedFrom name (some db) none = ⊥

removed-from :
    (name : Str) (o : Option Database)
    → IsRemovedFrom name o (elim o [ none ↦ none | some r ↦ some (delete_stored name r) ])
unfolding Tables.delete_interface
removed-from name none = tt
removed-from name (some db) = (refl, refl)

module _ {I S V : Type 0} (as_expiry : Retention → Option ℕ) (clock : Str → ℕ) where
  -- What is stored of the interface of that name is gone, and of no other interface: its properties,
  -- or its publishes from the volatile store, which loses the expired ones too, and from the database.
  abbrev pub IsCleaned : Aggregation → Str → Device I S Database V → Device I S Database V → Type 0
  IsCleaned properties name d d' =
      ((key : Key)
        → lookup key d'.store ≡ (if str_beq key.interface name then none else lookup key d.store))
      × (d'.volatile_store ≡ d.volatile_store)
      × (d'.retention ≡ d.retention)
  IsCleaned _ name d d' =
      (d'.store ≡ d.store)
      × (retain (λ item. not (is_interface item name))
            (retain (is_live as_expiry (clock name)) d.volatile_store.store)
          ≡ d'.volatile_store.store)
      × IsRemovedFrom name d.retention d'.retention

flip_cases : {A : Type 0} (b : Bool) (x y : A) → (if not b then x else y) ≡ (if b then y else x)
flip_cases true x y = refl
flip_cases false x y = refl

module _ {I M S V T : Type 0} (api : InterfaceApi I M) (as_expiry : Retention → Option ℕ)
    (register : Register S I T) (clock : Str → ℕ) where
  unfoldable pub cleanup : Device I S Database V → I → Device I S Database V
  cleanup = cleanup_interface api as_expiry delete_stored register clock

  abbrev cleaned : Device I S Database V → I → Aggregation → Device I S Database V
  cleaned d i properties = record d {
    store = Memory.delete_interface d.store (api.interface_name i);
  }
  cleaned d i _ =
      cleanup_retention api as_expiry delete_stored register clock d (api.interface_name i)

  cleaned-IsCleaned :
      (d : Device I S Database V) (i : I) (a : Aggregation)
      → IsCleaned as_expiry clock a (api.interface_name i) d (cleaned d i a)
  unfolding cleanup_retention Memory.delete_interface Volatile.delete_interface
  cleaned-IsCleaned d i properties =
      let name = api.interface_name i in
      (
        λ key.
            lookup-retain_keys (λ (k : Key). not (str_beq k.interface name)) key d.store
            ∙ flip_cases (str_beq key.interface name) (lookup key d.store) none,
        refl,
        refl,
      )
  cleaned-IsCleaned d i datastream_individual =
      let name = api.interface_name i in
      (
        refl,
        (delete_interface-store as_expiry d.volatile_store name (clock name)).2,
        removed-from name d.retention,
      )
  cleaned-IsCleaned d i datastream_object =
      let name = api.interface_name i in
      (
        refl,
        (delete_interface-store as_expiry d.volatile_store name (clock name)).2,
        removed-from name d.retention,
      )

  cleanup-cleaned :
      (d : Device I S Database V) (i : I) → cleanup d i ≡ cleaned d i (api.aggregation i)
  unfolding cleanup cleanup_interface
  cleanup-cleaned d i =
      elim (api.aggregation i)
        as (λ a.
          elim a [
            | datastream_individual ↦
                cleanup_retention api as_expiry delete_stored register clock d
                  (api.interface_name i)
            | datastream_object ↦
                cleanup_retention api as_expiry delete_stored register clock d
                  (api.interface_name i)
            | properties ↦ record d {
              store = Memory.delete_interface d.store (api.interface_name i);
            }
          ]
          ≡ cleaned d i a) [
            | datastream_individual ↦ refl
            | datastream_object ↦ refl
            | properties ↦ refl
          ]

  pub cleanup-IsCleaned :
      (d : Device I S Database V) (i : I)
      → IsCleaned as_expiry clock (api.aggregation i) (api.interface_name i) d (cleanup d i)
  cleanup-IsCleaned d i = rw (cleanup-cleaned d i) (cleaned-IsCleaned d i (api.aggregation i))

  pub IsCleaned-resent :
      (a : Aggregation) (name : Str) (d d' : Device I S Database V) (s : S) (m : Interfaces I)
      → IsCleaned as_expiry clock a name (record d { sender = s }) d'
      → IsCleaned as_expiry clock a name d (record d' { interfaces = m })
  IsCleaned-resent properties name d d' s m h = h
  IsCleaned-resent datastream_individual name d d' s m h = h
  IsCleaned-resent datastream_object name d d' s m h = h
