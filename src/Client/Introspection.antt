-- ===== src/Client/Introspection.antt =====
-- src/client/introspection.rs: changing the interfaces of a running device. `Device` is the part of
-- the client that these read and write: the collection of interfaces, which stays locked for the
-- whole call, the sender, the property store, the volatile store, and the retention of the store
-- where it has one. `delete_retention` is the retention's `delete_interface`, whose error is only
-- logged. `clock` is what the volatile store reads when it cleans up an interface of that name.
-- `parse` is `from_str` of the crate's `Interface`; the contexts of errors are left out.
pub mod Cleaning
pub mod Dynamic
use astarte_device_sdk_rust.Common.{
  ℕ, Bool, true, false, Option, none, some, List, [], ◌∷◌, map, if◌then◌else◌, retain, Result, ok,
  err, nat_eq, Str, str_eq, option_eq, int_eq,
}
use astarte_device_sdk_rust.Common.Map.{lookup, insert, remove}
use astarte_device_sdk_rust.Error
use astarte_device_sdk_rust.Error.{ErrorKind, InterfaceError}
use astarte_device_sdk_rust.Foreign.{
  InterfaceApi, Retention, Aggregation, datastream_individual, datastream_object, properties,
}
use astarte_device_sdk_rust.Interfaces.{
  Interfaces, Validated, add, validate, validate_many, remove_many, extend,
}
use astarte_device_sdk_rust.Retention.Volatile
use astarte_device_sdk_rust.Retention.Volatile.{State}
use astarte_device_sdk_rust.Store.Memory
use astarte_device_sdk_rust.Store.Memory.{Memory}
use astarte_device_sdk_rust.Transport.{Outcome, Register}

pub record Device (I S R V : Type 0) : Type 0 where
  pub interfaces : Interfaces I
  pub sender : S
  pub store : Memory V
  pub volatile_store : State V
  pub retention : Option R

abbrev pub is_major : {I : Type 0} → Str × Validated I → Bool
is_major e = e.1.major_change

module _ {I M : Type 0} (api : InterfaceApi I M) where
  -- The interfaces to remove, by name; one for each name.
  unfoldable pub collect : Interfaces I → List Str → List (Str × I)
  collect m [] = []
  collect m (name ∷ names) =
      let rest = collect m names in
      elim (lookup name m) [ none ↦ rest | some i ↦ insert (api.interface_name i) i rest ]

module _ {I M S R V T : Type 0} (api : InterfaceApi I M) (as_expiry : Retention → Option ℕ)
    (delete_retention : Str → R → R) (register : Register S I T) (clock : Str → ℕ) where
  unfoldable pub cleanup_retention : Device I S R V → Str → Device I S R V
  unfolding Volatile.delete_interface
  cleanup_retention d name = record d {
    volatile_store = (Volatile.delete_interface as_expiry d.volatile_store name (clock name)).1;
    retention = elim d.retention [ none ↦ none | some r ↦ some (delete_retention name r) ];
  }

  unfoldable pub cleanup_interface : Device I S R V → I → Device I S R V
  unfolding cleanup_retention Memory.delete_interface
  cleanup_interface d i = elim (api.aggregation i) [
    | datastream_individual ↦ cleanup_retention d (api.interface_name i)
    | datastream_object ↦ cleanup_retention d (api.interface_name i)
    | properties ↦ record d { store = Memory.delete_interface d.store (api.interface_name i) }
  ]

  unfoldable pub cleanup_many : Device I S R V → List I → Device I S R V
  unfolding cleanup_interface
  cleanup_many d [] = d
  cleanup_many d (i ∷ rest) = cleanup_many (cleanup_interface d i) rest

  -- What follows the announcement of an added interface.
  unfoldable pub finish_add : Device I S R V → Validated I → Device I S R V
  unfolding cleanup_interface add
  finish_add d v =
      let d' = if v.major_change then cleanup_interface d v.interface else d in
      record d' { interfaces = add api d.interfaces v }

  -- The announcement, and what follows it if it succeeds.
  unfoldable pub announce :
      {A : Type 0}
      → Outcome T S
      → Device I S R V
      → A
      → (Device I S R V → Device I S R V)
      → Result (ErrorKind T) A × Device I S R V
  announce (ok _, s) d a finish = (ok a, finish (record d { sender = s }))
  announce (err e, s) d a finish = (err e, record d { sender = s })

  unfoldable pub add_validated :
      Device I S R V
      → Result InterfaceError (Option (Validated I))
      → Result (ErrorKind T) Bool × Device I S R V
  unfolding announce finish_add
  add_validated d (err _) = (err (Error.interface Error.invalid), d)
  add_validated d (ok none) = (ok false, d)
  add_validated d (ok (some v)) =
      announce (register.add_interface d.interfaces v d.sender) d true (λ d'. finish_add d' v)

  unfoldable pub add_interface : Device I S R V → I → Result (ErrorKind T) Bool × Device I S R V
  unfolding validate add_validated
  add_interface d i = add_validated d (validate api d.interfaces i)

  unfoldable pub finish_extend : Device I S R V → List (Str × Validated I) → Device I S R V
  unfolding cleanup_many extend
  finish_extend d vs =
      let d' = cleanup_many d (map (λ e. e.1.interface) (retain is_major vs)) in
      record d' { interfaces = extend api d.interfaces vs }

  unfoldable pub extend_interfaces :
      Device I S R V → List I → Result (ErrorKind T) (List Str) × Device I S R V
  unfolding validate_many announce finish_extend
  extend_interfaces d iter = elim (validate_many api d.interfaces iter) [
    | err _ ↦ (err (Error.interface Error.invalid), d)
    | ok [] ↦ (ok [], d)
    | ok (v ∷ vs) ↦
        announce (register.extend_interfaces d.interfaces (v ∷ vs) d.sender) d
          (map (λ e. e.0) (v ∷ vs)) (λ d'. finish_extend d' (v ∷ vs))
  ]

  unfoldable pub add_interface_from_str :
      (Str → Option I) → Device I S R V → Str → Result (ErrorKind T) Bool × Device I S R V
  unfolding add_interface
  add_interface_from_str parse d json = elim (parse json) [
    | none ↦ (err (Error.interface Error.invalid), d)
    | some i ↦ add_interface d i
  ]

  -- The file's contents, or the error of reading it.
  unfoldable pub add_interface_from_file :
      (Str → Option I) → Device I S R V → Option Str → Result (ErrorKind T) Bool × Device I S R V
  unfolding add_interface_from_str
  add_interface_from_file parse d none = (err Error.io, d)
  add_interface_from_file parse d (some json) = add_interface_from_str parse d json

  unfoldable pub finish_remove : Device I S R V → Str → I → Device I S R V
  unfolding cleanup_interface
  finish_remove d name i =
      let d' = cleanup_interface d i in record d' { interfaces = remove name d.interfaces }

  unfoldable pub remove_found :
      Device I S R V → Str → Option I → Result (ErrorKind T) Bool × Device I S R V
  unfolding announce finish_remove
  remove_found d name none = (ok false, d)
  remove_found d name (some i) =
      announce (register.remove_interface d.interfaces i d.sender) d true
        (λ d'. finish_remove d' name i)

  unfoldable pub remove_interface :
      Device I S R V → Str → Result (ErrorKind T) Bool × Device I S R V
  unfolding remove_found
  remove_interface d name = remove_found d name (lookup name d.interfaces)

  unfoldable pub finish_remove_many : Device I S R V → List (Str × I) → Device I S R V
  unfolding cleanup_many remove_many
  finish_remove_many d removed =
      let d' = cleanup_many d (map (λ e. e.1) removed) in
      record d' { interfaces = remove_many api d.interfaces (map (λ e. e.0) removed) }

  unfoldable pub remove_interfaces :
      Device I S R V → List Str → Result (ErrorKind T) (List Str) × Device I S R V
  unfolding collect announce finish_remove_many
  remove_interfaces d names = elim (collect api d.interfaces names) [
    | [] ↦ (ok [], d)
    | e ∷ removed ↦
        announce (register.remove_interfaces d.interfaces (e ∷ removed) d.sender) d
          (map (λ e. e.0) (e ∷ removed)) (λ d'. finish_remove_many d' (e ∷ removed))
  ]
