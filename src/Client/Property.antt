-- ===== src/Client/Property.antt =====
-- src/client/property.rs: setting and unsetting a device property. `Device` is the part of the client
-- that these read and write: the sender and the store, here the store in memory.
pub mod Stored
use astarte_device_sdk_rust.Common.{
  Bool, not, Option, none, some, if◌then◌else◌, ok, err, is_ok, Eq, nat_eq, Str, str_eq, option_beq,
  option_eq, int_eq,
}
use astarte_device_sdk_rust.Error
use astarte_device_sdk_rust.Error.{ErrorKind}
use astarte_device_sdk_rust.Foreign.{InterfaceApi, device}
use astarte_device_sdk_rust.Interfaces.{Interfaces, MappingRef, get_property}
use astarte_device_sdk_rust.Packet.{ValidatedProperty, ValidatedUnset}
use astarte_device_sdk_rust.Store.{PropertyMapping, completed}
use astarte_device_sdk_rust.Store.Memory.{
  Memory, store_prop, load_prop, delete_prop, unset_prop, update_state, delete_expected_prop,
}
use astarte_device_sdk_rust.Transport.{
  ConnStatus, disconnected, connected, closed, Outcome, Publish,
}
use astarte_device_sdk_rust.Validate.{validate_property, validate_unset}

pub record Device (S V : Type 0) : Type 0 where
  pub sender : S
  pub store : Memory V

module _ {I M S R V T : Type 0} ⦃eq : Eq V⦄ (api : InterfaceApi I M)
    (eq_mapping_type : V → M → Bool) (transport : Publish S R V T) where
  -- `PropertyMapping::from(&MappingRef)`.
  unfoldable pub property_mapping : MappingRef I M → PropertyMapping
  property_mapping r = record {
    interface_name = api.interface_name r.interface;
    version_major = api.version_major r.interface;
    ownership = api.ownership r.interface;
    path = r.path;
  }

  unfoldable pub try_load_prop : Memory V → MappingRef I M → Option V × Memory V
  unfolding property_mapping load_prop delete_prop
  try_load_prop s r =
      let (value, s') = load_prop s (property_mapping r) in
      elim value [
        | none ↦ (none, s')
        | some v ↦
            if not (eq_mapping_type v r.mapping.mapping_type)
            then (none, delete_prop s' (property_mapping r))
            else (some v, s')
      ]

  unfoldable pub is_prop_stored : Memory V → MappingRef I M → ValidatedProperty V → Bool × Memory V
  unfolding try_load_prop
  is_prop_stored s r new =
      let (stored, s') = try_load_prop s r in (option_beq stored (some new.value), s')

  -- The store with the new value.
  unfoldable pub with_prop : Memory V → MappingRef I M → ValidatedProperty V → Memory V
  unfolding store_prop
  with_prop s r validated = store_prop s (record {
    interface = validated.interface;
    path = validated.path;
    value = validated.value;
    interface_major = api.version_major r.interface;
    ownership = device;
  })

  -- What follows storing the value, by the status of the connection.
  unfoldable pub publish_property :
      ConnStatus → MappingRef I M → ValidatedProperty V → Device S V → Outcome T (Device S V)
  unfolding update_state property_mapping
  publish_property connected r validated d =
      let (result, sender) = transport.send_property validated d.sender in
      let (updated, store) =
        update_state d.store (property_mapping r) completed (some validated.value) in
      (result, record { sender = sender; store = if is_ok result then store else d.store })
  publish_property disconnected r validated d = (ok tt, d)
  publish_property closed r validated d = (err Error.disconnected, d)

  -- `send_property`, once the value is validated.
  unfoldable pub send_validated :
      ConnStatus → MappingRef I M → ValidatedProperty V → Device S V → Outcome T (Device S V)
  unfolding is_prop_stored with_prop publish_property
  send_validated status r validated d =
      let (stored, s) = is_prop_stored d.store r validated in
      if stored
      then (ok tt, record d { store = s })
      else publish_property status r validated (record d { store = with_prop s r validated })

  unfoldable pub send_property :
      ConnStatus → Interfaces I → Str → Str → V → Device S V → Outcome T (Device S V)
  unfolding send_validated
  send_property status interfaces name path value d = elim (get_property api interfaces name path) [
    | err e ↦ (err (Error.interface e), d)
    | ok r ↦ elim (validate_property api eq_mapping_type r value) [
      | err e ↦ (err (Error.interface e), d)
      | ok validated ↦ send_validated status r validated d
    ]
  ]

  -- What follows unsetting the value in the store.
  unfoldable pub publish_unset :
      ConnStatus → MappingRef I M → ValidatedUnset → Device S V → Outcome T (Device S V)
  unfolding delete_expected_prop property_mapping
  publish_unset connected r validated d =
      let (result, sender) = transport.unset validated d.sender in
      let (updated, store) = delete_expected_prop d.store (property_mapping r) none in
      (result, record { sender = sender; store = if is_ok result then store else d.store })
  publish_unset disconnected r validated d = (ok tt, d)
  publish_unset closed r validated d = (err Error.disconnected, d)

  unfoldable pub send_unset :
      ConnStatus → Interfaces I → Str → Str → Device S V → Outcome T (Device S V)
  unfolding unset_prop property_mapping publish_unset
  send_unset status interfaces name path d = elim (get_property api interfaces name path) [
    | err e ↦ (err (Error.interface e), d)
    | ok r ↦ elim (validate_unset api r) [
      | err e ↦ (err (Error.interface e), d)
      | ok validated ↦
          publish_unset status r validated
            (record d { store = unset_prop d.store (property_mapping r) })
    ]
  ]
