-- ===== src/Connection/Incoming.antt =====
-- src/connection/incoming.rs and `validate_timestamp` of src/connection/mod.rs: what is done with an
-- event that the transport received. `receive` holds the deserializers of `Receive` in
-- src/transport/mod.rs, whose payloads are of type `P`; `is_path` tells the strings that the crate
-- `astarte_interfaces` parses as a `MappingPath`; `now` is the time read from the clock, and `debug`
-- says whether the build has debug assertions. The store is the one in memory.
pub mod Effects
use astarte_device_sdk_rust.Common.{
  ℕ, Bool, true, false, not, Option, none, some, [], ◌∷◌, if◌then◌else◌, Result, ok, err, ◌>>=◌,
  ◌>>◌, ensure, map_err, nat_eq, Str, str_eq, option_eq, int_eq,
}
use astarte_device_sdk_rust.Common.Map.{lookup}
use astarte_device_sdk_rust.Error
use astarte_device_sdk_rust.Error.{ErrorKind}
use astarte_device_sdk_rust.Foreign.{
  InterfaceApi, Aggregation, device, server, datastream_individual, datastream_object, properties,
  ownership_beq,
}
use astarte_device_sdk_rust.Interfaces.{Interfaces, MappingRef, mapping_ref}
use astarte_device_sdk_rust.Object.{AstarteObject}
use astarte_device_sdk_rust.Store.{StoredProp, PropertyMapping}
use astarte_device_sdk_rust.Store.Memory.{Memory, store_prop, delete_prop}

-- `Value` of src/event.rs.
pub data Value (V : Type 0) : Type 0 where
  individual : V → ℕ → Value V
  object : AstarteObject V → ℕ → Value V
  property : Option V → Value V

-- `ReceivedEvent`.
pub record ReceivedEvent (P : Type 0) : Type 0 where
  pub interface : Str
  pub path : Str
  pub payload : P

pub record Deserializers (I M P V T : Type 0) : Type 0 where
  pub deserialize_property : MappingRef I M → P → Result (ErrorKind T) (Option V)
  pub deserialize_individual : MappingRef I M → P → Result (ErrorKind T) (V × Option ℕ)
  pub deserialize_object : I → Str → P → Result (ErrorKind T) (AstarteObject V × Option ℕ)

unfoldable pub validate_timestamp :
    {T : Type 0} → Bool → ℕ → Bool → Option ℕ → Result (ErrorKind T) ℕ
validate_timestamp debug now false none = ok now
validate_timestamp debug now true (some timestamp) = ok timestamp
validate_timestamp debug now false (some _) = ok now
validate_timestamp debug now true none =
    if debug then err (Error.interface Error.timestamp) else ok now

module _ {I M P V T : Type 0} (api : InterfaceApi I M) (receive : Deserializers I M P V T)
    (is_path : Str → Bool) (debug : Bool) (now : ℕ) where
  -- The mapping of a path, or the error that there is none.
  unfoldable pub mapping_of_path : I → Str → Result (ErrorKind T) (MappingRef I M)
  unfolding mapping_ref
  mapping_of_path i path = map_err Error.interface (mapping_ref api i path)

  unfoldable pub mapping_property : MappingRef I M → PropertyMapping
  mapping_property r = record {
    interface_name = api.interface_name r.interface;
    version_major = api.version_major r.interface;
    ownership = api.ownership r.interface;
    path = r.path;
  }

  -- `StoredProp::from_mapping`.
  unfoldable pub prop_from_mapping : MappingRef I M → V → StoredProp V
  prop_from_mapping r value = record {
    interface = api.interface_name r.interface;
    path = r.path;
    value = value;
    interface_major = api.version_major r.interface;
    ownership = api.ownership r.interface;
  }

  -- What is done with the property that was deserialized.
  unfoldable pub apply_property :
      MappingRef I M → Option V → Memory V → Result (ErrorKind T) (Value V) × Memory V
  unfolding store_prop delete_prop mapping_property prop_from_mapping
  apply_property r (some value) s =
      (ok (property (some value)), store_prop s (prop_from_mapping r value))
  apply_property r none s =
      if not r.mapping.allow_unset
      then (err (Error.interface Error.unset), s)
      else (ok (property none), delete_prop s (mapping_property r))

  unfoldable pub property_read :
      MappingRef I M
      → Memory V
      → Result (ErrorKind T) (Option V)
      → Result (ErrorKind T) (Value V) × Memory V
  unfolding apply_property
  property_read r s (err e) = (err e, s)
  property_read r s (ok value) = apply_property r value s

  unfoldable pub property_mapped :
      P
      → Memory V
      → Result (ErrorKind T) (MappingRef I M)
      → Result (ErrorKind T) (Value V) × Memory V
  unfolding property_read
  property_mapped payload s (err e) = (err e, s)
  property_mapped payload s (ok r) = property_read r s (receive.deserialize_property r payload)

  unfoldable pub handle_property :
      I → Str → P → Memory V → Result (ErrorKind T) (Value V) × Memory V
  unfolding mapping_of_path property_mapped
  handle_property i path payload s = property_mapped payload s (mapping_of_path i path)

  unfoldable pub handle_individual : I → Str → P → Result (ErrorKind T) (Value V)
  unfolding mapping_of_path validate_timestamp
  handle_individual i path payload = do
    r ← mapping_of_path i path
    received ← receive.deserialize_individual r payload
    timestamp ← validate_timestamp debug now r.mapping.explicit_timestamp received.1
    ok (individual received.0 timestamp)

  unfoldable pub handle_object : I → Str → P → Result (ErrorKind T) (Value V)
  unfolding validate_timestamp
  handle_object i path payload = do
    ensure (api.is_object_path i path) (Error.interface Error.object_path)
    received ← receive.deserialize_object i path payload
    timestamp ← validate_timestamp debug now (api.object_timestamp i) received.1
    ok (object received.0 timestamp)

  -- The handler of the interface's variant.
  unfoldable pub handle_variant :
      I → Str → P → Memory V → Aggregation → Result (ErrorKind T) (Value V) × Memory V
  unfolding handle_property handle_individual handle_object
  handle_variant i path payload s datastream_individual = (handle_individual i path payload, s)
  handle_variant i path payload s datastream_object = (handle_object i path payload, s)
  handle_variant i path payload s properties = handle_property i path payload s

  unfoldable pub handle_found :
      ReceivedEvent P → Memory V → Option I → Result (ErrorKind T) (Value V) × Memory V
  unfolding handle_variant
  handle_found event s none = (err (Error.interface Error.interface_not_found), s)
  handle_found event s (some i) =
      if ownership_beq (api.ownership i) device
      then (err (Error.interface Error.ownership), s)
      else handle_variant i event.path event.payload s (api.aggregation i)

  unfoldable pub handle_event :
      Interfaces I → ReceivedEvent P → Memory V → Result (ErrorKind T) (Value V) × Memory V
  unfolding handle_found
  handle_event interfaces event s =
      if is_path event.path
      then handle_found event s (lookup event.interface interfaces)
      else (err (Error.interface Error.path), s)
