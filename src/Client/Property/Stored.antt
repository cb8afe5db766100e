-- ===== src/Client/Property/Stored.antt =====
-- What setting and unsetting a property leave in the store, whatever the status of the connection.
use astarte_device_sdk_rust.Common.{
  ◌≡◌, Bool, ◌&&◌, some, arith, if◌then◌else◌, is_ok, Eq, eq_refl, nat_eq, str_eq, option_eq,
  int_eq, refl, inl, inr, true, false, none, Bool-cases, ok, Str, option_beq_iff,
}
use astarte_device_sdk_rust.Common.Map.{lookup, insert, lookup-insert, lookup-modify}
use astarte_device_sdk_rust.Client.Property.{Device, property_mapping, with_prop, publish_property}
use astarte_device_sdk_rust.Client.Sending.{is_connected}
use astarte_device_sdk_rust.Foreign.{ownership_beq, InterfaceApi, device}
use astarte_device_sdk_rust.Interfaces.{MappingRef}
use astarte_device_sdk_rust.Packet.{ValidatedProperty}
use astarte_device_sdk_rust.Store.{PropertyState, completed, changed}
use astarte_device_sdk_rust.Store.Memory.{
  Key, Value, key_eq, Memory, store_prop, update_state, with_state,
}
use astarte_device_sdk_rust.Client.Property.{
  try_load_prop, is_prop_stored, send_validated, send_property, publish_unset, send_unset,
}
use astarte_device_sdk_rust.Interfaces.{Interfaces, get_property}
use astarte_device_sdk_rust.Common.Map.{lookup-remove, modify}
use astarte_device_sdk_rust.Store.Memory.{load_prop, unset_prop, unset_value, delete_expected_prop}
use astarte_device_sdk_rust.Validate.{validate_property, validate_unset}
use astarte_device_sdk_rust.Transport.{ConnStatus, disconnected, connected, closed, Publish}

module _ {I M S R V T : Type 0} ⦃eq : Eq V⦄ (api : InterfaceApi I M)
    (eq_mapping_type : V → M → Bool) (transport : Publish S R V T) where
  abbrev pub ref_key : MappingRef I M → Key
  ref_key r = record { interface = api.interface_name r.interface; path = r.path }

  -- The property that `validate` makes of a value it accepts.
  abbrev pub as_property : MappingRef I M → V → ValidatedProperty V
  as_property r value = record {
    interface = api.interface_name r.interface;
    path = r.path;
    version_major = api.version_major r.interface;
    value = value;
  }

  -- What the store holds of it.
  abbrev pub stored_value : MappingRef I M → V → PropertyState → Value V
  stored_value r value state = record {
    value = some value;
    interface_major = api.version_major r.interface;
    ownership = device;
    state = state;
  }

  publish-lookup :
      (status : ConnStatus) (r : MappingRef I M) (value : V) (sender : S) (s : Memory V)
      → let (result, d') =
          publish_property api eq_mapping_type transport status r (as_property r value) (record {
            sender = sender;
            store = with_prop api eq_mapping_type transport s r (as_property r value);
          }) in
        lookup (ref_key r) d'.store
        ≡ some (
            stored_value r value
              (if is_connected status && is_ok result then completed else changed))
  unfolding publish_property with_prop store_prop update_state property_mapping
  publish-lookup connected r value sender s = ground (
    arith,
    lookup-insert (ref_key r) (ref_key r) (stored_value r value changed) s,
    lookup-modify (ref_key r) (ref_key r) (with_state completed)
        (insert (ref_key r) (stored_value r value changed) s),
    eq_refl (ref_key r),
    eq_refl value,
  )
  publish-lookup disconnected r value sender s = ground (
    arith,
    lookup-insert (ref_key r) (ref_key r) (stored_value r value changed) s,
    eq_refl (ref_key r),
  )
  publish-lookup closed r value sender s = ground (
    arith,
    lookup-insert (ref_key r) (ref_key r) (stored_value r value changed) s,
    eq_refl (ref_key r),
  )

  send_property-accepted :
      (status : ConnStatus) (m : Interfaces I) (name path : Str) (value : V) (d : Device S V)
      (r : MappingRef I M)
      → get_property api m name path ≡ ok r
      → ownership_beq (api.ownership r.interface) device ≡ true
      → eq_mapping_type value r.mapping.mapping_type ≡ true
      → send_property api eq_mapping_type transport status m name path value d
        ≡ send_validated api eq_mapping_type transport status r (as_property r value) d
  unfolding send_property validate_property
  send_property-accepted status m name path value d r g o t = ground (arith, g, o, t)

  -- A device property that the interfaces have, set to a value of its type that the store does not
  -- hold for it yet, is afterwards in the store with that value, whatever the status of the
  -- connection and whether or not the sending succeeds. It is marked as completed exactly if the
  -- device is connected and the sending succeeded, and otherwise as changed.
  pub send_property-stores :
      (status : ConnStatus) (m : Interfaces I) (name path : Str) (value : V) (d : Device S V)
      (r : MappingRef I M)
      → get_property api m name path ≡ ok r
      → ownership_beq (api.ownership r.interface) device ≡ true
      → eq_mapping_type value r.mapping.mapping_type ≡ true
      → (is_prop_stored api eq_mapping_type transport d.store r (as_property r value)).0 ≡ false
      → let (result, d') = send_property api eq_mapping_type transport status m name path value d in
        lookup (ref_key r) d'.store
        ≡ some (
            stored_value r value
              (if is_connected status && is_ok result then completed else changed))
  unfolding send_validated
  send_property-stores status m name path value d r g o t n =
      rw (send_property-accepted status m name path value d r g o t, n)
        (publish-lookup status r value d.sender
          (is_prop_stored api eq_mapping_type transport d.store r (as_property r value)).1)

  -- The store still holds the value that `try_load_prop` gives.
  try_load-same :
      (s : Memory V) (r : MappingRef I M) (value : V)
      → (try_load_prop api eq_mapping_type transport s r).0 ≡ some value
      → ((try_load_prop api eq_mapping_type transport s r).1 ≡ s)
        × (load_prop s (property_mapping api eq_mapping_type transport r) ≡ (some value, s))
  unfolding try_load_prop load_prop property_mapping
  try_load-same s r value h = ground arith

  load-stored :
      (s : Memory V) (r : MappingRef I M) (value : V) (state : PropertyState)
      → lookup (ref_key r) s ≡ some (stored_value r value state)
      → load_prop s (property_mapping api eq_mapping_type transport r) ≡ (some value, s)
  unfolding load_prop property_mapping
  load-stored s r value state h = ground (arith, h, eq_refl (api.version_major r.interface))

  try_load-stored :
      (s : Memory V) (r : MappingRef I M) (value : V)
      → eq_mapping_type value r.mapping.mapping_type ≡ true
      → load_prop s (property_mapping api eq_mapping_type transport r) ≡ (some value, s)
      → try_load_prop api eq_mapping_type transport s r ≡ (some value, s)
  unfolding try_load_prop
  try_load-stored s r value t h = ground (arith, h, t)

  prop_stored-same :
      (s : Memory V) (r : MappingRef I M) (value : V)
      → (is_prop_stored api eq_mapping_type transport s r (as_property r value)).0 ≡ true
      → ((is_prop_stored api eq_mapping_type transport s r (as_property r value)).1 ≡ s)
        × (load_prop s (property_mapping api eq_mapping_type transport r) ≡ (some value, s))
  unfolding is_prop_stored
  prop_stored-same s r value h =
      try_load-same s r value
        ((option_beq_iff (try_load_prop api eq_mapping_type transport s r).0 (some value)).0 h)

  send-load :
      (status : ConnStatus) (r : MappingRef I M) (value : V) (d : Device S V)
      → let d' =
          (send_validated api eq_mapping_type transport status r (as_property r value) d).1 in
        load_prop d'.store (property_mapping api eq_mapping_type transport r)
        ≡ (some value, d'.store)
  unfolding send_validated
  send-load status r value d =
      let s' = (is_prop_stored api eq_mapping_type transport d.store r (as_property r value)).1 in
      let p =
        publish_property api eq_mapping_type transport status r (as_property r value) (record {
          sender = d.sender;
          store = with_prop api eq_mapping_type transport s' r (as_property r value);
        }) in
      elim (Bool-cases
        (is_prop_stored api eq_mapping_type transport d.store r (as_property r value)).0) [
          | inl h ↦ let (same, l) = prop_stored-same d.store r value h in rw (h, same) l
          | inr h ↦ rw h (
              load-stored p.1.store r value
                (if is_connected status && is_ok p.0 then completed else changed)
                (publish-lookup status r value d.sender s'))
        ]

  -- Setting a device property that the interfaces have to a value of its type makes the store give
  -- that value for it, whatever the status of the connection and the outcome of the sending.
  pub send_property-load :
      (status : ConnStatus) (m : Interfaces I) (name path : Str) (value : V) (d : Device S V)
      (r : MappingRef I M)
      → get_property api m name path ≡ ok r
      → ownership_beq (api.ownership r.interface) device ≡ true
      → eq_mapping_type value r.mapping.mapping_type ≡ true
      → let (result, d') = send_property api eq_mapping_type transport status m name path value d in
        load_prop d'.store (property_mapping api eq_mapping_type transport r)
        ≡ (some value, d'.store)
  send_property-load status m name path value d r g o t =
      rw (send_property-accepted status m name path value d r g o t) (send-load status r value d)

  -- Setting it again to that value succeeds, gives nothing to the transport and changes nothing,
  -- whatever the status of the connection then and before.
  pub send_property-again :
      (status again : ConnStatus) (m : Interfaces I) (name path : Str) (value : V) (d : Device S V)
      (r : MappingRef I M)
      → get_property api m name path ≡ ok r
      → ownership_beq (api.ownership r.interface) device ≡ true
      → eq_mapping_type value r.mapping.mapping_type ≡ true
      → let d' = (send_property api eq_mapping_type transport status m name path value d).1 in
        send_property api eq_mapping_type transport again m name path value d' ≡ (ok tt, d')
  unfolding send_validated is_prop_stored
  send_property-again status again m name path value d r g o t =
      let d' = (send_property api eq_mapping_type transport status m name path value d).1 in
      rw
        (
          send_property-accepted again m name path value d' r g o t,
          try_load-stored d'.store r value t
              (send_property-load status m name path value d r g o t),
          eq_refl value,
        )
        refl

  -- Unsetting a device property that allows it makes the store give no value for it, whatever the
  -- status of the connection and the outcome of the sending; where the device is connected and the
  -- sending succeeds, its entry is gone.
  pub send_unset-load :
      (status : ConnStatus) (m : Interfaces I) (name path : Str) (d : Device S V)
      (r : MappingRef I M)
      → get_property api m name path ≡ ok r
      → ownership_beq (api.ownership r.interface) device ≡ true
      → r.mapping.allow_unset ≡ true
      → let (result, d') = send_unset api eq_mapping_type transport status m name path d in
        ((load_prop d'.store (property_mapping api eq_mapping_type transport r)).0 ≡ none)
        × ((is_connected status && is_ok result) ≡ true → lookup (ref_key r) d'.store ≡ none)
  unfolding send_unset validate_unset publish_unset unset_prop delete_expected_prop load_prop
      property_mapping
  send_unset-load connected m name path d r g o a = ground (
    arith,
    g,
    lookup-modify (ref_key r) (ref_key r) unset_value d.store,
    lookup-remove (ref_key r) (ref_key r) (modify (ref_key r) unset_value d.store),
    eq_refl (ref_key r),
  )
  send_unset-load disconnected m name path d r g o a =
      ground
        (arith, g, lookup-modify (ref_key r) (ref_key r) unset_value d.store, eq_refl (ref_key r))
  send_unset-load closed m name path d r g o a =
      ground
        (arith, g, lookup-modify (ref_key r) (ref_key r) unset_value d.store, eq_refl (ref_key r))
