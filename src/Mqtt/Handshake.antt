-- ===== src/Mqtt/Handshake.antt =====
-- The handshake of src/transport/mqtt/connection/handshake.rs, with `SessionData` and the extension of
-- the MQTT client of src/transport/mqtt/mod.rs: what the device asks of the broker once it is
-- connected. `Broker` is what was asked so far and the stored introspection, if the store keeps
-- sessions; `accepts` says whether the client of the MQTT library takes a request, given how many it
-- took before. Every request has the quality of service `ExactlyOnce`. `compress` is the zlib encoder.
-- `S` is an entry of the stored introspection, made of an interface by `to_entry`.
pub mod Messages
use astarte_device_sdk_rust.Common.{
  ℕ, ◌-◌, ◌^◌, Bool, false, Option, none, some, List, [], ◌∷◌, ◌++◌, map, if◌then◌else◌, length,
  retain, Result, ok, err, nat_eq, Str, str_eq, bytes, option_eq, ℤ, int_beq, int_eq,
}
use astarte_device_sdk_rust.Common.Map.{lookup}
use astarte_device_sdk_rust.Foreign.{InterfaceApi, server, ownership_beq}
use astarte_device_sdk_rust.Interfaces.{Interfaces, values, introspection}
use astarte_device_sdk_rust.Mqtt.Error
use astarte_device_sdk_rust.Mqtt.Error.{MqttError, PurgePropError}
use astarte_device_sdk_rust.Mqtt.{ClientId, show, make_interface_wildcard}
use astarte_device_sdk_rust.Purge.{encode_set_properties}
use astarte_device_sdk_rust.Store.{OptStoredProp, completed}
use astarte_device_sdk_rust.Store.Memory.{Memory, device_props_with_unset}

pub data Request : Type 0 where
  subscribe_to : Str → Request
  publish_on : Str → Str → Request

pub record Broker (S : Type 0) : Type 0 where
  pub requests : List Request
  pub session : Option (List S)

pub record SessionData (S : Type 0) : Type 0 where
  pub interfaces : Str
  pub interfaces_stored : List S
  pub server_interfaces : List Str
  pub device_properties : List Str

module _ {I M : Type 0} (api : InterfaceApi I M) where
  unfoldable pub filter_server_interfaces : Interfaces I → List Str
  filter_server_interfaces m =
      map api.interface_name (retain (λ i. ownership_beq (api.ownership i) server) (values m))

  -- A property that has a value, of an interface that the device has in that major version.
  unfoldable pub is_current : {V : Type 0} → Interfaces I → OptStoredProp V → Bool
  is_current m p = elim p.value [
    | none ↦ false
    | some _ ↦ elim (lookup p.interface m) [
      | none ↦ false
      | some i ↦ int_beq (api.version_major i) p.interface_major
    ]
  ]

  -- The limit is `i64::MAX`.
  unfoldable pub load_set_device_properties : {V : Type 0} → Interfaces I → Memory V → List Str
  unfolding is_current device_props_with_unset
  load_set_device_properties m s =
      map (λ p. p.interface ++ p.path)
        (retain (is_current m) (device_props_with_unset s completed (2 ^ 63 - 1) 0))

  unfoldable pub from_props :
      {S V : Type 0} → (ℤ → Str) → (I → S) → Interfaces I → Memory V → SessionData S
  unfolding filter_server_interfaces load_set_device_properties introspection
  from_props show_version to_entry m s = record {
    interfaces = introspection api show_version (values m);
    interfaces_stored = map to_entry (values m);
    server_interfaces = filter_server_interfaces m;
    device_properties = load_set_device_properties m s;
  }

-- A result, with the broker as it is then.
abbrev pub Asked : Type 0 → Type 0 → Type 0
Asked S E = Result (MqttError E) (Unit {0}) × Broker S

module _ {S E : Type 0} where
  -- `?` between the requests.
  unfoldable pub and_then : Asked S E → (Broker S → Asked S E) → Asked S E
  and_then (err e, b) next = (err e, b)
  and_then (ok _, b) next = next b

module _ {S : Type 0} where
  -- `store_introspection`, if the store keeps sessions: it adds the entries to the table, which the
  -- start of the handshake cleared.
  unfoldable pub store_introspection : List S → Broker S → Broker S
  store_introspection entries b = record b {
    session = elim b.session [ none ↦ none | some _ ↦ some entries ];
  }

module _ {S E : Type 0} (accepts : ℕ → Request → Bool) where
  -- One request, and the error if it is not taken.
  unfoldable pub ask : MqttError E → Request → Broker S → Asked S E
  ask e request b =
      if accepts (length b.requests) request
      then (ok tt, record b { requests = b.requests ++ request ∷ [] })
      else (err e, b)

  unfoldable pub send_introspection : ClientId → Str → Broker S → Asked S E
  unfolding ask
  send_introspection id text = ask Error.publish (publish_on (show id) text)

  unfoldable pub subscribe_interfaces : ClientId → List Str → Broker S → Asked S E
  unfolding ask and_then
  subscribe_interfaces id [] b = (ok tt, b)
  subscribe_interfaces id (name ∷ rest) b =
      and_then (ask Error.subscribe (subscribe_to (make_interface_wildcard id name)) b)
        (λ b'. subscribe_interfaces id rest b')

  unfoldable pub subscribe_server_interfaces : ClientId → List Str → Broker S → Asked S E
  unfolding ask and_then subscribe_interfaces
  subscribe_server_interfaces id names b =
      and_then
        (ask Error.subscribe (subscribe_to (show id ++ bytes "/control/consumer/properties")) b)
        (λ b'. subscribe_interfaces id names b')

  unfoldable pub send_empty_cache : ClientId → Broker S → Asked S E
  unfolding ask
  send_empty_cache id =
      ask Error.publish (publish_on (show id ++ bytes "/control/emptyCache") (bytes "1"))

  -- The purge, once the names are encoded.
  unfoldable pub purge_with : ClientId → Result PurgePropError Str → Broker S → Asked S E
  unfolding ask
  purge_with id (err e) b = (err (Error.purge_prop e), b)
  purge_with id (ok payload) b =
      ask Error.publish (publish_on (show id ++ bytes "/control/producer/properties") payload) b

  unfoldable pub purge_device_properties : (Str → Str) → ClientId → List Str → Broker S → Asked S E
  unfolding purge_with encode_set_properties
  purge_device_properties compress id properties b =
      purge_with id (encode_set_properties compress properties) b

  -- The task of `full_handshake`.
  unfoldable pub full_handshake : (Str → Str) → ClientId → SessionData S → Broker S → Asked S E
  unfolding and_then subscribe_server_interfaces send_introspection store_introspection
      send_empty_cache purge_device_properties
  full_handshake compress id session_data b =
      and_then (subscribe_server_interfaces id session_data.server_interfaces b) (λ b1.
        and_then (send_introspection id session_data.interfaces b1) (λ b2.
          and_then (send_empty_cache id (store_introspection session_data.interfaces_stored b2))
            (λ b3. purge_device_properties compress id session_data.device_properties b3)))
