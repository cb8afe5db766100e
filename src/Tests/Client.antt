-- ===== src/Tests/Client.antt =====
-- Examples for the client, the resend task, the volatile store and the validation.
use astarte_device_sdk_rust.Common.Map.{lookup}
use astarte_device_sdk_rust.Interfaces.{get_property}
use astarte_device_sdk_rust.Client.Property.{is_prop_stored}
use astarte_device_sdk_rust.Retention.{next}
use astarte_device_sdk_rust.Retention.Volatile.{push, retention_of}
use astarte_device_sdk_rust.Client.{send}
use astarte_device_sdk_rust.Client.Property.{send_property, send_unset, property_mapping}
use astarte_device_sdk_rust.Client.Sending.{IsHandler, left}
use astarte_device_sdk_rust.Mqtt.{ClientId}
use astarte_device_sdk_rust.Mqtt.Error.{MqttError}
use astarte_device_sdk_rust.Mqtt.Client.{MqttClient, mqtt_publish, taken}
use astarte_device_sdk_rust.Mqtt.Client.Ready.{
  waits_for_ack, IsReady, mqtt_publish-IsHandler, mqtt_publish-Accepts,
}
use astarte_device_sdk_rust.Retention.Stored.{Database}
use astarte_device_sdk_rust.Retention.Volatile.{ItemValue, individual}
use astarte_device_sdk_rust.Connection.Resend.{resend}
use astarte_device_sdk_rust.Connection.Resend.Batches.{waiting, Accepts}
use astarte_device_sdk_rust.Retention.Volatile.{is_unsent}
use astarte_device_sdk_rust.Store.Memory.{load_prop, key_eq}
use astarte_device_sdk_rust.Store.Memory.Waiting.{unset_prop-waiting}
use astarte_device_sdk_rust.Store.{PropertyMapping}
use astarte_device_sdk_rust.Store.Memory.{key_of, key_beq, is_device_in, unset_prop}
use astarte_device_sdk_rust.Common.{
  ℕ, ◌≡◌, refl, ◌⊎◌, true, false, ◌&&◌, none, some, [], ◌∷◌, arith, if◌then◌else◌, retain, All, ok,
  is_ok, nat_eq, Str, str_beq, str_eq, bytes, option_eq, pos, int_eq,
}
use astarte_device_sdk_rust.Client.{Clock}
use astarte_device_sdk_rust.Client as Sends
use astarte_device_sdk_rust.Client.Property as Sets
use astarte_device_sdk_rust.Client.Property.Stored.{
  send_property-stores, send_property-load, send_property-again, send_unset-load,
}
use astarte_device_sdk_rust.Client.Sending.{send-keeps, send-offline}
use astarte_device_sdk_rust.Connection.Resend as Resends
use astarte_device_sdk_rust.Connection.Resend.Drain.{resend-drains}
use astarte_device_sdk_rust.Retention.{new_context}
use astarte_device_sdk_rust.Retention.Volatile.{State, VolatileItem}
use astarte_device_sdk_rust.Store.{changed, completed}
use astarte_device_sdk_rust.Store.Memory.{Key, Value, Memory}
use astarte_device_sdk_rust.Foreign.{device, unreliable, volatile}
use astarte_device_sdk_rust.Tests.Data.{
  api, fits, transport, retention, expiry, grown, publish, path, interfaces, sample_ref,
}
use astarte_device_sdk_rust.Transport.{connected, disconnected, closed, Publish, StoredRetention}

abbrev clock : Clock
clock = record { id_at = 5; now = 5; stored_at = 6 }

abbrev item : VolatileItem ℕ
item = record {
  id = record { timestamp = 3; counter = 9 };
  store_time = 3;
  sent = false;
  value = publish;
}

abbrev queue : State ℕ
queue = record { store = item ∷ []; capacity = 4 }

abbrev client : Sends.Device ℕ ℕ ℕ
client = record { sender = 0; retention = some 0; volatile_store = queue; context = new_context }

abbrev device_entry : Key × Value ℕ
device_entry = (
  record { interface = bytes "a.B"; path = path },
  record { value = some 3; interface_major = pos 1; ownership = device; state = changed },
)

abbrev unset_entry : Key × Value ℕ
unset_entry = (
  record { interface = bytes "a.B"; path = bytes "/q" },
  record { value = none; interface_major = pos 1; ownership = device; state = changed },
)

abbrev props : Memory ℕ
props = device_entry ∷ unset_entry ∷ []

abbrev setter : Sets.Device ℕ ℕ
setter = record { sender = 0; store = props }

abbrev client_id : ClientId
client_id = record { realm = bytes "realm"; device_id = bytes "device" }

abbrev mqtt_client : MqttClient ℕ
mqtt_client = record { id = some client_id; requests = []; in_flight = []; is_open = true }

abbrev encode_item : ItemValue ℕ → Str
encode_item v = 7 ∷ []

abbrev encode_value : ℕ → Str
encode_value v = v ∷ []

abbrev mqtt : Publish (MqttClient ℕ) Database ℕ (MqttError ℕ)
mqtt = mqtt_publish (λ n sent. taken) (λ v. some (encode_item v)) (λ v. some (encode_value v))

abbrev offline : Resends.Device (MqttClient ℕ) ℕ
offline = record {
  sender = mqtt_client;
  store = props;
  volatile_store = queue;
  status = disconnected;
}

-- Two properties and a publish wait for the MQTT client; four rounds are enough.
resend-drains_example :
    (d' : Resends.Device (MqttClient ℕ) ℕ) × (resend expiry mqtt 4 (λ n. n) 1 offline ≡ some d')
    × (retain is_unsent d'.volatile_store.store ≡ [])
    × (waiting d'.store ≡ [])
    × (d'.status ≡ connected)
unfolding str_beq
resend-drains_example =
    resend-drains expiry mqtt IsReady 4 (λ n. n) 1 offline
      (mqtt_publish-Accepts ℕ encode_item encode_value expiry)
      (((refl, tt), (tt, tt)), (tt, tt), ((client_id, refl), refl)) (omega arith) (omega arith)

-- The sending fails, so the property stays changed.
send_property-stores_example :
    let (result, d') =
      send_property api fits (transport false) connected interfaces (bytes "a.B") path 8 setter in
    lookup (record { interface = bytes "a.B"; path = path }) d'.store
    ≡ some (record {
      value = some 8;
      interface_major = pos 1;
      ownership = device;
      state = if true && is_ok result then completed else changed;
    })
unfolding get_property lookup str_beq is_prop_stored
send_property-stores_example =
    send_property-stores api fits (transport false) connected interfaces (bytes "a.B") path 8 setter
      sample_ref refl refl refl refl

send_property-load_example :
    let (result, d') =
      send_property api fits (transport true) closed interfaces (bytes "a.B") path 8 setter in
    load_prop d'.store (property_mapping api fits (transport true) sample_ref) ≡ (some 8, d'.store)
unfolding get_property lookup str_beq
send_property-load_example =
    send_property-load api fits (transport true) closed interfaces (bytes "a.B") path 8 setter
      sample_ref refl refl refl

send_property-again_example :
    let d' =
      (send_property api fits
        (transport true)
        disconnected
        interfaces
        (bytes "a.B")
        path
        8
        setter).1 in
    send_property api fits (transport true) connected interfaces (bytes "a.B") path 8 d'
    ≡ (ok tt, d')
unfolding get_property lookup str_beq
send_property-again_example =
    send_property-again api fits (transport true) disconnected connected interfaces (bytes "a.B")
      path 8 setter sample_ref refl refl refl

send_unset-load_example :
    let (result, d') =
      send_unset api fits (transport true) connected interfaces (bytes "a.B") path setter in
    ((load_prop d'.store (property_mapping api fits (transport true) sample_ref)).0 ≡ none)
    × ((true && is_ok result) ≡ true
        → lookup (record { interface = bytes "a.B"; path = path }) d'.store ≡ none)
unfolding get_property lookup str_beq
send_unset-load_example =
    send_unset-load api fits (transport true) connected interfaces (bytes "a.B") path setter
      sample_ref refl refl refl

abbrev stored_retention : StoredRetention Database ℕ
stored_retention = record {
  store_publish = λ id item payload sent r. (true, r);
  update_sent_flag = λ id sent r. (true, r);
}

abbrev sending_client : Sends.Device (MqttClient ℕ) Database ℕ
sending_client = record {
  sender = mqtt_client;
  retention = none;
  volatile_store = queue;
  context = new_context;
}

abbrev unreliable_publish : ItemValue ℕ
unreliable_publish = individual (record {
  interface = bytes "a.D";
  path = path;
  version_major = pos 0;
  reliability = unreliable;
  retention = volatile none;
  value = 7;
  timestamp = none;
})

-- The publish is sent and nobody acknowledges it, so only the other one stays.
send-keeps_example :
    let (result, d') =
      send expiry grown mqtt stored_retention connected sending_client unreliable_publish clock in
    d'.volatile_store
    ≡ left expiry grown mqtt stored_retention waits_for_ack sending_client unreliable_publish
        (true && is_ok result)
        clock
unfolding next push retention_of
send-keeps_example =
    send-keeps expiry grown mqtt stored_retention waits_for_ack connected sending_client
      unreliable_publish clock
      (mqtt_publish-IsHandler ℕ (λ n sent. taken) (λ v. some (encode_item v))
        (λ v. some (encode_value v)) expiry grown stored_retention)
      (refl, tt)

send-offline_example :
    let (result, d') = send expiry grown (transport true) retention closed client publish clock in
    (d'.sender ≡ 0)
    × (is_ok result ≡ true → (closed ≡ disconnected))
    × (is_ok result ≡ false → (closed ≡ closed) ⊎ (false ≡ true))
unfolding retention_of
send-offline_example =
    send-offline expiry grown (transport true) retention closed client publish clock refl

abbrev sent_mapping : PropertyMapping
sent_mapping = record {
  interface_name = bytes "a.B";
  version_major = pos 1;
  ownership = device;
  path = path;
}

abbrev sent_value : Value ℕ
sent_value = record {
  value = some 3;
  interface_major = pos 1;
  ownership = device;
  state = completed;
}

abbrev sent_props : Memory ℕ
sent_props = (key_of sent_mapping, sent_value) ∷ unset_entry ∷ []

unset_prop-waiting_example :
    All
      (λ e. key_beq e.0 (key_of sent_mapping) ≡ false)
      (retain (is_device_in changed) (unset_prop sent_props sent_mapping))
unfolding lookup str_beq
unset_prop-waiting_example =
    unset_prop-waiting sent_mapping sent_value sent_props ((refl, tt), (tt, tt)) refl refl

mqtt_publish-IsHandler_example : IsHandler expiry grown mqtt stored_retention waits_for_ack
mqtt_publish-IsHandler_example =
    mqtt_publish-IsHandler ℕ (λ n sent. taken) (λ v. some (encode_item v))
      (λ v. some (encode_value v)) expiry grown stored_retention

mqtt_publish-Accepts_example : Accepts expiry mqtt IsReady
mqtt_publish-Accepts_example = mqtt_publish-Accepts ℕ encode_item encode_value expiry
