-- ===== src/Tests/Runtime.antt =====
-- Examples for the purge payload, the handshake, the dynamic introspection, the received events and the reconnection.
use astarte_device_sdk_rust.Common.{
  ℕ, zero, suc, ◌^◌, ◌≡◌, refl, Bool, true, false, not, Option, none, some, List, [], ◌∷◌, arith,
  ltb, eqb, if◌then◌else◌, length, Result, ok, err, is_ok, nat_eq, Str, str_eq, bytes, option_eq,
  pos, int_eq,
}
use astarte_device_sdk_rust.Client.Introspection as Dynamics
use astarte_device_sdk_rust.Client.Introspection.{add_interface, remove_interface}
use astarte_device_sdk_rust.Foreign.{unique}
use astarte_device_sdk_rust.Client.Introspection.Cleaning.{delete_stored}
use astarte_device_sdk_rust.Client.Introspection.Dynamic.{RemovedOr, remove_interface-RemovedOr}
use astarte_device_sdk_rust.Connection.EventLoop as Loops
use astarte_device_sdk_rust.Connection.EventLoop.{
  ControlFlow, AttemptStatus, attempt_connected, attempt_disconnected, attempts, reconnect,
}
use astarte_device_sdk_rust.Connection.EventLoop.Reconnecting.{
  Leaves, connects, goes_on, reconnect-returns,
}
use astarte_device_sdk_rust.Connection.Incoming.{Deserializers, ReceivedEvent, handle_event}
use astarte_device_sdk_rust.Connection.Incoming.Effects.{EventAffects, handle_event-EventAffects}
use astarte_device_sdk_rust.Error.{ErrorKind}
use astarte_device_sdk_rust.Foreign.{InterfaceApi, server, datastream_individual}
use astarte_device_sdk_rust.Interfaces.{Interfaces}
use astarte_device_sdk_rust.Mqtt.Error.{invalid}
use astarte_device_sdk_rust.Mqtt.{ClientId}
use astarte_device_sdk_rust.Mqtt.Handshake.{Request, Broker, SessionData, full_handshake}
use astarte_device_sdk_rust.Mqtt.Handshake.Messages.{HandshakeAsks, full_handshake-HandshakeAsks}
use astarte_device_sdk_rust.Mqtt.Client.{
  MqttClient, Sent, Acceptance, taken, reliability_of, send_item_stored,
}
use astarte_device_sdk_rust.Retention.Stored.{Database}
use astarte_device_sdk_rust.Transport.{Shared}
use astarte_device_sdk_rust.Mqtt.Client.InFlight.{StoredOr, send_item_stored-StoredOr}
use astarte_device_sdk_rust.Retention.{RetentionId, volatile}
use astarte_device_sdk_rust.Retention.Volatile.{ItemValue}
use astarte_device_sdk_rust.Purge.{encode_set_properties, extract_set_properties}
use astarte_device_sdk_rust.Purge.Roundtrip.{joined, encode-accepts, extract-encode}
use astarte_device_sdk_rust.Store.Memory.{Memory}
use astarte_device_sdk_rust.Tests.Data.{Sample, api, expiry, interfaces, path, answer, publish}
use astarte_device_sdk_rust.Transport.{Register, connected}

abbrev names : List Str
names = bytes "a.B/p" ∷ bytes "a.B/q" ∷ []

abbrev plain : Str → Str
plain s = s

encode-accepts_example :
    if ltb (length (joined names)) (2 ^ 32)
    then is_ok (encode_set_properties plain names) ≡ true
    else encode_set_properties plain names ≡ err invalid
encode-accepts_example = encode-accepts plain names

extract-encode_example :
    (p : Str) × (encode_set_properties plain names ≡ ok p)
    × (extract_set_properties some true p ≡ some (ok names))
extract-encode_example =
    extract-encode plain some true names (λ s. refl)
      ((refl, (refl, (refl, (refl, (refl, tt))))), ((refl, (refl, (refl, (refl, (refl, tt))))), tt))
      (omega arith) (λ h. cc)

abbrev register : Register ℕ Sample ℕ
register = record {
  add_interface = λ _ added calls. answer true calls;
  extend_interfaces = λ _ added calls. answer true calls;
  remove_interface = λ _ removed calls. answer true calls;
  remove_interfaces = λ _ removed calls. answer true calls;
}

abbrev clock : Str → ℕ
clock name = 5

abbrev device : Dynamics.Device Sample ℕ Database ℕ
device = record {
  interfaces = interfaces;
  sender = 0;
  store = [];
  volatile_store = record { store = []; capacity = 2 };
  retention = some (record {
    mappings =
        record {
          interface = bytes "a.B";
          path = path;
          major_version = pos 1;
          reliability = unique;
          expiry_sec = none;
        }
        ∷ [];
    publishes = [];
    retention_capacity = 4;
  });
}

-- The same interfaces, as datastreams.
abbrev streams : InterfaceApi Sample ℕ
streams = record api { aggregation = λ i. datastream_individual }

remove_interface-RemovedOr_example :
    RemovedOr streams expiry register clock device
      (bytes "a.B")
      (remove_interface streams expiry delete_stored register clock device (bytes "a.B"))
remove_interface-RemovedOr_example =
    remove_interface-RemovedOr streams expiry register clock device (bytes "a.B") (refl, tt)

abbrev server_api : InterfaceApi Sample ℕ
server_api = record api { ownership = λ i. server }

-- A payload is the value, and 0 unsets.
abbrev receive : Deserializers Sample ℕ ℕ ℕ ℕ
receive = record {
  deserialize_property = λ r payload. if eqb payload 0 then ok none else ok (some payload);
  deserialize_individual = λ r payload. ok (payload, none);
  deserialize_object = λ i p payload. ok (record { inner = [] }, none);
}

abbrev is_path : Str → Bool
is_path p = not (eqb (length p) 0)

abbrev event : ReceivedEvent ℕ
event = record { interface = bytes "a.B"; path = path; payload = 7 }

abbrev no_props : Memory ℕ
no_props = []

handle_event-EventAffects_example :
    EventAffects server_api receive is_path true 5 interfaces event no_props
      (handle_event server_api receive is_path true 5 interfaces event no_props)
handle_event-EventAffects_example =
    handle_event-EventAffects server_api receive is_path true 5 interfaces event no_props

-- The transport's state counts the failures that are left before it connects without a session.
abbrev attempt : Interfaces Sample → ℕ → Result (ErrorKind ℕ) (AttemptStatus ℕ) × ℕ
attempt _ zero = (ok (attempt_connected false), 0)
attempt _ (suc n) = (ok attempt_disconnected, n)

abbrev silent : ℕ → Result (ErrorKind ℕ) (Option (ReceivedEvent ℕ)) × ℕ
silent n = (ok none, n)

abbrev never : ℕ → Bool
never n = false

abbrev offline : Loops.Device ℕ Sample ℕ
offline = record {
  connection = 1;
  store = no_props;
  retention = none;
  volatile_store = record { store = []; capacity = 2 };
  interfaces = interfaces;
  status = connected;
  events = [];
  listening = true;
  resending = false;
}

reconnect-returns_example :
    (r : Result (ErrorKind ℕ) ControlFlow × Loops.Device ℕ Sample ℕ) × (reconnect server_api receive
        is_path true 5 silent attempt never 9 4 offline
      ≡ some r)
    × Leaves server_api receive is_path true 5 silent attempt never 9
        (attempts server_api receive is_path true 5 silent attempt never 9 4 offline)
        r
reconnect-returns_example =
    reconnect-returns server_api receive is_path true 5 silent attempt never 9 4 offline
      (goes_on refl (connects refl)) (omega arith)

abbrev client_id : ClientId
client_id = record { realm = bytes "r"; device_id = bytes "d" }

abbrev handshake_data : SessionData ℕ
handshake_data = record {
  interfaces = bytes "a.B:1:0";
  interfaces_stored = 1 ∷ [];
  server_interfaces = bytes "a.S" ∷ [];
  device_properties = names;
}

abbrev broker : Broker ℕ
broker = record { requests = []; session = some [] }

-- The fourth request is refused.
abbrev first_three : ℕ → Request → Bool
first_three n request = ltb n 3

full_handshake-HandshakeAsks_example :
    HandshakeAsks ℕ first_three plain client_id handshake_data broker
      (full_handshake first_three plain client_id handshake_data broker)
full_handshake-HandshakeAsks_example =
    full_handshake-HandshakeAsks ℕ first_three plain client_id handshake_data broker

abbrev mqtt_client : MqttClient ℕ
mqtt_client = record { id = some client_id; requests = []; in_flight = []; is_open = true }

abbrev shared : Shared Database ℕ
shared = record {
  volatile_store = record {
    store =
        record {
          id = record { timestamp = 3; counter = 9 };
          store_time = 3;
          sent = true;
          value = publish;
        }
        ∷ [];
    capacity = 2;
  };
  retention = none;
}

abbrev always : ℕ → Sent → Acceptance
always n sent = taken

abbrev encode_item : ItemValue ℕ → Option Str
encode_item v = some (7 ∷ [])

abbrev encode_value : ℕ → Option Str
encode_value v = some (v ∷ [])

abbrev retained : RetentionId
retained = volatile (record { timestamp = 3; counter = 9 })

send_item_stored-StoredOr_example :
    StoredOr ℕ always encode_item encode_value retained publish
      (reliability_of publish)
      (mqtt_client, shared)
      (send_item_stored always encode_item encode_value retained publish mqtt_client shared)
send_item_stored-StoredOr_example =
    send_item_stored-StoredOr ℕ always encode_item encode_value retained publish mqtt_client shared
      (tt, tt)
