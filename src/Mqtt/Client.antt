-- ===== src/Mqtt/Client.antt =====
-- The MQTT client of src/transport/mqtt/mod.rs: what it sends, and the packets that it keeps in flight
-- until the broker acknowledges them. `MqttClient` is what its methods read and write: the client id
-- once the transport is there, the requests so far, and the channel of the packets in flight, which may be closed. `accepts` says how the client of the
-- MQTT library, or the timeout around it, answers a request, given how many it took before.
-- `serialize` and `serialize_value` are the encoders of payload.rs; the kind of their error is left
-- out. The token of a packet in flight is left out too. The volatile store and the
-- stored retention are shared with the client, as `Shared`.
pub mod InFlight
pub mod Ready
use astarte_device_sdk_rust.Common.{
  ℕ, Bool, Option, none, some, List, [], ◌∷◌, ◌++◌, if◌then◌else◌, length, Result, ok, err, ok_or,
  nat_eq, Str, str_eq, option_eq, int_eq,
}
use astarte_device_sdk_rust.Error
use astarte_device_sdk_rust.Error.{ErrorKind}
use astarte_device_sdk_rust.Foreign.{Reliability, unreliable, guaranteed, unique}
use astarte_device_sdk_rust.Mqtt.Error as Errors
use astarte_device_sdk_rust.Mqtt.Error.{MqttError}
use astarte_device_sdk_rust.Mqtt.{ClientId, QoS, exactly_once, show, to_qos, slash}
use astarte_device_sdk_rust.Packet.{ValidatedProperty, ValidatedUnset}
use astarte_device_sdk_rust.Retention.{RetentionId, volatile, stored}
use astarte_device_sdk_rust.Retention.Stored.{Database, PublishInfo}
use astarte_device_sdk_rust.Retention.Stored.Tables as Tables
use astarte_device_sdk_rust.Retention.Volatile as Queue
use astarte_device_sdk_rust.Retention.Volatile.{State, ItemValue, individual, object}
use astarte_device_sdk_rust.Store.{OptStoredProp}
use astarte_device_sdk_rust.Transport.{Outcome, Publish, Shared}

-- A publish that was handed to the MQTT library.
pub record Sent : Type 0 where
  pub topic : Str
  pub qos : QoS
  pub payload : Str

pub data Acceptance : Type 0 where
  taken refused timed_out : Acceptance

pub record MqttClient (V : Type 0) : Type 0 where
  pub id : Option ClientId
  pub requests : List Sent
  pub in_flight : List RetentionId
  pub is_open : Bool

abbrev pub reliability_of : {V : Type 0} → ItemValue V → Reliability
reliability_of (individual v) = v.reliability
reliability_of (object v) = v.reliability

abbrev pub interface_of : {V : Type 0} → ItemValue V → Str
interface_of (individual v) = v.interface
interface_of (object v) = v.interface

abbrev pub path_of : {V : Type 0} → ItemValue V → Str
path_of (individual v) = v.path
path_of (object v) = v.path

module _ {V : Type 0} where
  unfoldable pub mark_received : RetentionId → Shared Database V → Shared Database V
  unfolding Queue.mark_received Tables.mark_received
  mark_received (volatile id) k = record k {
    volatile_store = (Queue.mark_received k.volatile_store id).1;
  }
  mark_received (stored id) k = record k {
    retention = elim k.retention [ none ↦ none | some db ↦ some (Tables.mark_received db id) ];
  }

module _ {V E : Type 0} (accepts : ℕ → Sent → Acceptance) (serialize : ItemValue V → Option Str)
    (serialize_value : V → Option Str) where
  -- What the library answered, with the client as it is then.
  unfoldable pub hand_over : Acceptance → Sent → MqttClient V → Outcome (MqttError E) (MqttClient V)
  hand_over taken sent c = (ok tt, record c { requests = c.requests ++ sent ∷ [] })
  hand_over refused sent c = (err (Error.transport Errors.publish), c)
  hand_over timed_out sent c = (err (Error.transport Errors.timeout), c)

  unfoldable pub send_as :
      Option ClientId → Str → Str → QoS → Str → MqttClient V → Outcome (MqttError E) (MqttClient V)
  unfolding hand_over
  send_as none interface path qos payload c = (err (Error.transport Errors.no_client), c)
  send_as (some id) interface path qos payload c =
      let sent : Sent = record {
        topic = show id ++ slash ∷ interface ++ path;
        qos = qos;
        payload = payload;
      } in
      hand_over (accepts (length c.requests) sent) sent c

  unfoldable pub send : Str → Str → QoS → Str → MqttClient V → Outcome (MqttError E) (MqttClient V)
  unfolding send_as
  send interface path qos payload c = send_as c.id interface path qos payload c

  -- What a datastream with retention was sent for is not kept any more, or waits for its
  -- acknowledgement.
  unfoldable pub mark_sent :
      RetentionId
      → Reliability
      → MqttClient V
      → Shared Database V
      → Outcome (MqttError E) (MqttClient V × Shared Database V)
  unfolding mark_received
  mark_sent id unreliable c k = (ok tt, (c, mark_received id k))
  mark_sent id _ c k =
      if c.is_open
      then (ok tt, (record c { in_flight = c.in_flight ++ id ∷ [] }, k))
      else (err Error.disconnected, (c, k))

  unfoldable pub then_mark :
      RetentionId
      → Reliability
      → Shared Database V
      → Outcome (MqttError E) (MqttClient V)
      → Outcome (MqttError E) (MqttClient V × Shared Database V)
  unfolding mark_sent
  then_mark id reliability k (err e, c) = (err e, (c, k))
  then_mark id reliability k (ok _, c) = mark_sent id reliability c k

  unfoldable pub serialize_item : ItemValue V → Result (ErrorKind (MqttError E)) Str
  serialize_item v = ok_or (serialize v) (Error.transport Errors.payload)

  unfoldable pub send_serialized :
      ItemValue V
      → Result (ErrorKind (MqttError E)) Str
      → MqttClient V
      → Outcome (MqttError E) (MqttClient V)
  unfolding send
  send_serialized v (err e) c = (err e, c)
  send_serialized v (ok buf) c = send (interface_of v) (path_of v) (to_qos (reliability_of v)) buf c

  -- `send_individual` and `send_object`.
  unfoldable pub send_item : ItemValue V → MqttClient V → Outcome (MqttError E) (MqttClient V)
  unfolding serialize_item send_serialized
  send_item v c = send_serialized v (serialize_item v) c

  unfoldable pub send_item_stored :
      RetentionId
      → ItemValue V
      → MqttClient V
      → Shared Database V
      → Outcome (MqttError E) (MqttClient V × Shared Database V)
  unfolding send_item then_mark
  send_item_stored id v c k = then_mark id (reliability_of v) k (send_item v c)

  unfoldable pub resend_stored :
      RetentionId
      → PublishInfo
      → MqttClient V
      → Shared Database V
      → Outcome (MqttError E) (MqttClient V × Shared Database V)
  unfolding send then_mark
  resend_stored id info c k =
      then_mark id info.reliability k
        (send info.interface info.path (to_qos info.reliability) info.value c)

  unfoldable pub send_property :
      ValidatedProperty V → MqttClient V → Outcome (MqttError E) (MqttClient V)
  unfolding send
  send_property p c = elim (serialize_value p.value) [
    | none ↦ (err (Error.transport Errors.payload), c)
    | some buf ↦ send p.interface p.path exactly_once buf c
  ]

  -- Unsetting sends an empty payload.
  unfoldable pub unset : ValidatedUnset → MqttClient V → Outcome (MqttError E) (MqttClient V)
  unfolding send
  unset p c = send p.interface p.path exactly_once [] c

  unfoldable pub resend_stored_property :
      OptStoredProp V → MqttClient V → Outcome (MqttError E) (MqttClient V)
  unfolding send
  resend_stored_property p c = elim p.value [
    | none ↦ send p.interface p.path exactly_once [] c
    | some v ↦ elim (serialize_value v) [
      | none ↦ (err (Error.transport Errors.payload), c)
      | some buf ↦ send p.interface p.path exactly_once buf c
    ]
  ]

  -- The `Publish` of the MQTT client.
  unfoldable pub mqtt_publish : Publish (MqttClient V) Database V (MqttError E)
  unfolding send_item send_item_stored serialize_item send_property unset resend_stored_property
  mqtt_publish = record {
    send_item = send_item;
    send_item_stored = send_item_stored;
    serialize_item = λ v c. serialize_item v;
    send_property = send_property;
    unset = unset;
    resend_stored_property = resend_stored_property;
  }
