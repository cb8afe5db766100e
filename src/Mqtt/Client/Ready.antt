-- ===== src/Mqtt/Client/Ready.antt =====
-- What the MQTT client of src/transport/mqtt/mod.rs promises to the client and to the resend task,
-- which send through it and share the volatile store with it.
use astarte_device_sdk_rust.Common.{
  ℕ, ◌≡◌, refl, inl, inr, Bool, true, not, ◌&&◌, Option, none, some, [], arith, if◌then◌else◌, ok,
  err, is_ok, Eq, nat_eq, Str, str_eq, option_eq, int_eq,
}
use astarte_device_sdk_rust.Client.Sending.{IsHandler}
use astarte_device_sdk_rust.Connection.Resend.Batches.{Accepts, IsTakenOr}
use astarte_device_sdk_rust.Foreign.{
  reliability_beq, Reliability, Retention, unreliable, guaranteed, unique,
}
use astarte_device_sdk_rust.Mqtt.{ClientId, QoS, to_qos, exactly_once}
use astarte_device_sdk_rust.Mqtt.Client.{
  MqttClient, Sent, Acceptance, taken, mark_received, mark_sent, then_mark, send, send_as,
  hand_over, send_item, send_item_stored, serialize_item, send_serialized, resend_stored_property,
  reliability_of, interface_of, path_of, mqtt_publish,
}
use astarte_device_sdk_rust.Mqtt.Error.{MqttError}
use astarte_device_sdk_rust.Retention.{PublishId, RetentionId}
use astarte_device_sdk_rust.Retention.Stored.{Database}
use astarte_device_sdk_rust.Retention.Volatile as Queue
use astarte_device_sdk_rust.Retention.Volatile.{ItemValue}
use astarte_device_sdk_rust.Store.{OptStoredProp}
use astarte_device_sdk_rust.Transport.{Outcome, Shared, StoredRetention}

module _ {V : Type 0} where
  -- The client has its transport, and the channel of the packets in flight is open.
  abbrev pub IsReady : MqttClient V → Type 0
  IsReady c = ((id : ClientId) × (c.id ≡ some id)) × (c.is_open ≡ true)

-- Any publish but an unreliable one waits for its acknowledgement.
abbrev pub waits_for_ack : {V : Type 0} → ItemValue V → Bool
waits_for_ack item = not (reliability_beq (reliability_of item) unreliable)

module _ {V : Type 0} (E : Type 0) (accepts : ℕ → Sent → Acceptance)
    (serialize : ItemValue V → Option Str) (serialize_value : V → Option Str) where
  abbrev Left : Type 0
  Left = Outcome (MqttError E) (MqttClient V × Shared Database V)

  -- The item of the identifier is gone if it was sent and is unreliable.
  abbrev IsHandled : PublishId → Reliability → Shared Database V → Left → Type 0
  IsHandled id reliability k (r, (c, k')) = k'.volatile_store ≡ (
      if is_ok r && not (not (reliability_beq reliability unreliable))
      then (Queue.mark_received k.volatile_store id).1
      else k.volatile_store)

  mark_sent-IsHandled :
      (id : PublishId) (r : Reliability) (c : MqttClient V) (k : Shared Database V)
      → IsHandled id r k
          (mark_sent accepts serialize serialize_value (RetentionId.volatile id) r c k)
  unfolding mark_sent mark_received
  mark_sent-IsHandled id unreliable c k = refl
  mark_sent-IsHandled id guaranteed c k = ground arith
  mark_sent-IsHandled id unique c k = ground arith

  then_mark-IsHandled :
      (id : PublishId) (r : Reliability) (k : Shared Database V)
      (o : Outcome (MqttError E) (MqttClient V))
      → IsHandled id r k
          (then_mark accepts serialize serialize_value (RetentionId.volatile id) r k o)
  unfolding then_mark
  then_mark-IsHandled id r k (err e, c) = refl
  then_mark-IsHandled id r k (ok _, c) = mark_sent-IsHandled id r c k

  mark_sent-stored :
      (id : PublishId) (r : Reliability) (c : MqttClient V) (k : Shared Database V)
      → (mark_sent {E = E} accepts serialize serialize_value
          (RetentionId.stored id)
          r
          c
          k).1.1.volatile_store
        ≡ k.volatile_store
  unfolding mark_sent mark_received
  mark_sent-stored id unreliable c k = refl
  mark_sent-stored id guaranteed c k = ground arith
  mark_sent-stored id unique c k = ground arith

  then_mark-stored :
      (id : PublishId) (r : Reliability) (k : Shared Database V)
      (o : Outcome (MqttError E) (MqttClient V))
      → (then_mark accepts serialize serialize_value
          (RetentionId.stored id)
          r
          k
          o).1.1.volatile_store
        ≡ k.volatile_store
  unfolding then_mark
  then_mark-stored id r k (err e, c) = refl
  then_mark-stored id r k (ok _, c) = mark_sent-stored id r c k

  -- Whatever the MQTT library and the encoders answer, the MQTT client, sending a publish that was
  -- stored, takes from the volatile store the item of the identifier that it was given if the sending
  -- succeeded and the publish is unreliable, and else nothing; and nothing for the identifier of a
  -- publish in the stored retention.
  pub mqtt_publish-IsHandler :
      (as_expiry : Retention → Option ℕ) (grown : ℕ → ℕ) (retention : StoredRetention Database V)
      → IsHandler as_expiry grown
          (mqtt_publish {E = E} accepts serialize serialize_value)
          retention
          waits_for_ack
  unfolding mqtt_publish send_item_stored
  mqtt_publish-IsHandler as_expiry grown retention = (
    λ id item c k.
        then_mark-IsHandled id (reliability_of item) k
          (send_item accepts serialize serialize_value item c),
    λ id item c k.
        then_mark-stored id (reliability_of item) k
          (send_item accepts serialize serialize_value item c),
  )

-- The library takes every request, and every value has an encoding.
module _ {V : Type 0} ⦃eq : Eq V⦄ (E : Type 0) (encode : ItemValue V → Str)
    (encode_value : V → Str) where
  abbrev always : ℕ → Sent → Acceptance
  always n sent = taken

  abbrev encoded : ItemValue V → Option Str
  encoded item = some (encode item)

  abbrev value_encoded : V → Option Str
  value_encoded v = some (encode_value v)

  send-IsReady :
      (interface path : Str) (qos : QoS) (buf : Str) (c : MqttClient V)
      → IsReady c
      → let (r, c') = send {E = E} always encoded value_encoded interface path qos buf c in
        (is_ok r ≡ true) × IsReady c'
  unfolding send send_as hand_over
  send-IsReady interface path qos buf c ((id, e), o) = rw e (refl, ((id, refl), o))

  mark_sent-IsReady :
      (id : PublishId) (r : Reliability) (c : MqttClient V) (k : Shared Database V)
      → IsReady c
      → let (result, after) =
          mark_sent {E = E} always encoded value_encoded (RetentionId.volatile id) r c k in
        (is_ok result ≡ true)
        × IsReady after.0
        × IsTakenOr id k.volatile_store after.1.volatile_store
  unfolding mark_sent mark_received
  mark_sent-IsReady id unreliable c k h = (refl, h, inr refl)
  mark_sent-IsReady id guaranteed c k h = rw h.1 (refl, (h.0, refl), inl refl)
  mark_sent-IsReady id unique c k h = rw h.1 (refl, (h.0, refl), inl refl)

  then_mark-IsReady :
      (id : PublishId) (r : Reliability) (k : Shared Database V)
      (o : Outcome (MqttError E) (MqttClient V))
      → is_ok o.0 ≡ true
      → IsReady o.1
      → let (result, after) =
          then_mark always encoded value_encoded (RetentionId.volatile id) r k o in
        (is_ok result ≡ true)
        × IsReady after.0
        × IsTakenOr id k.volatile_store after.1.volatile_store
  unfolding then_mark
  then_mark-IsReady id r k (err e, c) h ready = ground (arith, h)
  then_mark-IsReady id r k (ok _, c) h ready = mark_sent-IsReady id r c k ready

  resent-IsReady :
      (p : OptStoredProp V) (o : Option V) (c : MqttClient V)
      → p.value ≡ o
      → IsReady c
      → let (r, c') = resend_stored_property {E = E} always encoded value_encoded p c in
        (is_ok r ≡ true) × IsReady c'
  unfolding resend_stored_property
  resent-IsReady p none c h ready = rw h (send-IsReady p.interface p.path exactly_once [] c ready)
  resent-IsReady p (some v) c h ready =
      rw h (send-IsReady p.interface p.path exactly_once (encode_value v) c ready)

  -- While the library takes every request and every value has an encoding, an MQTT client that has
  -- its transport and an open channel for the packets in flight accepts every property and every
  -- volatile publish that is sent again, stays so, and leaves the volatile store as it was, or
  -- without the item of the identifier that it was given.
  pub mqtt_publish-Accepts :
      (as_expiry : Retention → Option ℕ)
      → Accepts as_expiry (mqtt_publish {E = E} always encoded value_encoded) IsReady
  unfolding mqtt_publish send_item_stored send_item serialize_item send_serialized
  mqtt_publish-Accepts as_expiry = (
    λ p c ready. resent-IsReady p p.value c refl ready,
    λ id item c k ready.
        let (r, ready') =
          send-IsReady (interface_of item) (path_of item) (to_qos (reliability_of item))
            (encode item) c ready in
        then_mark-IsReady id (reliability_of item) k
          (send always encoded value_encoded (interface_of item) (path_of item)
            (to_qos (reliability_of item)) (encode item) c)
          r ready',
  )
