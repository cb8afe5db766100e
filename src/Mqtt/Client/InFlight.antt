-- ===== src/Mqtt/Client/InFlight.antt =====
-- What sending a datastream with retention over MQTT, in src/transport/mqtt/mod.rs, does to what is
-- kept of it.
use astarte_device_sdk_rust.Common.{
  ℕ, ◌≡◌, refl, ap, inl, inr, not, Option, none, some, [], ◌∷◌, ◌++◌, if◌then◌else◌, Bool-cases,
  retain, ok, err, ok_or, nat_eq, Str, str_eq, option_eq, int_eq,
}
use astarte_device_sdk_rust.Error
use astarte_device_sdk_rust.Error.{ErrorKind}
use astarte_device_sdk_rust.Foreign.{Reliability, unreliable, guaranteed, unique}
use astarte_device_sdk_rust.Mqtt.Error as Errors
use astarte_device_sdk_rust.Mqtt.Error.{MqttError}
use astarte_device_sdk_rust.Mqtt.{ClientId, show, to_qos, slash}
use astarte_device_sdk_rust.Retention.{PublishId, RetentionId, id_beq}
use astarte_device_sdk_rust.Retention.Stored.{Database}
use astarte_device_sdk_rust.Retention.Stored.Tables as Tables
use astarte_device_sdk_rust.Retention.Volatile.{ItemValue}
use astarte_device_sdk_rust.Retention.Volatile.Marks.{HasUniqueIds, item_of, mark_received-item}
use astarte_device_sdk_rust.Transport.{Outcome, Shared}
use astarte_device_sdk_rust.Mqtt.Client.{
  MqttClient, Sent, Acceptance, taken, refused, timed_out, reliability_of, interface_of, path_of,
  mark_received, hand_over, send, send_as, send_serialized, mark_sent, then_mark, serialize_item,
  send_item, send_item_stored,
}

-- The publishes with the identifier are gone from the database, and nothing else.
abbrev pub IsWithout : PublishId → Option Database → Option Database → Type 0
IsWithout id none none = Unit
IsWithout id (some db) (some db') =
    (db'.mappings ≡ db.mappings) × (db'.publishes ≡ retain (λ p. not (id_beq p.id id)) db.publishes)
IsWithout id none (some db') = ⊥
IsWithout id (some db) none = ⊥

without_lem :
    (id : PublishId) (o : Option Database)
    → IsWithout id o (elim o [ none ↦ none | some db ↦ some (Tables.mark_received db id) ])
unfolding Tables.mark_received
without_lem id none = tt
without_lem id (some db) = (refl, refl)

module _ {V : Type 0} where
  -- What is stored under the identifier is gone, and nothing else.
  abbrev pub IsDropped : RetentionId → Shared Database V → Shared Database V → Type 0
  IsDropped (RetentionId.volatile id) k k' =
      ((other : PublishId)
        → item_of other k'.volatile_store.store
          ≡ (if id_beq id other then none else item_of other k.volatile_store.store))
      × (k'.retention ≡ k.retention)
  IsDropped (RetentionId.stored id) k k' =
      (k'.volatile_store ≡ k.volatile_store) × IsWithout id k.retention k'.retention

  -- What became of the identifier: nobody acknowledges an unreliable publish, so it is not kept.
  abbrev pub IsMarked :
      RetentionId
      → Reliability
      → MqttClient V × Shared Database V
      → MqttClient V × Shared Database V
      → Type 0
  IsMarked id unreliable (c, k) (c', k') = IsDropped id k k' × (c'.in_flight ≡ c.in_flight)
  IsMarked id _ (c, k) (c', k') = (k' ≡ k) × (c'.in_flight ≡ c.in_flight ++ id ∷ [])

  mark_received-IsDropped :
      (id : RetentionId) (k : Shared Database V)
      → HasUniqueIds k.volatile_store.store
      → IsDropped id k (mark_received id k)
  unfolding mark_received
  mark_received-IsDropped (RetentionId.volatile id) k u =
      (λ other. (mark_received-item k.volatile_store id other u).1, refl)
  mark_received-IsDropped (RetentionId.stored id) k u = (refl, without_lem id k.retention)

module _ {V : Type 0} (E : Type 0) (accepts : ℕ → Sent → Acceptance)
    (serialize : ItemValue V → Option Str) (serialize_value : V → Option Str) where
  abbrev pub IsPublished : ItemValue V → MqttClient V → MqttClient V → Type 0
  IsPublished v c c' =
      (id : ClientId) × (buf : Str) × (c.id ≡ some id)
      × (serialize v ≡ some buf)
      × (c'.requests
          ≡ c.requests
            ++ record {
              topic = show id ++ slash ∷ interface_of v ++ path_of v;
              qos = to_qos (reliability_of v);
              payload = buf;
            }
              ∷ [])

  -- What a call that sends a publish with retention did, by its result.
  abbrev pub StoredOr :
      RetentionId
      → ItemValue V
      → Reliability
      → MqttClient V × Shared Database V
      → Outcome (MqttError E) (MqttClient V × Shared Database V)
      → Type 0
  StoredOr id v r (c, k) (ok _, (c', k')) = IsPublished v c c' × IsMarked id r (c, k) (c', k')
  StoredOr id v r (c, k) (err e, (c', k')) = (k' ≡ k) × (c'.in_flight ≡ c.in_flight)

  abbrev SentOr : ItemValue V → MqttClient V → Outcome (MqttError E) (MqttClient V) → Type 0
  SentOr v c (ok _, c') = IsPublished v c c' × (c'.in_flight ≡ c.in_flight)
  SentOr v c (err e, c') = c'.in_flight ≡ c.in_flight

  hand_over-SentOr :
      (v : ItemValue V) (c : MqttClient V) (id : ClientId) (buf : Str) (a : Acceptance)
      → c.id ≡ some id
      → serialize v ≡ some buf
      → SentOr v c (
          hand_over accepts serialize serialize_value a
            (record {
              topic = show id ++ slash ∷ interface_of v ++ path_of v;
              qos = to_qos (reliability_of v);
              payload = buf;
            })
            c)
  unfolding hand_over
  hand_over-SentOr v c id buf taken h k = ((id, buf, h, k, refl), refl)
  hand_over-SentOr v c id buf refused h k = refl
  hand_over-SentOr v c id buf timed_out h k = refl

  send_item-SentOr :
      (v : ItemValue V) (c : MqttClient V)
      → SentOr v c (send_item accepts serialize serialize_value v c)
  unfolding send_item serialize_item
  send_item-SentOr v c = go (serialize v) refl
    where
      sent :
          (buf : Str) (o : Option ClientId)
          → serialize v ≡ some buf
          → c.id ≡ o
          → SentOr v c (
              send_as accepts serialize serialize_value o
                (interface_of v)
                (path_of v)
                (to_qos (reliability_of v))
                buf
                c)
      sent buf none k h = unfold send_as in refl
      sent buf (some id) k h = unfold send_as in hand_over-SentOr v c id buf _ h k

      go :
          (o : Option Str)
          → serialize v ≡ o
          → SentOr v c (
              send_serialized accepts serialize serialize_value v
                (ok_or o (Error.transport Errors.payload))
                c)
      go none k = unfold send_serialized in refl
      go (some buf) k = unfold send_serialized send in sent buf c.id k refl

  queued-StoredOr :
      (id : RetentionId) (v : ItemValue V) (c c' : MqttClient V) (k : Shared Database V)
      → IsPublished v c c'
      → c'.in_flight ≡ c.in_flight
      → StoredOr id v guaranteed
          (c, k)
          (mark_sent accepts serialize serialize_value id guaranteed c' k)
  unfolding mark_sent
  queued-StoredOr id v c c' k p h = elim (Bool-cases c'.is_open) [
    | inl o ↦ rw o (p, (refl, ap (λ l. l ++ id ∷ []) h))
    | inr o ↦ rw o (refl, h)
  ]

  mark_sent-StoredOr :
      (id : RetentionId) (v : ItemValue V) (r : Reliability) (c c' : MqttClient V)
      (k : Shared Database V)
      → HasUniqueIds k.volatile_store.store
      → IsPublished v c c'
      → c'.in_flight ≡ c.in_flight
      → StoredOr id v r (c, k) (mark_sent accepts serialize serialize_value id r c' k)
  unfolding mark_sent
  mark_sent-StoredOr id v unreliable c c' k u p h = (p, (mark_received-IsDropped id k u, h))
  mark_sent-StoredOr id v guaranteed c c' k u p h = queued-StoredOr id v c c' k p h
  mark_sent-StoredOr id v unique c c' k u p h = queued-StoredOr id v c c' k p h

  then_mark-StoredOr :
      (id : RetentionId) (v : ItemValue V) (r : Reliability) (c : MqttClient V)
      (k : Shared Database V) (o : Outcome (MqttError E) (MqttClient V))
      → HasUniqueIds k.volatile_store.store
      → SentOr v c o
      → StoredOr id v r (c, k) (then_mark accepts serialize serialize_value id r k o)
  unfolding then_mark
  then_mark-StoredOr id v r c k (err e, c') u h = (refl, h)
  then_mark-StoredOr id v r c k (ok _, c') u h = mark_sent-StoredOr id v r c c' k u h.0 h.1

  -- Sending a datastream with retention over MQTT, where the identifiers in the volatile store are
  -- different: where it succeeds, its payload was published on the topic of the device, the interface
  -- and the path, with the quality of service of its reliability, after the requests before. What
  -- was stored under the identifier of an unreliable one, in the volatile store or the database, is
  -- then gone, and nothing else; any other waits in flight as the last, and all that is stored is as
  -- it was. On an error all that is stored, and what is in flight, is as it was.
  pub send_item_stored-StoredOr :
      (id : RetentionId) (v : ItemValue V) (c : MqttClient V) (k : Shared Database V)
      → HasUniqueIds k.volatile_store.store
      → StoredOr id v
          (reliability_of v)
          (c, k)
          (send_item_stored accepts serialize serialize_value id v c k)
  unfolding send_item_stored
  send_item_stored-StoredOr id v c k u =
      then_mark-StoredOr id v (reliability_of v) c k
        (send_item accepts serialize serialize_value v c) u (send_item-SentOr v c)
