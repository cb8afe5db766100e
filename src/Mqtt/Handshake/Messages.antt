-- ===== src/Mqtt/Handshake/Messages.antt =====
-- The requests of the handshake of src/transport/mqtt/connection/handshake.rs, in their order.
use astarte_device_sdk_rust.Common.{
  ℕ, ◌≡◌, refl, sym, ◌∙◌, inl, inr, Bool, List, [], ◌∷◌, ◌++◌, map, arith, Bool-cases, length,
  append_nil, Result, ok, err, nat_eq, Str, str_eq, bytes, option_eq, int_eq,
}
use mathlib.Core.List.{append_assoc}
use astarte_device_sdk_rust.Mqtt.Error
use astarte_device_sdk_rust.Mqtt.Error.{MqttError, PurgePropError}
use astarte_device_sdk_rust.Mqtt.{ClientId, show, make_interface_wildcard}
use astarte_device_sdk_rust.Purge.{encode_set_properties}
use astarte_device_sdk_rust.Mqtt.Handshake.{
  Request, subscribe_to, publish_on, Broker, SessionData, Asked, ask, and_then, send_introspection,
  subscribe_interfaces, subscribe_server_interfaces, send_empty_cache, purge_device_properties,
  purge_with, store_introspection, full_handshake,
}

module _ {S : Type 0} where
  -- The requests before the purge: the server's properties, its interfaces, the introspection, and
  -- the empty cache.
  abbrev pub messages : ClientId → SessionData S → List Request
  messages id d =
      subscribe_to (show id ++ bytes "/control/consumer/properties")
        ∷ map (λ name. subscribe_to (make_interface_wildcard id name)) d.server_interfaces
      ++ publish_on (show id) d.interfaces
        ∷ publish_on (show id ++ bytes "/control/emptyCache") (bytes "1")
        ∷ []

module _ {S : Type 0} (E : Type 0) (accepts : ℕ → Request → Bool) where
  -- All requests were taken; on an error the first of them, in order.
  abbrev Asks : List Request → Broker S → Result (MqttError E) (Unit {0}) × Broker S → Type 0
  Asks l b (ok _, b') = b'.requests ≡ b.requests ++ l
  Asks l b (err e, b') = (rest : List Request) × (b'.requests ++ rest ≡ b.requests ++ l)

  ask-Asks :
      (e : MqttError E) (request : Request) (b : Broker S)
      → Asks (request ∷ []) b (ask accepts e request b)
  unfolding ask
  ask-Asks e request b = elim (Bool-cases (accepts (length b.requests) request)) [
    | inl h ↦ rw h refl
    | inr h ↦ rw h (request ∷ [], refl)
  ]

  Asks-append :
      (l k : List Request) (b b' : Broker S) (o : Result (MqttError E) (Unit {0}) × Broker S)
      → b'.requests ≡ b.requests ++ l
      → Asks k b' o
      → Asks (l ++ k) b o
  Asks-append l k b b' (ok _, c) h q = ground (arith, h, q, append_assoc b.requests l k)
  Asks-append l k b b' (err e, c) h (rest, q) =
      (rest, ground (arith, h, q, append_assoc b.requests l k))

  and_then-Asks :
      (l k : List Request) (b : Broker S) (o : Result (MqttError E) (Unit {0}) × Broker S)
      (next : Broker S → Result (MqttError E) (Unit {0}) × Broker S)
      → Asks l b o
      → ((b' : Broker S) → Asks k b' (next b'))
      → Asks (l ++ k) b (and_then o next)
  unfolding and_then
  and_then-Asks l k b (ok _, b') next h q = Asks-append l k b b' (next b') h (q b')
  and_then-Asks l k b (err e, b') next (rest, h) q =
      (rest ++ k, ground (arith, h, append_assoc b'.requests rest k, append_assoc b.requests l k))

  subscribe_interfaces-Asks :
      (id : ClientId) (names : List Str) (b : Broker S)
      → Asks
          (map (λ name. subscribe_to (make_interface_wildcard id name)) names)
          b
          (subscribe_interfaces accepts id names b)
  unfolding subscribe_interfaces
  subscribe_interfaces-Asks id [] b = sym (append_nil b.requests)
  subscribe_interfaces-Asks id (name ∷ rest) b =
      and_then-Asks (subscribe_to (make_interface_wildcard id name) ∷ [])
        (map (λ n. subscribe_to (make_interface_wildcard id n)) rest) b
        (ask accepts Error.subscribe (subscribe_to (make_interface_wildcard id name)) b)
        (λ b'. subscribe_interfaces accepts id rest b')
        (ask-Asks Error.subscribe (subscribe_to (make_interface_wildcard id name)) b)
        (λ b'. subscribe_interfaces-Asks id rest b')

  -- The handshake without the purge.
  announced : ClientId → SessionData S → Broker S → Result (MqttError E) (Unit {0}) × Broker S
  announced id d b = and_then (subscribe_server_interfaces accepts id d.server_interfaces b) (λ b1.
      and_then (send_introspection accepts id d.interfaces b1)
        (λ b2. send_empty_cache accepts id (store_introspection d.interfaces_stored b2)))

  announced-Asks :
      (id : ClientId) (d : SessionData S) (b : Broker S) → Asks (messages id d) b (announced id d b)
  unfolding announced subscribe_server_interfaces send_introspection send_empty_cache
      store_introspection
  announced-Asks id d b =
      let first = subscribe_to (show id ++ bytes "/control/consumer/properties") in
      let names =
        map (λ name. subscribe_to (make_interface_wildcard id name)) d.server_interfaces in
      let text = publish_on (show id) d.interfaces in
      let cache = publish_on (show id ++ bytes "/control/emptyCache") (bytes "1") in
      and_then-Asks (first ∷ names) (text ∷ cache ∷ []) b
        (subscribe_server_interfaces accepts id d.server_interfaces b) _
        (and_then-Asks (first ∷ []) names b (ask accepts Error.subscribe first b)
          (λ b'. subscribe_interfaces accepts id d.server_interfaces b')
          (ask-Asks Error.subscribe first b)
          (λ b'. subscribe_interfaces-Asks id d.server_interfaces b'))
        (λ b1.
          and_then-Asks (text ∷ []) (cache ∷ []) b1 (send_introspection accepts id d.interfaces b1)
            _ (ask-Asks Error.publish text b1)
            (λ b2. ask-Asks Error.publish cache (store_introspection d.interfaces_stored b2)))

  -- What the handshake asked, by its result.
  abbrev pub HandshakeAsks :
      (Str → Str)
      → ClientId
      → SessionData S
      → Broker S
      → Result (MqttError E) (Unit {0}) × Broker S
      → Type 0
  HandshakeAsks compress id d b (ok _, b') =
      (payload : Str) × (encode_set_properties compress d.device_properties ≡ ok payload)
      × (b'.requests
          ≡ b.requests
            ++ messages id d
            ++ publish_on (show id ++ bytes "/control/producer/properties") payload ∷ [])
  HandshakeAsks compress id d b (err e, b') =
      (rest : List Request) × (b'.requests ++ rest ≡ b.requests ++ messages id d)

  published-HandshakeAsks :
      (compress : Str → Str) (id : ClientId) (d : SessionData S) (b b' : Broker S) (payload : Str)
      → b'.requests ≡ b.requests ++ messages id d
      → encode_set_properties compress d.device_properties ≡ ok payload
      → HandshakeAsks compress id d b (
          ask accepts Error.publish
            (publish_on (show id ++ bytes "/control/producer/properties") payload)
            b')
  unfolding ask
  published-HandshakeAsks compress id d b b' payload h e =
      let purge = publish_on (show id ++ bytes "/control/producer/properties") payload in
      elim (Bool-cases (accepts (length b'.requests) purge)) [
        | inl t ↦
            rw t
              (payload, e, ground (arith, h, append_assoc b.requests (messages id d) (purge ∷ [])))
        | inr t ↦ rw t ([], append_nil b'.requests ∙ h)
      ]

  purge-HandshakeAsks :
      (compress : Str → Str) (id : ClientId) (d : SessionData S) (b b' : Broker S)
      → b'.requests ≡ b.requests ++ messages id d
      → HandshakeAsks compress id d b
          (purge_device_properties accepts compress id d.device_properties b')
  unfolding purge_device_properties purge_with
  purge-HandshakeAsks compress id d b b' h =
      go (encode_set_properties compress d.device_properties) refl
    where
      go :
          (o : Result PurgePropError Str)
          → encode_set_properties compress d.device_properties ≡ o
          → HandshakeAsks compress id d b (purge_with accepts id o b')
      go (err k) e = ([], append_nil b'.requests ∙ h)
      go (ok payload) e = published-HandshakeAsks compress id d b b' payload h e

  after-HandshakeAsks :
      (compress : Str → Str) (id : ClientId) (d : SessionData S) (b : Broker S) (o : Asked S E)
      → Asks (messages id d) b o
      → HandshakeAsks compress id d b
          (and_then o (λ b'. purge_device_properties accepts compress id d.device_properties b'))
  unfolding and_then
  after-HandshakeAsks compress id d b (ok _, b') h = purge-HandshakeAsks compress id d b b' h
  after-HandshakeAsks compress id d b (err e, b') h = h

  and_then_assoc :
      (o : Asked S E) (f g : Broker S → Asked S E)
      → and_then o (λ b. and_then (f b) g) ≡ and_then (and_then o f) g
  unfolding and_then
  and_then_assoc (ok _, b) f g = refl
  and_then_assoc (err e, b) f g = refl

  and_then-and_then :
      (o : Asked S E) (f g h : Broker S → Asked S E)
      → and_then o (λ b. and_then (f b) (λ c. and_then (g c) h))
        ≡ and_then (and_then o (λ b. and_then (f b) g)) h
  unfolding and_then
  and_then-and_then (ok _, b) f g h = and_then_assoc (f b) g h
  and_then-and_then (err e, b) f g h = refl

  handshake-announced :
      (compress : Str → Str) (id : ClientId) (d : SessionData S) (b : Broker S)
      → full_handshake accepts compress id d b
        ≡ and_then
            (announced id d b)
            (λ b'. purge_device_properties accepts compress id d.device_properties b')
  unfolding full_handshake announced
  handshake-announced compress id d b =
      let purge : Broker S → Asked S E =
        λ b'. purge_device_properties accepts compress id d.device_properties b' in
      let cache : Broker S → Asked S E =
        λ b2. send_empty_cache accepts id (store_introspection d.interfaces_stored b2) in
      let intro : Broker S → Asked S E = λ b1. send_introspection accepts id d.interfaces b1 in
      let start = subscribe_server_interfaces accepts id d.server_interfaces b in
      and_then-and_then start intro cache purge

  -- The handshake asks the broker, in this order, for the server's properties, for each interface of
  -- the server, announces the introspection, empties the cache, and purges the device's properties
  -- with their encoded names. Where it succeeds all of this was taken, and nothing else; on an error
  -- only a first part of it was, and no purge.
  pub full_handshake-HandshakeAsks :
      (compress : Str → Str) (id : ClientId) (d : SessionData S) (b : Broker S)
      → HandshakeAsks compress id d b (full_handshake accepts compress id d b)
  full_handshake-HandshakeAsks compress id d b =
      rw (handshake-announced compress id d b)
        (after-HandshakeAsks compress id d b (announced id d b) (announced-Asks id d b))
