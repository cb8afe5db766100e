-- ===== src/Mqtt/Event.antt =====
-- `handle_event` of src/transport/mqtt/connection/mod.rs, `Connected::next_publish` of connected.rs
-- and `Connack::wait` of wait_connack.rs: what the loop over the events of the MQTT library does.
-- The library's `poll` is a trace, the list of what its calls return, in order; `none` is a trace
-- that ends while the code still waits. A reading of the elapsed time comes with each round.
use astarte_device_sdk_rust.Common.{
  ℕ, Bool, not, Option, none, some, List, [], ◌∷◌, ltb, if◌then◌else◌, Result, ok, err, nat_eq, Str,
  str_eq, option_eq, int_eq,
}
use astarte_device_sdk_rust.Mqtt.Error.{MqttError, connection, disconnect}

pub record Publish : Type 0 where
  pub topic : Str
  pub payload : List ℕ

-- The packets that the code tells apart, with the flag of a CONNACK.
pub data Packet : Type 0 where
  conn_ack : Bool → Packet
  publish : Publish → Packet
  disconnect_packet other_packet : Packet

pub data Event : Type 0 where
  incoming : Packet → Event
  outgoing : Event

-- What `EventLoop::poll` returns: an event, or a connection error.
abbrev pub Polled : Type 0
Polled = Option Event

module _ {E : Type 0} where
  unfoldable pub handle_event : Event → Result (MqttError E) (Option Publish)
  handle_event outgoing = ok none
  handle_event (incoming (conn_ack session_present)) = err connection
  handle_event (incoming (publish p)) = ok (some p)
  handle_event (incoming disconnect_packet) = err disconnect
  handle_event (incoming other_packet) = ok none

  -- `poll().await.wrap_err(..).and_then(handle_event)`.
  unfoldable pub handle_poll : Polled → Result (MqttError E) (Option Publish)
  unfolding handle_event
  handle_poll none = err connection
  handle_poll (some event) = handle_event event

  unfoldable pub next_publish : List Polled → Option (Result (MqttError E) Publish × List Polled)
  unfolding handle_poll
  next_publish [] = none
  next_publish (polled ∷ rest) =
      let later = next_publish rest in
      elim (handle_poll polled) [
        | err e ↦ some (err e, rest)
        | ok (some p) ↦ some (ok p, rest)
        | ok none ↦ later
      ]

  -- `Connack::wait`, with the elapsed time read at the head of each round.
  unfoldable pub wait : ℕ → List (ℕ × Polled) → Option (Result (MqttError E) Bool)
  wait timeout [] = none
  wait timeout ((elapsed, polled) ∷ rest) =
      let later = wait timeout rest in
      if not (ltb elapsed timeout) then some (err connection) else elim polled [
        | none ↦ some (err connection)
        | some (incoming (conn_ack session_present)) ↦ some (ok session_present)
        | some (incoming disconnect_packet) ↦ some (err disconnect)
        | some (incoming (publish p)) ↦ some (err connection)
        | some (incoming other_packet) ↦ some (err connection)
        | some outgoing ↦ later
      ]
