-- ===== src/Connection/EventLoop.antt =====
-- src/connection/mod.rs and resend.rs: the event loop of the device, its reconnection and the start of
-- its store. `Device` is what they read and write: the transport's connection, the properties, the
-- stored retention where the store has one, the volatile store, the interfaces, the status, the
-- events sent to the clients, and whether a client still listens; `resending` says that a task of
-- `Resend` was started, whose own steps are left out. `next_event` and `attempt` are `next_event` and
-- `reconnect` of the transport. `stops n` says whether a client asks to disconnect during the wait
-- that comes with `n` units of fuel left, and `clock` is a time in seconds.
pub mod Reconnecting
use astarte_device_sdk_rust.Common.{
  ℕ, zero, suc, Bool, true, false, Option, none, some, List, [], ◌∷◌, ◌++◌, if◌then◌else◌, Result,
  ok, err, nat_eq, Str, str_eq, option_eq, int_eq,
}
use astarte_device_sdk_rust.Error
use astarte_device_sdk_rust.Error.{ErrorKind}
use astarte_device_sdk_rust.Foreign.{InterfaceApi, device}
use astarte_device_sdk_rust.Interfaces.{Interfaces}
use astarte_device_sdk_rust.Connection.Incoming.{Value, ReceivedEvent, Deserializers, handle_event}
use astarte_device_sdk_rust.Retention.Stored.{Database}
use astarte_device_sdk_rust.Retention.Stored.Tables.{
  cleanup_introspection, set_max_retention_items, reset_all_publishes,
}
use astarte_device_sdk_rust.Retention.Volatile.{State, reset_sent}
use astarte_device_sdk_rust.Store.Memory.{Memory, reset_state}
use astarte_device_sdk_rust.Transport.{ConnStatus, disconnected, connected, closed}

-- `DeviceEvent` of src/event.rs.
pub record DeviceEvent (V : Type 0) : Type 0 where
  pub interface : Str
  pub path : Str
  pub data_received : Value V

-- `AttemptStatus` of src/transport/mod.rs.
pub data AttemptStatus (P : Type 0) : Type 0 where
  attempt_connected : Bool → AttemptStatus P
  attempt_received : ReceivedEvent P → AttemptStatus P
  attempt_disconnected : AttemptStatus P

-- `ControlFlow<()>`.
pub data ControlFlow : Type 0 where
  continue_loop break_loop : ControlFlow

pub record Device (C I V : Type 0) : Type 0 where
  pub connection : C
  pub store : Memory V
  pub retention : Option Database
  pub volatile_store : State V
  pub interfaces : Interfaces I
  pub status : ConnStatus
  pub events : List (DeviceEvent V)
  pub listening : Bool
  pub resending : Bool

abbrev pub map_retention : (Database → Database) → Option Database → Option Database
map_retention f none = none
map_retention f (some db) = some (f db)

module _ {C I V : Type 0} where
  -- The end of `reconnect`: without the session everything is sent again.
  unfoldable pub reset_all : Device C I V → ℕ → Device C I V
  unfolding reset_all_publishes reset_sent reset_state
  reset_all d clock = record d {
    retention = map_retention (λ db. reset_all_publishes db clock) d.retention;
    volatile_store = reset_sent d.volatile_store;
    store = reset_state d.store device;
  }

module _ {C I M P V T : Type 0} (api : InterfaceApi I M) (receive : Deserializers I M P V T)
    (is_path : Str → Bool) (debug : Bool) (now : ℕ)
    (next_event : C → Result (ErrorKind T) (Option (ReceivedEvent P)) × C)
    (attempt : Interfaces I → C → Result (ErrorKind T) (AttemptStatus P) × C) (stops : ℕ → Bool)
    (clock : ℕ) where
  -- An error in the event is only logged.
  unfoldable pub send_handled :
      Device C I V
      → ReceivedEvent P
      → Result (ErrorKind T) (Value V) × Memory V
      → Result (ErrorKind T) (Unit {0}) × Device C I V
  send_handled d event (err e, s) = (ok tt, record d { store = s })
  send_handled d event (ok value, s) =
      if d.listening
      then (
        ok tt,
        record d {
          store = s;
          events =
              d.events
              ++ record { interface = event.interface; path = event.path; data_received = value }
                ∷ [];
        },
      )
      else (err Error.disconnected, record d { store = s })

  unfoldable pub handle_and_send_to_client :
      Device C I V → ReceivedEvent P → Result (ErrorKind T) (Unit {0}) × Device C I V
  unfolding handle_event send_handled
  handle_and_send_to_client d event =
      send_handled d event (handle_event api receive is_path debug now d.interfaces event d.store)

  -- What an attempt's result is followed by, and what a received event is: `later` tries again.
  abbrev pub Attempted : Type 0
  Attempted = Option (Result (ErrorKind T) (Option Bool) × Device C I V)

  unfoldable pub after_event :
      (Device C I V → Attempted) → Result (ErrorKind T) (Unit {0}) × Device C I V → Attempted
  after_event later (err e, d) = some (err e, d)
  after_event later (ok _, d) = later d

  unfoldable pub after_attempt :
      Bool
      → (Device C I V → Attempted)
      → Device C I V
      → Result (ErrorKind T) (AttemptStatus P)
      → Attempted
  unfolding handle_and_send_to_client after_event
  after_attempt stop later d (err e) = some (err e, d)
  after_attempt stop later d (ok (attempt_connected session)) = some (ok (some session), d)
  after_attempt stop later d (ok (attempt_received event)) =
      after_event later (handle_and_send_to_client d event)
  after_attempt stop later d (ok attempt_disconnected) = if stop then some (ok none, d) else later d

  -- The loop of `reconnect`, for at most as many attempts as the fuel: whether the session is there,
  -- or none if a client disconnects.
  unfoldable pub attempts : ℕ → Device C I V → Attempted
  unfolding after_attempt
  attempts zero d = none
  attempts (suc fuel) d =
      let (result, c) = attempt d.interfaces d.connection in
      after_attempt (stops fuel) (λ d'. attempts fuel d') (record d { connection = c }) result

  unfoldable pub finish_reconnect :
      Result (ErrorKind T) (Option Bool) × Device C I V
      → Result (ErrorKind T) ControlFlow × Device C I V
  unfolding reset_all
  finish_reconnect (err e, d) = (err e, d)
  finish_reconnect (ok none, d) = (ok break_loop, d)
  finish_reconnect (ok (some session), d) =
      (ok continue_loop, if session then d else reset_all d clock)

  unfoldable pub reconnect :
      ℕ → Device C I V → Option (Result (ErrorKind T) ControlFlow × Device C I V)
  unfolding attempts finish_reconnect
  reconnect fuel d =
      if stops fuel
      then some (ok break_loop, d)
      else elim (attempts fuel d) [ none ↦ none | some o ↦ some (finish_reconnect o) ]

  abbrev start_resend :
      Result (ErrorKind T) ControlFlow × Device C I V
      → Result (ErrorKind T) ControlFlow × Device C I V
  start_resend (ok continue_loop, d) = (ok continue_loop, record d { resending = true })
  start_resend (r, d) = (r, d)

  unfoldable pub reconnect_and_resend :
      ℕ → Device C I V → Option (Result (ErrorKind T) ControlFlow × Device C I V)
  unfolding reconnect
  reconnect_and_resend fuel d = elim (reconnect fuel (record d { resending = false })) [
    | none ↦ none
    | some o ↦ some (start_resend o)
  ]

  unfoldable pub poll : Device C I V → Result (ErrorKind T) ConnStatus × Device C I V
  unfolding handle_and_send_to_client
  poll d =
      let (result, c) = next_event d.connection in
      let d' = record d { connection = c } in
      elim result [
        | err e ↦ (err e, d')
        | ok none ↦ (ok disconnected, record d' { status = disconnected })
        | ok (some event) ↦
            (let (sent, d'') = handle_and_send_to_client d' event in
              elim sent [ err e ↦ (err e, d'') | ok _ ↦ (ok connected, d'') ])
      ]

  -- `init_store`.
  unfoldable pub init_store : Device C I V → ℕ → Device C I V
  unfolding cleanup_introspection set_max_retention_items reset_all_publishes reset_state
  init_store d capacity = record d {
    retention =
        map_retention
          (λ db.
            reset_all_publishes
              (set_max_retention_items (cleanup_introspection api db d.interfaces) capacity clock)
              clock)
          d.retention;
    store = reset_state d.store device;
  }

  -- The loop of `handle_events`, for at most as many rounds as the fuel; each reconnection has fuel of
  -- its own.
  unfoldable pub rounds :
      ℕ → ℕ → Device C I V → Option (Result (ErrorKind T) (Unit {0}) × Device C I V)
  unfolding poll reconnect_and_resend
  rounds zero fuel d = none
  rounds (suc n) fuel d =
      let (polled, d') = poll d in
      let next = rounds n fuel d' in
      let again = reconnect_and_resend fuel d' in
      elim polled [
        | err e ↦ some (err e, d')
        | ok connected ↦ next
        | ok closed ↦ some (ok tt, d')
        | ok disconnected ↦ elim again [
          | none ↦ none
          | some (err e, d'') ↦ some (err e, d'')
          | some (ok break_loop, d'') ↦ some (ok tt, d'')
          | some (ok continue_loop, d'') ↦ rounds n fuel d''
        ]
      ]

  unfoldable pub handle_events :
      ℕ → ℕ → Device C I V → Option (Result (ErrorKind T) (Unit {0}) × Device C I V)
  unfolding rounds reconnect_and_resend
  handle_events n fuel d = elim d.status [
    | connected ↦ rounds n fuel d
    | closed ↦ some (ok tt, d)
    | disconnected ↦ elim (reconnect_and_resend fuel d) [
      | none ↦ none
      | some (err e, d') ↦ some (err e, d')
      | some (ok break_loop, d') ↦ some (ok tt, d')
      | some (ok continue_loop, d') ↦ rounds n fuel d'
    ]
  ]
