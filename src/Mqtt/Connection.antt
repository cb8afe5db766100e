-- ===== src/Mqtt/Connection.antt =====
-- src/transport/mqtt/connection: the connection to the broker (disconnected.rs), the wait for the
-- handshake's task (wait_sends.rs), and `MqttState::reconnect` and `next_publish` (mod.rs), over the
-- states of `Mqtt.State`. The events and the end of the task are a trace, and `none` is a trace that
-- ends while the code still waits.
pub mod States
pub mod Progress
use astarte_device_sdk_rust.Common.{
  ℕ, ◌-◌, ◌*◌, ◌^◌, min, Bool, true, false, ◌&&◌, Option, none, some, List, [], ◌∷◌, if◌then◌else◌,
  Result, ok, err, ◌>>=◌, ◌>>◌, nat_eq, str_eq, option_eq, int_eq,
}
use astarte_device_sdk_rust.Mqtt.Error.{MqttError, connection, device_pairing, task, pairing_api}
use astarte_device_sdk_rust.Mqtt.Event.{Publish, Polled, handle_poll, next_publish, wait}
use astarte_device_sdk_rust.Mqtt.State.{
  Flow, continue, break, ClientAuth, WaitTask, State, transition, disconnected, wait_acks,
  connected, Ctx, Attempt, Options, Wake, joined, polled, stored, set_disconnected, set_wait_task,
  set_connected,
}

-- The longest `Duration`, in nanoseconds.
abbrev pub duration_max : ℕ
duration_max = 2 ^ 64 * 1_000_000_000 - 1

abbrev pub clear_introspection : {I : Type 0} → Option (List I) → Option (List I)
clear_introspection none = none
clear_introspection (some interfaces) = some []

-- The write of the handshake's task, `store_introspection` in `full_handshake`.
abbrev pub store_introspection : {I : Type 0} → List I → Option (List I) → Option (List I)
store_introspection entries none = none
store_introspection entries (some interfaces) = some entries

module _ {C E T : Type 0} where
  -- The new credentials of the two branches without stored ones.
  unfoldable pub create_auth : Attempt C E T → Result E ClientAuth
  create_auth a = do auth ← a.created; a.transport auth; ok auth

  stored_auth : Attempt C E T → ClientAuth → Result E ClientAuth
  stored_auth a auth = do a.transport auth; ok auth

  -- `handle_task`.
  unfoldable pub handle_task :
      State C T
      → Option (Result (MqttError E) Flow)
      → Option (Result (MqttError E) Flow) × State C T
  unfolding set_connected set_disconnected
  handle_task s none = (none, s)
  handle_task s (some (ok (continue p))) = (some (ok (continue p)), s)
  handle_task s (some (ok (break present))) =
      let (r, s') = set_connected {E = E} s in (some (do r; ok (break present)), s')
  handle_task s (some (err e)) = (some (err e), set_disconnected s)

module _ {C E T I : Type 0} where
  -- `create_connection`: the connection and the client's sender.
  unfoldable pub create_connection :
      Attempt C E T → Ctx I → ClientAuth → Result E C × Option C × Ctx I
  create_connection a ctx auth = elim a.new_connection [
    | err e ↦ (err e, none, ctx)
    | ok c ↦ (ok c, some c, record ctx { has_sender = true; cert_expiry = auth.validity_not_after })
  ]

  -- `Handshake::start`: nothing is sent if the session is there and in sync.
  unfoldable pub start : Bool → Attempt C E T → Ctx I → Option T × Ctx I
  start session_present a ctx = if session_present && ctx.session_synced then (none, ctx) else (
    some a.session_data,
    record ctx { session_synced = false; session = clear_introspection ctx.session },
  )

  after_connack :
      Option (Result (MqttError E) Bool)
      → Attempt C E T
      → Ctx I
      → Option (Result (MqttError E) (Bool × Option T)) × Ctx I
  unfolding start
  after_connack none a ctx = (none, ctx)
  after_connack (some (err e)) a ctx = (some (err e), ctx)
  after_connack (some (ok present)) a ctx =
      let (handle, ctx') = start present a ctx in (some (ok (present, handle)), ctx')

module _ {C E T I : Type 0} (o : Options C) where
  unfoldable pub connect_with :
      Option C → Option ClientAuth → Attempt C E T → Ctx I → Result E C × Option C × Ctx I
  unfolding create_auth stored_auth create_connection
  connect_with (some c) (some auth) a ctx =
      (ok c, some c, record ctx { cert_expiry = auth.validity_not_after })
  connect_with (some c) none a ctx = elim (create_auth a) [
    | err e ↦ (err e, some c, ctx)
    | ok auth ↦
        let c' = o.set_transport auth c in
        (ok c', some c', record ctx { cert_expiry = auth.validity_not_after })
  ]
  connect_with none (some auth) a ctx = elim (stored_auth a auth) [
    | err e ↦ (err e, none, ctx)
    | ok auth' ↦ create_connection a ctx auth'
  ]
  connect_with none none a ctx = elim (create_auth a) [
    | err e ↦ (err e, none, ctx)
    | ok auth ↦ create_connection a ctx auth
  ]

  -- `Disconnected::connect`.
  unfoldable pub connect : Option C → Attempt C E T → Ctx I → Result E C × Option C × Ctx I
  unfolding connect_with
  connect c a ctx = elim (do a.api; a.retrieved) [
    | err e ↦ (err e, c, ctx)
    | ok auth ↦ connect_with c auth a ctx
  ]

  -- `handle_reconnect`, with what it leaves in `Disconnected`.
  unfoldable pub handle_reconnect :
      Option C
      → Attempt C E T
      → Ctx I
      → Option (Result (MqttError E) (Bool × Option T)) × Option C × Ctx I
  unfolding connect after_connack
  handle_reconnect c a ctx = elim a.config [
    | none ↦ (some (err device_pairing), c, ctx)
    | some _ ↦
        let (r, c', ctx') = connect c a (record ctx { paired = true }) in
        elim r [
          | err e ↦ (some (err (pairing_api e)), c', ctx')
          | ok _ ↦
              let (r', ctx'') =
                after_connack (wait (min (2 * a.connection_timeout) duration_max) a.connack) a
                  ctx' in
              (r', c', ctx'')
        ]
  ]

  -- `handle_join`.
  unfoldable pub handle_join :
      WaitTask C T
      → Option (Result (MqttError E) (Unit {0}))
      → Ctx I
      → Result (MqttError E) Flow × WaitTask C T × Ctx I
  handle_join w none ctx = (err task, w, ctx)
  handle_join w (some (err e)) ctx = (err e, w, ctx)
  handle_join w (some (ok _)) ctx = (
    ok (break w.session_present),
    record w { connection = o.set_clean_session false w.connection },
    record ctx { session_synced = true },
  )

  -- `wait_connection`: until the task ends or a publish comes in. What the task writes meanwhile is
  -- part of the trace.
  unfoldable pub wait_connection :
      WaitTask C T
      → List (Wake E I)
      → Ctx I
      → Option (Result (MqttError E) Flow) × WaitTask C T × Ctx I
  unfolding handle_join
  wait_connection w [] ctx = (none, w, ctx)
  wait_connection w (joined r ∷ rest) ctx =
      let (flow, w', ctx') = handle_join w r ctx in (some flow, w', ctx')
  wait_connection w (polled event ∷ rest) ctx =
      let later = wait_connection w rest ctx in
      elim (handle_poll {E = E} event) [
        | err e ↦ (some (err e), w, ctx)
        | ok (some p) ↦ (some (ok (continue p)), w, ctx)
        | ok none ↦ later
      ]
  wait_connection w (stored entries ∷ rest) ctx =
      wait_connection w rest (record ctx { session = store_introspection entries ctx.session })

  unfoldable pub wait_and_handle :
      WaitTask C T
      → List (Wake E I)
      → Ctx I
      → Option (Result (MqttError E) Flow) × State C T × Ctx I
  unfolding wait_connection handle_task
  wait_and_handle w trace ctx =
      let (flow, w', ctx') = wait_connection w trace ctx in
      let (flow', s) = handle_task (wait_acks w') flow in (flow', s, ctx')

  start_wait :
      Result (MqttError E) (WaitTask C T) × State C T
      → List (Wake E I)
      → Ctx I
      → Option (Result (MqttError E) Flow) × State C T × Ctx I
  unfolding wait_and_handle
  start_wait (err e, s) trace ctx = (some (err e), s, ctx)
  start_wait (ok w, s) trace ctx = wait_and_handle w trace ctx

  -- The rest of `reconnect` after `handle_reconnect`: `set_connected` if there is no task, else
  -- `set_wait_task` and the wait.
  unfoldable pub finish_reconnect :
      Option (Result (MqttError E) (Bool × Option T))
      → State C T
      → List (Wake E I)
      → Ctx I
      → Option (Result (MqttError E) Flow) × State C T × Ctx I
  unfolding start_wait set_wait_task set_connected
  finish_reconnect none s trace ctx = (none, s, ctx)
  finish_reconnect (some (err e)) s trace ctx = (some (err e), s, ctx)
  finish_reconnect (some (ok (present, none))) s trace ctx =
      let (r, s') = set_connected {E = E} s in (some (do r; ok (break present)), s', ctx)
  finish_reconnect (some (ok (present, some handle))) s trace ctx =
      start_wait (set_wait_task s present handle) trace ctx

  unfoldable pub reconnect :
      State C T
      → Attempt C E T
      → List (Wake E I)
      → Ctx I
      → Option (Result (MqttError E) Flow) × State C T × Ctx I
  unfolding handle_reconnect finish_reconnect wait_and_handle set_disconnected
  reconnect (connected c) a trace ctx = (some (ok (break true)), connected c, ctx)
  reconnect (disconnected c) a trace ctx =
      let (r, c', ctx') = handle_reconnect c a ctx in
      finish_reconnect r (disconnected c') trace ctx'
  reconnect (wait_acks w) a trace ctx = wait_and_handle w trace ctx
  reconnect transition a trace ctx = (some (err connection), set_disconnected transition, ctx)

module _ (E : Type 0) {C T : Type 0} where
  -- `MqttState::next_publish`; an error, and a call while not connected, give no publish.
  unfoldable pub next_state_publish : State C T → List Polled → Option (Option Publish × State C T)
  unfolding next_publish set_disconnected
  next_state_publish (connected c) trace = elim (next_publish {E = E} trace) [
    | none ↦ none
    | some (ok p, rest) ↦ some (some p, connected c)
    | some (err e, rest) ↦ some (none, set_disconnected (connected c))
  ]
  next_state_publish s trace = some (none, s)
