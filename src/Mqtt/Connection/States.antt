-- ===== src/Mqtt/Connection/States.antt =====
-- The state in which an attempt to reconnect leaves the connection.
use astarte_device_sdk_rust.Common.{
  ◌≡◌, refl, Bool, Option, none, some, List, Result, ok, err, nat_eq, str_eq, option_eq, int_eq,
}
use astarte_device_sdk_rust.Mqtt.Error.{MqttError}
use astarte_device_sdk_rust.Mqtt.State.{
  Flow, continue, break, WaitTask, State, transition, disconnected, wait_acks, connected, Ctx,
  Attempt, Options, Wake,
}
use astarte_device_sdk_rust.Mqtt.Connection.{
  handle_reconnect, handle_task, wait_connection, wait_and_handle, finish_reconnect, reconnect,
}

module _ {C E T : Type 0} where
  -- The state that belongs to a result: connected after a break, waiting for the acks after a publish
  -- that came in before, disconnected after an error.
  abbrev pub Fits : Option (Result (MqttError E) Flow) → State C T → Type 0
  Fits none s = Unit
  Fits (some (ok (break present))) s = (c : C) × (s ≡ connected c)
  Fits (some (ok (continue p))) s = (w : WaitTask C T) × (s ≡ wait_acks w)
  Fits (some (err e)) s = (c : Option C) × (s ≡ disconnected c)

  handle_task-Fits :
      (w : WaitTask C T) (r : Option (Result (MqttError E) Flow))
      → Fits (handle_task (wait_acks w) r).0 (handle_task (wait_acks w) r).1
  unfolding handle_task
  handle_task-Fits w none = tt
  handle_task-Fits w (some (ok (break present))) = (w.connection, refl)
  handle_task-Fits w (some (ok (continue p))) = (w, refl)
  handle_task-Fits w (some (err e)) = (some w.connection, refl)

module _ {C E T I : Type 0} (o : Options C) where
  wait_and_handle-Fits :
      (w : WaitTask C T) (trace : List (Wake E I)) (ctx : Ctx I)
      → let (r, s, ctx') = wait_and_handle o w trace ctx in Fits r s
  unfolding wait_and_handle
  wait_and_handle-Fits w trace ctx =
      handle_task-Fits (wait_connection o w trace ctx).1 (wait_connection o w trace ctx).0

  finish-Fits :
      (r : Option (Result (MqttError E) (Bool × Option T))) (c : Option C) (trace : List (Wake E I))
      (ctx : Ctx I)
      → let (r', s, ctx') = finish_reconnect o r (disconnected c) trace ctx in Fits r' s
  unfolding finish_reconnect
  finish-Fits none c trace ctx = tt
  finish-Fits (some (err e)) c trace ctx = (c, refl)
  finish-Fits (some (ok (present, none))) c trace ctx = (c, refl)
  finish-Fits (some (ok (present, some handle))) none trace ctx = (none, refl)
  finish-Fits (some (ok (present, some handle))) (some c) trace ctx =
      wait_and_handle-Fits _ trace ctx

  -- Whatever the broker, the pairing and the handshake's task do, and in whatever state an attempt to
  -- reconnect starts: if it reports a connection the state is connected, if it hands on a publish the
  -- state is waiting for the acks, if it fails the state is disconnected.
  pub reconnect-Fits :
      (s : State C T) (a : Attempt C E T) (trace : List (Wake E I)) (ctx : Ctx I)
      → let (r, s', ctx') = reconnect o s a trace ctx in Fits r s'
  unfolding reconnect
  reconnect-Fits transition a trace ctx = (none, refl)
  reconnect-Fits (connected c) a trace ctx = (c, refl)
  reconnect-Fits (wait_acks w) a trace ctx = wait_and_handle-Fits w trace ctx
  reconnect-Fits (disconnected c) a trace ctx =
      let (r, c', ctx') = handle_reconnect o c a ctx in finish-Fits r c' trace ctx'
