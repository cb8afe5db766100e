-- ===== src/Mqtt/State.antt =====
-- src/transport/mqtt/connection/state.rs, and the data of the connection's modules: its states, the
-- context of an attempt to connect (context.rs), what the calls that leave these files return in one
-- attempt, and what wakes the wait for the handshake's task.
--
-- Parameters: `C` is `Connection`, the MQTT library's client and event loop, with the two options
-- that the code sets on it; `E` is the pairing API's error; `T` is what the handshake's task is to
-- send; `I` an entry of the stored introspection.
use astarte_device_sdk_rust.Common.{
  ℕ, Bool, Option, none, some, List, Result, ok, err, nat_eq, str_eq, option_eq, int_eq,
}
use astarte_device_sdk_rust.Mqtt.Error.{MqttError, connection}
use astarte_device_sdk_rust.Mqtt.Event.{Publish, Polled}

-- `ControlFlow<bool, Publish>`.
pub data Flow : Type 0 where
  continue : Publish → Flow
  break : Bool → Flow

-- `ClientAuth`, of which the connection reads only the end of its validity.
pub record ClientAuth : Type 0 where
  pub validity_not_after : Option ℕ

pub record WaitTask (C T : Type 0) : Type 0 where
  pub connection : C
  pub handle : T
  pub session_present : Bool

pub data State (C T : Type 0) : Type 0 where
  transition : State C T
  disconnected : Option C → State C T
  wait_acks : WaitTask C T → State C T
  connected : C → State C T

-- What an attempt to connect changes outside of `MqttState`: `session_synced` of `ConnCtx`, the
-- device status, the expiry of the certificate, and whether the client has its sender. `session` is
-- the stored introspection, if the store keeps sessions.
pub record Ctx (I : Type 0) : Type 0 where
  pub session_synced : Bool
  pub paired : Bool
  pub cert_expiry : Option ℕ
  pub has_sender : Bool
  pub session : Option (List I)

-- The results of the calls of one attempt: the pairing configuration, the API client, the stored
-- credentials, new credentials, the TLS transport for some credentials, a new connection to the
-- broker's URL, and the events until the CONNACK; and the data for the handshake.
pub record Attempt (C E T : Type 0) : Type 0 where
  pub config : Option (Unit {0})
  pub api : Result E (Unit {0})
  pub retrieved : Result E (Option ClientAuth)
  pub created : Result E ClientAuth
  pub transport : ClientAuth → Result E (Unit {0})
  pub new_connection : Result E C
  pub connection_timeout : ℕ
  pub connack : List (ℕ × Polled)
  pub session_data : T

-- The setters of the library's options, which `Connection` passes on.
pub record Options (C : Type 0) : Type 0 where
  pub set_transport : ClientAuth → C → C
  pub set_clean_session : Bool → C → C

-- What happens while `wait_connection` waits: its `select!` sees the task's end (`none` when it cannot
-- be joined) or an event; before, the task writes the stored introspection, and `stored` says what
-- the table holds then, if the store keeps sessions.
pub data Wake (E I : Type 0) : Type 0 where
  joined : Option (Result (MqttError E) (Unit {0})) → Wake E I
  polled : Polled → Wake E I
  stored : List I → Wake E I

module _ {C T : Type 0} where
  unfoldable pub set_disconnected : State C T → State C T
  set_disconnected transition = disconnected none
  set_disconnected (disconnected c) = disconnected c
  set_disconnected (wait_acks w) = disconnected (some w.connection)
  set_disconnected (connected c) = disconnected (some c)

module _ {C E T : Type 0} where
  unfoldable pub set_wait_task :
      State C T → Bool → T → Result (MqttError E) (WaitTask C T) × State C T
  set_wait_task (disconnected (some c)) session_present handle =
      let w : WaitTask C T = record {
        connection = c;
        handle = handle;
        session_present = session_present;
      } in
      (ok w, wait_acks w)
  set_wait_task state session_present handle = (err connection, state)

  unfoldable pub set_connected : State C T → Result (MqttError E) (Unit {0}) × State C T
  set_connected (wait_acks w) = (ok tt, connected w.connection)
  set_connected (connected c) = (ok tt, connected c)
  set_connected state = (err connection, state)
