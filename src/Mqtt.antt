-- ===== src/Mqtt.antt =====
-- src/transport/mqtt: the MQTT transport. Here the client id and the quality of service
-- (components.rs); the children model the errors, the events, the states of the connection, and the
-- topics.
pub mod Error
pub mod Event
pub mod State
pub mod Connection
pub mod Topic
pub mod Handshake
pub mod Client
use astarte_device_sdk_rust.Common.{[], ℕ, ◌∷◌, ◌++◌, nat_eq, Str, str_eq, option_eq, int_eq}
use astarte_device_sdk_rust.Foreign.{Reliability, unreliable, guaranteed, unique}

pub record ClientId : Type 0 where
  pub realm : Str
  pub device_id : Str

abbrev pub slash : ℕ
slash = b'/'

-- `Display`: the realm and the device id with a slash between them.
unfoldable pub show : ClientId → Str
show id = id.realm ++ slash ∷ id.device_id

unfoldable pub make_interface_wildcard : ClientId → Str → Str
unfolding show
make_interface_wildcard id name = show id ++ slash ∷ name ++ slash ∷ b'#' ∷ []

pub data QoS : Type 0 where
  at_most_once at_least_once exactly_once : QoS

unfoldable pub to_qos : Reliability → QoS
to_qos unreliable = at_most_once
to_qos guaranteed = at_least_once
to_qos unique = exactly_once
