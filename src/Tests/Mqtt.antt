-- ===== src/Tests/Mqtt.antt =====
-- Examples for the connection's states and the topics.
use astarte_device_sdk_rust.Common.{
  ℕ, ◌≡◌, refl, Bool, true, false, none, some, List, [], ◌∷◌, ok, nat_eq, Str, str_beq, str_eq,
  bytes, option_eq, int_eq,
}
use astarte_device_sdk_rust.Mqtt.{ClientId}
use astarte_device_sdk_rust.Mqtt.Connection.{reconnect}
use astarte_device_sdk_rust.Mqtt.Connection.States.{Fits, reconnect-Fits}
use astarte_device_sdk_rust.Mqtt.Event.{incoming, conn_ack}
use astarte_device_sdk_rust.Mqtt.State.{disconnected, Ctx, Attempt, Options, Wake, joined, stored}
use astarte_device_sdk_rust.Mqtt.Topic.{interface_path, try_parse, purge_properties_topic}
use astarte_device_sdk_rust.Mqtt.Topic.Format.{
  Reads, topic_of, try_parse-interface_path, try_parse-Reads,
}

-- A connection is a number.
abbrev options : Options ℕ
options = record { set_transport = λ auth c. c; set_clean_session = λ clean c. c }

abbrev attempt : Attempt ℕ ℕ ℕ
attempt = record {
  config = some tt;
  api = ok tt;
  retrieved = ok none;
  created = ok (record { validity_not_after = some 90 });
  transport = λ auth. ok tt;
  new_connection = ok 1;
  connection_timeout = 5;
  connack = (1, some (incoming (conn_ack true))) ∷ [];
  session_data = 0;
}

abbrev ctx : Bool → Ctx ℕ
ctx synced = record {
  session_synced = synced;
  paired = false;
  cert_expiry = none;
  has_sender = false;
  session = some (4 ∷ []);
}

abbrev trace : List (Wake ℕ ℕ)
trace = stored (5 ∷ []) ∷ joined (some (ok tt)) ∷ []

reconnect-Fits_example :
    let (r, s', ctx') = reconnect options (disconnected none) attempt trace (ctx false) in Fits r s'
reconnect-Fits_example = reconnect-Fits options (disconnected none) attempt trace (ctx false)

abbrev client : ClientId
client = record { realm = bytes "r"; device_id = bytes "d" }

try_parse-interface_path_example :
    try_parse client (topic_of client (bytes "a.B/p"))
    ≡ ok (interface_path (bytes "a.B") (bytes "/p"))
unfolding purge_properties_topic
try_parse-interface_path_example =
    try_parse-interface_path client (bytes "a.B") (bytes "p") (λ h. cc) (refl, (refl, (refl, tt)))
      (λ h. cc)

try_parse-Reads_example :
    (rest : Str) × (bytes "r/d/a.B/p" ≡ topic_of client rest)
    × Reads rest (interface_path (bytes "a.B") (bytes "/p"))
unfolding try_parse purge_properties_topic str_beq
try_parse-Reads_example =
    try_parse-Reads client (bytes "r/d/a.B/p") (interface_path (bytes "a.B") (bytes "/p")) refl
