-- ===== src/Mqtt/Error.antt =====
-- src/transport/mqtt/error.rs, and `PurgePropError` of src/properties.rs.
pub data PurgePropError : Type 0 where
  invalid decode encode : PurgePropError

-- The kinds of `MqttError`; `pairing_api` holds the kind of the pairing API's error, a type of its
-- own, and `payload` leaves out the kind of the payload's error.
pub data MqttError (E : Type 0) : Type 0 where
  connection payload device_pairing subscribe unsubscribe publish : MqttError E
  topic disconnect pub_ack_token no_client timeout task : MqttError E
  pairing_api : E → MqttError E
  purge_prop : PurgePropError → MqttError E
