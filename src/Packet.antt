-- ===== src/Packet.antt =====
-- The packets of src/validate/mod.rs that pass from the client to a transport and to the retention:
-- a validated individual datastream, object datastream, property and unset. The type of the values
-- is a parameter. A timestamp is a number.
use astarte_device_sdk_rust.Common.{ℕ, Option, Str, ℤ}
use astarte_device_sdk_rust.Foreign.{Reliability, Retention}
use astarte_device_sdk_rust.Object.{AstarteObject}

pub record ValidatedIndividual (V : Type 0) : Type 0 where
  pub interface : Str
  pub path : Str
  pub version_major : ℤ
  pub reliability : Reliability
  pub retention : Retention
  pub value : V
  pub timestamp : Option ℕ

pub record ValidatedObject (V : Type 0) : Type 0 where
  pub interface : Str
  pub path : Str
  pub version_major : ℤ
  pub reliability : Reliability
  pub retention : Retention
  pub object : AstarteObject V
  pub timestamp : Option ℕ

pub record ValidatedProperty (V : Type 0) : Type 0 where
  pub interface : Str
  pub path : Str
  pub version_major : ℤ
  pub value : V

pub record ValidatedUnset : Type 0 where
  pub interface : Str
  pub path : Str
