-- ===== src/Tests/Data.antt =====
-- The data of the examples: an interface as a record, a transport that accepts or refuses everything
-- and counts what it gets, a retention that always succeeds.
use astarte_device_sdk_rust.Common.{
  ℕ, suc, ◌+◌, Bool, true, false, ◌&&◌, Option, none, some, [], ◌∷◌, ltb, if◌then◌else◌, Result, ok,
  ensure, nat_eq, Str, str_beq, str_eq, bytes, option_eq, ℤ, pos, int_beq, int_eq,
}
use astarte_device_sdk_rust.Error.{ErrorKind, disconnected}
use astarte_device_sdk_rust.Foreign.{
  InterfaceApi, Mapping, device, unique, Retention, discard, volatile, stored, properties,
}
use astarte_device_sdk_rust.Interfaces.{Interfaces, MappingRef}
use astarte_device_sdk_rust.Retention.Volatile.{ItemValue, individual}
use astarte_device_sdk_rust.Transport.{Publish, StoredRetention}

pub record Sample : Type 0 where
  pub name : Str
  pub major : ℤ
  pub minor : ℤ

-- A value has a mapping's type if it is below it.
abbrev pub fits : ℕ → ℕ → Bool
fits v m = ltb v m

abbrev pub mapping : Mapping ℕ
mapping = record {
  mapping_type = 100;
  reliability = unique;
  retention = discard;
  explicit_timestamp = false;
  allow_unset = true;
}

abbrev pub path : Str
path = bytes "/p"

abbrev pub api : InterfaceApi Sample ℕ
api = record {
  interface_name = λ i. i.name;
  version_major = λ i. i.major;
  version_minor = λ i. i.minor;
  ownership = λ i. device;
  aggregation = λ i. properties;
  mapping = λ i p. if str_beq p path then some mapping else none;
  is_object_path = λ i p. str_beq p path;
  object_timestamp = λ i. false;
  object_reliability = λ i. unique;
  object_retention = λ i. discard;
  is_valid_update = λ i j. true;
  same = λ i j. str_beq i.name j.name && (int_beq i.major j.major && int_beq i.minor j.minor);
}

abbrev pub sample : Sample
sample = record { name = bytes "a.B"; major = pos 1; minor = pos 0 }

abbrev pub newer : Sample
newer = record { name = bytes "a.B"; major = pos 2; minor = pos 0 }

abbrev pub other : Sample
other = record { name = bytes "a.C"; major = pos 0; minor = pos 1 }

abbrev pub interfaces : Interfaces Sample
interfaces = (bytes "a.B", sample) ∷ []

abbrev pub sample_ref : MappingRef Sample ℕ
sample_ref = record { interface = sample; mapping = mapping; path = path }

-- The transport's state is the number of its calls.
abbrev pub answer : Bool → ℕ → Result (ErrorKind ℕ) (Unit {0}) × ℕ
answer done calls = (ensure done disconnected, suc calls)

abbrev pub transport : Bool → Publish ℕ ℕ ℕ ℕ
transport done = record {
  send_item = λ item calls. answer done calls;
  send_item_stored =
      λ id item calls kept. let (result, calls') = answer done calls in (result, (calls', kept));
  serialize_item = λ item calls. ok [];
  send_property = λ p calls. answer done calls;
  unset = λ p calls. answer done calls;
  resend_stored_property = λ p calls. answer done calls;
}

abbrev pub retention : StoredRetention ℕ ℕ
retention = record {
  store_publish = λ id item payload sent r. (true, suc r);
  update_sent_flag = λ id sent r. (true, suc r);
}

abbrev pub expiry : Retention → Option ℕ
expiry discard = none
expiry (volatile e) = e
expiry (stored e) = e

abbrev pub grown : ℕ → ℕ
grown n = n + n

abbrev pub publish : ItemValue ℕ
publish = individual (record {
  interface = bytes "a.D";
  path = path;
  version_major = pos 0;
  reliability = unique;
  retention = volatile none;
  value = 7;
  timestamp = none;
})
