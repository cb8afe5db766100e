-- ===== src/Foreign.antt =====
-- The enumerations of the crate `astarte_interfaces` that the program matches on, with the variants
-- that its matches name: `Ownership` and `Reliability`, and `Retention` with its expiry. A duration
-- is a number of nanoseconds, a `SystemTime` or an `Instant` one on the clock that it reads.
use astarte_device_sdk_rust.Common.{ℕ, ◌≡◌, ◌↔◌, Bool, true, false, Option, arith, Eq, Str, ℤ}

pub data Ownership : Type 0 where
  device server : Ownership

abbrev pub ownership_beq : Ownership → Ownership → Bool
ownership_beq device device = true
ownership_beq server server = true
ownership_beq _ _ = false

pub ownership_beq_iff : (a b : Ownership) → (ownership_beq a b ≡ true) ↔ (a ≡ b)
ownership_beq_iff device device = ground arith
ownership_beq_iff device server = ground arith
ownership_beq_iff server device = ground arith
ownership_beq_iff server server = ground arith

instance abbrev pub ownership_eq : Eq Ownership
ownership_eq = record { beq = ownership_beq; beq_iff = ownership_beq_iff }

pub data Reliability : Type 0 where
  unreliable guaranteed unique : Reliability

abbrev pub reliability_beq : Reliability → Reliability → Bool
reliability_beq unreliable unreliable = true
reliability_beq guaranteed guaranteed = true
reliability_beq unique unique = true
reliability_beq _ _ = false

pub reliability_beq_iff : (a b : Reliability) → (reliability_beq a b ≡ true) ↔ (a ≡ b)
reliability_beq_iff unreliable unreliable = ground arith
reliability_beq_iff unreliable guaranteed = ground arith
reliability_beq_iff unreliable unique = ground arith
reliability_beq_iff guaranteed unreliable = ground arith
reliability_beq_iff guaranteed guaranteed = ground arith
reliability_beq_iff guaranteed unique = ground arith
reliability_beq_iff unique unreliable = ground arith
reliability_beq_iff unique guaranteed = ground arith
reliability_beq_iff unique unique = ground arith

pub data Retention : Type 0 where
  discard : Retention
  volatile : Option ℕ → Retention
  stored : Option ℕ → Retention

-- `InterfaceTypeAggregation`, without the interface that each variant holds.
pub data Aggregation : Type 0 where
  datastream_individual datastream_object properties : Aggregation

-- What the code reads of a mapping; `M` is the crate's `MappingType`. A datastream's mapping has no
-- `allow_unset`, and a property's no timestamp, reliability or retention: those are not read there.
pub record Mapping (M : Type 0) : Type 0 where
  pub mapping_type : M
  pub reliability : Reliability
  pub retention : Retention
  pub explicit_timestamp : Bool
  pub allow_unset : Bool

-- The methods of the crate's `Interface`, of type `I`: its name, versions, ownership and variant, the
-- mapping of a path, the test of an object's path, the properties of a whole object, `validate_with`
-- a previous version, and equality.
pub record InterfaceApi (I M : Type 0) : Type 0 where
  pub interface_name : I → Str
  pub version_major : I → ℤ
  pub version_minor : I → ℤ
  pub ownership : I → Ownership
  pub aggregation : I → Aggregation
  pub mapping : I → Str → Option (Mapping M)
  pub is_object_path : I → Str → Bool
  pub object_timestamp : I → Bool
  pub object_reliability : I → Reliability
  pub object_retention : I → Retention
  pub is_valid_update : I → I → Bool
  pub same : I → I → Bool
