-- ===== src/Store.antt =====
-- src/store/mod.rs: the stored properties, their state, and the key under which a store finds them.
-- The type of the values is a parameter. `Store.Memory` is the store in memory.
pub mod Memory
pub mod Sqlite
pub mod Contract
use astarte_device_sdk_rust.Common.{
  ◌≡◌, ◌↔◌, Bool, true, false, Option, arith, nat_eq, Str, str_eq, option_eq, ℤ, int_eq,
}
use astarte_device_sdk_rust.Foreign.{Ownership}

-- Changed since the server last had it, or received by the server.
pub data PropertyState : Type 0 where
  changed completed : PropertyState

abbrev pub state_beq : PropertyState → PropertyState → Bool
state_beq changed changed = true
state_beq completed completed = true
state_beq _ _ = false

pub state_beq_iff : (a b : PropertyState) → (state_beq a b ≡ true) ↔ (a ≡ b)
state_beq_iff changed changed = ground arith
state_beq_iff changed completed = ground arith
state_beq_iff completed changed = ground arith
state_beq_iff completed completed = ground arith

-- `StoredProp<S, V>`; `OptStoredProp` has an optional value.
pub record StoredProp (V : Type 0) : Type 0 where
  pub interface : Str
  pub path : Str
  pub value : V
  pub interface_major : ℤ
  pub ownership : Ownership

abbrev pub OptStoredProp : Type 0 → Type 0
OptStoredProp V = StoredProp (Option V)

pub record PropertyMapping : Type 0 where
  pub interface_name : Str
  pub version_major : ℤ
  pub ownership : Ownership
  pub path : Str

-- `PropertyMapping::from(&StoredProp)`.
unfoldable pub mapping_of : {V : Type 0} → StoredProp V → PropertyMapping
mapping_of p = record {
  interface_name = p.interface;
  version_major = p.interface_major;
  ownership = p.ownership;
  path = p.path;
}
