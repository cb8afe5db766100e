-- ===== src/Store/Memory.antt =====
-- src/store/memory.rs: the property store in memory, a hash map behind a lock, so each method is one
-- step on the map. Its methods always return `Ok`, which is left out.
pub mod Waiting
use astarte_device_sdk_rust.Common.{
  ℕ, ◌≡◌, ◌↔◌, Bool, true, false, not, ◌&&◌, Option, none, some, List, [], ◌∷◌, map, arith,
  if◌then◌else◌, take, drop, retain, filter_map, Eq, ◌==◌, nat_eq, Str, str_beq, str_beq_iff,
  str_eq, option_beq, option_eq, ℤ, int_eq,
}
use astarte_device_sdk_rust.Common.Map.{lookup, insert, remove, modify}
use astarte_device_sdk_rust.Foreign.{Ownership, device, ownership_beq}
use astarte_device_sdk_rust.Store.{
  PropertyState, changed, state_beq, StoredProp, OptStoredProp, PropertyMapping,
}

pub record Key : Type 0 where
  pub interface : Str
  pub path : Str

abbrev pub key_beq : Key → Key → Bool
key_beq a b = str_beq a.interface b.interface && str_beq a.path b.path

pub key_beq_iff : (a b : Key) → (key_beq a b ≡ true) ↔ (a ≡ b)
key_beq_iff a b = ground (arith, str_beq_iff a.interface b.interface, str_beq_iff a.path b.path)

instance abbrev pub key_eq : Eq Key
key_eq = record { beq = key_beq; beq_iff = key_beq_iff }

pub record Value (V : Type 0) : Type 0 where
  pub value : Option V
  pub interface_major : ℤ
  pub ownership : Ownership
  pub state : PropertyState

-- The map of a `MemoryStore`.
abbrev pub Memory : Type 0 → Type 0
Memory V = List (Key × Value V)

-- `Key::new` of a mapping.
abbrev pub key_of : PropertyMapping → Key
key_of p = record { interface = p.interface_name; path = p.path }

abbrev pub prop_key : {V : Type 0} → StoredProp V → Key
prop_key p = record { interface = p.interface; path = p.path }

module _ {V : Type 0} where
  unfoldable pub as_prop : Value V → Key → Option (StoredProp V)
  as_prop v key = elim v.value [
    | none ↦ none
    | some value ↦ some (record {
      interface = key.interface;
      path = key.path;
      value = value;
      interface_major = v.interface_major;
      ownership = v.ownership;
    })
  ]

  -- `OptStoredProp::from((&Key, &Value))`.
  unfoldable pub to_opt_prop : Key × Value V → OptStoredProp V
  to_opt_prop (key, v) = record {
    interface = key.interface;
    path = key.path;
    value = v.value;
    interface_major = v.interface_major;
    ownership = v.ownership;
  }

  unfoldable pub store_prop : Memory V → StoredProp V → Memory V
  store_prop s p =
      insert (prop_key p)
        (record {
          value = some p.value;
          interface_major = p.interface_major;
          ownership = p.ownership;
          state = changed;
        })
        s

  unfoldable pub delete_prop : Memory V → PropertyMapping → Memory V
  delete_prop s p = remove (key_of p) s

  unfoldable pub load_prop : Memory V → PropertyMapping → Option V × Memory V
  unfolding delete_prop
  load_prop s p = elim (lookup (key_of p) s) [
    | none ↦ (none, s)
    | some v ↦
        if not (v.interface_major == p.version_major) then (none, delete_prop s p) else (v.value, s)
  ]

  abbrev pub unset_value : Value V → Value V
  unset_value v = record v { value = none }

  unfoldable pub unset_prop : Memory V → PropertyMapping → Memory V
  unset_prop s p = modify (key_of p) unset_value s

  unfoldable pub load_all_props : Memory V → List (StoredProp V)
  unfolding as_prop
  load_all_props s = filter_map (λ (k, v). as_prop v k) s

  -- `device_props` and `server_props`.
  unfoldable pub owned_props : Ownership → Memory V → List (StoredProp V)
  unfolding as_prop
  owned_props owner s =
      filter_map (λ (k, v). if ownership_beq v.ownership owner then as_prop v k else none) s

  unfoldable pub interface_props : Memory V → Str → List (StoredProp V)
  unfolding as_prop
  interface_props s name =
      filter_map (λ (k, v). if str_beq k.interface name then as_prop v k else none) s

  unfoldable pub delete_interface : Memory V → Str → Memory V
  delete_interface s name = retain (λ e. not (str_beq e.0.interface name)) s

  unfoldable pub clear : Memory V → Memory V
  clear s = []

  -- The entries that `device_props_with_unset` selects.
  abbrev pub is_device_in : PropertyState → Key × Value V → Bool
  is_device_in state e = state_beq e.1.state state && ownership_beq e.1.ownership device

  unfoldable pub device_props_with_unset : Memory V → PropertyState → ℕ → ℕ → List (OptStoredProp V)
  unfolding to_opt_prop
  device_props_with_unset s state limit offset =
      take limit (drop offset (map to_opt_prop (retain (is_device_in state) s)))

  unfoldable pub reset_state : Memory V → Ownership → Memory V
  reset_state s owner =
      map
        (λ e.
          if ownership_beq e.1.ownership owner then (e.0, record e.1 { state = changed }) else e)
        s

module _ {V : Type 0} ⦃eq : Eq V⦄ where
  abbrev pub has_value : Option V → Value V → Bool
  has_value expected v = option_beq v.value expected

  abbrev pub with_state : PropertyState → Value V → Value V
  with_state state v = record v { state = state }

  unfoldable pub update_state :
      Memory V → PropertyMapping → PropertyState → Option V → Bool × Memory V
  update_state s p state expected = elim (lookup (key_of p) s) [
    | none ↦ (false, s)
    | some v ↦
        if has_value expected v then (true, modify (key_of p) (with_state state) s) else (false, s)
  ]

  unfoldable pub delete_expected_prop : Memory V → PropertyMapping → Option V → Bool × Memory V
  delete_expected_prop s p expected = elim (lookup (key_of p) s) [
    | none ↦ (false, s)
    | some v ↦ if has_value expected v then (true, remove (key_of p) s) else (false, s)
  ]
