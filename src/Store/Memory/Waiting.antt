-- ===== src/Store/Memory/Waiting.antt =====
-- Which device properties the store in memory gives to be sent again.
use astarte_device_sdk_rust.Common.Selection.{modify-unselected}
use astarte_device_sdk_rust.Common.{
  ℕ, ◌≡◌, refl, ap, Bool, false, some, List, [], ◌∷◌, map, arith, take, drop, retain, All, nat_eq,
  str_eq, option_eq, int_eq,
}
use astarte_device_sdk_rust.Common.Map.{lookup, HasUniqueKeys}
use astarte_device_sdk_rust.Foreign.{Ownership, device, ownership_beq}
use astarte_device_sdk_rust.Store.{changed, completed, PropertyMapping}
use astarte_device_sdk_rust.Store.Memory.{
  unset_value, Key, Value, key_eq, key_of, key_beq, Memory, is_device_in, to_opt_prop,
  device_props_with_unset, reset_state, unset_prop, load_prop,
}

module _ {V : Type 0} where
  abbrev pub is_owned : Ownership → Key × Value V → Bool
  is_owned owner e = ownership_beq e.1.ownership owner

  -- The entry in the state `Changed`.
  abbrev pub as_changed : Key × Value V → Key × Value V
  as_changed e = (e.0, record e.1 { state = changed })

  waiting-reset :
      (s : Memory V)
      → retain (is_device_in changed) (reset_state s device)
        ≡ map as_changed (retain (is_owned device) s)
  unfolding reset_state
  waiting-reset [] = refl
  waiting-reset ((k, v) ∷ s) = ground (arith, waiting-reset s)

  opt_prop-changed :
      (l : List (Key × Value V)) → map to_opt_prop (map as_changed l) ≡ map to_opt_prop l
  unfolding to_opt_prop
  opt_prop-changed [] = refl
  opt_prop-changed (e ∷ l) = ap (◌∷◌ (to_opt_prop e)) (opt_prop-changed l)

  -- After the states of the device's properties were reset, the batches of changed properties are
  -- those of all the device's properties, set or unset, in order.
  pub device_props-reset :
      (s : Memory V) (limit offset : ℕ)
      → device_props_with_unset (reset_state s device) changed limit offset
        ≡ take limit (drop offset (map to_opt_prop (retain (is_owned device) s)))
  unfolding device_props_with_unset
  device_props-reset s limit offset =
      rw (waiting-reset s, opt_prop-changed (retain (is_owned device) s)) refl

  -- Resetting the states of one owner's properties changes no value that a property is loaded with.
  pub load_prop-reset_state :
      (p : PropertyMapping) (owner : Ownership) (s : Memory V)
      → (load_prop (reset_state s owner) p).0 ≡ (load_prop s p).0
  unfolding load_prop reset_state lookup
  load_prop-reset_state p owner [] = refl
  load_prop-reset_state p owner ((k, v) ∷ s) = ground (arith, load_prop-reset_state p owner s)

  -- In a store with unique keys, unsetting a property whose state is `Completed` leaves no entry of
  -- it among the entries that `device_props_with_unset` selects for the state `Changed`.
  pub unset_prop-waiting :
      (p : PropertyMapping) (v : Value V) (s : Memory V)
      → HasUniqueKeys s
      → lookup (key_of p) s ≡ some v
      → v.state ≡ completed
      → All (λ e. key_beq e.0 (key_of p) ≡ false) (retain (is_device_in changed) (unset_prop s p))
  unfolding unset_prop
  unset_prop-waiting p v s u h c =
      modify-unselected (is_device_in changed) (key_of p) unset_value v s u h (ground (arith, c))
