-- ===== src/Store/Sqlite.antt =====
-- The property store of src/store/sqlite/mod.rs and statements.rs, with the queries of
-- queries/properties. The table `propcache` is a map from its primary key to the other columns;
-- statements do not fail. `encode` is what `Payload::to_vec` gives, `into_stored_type` the number of
-- a value's type, and `deserialize_prop` what `BsonConverter` reads of such a number and the bytes;
-- these are parameters, as the values are. Where the queries give no order, the rows are in that of
-- the map.
pub mod Unset
use astarte_device_sdk_rust.Common.{
  ℕ, Bool, true, false, not, Option, none, some, List, [], ◌∷◌, map, if◌then◌else◌, retain, Result,
  ok, err, ◌>>=◌, ok_or, Eq, ◌==◌, nat_eq, Str, str_beq, str_eq, option_beq, option_eq, ℤ, int_eq,
}
use astarte_device_sdk_rust.Common.Map.{lookup, insert, remove, modify}
use astarte_device_sdk_rust.Foreign.{Ownership, ownership_beq}
use astarte_device_sdk_rust.Store.{PropertyState, changed, state_beq, StoredProp, PropertyMapping}
use astarte_device_sdk_rust.Store.Memory.{Key, key_eq, key_of, prop_key}

-- The errors of `StoreError` that these reach. The kind of the one in which a decoding error ends is
-- that of loading for every query.
pub data StoreError : Type 0 where
  store load device_props : StoreError

-- The columns of a row that are not its key.
pub record PropRow : Type 0 where
  pub value : Option Str
  pub stored_type : ℕ
  pub interface_major : ℤ
  pub ownership : Ownership
  pub state : PropertyState

abbrev pub Table : Type 0
Table = List (Key × PropRow)

pub record Codec (V : Type 0) : Type 0 where
  pub encode : V → Option Str
  pub into_stored_type : V → ℕ
  pub deserialize_prop : ℕ → Str → Option V

unfoldable pub delete_prop : Table → PropertyMapping → Table
delete_prop t p = remove (key_of p) t

-- `value IS NOT NULL`.
abbrev pub set_row : Option PropRow → Option (Str × PropRow)
set_row none = none
set_row (some row) = elim row.value [ none ↦ none | some buf ↦ some (buf, row) ]

unfoldable pub query_prop_row : Table → Key → Option (Str × PropRow)
query_prop_row t key = set_row (lookup key t)

abbrev pub unset_row : PropRow → PropRow
unset_row row = record row { value = none; state = changed }

unfoldable pub unset_prop : Table → PropertyMapping → Table
unset_prop t p = modify (key_of p) unset_row t

unfoldable pub clear : Table → Table
clear t = []

unfoldable pub delete_interface : Table → Str → Table
delete_interface t name = retain (λ e. not (str_beq e.0.interface name)) t

abbrev pub changed_row : Ownership → PropRow → PropRow
changed_row owner row =
    if ownership_beq row.ownership owner then record row { state = changed } else row

unfoldable pub reset_state : Table → Ownership → Table
reset_state t owner = map (λ e. (e.0, changed_row owner e.1)) t

abbrev pub is_row : Option PropRow → Bool
is_row none = false
is_row (some row) = true

abbrev pub with_state : PropertyState → PropRow → PropRow
with_state state row = record row { state = state }

module _ {V : Type 0} (codec : Codec V) where
  unfoldable pub store_prop : Table → StoredProp V → Result StoreError (Unit {0}) × Table
  store_prop t p = elim (codec.encode p.value) [
    | none ↦ (err store, t)
    | some buf ↦ (
      ok tt,
      insert (prop_key p)
          (record {
            value = some buf;
            stored_type = codec.into_stored_type p.value;
            interface_major = p.interface_major;
            ownership = p.ownership;
            state = changed;
          })
          t,
    )
  ]

  -- `try_into_value` of a row.
  unfoldable pub try_into_value : Str × PropRow → Result StoreError V
  try_into_value (buf, row) = ok_or (codec.deserialize_prop row.stored_type buf) load

  unfoldable pub load_prop : Table → PropertyMapping → Result StoreError (Option V) × Table
  unfolding query_prop_row try_into_value delete_prop
  load_prop t p = elim (query_prop_row t (key_of p)) [
    | none ↦ (ok none, t)
    | some found ↦
        if not (found.1.interface_major == p.version_major)
        then (ok none, delete_prop t p)
        else (elim (try_into_value found) [ ok v ↦ ok (some v) | err e ↦ err e ], t)
  ]

  -- `try_into_prop` of a row that has a value.
  unfoldable pub try_into_prop : Key → Str × PropRow → Result StoreError (StoredProp V)
  unfolding try_into_value
  try_into_prop key found = do
    value ← try_into_value found
    ok (record {
      interface = key.interface;
      path = key.path;
      value = value;
      interface_major = found.1.interface_major;
      ownership = found.1.ownership;
    })

  -- The rows that pass a test and have a value, or the first error of reading one.
  unfoldable pub select_props :
      (Key × PropRow → Bool) → Table → Result StoreError (List (StoredProp V))
  unfolding try_into_prop
  select_props test [] = ok []
  select_props test ((key, row) ∷ t) =
      let rest = select_props test t in
      if test (key, row)
      then elim (set_row (some row)) [
        | none ↦ rest
        | some found ↦ try_into_prop key found >>= λ p. rest >>= λ ps. ok (p ∷ ps)
      ]
      else rest

  unfoldable pub load_all_props : Table → Result StoreError (List (StoredProp V))
  unfolding select_props
  load_all_props t = select_props (λ _. true) t

  -- `device_props` and `server_props`.
  unfoldable pub props_with_ownership : Table → Ownership → Result StoreError (List (StoredProp V))
  unfolding select_props
  props_with_ownership t owner = select_props (λ e. ownership_beq e.1.ownership owner) t

  unfoldable pub interface_props : Table → Str → Result StoreError (List (StoredProp V))
  unfolding select_props
  interface_props t name = select_props (λ e. str_beq e.0.interface name) t

module _ {V : Type 0} ⦃eq : Eq V⦄ (codec : Codec V) where
  -- The value of the key's row, if it has one, against the expected one.
  unfoldable pub is_expected : Table → Key → Option V → Result StoreError Bool
  unfolding query_prop_row try_into_value
  is_expected t key expected = elim (query_prop_row t key) [
    | none ↦ ok (option_beq expected none)
    | some found ↦ try_into_value codec found >>= λ v. ok (option_beq expected (some v))
  ]

  -- Whether a row was updated; a debug build asserts it once the value is the expected one.
  unfoldable pub update_state :
      Table → PropertyMapping → PropertyState → Option V → Result StoreError Bool × Table
  unfolding is_expected
  update_state t p state expected = elim (is_expected t (key_of p) expected) [
    | err e ↦ (err e, t)
    | ok same ↦
        if same
        then (ok (is_row (lookup (key_of p) t)), modify (key_of p) (with_state state) t)
        else (ok false, t)
  ]

  unfoldable pub delete_expected_prop :
      Table → PropertyMapping → Option V → Result StoreError Bool × Table
  unfolding is_expected
  delete_expected_prop t p expected = elim (is_expected t (key_of p) expected) [
    | err e ↦ (err e, t)
    | ok same ↦
        if same then (ok (is_row (lookup (key_of p) t)), remove (key_of p) t) else (ok false, t)
  ]
