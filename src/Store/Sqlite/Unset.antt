-- ===== src/Store/Sqlite/Unset.antt =====
-- `props_with_unset` of src/store/sqlite/statements.rs, the query behind `device_props_with_unset`,
-- with its order and its bounds on the limit and the offset.
use astarte_device_sdk_rust.Common.{
  ℕ, ◌^◌, Bool, true, false, ◌&&◌, none, some, List, [], ◌∷◌, ltb, if◌then◌else◌, take, drop,
  retain, Result, ok, err, ◌>>=◌, ◌>>◌, ensure,
}
use astarte_device_sdk_rust.Common.Order.{str_cmp, less, equal, greater}
use astarte_device_sdk_rust.Foreign.{Ownership, ownership_beq}
use astarte_device_sdk_rust.Store.{PropertyState, state_beq, OptStoredProp}
use astarte_device_sdk_rust.Store.Memory.{Key}
use astarte_device_sdk_rust.Store.Sqlite.{
  StoreError, device_props, PropRow, Table, Codec, try_into_value,
}

-- `ORDER BY interface, path`, by the bytes of the texts.
unfoldable pub key_before : Key → Key → Bool
unfolding str_cmp
key_before a b = elim (str_cmp a.interface b.interface) [
  | less ↦ true
  | greater ↦ false
  | equal ↦ elim (str_cmp a.path b.path) [ less ↦ true | equal ↦ false | greater ↦ false ]
]

unfoldable pub insert_by_key : Key × PropRow → Table → Table
unfolding key_before
insert_by_key e [] = e ∷ []
insert_by_key e (f ∷ t) =
    let later = insert_by_key e t in if key_before e.0 f.0 then e ∷ f ∷ t else f ∷ later

unfoldable pub order_by_key : Table → Table
unfolding insert_by_key
order_by_key [] = []
order_by_key (e ∷ t) = insert_by_key e (order_by_key t)

module _ {V : Type 0} (codec : Codec V) where
  -- `OptStoredProp::try_from` of a row.
  unfoldable pub try_into_opt_prop : Key × PropRow → Result StoreError (OptStoredProp V)
  unfolding try_into_value
  try_into_opt_prop (key, row) = do
    value ← elim row.value [
      | none ↦ ok none
      | some buf ↦ elim (try_into_value codec (buf, row)) [ ok v ↦ ok (some v) | err e ↦ err e ]
    ]
    ok (record {
      interface = key.interface;
      path = key.path;
      value = value;
      interface_major = row.interface_major;
      ownership = row.ownership;
    })

  unfoldable pub collect_opt_props : Table → Result StoreError (List (OptStoredProp V))
  unfolding try_into_opt_prop
  collect_opt_props [] = ok []
  collect_opt_props (e ∷ t) = do p ← try_into_opt_prop e; ps ← collect_opt_props t; ok (p ∷ ps)

  abbrev pub is_in : Ownership → PropertyState → Key × PropRow → Bool
  is_in owner state e = ownership_beq e.1.ownership owner && state_beq e.1.state state

  -- `device_props_with_unset`: a limit or an offset that is no `i64` is an error.
  unfoldable pub props_with_unset :
      Table → Ownership → PropertyState → ℕ → ℕ → Result StoreError (List (OptStoredProp V))
  unfolding order_by_key collect_opt_props
  props_with_unset t owner state limit offset = do
    ensure (ltb limit (2 ^ 63)) device_props
    ensure (ltb offset (2 ^ 63)) device_props
    collect_opt_props (take limit (drop offset (order_by_key (retain (is_in owner state) t))))
