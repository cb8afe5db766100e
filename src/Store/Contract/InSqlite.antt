-- ===== src/Store/Contract/InSqlite.antt =====
-- The store in SQLite of src/store/sqlite keeps the promise of `PropertyStore`, where decoding undoes
-- encoding.
use astarte_device_sdk_rust.Common.{
  ◌≡◌, refl, ◌∙◌, Option, none, List, [], arith, Eq, nat_eq, str_beq, str_eq, option_eq, int_eq,
}
use astarte_device_sdk_rust.Common.Map.{lookup}
use astarte_device_sdk_rust.Store.{PropertyState, PropertyMapping}
use astarte_device_sdk_rust.Store.Memory.{Key, key_eq, key_of}
use astarte_device_sdk_rust.Store.Sqlite.{
  Table, Codec, store_prop, load_prop, unset_prop, delete_prop, update_state, try_into_value,
  query_prop_row, delete_expected_prop, delete_interface, clear, is_expected,
}
use astarte_device_sdk_rust.Store.Contract.InMemory.{lookup-retain, memory_step, memory_answers}
use astarte_device_sdk_rust.Store.Contract.{
  Prop, Props, Call, store_call, load_call, unset_call, delete_call, update_state_call,
  delete_expected_call, delete_interface_call, reset_state_call, clear_call, matched, promised,
  is_value, answers, answers-related,
}
use astarte_device_sdk_rust.Store.Contract.Rows.{
  IsFaithful, table_step, TableHolds, step-remove_row, step-unset_row, step-state_row,
  step-store_row, Seen, seen_missing, seen_unset, seen_set, see, lookup-reset_row,
}

module _ {V : Type 0} ⦃eq : Eq V⦄ (codec : Codec V) where
  load-promised :
      (t : Table) (props : Props V) (p : PropertyMapping)
      → TableHolds codec t props
      → (o : Option (Prop V)) → props (key_of p) ≡ o
      → Seen codec t (key_of p) o
      → ((table_step codec t (load_call p)).0 ≡ (promised props (load_call p)).0)
        × TableHolds codec (table_step codec t (load_call p)).1 (promised props (load_call p)).1
  unfolding table_step promised load_prop query_prop_row try_into_value delete_prop TableHolds
  load-promised t props p h _ q (seen_missing e) =
      (ground (arith, q, e), λ key. ground (arith, q, e, h key))
  load-promised t props p h _ q (seen_unset row e u) =
      (ground (arith, q, e, u), λ key. ground (arith, q, e, u, h key))
  load-promised t props p h _ q (seen_set row buf v e u d) = (
    ground (arith, q, e, u, d),
    λ key. ground (arith, q, e, u, d, h key, step-remove_row codec t props (key_of p) key (h key)),
  )

  update-promised :
      (t : Table) (props : Props V) (p : PropertyMapping) (state : PropertyState) (v : V)
      → TableHolds codec t props
      → (o : Option (Prop V)) → props (key_of p) ≡ o
      → Seen codec t (key_of p) o
      → ((table_step codec t (update_state_call p state v)).0
          ≡ matched (is_value (props (key_of p)) v))
        × TableHolds codec (table_step codec t (update_state_call p state v)).1 props
  unfolding table_step update_state is_expected query_prop_row try_into_value TableHolds
  update-promised t props p state v h _ q (seen_missing e) =
      (ground (arith, q, e), λ key. ground (arith, q, e, h key))
  update-promised t props p state v h _ q (seen_unset row e u) =
      (ground (arith, q, e, u), λ key. ground (arith, q, e, u, h key))
  update-promised t props p state v h _ q (seen_set row buf w e u d) = (
    ground (arith, q, e, u, d, eq.beq_iff v w, eq.beq_iff w v),
    λ key. ground (arith, q, e, u, d, h key, step-state_row codec t (key_of p) key state),
  )

  delete-promised :
      (t : Table) (props : Props V) (p : PropertyMapping) (v : V)
      → TableHolds codec t props
      → (o : Option (Prop V)) → props (key_of p) ≡ o
      → Seen codec t (key_of p) o
      → ((table_step codec t (delete_expected_call p v)).0
          ≡ (promised props (delete_expected_call p v)).0)
        × TableHolds codec
            (table_step codec t (delete_expected_call p v)).1
            (promised props (delete_expected_call p v)).1
  unfolding table_step promised delete_expected_prop is_expected query_prop_row try_into_value
      TableHolds
  delete-promised t props p v h _ q (seen_missing e) =
      (ground (arith, q, e), λ key. ground (arith, q, e, h key))
  delete-promised t props p v h _ q (seen_unset row e u) =
      (ground (arith, q, e, u), λ key. ground (arith, q, e, u, h key))
  delete-promised t props p v h _ q (seen_set row buf w e u d) = (
    ground (arith, q, e, u, d, eq.beq_iff v w, eq.beq_iff w v),
    λ key. ground (
      arith,
      q,
      e,
      u,
      d,
      eq.beq_iff v w,
      eq.beq_iff w v,
      h key,
      step-remove_row codec t props (key_of p) key (h key),
    ),
  )

  table_step-promised :
      IsFaithful codec
      → (t : Table) (props : Props V) (call : Call V) → TableHolds codec t props
      → ((table_step codec t call).0 ≡ (promised props call).0)
        × TableHolds codec (table_step codec t call).1 (promised props call).1
  unfolding table_step promised TableHolds store_prop unset_prop delete_prop delete_interface clear
      lookup
  table_step-promised f t props (store_call p) h =
      let (buf, e, d) = f p.value in
      (
        ground (arith, e),
        λ key. ground (arith, e, step-store_row codec t props p buf key d (h key)),
      )
  table_step-promised f t props (load_call p) h =
      load-promised t props p h (props (key_of p)) refl
        (see codec t (key_of p) (props (key_of p)) (h (key_of p)))
  table_step-promised f t props (unset_call p) h =
      (refl, λ key. step-unset_row codec t props (key_of p) key (h key))
  table_step-promised f t props (delete_call p) h =
      (refl, λ key. step-remove_row codec t props (key_of p) key (h key))
  table_step-promised f t props (update_state_call p state v) h =
      update-promised t props p state v h (props (key_of p)) refl
        (see codec t (key_of p) (props (key_of p)) (h (key_of p)))
  table_step-promised f t props (delete_expected_call p v) h =
      delete-promised t props p v h (props (key_of p)) refl
        (see codec t (key_of p) (props (key_of p)) (h (key_of p)))
  table_step-promised f t props (delete_interface_call name) h = (
    refl,
    λ key. ground (arith, h key, lookup-retain (λ (k : Key). str_beq k.interface name) key t),
  )
  table_step-promised f t props (reset_state_call owner) h =
      (refl, λ key. lookup-reset_row codec owner key t ∙ h key)
  table_step-promised f t props clear_call h = (refl, λ key. refl)

  -- Where decoding undoes encoding: whatever run of calls that store, load, unset or delete a property,
  -- update its state or delete it where it has a certain value, delete the properties of an interface,
  -- reset the states, or clear the store, the store in memory and the store in SQLite, each starting
  -- empty, answer the calls alike, and as a partial function from interfaces and paths to
  -- properties does: each loads the value last stored under the major version asked for, unless it
  -- was unset or deleted since, and none of these calls fails. The calls that list properties, or that
  -- expect a property to be unset, are not among them.
  pub stores-promised :
      IsFaithful codec
      → (calls : List (Call V))
      → (answers memory_step [] calls ≡ answers promised (λ _. none) calls)
        × (answers (table_step codec) [] calls ≡ answers promised (λ _. none) calls)
  unfolding TableHolds lookup
  stores-promised f calls = (
    memory_answers calls,
    answers-related (table_step codec) promised (TableHolds codec) (table_step-promised f) []
        (λ _. none) calls (λ key. refl),
  )
