-- ===== src/Store/Contract/Rows.antt =====
-- The rows of the property store of src/store/sqlite, and how they hold the properties of a partial
-- function.
use astarte_device_sdk_rust.Common.{
  ◌≡◌, refl, subst, inl, inr, Option, none, some, arith, if◌then◌else◌, Option-cases, Result, ok,
  err, Eq, ◌==◌, nat_eq, Str, str_eq, option_eq, int_eq,
}
use astarte_device_sdk_rust.Common.Map.{
  lookup, remove, modify, insert, lookup-insert, lookup-remove, lookup-modify, apply_to,
}
use astarte_device_sdk_rust.Foreign.{Ownership}
use astarte_device_sdk_rust.Store.{StoredProp, PropertyState, changed}
use astarte_device_sdk_rust.Store.Memory.{Key, key_eq, prop_key}
use astarte_device_sdk_rust.Store.Sqlite.{
  StoreError, PropRow, Table, Codec, store_prop, load_prop, unset_prop, delete_prop, update_state,
  delete_expected_prop, delete_interface, reset_state, clear, unset_row, changed_row, with_state,
  load,
}
use astarte_device_sdk_rust.Store.Contract.InMemory.{lookup-map}
use astarte_device_sdk_rust.Store.Contract.{
  Prop, Props, Call, store_call, load_call, unset_call, delete_call, update_state_call,
  delete_expected_call, delete_interface_call, reset_state_call, clear_call, Answer, done, failed,
  loaded, matched, of_stored,
}

-- Every value is encoded, and decoding its bytes as of its type gives it back.
abbrev pub IsFaithful : {V : Type 0} → Codec V → Type 0
IsFaithful codec =
    (v : _)
    → (buf : Str) × (codec.encode v ≡ some buf)
      × (codec.deserialize_prop (codec.into_stored_type v) buf ≡ some v)

abbrev pub answer_of : {A V S : Type 0} → (A → Answer V) → Result StoreError A × S → Answer V × S
answer_of f (ok a, s) = (f a, s)
answer_of f (err e, s) = (failed, s)

module _ {V : Type 0} ⦃eq : Eq V⦄ (codec : Codec V) where
  unfoldable pub table_step : Table → Call V → Answer V × Table
  unfolding store_prop load_prop unset_prop delete_prop update_state delete_expected_prop
      delete_interface reset_state clear
  table_step t (store_call p) = answer_of (λ _. done) (store_prop codec t p)
  table_step t (load_call p) = answer_of loaded (load_prop codec t p)
  table_step t (unset_call p) = (done, unset_prop t p)
  table_step t (delete_call p) = (done, delete_prop t p)
  table_step t (update_state_call p state v) =
      answer_of matched (update_state codec t p state (some v))
  table_step t (delete_expected_call p v) =
      answer_of matched (delete_expected_prop codec t p (some v))
  table_step t (delete_interface_call name) = (done, delete_interface t name)
  table_step t (reset_state_call owner) = (done, reset_state t owner)
  table_step t clear_call = (done, clear t)

  -- The property of a row that has a value, or the error of decoding it.
  abbrev pub row_view : Option PropRow → Result StoreError (Option (Prop V))
  row_view none = ok none
  row_view (some row) = elim row.value [
    | none ↦ ok none
    | some buf ↦ elim (codec.deserialize_prop row.stored_type buf) [
      | none ↦ err load
      | some value ↦ ok (
          some (record {
            value = value;
            interface_major = row.interface_major;
            ownership = row.ownership;
          }))
    ]
  ]

  unfoldable pub TableHolds : Table → Props V → Type 0
  TableHolds t props = (key : Key) → row_view (lookup key t) ≡ ok (props key)

  modified-row :
      (f : PropRow → PropRow) (o : Option PropRow)
      → ((row : PropRow) → row_view (some (f row)) ≡ row_view (some row))
      → row_view (apply_to f o) ≡ row_view o
  modified-row f none h = refl
  modified-row f (some row) h = h row

  unset-row : (o : Option PropRow) → row_view (apply_to unset_row o) ≡ ok none
  unset-row none = refl
  unset-row (some row) = refl

  pub lookup-reset_row :
      (owner : Ownership) (key : Key) (t : Table)
      → row_view (lookup key (reset_state t owner)) ≡ row_view (lookup key t)
  unfolding reset_state
  lookup-reset_row owner key t = ground (
    arith,
    lookup-map (changed_row owner) key t,
    modified-row (changed_row owner) (lookup key t) (λ row. ground arith),
  )

  pub step-remove_row :
      (t : Table) (props : Props V) (k key : Key)
      → row_view (lookup key t) ≡ ok (props key)
      → row_view (lookup key (remove k t)) ≡ ok (if k == key then none else props key)
  step-remove_row t props k key h = ground (arith, h, lookup-remove k key t)

  pub step-unset_row :
      (t : Table) (props : Props V) (k key : Key)
      → row_view (lookup key t) ≡ ok (props key)
      → row_view (lookup key (modify k unset_row t)) ≡ ok (if k == key then none else props key)
  step-unset_row t props k key h =
      ground (arith, h, lookup-modify k key unset_row t, unset-row (lookup key t))

  pub step-state_row :
      (t : Table) (k key : Key) (state : PropertyState)
      → row_view (lookup key (modify k (with_state state) t)) ≡ row_view (lookup key t)
  step-state_row t k key state = ground (
    arith,
    lookup-modify k key (with_state state) t,
    modified-row (with_state state) (lookup key t) (λ row. refl),
  )

  pub step-store_row :
      (t : Table) (props : Props V) (p : StoredProp V) (buf : Str) (key : Key)
      → codec.deserialize_prop (codec.into_stored_type p.value) buf ≡ some p.value
      → row_view (lookup key t) ≡ ok (props key)
      → row_view (
          lookup key (
            insert
              (prop_key p)
              (record {
                value = some buf;
                stored_type = codec.into_stored_type p.value;
                interface_major = p.interface_major;
                ownership = p.ownership;
                state = changed;
              })
              t))
        ≡ ok (if prop_key p == key then some (of_stored p) else props key)
  step-store_row t props p buf key d h =
      let row : PropRow = record {
        value = some buf;
        stored_type = codec.into_stored_type p.value;
        interface_major = p.interface_major;
        ownership = p.ownership;
        state = changed;
      } in
      ground (arith, h, d, lookup-insert (prop_key p) key row t)

  -- The row of a key, as what the relation says of it.
  pub data Seen (t : Table) (key : Key) : Option (Prop V) → Type 0 where
    seen_missing : lookup key t ≡ none → Seen t key none
    seen_unset : (row : PropRow) → lookup key t ≡ some row → row.value ≡ none → Seen t key none
    seen_set :
        (row : PropRow) (buf : Str) (v : V)
        → lookup key t ≡ some row
        → row.value ≡ some buf
        → codec.deserialize_prop row.stored_type buf ≡ some v
        → Seen t key (
            some (record {
              value = v;
              interface_major = row.interface_major;
              ownership = row.ownership;
            }))

  pub see :
      (t : Table) (key : Key) (o : Option (Prop V)) → row_view (lookup key t) ≡ ok o → Seen t key o
  see t key o h = elim (Option-cases (lookup key t)) [
    | inl e ↦ subst (Seen t key) (ground (arith, h, e)) (seen_missing e)
    | inr (row, e) ↦ elim (Option-cases row.value) [
      | inl u ↦ subst (Seen t key) (ground (arith, h, e, u)) (seen_unset row e u)
      | inr (buf, u) ↦ elim (Option-cases (codec.deserialize_prop row.stored_type buf)) [
        | inl d ↦ absurd (ground (arith, h, e, u, d))
        | inr (v, d) ↦ subst (Seen t key) (ground (arith, h, e, u, d)) (seen_set row buf v e u d)
      ]
    ]
  ]
