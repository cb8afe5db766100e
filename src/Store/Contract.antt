-- ===== src/Store/Contract.antt =====
-- What `PropertyStore` of src/store/mod.rs promises of the properties that have a value, and the calls
-- through which the store in memory and the one in SQLite are held to it. A store that keeps the
-- promise is a partial function from interfaces and paths to properties. The state of a property and
-- the paths that were unset and wait to be sent are no part of it, so the two calls that expect a
-- value are those that expect one, not the ones that expect a property to be unset.
pub mod InMemory
pub mod Rows
pub mod InSqlite
use astarte_device_sdk_rust.Common.{
  ◌≡◌, refl, ap, Bool, true, false, Option, none, some, List, [], ◌∷◌, if◌then◌else◌, Eq, ◌==◌,
  nat_eq, Str, str_beq, str_eq, option_eq, ℤ, int_eq,
}
use astarte_device_sdk_rust.Foreign.{Ownership}
use astarte_device_sdk_rust.Store.{PropertyState, StoredProp, PropertyMapping}
use astarte_device_sdk_rust.Store.Memory.{Key, key_eq, key_of, prop_key}

pub record Prop (V : Type 0) : Type 0 where
  pub value : V
  pub interface_major : ℤ
  pub ownership : Ownership

-- The properties that have a value.
abbrev pub Props : Type 0 → Type 0
Props V = Key → Option (Prop V)

-- The calls whose answers do not tell the state of a property, nor an unset one from none.
pub data Call (V : Type 0) : Type 0 where
  store_call : StoredProp V → Call V
  load_call unset_call delete_call : PropertyMapping → Call V
  update_state_call : PropertyMapping → PropertyState → V → Call V
  delete_expected_call : PropertyMapping → V → Call V
  delete_interface_call : Str → Call V
  reset_state_call : Ownership → Call V
  clear_call : Call V

pub data Answer (V : Type 0) : Type 0 where
  done failed : Answer V
  loaded : Option V → Answer V
  matched : Bool → Answer V

module _ {V : Type 0} where
  abbrev pub put : Key → Option (Prop V) → Props V → Props V
  put key o props = λ k. if key == k then o else props k

  abbrev pub of_stored : StoredProp V → Prop V
  of_stored p = record {
    value = p.value;
    interface_major = p.interface_major;
    ownership = p.ownership;
  }

  -- Loading a property of another major version deletes it.
  abbrev pub load_of : Option (Prop V) → PropertyMapping → Props V → Answer V × Props V
  load_of none p props = (loaded none, props)
  load_of (some prop) p props =
      if prop.interface_major == p.version_major
      then (loaded (some prop.value), props)
      else (loaded none, put (key_of p) none props)

module _ {V : Type 0} ⦃eq : Eq V⦄ where
  abbrev pub is_value : Option (Prop V) → V → Bool
  is_value none v = false
  is_value (some prop) v = prop.value == v

  unfoldable pub promised : Props V → Call V → Answer V × Props V
  promised props (store_call p) = (done, put (prop_key p) (some (of_stored p)) props)
  promised props (load_call p) = load_of (props (key_of p)) p props
  promised props (unset_call p) = (done, put (key_of p) none props)
  promised props (delete_call p) = (done, put (key_of p) none props)
  promised props (update_state_call p state v) = (matched (is_value (props (key_of p)) v), props)
  promised props (delete_expected_call p v) =
      if is_value (props (key_of p)) v
      then (matched true, put (key_of p) none props)
      else (matched false, props)
  promised props (delete_interface_call name) =
      (done, λ k. if str_beq k.interface name then none else props k)
  promised props (reset_state_call owner) = (done, props)
  promised props clear_call = (done, λ k. none)

-- The answers of a run of calls, of a store given by its steps.
module _ {S V : Type 0} (step : S → Call V → Answer V × S) where
  unfoldable pub answers : S → List (Call V) → List (Answer V)
  answers s [] = []
  answers s (call ∷ rest) = let (answer, s') = step s call in answer ∷ answers s' rest

-- Two stores whose steps keep a relation give the same answers.
pub answers-related :
    {S Q V : Type 0} (step : S → Call V → Answer V × S) (spec : Q → Call V → Answer V × Q)
    (R : S → Q → Type 0)
    → ((s : S) (q : Q) (call : Call V)
        → R s q
        → ((step s call).0 ≡ (spec q call).0) × R (step s call).1 (spec q call).1)
    → (s : S) (q : Q) (calls : List (Call V)) → R s q
    → answers step s calls ≡ answers spec q calls
unfolding answers
answers-related step spec R keep s q [] h = refl
answers-related step spec R keep s q (call ∷ rest) h =
    let (same, later) = keep s q call h in
    rw same (
      ap (◌∷◌ (spec q call).0)
        (answers-related step spec R keep (step s call).1 (spec q call).1 rest later))
