-- ===== src/Validate.antt =====
-- src/validate/mod.rs and src/validate/object.rs: what is checked of a datum before it is sent. The
-- type of the values is `V`; `eq_mapping_type` compares a value with the crate's `MappingType`, of
-- type `M`. An object's mappings are the crate's `DatastreamObjectMapping`, of type `O`.
pub mod Merge
pub mod Sending
use astarte_device_sdk_rust.Common.{
  [], ℕ, zero, suc, ◌+◌, Bool, true, false, not, Option, none, some, List, ◌∷◌, length, Result, ok,
  err, ◌>>=◌, ◌>>◌, ensure, nat_eq, Str, str_eq, option_eq, int_eq,
}
use astarte_device_sdk_rust.Common.Order.{Comparison, less, equal, greater, str_cmp}
use astarte_device_sdk_rust.Error
use astarte_device_sdk_rust.Error.{InterfaceError}
use astarte_device_sdk_rust.Foreign.{InterfaceApi, Mapping, Ownership, device, ownership_beq}
use astarte_device_sdk_rust.Interfaces.{MappingRef}
use astarte_device_sdk_rust.Object.{AstarteObject}
use astarte_device_sdk_rust.Packet.{
  ValidatedIndividual, ValidatedObject, ValidatedProperty, ValidatedUnset,
}

unfoldable pub validate_timestamp : Option ℕ → Bool → Result InterfaceError (Unit {0})
validate_timestamp (some t) true = ok tt
validate_timestamp none false = ok tt
validate_timestamp none true = err Error.timestamp
validate_timestamp (some t) false = err Error.timestamp

module _ {V I M : Type 0} (api : InterfaceApi I M) (eq_mapping_type : V → M → Bool) where
  unfoldable pub validate_individual :
      MappingRef I M → V → Option ℕ → Result InterfaceError (ValidatedIndividual V)
  unfolding validate_timestamp
  validate_individual r value timestamp = do
    ensure (ownership_beq (api.ownership r.interface) device) Error.ownership
    ensure (eq_mapping_type value r.mapping.mapping_type) Error.mapping_type
    validate_timestamp timestamp r.mapping.explicit_timestamp
    ok (record {
      interface = api.interface_name r.interface;
      path = r.path;
      version_major = api.version_major r.interface;
      reliability = r.mapping.reliability;
      retention = r.mapping.retention;
      value = value;
      timestamp = timestamp;
    })

  unfoldable pub validate_property :
      MappingRef I M → V → Result InterfaceError (ValidatedProperty V)
  validate_property r value = do
    ensure (ownership_beq (api.ownership r.interface) device) Error.ownership
    ensure (eq_mapping_type value r.mapping.mapping_type) Error.mapping_type
    ok (record {
      interface = api.interface_name r.interface;
      path = r.path;
      version_major = api.version_major r.interface;
      value = value;
    })

module _ {I M : Type 0} (api : InterfaceApi I M) where
  unfoldable pub validate_unset : MappingRef I M → Result InterfaceError ValidatedUnset
  validate_unset r = do
    ensure (ownership_beq (api.ownership r.interface) device) Error.ownership
    ensure r.mapping.allow_unset Error.unset
    ok (record { interface = api.interface_name r.interface; path = r.path })

-- An item of `Iter`: a field of the object, a mapping, or both.
abbrev pub Pair : Type 0 → Type 0 → Type 0
Pair V O = Option (Str × V) × Option O

-- `Iter` of object.rs: two sorted lists side by side. What `next` yields, and the two iterators after.
module _ {V O : Type 0} (cmp_object_field : O → Str → Comparison) where
  unfoldable pub next : List (Str × V) → List O → Option (Pair V O × List (Str × V) × List O)
  next [] [] = none
  next [] (b ∷ mappings) = some ((none, some b), [], mappings)
  next (a ∷ fields) [] = some ((some a, none), fields, [])
  next (a ∷ fields) (b ∷ mappings) = elim (cmp_object_field b a.0) [
    | less ↦ some ((none, some b), a ∷ fields, mappings)
    | equal ↦ some ((some a, some b), fields, mappings)
    | greater ↦ some ((some a, none), fields, b ∷ mappings)
  ]

  -- The iterator to its end, if that comes within the fuel.
  unfoldable pub pairs : ℕ → List (Str × V) → List O → Option (List (Pair V O))
  pairs zero fields mappings = none
  pairs (suc fuel) fields mappings = elim (next fields mappings) [
    | none ↦ some []
    | some (p, fields', mappings') ↦
        let later = pairs fuel fields' mappings' in
        elim later [ none ↦ none | some ps ↦ some (p ∷ ps) ]
  ]

module _ {V O M : Type 0} (eq_mapping_type : V → M → Bool) (type_of : O → M)
    (required : O → Bool) where
  -- The closure of `check_mappings`.
  unfoldable pub check_pair : Pair V O → Result InterfaceError (Unit {0})
  check_pair (item, none) = err Error.mapping_not_found
  check_pair (some (key, value), some mapping) =
      ensure (eq_mapping_type value (type_of mapping)) Error.mapping_type
  check_pair (none, some mapping) = ensure (not (required mapping)) Error.mapping_required

  -- `try_for_each`.
  unfoldable pub check_pairs : List (Pair V O) → Result InterfaceError (Unit {0})
  unfolding check_pair
  check_pairs [] = ok tt
  check_pairs (p ∷ rest) = do check_pair p; check_pairs rest

-- `sort_unstable_by` on the names of the fields.
module _ {V : Type 0} where
  unfoldable pub insert_field : Str × V → List (Str × V) → List (Str × V)
  insert_field a [] = a ∷ []
  insert_field a (b ∷ rest) = elim (str_cmp a.0 b.0) [
    | greater ↦ b ∷ insert_field a rest
    | _ ↦ a ∷ b ∷ rest
  ]

  unfoldable pub sort_fields : List (Str × V) → List (Str × V)
  unfolding insert_field
  sort_fields [] = []
  sort_fields (a ∷ rest) = insert_field a (sort_fields rest)

module _ {V I M O : Type 0} (api : InterfaceApi I M) (iter_mappings : I → List O)
    (cmp_object_field : O → Str → Comparison) (eq_mapping_type : V → M → Bool) (type_of : O → M)
    (required : O → Bool) where
  -- `check_mappings`: the iterator yields at most one item for each field and each mapping.
  unfoldable pub check_mappings : I → List (Str × V) → Result InterfaceError (Unit {0})
  check_mappings i fields =
      elim (pairs cmp_object_field (suc (length fields + length (iter_mappings i))) fields
        (iter_mappings i)) [
          | none ↦ err Error.mapping_not_found
          | some ps ↦ check_pairs eq_mapping_type type_of required ps
        ]

  unfoldable pub validate_object :
      I → Str → AstarteObject V → Option ℕ → Result InterfaceError (ValidatedObject V)
  unfolding check_mappings validate_timestamp
  validate_object i path data' timestamp = do
    ensure (ownership_beq (api.ownership i) device) Error.ownership
    ensure (api.is_object_path i path) Error.object_path
    validate_timestamp timestamp (api.object_timestamp i)
    let sorted = sort_fields data'.inner
    check_mappings i sorted
    ok (record {
      interface = api.interface_name i;
      path = path;
      version_major = api.version_major i;
      reliability = api.object_reliability i;
      retention = api.object_retention i;
      object = record { inner = sorted };
      timestamp = timestamp;
    })
