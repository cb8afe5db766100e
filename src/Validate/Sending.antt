-- ===== src/Validate/Sending.antt =====
-- What is accepted for sending: individual values, properties, unsets and whole objects.
use astarte_device_sdk_rust.Common.{
  ℕ, suc, ◌+◌, ◌≡◌, refl, ap, ◌∙◌, Bool, false, not, ◌&&◌, Option, none, some, List, [], ◌∷◌, arith,
  length, is_ok, nat_eq, Str, str_beq, str_beq_iff, str_eq, option_eq, int_eq,
}
use astarte_device_sdk_rust.Common.Order.{
  Comparison, less, str_cmp, str_cmp_trans, str_cmp-equal, str_cmp-flip,
}
use astarte_device_sdk_rust.Foreign.{InterfaceApi, device, ownership_beq}
use astarte_device_sdk_rust.Interfaces.{MappingRef}
use astarte_device_sdk_rust.Object.{AstarteObject}
use astarte_device_sdk_rust.Object.Laws.{IsFresh, IsUnique}
use astarte_device_sdk_rust.Validate.{
  check_mappings, validate_object, validate_individual, validate_property, validate_unset,
  validate_timestamp, sort_fields, insert_field,
}
use astarte_device_sdk_rust.Validate.Merge.{
  IsBelow, AreSorted, AreOrdered, accepts, has_field, has_mapping, fields_fit, required_present,
  pairs-Decides,
}

-- A timestamp is given exactly if the mapping asks for one.
abbrev pub timestamp_fits : Option ℕ → Bool → Bool
timestamp_fits (some t) explicit = explicit
timestamp_fits none explicit = not explicit

validate_timestamp-fits :
    (t : Option ℕ) (explicit : Bool)
    → is_ok (validate_timestamp t explicit) ≡ timestamp_fits t explicit
unfolding validate_timestamp
validate_timestamp-fits (some t) explicit = ground arith
validate_timestamp-fits none explicit = ground arith

module _ {V : Type 0} where
  insert-IsBelow :
      (k : Str) (a : Str × V) (l : List (Str × V))
      → str_cmp k a.0 ≡ less
      → IsBelow k l
      → IsBelow k (insert_field a l)
  unfolding insert_field
  insert-IsBelow k a [] h b = (h, tt)
  insert-IsBelow k a (c ∷ l) h b = ground (arith, insert-IsBelow k a l h b.1)

  IsBelow-trans : (j k : Str) (l : List (Str × V)) → str_cmp j k ≡ less → IsBelow k l → IsBelow j l
  IsBelow-trans j k [] h b = tt
  IsBelow-trans j k (a ∷ l) h b = (str_cmp_trans j k a.0 h b.0, IsBelow-trans j k l h b.1)

  insert-AreSorted :
      (a : Str × V) (l : List (Str × V))
      → IsFresh a.0 l
      → AreSorted l
      → AreSorted (insert_field a l)
  unfolding insert_field
  insert-AreSorted a [] f s = (tt, tt)
  insert-AreSorted a (c ∷ l) f s = ground (
    arith,
    insert-AreSorted a l f.1 s.1,
    IsBelow-trans a.0 c.0 l,
    insert-IsBelow c.0 a l,
    str_cmp-flip a.0 c.0,
    str_cmp-equal a.0 c.0,
    str_beq_iff c.0 a.0,
  )

  insert-IsFresh :
      (k : Str) (a : Str × V) (l : List (Str × V))
      → str_beq a.0 k ≡ false
      → IsFresh k l
      → IsFresh k (insert_field a l)
  unfolding insert_field
  insert-IsFresh k a [] h f = (h, tt)
  insert-IsFresh k a (c ∷ l) h f = ground (arith, insert-IsFresh k a l h f.1)

  sort-IsFresh : (k : Str) (l : List (Str × V)) → IsFresh k l → IsFresh k (sort_fields l)
  unfolding sort_fields
  sort-IsFresh k [] f = tt
  sort-IsFresh k (a ∷ l) f = insert-IsFresh k a (sort_fields l) f.0 (sort-IsFresh k l f.1)

  -- Different names are sorted into rising ones.
  sort-AreSorted : (l : List (Str × V)) → IsUnique l → AreSorted (sort_fields l)
  unfolding sort_fields
  sort-AreSorted [] u = tt
  sort-AreSorted (a ∷ l) u =
      insert-AreSorted a (sort_fields l) (sort-IsFresh a.0 l u.0) (sort-AreSorted l u.1)

module _ {V O M : Type 0} (name : O → Str) (eq_mapping_type : V → M → Bool) (type_of : O → M)
    (required : O → Bool) where
  abbrev fit : List (Str × V) → List O → Bool
  fit = fields_fit name eq_mapping_type type_of required

  abbrev present : List (Str × V) → List O → Bool
  present = required_present name eq_mapping_type type_of required

  fit-insert :
      (a : Str × V) (l : List (Str × V)) (mappings : List O)
      → fit (insert_field a l) mappings ≡ fit (a ∷ l) mappings
  unfolding insert_field fields_fit
  fit-insert a [] mappings = refl
  fit-insert a (c ∷ l) mappings = ground (arith, fit-insert a l mappings)

  has_field-insert :
      (k : Str) (a : Str × V) (l : List (Str × V))
      → has_field name eq_mapping_type type_of required k (insert_field a l)
        ≡ has_field name eq_mapping_type type_of required k (a ∷ l)
  unfolding insert_field has_field
  has_field-insert k a [] = refl
  has_field-insert k a (c ∷ l) = ground (arith, has_field-insert k a l)

  present-insert :
      (a : Str × V) (l : List (Str × V)) (mappings : List O)
      → present (insert_field a l) mappings ≡ present (a ∷ l) mappings
  unfolding required_present
  present-insert a l [] = refl
  present-insert a l (b ∷ mappings) =
      rw (has_field-insert (name b) a l, present-insert a l mappings) refl

  has_field-cons :
      (k : Str) (a : Str × V) (l l' : List (Str × V))
      → has_field name eq_mapping_type type_of required k l
        ≡ has_field name eq_mapping_type type_of required k l'
      → has_field name eq_mapping_type type_of required k (a ∷ l)
        ≡ has_field name eq_mapping_type type_of required k (a ∷ l')
  unfolding has_field
  has_field-cons k a l l' e = rw e refl

  has_field-sort :
      (k : Str) (l : List (Str × V))
      → has_field name eq_mapping_type type_of required k (sort_fields l)
        ≡ has_field name eq_mapping_type type_of required k l
  unfolding sort_fields
  has_field-sort k [] = refl
  has_field-sort k (a ∷ l) =
      has_field-insert k a (sort_fields l)
      ∙ has_field-cons k a (sort_fields l) l (has_field-sort k l)

  fit-sort :
      (l : List (Str × V)) (mappings : List O) → fit (sort_fields l) mappings ≡ fit l mappings
  unfolding sort_fields fields_fit
  fit-sort [] mappings = refl
  fit-sort (a ∷ l) mappings =
      fit-insert a (sort_fields l) mappings
      ∙ ap (λ (b : Bool). has_mapping name eq_mapping_type type_of required a mappings && b)
          (fit-sort l mappings)

  present-sort :
      (l : List (Str × V)) (mappings : List O)
      → present (sort_fields l) mappings ≡ present l mappings
  unfolding required_present
  present-sort l [] = refl
  present-sort l (b ∷ mappings) = rw (has_field-sort (name b) l, present-sort l mappings) refl

  accepts-sort :
      (l : List (Str × V)) (mappings : List O)
      → accepts name eq_mapping_type type_of required (sort_fields l) mappings
        ≡ accepts name eq_mapping_type type_of required l mappings
  unfolding accepts
  accepts-sort l mappings = rw (fit-sort l mappings, present-sort l mappings) refl

module _ {V I M O : Type 0} (api : InterfaceApi I M) (iter_mappings : I → List O)
    (cmp : O → Str → Comparison) (eq_mapping_type : V → M → Bool) (type_of : O → M)
    (required : O → Bool) (name : O → Str)
    (compares : (b : O) (key : Str) → cmp b key ≡ str_cmp (name b) key) where
  check_mappings-accepts :
      (i : I) (fields : List (Str × V))
      → AreSorted fields
      → AreOrdered name eq_mapping_type type_of required (iter_mappings i)
      → is_ok (check_mappings api iter_mappings cmp eq_mapping_type type_of required i fields)
        ≡ accepts name eq_mapping_type type_of required fields (iter_mappings i)
  unfolding check_mappings
  check_mappings-accepts i fields s o =
      let (ps, e, d) =
        pairs-Decides name cmp eq_mapping_type type_of required compares
          (suc (length fields + length (iter_mappings i))) fields (iter_mappings i) s o
          (omega arith) in
      rw (e, check_mappings) d

  -- Where the mappings of an interface have rising names that the crate compares as strings, an
  -- object with different names is accepted for sending exactly if the interface is the device's, the
  -- path is one of its objects', the timestamp is given exactly if the interface asks for one, every
  -- field has a mapping of its name and type, and every required mapping has a field; in any order
  -- of the fields.
  pub validate_object-accepts :
      (i : I) (path : Str) (o : AstarteObject V) (timestamp : Option ℕ)
      → IsUnique o.inner
      → AreOrdered name eq_mapping_type type_of required (iter_mappings i)
      → is_ok (
          validate_object api iter_mappings cmp eq_mapping_type type_of required i path o timestamp)
        ≡ (ownership_beq (api.ownership i) device
            && (api.is_object_path i path
                && (timestamp_fits timestamp (api.object_timestamp i)
                    && accepts name eq_mapping_type type_of required o.inner (iter_mappings i))))
  unfolding validate_object
  validate_object-accepts i path o timestamp u ordered = ground (
    arith,
    check_mappings-accepts i (sort_fields o.inner) (sort-AreSorted o.inner u) ordered,
    accepts-sort name eq_mapping_type type_of required o.inner (iter_mappings i),
    validate_timestamp-fits timestamp (api.object_timestamp i),
  )

module _ {V I M : Type 0} (api : InterfaceApi I M) (eq_mapping_type : V → M → Bool) where
  -- An individual value is accepted for sending exactly if the interface is the device's, the value
  -- has the mapping's type, and a timestamp is given exactly if the mapping asks for one; a property
  -- exactly if the first two hold; an unset exactly if the interface is the device's and the mapping
  -- allows it.
  pub validate-accepts :
      (r : MappingRef I M) (value : V) (timestamp : Option ℕ)
      → let own = ownership_beq (api.ownership r.interface) device in
        let typed = eq_mapping_type value r.mapping.mapping_type in
        (is_ok (validate_individual api eq_mapping_type r value timestamp)
          ≡ (own && (typed && timestamp_fits timestamp r.mapping.explicit_timestamp)))
        × (is_ok (validate_property api eq_mapping_type r value) ≡ (own && typed))
        × (is_ok (validate_unset api r) ≡ (own && r.mapping.allow_unset))
  unfolding validate_individual validate_property validate_unset
  validate-accepts r value timestamp =
      ground (arith, validate_timestamp-fits timestamp r.mapping.explicit_timestamp)
