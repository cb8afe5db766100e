-- ===== src/Validate/Merge.antt =====
-- The merge of src/validate/object.rs decides what it is meant to decide: every field has a mapping
-- of its name and type, and every required mapping has a field.
use astarte_device_sdk_rust.Common.{
  is_ok, ℕ, zero, suc, ◌+◌, ◌<◌, ◌≡◌, refl, ◌⊎◌, inl, inr, Bool, true, false, not, ◌&&◌, ◌||◌, none,
  some, List, [], ◌∷◌, arith, if◌then◌else◌, length, nat_eq, Str, str_beq, str_beq_iff, str_eq,
  option_eq, int_eq,
}
use astarte_device_sdk_rust.Common.Order.{
  Comparison, less, equal, greater, str_cmp, str_cmp_trans, str_cmp-equal, str_cmp-flip, str_cmp-ne,
}
use astarte_device_sdk_rust.Validate.{Pair, next, pairs, check_pair, check_pairs}

-- The name is below the names of all the fields.
abbrev pub IsBelow : {V : Type 0} → Str → List (Str × V) → Type 0
IsBelow k [] = Unit
IsBelow k (a ∷ fields) = (str_cmp k a.0 ≡ less) × IsBelow k fields

-- The names of the fields rise.
abbrev pub AreSorted : {V : Type 0} → List (Str × V) → Type 0
AreSorted [] = Unit
AreSorted (a ∷ fields) = IsBelow a.0 fields × AreSorted fields

module _ {V O M : Type 0} (name : O → Str) (eq_mapping_type : V → M → Bool) (type_of : O → M)
    (required : O → Bool) where
  -- The names of the mappings rise.
  abbrev pub IsUnder : Str → List O → Type 0
  IsUnder k [] = Unit
  IsUnder k (b ∷ mappings) = (str_cmp k (name b) ≡ less) × IsUnder k mappings

  abbrev pub AreOrdered : List O → Type 0
  AreOrdered [] = Unit
  AreOrdered (b ∷ mappings) = IsUnder (name b) mappings × AreOrdered mappings

  -- Some mapping has the name of the field, and the first of them its type.
  unfoldable pub has_mapping : Str × V → List O → Bool
  has_mapping a [] = false
  has_mapping a (b ∷ mappings) =
      if str_beq (name b) a.0 then eq_mapping_type a.1 (type_of b) else has_mapping a mappings

  unfoldable pub has_field : Str → List (Str × V) → Bool
  has_field k [] = false
  has_field k (a ∷ fields) = if str_beq a.0 k then true else has_field k fields

  unfoldable pub fields_fit : List (Str × V) → List O → Bool
  fields_fit [] mappings = true
  fields_fit (a ∷ fields) mappings = has_mapping a mappings && fields_fit fields mappings

  unfoldable pub required_present : List (Str × V) → List O → Bool
  required_present fields [] = true
  required_present fields (b ∷ mappings) =
      (not (required b) || has_field (name b) fields) && required_present fields mappings

  -- What an object with these mappings has to satisfy, with no reference to any order.
  unfoldable pub accepts : List (Str × V) → List O → Bool
  unfolding fields_fit required_present has_mapping has_field
  accepts fields mappings = fields_fit fields mappings && required_present fields mappings

  has_mapping-under :
      (a : Str × V) (mappings : List O) → IsUnder a.0 mappings → has_mapping a mappings ≡ false
  unfolding has_mapping
  has_mapping-under a [] h = refl
  has_mapping-under a (b ∷ mappings) h = ground (
    arith,
    has_mapping-under a mappings h.1,
    str_cmp-ne a.0 (name b) h.0,
    str_beq_iff (name b) a.0,
    str_beq_iff a.0 (name b),
  )

  has_field-below :
      (k : Str) (fields : List (Str × V)) → IsBelow k fields → has_field k fields ≡ false
  unfolding has_field
  has_field-below k [] h = refl
  has_field-below k (a ∷ fields) h = ground (
    arith,
    has_field-below k fields h.1,
    str_cmp-ne k a.0 h.0,
    str_beq_iff k a.0,
    str_beq_iff a.0 k,
  )

  -- A mapping below all the fields matters to none of them.
  fields_fit-below :
      (b : O) (fields : List (Str × V)) (mappings : List O)
      → IsBelow (name b) fields
      → fields_fit fields (b ∷ mappings) ≡ fields_fit fields mappings
  unfolding fields_fit has_mapping
  fields_fit-below b [] mappings h = refl
  fields_fit-below b (a ∷ fields) mappings h =
      ground (arith, fields_fit-below b fields mappings h.1, str_cmp-ne (name b) a.0 h.0)

  -- A field below all the mappings is required by none of them.
  required-under :
      (a : Str × V) (fields : List (Str × V)) (mappings : List O)
      → IsUnder a.0 mappings
      → required_present (a ∷ fields) mappings ≡ required_present fields mappings
  unfolding required_present has_field
  required-under a fields [] h = refl
  required-under a fields (b ∷ mappings) h =
      ground (arith, required-under a fields mappings h.1, str_cmp-ne a.0 (name b) h.0)

  IsBelow-trans :
      (j k : Str) (fields : List (Str × V))
      → str_cmp j k ≡ less
      → IsBelow k fields
      → IsBelow j fields
  IsBelow-trans j k [] h b = tt
  IsBelow-trans j k (a ∷ fields) h b = (str_cmp_trans j k a.0 h b.0, IsBelow-trans j k fields h b.1)

  IsUnder-trans :
      (j k : Str) (mappings : List O) → str_cmp j k ≡ less → IsUnder k mappings → IsUnder j mappings
  IsUnder-trans j k [] h b = tt
  IsUnder-trans j k (a ∷ mappings) h b =
      (str_cmp_trans j k (name a) h b.0, IsUnder-trans j k mappings h b.1)

  accepts-nil-cons :
      (b : O) (mappings : List O)
      → accepts [] (b ∷ mappings) ≡ (not (required b) && accepts [] mappings)
  unfolding accepts
  accepts-nil-cons b mappings = ground arith

  accepts-cons-nil : (a : Str × V) (fields : List (Str × V)) → accepts (a ∷ fields) [] ≡ false
  unfolding accepts
  accepts-cons-nil a fields = refl

  accepts-less :
      (a : Str × V) (b : O) (fields : List (Str × V)) (mappings : List O)
      → AreSorted (a ∷ fields)
      → str_cmp (name b) a.0 ≡ less
      → accepts (a ∷ fields) (b ∷ mappings) ≡ (not (required b) && accepts (a ∷ fields) mappings)
  unfolding accepts
  accepts-less a b fields mappings s h =
      let below = IsBelow-trans (name b) a.0 fields h s.0 in
      ground (
        arith,
        fields_fit-below b fields mappings below,
        has_field-below (name b) fields below,
        str_cmp-ne (name b) a.0 h,
        str_beq_iff a.0 (name b),
        str_beq_iff (name b) a.0,
      )

  accepts-equal :
      (a : Str × V) (b : O) (fields : List (Str × V)) (mappings : List O)
      → AreSorted (a ∷ fields)
      → AreOrdered (b ∷ mappings)
      → str_cmp (name b) a.0 ≡ equal
      → accepts (a ∷ fields) (b ∷ mappings)
        ≡ (eq_mapping_type a.1 (type_of b) && accepts fields mappings)
  unfolding accepts
  accepts-equal a b fields mappings s o h =
      let e : name b ≡ a.0 = str_cmp-equal (name b) a.0 h in
      ground (
        arith,
        fields_fit-below b fields mappings (rw e s.0),
        required-under a fields mappings (rw (← e) o.0),
        str_beq_iff a.0 (name b),
        str_beq_iff (name b) a.0,
      )

  accepts-greater :
      (a : Str × V) (b : O) (fields : List (Str × V)) (mappings : List O)
      → AreOrdered (b ∷ mappings)
      → str_cmp (name b) a.0 ≡ greater
      → accepts (a ∷ fields) (b ∷ mappings) ≡ false
  unfolding accepts
  accepts-greater a b fields mappings o h =
      let before = str_cmp-flip (name b) a.0 h in
      ground (
        arith,
        has_mapping-under a mappings (IsUnder-trans a.0 (name b) mappings before o.0),
        str_cmp-ne a.0 (name b) before,
        str_beq_iff a.0 (name b),
        str_beq_iff (name b) a.0,
      )

Comparison-cases : (c : Comparison) → (c ≡ less) ⊎ (c ≡ equal) ⊎ (c ≡ greater)
Comparison-cases less = inl refl
Comparison-cases equal = inr (inl refl)
Comparison-cases greater = inr (inr refl)

module _ {V O M : Type 0} (name : O → Str) (cmp : O → Str → Comparison)
    (eq_mapping_type : V → M → Bool) (type_of : O → M) (required : O → Bool)
    (compares : (b : O) (key : Str) → cmp b key ≡ str_cmp (name b) key) where
  abbrev pub accepted : List (Str × V) → List O → Bool
  accepted = accepts name eq_mapping_type type_of required

  abbrev pub passes : Pair V O → Bool
  passes p = is_ok (check_pair eq_mapping_type type_of required p)

  check_pairs-cons :
      (p : Pair V O) (ps : List (Pair V O))
      → is_ok (check_pairs eq_mapping_type type_of required (p ∷ ps))
        ≡ (passes p && is_ok (check_pairs eq_mapping_type type_of required ps))
  unfolding check_pairs
  check_pairs-cons (none, none) ps = refl
  check_pairs-cons (some a, none) ps = refl
  check_pairs-cons (none, some b) ps = ground arith
  check_pairs-cons (some a, some b) ps = ground arith

  -- The iterator ends within the fuel, and the check of its items decides `accepts`.
  abbrev pub Decides : ℕ → List (Str × V) → List O → Type 0
  Decides fuel fields mappings =
      (ps : List (Pair V O)) × (pairs cmp fuel fields mappings ≡ some ps)
      × (is_ok (check_pairs eq_mapping_type type_of required ps) ≡ accepted fields mappings)

  Decides-step :
      (fuel : ℕ) (fields fields' : List (Str × V)) (mappings mappings' : List O) (p : Pair V O)
      → next cmp fields mappings ≡ some (p, fields', mappings')
      → accepted fields mappings ≡ (passes p && accepted fields' mappings')
      → Decides fuel fields' mappings'
      → Decides (suc fuel) fields mappings
  unfolding pairs
  Decides-step fuel fields fields' mappings mappings' p e a (ps, f, d) =
      (p ∷ ps, ground arith, ground (arith, check_pairs-cons p ps))

  pub pairs-Decides :
      (fuel : ℕ) (fields : List (Str × V)) (mappings : List O)
      → AreSorted fields
      → AreOrdered name eq_mapping_type type_of required mappings
      → length fields + length mappings < fuel
      → Decides fuel fields mappings
  unfolding next check_pair
  pairs-Decides zero fields mappings s o h = elim h [ ]
  pairs-Decides (suc fuel) [] [] s o h =
      ([], unfold pairs in refl, unfold check_pairs accepts in refl)
  pairs-Decides (suc fuel) [] (b ∷ mappings) s o h =
      Decides-step fuel [] [] (b ∷ mappings) mappings (none, some b) refl
        (ground (arith, accepts-nil-cons name eq_mapping_type type_of required b mappings))
        (pairs-Decides fuel [] mappings s o.1 (omega arith))
  pairs-Decides (suc fuel) (a ∷ fields) [] s o h =
      Decides-step fuel (a ∷ fields) fields [] [] (some a, none) refl
        (accepts-cons-nil name eq_mapping_type type_of required a fields)
        (pairs-Decides fuel fields [] s.1 o (omega arith))
  pairs-Decides (suc fuel) (a ∷ fields) (b ∷ mappings) s o h =
      elim (Comparison-cases (str_cmp (name b) a.0)) [
        | inl lt ↦
            Decides-step fuel (a ∷ fields) (a ∷ fields) (b ∷ mappings) mappings (none, some b)
              (ground (arith, compares b a.0))
              (ground (
                arith,
                accepts-less name eq_mapping_type type_of required a b fields mappings s lt,
              ))
              (pairs-Decides fuel (a ∷ fields) mappings s o.1 (omega arith))
        | inr (inl eq) ↦
            Decides-step fuel (a ∷ fields) fields (b ∷ mappings) mappings (some a, some b)
              (ground (arith, compares b a.0))
              (ground (
                arith,
                accepts-equal name eq_mapping_type type_of required a b fields mappings s o eq,
              ))
              (pairs-Decides fuel fields mappings s.1 o.1 (omega arith))
        | inr (inr gt) ↦
            Decides-step fuel (a ∷ fields) fields (b ∷ mappings) (b ∷ mappings) (some a, none)
              (ground (arith, compares b a.0))
              (accepts-greater name eq_mapping_type type_of required a b fields mappings o gt)
              (pairs-Decides fuel fields (b ∷ mappings) s.1 o (omega arith))
      ]
