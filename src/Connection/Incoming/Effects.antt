-- ===== src/Connection/Incoming/Effects.antt =====
-- What handling a received event in src/connection/incoming.rs does to the property store.
use astarte_device_sdk_rust.Common.{
  ℕ, ◌≡◌, refl, sym, subst, inl, inr, Bool, true, false, Option, none, some, arith, if◌then◌else◌,
  Bool-cases, Option-cases, Result, ok, err, ◌>>=◌, ensure, ◌==◌, nat_eq, Str, str_eq, option_eq,
  int_eq,
}
use astarte_device_sdk_rust.Common.Map.{lookup, lookup-insert, lookup-remove}
use astarte_device_sdk_rust.Error
use astarte_device_sdk_rust.Error.{ErrorKind}
use astarte_device_sdk_rust.Foreign.{
  InterfaceApi, Aggregation, device, datastream_individual, datastream_object, properties,
  ownership_beq,
}
use astarte_device_sdk_rust.Interfaces.{Interfaces, MappingRef, mapping_ref}
use astarte_device_sdk_rust.Store.{changed}
use astarte_device_sdk_rust.Store.Memory.{Memory, Key, key_eq, store_prop, delete_prop}
use astarte_device_sdk_rust.Connection.Incoming.{
  Value, individual, object, property, ReceivedEvent, Deserializers, mapping_of_path,
  validate_timestamp, mapping_property, prop_from_mapping, apply_property, property_read,
  property_mapped, handle_property, handle_individual, handle_object, handle_variant, handle_found,
  handle_event,
}

module _ {I M P V T : Type 0} (api : InterfaceApi I M) (receive : Deserializers I M P V T)
    (is_path : Str → Bool) (debug : Bool) (now : ℕ) where
  abbrev key_at : I → Str → Key
  key_at i path = record { interface = api.interface_name i; path = path }

  -- What handling did to the store `s`, of an interface with that variant and for a path, by its
  -- result: an error and a datastream leave it, a received property is the value of its path and
  -- waits as changed, an unset one has none, which its mapping allows. Every other path is as it was.
  abbrev pub Affects :
      I → Str → Aggregation → Memory V → Result (ErrorKind T) (Value V) × Memory V → Type 0
  Affects i path a s (err e, s') = s' ≡ s
  Affects i path a s (ok (individual v t), s') = (a ≡ datastream_individual) × (s' ≡ s)
  Affects i path a s (ok (object o t), s') = (a ≡ datastream_object) × (s' ≡ s)
  Affects i path a s (ok (property (some v)), s') =
      (a ≡ properties)
      × ((key : Key)
          → lookup key s' ≡ (
              if key_at i path == key
              then some (record {
                value = some v;
                interface_major = api.version_major i;
                ownership = api.ownership i;
                state = changed;
              })
              else lookup key s))
  Affects i path a s (ok (property none), s') =
      (a ≡ properties)
      × ((m : _) × (mapping_ref api i path ≡ ok m) × (m.mapping.allow_unset ≡ true))
      × ((key : Key) → lookup key s' ≡ (if key_at i path == key then none else lookup key s))

  mapping_ref-fields :
      (i : I) (path : Str) (r : MappingRef I M)
      → mapping_of_path api receive is_path debug now i path ≡ ok r
      → (mapping_ref api i path ≡ ok r) × (r.interface ≡ i) × (r.path ≡ path)
  unfolding mapping_of_path mapping_ref
  mapping_ref-fields i path r h = elim (Option-cases (api.mapping i path)) [
    | inl n ↦ ground (arith, h, n)
    | inr (m, e) ↦ ground (arith, h, e)
  ]

  apply_property-Affects :
      (r : MappingRef I M) (value : Option V) (s : Memory V)
      → mapping_ref api r.interface r.path ≡ ok r
      → Affects r.interface r.path properties s
          (apply_property api receive is_path debug now r value s)
  unfolding apply_property store_prop delete_prop mapping_property prop_from_mapping
  apply_property-Affects r (some v) s h =
      (refl, λ key. lookup-insert (key_at r.interface r.path) key _ s)
  apply_property-Affects r none s h = elim (Bool-cases r.mapping.allow_unset) [
    | inl e ↦ rw e (refl, (r, h, e), λ key. lookup-remove (key_at r.interface r.path) key s)
    | inr e ↦ rw e refl
  ]

  property-Affects :
      (i : I) (path : Str) (payload : P) (s : Memory V) (o : Result (ErrorKind T) (MappingRef I M))
      → mapping_of_path api receive is_path debug now i path ≡ o
      → Affects i path properties s (property_mapped api receive is_path debug now payload s o)
  unfolding property_mapped property_read
  property-Affects i path payload s (err e) h = refl
  property-Affects i path payload s (ok r) h = go (receive.deserialize_property r payload)
    where
      go :
          (read : Result (ErrorKind T) (Option V))
          → Affects i path properties s (property_read api receive is_path debug now r s read)
      go (err e) = refl
      go (ok value) =
          let (found, same, same_path) = mapping_ref-fields i path r h in
          subst
            (λ j.
              mapping_ref api j r.path ≡ ok r
              → Affects j path properties s
                  (apply_property api receive is_path debug now r value s))
            same
            (subst
              (λ p.
                mapping_ref api r.interface r.path ≡ ok r
                → Affects r.interface p properties s
                    (apply_property api receive is_path debug now r value s))
              same_path (apply_property-Affects r value s))
            (subst (λ p. mapping_ref api i p ≡ ok r) (sym same_path) found)

  bind-Affects :
      {A : Type 0} (i : I) (path : Str) (a : Aggregation) (s : Memory V)
      (m : Result (ErrorKind T) A) (f : A → Result (ErrorKind T) (Value V))
      → ((x : A) → Affects i path a s (f x, s))
      → Affects i path a s (m >>= f, s)
  bind-Affects i path a s (err e) f h = refl
  bind-Affects i path a s (ok x) f h = h x

  variant-Affects :
      (i : I) (path : Str) (payload : P) (s : Memory V) (a : Aggregation)
      → Affects i path a s (handle_variant api receive is_path debug now i path payload s a)
  unfolding handle_variant handle_individual handle_object handle_property
  variant-Affects i path payload s datastream_individual =
      bind-Affects i path datastream_individual s
        (mapping_of_path api receive is_path debug now i path) _
        (λ r.
          bind-Affects i path datastream_individual s (receive.deserialize_individual r payload) _
            (λ x.
              bind-Affects i path datastream_individual s
                (validate_timestamp debug now r.mapping.explicit_timestamp x.1) _
                (λ t. (refl, refl))))
  variant-Affects i path payload s datastream_object =
      bind-Affects i path datastream_object s
        (ensure (api.is_object_path i path) (Error.interface Error.object_path)) _
        (λ _.
          bind-Affects i path datastream_object s (receive.deserialize_object i path payload) _
            (λ x.
              bind-Affects i path datastream_object s
                (validate_timestamp debug now (api.object_timestamp i) x.1) _ (λ t. (refl, refl))))
  variant-Affects i path payload s properties =
      property-Affects i path payload s (mapping_of_path api receive is_path debug now i path) refl

  -- What handling an event did: an error leaves the store; otherwise the path is one, the interface
  -- is there, is not the device's own, and its variant decides what the store is then.
  abbrev pub EventAffects :
      Interfaces I → ReceivedEvent P → Memory V → Result (ErrorKind T) (Value V) × Memory V → Type 0
  EventAffects interfaces event s (err e, s') = s' ≡ s
  EventAffects interfaces event s (ok value, s') =
      (i : I) × (lookup event.interface interfaces ≡ some i)
      × (is_path event.path ≡ true)
      × (ownership_beq (api.ownership i) device ≡ false)
      × Affects i event.path (api.aggregation i) s (ok value, s')

  Affects-EventAffects :
      (interfaces : Interfaces I) (event : ReceivedEvent P) (s : Memory V) (i : I)
      (o : Result (ErrorKind T) (Value V) × Memory V)
      → lookup event.interface interfaces ≡ some i
      → is_path event.path ≡ true
      → ownership_beq (api.ownership i) device ≡ false
      → Affects i event.path (api.aggregation i) s o
      → EventAffects interfaces event s o
  Affects-EventAffects interfaces event s i (err e, s') f p n h = h
  Affects-EventAffects interfaces event s i (ok value, s') f p n h = (i, f, p, n, h)

  found-EventAffects :
      (interfaces : Interfaces I) (event : ReceivedEvent P) (s : Memory V) (o : Option I)
      → lookup event.interface interfaces ≡ o
      → is_path event.path ≡ true
      → EventAffects interfaces event s (handle_found api receive is_path debug now event s o)
  unfolding handle_found
  found-EventAffects interfaces event s none f p = refl
  found-EventAffects interfaces event s (some i) f p =
      elim (Bool-cases (ownership_beq (api.ownership i) device)) [
        | inl e ↦ rw e refl
        | inr e ↦ rw e (
            Affects-EventAffects interfaces event s i
              (handle_variant api receive is_path debug now i event.path event.payload s
                (api.aggregation i))
              f p e (variant-Affects i event.path event.payload s (api.aggregation i)))
      ]

  -- Handling an event: an error leaves the store as it was. Otherwise the path is well formed, the
  -- device has the interface, which is not its own, and the result is of the interface's variant. A
  -- datastream leaves the store; a received property is then the value of its path, of the
  -- interface's major version and ownership; an unset one, which its mapping allows, has no value;
  -- every other path is as it was.
  pub handle_event-EventAffects :
      (interfaces : Interfaces I) (event : ReceivedEvent P) (s : Memory V)
      → EventAffects interfaces event s
          (handle_event api receive is_path debug now interfaces event s)
  unfolding handle_event
  handle_event-EventAffects interfaces event s = elim (Bool-cases (is_path event.path)) [
    | inl e ↦
        rw e (found-EventAffects interfaces event s (lookup event.interface interfaces) refl e)
    | inr e ↦ rw e refl
  ]
