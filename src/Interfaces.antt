-- ===== src/Interfaces.antt =====
-- src/interfaces.rs: the collection of the device's interfaces, by name, and the introspection that
-- the device sends. `I` is the crate's `Interface` and `api` its methods; versions are shown by
-- `show_version`, the standard library's `Display` of an `i32`. The contexts of errors are left out.
pub mod Introspection
use astarte_device_sdk_rust.Common.{
  any, [], Bool, false, not, Option, none, some, List, ◌∷◌, ◌++◌, map, if◌then◌else◌, retain,
  Result, ok, err, ◌>>=◌, ◌>>◌, ok_or, nat_eq, Str, str_beq, str_eq, option_eq, ℤ, int_eq, int_ltb,
}
use astarte_device_sdk_rust.Common.Map.{lookup, insert, remove}
use astarte_device_sdk_rust.Error
use astarte_device_sdk_rust.Error.{InterfaceError}
use astarte_device_sdk_rust.Foreign.{
  InterfaceApi, Mapping, Aggregation, datastream_individual, datastream_object, properties,
}

abbrev pub Interfaces : Type 0 → Type 0
Interfaces I = List (Str × I)

pub record Validated (I : Type 0) : Type 0 where
  pub interface : I
  pub major_change : Bool

-- An interface, a path and the mapping of that path in the interface.
pub record MappingRef (I M : Type 0) : Type 0 where
  pub interface : I
  pub mapping : Mapping M
  pub path : Str

abbrev pub values : {I : Type 0} → Interfaces I → List I
values m = map (λ e. e.1) m

module _ {I M : Type 0} (api : InterfaceApi I M) where
  unfoldable pub add : Interfaces I → Validated I → Interfaces I
  add m v = insert (api.interface_name v.interface) v.interface m

  -- `validate`: `none` if the interface is there already, as it is.
  unfoldable pub validate : Interfaces I → I → Result InterfaceError (Option (Validated I))
  validate m i = elim (lookup (api.interface_name i) m) [
    | none ↦ ok (some (record { interface = i; major_change = false }))
    | some prev ↦
        if api.same i prev
        then ok none
        else if not (api.is_valid_update i prev)
        then err Error.invalid
        else ok (
            some (record {
              interface = i;
              major_change = int_ltb (api.version_major prev) (api.version_major i);
            }))
  ]

  unfoldable pub remove_many : Interfaces I → List Str → Interfaces I
  remove_many m [] = m
  remove_many m (name ∷ rest) = remove_many (remove name m) rest

  -- `validate_many`: the first error ends it; a later interface of a name replaces an earlier one.
  unfoldable pub validate_many :
      Interfaces I → List I → Result InterfaceError (List (Str × Validated I))
  unfolding validate
  validate_many m [] = ok []
  validate_many m (i ∷ rest) = do
    v ← validate m i
    vs ← validate_many m rest
    elim v [
      | none ↦ ok vs
      | some w ↦ elim (lookup (api.interface_name i) vs) [
        | some _ ↦ ok vs
        | none ↦ ok ((api.interface_name i, w) ∷ vs)
      ]
    ]

  -- `extend`: the validated ones replace those of their name.
  unfoldable pub extend : Interfaces I → List (Str × Validated I) → Interfaces I
  extend m [] = m
  extend m ((name, v) ∷ rest) = extend (insert name v.interface m) rest

  unfoldable pub get_object : Interfaces I → Str → Str → Result InterfaceError I
  get_object m name path = do
    i ← ok_or (lookup name m) Error.interface_not_found
    elim (api.aggregation i) [
      | datastream_individual ↦ err Error.aggregation
      | datastream_object ↦ if not (api.is_object_path i path) then err Error.object_path else ok i
      | properties ↦ err Error.interface_type
    ]

  unfoldable pub mapping_ref : I → Str → Result InterfaceError (MappingRef I M)
  mapping_ref i path = do
    mapping ← ok_or (api.mapping i path) Error.mapping_not_found
    ok (record { interface = i; mapping = mapping; path = path })

  unfoldable pub get_individual : Interfaces I → Str → Str → Result InterfaceError (MappingRef I M)
  unfolding mapping_ref
  get_individual m name path = do
    i ← ok_or (lookup name m) Error.interface_not_found
    elim (api.aggregation i) [
      | datastream_individual ↦ mapping_ref i path
      | datastream_object ↦ err Error.aggregation
      | properties ↦ err Error.interface_type
    ]

  unfoldable pub get_property : Interfaces I → Str → Str → Result InterfaceError (MappingRef I M)
  unfolding mapping_ref
  get_property m name path = do
    i ← ok_or (lookup name m) Error.interface_not_found
    elim (api.aggregation i) [
      | datastream_individual ↦ err Error.interface_type
      | datastream_object ↦ err Error.interface_type
      | properties ↦ mapping_ref i path
    ]

  -- The interfaces that `add_interface` and `remove_interface` announce.
  unfoldable pub iter_with_added : Interfaces I → Validated I → List I
  iter_with_added m added = values m ++ added.interface ∷ []

  unfoldable pub iter_with_added_many : Interfaces I → List (Str × Validated I) → List I
  iter_with_added_many m added = values m ++ map (λ e. e.1.interface) added

  unfoldable pub iter_without_removed : Interfaces I → I → List I
  iter_without_removed m removed =
      retain (λ i. not (str_beq (api.interface_name i) (api.interface_name removed))) (values m)

  unfoldable pub iter_without_removed_many : Interfaces I → List (Str × I) → List I
  iter_without_removed_many m removed =
      retain (λ i. not (any (λ e. str_beq e.0 (api.interface_name i)) removed)) (values m)

  -- `DeviceIntrospection`: `name:major:minor`, with ';' between.
  unfoldable pub entry : (ℤ → Str) → I → Str
  entry show_version i =
      api.interface_name i
      ++ b':' ∷ show_version (api.version_major i)
      ++ b':' ∷ show_version (api.version_minor i)

  rest_entries : (ℤ → Str) → List I → Str
  unfolding entry
  rest_entries show_version [] = []
  rest_entries show_version (i ∷ rest) =
      b';' ∷ entry show_version i ++ rest_entries show_version rest

  unfoldable pub introspection : (ℤ → Str) → List I → Str
  unfolding rest_entries
  introspection show_version [] = []
  introspection show_version (i ∷ rest) = entry show_version i ++ rest_entries show_version rest
