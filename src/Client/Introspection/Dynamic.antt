-- ===== src/Client/Introspection/Dynamic.antt =====
-- The dynamic introspection of src/client/introspection.rs: nothing changes unless a change was
-- announced, and an interface that is removed leaves nothing behind.
use astarte_device_sdk_rust.Common.{
  ℕ, ◌≡◌, refl, subst, ◌⊎◌, Bool, true, false, Option, none, some, [], ◌∷◌, arith, if◌then◌else◌,
  Result, ok, err, ◌==◌, nat_eq, Str, str_beq_iff, str_eq, option_eq, int_eq, int_ltb,
}
use astarte_device_sdk_rust.Common.Map.{lookup, remove, lookup-remove}
use astarte_device_sdk_rust.Error.{ErrorKind}
use astarte_device_sdk_rust.Foreign.{InterfaceApi, Retention}
use astarte_device_sdk_rust.Interfaces.{Interfaces}
use astarte_device_sdk_rust.Interfaces.Introspection.{IsNamed}
use astarte_device_sdk_rust.Store.Memory.{key_eq}
use astarte_device_sdk_rust.Retention.Stored.{Database}
use astarte_device_sdk_rust.Transport.{Outcome, Register}
use astarte_device_sdk_rust.Client.Introspection.{
  Device, announce, finish_remove, remove_interface, remove_found,
}
use astarte_device_sdk_rust.Client.Introspection.Cleaning.{
  delete_stored, IsStoredSame, IsCleaned, IsCleaned-resent, cleanup, cleanup-IsCleaned,
}

module _ {I M : Type 0} (api : InterfaceApi I M) where
  -- The interface may be added: it is new, or a valid update of the one that the device has; the flag
  -- says whether its major version is higher than that one's.
  abbrev pub IsAccepted : Interfaces I → I → Bool → Type 0
  IsAccepted m i major =
      ((lookup (api.interface_name i) m ≡ none) × (major ≡ false))
      ⊎ ((prev : I) × (lookup (api.interface_name i) m ≡ some prev)
          × (api.same i prev ≡ false)
          × (api.is_valid_update i prev ≡ true)
          × (major ≡ int_ltb (api.version_major prev) (api.version_major i)))

  lookup-IsNamed :
      (name : Str) (i : I) (m : Interfaces I)
      → IsNamed api m
      → lookup name m ≡ some i
      → api.interface_name i ≡ name
  unfolding lookup
  lookup-IsNamed name i [] n h = cc
  lookup-IsNamed name i ((k, j) ∷ m) n h =
      ground (arith, n, h, lookup-IsNamed name i m n.1, str_beq_iff k name)

module _ {I M S V T : Type 0} (api : InterfaceApi I M) (as_expiry : Retention → Option ℕ)
    (register : Register S I T) (clock : Str → ℕ) where
  -- What a call that adds an interface did, by its result.
  abbrev pub AddedOr :
      Device I S Database V → I → Result (ErrorKind T) Bool × Device I S Database V → Type 0
  AddedOr d i (ok true, d') =
      (major : Bool) × IsAccepted api d.interfaces i major
      × ((name : Str)
          → lookup name d'.interfaces
            ≡ (if api.interface_name i == name then some i else lookup name d.interfaces))
      × (if major
          then IsCleaned as_expiry clock (api.aggregation i) (api.interface_name i) d d'
          else IsStoredSame d d')
  AddedOr d i (ok false, d') =
      ((prev : I) × (lookup (api.interface_name i) d.interfaces ≡ some prev)
        × (api.same i prev ≡ true))
      × (d'.interfaces ≡ d.interfaces)
      × IsStoredSame d d'
  AddedOr d i (err e, d') = (d'.interfaces ≡ d.interfaces) × IsStoredSame d d'

  -- What a call that removes an interface did, by its result.
  abbrev pub RemovedOr :
      Device I S Database V → Str → Result (ErrorKind T) Bool × Device I S Database V → Type 0
  RemovedOr d name (ok true, d') =
      (i : I) × (lookup name d.interfaces ≡ some i)
      × ((other : Str)
          → lookup other d'.interfaces
            ≡ (if name == other then none else lookup other d.interfaces))
      × IsCleaned as_expiry clock (api.aggregation i) name d d'
  RemovedOr d name (_, d') = (d'.interfaces ≡ d.interfaces) × IsStoredSame d d'

  announce-RemovedOr :
      (d : Device I S Database V) (i : I) (name : Str) (sent : Outcome T S)
      → lookup name d.interfaces ≡ some i
      → api.interface_name i ≡ name
      → RemovedOr d name (
          announce api as_expiry delete_stored register clock sent d true
            (λ d'. finish_remove api as_expiry delete_stored register clock d' name i))
  unfolding announce finish_remove cleanup
  announce-RemovedOr d i name (err e, s) h n = (refl, (refl, refl, refl))
  announce-RemovedOr d i name (ok _, s) h n =
      let sent : Device I S Database V = record d { sender = s } in
      (
        i,
        h,
        λ other. lookup-remove name other d.interfaces,
        IsCleaned-resent api as_expiry register clock (api.aggregation i) name d
            (cleanup api as_expiry register clock sent i) s (remove name d.interfaces)
            (subst
              (λ k.
                IsCleaned as_expiry clock (api.aggregation i) k sent
                  (cleanup api as_expiry register clock sent i))
              n (cleanup-IsCleaned api as_expiry register clock sent i)),
      )

  remove_found-RemovedOr :
      (d : Device I S Database V) (name : Str) (o : Option I)
      → IsNamed api d.interfaces
      → lookup name d.interfaces ≡ o
      → RemovedOr d name (remove_found api as_expiry delete_stored register clock d name o)
  unfolding remove_found
  remove_found-RemovedOr d name none n h = (refl, (refl, refl, refl))
  remove_found-RemovedOr d name (some i) n h =
      announce-RemovedOr d i name (register.remove_interface d.interfaces i d.sender) h
        (lookup-IsNamed api name i d.interfaces n h)

  -- Removing an interface, where each stands under its own name and the store has the retention in
  -- SQLite, or none: unless the call says that it was removed, errors included, the interfaces and
  -- everything stored stay as they were. Otherwise the device had an interface of that name; no
  -- interface has the name any more, every other name has the interface that it had, and exactly what
  -- was stored of the interface is gone, and expired volatile publishes with it where it has a
  -- datastream.
  pub remove_interface-RemovedOr :
      (d : Device I S Database V) (name : Str)
      → IsNamed api d.interfaces
      → RemovedOr d name (remove_interface api as_expiry delete_stored register clock d name)
  unfolding remove_interface
  remove_interface-RemovedOr d name n =
      remove_found-RemovedOr d name (lookup name d.interfaces) n refl
