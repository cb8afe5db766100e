-- ===== src/Tests/Parts.antt =====
-- Examples for the back-off, the object, the identifiers, the volatile store, the interfaces and the
-- validation.
use astarte_device_sdk_rust.Common.{
  ℕ, ◌+◌, ◌-◌, ◌*◌, ◌/◌, ◌^◌, ◌≤◌, ◌≡◌, refl, Bool, true, false, not, ◌&&◌, none, some, List, [],
  ◌∷◌, arith, if◌then◌else◌, length, retain, count, All, ok, is_ok, nat_eq, Str, str_beq, str_eq,
  bytes, option_eq, negsuc, int_eq,
}
use astarte_device_sdk_rust.Common.Map.{lookup}
use astarte_device_sdk_rust.Common.Order.{str_cmp}
use astarte_device_sdk_rust.Interfaces.{Validated, values, add, iter_with_added}
use astarte_device_sdk_rust.Interfaces.Introspection.{IsProper, has_name, iter_with_added-twice}
use astarte_device_sdk_rust.Foreign.{device, ownership_beq}
use astarte_device_sdk_rust.Object.{AstarteObject}
use astarte_device_sdk_rust.Object as Objects
use astarte_device_sdk_rust.Object.Laws.{IsUnique, get-insert}
use astarte_device_sdk_rust.Object.Removal.{remove-get}
use astarte_device_sdk_rust.Retention.{PublishId, Context, ids}
use astarte_device_sdk_rust.Retention.Ids.{IsDistinct, ids-IsDistinct}
use astarte_device_sdk_rust.Retention.Volatile.{
  State, VolatileItem, mark_sent, mark_received, delete_interface, is_interface, is_expired,
  is_live,
}
use astarte_device_sdk_rust.Retention.Volatile.Bounds.{
  Call, pushes, marks_sent, gets_unsent, run, IsBounded, run-IsBounded,
}
use astarte_device_sdk_rust.Retention.Volatile.Marks.{
  item_of, sent_flag, value_of, mark_sent-item, mark_received-item, delete_interface-store,
}
use astarte_device_sdk_rust.Retry.{
  ExponentialIter, RandomExponentialIter, new, next, delays, next_random, nanos_per_sec,
  nanos_per_milli, is_stale,
}
use astarte_device_sdk_rust.Retry.Delay.{schedule, delays-schedule}
use astarte_device_sdk_rust.Retry.Jitter.{percent, next_random-within}
use astarte_device_sdk_rust.Tests.Data.{
  Sample, api, fits, expiry, grown, publish, path, interfaces, sample, newer, sample_ref,
}
use astarte_device_sdk_rust.Validate.{
  validate_object, validate_individual, validate_property, validate_unset,
}
use astarte_device_sdk_rust.Validate.Merge.{accepts}
use astarte_device_sdk_rust.Validate.Sending.{
  timestamp_fits, validate_object-accepts, validate-accepts,
}

abbrev seconds : ℕ → ℕ
seconds n = n * nanos_per_sec

abbrev times : List ℕ
times = 10 ∷ 20 ∷ 30 ∷ []

abbrev backoff : ExponentialIter
backoff = record { n = 3; max = seconds 256; reset_after = 1000; last = some 10 }

delays-schedule_example : delays (new (seconds 256) 1000) times ≡ schedule (seconds 256) 0 times
unfolding is_stale
delays-schedule_example =
    delays-schedule (seconds 256) 1000 times (omega arith) (refl, (refl, (refl, tt)))

abbrev jittered : RandomExponentialIter
jittered = record { iter = backoff; jitter = 20 }

next_random-within_example :
    let exact = (next backoff 20).0 in
    (delay : ℕ) × ((next_random jittered 20 (negsuc 4)).0 ≡ some (delay * nanos_per_milli))
    × (exact / nanos_per_milli ≤ delay + percent exact * 20)
    × (delay ≤ exact / nanos_per_milli + percent exact * 20)
next_random-within_example =
    next_random-within jittered 20 (negsuc 4) (omega arith) (omega arith) (omega arith)
      (omega arith)

abbrev object : AstarteObject ℕ
object = record { inner = (bytes "b", 1) ∷ (bytes "a", 2) ∷ [] }

get-insert_example :
    ((Objects.insert object (bytes "a") 3).0 ≡ Objects.get object (bytes "a"))
    × (Objects.get (Objects.insert object (bytes "a") 3).1 (bytes "b")
        ≡ (if str_beq (bytes "a") (bytes "b") then some 3 else Objects.get object (bytes "b")))
get-insert_example = get-insert object (bytes "a") (bytes "b") 3

remove-get_example :
    ((Objects.remove object (bytes "b")).0 ≡ Objects.get object (bytes "b"))
    × ((j : Str)
        → Objects.get (Objects.remove object (bytes "b")).1 j
          ≡ (if str_beq (bytes "b") j then none else Objects.get object j))
    × IsUnique (Objects.remove object (bytes "b")).1.inner
unfolding str_beq
remove-get_example = remove-get object (bytes "b") ((refl, tt), (tt, tt))

abbrev context : Context
context = record { counter = 2 ^ 32 - 1 }

ids-IsDistinct_example : IsDistinct (ids context times)
ids-IsDistinct_example = ids-IsDistinct context times (omega arith) (omega arith)

abbrev id : ℕ → PublishId
id n = record { timestamp = 3; counter = n }

abbrev item : ℕ → VolatileItem ℕ
item n = record { id = id n; store_time = 3; sent = false; value = publish }

abbrev queue : State ℕ
queue = record { store = item 1 ∷ item 2 ∷ []; capacity = 2 }

abbrev calls : List (Call ℕ)
calls = pushes (id 3) (ok publish) false 5 6 ∷ marks_sent (id 2) true ∷ gets_unsent 1 7 ∷ []

run-IsBounded_example :
    IsBounded (run expiry grown queue calls) × ((run expiry grown queue calls).capacity ≡ 2)
run-IsBounded_example = run-IsBounded expiry grown queue calls (omega arith)

mark_sent-item_example :
    ((mark_sent queue (id 1) true).0 ≡ sent_flag (item_of (id 1) queue.store))
    × (item_of (id 2) (mark_sent queue (id 1) true).1.store ≡ item_of (id 2) queue.store)
mark_sent-item_example = mark_sent-item queue (id 1) (id 2) true

mark_received-item_example :
    ((mark_received queue (id 1)).0 ≡ value_of (item_of (id 1) queue.store))
    × (item_of (id 1) (mark_received queue (id 1)).1.store ≡ none)
mark_received-item_example = mark_received-item queue (id 1) (id 1) ((refl, tt), (tt, tt))

delete_interface-store_example :
    let (removed, s') = delete_interface expiry queue (bytes "a.D") 9 in
    (removed + length s'.store ≡ 2)
    × All (λ i. (is_interface i (bytes "a.D") ≡ false) × (is_expired expiry i 9 ≡ false)) s'.store
    × (retain (λ i. not (is_interface i (bytes "a.D"))) (retain (is_live expiry 9) queue.store)
        ≡ s'.store)
delete_interface-store_example = delete_interface-store expiry queue (bytes "a.D") 9

abbrev proper : IsProper api interfaces
proper = record { named = (refl, tt); unique = (tt, tt) }

abbrev added : Sample → Validated Sample
added i = record { interface = i; major_change = false }

iter_with_added-twice_example :
    (count (has_name api (bytes "a.B")) (iter_with_added api interfaces (added newer)) ≡ 2)
    × (count (has_name api (bytes "a.B")) (values (add api interfaces (added newer))) ≡ 1)
unfolding lookup str_beq
iter_with_added-twice_example =
    iter_with_added-twice api interfaces (added newer) sample proper refl

-- The mappings of an object: a name and a type; the first is required.
abbrev mappings : List (Str × ℕ)
mappings = (bytes "a", 10) ∷ (bytes "b", 10) ∷ []

abbrev is_required : Str × ℕ → Bool
is_required m = str_beq m.0 (bytes "a")

validate_object-accepts_example :
    is_ok (
      validate_object api
        (λ i. mappings)
        (λ b key. str_cmp b.0 key)
        fits
        (λ b. b.1)
        is_required
        sample
        path
        object
        none)
    ≡ (ownership_beq device device
        && (str_beq path path
            && (timestamp_fits none false
                && accepts (λ b. b.0) fits (λ b. b.1) is_required object.inner mappings)))
unfolding str_beq str_cmp
validate_object-accepts_example =
    validate_object-accepts api (λ i. mappings) (λ b key. str_cmp b.0 key) fits (λ b. b.1)
      is_required (λ b. b.0) (λ b key. refl) sample path object none ((refl, tt), (tt, tt))
      ((refl, tt), (tt, tt))

validate-accepts_example :
    (is_ok (validate_individual api fits sample_ref 8 (some 5))
      ≡ (true && (fits 8 100 && timestamp_fits (some 5) false)))
    × (is_ok (validate_property api fits sample_ref 8) ≡ (true && fits 8 100))
    × (is_ok (validate_unset api sample_ref) ≡ (true && true))
validate-accepts_example = validate-accepts api fits sample_ref 8 (some 5)
