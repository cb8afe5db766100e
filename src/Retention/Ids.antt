-- ===== src/Retention/Ids.antt =====
-- The identifiers of src/retention/mod.rs are unique.
use astarte_device_sdk_rust.Common.{
  ℕ, ◌+◌, ◌%◌, ◌^◌, ◌≤◌, ◌<◌, ◌≡◌, ◌≢◌, false, List, [], ◌∷◌, arith, length, All, nat_eq, str_eq,
  option_eq, int_eq,
}
use astarte_device_sdk_rust.Retention.{next, PublishId, Context, ids, id_beq}

-- No identifier of the list is the given one.
abbrev pub IsAbsent : PublishId → List PublishId → Type 0
IsAbsent id l = All (λ other. id_beq other id ≡ false) l

abbrev pub IsDistinct : List PublishId → Type 0
IsDistinct [] = Unit
IsDistinct (id ∷ rest) = IsAbsent id rest × IsDistinct rest

-- Counters that run on from `c` do not meet `id` before `2 ^ 32` steps have been made.
ids-IsAbsent :
    (id : PublishId) (k : ℕ) (times : List ℕ)
    → id.counter < 2 ^ 32
    → 0 < k
    → k + length times ≤ 2 ^ 32
    → IsAbsent id (ids (record { counter = (id.counter + k) % 2 ^ 32 }) times)
unfolding ids
ids-IsAbsent id k [] b p h = tt
ids-IsAbsent id k (now ∷ rest) b p h =
    let e : ((id.counter + k) % 2 ^ 32 + 1) % 2 ^ 32 ≡ (id.counter + (k + 1)) % 2 ^ 32 =
      omega arith in
    let ne : (id.counter + k) % 2 ^ 32 ≢ id.counter = omega arith in
    (ground arith, rw e (ids-IsAbsent id (k + 1) rest b (omega arith) (omega arith)))

-- At most `2 ^ 32` identifiers made in a row by one context are pairwise different, whatever the
-- clock says and wherever the counter starts, also where it wraps.
pub ids-IsDistinct :
    (ctx : Context) (times : List ℕ)
    → ctx.counter < 2 ^ 32
    → length times ≤ 2 ^ 32
    → IsDistinct (ids ctx times)
unfolding ids
ids-IsDistinct ctx [] b h = tt
ids-IsDistinct ctx (now ∷ rest) b h =
    let id : PublishId = record { timestamp = now; counter = ctx.counter } in
    (
      ids-IsAbsent id 1 rest b (omega arith) (omega arith),
      ids-IsDistinct (next ctx now).1 rest (omega arith) (omega arith),
    )
