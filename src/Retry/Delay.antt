-- ===== src/Retry/Delay.antt =====
-- The exponential delays of src/retry.rs: their closed form and their reset.
use native.Mathlib.Nat.{pow-suc}
use astarte_device_sdk_rust.Common.{
  ◌∙◌, inl, true, none, ℕ, zero, suc, ◌-◌, ◌*◌, ◌%◌, ◌^◌, ◌≤◌, ◌<◌, min, ◌≡◌, refl, ap, ◌⊎◌, false,
  Option, some, List, [], ◌∷◌, arith, dec_lt, nat_eq, str_eq, option_eq, int_eq,
}
use astarte_device_sdk_rust.Retry.{
  touch, next, delays, new, ExponentialIter, step_secs, is_stale, advance, nanos_per_sec,
}

-- The longest maximum, in nanoseconds, that the doubling reaches before the shift wraps.
abbrev pub longest : ℕ
longest = 2 ^ 63 * nanos_per_sec

-- 0, 1, 2, 4, 8, ...
abbrev pub doubling : ℕ → ℕ
doubling zero = 0
doubling (suc k) = 2 ^ k

-- The delays of consecutive attempts from the `k`-th, one for each instant.
abbrev pub schedule : ℕ → ℕ → List ℕ → List ℕ
schedule max k [] = []
schedule max k (now ∷ rest) = min (doubling k * nanos_per_sec) max ∷ schedule max (suc k) rest

-- No call comes more than `reset_after` later than the one before.
abbrev pub IsSteady : ℕ → Option ℕ → List ℕ → Type 0
IsSteady reset_after last [] = Unit
IsSteady reset_after last (now ∷ rest) =
    (is_stale last reset_after now ≡ false) × IsSteady reset_after (some now) rest

doubling-suc_le : (k : ℕ) → doubling k ≤ doubling (suc k)
doubling-suc_le zero = omega arith
doubling-suc_le (suc k) = rw (pow-suc 2 k) (omega arith)

step_secs-doubling : (n : ℕ) → n ≤ 64 → step_secs n ≡ doubling n
unfolding step_secs
step_secs-doubling zero h = refl
step_secs-doubling (suc k) h =
    let e : (suc k - 1) % 64 ≡ k = omega arith in ground (arith, ap (λ (t : ℕ). 2 ^ t) e)

-- From the `k`-th attempt on the counter is `k`, or it stopped where the maximum is reached.
record Tracks (it : ExponentialIter) (k : ℕ) : Type 0 where
  bounded : it.max ≤ longest
  small : it.n ≤ 64
  caught_up :
      (it.n ≡ k)
      ⊎ ((it.max ≤ doubling it.n * nanos_per_sec) × (it.max ≤ doubling k * nanos_per_sec))

advance-value :
    (it : ExponentialIter) (k : ℕ)
    → Tracks it k
    → (advance it).0 ≡ min (doubling k * nanos_per_sec) it.max
unfolding advance
advance-value it k t =
    ground (arith, step_secs-doubling it.n, ap (λ (i : ℕ). doubling i * nanos_per_sec))

-- At 64 the delay reaches every maximum that is not too long.
room_to_grow :
    (it : ExponentialIter)
    → it.max ≤ longest
    → it.n ≤ 64
    → doubling it.n * nanos_per_sec < it.max
    → it.n < 64
room_to_grow it bounded small below = elim (dec_lt it.n 64) [
  | yes h ↦ h
  | no h ↦
      let e : it.n ≡ 64 = omega arith in
      absurd (omega (arith, ap (λ (i : ℕ). doubling i * nanos_per_sec) e))
]

advance-Tracks : (it : ExponentialIter) (k : ℕ) → Tracks it k → Tracks (advance it).1 (suc k)
unfolding advance
advance-Tracks it k t = record {
  bounded = ground (arith, t.bounded);
  small = ground (arith, room_to_grow it, step_secs-doubling it.n);
  caught_up = ground (arith, step_secs-doubling it.n, doubling-suc_le it.n, doubling-suc_le k);
}

advance-keeps :
    (it : ExponentialIter)
    → ((advance it).1.max ≡ it.max)
      × ((advance it).1.reset_after ≡ it.reset_after)
      × ((advance it).1.last ≡ it.last)
unfolding advance
advance-keeps it = ground arith

next-advance : (it : ExponentialIter) (now : ℕ) → next it now ≡ advance (touch it now)
unfolding next
next-advance it now = refl

delays-from :
    (it : ExponentialIter) (k : ℕ) (times : List ℕ)
    → Tracks it k
    → IsSteady it.reset_after it.last times
    → delays it times ≡ schedule it.max k times
unfolding delays
delays-from it k [] t steady = refl
delays-from it k (now ∷ rest) t steady =
    let fresh = record it { last = some now } in
    let same : next it now ≡ advance fresh =
      next-advance it now ∙ ap advance (unfold touch in rw steady.0) in
    let t' : Tracks fresh k = record {
      bounded = t.bounded;
      small = t.small;
      caught_up = t.caught_up;
    } in
    let keeps = advance-keeps fresh in
    let later : IsSteady (advance fresh).1.reset_after (advance fresh).1.last rest =
      rw (keeps.1, keeps.2) steady.1 in
    rw (
      same,
      advance-value fresh k t',
      delays-from (advance fresh).1 (suc k) rest (advance-Tracks fresh k t') later,
      keeps.0,
    )

-- While no call comes more than `reset_after` later than the one before, the delays of a new
-- back-off whose maximum is at most 2 ^ 63 seconds are 0, 1, 2, 4, 8, ... seconds, each cut to the
-- maximum.
pub delays-schedule :
    (max reset_after : ℕ) (times : List ℕ)
    → max ≤ longest
    → IsSteady reset_after none times
    → delays (new max reset_after) times ≡ schedule max 0 times
unfolding new
delays-schedule max reset_after times h steady =
    delays-from (new max reset_after) 0 times
      (record { bounded = h; small = omega arith; caught_up = inl refl }) steady

-- Each delay is at most the maximum; the first delay after a pause longer than `reset_after` is 0,
-- whatever the back-off had reached; the maximum and the reset interval never change.
pub next-reset :
    (it : ExponentialIter) (now : ℕ)
    → ((next it now).0 ≤ it.max)
      × (is_stale it.last it.reset_after now ≡ true → (next it now).0 ≡ 0)
      × ((next it now).1.max ≡ it.max)
      × ((next it now).1.reset_after ≡ it.reset_after)
      × ((next it now).1.last ≡ some now)
unfolding next
next-reset it now = ground arith
