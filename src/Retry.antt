-- ===== src/Retry.antt =====
-- src/retry.rs: the back-off between two attempts to connect. `ExponentialIter` yields the delays 0,
-- 1, 2, 4, ... seconds up to a maximum, and starts again after a quiet time; `RandomExponentialIter`
-- spreads them by a random percentage. A `Duration` is its number of nanoseconds, an `Instant` a
-- number of nanoseconds on a clock that the caller passes as `now`, and the random number drawn is an
-- argument. The machine integers' `saturating_` and `wrapping_` operations are written out.
pub mod Delay
pub mod Jitter
use astarte_device_sdk_rust.Common.{
  ℕ, ◌+◌, ◌-◌, ◌*◌, ◌/◌, ◌%◌, ◌^◌, Bool, true, false, Option, none, some, List, [], ◌∷◌, ltb, leb,
  if◌then◌else◌, min, ℤ, pos, negsuc, arith,
}

abbrev pub nanos_per_sec : ℕ
nanos_per_sec = 1_000_000_000

abbrev pub nanos_per_milli : ℕ
nanos_per_milli = 1_000_000

abbrev pub u32_max : ℕ
u32_max = 2 ^ 32 - 1

abbrev pub u64_max : ℕ
u64_max = 2 ^ 64 - 1

abbrev pub i64_max : ℕ
i64_max = 2 ^ 63 - 1

-- `DEFAULT_BACKOFF_MAXIMUM_DELAY` and `DEFAULT_BACKOFF_RESET_INTERVAL`.
abbrev pub default_maximum_delay : ℕ
default_maximum_delay = 256 * nanos_per_sec

abbrev pub default_reset_interval : ℕ
default_reset_interval = 256 * 4 * nanos_per_sec

pub record ExponentialIter : Type 0 where
  pub n : ℕ
  pub max : ℕ
  pub reset_after : ℕ
  pub last : Option ℕ

unfoldable pub new : ℕ → ℕ → ExponentialIter
new max reset_after = record { n = 0; max = max; reset_after = reset_after; last = none }

unfoldable pub default_iter : ExponentialIter
default_iter = record {
  n = 0;
  max = default_maximum_delay;
  reset_after = default_reset_interval;
  last = none;
}

-- `u64::wrapping_shl` of 1: the shift is taken modulo the width, so no bit is lost.
one_wrapping_shl : ℕ → ℕ
one_wrapping_shl k = 2 ^ (k % 64)

-- `((n > 0) as u64).wrapping_shl(n.saturating_sub(1))`, in seconds.
unfoldable pub step_secs : ℕ → ℕ
unfolding one_wrapping_shl
step_secs n = if ltb 0 n then one_wrapping_shl (n - 1) else 0

-- `Some(last)` and more than `reset_after` elapsed since.
unfoldable pub is_stale : Option ℕ → ℕ → ℕ → Bool
is_stale none reset_after now = false
is_stale (some last) reset_after now = ltb reset_after (now - last)

-- The first half of `next`: the reset, and the new `last`.
unfoldable pub touch : ExponentialIter → ℕ → ExponentialIter
unfolding is_stale
touch it now = record it {
  n = if is_stale it.last it.reset_after now then 0 else it.n;
  last = some now;
}

-- The second half: the delay, and `n.saturating_add(1)` while the maximum is not reached.
unfoldable pub advance : ExponentialIter → ℕ × ExponentialIter
unfolding step_secs
advance it =
    let delay = step_secs it.n * nanos_per_sec in
    if ltb delay it.max then (delay, record it { n = min (it.n + 1) u32_max }) else (it.max, it)

unfoldable pub next : ExponentialIter → ℕ → ℕ × ExponentialIter
unfolding touch advance
next it now = advance (touch it now)

-- The delays of a run of calls, at the given instants.
unfoldable pub delays : ExponentialIter → List ℕ → List ℕ
delays it [] = []
delays it (now ∷ rest) = let (delay, it') = next it now in delay ∷ delays it' rest

-- `jitter.clamp(0, 100)` of `RandomExponentialIter::new`.
unfoldable pub clamp_jitter : ℕ → ℕ
clamp_jitter jitter = min jitter 100

-- `u64::saturating_add_signed`.
saturating_add_signed : ℕ → ℤ → ℕ
saturating_add_signed a (pos b) = min (a + b) u64_max
saturating_add_signed a (negsuc b) = a - (b + 1)

-- The signed change in milliseconds: `millis.div_euclid(100)` times the drawn percentage, where a
-- conversion or a product that leaves `i64` gives `i64::MAX`.
checked_scale : ℕ → ℤ → ℤ
checked_scale percent (pos r) = if leb (percent * r) i64_max then pos (percent * r) else pos i64_max
checked_scale percent (negsuc r) =
    if leb (percent * (r + 1)) (i64_max + 1)
    then (if ltb 0 (percent * (r + 1)) then negsuc (percent * (r + 1) - 1) else pos 0)
    else pos i64_max

jitter_change : ℕ → ℤ → ℤ
unfolding checked_scale
jitter_change millis draw =
    if leb millis i64_max then checked_scale (millis / 100) draw else pos i64_max

-- The jittered delay in milliseconds from the exact one in nanoseconds and the draw.
unfoldable pub spread : ℕ → ℤ → ℕ
unfolding jitter_change saturating_add_signed
spread exponential draw =
    let millis = exponential / nanos_per_milli in
    saturating_add_signed (min millis u64_max) (jitter_change millis draw)

pub record RandomExponentialIter : Type 0 where
  pub iter : ExponentialIter
  pub jitter : ℕ

-- `RandomExponentialIter::new`, the generator left out: its draws are arguments of `next_random`.
unfoldable pub new_random : ExponentialIter → ℕ → RandomExponentialIter
unfolding clamp_jitter
new_random iter jitter = record { iter = iter; jitter = clamp_jitter jitter }

-- `with_jitter` takes the percentage as it is.
unfoldable pub with_jitter : ExponentialIter → ℕ → RandomExponentialIter
with_jitter iter jitter = record { iter = iter; jitter = jitter }

-- `next`, with the number drawn from `-jitter..jitter`. An empty range makes `random_range` panic,
-- after the exponential delay was taken; that is `none`.
unfoldable pub next_random : RandomExponentialIter → ℕ → ℤ → Option ℕ × RandomExponentialIter
unfolding next spread
next_random r now draw =
    let (exponential, iter) = next r.iter now in
    let r' = record r { iter = iter } in
    if ltb 0 r.jitter then (some (spread exponential draw * nanos_per_milli), r') else (none, r')
