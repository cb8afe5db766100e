-- ===== src/Retry/Jitter.antt =====
-- The random spread of src/retry.rs stays within its percentage.
use astarte_device_sdk_rust.Common.{
  ℕ, ◌+◌, ◌*◌, ◌/◌, ◌^◌, ◌≤◌, ◌<◌, ◌≡◌, some, arith, nat_eq, str_eq, option_eq, ℤ, pos, negsuc,
  int_eq,
}
use astarte_device_sdk_rust.Retry.Delay.{next-reset}
use astarte_device_sdk_rust.Retry.{
  RandomExponentialIter, next_random, spread, next, nanos_per_milli,
}

-- A draw from `-jitter..jitter`.
abbrev pub IsDrawn : ℕ → ℤ → Type 0
IsDrawn jitter (pos r) = r < jitter
IsDrawn jitter (negsuc r) = r < jitter

-- The hundredth part of the delay in milliseconds.
abbrev pub percent : ℕ → ℕ
percent exponential = exponential / nanos_per_milli / 100

mul_mono : (p a b : ℕ) → a ≤ b → p * a ≤ p * b
mul_mono p a b h = grind arith

-- A delay of at most 2 ^ 56 milliseconds moves by at most the percentage, in either direction.
spread-within :
    (exponential jitter : ℕ) (draw : ℤ)
    → exponential / nanos_per_milli ≤ 2 ^ 56
    → jitter ≤ 100
    → IsDrawn jitter draw
    → (exponential / nanos_per_milli ≤ spread exponential draw + percent exponential * jitter)
      × (spread exponential draw ≤ exponential / nanos_per_milli + percent exponential * jitter)
unfolding spread
spread-within exponential jitter (pos r) h j d =
    ground
      (arith, mul_mono (percent exponential) r jitter, mul_mono (percent exponential) jitter 100)
spread-within exponential jitter (negsuc r) h j d = ground (
  arith,
  mul_mono (percent exponential) (r + 1) jitter,
  mul_mono (percent exponential) jitter 100,
)

-- Of a generator with a jitter from 1 to 100 percent whose maximum is at most 2 ^ 56 milliseconds,
-- each delay is a whole number of milliseconds that differs from the exponential one, cut to
-- milliseconds, by at most `jitter` hundredths of it, whatever number is drawn.
pub next_random-within :
    (r : RandomExponentialIter) (now : ℕ) (draw : ℤ)
    → 0 < r.jitter
    → r.jitter ≤ 100
    → r.iter.max ≤ 2 ^ 56 * nanos_per_milli
    → IsDrawn r.jitter draw
    → let exact = (next r.iter now).0 in
      (delay : ℕ) × ((next_random r now draw).0 ≡ some (delay * nanos_per_milli))
      × (exact / nanos_per_milli ≤ delay + percent exact * r.jitter)
      × (delay ≤ exact / nanos_per_milli + percent exact * r.jitter)
unfolding next_random
next_random-within r now draw lo hi m d =
    let exact = (next r.iter now).0 in
    let short : exact / nanos_per_milli ≤ 2 ^ 56 = omega (arith, (next-reset r.iter now).0) in
    let bound = spread-within exact r.jitter draw short hi d in
    (spread exact draw, ground arith, bound.0, bound.1)
