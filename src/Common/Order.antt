-- ===== src/Common/Order.antt =====
-- The order of strings, `str::cmp`: byte by byte.
use Prim.Native.Nat.{compare, Ordering}
use mathlib.Core.Path.{◌≡◌, refl}
use mathlib.Core.Bool.{false}
use mathlib.Core.List.{[], ◌∷◌}
use native.Mathlib.Omega.{arith}
use astarte_device_sdk_rust.Common.Keys.{Str, str_beq}

-- `std::cmp::Ordering`.
pub data Comparison : Type 0 where
  less equal greater : Comparison

unfoldable pub str_cmp : Str → Str → Comparison
str_cmp [] [] = equal
str_cmp [] (b ∷ bs) = less
str_cmp (a ∷ as') [] = greater
str_cmp (a ∷ as') (b ∷ bs) =
    let later = str_cmp as' bs in
    elim (compare a b) [ Ordering.lt ↦ less | Ordering.gt ↦ greater | Ordering.eq ↦ later ]

pub str_cmp_trans : (a b c : Str) → str_cmp a b ≡ less → str_cmp b c ≡ less → str_cmp a c ≡ less
unfolding str_cmp
str_cmp_trans [] [] c h k = cc
str_cmp_trans [] (y ∷ b) [] h k = cc
str_cmp_trans [] (y ∷ b) (z ∷ c) h k = refl
str_cmp_trans (x ∷ a) [] c h k = cc
str_cmp_trans (x ∷ a) (y ∷ b) [] h k = cc
str_cmp_trans (x ∷ a) (y ∷ b) (z ∷ c) h k = ground (arith, str_cmp_trans a b c)

pub str_cmp-equal : (a b : Str) → str_cmp a b ≡ equal → a ≡ b
unfolding str_cmp
str_cmp-equal [] [] h = refl
str_cmp-equal [] (y ∷ b) h = cc
str_cmp-equal (x ∷ a) [] h = cc
str_cmp-equal (x ∷ a) (y ∷ b) h = ground (arith, str_cmp-equal a b)

pub str_cmp_refl : (a : Str) → str_cmp a a ≡ equal
unfolding str_cmp
str_cmp_refl [] = refl
str_cmp_refl (x ∷ a) = ground (arith, str_cmp_refl a)

pub str_cmp-flip : (a b : Str) → str_cmp a b ≡ greater → str_cmp b a ≡ less
unfolding str_cmp
str_cmp-flip [] [] h = cc
str_cmp-flip [] (y ∷ b) h = cc
str_cmp-flip (x ∷ a) [] h = refl
str_cmp-flip (x ∷ a) (y ∷ b) h = ground (arith, str_cmp-flip a b)

-- Of two strings in order neither equals the other.
pub str_cmp-ne : (a b : Str) → str_cmp a b ≡ less → str_beq a b ≡ false
unfolding str_cmp str_beq
str_cmp-ne [] [] h = cc
str_cmp-ne [] (y ∷ b) h = refl
str_cmp-ne (x ∷ a) [] h = refl
str_cmp-ne (x ∷ a) (y ∷ b) h = ground (arith, str_cmp-ne a b)
