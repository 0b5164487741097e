-- ===== src/Common/Int.antt =====
-- Results of type `int`.
use Prim.Native.Nat.{ℕ, zero, suc}
use mathlib.Core.Bool.{Bool, true, false}
use mathlib.Core.Path.{◌≡◌, refl}
use native.Mathlib.Omega.{arith}
use mptcpd.Common.Tests.{ltb}

-- `negsuc n` is -(n + 1).
pub data ℤ : Type 0 where
  pos : ℕ → ℤ
  negsuc : ℕ → ℤ

abbrev pub neg : ℤ → ℤ
neg (pos zero) = pos zero
neg (pos (suc n)) = negsuc n
neg (negsuc n) = pos (suc n)

abbrev pub is_negative : ℤ → Bool
is_negative (pos n) = false
is_negative (negsuc n) = true

-- The absolute value.
abbrev pub nat_abs : ℤ → ℕ
nat_abs (pos n) = n
nat_abs (negsuc n) = suc n

-- The order of `int`.
abbrev pub less : ℤ → ℤ → Bool
less (pos a) (pos b) = ltb a b
less (pos a) (negsuc b) = false
less (negsuc a) (pos b) = true
less (negsuc a) (negsuc b) = ltb b a

pub not_less_trans : (a b c : ℤ) → less b a ≡ false → less c b ≡ false → less c a ≡ false
not_less_trans (pos a) (pos b) (pos c) h k = ground arith
not_less_trans (pos a) (pos b) (negsuc c) h k = ground arith
not_less_trans (pos a) (negsuc b) c h k = ground arith
not_less_trans (negsuc a) (pos b) (pos c) h k = ground arith
not_less_trans (negsuc a) (pos b) (negsuc c) h k = ground arith
not_less_trans (negsuc a) (negsuc b) (pos c) h k = ground arith
not_less_trans (negsuc a) (negsuc b) (negsuc c) h k = ground arith

pub less_asym : (a b : ℤ) → less a b ≡ true → less b a ≡ false
less_asym (pos a) (pos b) h = ground arith
less_asym (pos a) (negsuc b) h = ground arith
less_asym (negsuc a) (pos b) h = refl
less_asym (negsuc a) (negsuc b) h = ground arith
