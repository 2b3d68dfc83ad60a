-- ===== src/Prelude/Int.antt =====
-- Signed 64-bit columns (`int64`), over the native numbers. Where a result may wrap around, that
-- is written out.
use Prim.Native.Nat.{ℕ, suc, ◌+◌, ◌-◌, ◌%◌, ◌^◌, ◌<◌}
use mathlib.Core.Path.{◌≡◌, refl}
use mathlib.Core.Bool.{Bool, true, false, not}
use native.Mathlib.Omega.{arith}
use fileagent.Prelude.Tests.{◌==◌, leb, ltb, if◌then◌else◌}

-- `negsuc n` is -(n + 1).
pub data ℤ : Type 0 where
  pos : ℕ → ℤ
  negsuc : ℕ → ℤ

infix 50 ◌=ℤ◌
abbrev pub ◌=ℤ◌ : ℤ → ℤ → Bool
pos a =ℤ pos b = a == b
negsuc a =ℤ negsuc b = a == b
pos a =ℤ negsuc b = false
negsuc a =ℤ pos b = false

-- a ≤ b
abbrev pub leb_ℤ : ℤ → ℤ → Bool
leb_ℤ (pos a) (pos b) = leb a b
leb_ℤ (negsuc a) (negsuc b) = leb b a
leb_ℤ (pos a) (negsuc b) = false
leb_ℤ (negsuc a) (pos b) = true

pub =ℤ_refl : (a : ℤ) → (a =ℤ a) ≡ true
=ℤ_refl (pos a) = ground arith
=ℤ_refl (negsuc a) = ground arith

pub =ℤ_sym : (a b : ℤ) → (a =ℤ b) ≡ (b =ℤ a)
=ℤ_sym (pos a) (pos b) = ground arith
=ℤ_sym (negsuc a) (negsuc b) = ground arith
=ℤ_sym (pos a) (negsuc b) = refl
=ℤ_sym (negsuc a) (pos b) = refl

-- a < b
abbrev pub ltb_ℤ : ℤ → ℤ → Bool
ltb_ℤ a b = not (leb_ℤ b a)

abbrev pos_part : ℤ → ℕ
pos_part (pos n) = n
pos_part (negsuc n) = 0

abbrev neg_part : ℤ → ℕ
neg_part (pos n) = 0
neg_part (negsuc n) = suc n

-- a - b, as an integer.
abbrev sub_ℕ : ℕ → ℕ → ℤ
sub_ℕ a b = if leb b a then pos (a - b) else negsuc (b - a - 1)

infixl 65 ◌-ℤ◌
unfoldable pub ◌-ℤ◌ : ℤ → ℤ → ℤ
a -ℤ b = sub_ℕ (pos_part a + neg_part b) (neg_part a + pos_part b)

pub leb_ℤ_refl : (a : ℤ) → leb_ℤ a a ≡ true
leb_ℤ_refl (pos a) = ground arith
leb_ℤ_refl (negsuc a) = ground arith

pub leb_ℤ_trans : (a b c : ℤ) → leb_ℤ a b ≡ true → leb_ℤ b c ≡ true → leb_ℤ a c ≡ true
leb_ℤ_trans (pos a) (pos b) (pos c) h k = ground arith
leb_ℤ_trans (pos a) (pos b) (negsuc c) h k = cc
leb_ℤ_trans (pos a) (negsuc b) c h k = absurd (cc)
leb_ℤ_trans (negsuc a) (pos b) (pos c) h k = refl
leb_ℤ_trans (negsuc a) (pos b) (negsuc c) h k = absurd (cc)
leb_ℤ_trans (negsuc a) (negsuc b) (pos c) h k = refl
leb_ℤ_trans (negsuc a) (negsuc b) (negsuc c) h k = ground arith

pub leb_ℤ_total : (a b : ℤ) → leb_ℤ a b ≡ false → leb_ℤ b a ≡ true
leb_ℤ_total (pos a) (pos b) h = ground arith
leb_ℤ_total (pos a) (negsuc b) h = refl
leb_ℤ_total (negsuc a) (pos b) h = absurd (cc)
leb_ℤ_total (negsuc a) (negsuc b) h = ground arith

-- Taking away what is not negative.
pub sub-leb_ℤ : (a : ℤ) (m : ℕ) → leb_ℤ (a -ℤ pos m) a ≡ true
unfolding ◌-ℤ◌
sub-leb_ℤ (pos a) m = ground arith
sub-leb_ℤ (negsuc a) m = ground arith

abbrev pub max_int64 : ℤ
max_int64 = pos (2 ^ 63 - 1)

-- The conversion of a uint64 to int64.
abbrev pub to_int64 : ℕ → ℤ
to_int64 n = if ltb n (2 ^ 63) then pos n else negsuc (2 ^ 64 - n - 1)

-- The int64 that a result wraps around to.
unfoldable pub wrap_int64 : ℤ → ℤ
wrap_int64 (pos n) = to_int64 (n % 2 ^ 64)
wrap_int64 (negsuc n) = to_int64 (2 ^ 64 - 1 - n % 2 ^ 64)

-- A difference of numbers below 2 ^ 63 is an int64.
pub sub_int64 : (a b : ℕ) → a < 2 ^ 63 → b < 2 ^ 63 → wrap_int64 (pos a -ℤ pos b) ≡ pos a -ℤ pos b
unfolding wrap_int64 ◌-ℤ◌
sub_int64 a b h k = ground arith
