-- ===== src/Base/Int.antt =====
-- Signed integers, and `int32`: the integers from -2^31 to 2^31 - 1, with arithmetic that wraps.
use Prim.Native.Nat.{ℕ, suc, ◌+◌, ◌-◌, ◌*◌, ◌/◌, ◌%◌, ◌≤◌, ◌<◌}
use mathlib.Core.Path.{◌≡◌, refl}
use mathlib.Core.Bool.{Bool, true}
use native.Mathlib.Omega.{arith}
use aom.Base.Tests.{ltb, leb, ◌==◌, if◌then◌else◌}

-- `negsuc n` is -(n + 1).
pub data ℤ : Type 0 where
  pos : ℕ → ℤ
  negsuc : ℕ → ℤ

abbrev pub pos_part : ℤ → ℕ
pos_part (pos n) = n
pos_part (negsuc n) = 0

abbrev pub neg_part : ℤ → ℕ
neg_part (pos n) = 0
neg_part (negsuc n) = suc n

-- a - b, as an integer.
abbrev pub sub_ℕ : ℕ → ℕ → ℤ
sub_ℕ a b = if leb b a then pos (a - b) else negsuc (b - a - 1)

infixl 65 ◌+ℤ◌
infixl 70 ◌*ℤ◌
infix 50 ◌≤ℤ◌ ◌<ℤ◌
unfoldable pub ◌+ℤ◌ : ℤ → ℤ → ℤ
a +ℤ b = sub_ℕ (pos_part a + pos_part b) (neg_part a + neg_part b)

unfoldable pub ◌*ℤ◌ : ℤ → ℤ → ℤ
a *ℤ b =
    sub_ℕ (pos_part a * pos_part b + neg_part a * neg_part b)
      (pos_part a * neg_part b + neg_part a * pos_part b)

abbrev pub ◌≤ℤ◌ : ℤ → ℤ → Type 0
a ≤ℤ b = pos_part a + neg_part b ≤ pos_part b + neg_part a

abbrev pub ◌<ℤ◌ : ℤ → ℤ → Type 0
a <ℤ b = pos_part a + neg_part b < pos_part b + neg_part a

-- `a <= b`
abbrev pub leb_ℤ : ℤ → ℤ → Bool
leb_ℤ a b = leb (pos_part a + neg_part b) (pos_part b + neg_part a)

abbrev pub ltb_ℤ : ℤ → ℤ → Bool
ltb_ℤ a b = ltb (pos_part a + neg_part b) (pos_part b + neg_part a)

abbrev pub eqb_ℤ : ℤ → ℤ → Bool
eqb_ℤ a b = (pos_part a + neg_part b) == (pos_part b + neg_part a)

-- Go's `/` by a positive number rounds toward zero.
unfoldable pub div_ℤ : ℤ → ℕ → ℤ
div_ℤ (pos n) d = pos (n / d)
div_ℤ (negsuc n) d = sub_ℕ 0 (suc n / d)

abbrev pub half_range : ℕ
half_range = 2147483648

abbrev pub full_range : ℕ
full_range = 4294967296

-- The `int32` that an integer is congruent to.
unfoldable pub wrap32 : ℤ → ℤ
wrap32 (pos n) =
    let r = n % full_range in if ltb r half_range then pos r else negsuc (full_range - r - 1)
wrap32 (negsuc n) =
    let r = n % full_range in if ltb r half_range then negsuc r else pos (full_range - r - 1)

abbrev pub IsInt32 : ℤ → Type 0
IsInt32 a = (pos_part a < half_range) × (neg_part a ≤ half_range)

pub wrap32_of_IsInt32 : (a : ℤ) → IsInt32 a → wrap32 a ≡ a
unfolding wrap32
wrap32_of_IsInt32 (pos n) h = ground arith
wrap32_of_IsInt32 (negsuc n) h = ground arith

pub wrap32-IsInt32 : (a : ℤ) → IsInt32 (wrap32 a)
unfolding wrap32
wrap32-IsInt32 (pos n) = ground arith
wrap32-IsInt32 (negsuc n) = ground arith

pub zero-+ℤ : (n : ℤ) → pos 0 +ℤ n ≡ n
unfolding ◌+ℤ◌
zero-+ℤ (pos n) = ground arith
zero-+ℤ (negsuc n) = ground arith

pub eqb_ℤ→eq : (a b : ℤ) → eqb_ℤ a b ≡ true → a ≡ b
eqb_ℤ→eq a b h = ground arith

pub eqb_ℤ-refl : (a : ℤ) → eqb_ℤ a a ≡ true
eqb_ℤ-refl a = ground arith

pub ≤ℤ_antisym : (a b : ℤ) → a ≤ℤ b → b ≤ℤ a → a ≡ b
≤ℤ_antisym a b h k = ground arith

wrap32_test : wrap32 (pos 2147483648) ≡ negsuc 2147483647
unfolding wrap32
wrap32_test = refl

wrap32_test_neg : wrap32 (negsuc 2147483648) ≡ pos 2147483647
unfolding wrap32
wrap32_test_neg = refl

-- Wrapping early changes no sum.
pub wrap32-+ℤ : (a b : ℤ) → wrap32 (wrap32 a +ℤ b) ≡ wrap32 (a +ℤ b)
unfolding wrap32 ◌+ℤ◌
wrap32-+ℤ (pos a) (pos b) = ground arith
wrap32-+ℤ (pos a) (negsuc b) = ground arith
wrap32-+ℤ (negsuc a) (pos b) = ground arith
wrap32-+ℤ (negsuc a) (negsuc b) = ground arith

pub +ℤ_assoc : (a b c : ℤ) → a +ℤ b +ℤ c ≡ a +ℤ (b +ℤ c)
unfolding ◌+ℤ◌
+ℤ_assoc a b c = ground arith

pub +ℤ-zero : (a : ℤ) → a +ℤ pos 0 ≡ a
unfolding ◌+ℤ◌
+ℤ-zero (pos n) = ground arith
+ℤ-zero (negsuc n) = ground arith
