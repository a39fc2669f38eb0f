-- ===== src/Prelude/Int.antt =====
-- Signed integers over the native numbers, where the source's subtraction can go below 0.
use nestra.Prelude.{ℕ, suc, ◌+◌, ◌-◌, ◌<◌, ◌≡◌, arith, leb, ltb, Bool, if◌then◌else◌}

-- `negsuc n` is -(n + 1).
pub data ℤ : Type 0 where
  pos : ℕ → ℤ
  negsuc : ℕ → ℤ

abbrev pub pos_part : ℤ → ℕ
pos_part (pos n) = n
pos_part (negsuc n) = 0

abbrev pub neg_part : ℤ → ℕ
neg_part (pos n) = 0
neg_part (negsuc n) = suc n

-- a - b, as an integer.
abbrev pub sub_ℕ : ℕ → ℕ → ℤ
sub_ℕ a b = if leb b a then pos (a - b) else negsuc (b - a - 1)

infixl 65 ◌+ℤ◌
unfoldable pub ◌+ℤ◌ : ℤ → ℤ → ℤ
a +ℤ b = sub_ℕ (pos_part a + pos_part b) (neg_part a + neg_part b)

unfoldable pub lt_int : ℤ → ℤ → Bool
lt_int a b = ltb (pos_part a + neg_part b) (pos_part b + neg_part a)

pub sub_ℕ_neg : (a b : ℕ) → a < b → sub_ℕ a b ≡ negsuc (b - a - 1)
sub_ℕ_neg a b h = ground arith

-- The difference of two sums.
pub sub_ℕ_add : (a b c d : ℕ) → sub_ℕ a b +ℤ sub_ℕ c d ≡ sub_ℕ (a + c) (b + d)
unfolding ◌+ℤ◌
sub_ℕ_add a b c d = ground arith
