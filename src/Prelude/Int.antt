-- ===== src/Prelude/Int.antt =====
-- Signed integers over the native numbers, under the library's names (its ℤ stands on the unary
-- ℕ), and the wrap-around of Go's int64. Sums and orders go through the two parts of an integer,
-- which are numbers that `omega` reads.
use emby_panel.Prelude.{ℕ, suc, ◌+◌, ◌-◌, ◌%◌, ◌≤◌, ◌<◌, ◌≡◌, Bool, arith, ltb, leb, if◌then◌else◌}

-- `negsuc n` is -(n + 1).
pub data ℤ : Type 0 where
  pos : ℕ → ℤ
  negsuc : ℕ → ℤ

abbrev pub pos_part : ℤ → ℕ
pos_part (pos n) = n
pos_part (negsuc n) = 0

abbrev pub neg_part : ℤ → ℕ
neg_part (pos n) = 0
neg_part (negsuc n) = suc n

-- a - b, as an integer.
abbrev pub sub_ℕ : ℕ → ℕ → ℤ
sub_ℕ a b = if leb b a then pos (a - b) else negsuc (b - a - 1)

infixl 65 ◌+ℤ◌ ◌-ℤ◌
infix 50 ◌≤ℤ◌ ◌<ℤ◌
unfoldable pub ◌+ℤ◌ : ℤ → ℤ → ℤ
a +ℤ b = sub_ℕ (pos_part a + pos_part b) (neg_part a + neg_part b)

unfoldable pub ◌-ℤ◌ : ℤ → ℤ → ℤ
a -ℤ b = sub_ℕ (pos_part a + neg_part b) (neg_part a + pos_part b)

abbrev pub ◌≤ℤ◌ : ℤ → ℤ → Type 0
a ≤ℤ b = pos_part a + neg_part b ≤ pos_part b + neg_part a

abbrev pub ◌<ℤ◌ : ℤ → ℤ → Type 0
a <ℤ b = pos_part a + neg_part b < pos_part b + neg_part a

abbrev pub ltb_ℤ : ℤ → ℤ → Bool
ltb_ℤ a b = ltb (pos_part a + neg_part b) (pos_part b + neg_part a)

abbrev pub leb_ℤ : ℤ → ℤ → Bool
leb_ℤ a b = leb (pos_part a + neg_part b) (pos_part b + neg_part a)

abbrev pub ==_ℤ : ℤ → ℤ → Bool
==_ℤ a b = emby_panel.Prelude.◌==◌ (pos_part a + neg_part b) (pos_part b + neg_part a)

-- 2^63 - 1 and 2^64.
abbrev pub max_int64 : ℕ
max_int64 = 9223372036854775807

abbrev pub modulus64 : ℕ
modulus64 = 18446744073709551616

-- The int64 whose bit pattern is the number.
abbrev pub of_pattern : ℕ → ℤ
of_pattern p = if leb p max_int64 then pos p else negsuc (modulus64 - 1 - p)

-- The int64 that an exact result wraps around to.
unfoldable pub wrap64 : ℤ → ℤ
wrap64 (pos n) = of_pattern (n % modulus64)
wrap64 (negsuc n) = of_pattern (modulus64 - 1 - n % modulus64)

-- The integers that an int64 holds.
abbrev pub Fits64 : ℤ → Type 0
Fits64 a = (pos_part a ≤ max_int64) × (neg_part a ≤ max_int64 + 1)

-- Nothing wraps within the range.
pub wrap64_of_fits : (a : ℤ) → Fits64 a → wrap64 a ≡ a
unfolding wrap64
wrap64_of_fits (pos n) h = ground arith
wrap64_of_fits (negsuc n) h = ground arith

-- Go's + and - on int64.
abbrev pub add64 : ℤ → ℤ → ℤ
add64 a b = wrap64 (a +ℤ b)

abbrev pub sub64 : ℤ → ℤ → ℤ
sub64 a b = wrap64 (a -ℤ b)

pub add64_pos : (a b : ℕ) → a + b ≤ max_int64 → add64 (pos a) (pos b) ≡ pos (a + b)
unfolding wrap64 ◌+ℤ◌
add64_pos a b h = ground arith

pub sub64_pos : (a b : ℕ) → b ≤ a → a ≤ max_int64 → sub64 (pos a) (pos b) ≡ pos (a - b)
unfolding wrap64 ◌-ℤ◌
sub64_pos a b h k = ground arith

-- A difference of two non-negative int64 is exact, also below zero.
pub sub64-sub_ℕ : (a b : ℕ) → a ≤ max_int64 → b ≤ max_int64 → sub64 (pos a) (pos b) ≡ sub_ℕ a b
unfolding wrap64 ◌-ℤ◌
sub64-sub_ℕ a b h k = ground arith

-- One lemma for each operation lets `omega` work with the operations shut, at any depth.
pub +ℤ_parts :
    (a b : ℤ)
    → pos_part (a +ℤ b) + neg_part a + neg_part b ≡ neg_part (a +ℤ b) + pos_part a + pos_part b
unfolding ◌+ℤ◌
+ℤ_parts a b = ground arith

pub -ℤ_parts :
    (a b : ℤ)
    → pos_part (a -ℤ b) + neg_part a + pos_part b ≡ neg_part (a -ℤ b) + pos_part a + neg_part b
unfolding ◌-ℤ◌
-ℤ_parts a b = ground arith

pub eq_of_parts : (a b : ℤ) → pos_part a + neg_part b ≡ pos_part b + neg_part a → a ≡ b
eq_of_parts a b h = ground arith

pub ruleset int_laws = (arith, +ℤ_parts, -ℤ_parts, eq_of_parts)
