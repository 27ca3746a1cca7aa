-- ===== src/Types/Decimal.antt =====
-- Products and quotients of Decimals that are rounded to a unit, 10^-18, half to even. (Python rounds
-- them half to even too, to 28 significant digits.)
use multi_agent_llm_trading.Prelude.{ℕ, suc, ◌+◌, ◌*◌, ◌≤◌, ◌<◌, ◌≡◌, ◌⊎◌, inl, inr, arith}
use multi_agent_llm_trading.Prelude.Int.{ℤ, pos, negsuc, pos_part, neg_part, sub_ℕ}
use multi_agent_llm_trading.Types.Records.{unit, div_half_even}

-- a / 100, as a Decimal.
abbrev pub percent : ℕ → ℕ
percent a = a * 10000000000000000

-- a * b
unfoldable pub times : ℕ → ℕ → ℕ
times a b = div_half_even (a * b) unit

-- a / b, for a divisor that is not zero.
unfoldable pub over : ℕ → ℕ → ℕ
over a b = div_half_even (a * unit) b

-- a * b, of either sign: one of the four products at most is not zero.
unfoldable pub times_ℤ : ℤ → ℤ → ℤ
times_ℤ a b =
    sub_ℕ (times (pos_part a) (pos_part b) + times (neg_part a) (neg_part b))
      (times (pos_part a) (neg_part b) + times (neg_part a) (pos_part b))

-- a / b, for a divisor of either sign that is not zero.
unfoldable pub over_ℤ : ℕ → ℤ → ℤ
over_ℤ a (pos b) = pos (over a b)
over_ℤ a (negsuc n) = sub_ℕ 0 (over a (suc n))

-- A multiple of a unit is not rounded.
round_mul : (a : ℕ) → div_half_even (a * unit) unit ≡ a
unfolding div_half_even
round_mul a = ground arith

-- Rounding to a unit keeps the order.
round_mono : (a b : ℕ) → a ≤ b → div_half_even a unit ≤ div_half_even b unit
unfolding div_half_even
round_mono a b h = ground arith

pub mul_mono : (a b c d : ℕ) → a ≤ b → c ≤ d → a * c ≤ b * d
mul_mono a b c d h k = grind arith

pub times_mono : (a b c d : ℕ) → a ≤ b → c ≤ d → times a c ≤ times b d
unfolding times
times_mono a b c d h k = round_mono (a * c) (b * d) (mul_mono a b c d h k)

-- A factor of at most one.
pub times-le : (a b : ℕ) → b ≤ unit → times a b ≤ a
unfolding times
times-le a b h =
    let bounded = round_mono (a * b) (a * unit) (mul_mono a a b unit (omega arith) h) in
    omega (arith, bounded, round_mul a)

pub times_one : (a : ℕ) → times a unit ≡ a
unfolding times
times_one = round_mul

pub times_zero : (a : ℕ) → times a 0 ≡ 0
unfolding times div_half_even
times_zero a = ground arith

pub zero_times : (a : ℕ) → times 0 a ≡ 0
unfolding times div_half_even
zero_times a = ground arith

-- The product of two integers that are not negative, and a product with nothing.
pub times_ℤ-pos : (a b : ℕ) → times_ℤ (pos a) (pos b) ≡ pos (times a b)
unfolding times_ℤ
times_ℤ-pos a b = ground (arith, zero_times 0, times_zero a, zero_times b)

pub zero_times_ℤ : (b : ℤ) → times_ℤ (pos 0) b ≡ pos 0
unfolding times_ℤ
zero_times_ℤ b = ground (arith, zero_times (pos_part b), zero_times (neg_part b), zero_times 0)

-- A product is negative only where a factor is.
pub times_ℤ-neg : (a b : ℤ) → 0 < neg_part (times_ℤ a b) → (0 < neg_part a) ⊎ (0 < neg_part b)
times_ℤ-neg (pos a) (pos b) h = let same = times_ℤ-pos a b in ground arith
times_ℤ-neg (negsuc a) b h = inl (omega arith)
times_ℤ-neg (pos a) (negsuc b) h = inr (omega arith)
