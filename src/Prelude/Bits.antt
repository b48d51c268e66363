-- ===== src/Prelude/Bits.antt =====
-- The bits of machine words, digit by digit.
use Prim.Native.Nat.{
  ℕ, zero, suc, ◌+◌, ◌-◌, ◌*◌, ◌/◌, ◌%◌, ◌≤◌, ◌<◌, min, max, digits, bitwise, bit_and, bit_or,
  bit_and-bitwise, bit_or-bitwise, bit_xor, bit_xor-bitwise, differ,
}
use mathlib.Core.Path.{◌≡◌, refl, ap, ap₂, ◌∙◌}
use native.Mathlib.Omega.{arith}

module _ (z : ℕ → ℕ) (f : ℕ → ℕ → ℕ) where
  -- A count of digits that is large enough may be larger by one.
  digits_one_more : (n a b : ℕ) → a ≤ n → digits z f (suc n) a b ≡ digits z f n a b
  digits_one_more zero zero b le = refl
  digits_one_more zero (suc a) b le = absurd (omega arith)
  digits_one_more (suc n) zero b le = refl
  digits_one_more (suc n) (suc a) b le =
      ap (λ d. d * 2 + f (suc a % 2) (b % 2)) (digits_one_more n (suc a / 2) (b / 2) (omega arith))

  digits_more : (k n a b : ℕ) → n ≡ a + k → digits z f n a b ≡ bitwise z f a b
  digits_more zero n a b e = ap (λ m. digits z f m a b) (omega arith)
  digits_more (suc k) zero a b e = absurd (omega arith)
  digits_more (suc k) (suc n) a b e =
      digits_one_more n a b (omega arith) ∙ digits_more k n a b (omega arith)

  bitwise-step :
      (a b : ℕ)
      → bitwise z f (suc a) b ≡ bitwise z f (suc a / 2) (b / 2) * 2 + f (suc a % 2) (b % 2)
  bitwise-step a b =
      ap (λ d. d * 2 + f (suc a % 2) (b % 2))
        (digits_more (a - suc a / 2) a (suc a / 2) (b / 2) (omega arith))

pub and_step : (a b : ℕ) → bit_and a b ≡ 2 * bit_and (a / 2) (b / 2) + min (a % 2) (b % 2)
and_step zero b = omega (arith, bit_and-bitwise 0 b, bit_and-bitwise 0 (b / 2))
and_step (suc a) b = omega (
  arith,
  bitwise-step (λ x. 0) min a b,
  bit_and-bitwise (suc a) b,
  bit_and-bitwise (suc a / 2) (b / 2),
)

pub or_step : (a b : ℕ) → bit_or a b ≡ 2 * bit_or (a / 2) (b / 2) + max (a % 2) (b % 2)
or_step zero b = omega (arith, bit_or-bitwise 0 b, bit_or-bitwise 0 (b / 2))
or_step (suc a) b = omega (
  arith,
  bitwise-step (λ x. x) max a b,
  bit_or-bitwise (suc a) b,
  bit_or-bitwise (suc a / 2) (b / 2),
)

differ-zero : (y : ℕ) → differ 0 y ≡ y
differ-zero y = refl

differ-digits : (x y : ℕ) → x < 2 → y < 2 → differ x y ≡ (x + y) % 2
differ-digits zero y hx hy = omega arith
differ-digits (suc zero) zero hx hy = refl
differ-digits (suc zero) (suc zero) hx hy = refl
differ-digits (suc zero) (suc (suc y)) hx hy = absurd (omega arith)
differ-digits (suc (suc x)) y hx hy = absurd (omega arith)

pub xor_step : (a b : ℕ) → bit_xor a b ≡ 2 * bit_xor (a / 2) (b / 2) + differ (a % 2) (b % 2)
xor_step zero b = omega (arith, bit_xor-bitwise 0 b, bit_xor-bitwise 0 (b / 2), differ-zero (b % 2))
xor_step (suc a) b = omega (
  arith,
  bitwise-step (λ x. x) differ a b,
  bit_xor-bitwise (suc a) b,
  bit_xor-bitwise (suc a / 2) (b / 2),
)

-- The lowest digit and the rest are apart.
pub and_double :
    (a b x y : ℕ) → x < 2 → y < 2 → bit_and (2 * a + x) (2 * b + y) ≡ 2 * bit_and a b + min x y
and_double a b x y hx hy =
    and_step (2 * a + x) (2 * b + y)
    ∙ ap₂ (λ p q. 2 * p + q) (ap₂ bit_and (omega arith) (omega arith))
        (ap₂ min (omega arith) (omega arith))

pub or_double :
    (a b x y : ℕ) → x < 2 → y < 2 → bit_or (2 * a + x) (2 * b + y) ≡ 2 * bit_or a b + max x y
or_double a b x y hx hy =
    or_step (2 * a + x) (2 * b + y)
    ∙ ap₂ (λ p q. 2 * p + q) (ap₂ bit_or (omega arith) (omega arith))
        (ap₂ max (omega arith) (omega arith))

or_zero_fuel : (n a : ℕ) → a ≤ n → bit_or a 0 ≡ a
or_zero_fuel zero zero le = bit_or-bitwise 0 0
or_zero_fuel zero (suc a) le = absurd (omega arith)
or_zero_fuel (suc n) zero le = bit_or-bitwise 0 0
or_zero_fuel (suc n) (suc a) le =
    omega (arith, or_step (suc a) 0, or_zero_fuel n (suc a / 2) (omega arith))

pub or_zero : (a : ℕ) → bit_or a 0 ≡ a
or_zero a = or_zero_fuel a a (omega arith)

pub zero_or : (b : ℕ) → bit_or 0 b ≡ b
zero_or b = bit_or-bitwise 0 b

and_zero_fuel : (n a : ℕ) → a ≤ n → bit_and a 0 ≡ 0
and_zero_fuel zero zero le = bit_and-bitwise 0 0
and_zero_fuel zero (suc a) le = absurd (omega arith)
and_zero_fuel (suc n) zero le = bit_and-bitwise 0 0
and_zero_fuel (suc n) (suc a) le =
    omega (arith, and_step (suc a) 0, and_zero_fuel n (suc a / 2) (omega arith))

pub and_zero : (a : ℕ) → bit_and a 0 ≡ 0
and_zero a = and_zero_fuel a a (omega arith)

-- A word of `w` ones.
abbrev pub ones : ℕ → ℕ
ones zero = 0
ones (suc w) = 2 * ones w + 1

abbrev pub two_to : ℕ → ℕ
two_to zero = 1
two_to (suc w) = 2 * two_to w

-- It keeps each word that has no more digits.
pub and-ones : (w a : ℕ) → a < two_to w → bit_and a (ones w) ≡ a
and-ones zero a lt = and_zero a ∙ omega arith
and-ones (suc w) a lt =
    let half : bit_and (a / 2) (ones w) ≡ a / 2 = and-ones w (a / 2) (omega arith) in
    ap (λ k. bit_and k (ones (suc w))) {x = a} {y = 2 * (a / 2) + a % 2} (omega arith)
    ∙ and_double (a / 2) (ones w) (a % 2) 1 (omega arith) (omega arith)
    ∙ omega (arith, half)

-- The number with `w` zero digits behind it.
abbrev pub shifted : ℕ → ℕ → ℕ
shifted zero k = k
shifted (suc w) k = 2 * shifted w k

halves : (w k f : ℕ) → shifted (suc w) k + f ≡ 2 * (shifted w k + f / 2) + f % 2
halves w k f = omega arith

-- The lowest `w` digits and the rest are apart.
pub and_shifted :
    (w a b f g : ℕ)
    → f < two_to w
    → g < two_to w
    → bit_and (shifted w a + f) (shifted w b + g) ≡ shifted w (bit_and a b) + bit_and f g
and_shifted zero a b f g hf hg =
    ap₂ bit_and {y = a} {v = b} (omega arith) (omega arith)
    ∙ omega
        (arith, ap₂ bit_and {x = f} {y = 0} {u = g} {v = 0} (omega arith) (omega arith), and_zero 0)
and_shifted (suc w) a b f g hf hg =
    ap₂ bit_and (halves w a f) (halves w b g)
    ∙ and_double (shifted w a + f / 2) (shifted w b + g / 2) (f % 2) (g % 2) (omega arith)
        (omega arith)
    ∙ omega (arith, and_shifted w a b (f / 2) (g / 2) (omega arith) (omega arith), and_step f g)

pub or_shifted :
    (w a b f g : ℕ)
    → f < two_to w
    → g < two_to w
    → bit_or (shifted w a + f) (shifted w b + g) ≡ shifted w (bit_or a b) + bit_or f g
or_shifted zero a b f g hf hg =
    ap₂ bit_or {y = a} {v = b} (omega arith) (omega arith)
    ∙ omega
        (arith, ap₂ bit_or {x = f} {y = 0} {u = g} {v = 0} (omega arith) (omega arith), or_zero 0)
or_shifted (suc w) a b f g hf hg =
    ap₂ bit_or (halves w a f) (halves w b g)
    ∙ or_double (shifted w a + f / 2) (shifted w b + g / 2) (f % 2) (g % 2) (omega arith)
        (omega arith)
    ∙ omega (arith, or_shifted w a b (f / 2) (g / 2) (omega arith) (omega arith), or_step f g)

pub and_one : (a : ℕ) → bit_and a 1 ≡ a % 2
and_one a = omega (arith, and_step a 1, and_zero (a / 2))

-- Two numbers of different parity.
pub xor_parity : (a b : ℕ) → bit_and (bit_xor a b) 1 ≡ (a + b) % 2
xor_parity a b = omega (
  arith,
  and_one (bit_xor a b),
  xor_step a b,
  differ-digits (a % 2) (b % 2) (omega arith) (omega arith),
)
