-- ===== src/Prelude/Bits.antt =====
-- `bit_or` at variables: a number shifted left by k bits, or-ed with one of at most k bits, is
-- their sum.
use Prim.Native.Nat.{
  ℕ, zero, suc, ◌+◌, ◌*◌, ◌/◌, ◌%◌, ◌^◌, ◌≤◌, ◌<◌, max, bit_or, digits, bit_or-bitwise,
}
use mathlib.Core.Path.{◌≡◌, refl, ap, ap₂, ◌∙◌}
use native.Mathlib.Omega.{arith}
use native.Mathlib.Nat.{pow-suc}

abbrev or_digits : ℕ → ℕ → ℕ → ℕ
or_digits n a b = digits (λ b. b) max n a b

or_digits_fuel : (n m a b : ℕ) → a ≤ n → a ≤ m → or_digits n a b ≡ or_digits m a b
or_digits_fuel zero zero a b p q = refl
or_digits_fuel zero (suc m) zero b p q = refl
or_digits_fuel zero (suc m) (suc a) b p q = absurd (omega arith)
or_digits_fuel (suc n) zero zero b p q = refl
or_digits_fuel (suc n) zero (suc a) b p q = absurd (omega arith)
or_digits_fuel (suc n) (suc m) zero b p q = refl
or_digits_fuel (suc n) (suc m) (suc a) b p q =
    omega (arith, or_digits_fuel n m (suc a / 2) (b / 2) (omega arith) (omega arith))

pub zero-bit_or : (b : ℕ) → bit_or 0 b ≡ b
zero-bit_or b = bit_or-bitwise 0 b

bit_or_step : (a b : ℕ) → bit_or a b ≡ bit_or (a / 2) (b / 2) * 2 + max (a % 2) (b % 2)
bit_or_step zero b = omega (arith, zero-bit_or b, zero-bit_or (b / 2))
bit_or_step (suc a) b = omega (
  arith,
  bit_or-bitwise (suc a) b,
  bit_or-bitwise (suc a / 2) (b / 2),
  or_digits_fuel a (suc a / 2) (suc a / 2) (b / 2) (omega arith) (omega arith),
)

bit_or-zero_fuel : (n a : ℕ) → a ≤ n → bit_or a 0 ≡ a
bit_or-zero_fuel n zero h = refl
bit_or-zero_fuel zero (suc a) h = absurd (omega arith)
bit_or-zero_fuel (suc n) (suc a) h =
    omega (arith, bit_or_step (suc a) 0, bit_or-zero_fuel n (suc a / 2) (omega arith))

pub pow_suc : (k : ℕ) → 2 ^ suc k ≡ 2 * 2 ^ k
pow_suc k = omega (arith, pow-suc 2 k)

-- The same with an even number written out as a double.
double_or : (m a b : ℕ) → a ≡ 2 * m → bit_or a b ≡ bit_or m (b / 2) * 2 + b % 2
double_or m a b e =
    bit_or_step a b ∙ ap₂ (λ (x y : ℕ). bit_or x (b / 2) * 2 + y) (omega arith) (omega arith)

shift_one : (k a : ℕ) → a * 2 ^ suc k ≡ 2 * (a * 2 ^ k)
shift_one k a = omega (arith, ap (λ (t : ℕ). a * t) (pow_suc k))

pub shifted-bit_or : (k a b : ℕ) → b < 2 ^ k → bit_or (a * 2 ^ k) b ≡ a * 2 ^ k + b
shifted-bit_or zero a b h =
    ap₂ bit_or (let e : a * 2 ^ 0 ≡ a = omega arith in e) (omega arith)
    ∙ bit_or-zero_fuel a a (omega arith)
    ∙ omega arith
shifted-bit_or (suc k) a b h =
    double_or (a * 2 ^ k) (a * 2 ^ suc k) b (shift_one k a)
    ∙ omega (arith, shifted-bit_or k a (b / 2) (omega (arith, pow_suc k)), shift_one k a)
