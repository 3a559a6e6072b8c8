-- ===== src/Common/BitOr.antt =====
-- `x | y << s` is a sum where `x` lies below the shifted bits.
use Prim.Native.Nat.{
  ℕ, zero, suc, ◌+◌, ◌*◌, ◌/◌, ◌%◌, ◌^◌, ◌≤◌, ◌<◌, max, bit_or, digits, bit_or-bitwise,
}
use mathlib.Core.Path.{◌≡◌, refl, ap}
use native.Mathlib.Omega.{arith}
use native.Mathlib.Nat.{pow-suc}

abbrev or_digits : ℕ → ℕ → ℕ → ℕ
or_digits n a b = digits (λ b. b) max n a b

or_digits_fuel : (n m a b : ℕ) → a ≤ n → a ≤ m → or_digits n a b ≡ or_digits m a b
or_digits_fuel zero zero a b p q = refl
or_digits_fuel zero (suc m) zero b p q = refl
or_digits_fuel zero (suc m) (suc a) b p q = absurd (omega arith)
or_digits_fuel (suc n) zero zero b p q = refl
or_digits_fuel (suc n) zero (suc a) b p q = absurd (omega arith)
or_digits_fuel (suc n) (suc m) zero b p q = refl
or_digits_fuel (suc n) (suc m) (suc a) b p q =
    omega (arith, or_digits_fuel n m (suc a / 2) (b / 2) (omega arith) (omega arith))

zero-bit_or : (b : ℕ) → bit_or 0 b ≡ b
zero-bit_or b = bit_or-bitwise 0 b

bit_or_step : (a b : ℕ) → bit_or a b ≡ bit_or (a / 2) (b / 2) * 2 + max (a % 2) (b % 2)
bit_or_step zero b = omega (arith, zero-bit_or b, zero-bit_or (b / 2))
bit_or_step (suc a) b = omega (
  arith,
  bit_or-bitwise (suc a) b,
  bit_or-bitwise (suc a / 2) (b / 2),
  or_digits_fuel a (suc a / 2) (suc a / 2) (b / 2) (omega arith) (omega arith),
)

-- The split of an even number at its lowest bit.
double_half : (x y : ℕ) → y ≡ x * 2 → (y / 2 ≡ x) × (y % 2 ≡ 0)
double_half x y e = omega arith

shift_one : (v s : ℕ) → v * 2 ^ suc s ≡ v * 2 ^ s * 2
shift_one v s = omega (arith, ap (λ (t : ℕ). v * t) (pow-suc 2 s))

pub bit_or_shifted : (s r v : ℕ) → r < 2 ^ s → bit_or r (v * 2 ^ s) ≡ r + v * 2 ^ s
bit_or_shifted zero zero v h = omega (arith, zero-bit_or (v * 2 ^ 0))
bit_or_shifted zero (suc r) v h = absurd (omega arith)
bit_or_shifted (suc s) r v h =
    let e = shift_one v s in
    let d = double_half (v * 2 ^ s) (v * 2 ^ suc s) e in
    omega (
      arith,
      pow-suc 2 s,
      e,
      d,
      bit_or_step r (v * 2 ^ suc s),
      ap (λ (t : ℕ). bit_or (r / 2) t) d.0,
      bit_or_shifted s (r / 2) v (omega (arith, pow-suc 2 s)),
    )

pub bit_or-lt : (k x y : ℕ) → x < 2 ^ k → y < 2 ^ k → bit_or x y < 2 ^ k
bit_or-lt zero zero y hx hy = omega (arith, zero-bit_or y)
bit_or-lt zero (suc x) y hx hy = absurd (omega arith)
bit_or-lt (suc k) x y hx hy = omega (
  arith,
  pow-suc 2 k,
  bit_or_step x y,
  bit_or-lt k (x / 2) (y / 2) (omega (arith, pow-suc 2 k)) (omega (arith, pow-suc 2 k)),
)
