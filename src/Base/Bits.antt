-- ===== src/Base/Bits.antt =====
-- `bit_or` of two numbers with no bit in common is their sum.
use Prim.Native.Nat.{
  ℕ, zero, suc, ◌+◌, ◌*◌, ◌/◌, ◌%◌, ◌^◌, ◌≤◌, ◌<◌, max, bit_or, digits, bit_or-bitwise,
}
use mathlib.Core.Path.{◌≡◌, refl, ap, ◌∙◌}
use native.Mathlib.Omega.{arith}
use native.Mathlib.Nat.{pow-suc}

-- the second operand is `b` once the first has no digit left
abbrev or_digits : ℕ → ℕ → ℕ → ℕ
or_digits n a b = digits (λ b. b) max n a b

or_digits_fuel : (n m a b : ℕ) → a ≤ n → a ≤ m → or_digits n a b ≡ or_digits m a b
or_digits_fuel zero zero a b p q = refl
or_digits_fuel zero (suc m) zero b p q = refl
or_digits_fuel zero (suc m) (suc a) b p q = absurd (omega arith)
or_digits_fuel (suc n) zero zero b p q = refl
or_digits_fuel (suc n) zero (suc a) b p q = absurd (omega arith)
or_digits_fuel (suc n) (suc m) zero b p q = refl
or_digits_fuel (suc n) (suc m) (suc a) b p q =
    omega (arith, or_digits_fuel n m (suc a / 2) (b / 2) (omega arith) (omega arith))

pub zero-bit_or : (b : ℕ) → bit_or 0 b ≡ b
zero-bit_or b = bit_or-bitwise 0 b

bit_or_step : (a b : ℕ) → bit_or a b ≡ bit_or (a / 2) (b / 2) * 2 + max (a % 2) (b % 2)
bit_or_step zero b = omega (arith, zero-bit_or b, zero-bit_or (b / 2))
bit_or_step (suc a) b = omega (
  arith,
  bit_or-bitwise (suc a) b,
  bit_or-bitwise (suc a / 2) (b / 2),
  or_digits_fuel a (suc a / 2) (suc a / 2) (b / 2) (omega arith) (omega arith),
)

bit_or-zero_fuel : (n a : ℕ) → a ≤ n → bit_or a 0 ≡ a
bit_or-zero_fuel n zero h = refl
bit_or-zero_fuel zero (suc a) h = absurd (omega arith)
bit_or-zero_fuel (suc n) (suc a) h =
    omega (arith, bit_or_step (suc a) 0, bit_or-zero_fuel n (suc a / 2) (omega arith))

-- Shifting `a` left by `k` leaves `k` free bits, which `b` fills.
pub bit_or_disjoint : (k a b : ℕ) → b < 2 ^ k → bit_or (a * 2 ^ k) b ≡ a * 2 ^ k + b
bit_or_disjoint zero a b h =
    let e : b ≡ 0 = omega arith in
    rw e (omega (arith, bit_or-zero_fuel (a * 1) (a * 1) (omega arith)))
bit_or_disjoint (suc k) a b h =
    let p : 2 ^ suc k ≡ 2 ^ k * 2 = pow-suc 2 k in
    let x : a * 2 ^ suc k ≡ a * 2 ^ k * 2 = omega (arith, ap (λ (t : ℕ). a * t) p) in
    let half : (a * 2 ^ k * 2) / 2 ≡ a * 2 ^ k = omega arith in
    let low : (a * 2 ^ k * 2) % 2 ≡ 0 = omega arith in
    let ih = bit_or_disjoint k a (b / 2) (omega arith) in
    let step = bit_or_step (a * 2 ^ k * 2) b in rw x (step ∙ rw (half, low, ih) (omega arith))

-- Two ports of 16 bits and a word of 32 bits, packed into 64 bits.
pub bit_or_fields :
    (a b c : ℕ)
    → a < 2 ^ 16
    → b < 2 ^ 16
    → c < 2 ^ 32
    → bit_or (bit_or (a * 2 ^ 48 % 2 ^ 64) (b * 2 ^ 32)) c ≡ a * 2 ^ 48 + b * 2 ^ 32 + c
bit_or_fields a b c ha hb hc =
    let fits : a * 2 ^ 48 % 2 ^ 64 ≡ a * 2 ^ 48 = omega arith in
    let regroup : a * 2 ^ 48 + b * 2 ^ 32 ≡ (a * 2 ^ 16 + b) * 2 ^ 32 = omega arith in
    rw (fits, bit_or_disjoint 48 a (b * 2 ^ 32) (omega arith), regroup)
      (bit_or_disjoint 32 (a * 2 ^ 16 + b) c hc)
