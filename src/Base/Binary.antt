-- ===== src/Base/Binary.antt =====
-- Binary arithmetic of the C code: the exclusive or of a multiple of a power of two with that
-- power, and remainders of such multiples.
use Prim.Native.Nat.{
  ℕ, zero, suc, ◌+◌, ◌*◌, ◌/◌, ◌%◌, ◌^◌, ◌≤◌, ◌<◌, bit_xor, digits, differ, bit_xor-bitwise,
}
use mathlib.Core.Path.{◌≡◌, refl, sym, ◌∙◌}
use native.Mathlib.Nat.{pow-suc, one-le-pow, add-mul-mod_self_right, mul-mod_left, mod-eq_of_lt}
use native.Mathlib.Omega.{arith}

-- The digits of an exclusive or, with fuel for those of `a`.
abbrev xor_of : (a b fuel : ℕ) → ℕ
xor_of a b fuel = digits (λ rest. rest) differ fuel a b

xor_of_zero : (b fuel : ℕ) → xor_of 0 b fuel ≡ b
xor_of_zero b zero = refl
xor_of_zero b (suc fuel) = refl

-- Fuel beyond `a` makes no difference.
xor_of-enough : (a b k l : ℕ) → a ≤ l → a ≤ k → xor_of a b k ≡ xor_of a b l
xor_of-enough zero b k l more enough = xor_of_zero b k ∙ sym (xor_of_zero b l)
xor_of-enough (suc a) b (suc k) (suc l) more enough =
    omega (arith, xor_of-enough (suc a / 2) (b / 2) k l (omega arith) (omega arith))
xor_of-enough (suc a) b zero l more enough = absurd (omega arith)
xor_of-enough (suc a) b (suc k) zero more enough = absurd (omega arith)

zero-bit_xor : (b : ℕ) → bit_xor 0 b ≡ b
zero-bit_xor b = bit_xor-bitwise 0 b

differ_small : (x y : ℕ) → x < 2 → y < 2 → differ x y ≡ (x + y) % 2
differ_small zero zero p q = refl
differ_small zero (suc zero) p q = refl
differ_small (suc zero) zero p q = refl
differ_small (suc zero) (suc zero) p q = refl
differ_small x y p q = absurd (omega arith)

differ-digit : (a b : ℕ) → differ (a % 2) (b % 2) ≡ (a + b) % 2
differ-digit a b = differ_small (a % 2) (b % 2) (omega arith) (omega arith) ∙ omega arith

bit_xor_step : (a b : ℕ) → bit_xor a b ≡ bit_xor (a / 2) (b / 2) * 2 + (a + b) % 2
bit_xor_step zero b = omega (arith, zero-bit_xor b, zero-bit_xor (b / 2))
bit_xor_step (suc a) b = omega (
  arith,
  bit_xor-bitwise (suc a) b,
  bit_xor-bitwise (suc a / 2) (b / 2),
  differ-digit (suc a) b,
  xor_of-enough (suc a / 2) (b / 2) a (suc a / 2) (omega arith) (omega arith),
)

bit_xor-zero_fuel : (n a : ℕ) → a ≤ n → bit_xor a 0 ≡ a
bit_xor-zero_fuel n zero h = zero-bit_xor 0
bit_xor-zero_fuel zero (suc a) h = absurd (omega arith)
bit_xor-zero_fuel (suc n) (suc a) h =
    omega (arith, bit_xor_step (suc a) 0, bit_xor-zero_fuel n (suc a / 2) (omega arith))

bit_xor-zero : (a : ℕ) → bit_xor a 0 ≡ a
bit_xor-zero a = bit_xor-zero_fuel a a (omega arith)

-- Doubling both numbers doubles their exclusive or.
bit_xor-double : (a b : ℕ) → bit_xor (2 * a) (2 * b) ≡ 2 * bit_xor a b
bit_xor-double a b =
    let half_a : 2 * a / 2 ≡ a = omega arith in
    let half_b : 2 * b / 2 ≡ b = omega arith in
    bit_xor_step (2 * a) (2 * b) ∙ rw (half_a, half_b) (omega arith)

pub pow_pos : (k : ℕ) → 0 < 2 ^ k
pow_pos k = one-le-pow k 2 (omega arith)

pub pow_double : (k : ℕ) → 2 ^ suc k ≡ 2 * 2 ^ k
pow_double k = omega (arith, pow-suc 2 k)

-- The buddy of slot `q` is the slot beside it in the same pair.
pub bit_xor_even : (k q : ℕ) → bit_xor (2 * q * 2 ^ k) (2 ^ k) ≡ (2 * q + 1) * 2 ^ k
bit_xor_even zero q =
    omega (arith, bit_xor_step (2 * q * 2 ^ 0) (2 ^ 0), bit_xor-zero (2 * q * 2 ^ 0 / 2))
bit_xor_even (suc k) q =
    let outer : 2 * q * 2 ^ suc k ≡ 2 * (2 * q * 2 ^ k) = rw (pow_double k) (grind arith) in
    rw (outer, pow_double k, bit_xor-double (2 * q * 2 ^ k) (2 ^ k), bit_xor_even k q) (omega arith)

pub bit_xor_odd : (k q : ℕ) → bit_xor ((2 * q + 1) * 2 ^ k) (2 ^ k) ≡ 2 * q * 2 ^ k
bit_xor_odd zero q =
    omega
      (arith, bit_xor_step ((2 * q + 1) * 2 ^ 0) (2 ^ 0), bit_xor-zero ((2 * q + 1) * 2 ^ 0 / 2))
bit_xor_odd (suc k) q =
    let outer : (2 * q + 1) * 2 ^ suc k ≡ 2 * ((2 * q + 1) * 2 ^ k) =
      rw (pow_double k) (grind arith) in
    rw (outer, pow_double k, bit_xor-double ((2 * q + 1) * 2 ^ k) (2 ^ k), bit_xor_odd k q)
      (omega arith)

-- Whether a multiple of `p` is one of `2 * p`.
pub even_slot : (p q : ℕ) → 2 * q * p % (p * 2) ≡ 0
even_slot p q =
    let multiple : 2 * q * p ≡ q * (p * 2) = grind arith in rw multiple (mul-mod_left q (p * 2))

pub odd_slot : (p q : ℕ) → 0 < p → (2 * q + 1) * p % (p * 2) ≡ p
odd_slot p q h =
    let shifted : (2 * q + 1) * p ≡ p + q * (p * 2) = grind arith in
    rw (shifted, add-mul-mod_self_right p q (p * 2)) (mod-eq_of_lt (omega arith))
