-- ===== src/Base/Int.antt =====
-- C integers, as mathematical integers over the native numbers. Both parts of an integer are
-- numbers that `omega` reads, and they stay shut in proofs.
use Prim.Native.Nat.{◌<◌, ◌≤◌, ◌^◌, ℕ, suc, ◌+◌, ◌-◌}
use mathlib.Core.Path.{◌≡◌, refl}
use mathlib.Core.Logic.{◌↔◌, ◌⊎◌, inl, inr}
use mathlib.Core.Bool.{Bool, true, false}
use native.Mathlib.Omega.{arith}
use os_scheduler.Base.Tests
use os_scheduler.Base.Tests.{ltb, leb, ◌==◌, if◌then◌else◌}

-- `negsuc n` is -(n + 1).
pub data ℤ : Type 0 where
  pos : ℕ → ℤ
  negsuc : ℕ → ℤ

unfoldable pub pos_part : ℤ → ℕ
pos_part (pos n) = n
pos_part (negsuc n) = 0

unfoldable pub neg_part : ℤ → ℕ
neg_part (pos n) = 0
neg_part (negsuc n) = suc n

-- a - b, as an integer.
abbrev pub sub_ℕ : ℕ → ℕ → ℤ
sub_ℕ a b = if leb b a then pos (a - b) else negsuc (b - a - 1)

infixl 65 ◌+ℤ◌ ◌-ℤ◌
infix 50 ◌≤ℤ◌ ◌<ℤ◌
unfoldable pub ◌+ℤ◌ : ℤ → ℤ → ℤ
unfolding pos_part neg_part
a +ℤ b = sub_ℕ (pos_part a + pos_part b) (neg_part a + neg_part b)

unfoldable pub ◌-ℤ◌ : ℤ → ℤ → ℤ
unfolding pos_part neg_part
a -ℤ b = sub_ℕ (pos_part a + neg_part b) (neg_part a + pos_part b)

unfoldable pub neg : ℤ → ℤ
unfolding pos_part neg_part
neg a = sub_ℕ (neg_part a) (pos_part a)

abbrev pub ◌≤ℤ◌ : ℤ → ℤ → Type 0
a ≤ℤ b = pos_part a + neg_part b ≤ pos_part b + neg_part a

abbrev pub ◌<ℤ◌ : ℤ → ℤ → Type 0
a <ℤ b = suc (pos_part a + neg_part b) ≤ pos_part b + neg_part a

unfoldable pub lt_ℤ : ℤ → ℤ → Bool
unfolding pos_part neg_part
lt_ℤ a b = ltb (pos_part a + neg_part b) (pos_part b + neg_part a)

unfoldable pub le_ℤ : ℤ → ℤ → Bool
unfolding pos_part neg_part
le_ℤ a b = leb (pos_part a + neg_part b) (pos_part b + neg_part a)

unfoldable pub eq_ℤ : ℤ → ℤ → Bool
unfolding pos_part neg_part
eq_ℤ a b = (pos_part a + neg_part b) == (pos_part b + neg_part a)

pub pos_part-pos : (n : ℕ) → pos_part (pos n) ≡ n
unfolding pos_part
pos_part-pos n = refl

pub neg_part-pos : (n : ℕ) → neg_part (pos n) ≡ 0
unfolding neg_part
neg_part-pos n = refl

pub -ℤ_parts :
    (a b : ℤ)
    → pos_part (a -ℤ b) + neg_part a + pos_part b ≡ neg_part (a -ℤ b) + pos_part a + neg_part b
unfolding ◌-ℤ◌
-ℤ_parts a b = ground arith

pub +ℤ_parts :
    (a b : ℤ)
    → pos_part (a +ℤ b) + neg_part a + neg_part b ≡ neg_part (a +ℤ b) + pos_part a + pos_part b
unfolding ◌+ℤ◌
+ℤ_parts a b = ground arith

pub neg_parts : (a : ℤ) → pos_part (neg a) + pos_part a ≡ neg_part (neg a) + neg_part a
unfolding neg
neg_parts a = ground arith

pub eq_of_parts : (a b : ℤ) → pos_part a + neg_part b ≡ pos_part b + neg_part a → a ≡ b
unfolding pos_part neg_part
eq_of_parts a b h = ground arith

pub lt_ℤ-cases : (a b : ℤ) → ((lt_ℤ a b ≡ true) × (a <ℤ b)) ⊎ ((lt_ℤ a b ≡ false) × (b ≤ℤ a))
unfolding lt_ℤ
lt_ℤ-cases a b = elim (Tests.Bool-cases (lt_ℤ a b)) [
  | inl e ↦ inl (e, ground arith)
  | inr e ↦ inr (e, ground arith)
]

pub le_ℤ-cases : (a b : ℤ) → ((le_ℤ a b ≡ true) × (a ≤ℤ b)) ⊎ ((le_ℤ a b ≡ false) × (b <ℤ a))
unfolding le_ℤ
le_ℤ-cases a b = elim (Tests.Bool-cases (le_ℤ a b)) [
  | inl e ↦ inl (e, ground arith)
  | inr e ↦ inr (e, ground arith)
]

pub ruleset int_laws =
    (arith, pos_part-pos, neg_part-pos, -ℤ_parts, +ℤ_parts, neg_parts, eq_of_parts)

-- An integer has one sign.
pub one_part : (a : ℤ) → (pos_part a ≡ 0) ⊎ (neg_part a ≡ 0)
unfolding pos_part neg_part
one_part (pos n) = inr refl
one_part (negsuc n) = inl refl

pub eq_ℤ_iff : (a b : ℤ) → (eq_ℤ a b ≡ true) ↔ (a ≡ b)
unfolding eq_ℤ
eq_ℤ_iff a b = (λ h. eq_of_parts a b (ground arith), λ h. ground arith)

-- An `int` of 32 bits.
abbrev pub FitsInt : ℤ → Type 0
FitsInt z = (pos_part z < 2 ^ 31) × (neg_part z ≤ 2 ^ 31)
