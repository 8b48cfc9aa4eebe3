-- ===== src/Buddy/Slot.antt =====
-- Blocks that lie where the buddy system puts them, and the buddy of each.
use os_scheduler.Base.{
  ℕ, zero, suc, ◌+◌, ◌*◌, ◌%◌, ◌^◌, ◌≤◌, ◌<◌, ◌≡◌, ◌≢◌, ◌⊎◌, inl, inr, refl, ap, ◌∙◌, arith,
  bit_xor,
}
use os_scheduler.Base.Binary.{pow_pos, pow_double, bit_xor_even, bit_xor_odd, even_slot, odd_slot}
use os_scheduler.Buddy.{Block, doubled}

-- The size is a power of two, the start a multiple of it, and what is in use fits.
pub record IsBlock (b : Block) : Type 0 where
  pub order : ℕ
  pub sized : b.size ≡ 2 ^ order
  pub slot : ℕ
  pub placed : b.start ≡ slot * b.size
  pub used : b.allocated ≤ b.size

pub size_pos : {b : Block} → IsBlock b → 0 < b.size
size_pos v = omega (arith, pow_pos v.order)

pub halves : (n : ℕ) → ((h : ℕ) × (n ≡ 2 * h)) ⊎ ((h : ℕ) × (n ≡ 2 * h + 1))
halves zero = inl (0, omega arith)
halves (suc n) = elim (halves n) [
  | inl (h, e) ↦ inr (h, omega arith)
  | inr (h, e) ↦ inl (suc h, omega arith)
]

-- A block at an even slot: its buddy is the block of the same size on its right.
pub record IsEven (b : Block) : Type 0 where
  pub half : ℕ
  pub start : b.start ≡ 2 * half * b.size
  pub buddy : bit_xor b.start b.size ≡ b.start + b.size
  pub rest : b.start % (b.size * 2) ≡ 0

-- A block at an odd slot: its buddy is the block of the same size on its left.
pub record IsOdd (b : Block) : Type 0 where
  pub half : ℕ
  pub start : b.start ≡ 2 * half * b.size + b.size
  pub buddy : bit_xor b.start b.size + b.size ≡ b.start
  pub rest : b.start % (b.size * 2) ≡ b.size

pub IsEven-block :
    (b : Block) (order half : ℕ) → b.size ≡ 2 ^ order → b.start ≡ 2 * half * b.size → IsEven b
IsEven-block b order half sized start = record {
  half = half;
  start = start;
  buddy = rw (start, sized, bit_xor_even order half) (grind arith);
  rest = rw start (even_slot b.size half);
}

pub IsOdd-block :
    (b : Block) (order half : ℕ) → b.size ≡ 2 ^ order → b.start ≡ (2 * half + 1) * b.size → IsOdd b
IsOdd-block b order half sized start = record {
  half = half;
  start = start ∙ grind arith;
  buddy = rw (start, sized, bit_xor_odd order half) (grind arith);
  rest = rw start (odd_slot b.size half (rw sized (pow_pos order)));
}

pub slot-cases : (b : Block) → IsBlock b → IsEven b ⊎ IsOdd b
slot-cases b v = elim (halves v.slot) [
  | inl (h, e) ↦ inl (IsEven-block b v.order h v.sized (v.placed ∙ ap (λ (q : ℕ). q * b.size) e))
  | inr (h, e) ↦ inr (IsOdd-block b v.order h v.sized (v.placed ∙ ap (λ (q : ℕ). q * b.size) e))
]

-- Of two neighbours of the same size one is at an even slot and one at an odd slot.
pub not_both_even :
    (a b : Block) → IsEven a → IsEven b → 0 < b.size → a.size ≡ b.size → a.start + a.size ≢ b.start
not_both_even a b va vb pos same meets =
    let shifted : (2 * va.half + 1) * b.size ≡ 2 * vb.half * b.size =
      omega (arith, ap (λ (n : ℕ). 2 * va.half * n) same) in
    absurd (
      omega (
        arith,
        odd_slot b.size va.half pos,
        even_slot b.size vb.half,
        ap (λ (n : ℕ). n % (b.size * 2)) shifted,
      ))

-- A block at an even slot, doubled, is a block.
pub even_doubled : (b : Block) → IsBlock b → IsEven b → IsBlock (doubled b)
even_doubled b v e = record {
  order = suc v.order;
  sized = rw (v.sized, pow_double v.order) (omega arith);
  slot = e.half;
  placed = e.start ∙ grind arith;
  used = omega (arith, v.used);
}

-- The left half of a block, and the right half, which is at an odd slot.
pub left_half :
    (b : Block) (order : ℕ)
    → IsBlock b
    → b.size ≡ 2 ^ suc order
    → b.allocated ≡ 0
    → IsBlock (record b { size = 2 ^ order })
left_half b order v sized free = record {
  order = order;
  sized = refl;
  slot = 2 * v.slot;
  placed = v.placed ∙ rw (sized, pow_double order) (grind arith);
  used = omega arith;
}

pub right_half :
    (b new : Block) (order : ℕ)
    → IsBlock b
    → b.size ≡ 2 ^ suc order
    → new.size ≡ 2 ^ order
    → new.start ≡ b.start + 2 ^ order
    → new.allocated ≡ 0
    → IsBlock new × IsOdd new
right_half b new order v sized half start free =
    let placed : new.start ≡ (2 * v.slot + 1) * new.size =
      start ∙ rw (half, v.placed, sized, pow_double order) (grind arith) in
    (
      record {
        order = order;
        sized = half;
        slot = 2 * v.slot + 1;
        placed = placed;
        used = omega arith;
      },
      IsOdd-block new order v.slot half placed,
    )
