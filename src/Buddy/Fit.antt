-- ===== src/Buddy/Fit.antt =====
-- get_smallest_block_available: the best fit.
use mathlib.Core.List.{reverse_aux, reverse_aux-reverse_aux-nil}
use os_scheduler.Base.{
  ℕ, ◌≤◌, ◌≡◌, refl, inl, inr, Option, none, some, List, [], ◌∷◌, arith, if◌then◌else◌, Bool-cases,
  All, All-reverse_aux, All-weaken,
}
use os_scheduler.Buddy.{
  Block, Place, blocks_of, place, improves, scan_smallest, get_smallest_block_available,
}

-- The block is free and large enough.
abbrev pub Fits : ℕ → Block → Type 0
Fits size b = (b.allocated ≡ 0) × (size ≤ b.size)

-- The pointer is to a free block of `memory` that is large enough, and no block of `seen` that
-- fits is smaller; or it is NULL, and no block of `seen` fits.
abbrev pub IsBestFit : ℕ → List Block → List Block → Option Place → Type 0
IsBestFit size memory seen none = All (λ b. Fits size b → ⊥) seen
IsBestFit size memory seen (some p) =
    (blocks_of p ≡ memory) × Fits size p.block × All (λ b. Fits size b → p.block.size ≤ b.size) seen

IsBestFit-improves :
    (size : ℕ) (memory before : List Block) (b : Block) (rest : List Block)
    (smallest : Option Place)
    → reverse_aux before (b ∷ rest) ≡ memory
    → IsBestFit size memory before smallest
    → IsBestFit size memory
        (b ∷ before)
        (if improves b size smallest then some (place before b rest) else smallest)
IsBestFit-improves size memory before b rest none whole best =
    elim (Bool-cases (improves b size none)) [
      | inl better ↦ rw better (
        whole,
        (ground arith, ground arith),
        (
          (λ fits. omega arith),
          All-weaken (λ c. Fits size c → ⊥) (λ c. Fits size c → b.size ≤ c.size)
              (λ c out fits. absurd (out fits)) before best,
        ),
      )
      | inr worse ↦ rw worse ((λ fits. ground arith), best)
    ]
IsBestFit-improves size memory before b rest (some p) whole (there, fits, least) =
    elim (Bool-cases (improves b size (some p))) [
      | inl better ↦ rw better (
        whole,
        (ground arith, ground arith),
        (
          (λ _. omega arith),
          All-weaken (λ c. Fits size c → p.block.size ≤ c.size) (λ c. Fits size c → b.size ≤ c.size)
              (λ c bound c_fits. let le = bound c_fits in ground arith) before least,
        ),
      )
      | inr worse ↦ rw worse (there, fits, ((λ b_fits. ground arith), least))
    ]

scan_smallest-IsBestFit :
    (size : ℕ) (memory before rest : List Block) (smallest : Option Place)
    → reverse_aux before rest ≡ memory
    → IsBestFit size memory before smallest
    → IsBestFit size memory (reverse_aux rest before) (scan_smallest before rest size smallest)
unfolding scan_smallest
scan_smallest-IsBestFit size memory before [] smallest whole best = best
scan_smallest-IsBestFit size memory before (b ∷ rest) smallest whole best =
    scan_smallest-IsBestFit size memory (b ∷ before) rest
      (if improves b size smallest then some (place before b rest) else smallest) whole
      (IsBestFit-improves size memory before b rest smallest whole best)

seen_all :
    (size : ℕ) (memory : List Block) (o : Option Place)
    → IsBestFit size memory (reverse_aux memory []) o
    → IsBestFit size memory memory o
seen_all size memory none h =
    rw (reverse_aux-reverse_aux-nil memory []) at
      (All-reverse_aux (λ b. Fits size b → ⊥) (reverse_aux memory []) [] h tt)
seen_all size memory (some p) (there, fits, least) = (
  there,
  fits,
  rw (reverse_aux-reverse_aux-nil memory []) at (
      All-reverse_aux (λ b. Fits size b → p.block.size ≤ b.size) (reverse_aux memory []) [] least
        tt),
)

-- get_smallest_block_available finds a smallest free block that is large enough, and NULL exactly
-- when there is none.
pub best_fit :
    (memory : List Block) (size : ℕ)
    → IsBestFit size memory memory (get_smallest_block_available memory size)
unfolding get_smallest_block_available
best_fit memory size =
    seen_all size memory (scan_smallest [] memory size none)
      (scan_smallest-IsBestFit size memory [] memory none refl tt)
