-- ===== src/Buddy/Fresh.antt =====
-- src/buddy_memory.c: no two blocks of the list have one address, after a split and after a merge.
use mathlib.Core.Path.{subst}
use mathlib.Core.List.{reverse_aux}
use os_scheduler.Base.{
  ℕ, zero, suc, ◌<◌, ◌≤◌, ◌≡◌, refl, sym, ap, ◌∙◌, false, List, [], ◌∷◌, arith, ◌==◌, Option, some,
  inl, inr, Bool-cases, Option-cases, All,
}
use os_scheduler.Base.Outcome.{done, done_injective, bind-done}
use os_scheduler.Buddy.{
  Block, Place, blocks_of, split_block, split_until, allocate_memory, ceil_log2, floor_log2,
  get_smallest_block_available,
}
use os_scheduler.Buddy.Fit.{best_fit}
use os_scheduler.Buddy.Address.{has, Distinct, has-reverse_aux, Distinct-suffix}

-- What stands behind the blocks of `before` is exchanged.
pub Distinct-exchange :
    (P : ℕ → Type 0) (before xs ys : List Block)
    → ((a : ℕ) → P a → has a xs ≡ false → has a ys ≡ false)
    → All (λ (b : Block). P b.address) before
    → Distinct ys
    → Distinct (reverse_aux before xs)
    → Distinct (reverse_aux before ys)
Distinct-exchange P [] xs ys keeps ps distinct d = distinct
Distinct-exchange P (b ∷ before) xs ys keeps ps distinct d =
    let (apart, _) = Distinct-suffix before (b ∷ xs) d in
    Distinct-exchange P before (b ∷ xs) (b ∷ ys)
      (λ a p out. let out_ys = keeps a p (ground arith) in ground arith) ps.1
      (keeps b.address ps.0 apart, distinct) d

-- The address is none of the list's.
abbrev pub Fresh : (malloc : ℕ → ℕ) → (k : ℕ) → List Block → Type 0
Fresh malloc k memory = (j : ℕ) → k ≤ j → has (malloc j) memory ≡ false

other_before :
    (new : ℕ) (before after : List Block)
    → has new (reverse_aux before after) ≡ false
    → All (λ (b : Block). (new == b.address) ≡ false) before
other_before new [] after out = tt
other_before new (b ∷ before) after out =
    let both = sym (has-reverse_aux new before (b ∷ after)) ∙ out in
    (ground arith, other_before new before (b ∷ after) out)

pub anywhere : (bs : List Block) → All (λ (b : Block). Unit {0}) bs
anywhere [] = tt
anywhere (b ∷ bs) = (tt, anywhere bs)

split_block-Distinct :
    (new : ℕ) (p : Place)
    → Distinct (blocks_of p)
    → has new (blocks_of p) ≡ false
    → Distinct (blocks_of (split_block new p))
unfolding split_block
split_block-Distinct new p d out =
    let (apart, rest) = Distinct-suffix p.before (p.block ∷ p.after) d in
    let both = sym (has-reverse_aux new p.before (p.block ∷ p.after)) ∙ out in
    Distinct-exchange (λ a. (new == a) ≡ false) p.before (p.block ∷ p.after) _
      (λ a p out. ground arith) (other_before new p.before (p.block ∷ p.after) out)
      (ground arith, (ground arith, rest)) d

-- What a split leaves has the same addresses and the new one.
has-split_block :
    (a new : ℕ) (p : Place)
    → has a (blocks_of p) ≡ false
    → (new == a) ≡ false
    → has a (blocks_of (split_block new p)) ≡ false
unfolding split_block
has-split_block a new p out other =
    let both = sym (has-reverse_aux a p.before (p.block ∷ p.after)) ∙ out in
    has-reverse_aux a p.before _ ∙ ground arith

-- Another block at the same address.
pub same_addresses :
    (p : Place) (b : Block)
    → b.address ≡ p.block.address
    → Distinct (blocks_of p)
    → Distinct (blocks_of (record p { block = b }))
same_addresses p b same d =
    let (apart, rest) = Distinct-suffix p.before (p.block ∷ p.after) d in
    Distinct-exchange (λ a. Unit) p.before (p.block ∷ p.after) (b ∷ p.after)
      (λ a _ out. rw same out) (anywhere p.before) (rw same apart, rest) d

module _ (malloc : ℕ → ℕ) (injective : (i j : ℕ) → i < j → (malloc i == malloc j) ≡ false) where
  split_until-Distinct :
      (fuel k order : ℕ) (p q : Place)
      → Distinct (blocks_of p)
      → Fresh malloc k (blocks_of p)
      → split_until malloc fuel k order p ≡ done q
      → Distinct (blocks_of q)
  unfolding split_until
  split_until-Distinct zero k order p q d fresh run = absurd (cc run)
  split_until-Distinct (suc fuel) k order p q d fresh run =
      let (current, _, run) = bind-done (floor_log2 p.block.size) _ _ run in
      elim (Bool-cases (current == order)) [
        | inl e ↦ subst (λ r. Distinct (blocks_of r)) (done_injective (rw e at run)) d
        | inr e ↦
            split_until-Distinct fuel (suc k) order (split_block (malloc k) p) q
              (split_block-Distinct (malloc k) p d (fresh k (omega arith)))
              (λ j le.
                has-split_block (malloc j) (malloc k) p (fresh j (omega arith))
                  (injective k j (omega arith)))
              (rw e at run)
      ]

  -- Where allocate_memory ends, and no call of malloc returns the address of a block, no two
  -- blocks of the list have one address, if none had before.
  pub allocate_memory-Distinct :
      (memory : List Block) (size : ℕ) (r : Option ℕ × List Block)
      → Distinct memory
      → Fresh malloc 0 memory
      → allocate_memory malloc memory size ≡ done r
      → Distinct r.1
  unfolding allocate_memory
  allocate_memory-Distinct memory size r d fresh run =
      elim (Option-cases (get_smallest_block_available memory size)) [
        | inl e ↦ subst (λ x. Distinct x.1) (done_injective (rw (e, allocate_memory) at run)) d
        | inr (found, e) ↦
            let whole : blocks_of found ≡ memory = (rw e at (best_fit memory size)).0 in
            let (order, _, run) = bind-done (ceil_log2 size) _ _ (rw (e, allocate_memory) at run) in
            let (p, split, run) =
              bind-done (split_until malloc (suc found.block.size) 0 order found) _ _ run in
            let d' =
              split_until-Distinct (suc found.block.size) 0 order found p (rw whole d)
                (rw whole fresh) split in
            subst (λ x. Distinct x.1) (done_injective run) (same_addresses p _ refl d')
      ]

split_until-address :
    (malloc : ℕ → ℕ) (fuel k order : ℕ) (p q : Place)
    → split_until malloc fuel k order p ≡ done q
    → q.block.address ≡ p.block.address
unfolding split_until split_block
split_until-address malloc zero k order p q run = absurd (cc run)
split_until-address malloc (suc fuel) k order p q run =
    let (current, _, run) = bind-done (floor_log2 p.block.size) _ _ run in
    elim (Bool-cases (current == order)) [
      | inl e ↦ ap (λ r. r.block.address) (sym (done_injective (rw e at run)))
      | inr e ↦
          split_until-address malloc fuel (suc k) order (split_block (malloc k) p) q (rw e at run)
    ]

-- Where allocate_memory ends, the block that get_smallest_block_available finds is the one that is
-- returned.
pub allocate_memory-address :
    (malloc : ℕ → ℕ) (memory : List Block) (size : ℕ) (found : Place) (r : Option ℕ × List Block)
    → get_smallest_block_available memory size ≡ some found
    → allocate_memory malloc memory size ≡ done r
    → r.0 ≡ some found.block.address
unfolding allocate_memory
allocate_memory-address malloc memory size found r e run =
    let (order, _, run) = bind-done (ceil_log2 size) _ _ (rw (e, allocate_memory) at run) in
    let (p, split, run) =
      bind-done (split_until malloc (suc found.block.size) 0 order found) _ _ run in
    ap (λ x. x.0) (sym (done_injective run))
    ∙ ap some (split_until-address malloc (suc found.block.size) 0 order found p split)
