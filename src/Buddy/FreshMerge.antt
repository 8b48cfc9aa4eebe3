-- ===== src/Buddy/FreshMerge.antt =====
-- src/buddy_memory.c: merges and deallocate_memory keep the addresses of the blocks apart.
use mathlib.Core.Path.{subst}
use mathlib.Core.List.{reverse_aux}
use os_scheduler.Base.{
  ℕ, zero, suc, ◌≡◌, refl, false, List, [], ◌∷◌, arith, ◌==◌, inl, inr, Bool-cases, length, ltb,
  bit_xor, some,
}
use os_scheduler.Base.Outcome.{Outcome, done, done_injective, bind-done}
use os_scheduler.Buddy.{
  Block, Place, blocks_of, place, is_free_buddy, doubled, merge_right, merge_left, merge_block,
  focus_from, focus, deallocate_memory,
}
use os_scheduler.Buddy.Address.{has, Distinct, Distinct-suffix}
use os_scheduler.Buddy.Fresh.{Distinct-exchange, anywhere, same_addresses}

abbrev KeepsDistinct : Place → Outcome (List Block) → Type 0
KeepsDistinct p m = (after : List Block) → m ≡ done after → Distinct (blocks_of p) → Distinct after

stopped : (p : Place) → KeepsDistinct p (done (blocks_of p))
stopped p after e d = subst Distinct (done_injective e) d

-- Two neighbours become one block at the address of the left one.
joined :
    (before : List Block) (b c d : Block) (rest : List Block)
    → d.address ≡ b.address
    → Distinct (reverse_aux before (b ∷ c ∷ rest))
    → Distinct (reverse_aux before (d ∷ rest))
joined before b c d rest same distinct =
    let (apart, (_, others)) = Distinct-suffix before (b ∷ c ∷ rest) distinct in
    Distinct-exchange (λ a. Unit) before (b ∷ c ∷ rest) (d ∷ rest)
      (λ a _ out.
        let first : (b.address == a) ≡ false = ground arith in
        let behind : has a rest ≡ false = ground arith in rw (same, first, behind) refl)
      (anywhere before) (rw same (ground arith), others) distinct

module _ (merge : Place → Outcome (List Block))
    (recurse : (p : Place) → KeepsDistinct p (merge p)) where
  merge_right-KeepsDistinct :
      (before : List Block) (b : Block) (after : List Block)
      → KeepsDistinct (place before b after) (merge_right merge (place before b after))
  unfolding merge_right
  merge_right-KeepsDistinct before b [] = stopped (place before b [])
  merge_right-KeepsDistinct before b (buddy ∷ rest) = elim (Bool-cases (is_free_buddy buddy b)) [
    | inr used ↦ rw used (stopped (place before b (buddy ∷ rest)))
    | inl free ↦ rw free (λ after e d.
        recurse (place before (doubled b) rest) after e
          (joined before b buddy (doubled b) rest refl d))
  ]

  merge_left-KeepsDistinct :
      (before : List Block) (b : Block) (after : List Block)
      → KeepsDistinct (place before b after) (merge_left merge (place before b after))
  unfolding merge_left
  merge_left-KeepsDistinct [] b after = stopped (place [] b after)
  merge_left-KeepsDistinct (buddy ∷ rest) b after = elim (Bool-cases (is_free_buddy buddy b)) [
    | inr used ↦ rw used (stopped (place (buddy ∷ rest) b after))
    | inl free ↦ rw free (λ left e d.
        recurse (place rest (doubled buddy) after) left e
          (joined rest buddy b (doubled buddy) after refl d))
  ]

merge_block-KeepsDistinct : (fuel : ℕ) (p : Place) → KeepsDistinct p (merge_block fuel p)
unfolding merge_block
merge_block-KeepsDistinct zero p = λ after e. absurd (cc e)
merge_block-KeepsDistinct (suc fuel) p =
    elim (Bool-cases (ltb p.block.start (bit_xor p.block.start p.block.size))) [
      | inl right ↦ rw right (
          merge_right-KeepsDistinct (merge_block fuel) (merge_block-KeepsDistinct fuel) p.before
            p.block p.after)
      | inr left ↦ rw left (
          merge_left-KeepsDistinct (merge_block fuel) (merge_block-KeepsDistinct fuel) p.before
            p.block p.after)
    ]

-- A pointer that does not dangle leads to a block of the list.
focus_from-block :
    (address : ℕ) (before rest : List Block) (p : Place)
    → focus_from address before rest ≡ done p
    → (blocks_of p ≡ reverse_aux before rest) × (p.block.address ≡ address)
unfolding focus_from
focus_from-block address before [] p run = absurd (cc run)
focus_from-block address before (b ∷ rest) p run = elim (Bool-cases (b.address == address)) [
  | inl e ↦
      let same = done_injective (rw e at run) in
      subst (λ p. (blocks_of p ≡ reverse_aux before (b ∷ rest)) × (p.block.address ≡ address)) same
        (refl, ground arith)
  | inr e ↦ focus_from-block address (b ∷ before) rest p (rw e at run)
]

pub focus-block :
    (address : ℕ) (memory : List Block) (p : Place)
    → focus address memory ≡ done p
    → (blocks_of p ≡ memory) × (p.block.address ≡ address)
unfolding focus
focus-block address memory p run = focus_from-block address [] memory p run

-- Where deallocate_memory ends, the blocks that are left have addresses apart, if all had.
pub deallocate_memory-Distinct :
    (address : ℕ) (memory after : List Block)
    → Distinct memory
    → deallocate_memory (some address) memory ≡ done after
    → Distinct after
unfolding deallocate_memory
deallocate_memory-Distinct address memory after d run =
    let (p, found, run) = bind-done (focus address memory) _ _ run in
    let (whole, _) = focus-block address memory p found in
    let freed : Place = record p { block = record p.block { allocated = 0 } } in
    merge_block-KeepsDistinct (length (blocks_of freed)) freed after run
      (same_addresses p freed.block refl (rw whole d))
