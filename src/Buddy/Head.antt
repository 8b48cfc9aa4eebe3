-- ===== src/Buddy/Head.antt =====
-- src/buddy_memory.c: the pointer to the whole list, which its owner keeps across the calls.
use mathlib.Core.List.{reverse_aux}
use os_scheduler.Base.{
  ℕ, zero, suc, ◌≡◌, refl, sym, ap, ◌∙◌, inl, inr, Option, none, some, List, [], ◌∷◌, ltb, length,
  Bool-cases, bit_xor,
}
use os_scheduler.Base.Outcome.{Outcome, done, Ends, ends, Ends-result, done_injective}
use os_scheduler.Buddy.{
  Block, Place, blocks_of, place, is_free_buddy, doubled, merge_right, merge_left, merge_block,
  deallocate_memory,
}
use os_scheduler.Buddy.Parted.{IsMemory}
use os_scheduler.Buddy.Address.{Distinct, focus-found}
use os_scheduler.Buddy.Deallocate.{deallocate_memory_correct}

-- Where the pointer to the list leads.
abbrev pub head_address : List Block → Option ℕ
head_address [] = none
head_address (b ∷ _) = some b.address

-- What follows a block, and its other fields, do not matter to the head.
head_address-place :
    (before : List Block) (b c : Block) (xs ys : List Block)
    → b.address ≡ c.address
    → head_address (reverse_aux before (b ∷ xs)) ≡ head_address (reverse_aux before (c ∷ ys))
head_address-place [] b c xs ys same = ap some same
head_address-place (a ∷ before) b c xs ys same =
    head_address-place before a a (b ∷ xs) (c ∷ ys) refl

abbrev KeepsHead : Place → Outcome (List Block) → Type 0
KeepsHead p m =
    (after : List Block) → m ≡ done after → head_address after ≡ head_address (blocks_of p)

stopped : (p : Place) → KeepsHead p (done (blocks_of p))
stopped p after e = sym (ap head_address (done_injective e))

module _ (merge : Place → Outcome (List Block))
    (recurse : (p : Place) → KeepsHead p (merge p)) where
  merge_right-KeepsHead :
      (before : List Block) (b : Block) (after : List Block)
      → KeepsHead (place before b after) (merge_right merge (place before b after))
  unfolding merge_right
  merge_right-KeepsHead before b [] = stopped (place before b [])
  merge_right-KeepsHead before b (buddy ∷ rest) = elim (Bool-cases (is_free_buddy buddy b)) [
    | inr used ↦ rw used (stopped (place before b (buddy ∷ rest)))
    | inl free ↦ rw free (λ after e.
        recurse (place before (doubled b) rest) after e
        ∙ head_address-place before (doubled b) b rest (buddy ∷ rest) refl)
  ]

  merge_left-KeepsHead :
      (before : List Block) (b : Block) (after : List Block)
      → KeepsHead (place before b after) (merge_left merge (place before b after))
  unfolding merge_left
  merge_left-KeepsHead [] b after = stopped (place [] b after)
  merge_left-KeepsHead (buddy ∷ rest) b after = elim (Bool-cases (is_free_buddy buddy b)) [
    | inr used ↦ rw used (stopped (place (buddy ∷ rest) b after))
    | inl free ↦ rw free (λ left e.
        recurse (place rest (doubled buddy) after) left e
        ∙ head_address-place rest (doubled buddy) buddy after (b ∷ after) refl)
  ]

merge_block-KeepsHead : (fuel : ℕ) (p : Place) → KeepsHead p (merge_block fuel p)
unfolding merge_block
merge_block-KeepsHead zero p = λ after e. absurd (cc e)
merge_block-KeepsHead (suc fuel) p =
    elim (Bool-cases (ltb p.block.start (bit_xor p.block.start p.block.size))) [
      | inl right ↦ rw right (
          merge_right-KeepsHead (merge_block fuel) (merge_block-KeepsHead fuel) p.before p.block
            p.after)
      | inr left ↦ rw left (
          merge_left-KeepsHead (merge_block fuel) (merge_block-KeepsHead fuel) p.before p.block
            p.after)
    ]

-- deallocate_memory of a block of a good list of distinct blocks ends, and the block that the pointer to
-- the list leads to stands at the head of the list that is left: the pointer does not dangle.
pub deallocate_memory-head :
    (p : Place)
    → IsMemory (blocks_of p)
    → Distinct (blocks_of p)
    → Ends
        (λ after. head_address after ≡ head_address (blocks_of p))
        (deallocate_memory (some p.block.address) (blocks_of p))
unfolding deallocate_memory
deallocate_memory-head p v d =
    let (after, run, _) = Ends-result (deallocate_memory_correct p v d) in
    let freed : Place = record p { block = record p.block { allocated = 0 } } in
    let merged : merge_block (length (blocks_of freed)) freed ≡ done after =
      rw (focus-found p d, deallocate_memory) at run in
    rw (focus-found p d, merged)
      (ends (
        merge_block-KeepsHead (length (blocks_of freed)) freed after merged
        ∙ head_address-place p.before freed.block p.block p.after p.after refl))
