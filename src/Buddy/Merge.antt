-- ===== src/Buddy/Merge.antt =====
-- merge_block and deallocate_memory.
use mathlib.Core.List.{reverse_aux}
use os_scheduler.Base.{
  ℕ, zero, suc, ◌+◌, ◌*◌, ◌≤◌, ◌<◌, ◌≡◌, inl, inr, sym, ◌∙◌, List, [], ◌∷◌, arith, true, false, ltb,
  length, bit_xor, Bool-cases,
}
use os_scheduler.Base.Outcome.{Outcome, Ends, ends, Ends-weaken}
use os_scheduler.Buddy.{
  Block, Place, blocks_of, place, doubled, is_free_buddy, merge_right, merge_left, merge_block,
}
use os_scheduler.Buddy.Slot.{IsEven, IsOdd, size_pos, slot-cases, even_doubled, IsEven-block}
use os_scheduler.Buddy.Tiling.{live, live-reverse_aux}
use os_scheduler.Buddy.Parted.{
  IsMemory, IsPlace, IsPlace-IsMemory, ApartFrom, ApartBefore, odd_apart, even_apart,
}

-- What merging a free block into the list comes to: a good list, with the same blocks in use.
abbrev pub Merged : Place → List Block → Type 0
Merged p memory = IsMemory memory × (live memory ≡ live (reverse_aux p.before p.after))

live_skip :
    (before : List Block) (b : Block) (after : List Block)
    → b.allocated ≡ 0
    → live (reverse_aux before (b ∷ after)) ≡ live (reverse_aux before after)
unfolding live
live_skip before b after free = simp (live-reverse_aux, free)

stop :
    (p : Place)
    → IsPlace p
    → p.block.allocated ≡ 0
    → ApartBefore p.before p.block
    → ApartFrom p.block p.after
    → Merged p (blocks_of p)
stop p v free left right =
    (IsPlace-IsMemory p v left right, live_skip p.before p.block p.after free)

module _ (merge : Place → Outcome (List Block)) (room : ℕ)
    (recurse : (p : Place)
      → length p.before + length p.after < room
      → IsPlace p
      → p.block.allocated ≡ 0
      → Ends (Merged p) (merge p)) where
  merge_right_correct :
      (before : List Block) (b : Block) (after : List Block)
      → length before + length after ≤ room
      → IsPlace (place before b after)
      → b.allocated ≡ 0
      → IsEven b
      → Ends (Merged (place before b after)) (merge_right merge (place before b after))
  unfolding merge_right
  merge_right_correct before b [] small v free even =
      ends (stop (place before b []) v free (even_apart b before (size_pos v.whole) even v.back) tt)
  merge_right_correct before b (c ∷ rest) small v free even =
      elim (Bool-cases (is_free_buddy c b)) [
        | inr refused ↦ rw refused (
            ends (
              stop (place before b (c ∷ rest)) v free
                (even_apart b before (size_pos v.whole) even v.back) (ground arith)))
        | inl accepted ↦
            let same : c.size ≡ b.size = ground arith in
            let unused : c.allocated ≡ 0 = ground arith in
            let (start, _, tiled) = v.tiled in
            let reach : b.start + b.size * 2 ≡ c.start + c.size = omega arith in
            rw accepted (
              Ends-weaken
                (recurse (place before (doubled b) rest) (omega arith)
                  (record {
                    whole = even_doubled b v.whole even;
                    back = v.back;
                    tiled = rw reach tiled;
                    parted_back = v.parted_back;
                    parted = v.parted.1;
                  })
                  free)
                λ memory (good, kept). (good, kept ∙ sym (live_skip before c rest unused)))
      ]

  merge_left_correct :
      (before : List Block) (b : Block) (after : List Block)
      → length before + length after ≤ room
      → IsPlace (place before b after)
      → b.allocated ≡ 0
      → IsOdd b
      → Ends (Merged (place before b after)) (merge_left merge (place before b after))
  unfolding merge_left
  merge_left_correct [] b after small v free odd =
      ends (stop (place [] b after) v free tt (odd_apart b after (size_pos v.whole) odd))
  merge_left_correct (a ∷ rest) b after small v free odd = elim (Bool-cases (is_free_buddy a b)) [
    | inr refused ↦ rw refused (
        ends (
          stop (place (a ∷ rest) b after) v free (ground arith)
            (odd_apart b after (size_pos v.whole) odd)))
    | inl accepted ↦
        let same : a.size ≡ b.size = ground arith in
        let unused : a.allocated ≡ 0 = ground arith in
        let (meets, whole, back) = v.back in
        let reach : a.start + a.size * 2 ≡ b.start + b.size = omega arith in
        rw accepted (
          Ends-weaken
            (recurse (place rest (doubled a) after) (omega arith)
              (record {
                whole = even_doubled a whole (
                    IsEven-block a whole.order odd.half whole.sized
                      (rw same (omega (arith, odd.start))));
                back = back;
                tiled = rw reach v.tiled;
                parted_back = v.parted_back.1;
                parted = v.parted;
              })
              unused)
            λ memory (good, kept). (good, kept ∙ sym (live_skip rest a after unused)))
  ]

-- With fuel for every other block, merge_block of a free block ends with a good list.
pub merge_block_correct :
    (fuel : ℕ) (p : Place)
    → length p.before + length p.after < fuel
    → IsPlace p
    → p.block.allocated ≡ 0
    → Ends (Merged p) (merge_block fuel p)
unfolding merge_block
merge_block_correct zero p small v free = elim small [ ]
merge_block_correct (suc fuel) p small v free =
    let recurse = merge_block_correct fuel in
    elim (slot-cases p.block v.whole) [
      | inl even ↦
          let test : ltb p.block.start (bit_xor p.block.start p.block.size) ≡ true =
            ground (arith, even.buddy, size_pos v.whole) in
          rw test (
            merge_right_correct (merge_block fuel) fuel recurse p.before p.block p.after
              (omega arith) v free even)
      | inr odd ↦
          let test : ltb p.block.start (bit_xor p.block.start p.block.size) ≡ false =
            ground (arith, odd.buddy) in
          rw test (
            merge_left_correct (merge_block fuel) fuel recurse p.before p.block p.after
              (omega arith) v free odd)
    ]
