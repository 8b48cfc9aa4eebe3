-- ===== src/Buddy/Allocate.antt =====
-- allocate_memory.
use mathlib.Core.List.{reverse_aux, append_assoc}
use os_scheduler.Base.{
  ℕ, zero, suc, ◌+◌, ◌*◌, ◌/◌, ◌^◌, ◌≤◌, ◌<◌, ◌≡◌, ap, ◌∙◌, refl, sym, inl, inr, true, Option, none,
  some, List, [], ◌∷◌, ◌++◌, arith, ◌==◌, Bool-cases, Option-cases,
}
use os_scheduler.Base.Binary.{pow_double}
use os_scheduler.Base.Outcome.{done, Ends, ends, Ends-bind, Ends-weaken}
use os_scheduler.Buddy.{
  Block, Place, blocks_of, get_smallest_block_available, split_block, floor_log2, split_until,
  allocate_memory,
}
use os_scheduler.Buddy.Log.{floor_log2-pow, lt-pow, IsOrder, ceil_log2-IsOrder, order-le}
use os_scheduler.Buddy.Slot.{left_half, right_half, size_pos}
use os_scheduler.Buddy.Tiling.{live, live-reverse_aux}
use os_scheduler.Buddy.Parted.{
  IsMemory, IsPlace, IsMemory-IsPlace, IsPlace-IsMemory, odd_apart, used_apart,
}
use os_scheduler.Buddy.Fit.{IsBestFit, best_fit}

split_block_free :
    (address : ℕ) (p : Place) → p.block.allocated ≡ 0 → (split_block address p).block.allocated ≡ 0
unfolding split_block
split_block_free address p free = free

live_used : (b : Block) (bs : List Block) → 0 < b.allocated → live (b ∷ bs) ≡ b ∷ live bs
unfolding live
live_used b bs h = ground arith

-- What the splits of allocate_memory leave at the pointer `q`, from the pointer `p`: the block's
-- left end at the size of the request's order, and free blocks behind it.
pub record Prepared (order : ℕ) (p q : Place) : Type 0 where
  pub good : IsPlace q
  pub before : q.before ≡ p.before
  pub block : q.block ≡ record p.block { size = 2 ^ order }
  pub spare : List Block
  pub after : q.after ≡ spare ++ p.after
  pub unused : live spare ≡ []

live-append : (xs ys : List Block) → live xs ≡ [] → live (xs ++ ys) ≡ live ys
unfolding live
live-append [] ys h = refl
live-append (b ∷ xs) ys h = ground (arith, live-append xs ys)

split_block-IsPlace :
    (address m : ℕ) (p : Place)
    → IsPlace p
    → p.block.allocated ≡ 0
    → p.block.size ≡ 2 ^ suc m
    → IsPlace (split_block address p) × ((split_block address p).block.size ≡ 2 ^ m)
unfolding split_block
split_block-IsPlace address m p v free sized =
    let half : p.block.size / 2 ≡ 2 ^ m = omega (arith, pow_double m) in
    let new : Block = record {
      address = address;
      size = 2 ^ m;
      start = p.block.start + 2 ^ m;
      allocated = 0;
    } in
    let (new_block, odd) = right_half p.block new m v.whole sized refl refl refl in
    let reach : p.block.start + 2 ^ m + 2 ^ m ≡ p.block.start + p.block.size =
      omega (arith, pow_double m) in
    rw half (
      record {
        whole = left_half p.block m v.whole sized free;
        back = v.back;
        tiled = (refl, new_block, rw reach v.tiled);
        parted_back = v.parted_back;
        parted = (odd_apart new p.after (size_pos new_block) odd, v.parted);
      },
      refl,
    )

-- The pointer itself, when its block has the order.
arrived : (order : ℕ) (p : Place) → IsPlace p → p.block.size ≡ 2 ^ order → Prepared order p p
unfolding live
arrived order p v sized = record {
  good = v;
  before = refl;
  block = ground arith;
  spare = [];
  after = refl;
  unused = refl;
}

-- One more split in front of the others.
split_before :
    (address order : ℕ) (p q : Place)
    → Prepared order (split_block address p) q
    → Prepared order p q
unfolding split_block live
split_before address order p q r =
    let new : Block = record {
      address = address;
      size = p.block.size / 2;
      start = p.block.start + p.block.size / 2;
      allocated = 0;
    } in
    record {
      good = r.good;
      before = r.before;
      block = r.block;
      spare = r.spare ++ new ∷ [];
      after = r.after ∙ sym (append_assoc r.spare (new ∷ []) p.after);
      unused = live-append r.spare (new ∷ []) r.unused;
    }

-- A block of order `m` is split down to `order`, with fuel for the orders between.
split_until_correct :
    (malloc : ℕ → ℕ) (fuel k order m : ℕ) (p : Place)
    → order ≤ m
    → m < fuel + order
    → IsPlace p
    → p.block.allocated ≡ 0
    → p.block.size ≡ 2 ^ m
    → Ends (Prepared order p) (split_until malloc fuel k order p)
unfolding split_until
split_until_correct malloc zero k order m p low small v free sized = absurd (omega arith)
split_until_correct malloc (suc fuel) k order zero p low small v free sized =
    let logged : floor_log2 p.block.size ≡ done 0 = ap floor_log2 sized ∙ floor_log2-pow 0 in
    let least : order ≡ 0 = omega arith in
    let there : (0 == order) ≡ true = ground arith in
    rw (logged, there) (ends (arrived order p v (sized ∙ ap (λ (n : ℕ). 2 ^ n) (sym least))))
split_until_correct malloc (suc fuel) k order (suc m) p low small v free sized =
    let logged : floor_log2 p.block.size ≡ done (suc m) =
      ap floor_log2 sized ∙ floor_log2-pow (suc m) in
    elim (Bool-cases (suc m == order)) [
      | inl there ↦
          let least : order ≡ suc m = ground arith in
          rw (logged, there) (ends (arrived order p v (sized ∙ ap (λ (n : ℕ). 2 ^ n) (sym least))))
      | inr above ↦
          let (good, half) = split_block-IsPlace (malloc k) m p v free sized in
          rw (logged, above)
            (Ends-weaken
              (split_until_correct malloc fuel (suc k) order m (split_block (malloc k) p)
                (ground arith) (ground arith) good (split_block_free (malloc k) p free) half)
              λ q r. split_before (malloc k) order p q r)
    ]

-- What allocate_memory returns and leaves when it finds a block.
pub record Taken (memory : List Block) (size address : ℕ) (after : List Block) : Type 0 where
  pub found : Place
  pub best : IsBestFit size memory memory (some found)
  pub taken : Block
  pub spare : List Block
  pub result : after ≡ reverse_aux found.before (taken ∷ (spare ++ found.after))
  pub unused : live spare ≡ []
  pub same_address : (address ≡ found.block.address) × (taken.address ≡ address)
  pub same_start : taken.start ≡ found.block.start
  pub in_use : taken.allocated ≡ size
  pub tight : (size ≤ taken.size) × (taken.size < 2 * size)
  pub good : IsMemory after
  pub kept : live after ≡ reverse_aux (live found.before) (taken ∷ live found.after)

-- The two results of allocate_memory.
abbrev pub Allocated : List Block → ℕ → Option ℕ × List Block → Type 0
Allocated memory size (none, after) = IsBestFit size memory memory none × (after ≡ memory)
Allocated memory size (some address, after) = Taken memory size address after

-- The block that the pointer is at is taken into use.
module _ (memory : List Block) (size order : ℕ) (found q : Place) (positive : 0 < size)
    (best : IsBestFit size memory memory (some found)) (o : IsOrder size order)
    (r : Prepared order found q) where
  abbrev taken_block : Block
  taken_block = record q.block { allocated = size }

  abbrev taken_place : Place
  taken_place = record q { block = taken_block }

  taken-IsPlace : IsPlace taken_place
  taken-IsPlace = record {
    whole = record {
      order = r.good.whole.order;
      sized = r.good.whole.sized;
      slot = r.good.whole.slot;
      placed = r.good.whole.placed;
      used = rw r.block o.enough;
    };
    back = r.good.back;
    tiled = r.good.tiled;
    parted_back = r.good.parted_back;
    parted = r.good.parted;
  }

  chosen_block-Taken : Taken memory size q.block.address (blocks_of taken_place)
  chosen_block-Taken =
      let (left, right) = used_apart taken_block q.before q.after positive in
      record {
        found = found;
        best = best;
        taken = taken_block;
        spare = r.spare;
        result = rw (r.before, r.after);
        unused = r.unused;
        same_address = (ap (λ (b : Block). b.address) r.block, refl);
        same_start = ap (λ (b : Block). b.start) r.block;
        in_use = refl;
        tight = rw r.block (o.enough, o.tight);
        good = IsPlace-IsMemory taken_place taken-IsPlace left right;
        kept =
            live-reverse_aux q.before (taken_block ∷ q.after)
            ∙ rw (
              live_used taken_block q.after positive,
              r.before,
              r.after,
              live-append r.spare found.after r.unused,
            );
      }

-- allocate_memory of a positive size on a good list ends. It returns NULL, and changes nothing,
-- exactly if no free block is large enough. Else it takes the left end of a smallest free block
-- that is, at the least power of two that holds the size; the list stays good, and every other
-- block in use stays as it is.
pub allocate_memory_correct :
    (malloc : ℕ → ℕ) (memory : List Block) (size : ℕ)
    → IsMemory memory
    → 0 < size
    → Ends (Allocated memory size) (allocate_memory malloc memory size)
unfolding allocate_memory
allocate_memory_correct malloc memory size v positive =
    elim (Option-cases (get_smallest_block_available memory size)) [
      | inl nothing ↦
          rw (nothing, allocate_memory) (ends (rw nothing at (best_fit memory size), refl))
      | inr (found, is) ↦
          let best : IsBestFit size memory memory (some found) = rw is at (best_fit memory size) in
          let (order, o) = ceil_log2-IsOrder size positive in
          let good = IsMemory-IsPlace found (rw best.0 v) in
          let fits : size ≤ 2 ^ good.whole.order = omega (arith, best.1.1, good.whole.sized) in
          rw (is, allocate_memory, o.runs)
            (Ends-bind
              (split_until_correct malloc (suc found.block.size) 0 order good.whole.order found
                (order-le size order good.whole.order o fits)
                (omega (arith, good.whole.sized, lt-pow good.whole.order)) good best.1.0
                good.whole.sized)
              λ q r. ends (chosen_block-Taken memory size order found q positive best o r))
    ]
