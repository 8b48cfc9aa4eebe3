-- ===== src/Buddy.antt =====
-- src/buddy_memory.c and .h: the buddy allocator over a doubly linked list of blocks.
-- The list is kept in the order of the `next` links. A pointer to a block is a `Place`: the block,
-- the blocks that `prev` leads to (nearest first) and the blocks that `next` leads to. A pointer
-- that is kept across calls is the block's address, and `focus` follows it: an address at which no
-- block stands (null, or freed) is undefined behaviour. `malloc` is a parameter: the address that
-- its k-th call of an operation returns. The debug output of print_memo is left out.
pub mod Log
pub mod Slot
pub mod Tiling
pub mod Parted
pub mod Merge
pub mod Fit
pub mod Allocate
pub mod Address
pub mod Deallocate
pub mod Fresh
pub mod FreshMerge
pub mod Head
pub mod Whole
pub mod Empty
mod Tests
use mathlib.Core.List.{reverse_aux}
use os_scheduler.Base.{
  ℕ, zero, suc, ◌+◌, ◌-◌, ◌*◌, ◌/◌, Bool, true, false, ◌&&◌, ◌||◌, Option, none, some, List, [],
  ◌∷◌, ltb, leb, ◌==◌, if◌then◌else◌, length, bit_xor,
}
use os_scheduler.Base.Outcome.{Outcome, done, fault, starved, ◌>>=◌}

abbrev pub max_size : ℕ
max_size = 1024

-- `allocated` is the size that was asked for, and 0 in a free block.
pub record Block : Type 0 where
  pub address : ℕ
  pub size : ℕ
  pub start : ℕ
  pub allocated : ℕ

pub record Place : Type 0 where
  pub before : List Block
  pub block : Block
  pub after : List Block

-- The list from its head, as seen from a pointer into it.
abbrev pub blocks_of : Place → List Block
blocks_of p = reverse_aux p.before (p.block ∷ p.after)

abbrev pub place : List Block → Block → List Block → Place
place before block after = record { before = before; block = block; after = after }

unfoldable pub init_memory : (address : ℕ) → List Block
init_memory address = record { address = address; size = max_size; start = 0; allocated = 0 } ∷ []

-- The `while (current != NULL)` loop; `smallest` is NULL while it is `none`.
abbrev pub improves : Block → ℕ → Option Place → Bool
improves current size none = current.allocated == 0 && leb size current.size
improves current size (some smallest) =
    current.allocated == 0 && (leb size current.size && ltb current.size smallest.block.size)

unfoldable pub scan_smallest : (before rest : List Block) → ℕ → Option Place → Option Place
scan_smallest before [] size smallest = smallest
scan_smallest before (current ∷ rest) size smallest =
    scan_smallest (current ∷ before) rest size
      (if improves current size smallest then some (place before current rest) else smallest)

unfoldable pub get_smallest_block_available : List Block → ℕ → Option Place
unfolding scan_smallest
get_smallest_block_available memory size = scan_smallest [] memory size none

-- The pointer stays at the left half.
unfoldable pub split_block : (address : ℕ) → Place → Place
split_block address p =
    let half = p.block.size / 2 in
    let new_block : Block = record {
      address = address;
      size = half;
      start = p.block.start + half;
      allocated = 0;
    } in
    place p.before (record p.block { size = half }) (new_block ∷ p.after)

-- `(int)log2(n)` and `(int)ceil(log2(n))` of a positive `n`. At 0 the logarithm is minus infinity,
-- and the conversion to `int` is undefined.
unfoldable pub floor_log2_loop : ℕ → ℕ → ℕ
floor_log2_loop zero n = 0
floor_log2_loop (suc fuel) n =
    let rest = floor_log2_loop fuel (n / 2) in if ltb n 2 then 0 else suc rest

unfoldable pub floor_log2 : ℕ → Outcome ℕ
floor_log2 n = if n == 0 then fault else done (floor_log2_loop n n)

unfoldable pub ceil_log2 : ℕ → Outcome ℕ
ceil_log2 n =
    if n == 0 then fault else if n == 1 then done 0 else done (suc (floor_log2_loop n (n - 1)))

-- The `while` loop of allocate_memory; `k` counts its calls of `malloc`.
unfoldable pub split_until : (malloc : ℕ → ℕ) → (fuel k : ℕ) → (order : ℕ) → Place → Outcome Place
split_until malloc zero k order p = starved
split_until malloc (suc fuel) k order p = do
  current ← floor_log2 p.block.size
  let continue = split_until malloc fuel (suc k) order (split_block (malloc k) p)
  if current == order then done p else continue

-- The address of the block, or `none` for NULL, and the list that is left.
unfoldable pub allocate_memory : (malloc : ℕ → ℕ) → List Block → ℕ → Outcome (Option ℕ × List Block)
allocate_memory malloc memory size = elim (get_smallest_block_available memory size) [
  | none ↦ done (none, memory)
  | some found ↦ do
    required_order ← ceil_log2 size
    p ← split_until malloc (suc found.block.size) 0 required_order found
    let taken = record p { block = record p.block { allocated = size } }
    done (some p.block.address, blocks_of taken)
]

-- `buddy->size == block->size && buddy->allocated == 0`
abbrev pub is_free_buddy : Block → Block → Bool
is_free_buddy buddy block = buddy.size == block.size && buddy.allocated == 0

abbrev pub doubled : Block → Block
doubled b = record b { size = b.size * 2 }

-- The two branches of merge_block, over its recursive call. The list is what is left when the
-- merges stop.
unfoldable pub merge_right : (merge : Place → Outcome (List Block)) → Place → Outcome (List Block)
merge_right merge p = elim p.after [
  | [] ↦ done (blocks_of p)
  | buddy ∷ rest ↦
      if is_free_buddy buddy p.block
      then merge (place p.before (doubled p.block) rest)
      else done (blocks_of p)
]

unfoldable pub merge_left : (merge : Place → Outcome (List Block)) → Place → Outcome (List Block)
merge_left merge p = elim p.before [
  | [] ↦ done (blocks_of p)
  | buddy ∷ rest ↦
      if is_free_buddy buddy p.block
      then merge (place rest (doubled buddy) p.after)
      else done (blocks_of p)
]

unfoldable pub merge_block : ℕ → Place → Outcome (List Block)
merge_block zero p = starved
merge_block (suc fuel) p =
    let buddy_start = bit_xor p.block.start p.block.size in
    let right = merge_right (merge_block fuel) p in
    let left = merge_left (merge_block fuel) p in
    if ltb p.block.start buddy_start then right else left

-- Following a pointer to a block.
unfoldable pub focus_from : (address : ℕ) → (before rest : List Block) → Outcome Place
focus_from address before [] = fault
focus_from address before (b ∷ rest) =
    if b.address == address
    then done (place before b rest)
    else focus_from address (b ∷ before) rest

unfoldable pub focus : (address : ℕ) → List Block → Outcome Place
unfolding focus_from
focus address memory = focus_from address [] memory

-- `none` for NULL.
unfoldable pub deallocate_memory : Option ℕ → List Block → Outcome (List Block)
deallocate_memory none memory = done memory
deallocate_memory (some address) memory = do
  p ← focus address memory
  let freed = record p { block = record p.block { allocated = 0 } }
  merge_block (length (blocks_of freed)) freed

-- The addresses that are freed, in order.
unfoldable pub destroy_memory : List Block → List ℕ
destroy_memory [] = []
destroy_memory (temp ∷ current) = temp.address ∷ destroy_memory current
