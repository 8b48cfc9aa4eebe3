-- ===== src/Buddy/Tests.antt =====
-- Runs of the buddy allocator.
use os_scheduler.Base.{ℕ, ◌+◌, ◌*◌, ◌^◌, ◌≤◌, ◌≡◌, refl, some, [], ◌∷◌, arith}
use os_scheduler.Base.Outcome.{done, ◌>>=◌, Ends}
use os_scheduler.Buddy.{
  Block, Place, place, blocks_of, init_memory, scan_smallest, get_smallest_block_available,
  split_block, floor_log2_loop, floor_log2, ceil_log2, split_until, allocate_memory, merge_block,
  merge_left, merge_right, focus_from, focus, deallocate_memory,
}
use os_scheduler.Buddy.Slot.{IsBlock}
use os_scheduler.Buddy.Parted.{IsMemory}
use os_scheduler.Buddy.Merge.{Merged}
use os_scheduler.Buddy.Allocate.{Allocated, allocate_memory_correct}
use os_scheduler.Buddy.Head.{head_address, deallocate_memory-head}
use os_scheduler.Buddy.Deallocate.{deallocate_memory_correct}
use os_scheduler.Buddy.Tiling.{live}
use os_scheduler.Buddy.Empty.{Emptied, deallocate_memory-init_memory}
use os_scheduler.Buddy.Whole.{init_memory-IsMemory}

abbrev block : ℕ → ℕ → ℕ → ℕ → Block
block address size start allocated = record {
  address = address;
  size = size;
  start = start;
  allocated = allocated;
}

abbrev malloc : ℕ → ℕ
malloc k = k + 2

allocate_100 :
    allocate_memory malloc (init_memory 1) 100
    ≡ done
        (some 1, block 1 128 0 100 ∷ block 4 128 128 0 ∷ block 3 256 256 0 ∷ block 2 512 512 0 ∷ [])
unfolding allocate_memory init_memory scan_smallest get_smallest_block_available split_block
    floor_log2_loop floor_log2 ceil_log2 split_until
allocate_100 = refl

free_100 :
    (do (_, m) ← allocate_memory malloc (init_memory 1) 100; deallocate_memory (some 1) m)
    ≡ done (init_memory 1)
unfolding allocate_memory init_memory scan_smallest get_smallest_block_available split_block
    floor_log2_loop floor_log2 ceil_log2 split_until merge_block merge_left merge_right focus_from
    focus deallocate_memory
free_100 = refl

-- The memory after a process has taken 100 bytes.
abbrev one_taken : Place
one_taken =
    place [] (block 1 128 0 100) (block 4 128 128 0 ∷ block 3 256 256 0 ∷ block 2 512 512 0 ∷ [])

fresh-IsMemory : IsMemory (init_memory 1)
fresh-IsMemory = (init_memory-IsMemory 1).0

abbrev slotted : (address order slot allocated : ℕ) → Block
slotted address order slot allocated = block address (2 ^ order) (slot * 2 ^ order) allocated

slotted-IsBlock :
    (address order slot allocated : ℕ)
    → allocated ≤ 2 ^ order
    → IsBlock (slotted address order slot allocated)
slotted-IsBlock address order slot allocated h = record {
  order = order;
  sized = refl;
  slot = slot;
  placed = refl;
  used = h;
}

one_taken-IsMemory : IsMemory (blocks_of one_taken)
one_taken-IsMemory = record {
  tiled = (
    refl,
    slotted-IsBlock 1 7 0 100 (omega arith),
    (
      refl,
      slotted-IsBlock 4 7 1 0 (omega arith),
      (
        refl,
        slotted-IsBlock 3 8 1 0 (omega arith),
        (refl, slotted-IsBlock 2 9 1 0 (omega arith), refl),
      ),
    ),
  );
  parted = (refl, (refl, (refl, (tt, tt))));
}

allocate_memory_correct_example :
    Ends (Allocated (blocks_of one_taken) 200) (allocate_memory malloc (blocks_of one_taken) 200)
allocate_memory_correct_example =
    allocate_memory_correct malloc (blocks_of one_taken) 200 one_taken-IsMemory (omega arith)

deallocate_memory_correct_example :
    Ends (Merged one_taken) (deallocate_memory (some 1) (blocks_of one_taken))
deallocate_memory_correct_example =
    deallocate_memory_correct one_taken one_taken-IsMemory (refl, (refl, (refl, (refl, tt))))

deallocate_memory-head_example :
    Ends (λ after. head_address after ≡ some 1) (deallocate_memory (some 1) (blocks_of one_taken))
deallocate_memory-head_example =
    deallocate_memory-head one_taken one_taken-IsMemory (refl, (refl, (refl, (refl, tt))))

-- Giving back the only block in use, at the address 1.
one_taken-Emptied : Emptied (blocks_of one_taken) (init_memory 1)
unfolding init_memory live merge_block merge_left merge_right focus_from focus deallocate_memory
one_taken-Emptied =
    Emptied.deallocated one_taken (λ e. absurd (ground arith)) refl (Emptied.nothing_left refl)

deallocate_memory-init_memory_example :
    (address : ℕ) × (head_address (blocks_of one_taken) ≡ some address)
    × (init_memory 1 ≡ init_memory address)
deallocate_memory-init_memory_example =
    deallocate_memory-init_memory (blocks_of one_taken) (init_memory 1) one_taken-IsMemory
      (refl, (refl, (refl, (refl, tt)))) one_taken-Emptied
