-- ===== src/Buddy/Deallocate.antt =====
-- deallocate_memory.
use os_scheduler.Base.{◌+◌, ◌<◌, refl, ◌∷◌, some, arith, length, length-reverse_aux}
use os_scheduler.Base.Outcome.{Ends}
use os_scheduler.Buddy.{Place, blocks_of, deallocate_memory}
use os_scheduler.Buddy.Parted.{IsMemory, IsMemory-IsPlace}
use os_scheduler.Buddy.Merge.{Merged, merge_block_correct}
use os_scheduler.Buddy.Address.{Distinct, focus-found}

length-blocks_of : (p : Place) → length p.before + length p.after < length (blocks_of p)
length-blocks_of p = omega (arith, length-reverse_aux p.before (p.block ∷ p.after))

-- deallocate_memory of a block of a good list of distinct blocks ends with a good list, in which
-- exactly the other blocks that were in use are in use, each as it was.
pub deallocate_memory_correct :
    (p : Place)
    → IsMemory (blocks_of p)
    → Distinct (blocks_of p)
    → Ends (Merged p) (deallocate_memory (some p.block.address) (blocks_of p))
unfolding deallocate_memory
deallocate_memory_correct p v d =
    let good = IsMemory-IsPlace p v in
    let freed : Place = record p { block = record p.block { allocated = 0 } } in
    rw (focus-found p d) (
      merge_block_correct (length (blocks_of freed)) freed (length-blocks_of freed)
        (record {
          whole = record {
            order = good.whole.order;
            sized = good.whole.sized;
            slot = good.whole.slot;
            placed = good.whole.placed;
            used = omega arith;
          };
          back = good.back;
          tiled = good.tiled;
          parted_back = good.parted_back;
          parted = good.parted;
        })
        refl)
