-- ===== src/Buddy/Empty.antt =====
-- src/buddy_memory.c: deallocating every block in use, in any order.
use os_scheduler.Base.{ℕ, ◌≡◌, ◌≢◌, refl, sym, ◌∙◌, some, List, []}
use os_scheduler.Base.Outcome.{done, Ends-done}
use os_scheduler.Buddy.{Block, Place, blocks_of, init_memory, deallocate_memory}
use os_scheduler.Buddy.Tiling.{live}
use os_scheduler.Buddy.Parted.{IsMemory}
use os_scheduler.Buddy.Address.{Distinct}
use os_scheduler.Buddy.Deallocate.{deallocate_memory_correct}
use os_scheduler.Buddy.FreshMerge.{deallocate_memory-Distinct}
use os_scheduler.Buddy.Head.{head_address, deallocate_memory-head}
use os_scheduler.Buddy.Whole.{all_free-init_memory}

-- Calls of deallocate_memory on blocks in use, until none is in use.
pub data Emptied : List Block → List Block → Type 0 where
  nothing_left : {memory : List Block} → live memory ≡ [] → Emptied memory memory
  deallocated :
      {after last : List Block} (p : Place)
      → p.block.allocated ≢ 0
      → deallocate_memory (some p.block.address) (blocks_of p) ≡ done after
      → Emptied after last
      → Emptied (blocks_of p) last

same_head : (a b : ℕ) → head_address (init_memory a) ≡ some b → a ≡ b
unfolding init_memory
same_head a b h = cc h

-- When every block in use of a good list of distinct blocks is deallocated, in whatever order, the list
-- that is left is the single free block of init_memory, at the address of the block at the head
-- before.
pub deallocate_memory-init_memory :
    (memory last : List Block)
    → IsMemory memory
    → Distinct memory
    → Emptied memory last
    → (address : ℕ) × (head_address memory ≡ some address) × (last ≡ init_memory address)
unfolding init_memory
deallocate_memory-init_memory memory last v d (Emptied.nothing_left free) =
    let (address, whole) = all_free-init_memory memory v free in (address, rw whole refl, whole)
deallocate_memory-init_memory memory last v d (Emptied.deallocated {after} p used run rest) =
    let merged = Ends-done (deallocate_memory_correct p v d) run in
    let apart = deallocate_memory-Distinct p.block.address (blocks_of p) after d run in
    let head = Ends-done (deallocate_memory-head p v d) run in
    let (address, there, whole) = deallocate_memory-init_memory after last merged.0 apart rest in
    (address, sym head ∙ there, whole)
