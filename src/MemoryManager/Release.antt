-- ===== src/MemoryManager/Release.antt =====
-- src/memory_manager.c: assigning and releasing a block, and who gets memory next.
use mathlib.Core.List.{reverse_aux}
use os_scheduler.Base.{
  ℕ, ◌<◌, ◌≤◌, ◌≡◌, ◌⊎◌, inl, inr, Option, none, some, List, [], ◌∷◌, ◌++◌, Option-cases, All,
  All-reverse_aux, reverse_aux_split,
}
use os_scheduler.Base.Int.{ℤ}
use os_scheduler.Base.Outcome.{done, Ends}
use os_scheduler.Pcb.{Process, Pcb}
use os_scheduler.Buddy.{Place, blocks_of}
use os_scheduler.Buddy.Parted.{IsMemory}
use os_scheduler.Buddy.Merge.{Merged}
use os_scheduler.Buddy.Address.{Distinct}
use os_scheduler.HashMap.{HashMap, circled, search_key, hashmap_get}
use os_scheduler.MemoryManager.{
  ProcessMemory, MemoryEvent, MemoryManager, deallocate_process_memory, get_smallest_block,
  fit_from, get_oldest_fit,
}

abbrev pub manager : Place → HashMap ProcessMemory → List MemoryEvent → MemoryManager
manager p map log = record { memory = blocks_of p; memory_map = map; memory_log = log }

-- The block is released.
abbrev pub Released : Place → ℕ × MemoryManager → Type 0
Released p r = (r.0 ≡ 1) × Merged p r.1.memory

module _ (time : ℤ) (p : Place) (map : HashMap ProcessMemory) (log : List MemoryEvent)
    (process : Pcb) where
  -- What assign_memory_block_to_process returns and leaves: a new pid gets the block, in the PCB, the map
  -- and the log; a pid that the map holds gets it in the map alone; and nothing changes where the
  -- map is full or the probe sequence of the pid comes back to its start.
  pub data Assigned : Pcb × MemoryManager → Type 0 where
    assigned :
        {m : MemoryManager}
        → map.size < map.capacity
        → hashmap_get map process.pid ≡ done none
        → m.memory ≡ blocks_of p
        → m.memory_log ≡ MemoryEvent.allocated time process.process.id p.block ∷ log
        → Ends (Released p) (deallocate_process_memory time m process.pid)
        → Assigned (record process { memory_block = some p.block.address }, m)
    overwritten :
        {m : MemoryManager} (old : ProcessMemory)
        → hashmap_get map process.pid ≡ done (some old)
        → m.memory ≡ blocks_of p
        → m.memory_log ≡ log
        → Ends (Released p) (deallocate_process_memory time m process.pid)
        → Assigned (process, m)
    refused :
        (map.capacity ≤ map.size) ⊎ (search_key map process.pid ≡ done circled)
        → Assigned (process, manager p map log)

module _ (time : ℤ) (p : Place) (v : IsMemory (blocks_of p)) (d : Distinct (blocks_of p)) where
  module _ (map : HashMap ProcessMemory) (log : List MemoryEvent) (process : Pcb) where
    abbrev held_node : ProcessMemory
    held_node = record { memory = some p.block.address; id = process.process.id }

-- Memory is short for the process.
abbrev pub Waits : MemoryManager → Process → Type 0
Waits m process = get_smallest_block m process ≡ none

-- What get_oldest_fit returns and leaves.
pub data OldestFit (m : MemoryManager) (waiting_list : List Process)
    : Option Process × List Process → Type 0 where
  none_fits : All (Waits m) waiting_list → OldestFit m waiting_list (none, waiting_list)
  fits :
      {left : List Process} (before after : List Process) (process : Process) (block : Place)
      → waiting_list ≡ before ++ process ∷ after
      → left ≡ before ++ after
      → All (Waits m) before
      → get_smallest_block m process ≡ some block
      → OldestFit m waiting_list (some process, left)

fit_from-OldestFit :
    (m : MemoryManager) (passed rest : List Process)
    → All (Waits m) passed
    → OldestFit m (reverse_aux passed rest) (fit_from m passed rest)
unfolding fit_from
fit_from-OldestFit m passed [] short =
    OldestFit.none_fits (All-reverse_aux (Waits m) passed [] short tt)
fit_from-OldestFit m passed (process ∷ rest) short =
    elim (Option-cases (get_smallest_block m process)) [
      | inl none_left ↦
          rw (none_left, fit_from) (fit_from-OldestFit m (process ∷ passed) rest (none_left, short))
      | inr (block, found) ↦
          rw (found, fit_from)
            (OldestFit.fits (reverse_aux passed []) rest process block
              (reverse_aux_split passed (process ∷ rest)) (reverse_aux_split passed rest)
              (All-reverse_aux (Waits m) passed [] short tt) found)
    ]

-- get_oldest_fit returns the first process of the waiting list for which a free block is large
-- enough and takes exactly it out of the list, or NULL, with the list as it was, if there is none.
pub get_oldest_fit_correct :
    (m : MemoryManager) (waiting_list : List Process)
    → OldestFit m waiting_list (get_oldest_fit m waiting_list)
unfolding get_oldest_fit
get_oldest_fit_correct m waiting_list = fit_from-OldestFit m [] waiting_list tt
