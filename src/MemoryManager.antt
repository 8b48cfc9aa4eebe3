-- ===== src/MemoryManager.antt =====
-- src/memory_manager.c and .h, with log_memory_event of src/file_handlers.c: the blocks, and the map from
-- a pid to its block. `memory` and `memory_map` are the globals; a function that logs takes the time that
-- get_clk returns. A waiting list is the list of its processes. `malloc` succeeds.
pub mod Release
pub mod Waiting
mod Tests
use mathlib.Core.List.{reverse_aux}
use os_scheduler.Base.{ℕ, Option, none, some, List, [], ◌∷◌, if◌then◌else◌}
use os_scheduler.Base.Int.{ℤ, pos, pos_part, lt_ℤ}
use os_scheduler.Base.Outcome.{Outcome, done, ◌>>=◌}
use os_scheduler.Pcb.{Process, Pcb}
use os_scheduler.Buddy.{
  Block, Place, init_memory, get_smallest_block_available, allocate_memory, focus,
  deallocate_memory, destroy_memory,
}
use os_scheduler.HashMap.{HashNode, HashMap, hashmap_create, hashmap_put, hashmap_get, hashmap_free}

pub record ProcessMemory : Type 0 where
  pub memory : Option ℕ
  pub id : ℤ

-- A line of memory.log.
pub data MemoryEvent : Type 0 where
  deallocated allocated : (time id : ℤ) (block : Block) → MemoryEvent

-- The log is the latest line first.
pub record MemoryManager : Type 0 where
  pub memory : List Block
  pub memory_map : HashMap ProcessMemory
  pub memory_log : List MemoryEvent

unfoldable pub init_memory_manager : (address : ℕ) → MemoryManager
init_memory_manager address = record {
  memory = init_memory address;
  memory_map = hashmap_create 100;
  memory_log = [];
}

-- The line shows the fields of the block.
unfoldable pub log_memory_event :
    (line : Block → MemoryEvent) → (address : ℕ) → MemoryManager → Outcome MemoryManager
log_memory_event line address m = do
  p ← focus address m.memory
  done (record m { memory_log = line p.block ∷ m.memory_log })

unfoldable pub deallocate_process_memory :
    (time : ℤ) → MemoryManager → (pid : ℤ) → Outcome (ℕ × MemoryManager)
deallocate_process_memory time m pid = hashmap_get m.memory_map pid >>= elim [
  | none ↦ done (0, m)
  | some pmem ↦ elim pmem.memory [
    | none ↦ done (0, m)
    | some address ↦ do
      m ← log_memory_event (MemoryEvent.deallocated time pmem.id) address m
      memory ← deallocate_memory (some address) m.memory
      done (1, record m { memory = memory })
  ]
]

unfoldable pub allocate_process_memory :
    (malloc : ℕ → ℕ) → MemoryManager → (size : ℕ) → Outcome (Option ℕ × MemoryManager)
allocate_process_memory malloc m size = do
  (block, memory) ← allocate_memory malloc m.memory size
  done (block, record m { memory = memory })

unfoldable pub assign_memory_block_to_process :
    (time : ℤ) → MemoryManager → Pcb → (block : Option ℕ) → Outcome (Pcb × MemoryManager)
assign_memory_block_to_process time m process none = done (process, m)
assign_memory_block_to_process time m process (some block) = do
  let process_memory : ProcessMemory = record { memory = some block; id = process.process.id }
  (code, map) ← hashmap_put m.memory_map process.pid process_memory
  let m = record m { memory_map = map }
  let assigned : Outcome (Pcb × MemoryManager) =
      log_memory_event (MemoryEvent.allocated time process_memory.id) block m >>= λ m.
      done (record process { memory_block = some block }, m)
  if lt_ℤ (pos 0) code then assigned else done (process, m)

-- A free block is as large as a negative size, as it is as 0.
unfoldable pub get_smallest_block : MemoryManager → Process → Option Place
get_smallest_block m process = get_smallest_block_available m.memory (pos_part process.memory_size)

-- The `while (current != NULL)` loop, past the processes that do not fit, the nearest first.
unfoldable pub fit_from :
    MemoryManager → (passed rest : List Process) → Option Process × List Process
fit_from m passed [] = (none, reverse_aux passed [])
fit_from m passed (process ∷ rest) = elim (get_smallest_block m process) [
  | none ↦ fit_from m (process ∷ passed) rest
  | some fit_block ↦ (some process, reverse_aux passed rest)
]

-- The process, `none` for NULL, and the waiting list that is left.
unfoldable pub get_oldest_fit : MemoryManager → List Process → Option Process × List Process
unfolding fit_from
get_oldest_fit m waiting_list = fit_from m [] waiting_list

-- The addresses of the blocks that are freed, and the nodes of the map.
unfoldable pub free_memory_manager :
    MemoryManager → Outcome (List ℕ × List (HashNode ProcessMemory))
free_memory_manager m = do nodes ← hashmap_free m.memory_map; done (destroy_memory m.memory, nodes)
