-- ===== src/Generator/Assign.antt =====
-- src/process_generator.c: giving a block to a process.
use mathlib.Core.Path.{subst}
use os_scheduler.Base.{
  ℕ, ◌<◌, ◌≡◌, refl, sym, ◌∙◌, inl, inr, false, Option, none, some, List, ◌++◌, ◌==◌, Bool-cases,
}
use os_scheduler.Base.Int.{ℤ, pos, lt_ℤ, pos_part}
use os_scheduler.Base.Outcome.{Ends, ends, Ends-weaken, Ends-result}
use os_scheduler.Pcb.{Process, Pcb}
use os_scheduler.Buddy.{Block, Place, blocks_of, get_smallest_block_available}
use os_scheduler.Buddy.Parted.{IsMemory}
use os_scheduler.Buddy.Address.{has, Distinct, focus-found}
use os_scheduler.Buddy.Allocate.{Taken, Allocated, allocate_memory_correct}
use os_scheduler.Buddy.Fresh.{allocate_memory-Distinct, allocate_memory-address}
use os_scheduler.HashMap.{HashMap}
use os_scheduler.HashMap.Laws.{IsMap}
use os_scheduler.HashMap.Put.{hashmap_put_correct}
use os_scheduler.MemoryManager.{
  ProcessMemory, MemoryManager, log_memory_event, allocate_process_memory,
  assign_memory_block_to_process,
}
use os_scheduler.MemoryManager.Release.{manager}
use os_scheduler.Generator.{Generator, System, allocate}

-- The blocks tile the memory, stand at distinct addresses, and the map finds its keys.
pub record IsGood (m : MemoryManager) : Type 0 where
  pub memory : IsMemory m.memory
  pub distinct : Distinct m.memory
  pub map : IsMap m.memory_map

-- A block in use of the list.
pub record Stands (address : ℕ) (memory : List Block) : Type 0 where
  pub place : Place
  pub whole : blocks_of place ≡ memory
  pub there : place.block.address ≡ address

-- malloc returns addresses at which no block stands, and none twice.
pub record IsMalloc (malloc : List Block → ℕ → ℕ) : Type 0 where
  pub fresh : (memory : List Block) (k : ℕ) → has (malloc memory k) memory ≡ false
  pub apart : (memory : List Block) (i j : ℕ) → i < j → (malloc memory i == malloc memory j) ≡ false

-- Assigning a block that stands ends, whether or not the map has room for the pid.
assign_place :
    (time : ℤ) (p : Place) (map : HashMap ProcessMemory) (log : _) (process : Pcb)
    → Distinct (blocks_of p)
    → IsMap map
    → Ends
        (λ r. (r.0.process ≡ process.process) × (r.1.memory ≡ blocks_of p) × IsMap r.1.memory_map)
        (assign_memory_block_to_process time (manager p map log) process (some p.block.address))
unfolding assign_memory_block_to_process log_memory_event
assign_place time p map log process d good =
    let node : ProcessMemory = record { memory = some p.block.address; id = process.process.id } in
    let (r, run, put) = Ends-result (hashmap_put_correct map process.pid node good) in
    rw run (elim (Bool-cases (lt_ℤ (pos 0) r.0)) [
      | inl stored ↦ rw (stored, focus-found p d) (ends (refl, refl, put.good))
      | inr not ↦ rw not (ends (refl, refl, put.good))
    ])

pub assign_memory_block_to_process_correct :
    (time : ℤ) (m : MemoryManager) (process : Pcb) (address : ℕ)
    → IsGood m
    → Stands address m.memory
    → Ends
        (λ r. (r.0.process ≡ process.process) × (r.1.memory ≡ m.memory) × IsGood r.1)
        (assign_memory_block_to_process time m process (some address))
assign_memory_block_to_process_correct time m process address good s =
    let same : manager s.place m.memory_map m.memory_log ≡ m =
      λ i. record { memory = s.whole i; memory_map = m.memory_map; memory_log = m.memory_log } in
    let ran =
      assign_place time s.place m.memory_map m.memory_log process (rw s.whole good.distinct)
        good.map in
    rw⁻¹ (s.there) (
      subst
        (λ (m' : MemoryManager).
          Ends
            (λ (r : Pcb × MemoryManager).
              (r.0.process ≡ process.process) × (r.1.memory ≡ m.memory) × IsGood r.1)
            (assign_memory_block_to_process time m' process (some s.place.block.address)))
        same
        (Ends-weaken ran λ r (kept, memory, map). (
          kept,
          memory ∙ s.whole,
          record {
            memory = subst IsMemory (sym (memory ∙ s.whole)) good.memory;
            distinct = subst Distinct (sym (memory ∙ s.whole)) good.distinct;
            map = map;
          },
        )))

-- What allocate leaves: NULL and no change where no free block is large enough, and otherwise a block
-- of the list, taken from a smallest free block that is large enough.
pub record Got (s : Generator) (size : ℕ) (r : Option ℕ × Generator) : Type 0 where
  pub rest : r.1 ≡ record s { manager = record s.manager { memory = r.1.manager.memory } }
  pub good : IsGood r.1.manager
  pub block : Allocated s.manager.memory size (r.0, r.1.manager.memory)
  pub found :
      (place : Place)
      → get_smallest_block_available s.manager.memory size ≡ some place
      → r.0 ≡ some place.block.address

pub Taken-Stands :
    (memory : List Block) (size address : ℕ) (after : List Block)
    → Taken memory size address after
    → Stands address after
Taken-Stands memory size address after t = record {
  place = record { before = t.found.before; block = t.taken; after = t.spare ++ t.found.after };
  whole = sym t.result;
  there = t.same_address.1;
}

Allocated-IsMemory :
    (memory : List Block) (size : ℕ) (address : Option ℕ) (after : List Block)
    → IsMemory memory
    → Allocated memory size (address, after)
    → IsMemory after
Allocated-IsMemory memory size none after v a = subst IsMemory (sym a.1) v
Allocated-IsMemory memory size (some address) after v a = a.good

module _ (system : System) (ok : IsMalloc system.malloc) where
  pub allocate_correct :
      (s : Generator) (process : Process)
      → IsGood s.manager
      → 0 < pos_part process.memory_size
      → Ends (Got s (pos_part process.memory_size)) (allocate system s process)
  unfolding allocate allocate_process_memory
  allocate_correct s process good positive =
      let malloc = system.malloc s.manager.memory in
      let size = pos_part process.memory_size in
      let ((address, memory), run, a) =
        Ends-result (allocate_memory_correct malloc s.manager.memory size good.memory positive) in
      let d =
        allocate_memory-Distinct malloc (ok.apart s.manager.memory) s.manager.memory size
          (address, memory) good.distinct (λ j _. ok.fresh s.manager.memory j) run in
      rw run (
        ends (record {
          rest = refl;
          good = record {
            memory = Allocated-IsMemory s.manager.memory size address memory good.memory a;
            distinct = d;
            map = good.map;
          };
          block = a;
          found = λ place e.
              allocate_memory-address malloc s.manager.memory size place (address, memory) e run;
        }))
