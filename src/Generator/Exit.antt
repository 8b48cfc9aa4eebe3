-- ===== src/Generator/Exit.antt =====
-- src/process_generator.c: the start of create_processes, and handle_child_exit.
use mathlib.Core.Path.{subst}
use mathlib.Core.List.Perm
use os_scheduler.Base.{
  ℕ, ◌≡◌, refl, sym, ap, inl, inr, ◌||◌, Option, none, some, List, [], arith, Bool-cases,
  Option-cases,
}
use os_scheduler.Base.Int.{ℤ, eq_ℤ}
use os_scheduler.Base.Outcome.{done, ◌>>=◌, Ends-done, done_injective, bind-done}
use os_scheduler.Pcb.{Process}
use os_scheduler.Buddy.{init_memory, focus, deallocate_memory}
use os_scheduler.Buddy.Parted.{IsMemory}
use os_scheduler.Buddy.Address.{Distinct}
use os_scheduler.Buddy.Deallocate.{deallocate_memory_correct}
use os_scheduler.Buddy.FreshMerge.{focus-block, deallocate_memory-Distinct}
use os_scheduler.Buddy.Whole.{init_memory-IsMemory}
use os_scheduler.HashMap.{hashmap_get}
use os_scheduler.HashMap.Laws.{hashmap_create-IsMap}
use os_scheduler.MemoryManager.{
  ProcessMemory, MemoryEvent, MemoryManager, init_memory_manager, deallocate_process_memory,
  log_memory_event,
}
use os_scheduler.Generator.{Generator, System, fresh_generator, handle_child_exit}
use os_scheduler.Generator.Assign.{IsGood}
use os_scheduler.Generator.Pass.{Holds}

init_memory_manager-IsGood : (address : ℕ) → IsGood (init_memory_manager address)
unfolding init_memory_manager init_memory
init_memory_manager-IsGood address = record {
  memory = (init_memory-IsMemory address).0;
  distinct = (refl, tt);
  map = (hashmap_create-IsMap 100 (omega arith)).0;
}

pub fresh-Holds :
    (system : System) (process_list : List Process) (address : ℕ)
    → Holds system process_list (fresh_generator address)
unfolding fresh_generator
fresh-Holds system process_list address = record {
  good = init_memory_manager-IsGood address;
  sized = tt;
  lost = [];
  counted = refl;
  accounts = Perm.refl [];
}

deallocate_memory-IsMemory :
    (address : ℕ) (memory after : List _)
    → IsMemory memory
    → Distinct memory
    → deallocate_memory (some address) memory ≡ done after
    → IsMemory after
unfolding deallocate_memory
deallocate_memory-IsMemory address memory after v d run =
    let (p, found, _) = bind-done (focus address memory) _ _ run in
    let (whole, there) = focus-block address memory p found in
    let correct = deallocate_memory_correct p (rw whole v) (rw whole d) in
    (Ends-done correct (rw (whole, there) run)).0

module _ (time : ℤ) (m : MemoryManager) (good : IsGood m) where
  released_block :
      (line : _) (address : ℕ) (r : ℕ × MemoryManager)
      → (log_memory_event line address m >>= λ m.
          deallocate_memory (some address) m.memory >>= λ memory.
          done (1, record m { memory = memory }))
        ≡ done r
      → IsGood r.1
  unfolding log_memory_event
  released_block line address r run =
      let (m', logged, run) = bind-done (log_memory_event line address m) _ _ run in
      let (p, _, logged) = bind-done (focus address m.memory) _ _ logged in
      let (memory, freed, run) = bind-done (deallocate_memory (some address) m'.memory) _ _ run in
      let same : m'.memory ≡ m.memory = ap (λ x. x.memory) (sym (done_injective logged)) in
      let same_map : m'.memory_map ≡ m.memory_map =
        ap (λ x. x.memory_map) (sym (done_injective logged)) in
      let freed = rw same at freed in
      subst (λ x. IsGood x.1) (done_injective run)
        (record {
          memory =
              deallocate_memory-IsMemory address m.memory memory good.memory good.distinct freed;
          distinct = deallocate_memory-Distinct address m.memory memory good.distinct freed;
          map = rw same_map good.map;
        })

  -- Where deallocate_process_memory ends, what it leaves is as good as what it found.
  deallocate_process_memory-IsGood :
      (pid : ℤ) (r : ℕ × MemoryManager) → deallocate_process_memory time m pid ≡ done r → IsGood r.1
  unfolding deallocate_process_memory
  deallocate_process_memory-IsGood pid r run =
      let (held, _, run) = bind-done (hashmap_get m.memory_map pid) _ _ run in go held run
    where
      unchanged : done (0, m) ≡ done r → IsGood r.1
      unchanged run = subst (λ x. IsGood x.1) (done_injective run) good

      go :
          (held : Option ProcessMemory)
          → (elim held [
            | none ↦ done (0, m)
            | some pmem ↦ elim pmem.memory [
              | none ↦ done (0, m)
              | some address ↦
                  log_memory_event (MemoryEvent.deallocated time pmem.id) address m >>= λ m.
                  deallocate_memory (some address) m.memory >>= λ memory.
                  done (1, record m { memory = memory })
            ]
          ])
            ≡ done r
          → IsGood r.1
      go none run = unchanged run
      go (some pmem) run = elim (Option-cases pmem.memory) [
        | inl e ↦ unchanged (rw e at run)
        | inr (address, e) ↦
            released_block (MemoryEvent.deallocated time pmem.id) address r (rw e at run)
      ]

module _ (system : System) (process_list : List Process) where
  -- The exit of a child that ends without a fault keeps what holds.
  pub handle_child_exit-Holds :
      (s s' : Generator) (pid : ℤ)
      → Holds system process_list s
      → handle_child_exit system s pid ≡ done s'
      → Holds system process_list s'
  unfolding handle_child_exit
  handle_child_exit-Holds s s' pid v run =
      elim (Bool-cases (eq_ℤ pid system.clk_pid || eq_ℤ pid system.sch_pid)) [
        | inl other ↦ subst (Holds system process_list) (done_injective (rw other at run)) v
        | inr child ↦
            let (r, freed, run) =
              bind-done (deallocate_process_memory (system.clock s.reads) s.manager pid) _ _
                (rw child at run) in
            subst (Holds system process_list) (done_injective run) (record {
              good =
                  deallocate_process_memory-IsGood (system.clock s.reads) s.manager v.good pid r
                    freed;
              sized = v.sized;
              lost = v.lost;
              counted = v.counted;
              accounts = v.accounts;
            })
      ]
