-- ===== src/Generator/Admit.antt =====
-- src/process_generator.c: sending a process.
use mathlib.Core.Path.{subst}
use os_scheduler.Base.{
  ℕ, ◌<◌, ◌≡◌, refl, sym, inl, inr, true, false, none, some, ◌∷◌, arith, Bool-cases, Option-cases,
  Bool, zero, suc, ◌+◌, ◌⊎◌, if◌then◌else◌,
}
use os_scheduler.Base.Int.{pos_part}
use os_scheduler.Base.Outcome.{Ends, ends, Ends-bind, Ends-weaken}
use os_scheduler.Pcb.{Process, Pcb}
use os_scheduler.Buddy.{Place, get_smallest_block_available}
use os_scheduler.Buddy.Allocate.{Taken, Allocated}
use os_scheduler.MemoryManager.{MemoryManager, get_smallest_block}
use os_scheduler.Generator.{Generator, System, new_pcb, fork_and_send, send_waited}
use os_scheduler.Generator.Assign.{
  IsGood, Stands, IsMalloc, Taken-Stands, allocate_correct, assign_memory_block_to_process_correct,
}

-- The n-th fork and its msgsnd succeed.
abbrev pub works : System → (n : ℕ) → Bool
works system n = elim (system.fork n) [ none ↦ false | some pid ↦ system.msgsnd n ]

-- How many of the first n forks and their msgsnd fail.
abbrev pub failures : System → (n : ℕ) → ℕ
failures system zero = 0
failures system (suc n) =
    let before = failures system n in if works system n then before else suc before

-- The process is sent, or the fork or msgsnd fails, and nothing else happens to the lists.
pub record Tried (system : System) (s : Generator) (process : Process) (s' : Generator)
    : Type 0 where
  pub good : IsGood s'.manager
  pub same_waiting : s'.waiting_list ≡ s.waiting_list
  pub same_i : s'.i ≡ s.i
  pub same_processed : s'.processed ≡ s.processed
  pub one_fork : s'.forks ≡ suc s.forks
  pub outcome :
      ((works system s.forks ≡ true)
        × (pcb : Pcb) × (s'.messages ≡ pcb ∷ s.messages)
        × (pcb.process ≡ process))
      ⊎ ((works system s.forks ≡ false) × (s'.messages ≡ s.messages))

plus_one : (n : ℕ) → n + 1 ≡ suc n
plus_one n = omega arith

smallest :
    (m : MemoryManager) (process : Process) (place : Place)
    → get_smallest_block m process ≡ some place
    → get_smallest_block_available m.memory (pos_part process.memory_size) ≡ some place
unfolding get_smallest_block
smallest m process place found = found

-- What happens to the manager alone before the process is sent does not matter.
pub Tried-after :
    (system : System) (s t s' : Generator) (process : Process) {m : MemoryManager}
    → t ≡ record s { manager = m }
    → Tried system t process s'
    → Tried system s process s'
Tried-after system s t s' process {m} e tried =
    let there : Tried system (record s { manager = m }) process s' =
      subst (λ g. Tried system g process s') e tried in
    record {
      good = there.good;
      same_waiting = there.same_waiting;
      same_i = there.same_i;
      same_processed = there.same_processed;
      one_fork = there.one_fork;
      outcome = there.outcome;
    }

module _ (system : System) (ok : IsMalloc system.malloc) where
  pub fork_and_send_correct :
      (s : Generator) (process : Process) (address : ℕ)
      → IsGood s.manager
      → Stands address s.manager.memory
      → Ends
          (λ s'. Tried system s process s' × (s'.manager.memory ≡ s.manager.memory))
          (fork_and_send system s process (some address))
  unfolding fork_and_send new_pcb
  fork_and_send_correct s process address good there = elim (Option-cases (system.fork s.forks)) [
    | inl failed ↦
        rw (failed, fork_and_send)
          (ends (
            record {
              good = good;
              same_waiting = refl;
              same_i = refl;
              same_processed = refl;
              one_fork = plus_one s.forks;
              outcome = inr (rw (failed, works) refl, refl);
            },
            refl,
          ))
    | inr (pid, forked) ↦
        let assigned =
          assign_memory_block_to_process_correct (system.clock s.reads) s.manager
            (new_pcb pid process) address good there in
        rw (forked, fork_and_send)
          (Ends-bind assigned λ r (kept, same, good'). elim (Bool-cases (system.msgsnd s.forks)) [
            | inl sent ↦ rw sent (
                ends (
                  record {
                    good = good';
                    same_waiting = refl;
                    same_i = refl;
                    same_processed = refl;
                    one_fork = plus_one s.forks;
                    outcome = inl (rw (forked, works) sent, r.0, refl, kept);
                  },
                  same,
                ))
            | inr unsent ↦ rw unsent (
                ends (
                  record {
                    good = good';
                    same_waiting = refl;
                    same_i = refl;
                    same_processed = refl;
                    one_fork = plus_one s.forks;
                    outcome = inr (rw (forked, works) unsent, refl);
                  },
                  same,
                ))
          ])
  ]

  -- A waiting process for which a free block is large enough is sent, unless its fork or msgsnd fails,
  -- so the branch without memory is dead; the block that was found is the one that
  -- allocate_process_memory takes into use.
  pub send_waited_correct :
      (s : Generator) (process : Process) (place : Place)
      → IsGood s.manager
      → 0 < pos_part process.memory_size
      → get_smallest_block s.manager process ≡ some place
      → Ends
          (λ s'.
            Tried system s process s'
            × Taken s.manager.memory
                (pos_part process.memory_size)
                place.block.address
                s'.manager.memory)
          (send_waited system s process)
  unfolding send_waited
  send_waited_correct s process place good positive found =
      rw (found, send_waited)
        (Ends-bind (allocate_correct system ok s process good positive) λ r got.
          let taken : Taken s.manager.memory (pos_part process.memory_size) place.block.address
              r.1.manager.memory =
            subst
              (λ a.
                Allocated s.manager.memory (pos_part process.memory_size) (a, r.1.manager.memory))
              (got.found place (smallest s.manager process place found)) got.block in
          Ends-weaken
            (fork_and_send_correct r.1 process place.block.address got.good
              (Taken-Stands s.manager.memory (pos_part process.memory_size) _ _ taken))
            λ s' (sent, same). (
              Tried-after system s r.1 s' process got.rest sent,
              subst (Taken s.manager.memory (pos_part process.memory_size) place.block.address)
                  (sym same) taken,
            ))
