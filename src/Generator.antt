-- ===== src/Generator.antt =====
-- src/process_generator.c: create_processes with fork_and_send, handle_child_exit and the line that
-- ends the run. `process_list` is the input file; clk_pid and sch_pid are the pids of the clock and
-- of the scheduler. The system is a parameter: the k-th reading of the clock, what the n-th fork
-- and the n-th msgsnd return, whether the last msgsnd succeeds, and the addresses that malloc
-- returns from a given list of blocks. The readings of the clock for printed lines are not counted.
-- A waiting list is the list of its processes.
pub mod Assign
pub mod Admit
pub mod Pass
pub mod Arrive
pub mod Missed
pub mod Exit
pub mod Run
mod Tests
use Prim.Native.String.{String}
use os_scheduler.Base.{
  ℕ, zero, suc, ◌+◌, Bool, true, false, ◌&&◌, ◌||◌, Option, none, some, List, [], ◌∷◌, ◌++◌, ltb,
  ◌==◌, if◌then◌else◌, length, get_elem?,
}
use os_scheduler.Base.Int.{ℤ, pos, negsuc, eq_ℤ, pos_part}
use os_scheduler.Base.Outcome.{Outcome, done, starved, ◌>>=◌}
use os_scheduler.Pcb.{Process, Pcb, RunState, unset}
use os_scheduler.Buddy.{Block, Place}
use os_scheduler.MemoryManager.{
  MemoryManager, init_memory_manager, deallocate_process_memory, allocate_process_memory,
  assign_memory_block_to_process, get_smallest_block, get_oldest_fit,
}

-- `messages` are those of type 1, the latest first, `notices` those of type 2; `killed` are the pids that
-- SIGKILL went to. `forks` and `reads` count the calls of fork and of get_clk.
pub record Generator : Type 0 where
  pub manager : MemoryManager
  pub waiting_list : List Process
  pub i : ℕ
  pub processed : ℕ → Bool
  pub forks : ℕ
  pub reads : ℕ
  pub messages : List Pcb
  pub notices : List String
  pub killed : List ℤ

-- create_processes, and init_memory_manager before it.
unfoldable pub fresh_generator : (address : ℕ) → Generator
fresh_generator address = record {
  manager = init_memory_manager address;
  waiting_list = [];
  i = 0;
  processed = λ _. false;
  forks = 0;
  reads = 0;
  messages = [];
  notices = [];
  killed = [];
}

unfoldable pub new_pcb : (pid : ℤ) → Process → Pcb
new_pcb pid process = record {
  pid = pid;
  start_time = negsuc 0;
  wait_time = pos 0;
  remaining_time = process.runtime;
  state = unset;
  memory_block = none;
  process = process;
}

abbrev pub is_assigned : Pcb → Bool
is_assigned pcb = elim pcb.memory_block [ none ↦ false | some block ↦ true ]

pub record System : Type 0 where
  pub clock : ℕ → ℤ
  pub fork : ℕ → Option ℤ
  pub msgsnd : ℕ → Bool
  pub notifies : Bool
  pub malloc : List Block → ℕ → ℕ
  pub clk_pid : ℤ
  pub sch_pid : ℤ

module _ (system : System) where
  -- The part of the parent. `none` is a failed fork. The clock is read for the line of the log.
  unfoldable pub fork_and_send : Generator → Process → (block : Option ℕ) → Outcome Generator
  fork_and_send s process block = elim (system.fork s.forks) [
    | none ↦ done (record s { forks = s.forks + 1 })
    | some pid ↦ do
      (pcb, manager) ←
          assign_memory_block_to_process (system.clock s.reads) s.manager (new_pcb pid process)
            block
      let reads = if is_assigned pcb then s.reads + 1 else s.reads
      let s' = record s { manager = manager; forks = s.forks + 1; reads = reads }
      if system.msgsnd s.forks
          then done (record s' { messages = pcb ∷ s.messages })
          else done (record s' { killed = pid ∷ s.killed })
  ]

  unfoldable pub allocate : Generator → Process → Outcome (Option ℕ × Generator)
  allocate s process = do
    (block, manager) ←
        allocate_process_memory (system.malloc s.manager.memory) s.manager
          (pos_part process.memory_size)
    done (block, record s { manager = manager })

  -- The body of the inner loop: the block that is assigned is the one that was found before.
  unfoldable pub send_waited : Generator → Process → Outcome Generator
  send_waited s waited_fit = elim (get_smallest_block s.manager waited_fit) [
    | none ↦ done s
    | some fit_memory_block ↦ do
      (allocated_block, s) ← allocate s waited_fit
      fork_and_send s waited_fit (some fit_memory_block.block.address)
  ]

  -- The `while (waited_fit != NULL)` loop.
  unfoldable pub send_waiting : (fuel : ℕ) → Generator → Outcome Generator
  send_waiting zero s = starved
  send_waiting (suc fuel) s =
      let (waited_fit, left) = get_oldest_fit s.manager s.waiting_list in
      let s = record s { waiting_list = left } in
      elim waited_fit [
        | none ↦ done s
        | some process ↦ do s ← send_waited s process; send_waiting fuel s
      ]

  -- The process at `i` has arrived.
  unfoldable pub admit : Generator → Process → Outcome Generator
  admit s process = do
    let i = s.i
    let marked : ℕ → Bool = λ j. j == i || s.processed j
    (allocated_block, s) ← allocate (record s { processed = marked }) process
    elim allocated_block [
      | none ↦ done (record s { waiting_list = s.waiting_list ++ process ∷ []; i = i + 1 })
      | some block ↦ do s ← fork_and_send s process (some block); done (record s { i = i + 1 })
    ]

  -- One turn of the loop of handle_child_exit.
  unfoldable pub handle_child_exit : Generator → (exited_pid : ℤ) → Outcome Generator
  handle_child_exit s exited_pid =
      if eq_ℤ exited_pid system.clk_pid || eq_ℤ exited_pid system.sch_pid then done s else (do
        (code, manager) ← deallocate_process_memory (system.clock s.reads) s.manager exited_pid
        done (record s { manager = manager; reads = s.reads + code }))

unfoldable pub is_marked : Generator → Bool
is_marked s = s.processed s.i

-- The test of the outer loop, without `interrupted`: SIGINT ends the program.
unfoldable pub goes_on : (process_list : List Process) → Generator → Bool
goes_on process_list s = ltb s.i (length process_list) || ltb 0 (length s.waiting_list)

-- What follows the loop.
unfoldable pub send_no_more : System → Generator → Generator
send_no_more system s =
    let told =
      if system.notifies then record s { notices = "no_more_processes" ∷ s.notices } else s in
    if length s.waiting_list == 0 then told else s

module _ (system : System) (process_list : List Process) where
  unfoldable pub send_arrived : Generator → Outcome Generator
  send_arrived s = elim (get_elem? process_list s.i) [
    | none ↦ done s
    | some process ↦
        let now = system.clock s.reads in
        let s' = record s { reads = s.reads + 1 } in
        let admitted = admit system s' process in
        if eq_ℤ now process.arrival_time
        then (if is_marked s then done s' else admitted)
        else done s'
  ]

  -- The body of the outer loop.
  unfoldable pub generator_pass : (fuel : ℕ) → Generator → Outcome Generator
  generator_pass fuel s = do s ← send_waiting system fuel s; send_arrived s
