-- ===== src/Scheduler/State.antt =====
-- src/scheduler.c: the global variables, what leaves the program, get_clk, and log_event of
-- src/file_handlers.c.
use text.Mathlib.Text.{◌==◌ as str_eq}
use Prim.Native.String.{String}
use os_scheduler.Base.{ℕ, ◌+◌, Bool, true, false, Option, none, some, List, ◌∷◌, if◌then◌else◌}
use os_scheduler.Base.Int.{ℤ, ◌+ℤ◌, ◌-ℤ◌}
use os_scheduler.Pcb.{Process, RunState, finished, Pcb}
use os_scheduler.IQueue.{SchedulingAlgorithm, IQueue, init_queue}

-- kill(pid, SIGCONT) and kill(pid, SIGSTOP)
pub data Signal : Type 0 where
  sigcont sigstop : ℤ → Signal

-- A line of scheduler.log, with TA if the process has finished.
pub record LogLine : Type 0 where
  pub time : ℤ
  pub process : Process
  pub state : RunState
  pub remain : ℤ
  pub wait : ℤ
  pub turnaround : Option ℤ

-- A line of execution_log.txt.
pub data Period : Type 0 where
  idle : (from to : ℤ) → Period
  runs : (id burst from to remaining : ℤ) → Period
  finishes : (id burst from to : ℤ) → Period

pub record Scheduler : Type 0 where
  pub ready_queue : IQueue
  pub current_pcb : Option ℕ
  pub quantum : ℤ
  pub last_remain_time : ℤ
  pub log_start_time : ℤ
  pub last_process_end_time : ℤ
  pub idle_time : ℤ
  pub no_more_processes : Bool
  pub selected_algorithm : SchedulingAlgorithm
  pub total_wait : ℤ
  pub store : List Pcb
  pub arrivals : List Pcb
  pub notices : List String
  pub reads : ℕ
  pub signals : List Signal
  pub log : List LogLine
  pub periods : List Period

unfoldable pub set_selected_algorithm : String → SchedulingAlgorithm → SchedulingAlgorithm
set_selected_algorithm name before =
    let first = if str_eq name "rr" then SchedulingAlgorithm.rr else before in
    let second = if str_eq name "hpf" then SchedulingAlgorithm.hpf else first in
    if str_eq name "srtn" then SchedulingAlgorithm.srtn else second

unfoldable pub is_finished : RunState → Bool
is_finished finished = true
is_finished _ = false

module _ (clock : ℕ → ℤ) where
  unfoldable pub get_clk : Scheduler → ℤ × Scheduler
  get_clk s = (clock s.reads, record s { reads = s.reads + 1 })

  -- The globals that run_scheduler sets up, before scheduler_loop.
  unfoldable pub run_scheduler : String → (quantum : ℤ) → Scheduler → Scheduler
  run_scheduler name quantum s =
      let algorithm = set_selected_algorithm name s.selected_algorithm in
      let (current_time, s) = get_clk (record s {
        quantum = quantum;
        selected_algorithm = algorithm;
        ready_queue = init_queue algorithm;
      }) in
      record s { last_process_end_time = current_time }

  -- The averages of the weighted turnaround are floats, and are left out.
  unfoldable pub log_event : Pcb → Scheduler → Scheduler
  log_event pcb s =
      let (current_time, s) = get_clk s in
      let turnaround = current_time -ℤ pcb.process.arrival_time in
      let line : Option ℤ → LogLine = λ t. record {
        time = current_time;
        process = pcb.process;
        state = pcb.state;
        remain = pcb.remaining_time;
        wait = pcb.wait_time;
        turnaround = t;
      } in
      if is_finished pcb.state
      then record s {
        log = line (some turnaround) ∷ s.log;
        total_wait = s.total_wait +ℤ pcb.wait_time;
      }
      else record s { log = line none ∷ s.log }
