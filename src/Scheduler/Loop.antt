-- ===== src/Scheduler/Loop.antt =====
-- src/scheduler.c: the messages, the three policies, and the main loop.
use text.Mathlib.Text.{◌==◌ as str_eq}
use os_scheduler.Base.{
  ℕ, Bool, true, false, ◌&&◌, ◌||◌, Option, none, some, List, [], ◌∷◌, ◌++◌, ◌==◌, if◌then◌else◌,
  length, set,
}
use os_scheduler.Base.Int.{ℤ, pos, ◌+ℤ◌, ◌-ℤ◌, lt_ℤ, le_ℤ}
use os_scheduler.Base.Outcome.{Outcome, done, ◌>>=◌, load}
use os_scheduler.Pcb.{Pcb}
use os_scheduler.IQueue.{SchedulingAlgorithm, enqueue, front, is_empty}
use os_scheduler.Scheduler.State.{idle, Scheduler, get_clk}
use os_scheduler.Scheduler.Dispatch.{schedule_next_process, handle_quantum_expiration}

-- The priority that a new PCB is queued with.
unfoldable pub queue_priority : SchedulingAlgorithm → Pcb → ℤ
queue_priority SchedulingAlgorithm.srtn pcb = pcb.remaining_time
queue_priority SchedulingAlgorithm.hpf pcb = pcb.process.priority
queue_priority SchedulingAlgorithm.rr pcb = pos 0

unfoldable pub is_valid : Pcb → Bool
is_valid pcb =
    lt_ℤ (pos 0) pcb.pid && (lt_ℤ (pos 0) pcb.process.id && lt_ℤ (pos 0) pcb.process.runtime)

unfoldable pub check_no_more_processes : Scheduler → Scheduler
check_no_more_processes s = elim s.notices [
  | [] ↦ s
  | text ∷ rest ↦ record s {
    notices = rest;
    no_more_processes = str_eq text "no_more_processes" || s.no_more_processes;
  }
]

unfoldable pub differs : Option ℕ → ℕ → Bool
differs none p = false
differs (some c) p = if c == p then false else true

unfoldable pub is_none : Option ℕ → Bool
is_none none = true
is_none (some _) = false

-- The condition of the `while` of scheduler_loop, and one round of it.
unfoldable pub keeps_running : Scheduler → Bool
keeps_running s =
    (if s.no_more_processes then false else true)
    || ((if is_empty s.ready_queue then false else true)
        || (if is_none s.current_pcb then false else true))

module _ (clock : ℕ → ℤ) where
  -- The `while (1)` over the messages that wait. An invalid one ends it, and is dropped.
  unfoldable pub receive : (messages : List Pcb) → Scheduler → Outcome Scheduler
  receive [] s = done (record s { arrivals = [] })
  receive (pcb ∷ rest) s =
      let (_, s) = get_clk clock s in
      let accept : Outcome Scheduler = do
        queue ← enqueue s.ready_queue (length s.store) (queue_priority s.selected_algorithm pcb)
        receive rest (record s { ready_queue = queue; store = s.store ++ pcb ∷ [] })
      in if is_valid pcb then accept else done (record s { arrivals = rest })

  unfoldable pub check_for_new_processes : Scheduler → Outcome Scheduler
  check_for_new_processes s = receive s.arrivals s

  unfoldable pub handle_rr : Scheduler → Outcome Scheduler
  handle_rr s = elim s.current_pcb [
    | none ↦ done s
    | some p ↦ do
      pcb ← load s.store p
      let limit = s.last_remain_time -ℤ s.quantum
      let cut = record s { store = set s.store p (record pcb { remaining_time = limit }) }
      if le_ℤ pcb.remaining_time limit then handle_quantum_expiration clock cut else done s
  ]

  -- The messages read the two PCBs.
  unfoldable pub handle_srtn : Scheduler → Outcome Scheduler
  handle_srtn s = do
    next ← front s.ready_queue
    elim next [
      | none ↦ done s
      | some p ↦ do
        pcb ← load s.store p
        if differs s.current_pcb p then handle_quantum_expiration clock s else done s
    ]

  unfoldable pub handle_current_running_process : Scheduler → Outcome Scheduler
  handle_current_running_process s = elim s.selected_algorithm [
    | SchedulingAlgorithm.rr ↦ handle_rr s
    | SchedulingAlgorithm.hpf ↦ elim s.current_pcb [
      | none ↦ schedule_next_process clock s
      | some _ ↦ done s
    ]
    | SchedulingAlgorithm.srtn ↦ handle_srtn s
  ]

  -- The `if (current_pcb == NULL)` of the loop.
  unfoldable pub start_next : Scheduler → Outcome Scheduler
  start_next s =
      let (current_time, t) = get_clk clock s in
      let waited = lt_ℤ s.last_process_end_time current_time in
      let t =
        if waited && (if is_empty s.ready_queue then false else true)
        then record t {
          periods = idle s.last_process_end_time current_time ∷ s.periods;
          idle_time = s.idle_time +ℤ (current_time -ℤ s.last_process_end_time);
        }
        else t in
      if is_none s.current_pcb then schedule_next_process clock t else done s

  unfoldable pub scheduler_round : Scheduler → Outcome Scheduler
  scheduler_round s = do
    s ← check_for_new_processes s
    s ← start_next s
    s ← handle_current_running_process s
    done (check_no_more_processes s)
