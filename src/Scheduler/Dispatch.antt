-- ===== src/Scheduler/Dispatch.antt =====
-- src/scheduler.c: starting a process, and the handlers of its end, its quantum and its ticks.
use os_scheduler.Base.{ℕ, Bool, true, false, Option, none, some, ◌∷◌, if◌then◌else◌, set}
use os_scheduler.Base.Int.{ℤ, pos, negsuc, ◌-ℤ◌, eq_ℤ}
use os_scheduler.Base.Outcome.{Outcome, done, ◌>>=◌, load, require}
use os_scheduler.Pcb.{started, resumed, stopped, finished, Pcb}
use os_scheduler.IQueue.{SchedulingAlgorithm, IQueue, dequeue, front, is_empty, change_priority}
use os_scheduler.Scheduler.State.{sigcont, sigstop, runs, finishes, Scheduler, get_clk, log_event}

unfoldable pub is_hpf : SchedulingAlgorithm → Bool
is_hpf SchedulingAlgorithm.hpf = true
is_hpf _ = false

unfoldable pub is_rr : SchedulingAlgorithm → Bool
is_rr SchedulingAlgorithm.rr = true
is_rr _ = false

-- The PCB after it is chosen to run at `current_time`.
unfoldable pub dispatched : (current_time : ℤ) → Pcb → Pcb
dispatched current_time pcb =
    let since_arrival = current_time -ℤ pcb.process.arrival_time in
    if eq_ℤ pcb.start_time (negsuc 0)
    then record pcb { state = started; start_time = current_time; wait_time = since_arrival }
    else record pcb {
      state = resumed;
      wait_time = since_arrival -ℤ (pcb.process.runtime -ℤ pcb.remaining_time);
    }

-- The choice of the next PCB: `none` for NULL.
unfoldable pub choose_next : Scheduler → Outcome (Option ℕ × IQueue)
choose_next s =
    if is_hpf s.selected_algorithm
    then dequeue s.ready_queue true
    else (do next ← front s.ready_queue; done (next, s.ready_queue))

-- The message about the next process reads the object at the front.
unfoldable pub announce_next : Scheduler → Outcome Scheduler
announce_next s =
    if is_empty s.ready_queue
    then done s
    else do next ← front s.ready_queue; p ← require next; pcb ← load s.store p; done s

unfoldable pub tick_queue : SchedulingAlgorithm → IQueue → (remaining : ℤ) → Outcome IQueue
tick_queue SchedulingAlgorithm.srtn queue remaining = change_priority queue 0 remaining
tick_queue _ queue remaining = done queue

module _ (clock : ℕ → ℤ) where
  unfoldable pub schedule_next_process : Scheduler → Outcome Scheduler
  schedule_next_process s = if is_empty s.ready_queue then done s else do
    (next, queue) ← choose_next s
    p ← require next
    pcb ← load s.store p
    let (current_time, s) = get_clk clock (record s { ready_queue = queue; current_pcb = next })
    let pcb' = dispatched current_time pcb
    done (
        log_event clock pcb' (record s {
          store = set s.store p pcb';
          signals = sigcont pcb.pid ∷ s.signals;
          last_remain_time = pcb.remaining_time;
          log_start_time = current_time;
        }))

  -- SIGUSR1, from the process that has run to its end.
  unfoldable pub handle_process_termination : Scheduler → Outcome Scheduler
  handle_process_termination s = do
    let (current_time, s) = get_clk clock s
    p ← require s.current_pcb
    pcb ← load s.store p
    (_, queue) ←
        if is_hpf s.selected_algorithm
        then done (none, s.ready_queue)
        else dequeue s.ready_queue true
    s ← announce_next (record s {
      periods =
          finishes pcb.process.id pcb.process.runtime s.log_start_time current_time ∷ s.periods;
      last_process_end_time = current_time;
      ready_queue = queue;
    })
    let pcb' = record pcb { remaining_time = pcb.remaining_time -ℤ pos 1; state = finished }
    done (record (log_event clock pcb' (record s { store = set s.store p pcb' })) {
      current_pcb = none;
      last_remain_time = pos 0;
      log_start_time = pos 0;
    })

  unfoldable pub handle_quantum_expiration : Scheduler → Outcome Scheduler
  handle_quantum_expiration s = elim s.current_pcb [
    | none ↦ done s
    | some p ↦ do
      let (current_time, s) = get_clk clock s
      pcb ← load s.store p
      let pcb' = record pcb { state = stopped }
      let s' = log_event clock pcb' (record s {
        periods =
            runs pcb.process.id pcb.process.runtime s.log_start_time current_time pcb.remaining_time
            ∷ s.periods;
        last_process_end_time = current_time;
        signals = sigstop pcb.pid ∷ s.signals;
        store = set s.store p pcb';
      })
      (_, queue) ←
          if is_rr s.selected_algorithm
          then dequeue s'.ready_queue false
          else done (none, s'.ready_queue)
      done (record s' { current_pcb = none; ready_queue = queue; log_start_time = pos 0 })
  ]

  -- SIGUSR2, from the running process, once in each time unit.
  unfoldable pub handle_process_tick : Scheduler → Outcome Scheduler
  handle_process_tick s = do
    p ← require s.current_pcb
    pcb ← load s.store p
    let (current_time, s) = get_clk clock s
    let remaining = pcb.remaining_time -ℤ pos 1
    queue ← tick_queue s.selected_algorithm s.ready_queue remaining
    done (record s {
      store = set s.store p (record pcb { remaining_time = remaining });
      ready_queue = queue;
    })
