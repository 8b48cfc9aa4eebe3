-- ===== src/Scheduler/Example.antt =====
-- A run of src/scheduler.c under Round Robin, step by step.
use os_scheduler.Base.{ℕ, ◌≡◌, refl, false, none, some, [], ◌∷◌}
use os_scheduler.Base.Int.{ℤ, pos, negsuc, lt_ℤ, le_ℤ, eq_ℤ, ◌-ℤ◌, ◌+ℤ◌}
use os_scheduler.Base.Outcome.{done, load}
use os_scheduler.Pcb.{Process, unset, started, stopped, Pcb}
use os_scheduler.CircularQueue.{
  CircularQueue, circular_queue, cq_enqueue, cq_is_empty, cq_front, cq_dequeue,
}
use os_scheduler.IQueue.{
  SchedulingAlgorithm, init_queue, circular, enqueue, is_empty, front, dequeue,
}
use os_scheduler.Scheduler.State.{
  Scheduler, sigcont, sigstop, Period, run_scheduler, set_selected_algorithm, get_clk, is_finished,
  log_event,
}
use os_scheduler.Scheduler.Dispatch.{
  is_hpf, is_rr, dispatched, choose_next, tick_queue, schedule_next_process,
  handle_quantum_expiration, handle_process_tick,
}
use os_scheduler.Scheduler.Loop.{
  queue_priority, is_valid, check_no_more_processes, is_none, receive, handle_rr,
  handle_current_running_process, start_next, keeps_running, check_for_new_processes,
  scheduler_round,
}
use os_scheduler.Scheduler.Run.{IsFresh, Step, Run}

-- Every read of the clock is one unit later than the one before.
abbrev pub clock : ℕ → ℤ
clock k = pos k

abbrev data_of : (id runtime : ℕ) → Process
data_of id runtime = record {
  id = pos id;
  arrival_time = pos 0;
  runtime = pos runtime;
  priority = pos 3;
  memory_size = pos 64;
}

abbrev pub job : (pid id runtime : ℕ) → Pcb
job pid id runtime = record {
  pid = pos pid;
  start_time = negsuc 0;
  wait_time = pos 0;
  remaining_time = pos runtime;
  state = unset;
  memory_block = none;
  process = data_of id runtime;
}

abbrev pub globals : Scheduler
globals = record {
  ready_queue = init_queue SchedulingAlgorithm.rr;
  current_pcb = none;
  quantum = pos 1;
  last_remain_time = pos 0;
  log_start_time = pos 0;
  last_process_end_time = pos 0;
  idle_time = pos 0;
  no_more_processes = false;
  selected_algorithm = SchedulingAlgorithm.rr;
  total_wait = pos 0;
  store = [];
  arrivals = [];
  notices = [];
  reads = 0;
  signals = [];
  log = [];
  periods = [];
}

pub globals-IsFresh : IsFresh globals
globals-IsFresh = record { idle = refl; no_store = refl; no_log = refl; no_signals = refl }

-- Two jobs come; the first runs for its quantum of two ticks, and the second gets the CPU.
abbrev set_up : Scheduler
set_up = record globals {
  ready_queue = circular record { passed = []; waiting = []; size = 0 };
  quantum = pos 2;
  last_process_end_time = pos 0;
  reads = 1;
}

abbrev one_sent : Scheduler
one_sent = record set_up { arrivals = job 101 1 5 ∷ [] }

abbrev pub both_sent : Scheduler
both_sent = record set_up { arrivals = job 101 1 5 ∷ job 102 2 4 ∷ [] }

abbrev first_runs : Scheduler
first_runs = record set_up {
  ready_queue = circular record { passed = []; waiting = 0 ∷ 1 ∷ []; size = 2 };
  current_pcb = some 0;
  last_remain_time = pos 5;
  log_start_time = pos 4;
  idle_time = pos 3;
  store =
      record {
        pid = pos 101;
        start_time = pos 4;
        wait_time = pos 4;
        remaining_time = pos 5;
        state = started;
        memory_block = none;
        process = (data_of 1 5);
      }
      ∷ record {
        pid = pos 102;
        start_time = negsuc 0;
        wait_time = pos 0;
        remaining_time = pos 4;
        state = unset;
        memory_block = none;
        process = (data_of 2 4);
      }
      ∷ [];
  reads = 6;
  signals = sigcont (pos 101) ∷ [];
  log =
      record {
        time = pos 5;
        process = (data_of 1 5);
        state = started;
        remain = pos 5;
        wait = pos 4;
        turnaround = none;
      }
      ∷ [];
  periods = Period.idle (pos 0) (pos 3) ∷ [];
}

abbrev one_tick : Scheduler
one_tick = record first_runs {
  store =
      record {
        pid = pos 101;
        start_time = pos 4;
        wait_time = pos 4;
        remaining_time = pos 4;
        state = started;
        memory_block = none;
        process = (data_of 1 5);
      }
      ∷ record {
        pid = pos 102;
        start_time = negsuc 0;
        wait_time = pos 0;
        remaining_time = pos 4;
        state = unset;
        memory_block = none;
        process = (data_of 2 4);
      }
      ∷ [];
  reads = 7;
}

abbrev two_ticks : Scheduler
two_ticks = record one_tick {
  store =
      record {
        pid = pos 101;
        start_time = pos 4;
        wait_time = pos 4;
        remaining_time = pos 3;
        state = started;
        memory_block = none;
        process = (data_of 1 5);
      }
      ∷ record {
        pid = pos 102;
        start_time = negsuc 0;
        wait_time = pos 0;
        remaining_time = pos 4;
        state = unset;
        memory_block = none;
        process = (data_of 2 4);
      }
      ∷ [];
  reads = 8;
}

abbrev pub between : Scheduler
between = record two_ticks {
  ready_queue = circular record { passed = 0 ∷ []; waiting = 1 ∷ []; size = 2 };
  current_pcb = none;
  log_start_time = pos 0;
  last_process_end_time = pos 8;
  store =
      record {
        pid = pos 101;
        start_time = pos 4;
        wait_time = pos 4;
        remaining_time = pos 3;
        state = stopped;
        memory_block = none;
        process = (data_of 1 5);
      }
      ∷ record {
        pid = pos 102;
        start_time = negsuc 0;
        wait_time = pos 0;
        remaining_time = pos 4;
        state = unset;
        memory_block = none;
        process = (data_of 2 4);
      }
      ∷ [];
  reads = 10;
  signals = sigstop (pos 101) ∷ sigcont (pos 101) ∷ [];
  log =
      record {
        time = pos 9;
        process = (data_of 1 5);
        state = stopped;
        remain = pos 3;
        wait = pos 4;
        turnaround = none;
      }
      ∷ record {
        time = pos 5;
        process = (data_of 1 5);
        state = started;
        remain = pos 5;
        wait = pos 4;
        turnaround = none;
      }
      ∷ [];
  periods = Period.runs (pos 1) (pos 5) (pos 4) (pos 8) (pos 3) ∷ Period.idle (pos 0) (pos 3) ∷ [];
}

abbrev pub second_runs : Scheduler
second_runs = record between {
  current_pcb = some 1;
  last_remain_time = pos 4;
  log_start_time = pos 11;
  idle_time = pos 5;
  store =
      record {
        pid = pos 101;
        start_time = pos 4;
        wait_time = pos 4;
        remaining_time = pos 3;
        state = stopped;
        memory_block = none;
        process = (data_of 1 5);
      }
      ∷ record {
        pid = pos 102;
        start_time = pos 11;
        wait_time = pos 11;
        remaining_time = pos 4;
        state = started;
        memory_block = none;
        process = (data_of 2 4);
      }
      ∷ [];
  reads = 13;
  signals = sigcont (pos 102) ∷ sigstop (pos 101) ∷ sigcont (pos 101) ∷ [];
  log =
      record {
        time = pos 12;
        process = (data_of 2 4);
        state = started;
        remain = pos 4;
        wait = pos 11;
        turnaround = none;
      }
      ∷ record {
        time = pos 9;
        process = (data_of 1 5);
        state = stopped;
        remain = pos 3;
        wait = pos 4;
        turnaround = none;
      }
      ∷ record {
        time = pos 5;
        process = (data_of 1 5);
        state = started;
        remain = pos 5;
        wait = pos 4;
        turnaround = none;
      }
      ∷ [];
  periods =
      Period.idle (pos 8) (pos 10)
      ∷ Period.runs (pos 1) (pos 5) (pos 4) (pos 8) (pos 3)
      ∷ Period.idle (pos 0) (pos 3)
      ∷ [];
}

abbrev pub ring : CircularQueue
ring = record { passed = 0 ∷ []; waiting = 1 ∷ []; size = 2 }

-- The run, step by step.
first_round : scheduler_round clock both_sent ≡ done first_runs
unfolding get_clk scheduler_round check_for_new_processes receive is_valid queue_priority enqueue
    cq_enqueue start_next is_none is_empty cq_is_empty schedule_next_process choose_next is_hpf
    front cq_front load dispatched log_event is_finished handle_current_running_process handle_rr
    check_no_more_processes handle_quantum_expiration is_rr dequeue cq_dequeue lt_ℤ le_ℤ eq_ℤ ◌-ℤ◌
    ◌+ℤ◌
first_round = refl

first_tick : handle_process_tick clock first_runs ≡ done one_tick
unfolding handle_process_tick get_clk load tick_queue ◌-ℤ◌
first_tick = refl

second_tick : handle_process_tick clock one_tick ≡ done two_ticks
unfolding handle_process_tick get_clk load tick_queue ◌-ℤ◌
second_tick = refl

second_round : scheduler_round clock two_ticks ≡ done between
unfolding get_clk scheduler_round check_for_new_processes receive is_valid queue_priority enqueue
    cq_enqueue start_next is_none is_empty cq_is_empty schedule_next_process choose_next is_hpf
    front cq_front load dispatched log_event is_finished handle_current_running_process handle_rr
    check_no_more_processes handle_quantum_expiration is_rr dequeue cq_dequeue lt_ℤ le_ℤ eq_ℤ ◌-ℤ◌
    ◌+ℤ◌
second_round = refl

third_round : scheduler_round clock between ≡ done second_runs
unfolding get_clk scheduler_round check_for_new_processes receive is_valid queue_priority enqueue
    cq_enqueue start_next is_none is_empty cq_is_empty schedule_next_process choose_next is_hpf
    front cq_front load dispatched log_event is_finished handle_current_running_process handle_rr
    check_no_more_processes handle_quantum_expiration is_rr dequeue cq_dequeue lt_ℤ le_ℤ eq_ℤ ◌-ℤ◌
    ◌+ℤ◌
third_round = refl

starts_as : run_scheduler clock "rr" (pos 2) globals ≡ set_up
unfolding run_scheduler get_clk init_queue set_selected_algorithm circular_queue
starts_as = refl

pub sent : Run clock (run_scheduler clock "rr" (pos 2) globals) both_sent
sent = rw starts_as (
    Run.then {t = one_sent} (Run.then Run.stay (Step.sends (job 101 1 5)))
      (Step.sends (job 102 2 4)))

pub reaches_between : Run clock (run_scheduler clock "rr" (pos 2) globals) between
unfolding keeps_running is_none is_empty cq_is_empty
reaches_between =
    Run.then
      (Run.then (Run.then (Run.then sent (Step.round refl first_round)) (Step.ticks first_tick))
        (Step.ticks second_tick))
      (Step.round refl second_round)

pub reaches_second : Run clock (run_scheduler clock "rr" (pos 2) globals) second_runs
unfolding keeps_running is_none is_empty cq_is_empty
reaches_second = Run.then reaches_between (Step.round refl third_round)
