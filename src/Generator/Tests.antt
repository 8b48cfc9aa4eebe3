-- ===== src/Generator/Tests.antt =====
-- A run of src/process_generator.c: one process arrives, gets memory and is sent.
use mathlib.Core.List.{reverse_aux, append-nil}
use os_scheduler.Base.{
  sym, ◌++◌, length, ℕ, suc, ◌+◌, ◌≤◌, ◌≡◌, refl, inl, inr, true, false, none, some, List, [], ◌∷◌,
  arith, if◌then◌else◌, Perm, map, leb, Bool-cases,
}
use os_scheduler.Base.Int.{pos, pos_part, eq_ℤ, neg_part, lt_ℤ}
use os_scheduler.Base.Outcome.{load, Outcome, done, Ends}
use os_scheduler.Pcb.{Process, Pcb}
use os_scheduler.Buddy.{
  Block, Place, get_smallest_block_available, init_memory, allocate_memory, split_until,
  split_block, ceil_log2, floor_log2, floor_log2_loop, scan_smallest, focus, focus_from,
}
use os_scheduler.Buddy.Allocate.{Taken}
use os_scheduler.Buddy.Address.{has}
use os_scheduler.MemoryManager.{
  init_memory_manager, get_smallest_block, get_oldest_fit, fit_from, allocate_process_memory,
  assign_memory_block_to_process, log_memory_event,
}
use os_scheduler.HashMap.{
  hashmap_put, hashmap_create, search_key, hashmap_int_hash, probe, probe_round, put_at,
}
use os_scheduler.Generator.{
  Generator, System, fresh_generator, fork_and_send, new_pcb, allocate, send_waited, send_waiting,
  admit, is_marked, send_arrived, generator_pass, goes_on, send_no_more,
}
use os_scheduler.Scheduler.State.{Scheduler}
use os_scheduler.Scheduler.Loop.{check_for_new_processes}
use os_scheduler.Scheduler.Sound.{IsSound}
use os_scheduler.Scheduler.Run.{reachable-IsSound}
use os_scheduler.Scheduler.Example.{clock, globals, globals-IsFresh, both_sent, sent}
use os_scheduler.Handover.Sent.{IsStartable, Forks}
use os_scheduler.Handover.Accepted.{check_for_new_processes-Reached}
use os_scheduler.Generator.Assign.{IsMalloc}
use os_scheduler.Generator.Admit.{Tried, failures, send_waited_correct}
use os_scheduler.Generator.Missed
use os_scheduler.Generator.Missed.{now, missed_arrival}
use os_scheduler.Generator.Pass.{IsSized, Holds}
use os_scheduler.Generator.Run.{
  Reached, started, passed, Reached-Holds, Reached-generator_pass, Reached-send_no_more,
}

-- One more than the highest address.
abbrev top : List Block → ℕ
top [] = 0
top (b ∷ bs) = if leb (top bs) b.address then suc b.address else top bs

above_top : (bs : List Block) (a : ℕ) → top bs ≤ a → has a bs ≡ false
above_top [] a h = refl
above_top (b ∷ bs) a h = elim (Bool-cases (leb (top bs) b.address)) [
  | inl e ↦ let below : top bs ≤ a = ground arith in rw (above_top bs a below) (ground arith)
  | inr e ↦ let below : top bs ≤ a = ground arith in rw (above_top bs a below) (ground arith)
]

-- The clock stands at 0; pids count up from 100.
abbrev quiet : System
quiet = record {
  clock = λ _. pos 0;
  fork = λ n. some (pos (n + 100));
  msgsnd = λ _. true;
  notifies = true;
  malloc = λ memory k. top memory + k;
  clk_pid = pos 98;
  sch_pid = pos 99;
}

quiet-IsMalloc : IsMalloc quiet.malloc
quiet-IsMalloc = record {
  fresh = λ memory k. above_top memory (top memory + k) (omega arith);
  apart = λ memory i j h. ground arith;
}

abbrev first : Process
first = record {
  id = pos 1;
  arrival_time = pos 0;
  runtime = pos 5;
  priority = pos 1;
  memory_size = pos 200;
}

first-IsSized : IsSized first
unfolding pos_part
first-IsSized = omega arith

abbrev or_fresh : Outcome Generator → Generator
or_fresh (done s) = s
or_fresh _ = fresh_generator 7

-- After one pass.
abbrev after_one : Generator
after_one = or_fresh (generator_pass quiet (first ∷ []) 1 (fresh_generator 7))

first_sent : generator_pass quiet (first ∷ []) 1 (fresh_generator 7) ≡ done after_one
unfolding generator_pass send_waiting get_oldest_fit fit_from send_arrived admit allocate
    allocate_process_memory fresh_generator eq_ℤ is_marked allocate_memory
    get_smallest_block_available init_memory_manager init_memory ceil_log2 split_until floor_log2
    floor_log2_loop split_block fork_and_send assign_memory_block_to_process hashmap_put
    hashmap_create search_key lt_ℤ neg_part pos_part load focus focus_from scan_smallest new_pcb
    send_waited hashmap_int_hash probe probe_round put_at get_smallest_block log_memory_event
first_sent = refl

first_message : map (λ (p : Pcb). p.process) after_one.messages ≡ first ∷ []
unfolding generator_pass send_waiting get_oldest_fit fit_from send_arrived admit allocate
    allocate_process_memory fresh_generator eq_ℤ is_marked allocate_memory
    get_smallest_block_available init_memory_manager init_memory ceil_log2 split_until floor_log2
    floor_log2_loop split_block fork_and_send assign_memory_block_to_process hashmap_put
    hashmap_create search_key lt_ℤ neg_part pos_part load focus focus_from scan_smallest new_pcb
    send_waited hashmap_int_hash probe probe_round put_at get_smallest_block log_memory_event
first_message = refl

-- A fork that fails: the process is neither sent nor waiting, and is the one that is lost.
abbrev no_forks : System
no_forks = record quiet { fork = λ _. none }

abbrev after_none : Generator
after_none = or_fresh (generator_pass no_forks (first ∷ []) 1 (fresh_generator 7))

first_lost :
    (after_none.i ≡ 1)
    × (after_none.messages ≡ [])
    × (after_none.waiting_list ≡ [])
    × (failures no_forks after_none.forks ≡ 1)
unfolding generator_pass send_waiting get_oldest_fit fit_from send_arrived admit allocate
    allocate_process_memory fresh_generator eq_ℤ is_marked allocate_memory
    get_smallest_block_available init_memory_manager init_memory ceil_log2 split_until floor_log2
    floor_log2_loop split_block fork_and_send assign_memory_block_to_process hashmap_put
    hashmap_create search_key lt_ℤ neg_part pos_part load focus focus_from scan_smallest new_pcb
    send_waited hashmap_int_hash probe probe_round put_at get_smallest_block log_memory_event
first_lost = (refl, refl, refl, refl)

after_one-Reached : Reached quiet (first ∷ []) after_one
unfolding fresh_generator goes_on
after_one-Reached = passed {s = fresh_generator 7} refl first_sent (started 7)

first_stops : goes_on (first ∷ []) after_one ≡ false
unfolding generator_pass send_waiting get_oldest_fit fit_from send_arrived admit allocate
    allocate_process_memory fresh_generator eq_ℤ is_marked allocate_memory
    get_smallest_block_available init_memory_manager init_memory ceil_log2 split_until floor_log2
    floor_log2_loop split_block fork_and_send assign_memory_block_to_process hashmap_put
    hashmap_create search_key lt_ℤ neg_part pos_part load focus focus_from scan_smallest new_pcb
    send_waited hashmap_int_hash probe probe_round put_at get_smallest_block log_memory_event
    goes_on
first_stops = refl

Reached-Holds_example : Holds quiet (first ∷ []) after_one
Reached-Holds_example =
    Reached-Holds quiet (first ∷ []) quiet-IsMalloc (first-IsSized, tt) after_one after_one-Reached

Reached-generator_pass_example :
    Ends (Reached quiet (first ∷ [])) (generator_pass quiet (first ∷ []) 1 (fresh_generator 7))
unfolding fresh_generator goes_on
Reached-generator_pass_example =
    Reached-generator_pass quiet (first ∷ []) quiet-IsMalloc (first-IsSized, tt) (fresh_generator 7)
      (started 7) refl

Reached-send_no_more_example :
    ((lost : List Process) × (length lost ≡ failures quiet after_one.forks)
      × Perm (lost ++ map (λ (p : Pcb). p.process) after_one.messages) (first ∷ []))
    × (after_one.waiting_list ≡ [])
    × ((send_no_more quiet after_one).notices ≡ "no_more_processes" ∷ after_one.notices)
Reached-send_no_more_example =
    Reached-send_no_more quiet (first ∷ []) quiet-IsMalloc (first-IsSized, tt) after_one
      after_one-Reached first_stops

abbrev whole : Place
whole = record {
  before = [];
  block = record { address = 7; size = 1024; start = 0; allocated = 0 };
  after = [];
}

send_waited_correct_example :
    Ends
      (λ s'.
        Tried quiet (fresh_generator 7) first s'
        × Taken (fresh_generator 7).manager.memory (pos_part (pos 200)) 7 s'.manager.memory)
      (send_waited quiet (fresh_generator 7) first)
unfolding fresh_generator init_memory_manager init_memory get_smallest_block
    get_smallest_block_available scan_smallest pos_part
send_waited_correct_example =
    send_waited_correct quiet quiet-IsMalloc (fresh_generator 7) first whole
      (Reached-Holds quiet (first ∷ []) quiet-IsMalloc (first-IsSized, tt) (fresh_generator 7)
        (started 7)).good
      first-IsSized refl

-- The clock is past the arrival time.
abbrev late : System
late = record quiet { clock = λ _. pos 1 }

abbrev still_late : Generator
still_late = record (fresh_generator 7) { waiting_list = []; reads = 1 }

late_pass : generator_pass late (first ∷ []) 1 (fresh_generator 7) ≡ done still_late
unfolding generator_pass send_waiting get_oldest_fit fit_from send_arrived fresh_generator eq_ℤ
    neg_part pos_part
late_pass = refl

missed_arrival_example :
    (still_late.i ≡ 0)
    × (still_late.processed ≡ (fresh_generator 7).processed)
    × (goes_on (first ∷ []) still_late ≡ true)
unfolding fresh_generator
missed_arrival_example =
    missed_arrival late (first ∷ []) (fresh_generator 7) first refl (λ k after e. ground arith)
      still_late (Missed.Later.passed 1 now late_pass)

quiet-Forks : Forks quiet
unfolding lt_ℤ
quiet-Forks n pid forked = let is : pid ≡ pos (n + 100) = cc forked in rw is (ground arith)

first-IsStartable : IsStartable first
unfolding lt_ℤ
first-IsStartable = (refl, refl)

-- A scheduler to which all that was sent comes.
abbrev listening : Scheduler
listening = record both_sent { arrivals = reverse_aux after_one.messages [] }

check_for_new_processes-Reached_example :
    Ends
      (λ t.
        IsSound t
        × (t.store ≡ listening.store ++ reverse_aux after_one.messages [])
        × (t.arrivals ≡ []))
      (check_for_new_processes clock listening)
check_for_new_processes-Reached_example =
    check_for_new_processes-Reached quiet quiet-Forks (first ∷ []) (first-IsStartable, tt) clock
      after_one after_one.messages [] listening after_one-Reached
      (sym (append-nil after_one.messages))
      (reachable-IsSound clock "rr" (pos 2) globals both_sent globals-IsFresh sent) refl
