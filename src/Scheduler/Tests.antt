-- ===== src/Scheduler/Tests.antt =====
-- Runs of src/scheduler.c, and its theorems on the states of one run under Round Robin.
use os_scheduler.Base.{refl, [], ◌∷◌}
use os_scheduler.Base.Int.{pos}
use os_scheduler.Base.Outcome.{Ends}
use os_scheduler.CircularQueue.{cq_is_empty}
use os_scheduler.IQueue.{circular, is_empty}
use os_scheduler.Scheduler.Dispatch.{handle_process_termination, handle_quantum_expiration}
use os_scheduler.Scheduler.Loop.{start_next, check_for_new_processes, scheduler_round}
use os_scheduler.Scheduler.Sound.{IsSound}
use os_scheduler.Scheduler.Handlers.{Dispatched}
use os_scheduler.Scheduler.Rounds.{
  start_next_correct, Received, check_for_new_processes_correct, scheduler_round_Sound,
}
use os_scheduler.Scheduler.Turns.{
  RunsFirst, Turned, handle_process_termination_turns, handle_quantum_expiration_turns,
}
use os_scheduler.Scheduler.Run.{reachable-IsSound}
use os_scheduler.Scheduler.Example.{
  clock, job, globals, globals-IsFresh, both_sent, between, second_runs, ring, sent,
  reaches_between, reaches_second,
}

between-IsSound : IsSound between
between-IsSound =
    reachable-IsSound clock "rr" (pos 2) globals between globals-IsFresh reaches_between

start_next_correct_example : Ends (Dispatched (circular ring)) (start_next clock between)
unfolding is_empty cq_is_empty
start_next_correct_example = start_next_correct clock between between-IsSound refl refl

second_runs-IsSound : IsSound second_runs
second_runs-IsSound =
    reachable-IsSound clock "rr" (pos 2) globals second_runs globals-IsFresh reaches_second

reachable-IsSound_example : IsSound second_runs
reachable-IsSound_example =
    reachable-IsSound clock "rr" (pos 2) globals second_runs globals-IsFresh reaches_second

both_sent-IsSound : IsSound both_sent
both_sent-IsSound = reachable-IsSound clock "rr" (pos 2) globals both_sent globals-IsFresh sent

check_for_new_processes_correct_example :
    Ends
      (Received (job 101 1 5 ∷ job 102 2 4 ∷ []) both_sent)
      (check_for_new_processes clock both_sent)
check_for_new_processes_correct_example =
    check_for_new_processes_correct clock both_sent both_sent-IsSound

scheduler_round_Sound_example : Ends IsSound (scheduler_round clock both_sent)
scheduler_round_Sound_example = scheduler_round_Sound clock both_sent both_sent-IsSound

handle_process_termination_turns_example :
    RunsFirst ring 1 × Ends (Turned (0 ∷ [])) (handle_process_termination clock second_runs)
handle_process_termination_turns_example =
    handle_process_termination_turns clock second_runs ring 1 second_runs-IsSound refl refl refl

handle_quantum_expiration_turns_example :
    RunsFirst ring 1 × Ends (Turned (0 ∷ 1 ∷ [])) (handle_quantum_expiration clock second_runs)
handle_quantum_expiration_turns_example =
    handle_quantum_expiration_turns clock second_runs ring 1 second_runs-IsSound refl refl refl
