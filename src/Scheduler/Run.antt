-- ===== src/Scheduler/Run.antt =====
-- src/scheduler.c: runs of the scheduler. scheduler_loop goes round while keeps_running holds;
-- between two rounds the handlers of SIGUSR1 and SIGUSR2 run, and messages come in.
use Prim.Native.String.{String}
use os_scheduler.Base.{ℕ, ◌≡◌, true, none, [], ◌∷◌, ◌++◌, inl, inr, Option-cases}
use os_scheduler.Base.Int.{ℤ}
use os_scheduler.Base.Outcome.{done, Ends-done}
use os_scheduler.Pcb.{Pcb}
use os_scheduler.IQueue.{init_queue}
use os_scheduler.IQueue.Good.{init_queue_correct}
use os_scheduler.Scheduler.State.{Scheduler, get_clk, set_selected_algorithm, run_scheduler}
use os_scheduler.Scheduler.Dispatch.{handle_process_termination, handle_process_tick}
use os_scheduler.Scheduler.Loop.{keeps_running, scheduler_round}
use os_scheduler.Scheduler.Sound.{Sound, IsSound, Traced}
use os_scheduler.Scheduler.Handlers.{
  no_process-fault, handle_process_tick_Sound, handle_process_termination_Sound,
}
use os_scheduler.Scheduler.Rounds.{scheduler_round_Sound}

-- The globals before run_scheduler: nothing allocated, logged or sent.
pub record IsFresh (s : Scheduler) : Type 0 where
  pub idle : s.current_pcb ≡ none
  pub no_store : s.store ≡ []
  pub no_log : s.log ≡ []
  pub no_signals : s.signals ≡ []

module _ (clock : ℕ → ℤ) where
  pub data Step : Scheduler → Scheduler → Type 0 where
    round : {s t : Scheduler} → keeps_running s ≡ true → scheduler_round clock s ≡ done t → Step s t
    ticks : {s t : Scheduler} → handle_process_tick clock s ≡ done t → Step s t
    terminates : {s t : Scheduler} → handle_process_termination clock s ≡ done t → Step s t
    sends : {s : Scheduler} → (pcb : Pcb) → Step s (record s { arrivals = s.arrivals ++ pcb ∷ [] })
    notifies :
        {s : Scheduler} → (text : String) → Step s (record s { notices = s.notices ++ text ∷ [] })

  pub data Run : Scheduler → Scheduler → Type 0 where
    stay : {s : Scheduler} → Run s s
    then : {s t u : Scheduler} → Run s t → Step t u → Run s u

  -- run_scheduler sets up sound globals.
  pub run_scheduler_Sound :
      (name : String) (quantum : ℤ) (s : Scheduler)
      → IsFresh s
      → IsSound (run_scheduler clock name quantum s)
  unfolding run_scheduler get_clk
  run_scheduler_Sound name quantum s fresh =
      let a = set_selected_algorithm name s.selected_algorithm in
      let (good, serves, within) = init_queue_correct a in
      let v : Sound a (init_queue a) [] none [] [] = record {
        good = good;
        serves = serves;
        within = within;
        current_in = tt;
        at_front = tt;
        traced = Traced.quiet;
      } in
      rw (fresh.idle, fresh.no_store, fresh.no_log, fresh.no_signals) v

  Step-Sound : {s t : Scheduler} → IsSound s → Step s t → IsSound t
  Step-Sound v (Step.round _ e) = Ends-done (scheduler_round_Sound clock _ v) e
  Step-Sound {s} v (Step.ticks e) = elim (Option-cases s.current_pcb) [
    | inl idle ↦ absurd (cc (no_process-fault clock s idle).0)
    | inr (p, busy) ↦ Ends-done (handle_process_tick_Sound clock s p v busy) e
  ]
  Step-Sound {s} v (Step.terminates e) = elim (Option-cases s.current_pcb) [
    | inl idle ↦ absurd (cc (no_process-fault clock s idle).1)
    | inr (p, busy) ↦ Ends-done (handle_process_termination_Sound clock s p v busy) e
  ]
  Step-Sound v (Step.sends pcb) = v
  Step-Sound v (Step.notifies text) = v

  Run-IsSound : {s t : Scheduler} → IsSound s → Run s t → IsSound t
  Run-IsSound v Run.stay = v
  Run-IsSound v (Run.then r step) = Step-Sound (Run-IsSound v r) step

  -- From fresh globals, whatever the algorithm and the quantum, and in whatever order rounds, ticks,
  -- terminations and messages come, the scheduler reaches only sound globals: every pointer in the queue and
  -- in current_pcb is to an allocated PCB, and the log and the signals alternate between giving the CPU to a
  -- process while none runs and taking it from the process that runs.
  pub reachable-IsSound :
      (name : String) (quantum : ℤ) (s t : Scheduler)
      → IsFresh s
      → Run (run_scheduler clock name quantum s) t
      → IsSound t
  reachable-IsSound name quantum s t fresh r =
      Run-IsSound (run_scheduler_Sound name quantum s fresh) r
