-- ===== src/Running.antt =====
-- src/process.c: a child process counts its runtime down by the clock and reports each unit of time to the
-- scheduler. The k-th reading of the clock is a parameter; the child stops itself at first and goes on
-- when it gets SIGCONT.
pub mod Countdown
pub mod Time
mod Tests
use os_scheduler.Base.{ℕ, zero, suc, ◌+◌, Bool, true, false, List, [], ◌∷◌, if◌then◌else◌}
use os_scheduler.Base.Int.{ℤ, pos, ◌-ℤ◌, lt_ℤ, le_ℤ, eq_ℤ}
use os_scheduler.Base.Outcome.{Outcome, done, starved}

-- What kill sends to the scheduler.
pub data Report : Type 0 where
  sigusr1 sigusr2 : Report

-- The reports are the latest first.
pub record Running : Type 0 where
  pub runtime : ℤ
  pub last_clk : ℤ
  pub reads : ℕ
  pub reports : List Report

-- run_process, up to raise(SIGSTOP); last_clk is a global that starts at 0.
unfoldable pub stopped : (runtime : ℤ) → Running
stopped runtime = record { runtime = runtime; last_clk = pos 0; reads = 0; reports = [] }

module _ (clock : ℕ → ℤ) where
  -- The handler of SIGCONT.
  unfoldable pub handle_sigcont : Running → Running
  handle_sigcont s = record s { last_clk = clock s.reads; reads = s.reads + 1 }

  -- run_process, up to its loop: the first SIGCONT ends the stop, and the line that it prints shows the
  -- clock.
  unfoldable pub run_process : (runtime : ℤ) → Running
  run_process runtime = let s = handle_sigcont (stopped runtime) in record s { reads = s.reads + 1 }

  -- The body of the loop.
  unfoldable pub poll : Running → Running
  poll s =
      let runtime = s.runtime -ℤ pos 1 in
      if eq_ℤ (clock s.reads) s.last_clk then record s { reads = s.reads + 1 } else record {
        runtime = runtime;
        last_clk = clock (s.reads + 1);
        reads = s.reads + 2;
        reports = (if le_ℤ runtime (pos 0) then sigusr1 else sigusr2) ∷ s.reports;
      }

  -- The `while (runtime > 0)` loop.
  unfoldable pub run_loop : (fuel : ℕ) → Running → Outcome Running
  run_loop zero s = starved
  run_loop (suc fuel) s =
      let rest = run_loop fuel (poll s) in if lt_ℤ (pos 0) s.runtime then rest else done s
