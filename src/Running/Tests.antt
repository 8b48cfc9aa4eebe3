-- ===== src/Running/Tests.antt =====
-- Runs of src/process.c with a clock that moves at each reading.
use os_scheduler.Base.{ℕ, ◌+◌, ◌<◌, ◌≡◌, refl, [], ◌∷◌, arith, ◌==◌, false, Bool-cases, inl, inr}
use os_scheduler.Base.Int.{ℤ, ◌≤ℤ◌, ◌+ℤ◌, pos, negsuc, eq_ℤ, pos_part, neg_part, lt_ℤ, le_ℤ, ◌-ℤ◌}
use os_scheduler.Base.Outcome.{done, Ends}
use os_scheduler.Running.{
  Running, sigusr1, sigusr2, stopped, run_process, poll, handle_sigcont, run_loop,
}
use os_scheduler.Running.Time.{run_process_ends}
use os_scheduler.Running.Countdown.{Counts, started, polled, continued, Reached-Counts, Finished}

abbrev moving : ℕ → ℤ
moving k = pos k

moving_soon : (n : ℕ) (t : ℤ) → (j : ℕ) × (j < 2) × (eq_ℤ (moving (n + j)) t ≡ false)
unfolding eq_ℤ pos_part neg_part
moving_soon n (negsuc m) = (0, omega arith, ground arith)
moving_soon n (pos m) = elim (Bool-cases (n == m)) [
  | inr e ↦ (0, omega arith, ground arith)
  | inl e ↦ (1, omega arith, ground arith)
]

-- Three units of time: two reports of a unit, and the end.
three_units :
    run_loop moving 9 (run_process moving (pos 3))
    ≡ done (record {
      runtime = pos 0;
      last_clk = pos 7;
      reads = 8;
      reports = sigusr1 ∷ sigusr2 ∷ sigusr2 ∷ [];
    })
unfolding run_loop run_process stopped handle_sigcont poll eq_ℤ pos_part neg_part lt_ℤ le_ℤ ◌-ℤ◌
three_units = refl

forwards : (k : ℕ) → moving k ≤ℤ moving (k + 1)
unfolding pos_part neg_part
forwards k = omega arith

run_process_ends_example :
    Ends
      (λ s. Finished moving 2 moving_soon 3 s × (moving 0 +ℤ pos 3 ≤ℤ s.last_clk))
      (run_loop moving 9 (run_process moving (pos 3)))
run_process_ends_example = run_process_ends moving forwards 2 moving_soon 3 9 (omega arith)

-- Stopped and continued after the first unit.
abbrev interrupted : Running
interrupted = handle_sigcont moving (poll moving (poll moving (run_process moving (pos 3))))

Reached-Counts_example : (k : ℕ) × (left : ℕ) × (k + left ≡ 3) × Counts k left interrupted
unfolding run_process stopped handle_sigcont poll eq_ℤ pos_part neg_part lt_ℤ le_ℤ ◌-ℤ◌
Reached-Counts_example =
    Reached-Counts moving 3 interrupted (continued (polled refl (polled refl started)))
