-- ===== src/Running/Countdown.antt =====
-- src/process.c: a process of runtime n reports n - 1 units of time by SIGUSR2 and its end by one SIGUSR1.
use os_scheduler.Base.{
  ℕ, zero, suc, ◌+◌, ◌<◌, ◌≡◌, refl, sym, ap, ◌∙◌, inl, inr, true, false, List, [], ◌∷◌, arith,
  Bool-cases,
}
use os_scheduler.Base.Int.{ℤ, pos, ◌-ℤ◌, lt_ℤ, le_ℤ, eq_ℤ, pos_part, neg_part}
use os_scheduler.Base.Outcome.{Ends, ends}
use os_scheduler.Running.{
  Report, sigusr1, sigusr2, Running, stopped, run_process, handle_sigcont, poll, run_loop,
}

-- What has been reported after `k` units of time, with `left` to go.
abbrev pub reported : (k left : ℕ) → List Report
reported zero left = []
reported (suc k) zero = sigusr1 ∷ reported k 1
reported (suc k) (suc left) = sigusr2 ∷ reported k (suc (suc left))

-- `k` units are counted, and `left` are to go.
pub record Counts (k left : ℕ) (s : Running) : Type 0 where
  pub runtime : s.runtime ≡ pos left
  pub reports : s.reports ≡ reported k left

one_less : (left : ℕ) → pos (suc left) -ℤ pos 1 ≡ pos left
unfolding ◌-ℤ◌ pos_part neg_part
one_less left = ground arith

over : le_ℤ (pos 0) (pos 0) ≡ true
unfolding le_ℤ pos_part neg_part
over = refl

not_over : (left : ℕ) → le_ℤ (pos (suc left)) (pos 0) ≡ false
unfolding le_ℤ pos_part neg_part
not_over left = ground arith

goes : (left : ℕ) → lt_ℤ (pos 0) (pos (suc left)) ≡ true
unfolding lt_ℤ pos_part neg_part
goes left = ground arith

stops : lt_ℤ (pos 0) (pos 0) ≡ false
unfolding lt_ℤ pos_part neg_part
stops = refl

module _ (clock : ℕ → ℤ) where
  -- Where the clock has moved, one more unit is counted.
  poll-Counts :
      (k left : ℕ) (s : Running)
      → Counts k (suc left) s
      → eq_ℤ (clock s.reads) s.last_clk ≡ false
      → Counts (suc k) left (poll clock s)
  unfolding poll
  poll-Counts k zero s c moved = rw moved (record {
    runtime = ap (λ r. r -ℤ pos 1) c.runtime ∙ one_less 0;
    reports = rw (c.runtime, one_less 0, over, c.reports) refl;
  })
  poll-Counts k (suc left) s c moved = rw moved (record {
    runtime = ap (λ r. r -ℤ pos 1) c.runtime ∙ one_less (suc left);
    reports = rw (c.runtime, one_less (suc left), not_over left, c.reports) refl;
  })

  -- Where it has not moved, nothing changes but the count of the readings.
  pub poll_still :
      (s : Running)
      → eq_ℤ (clock s.reads) s.last_clk ≡ true
      → poll clock s ≡ record s { reads = s.reads + 1 }
  unfolding poll
  poll_still s still = rw still refl

  -- A run that is started with runtime `n`, polls, and is stopped and continued at any time.
  pub data Reached (n : ℕ) : Running → Type 0 where
    started : Reached n (run_process clock (pos n))
    polled : {s : Running} → lt_ℤ (pos 0) s.runtime ≡ true → Reached n s → Reached n (poll clock s)
    continued : {s : Running} → Reached n s → Reached n (handle_sigcont clock s)

  polled-Counts :
      (n k left : ℕ) (s : Running)
      → k + left ≡ n
      → lt_ℤ (pos 0) s.runtime ≡ true
      → Counts k left s
      → (k' : ℕ) × (left' : ℕ) × (k' + left' ≡ n) × Counts k' left' (poll clock s)
  polled-Counts n k zero s sum on c = absurd (cc (sym on ∙ ap (lt_ℤ (pos 0)) c.runtime ∙ stops))
  polled-Counts n k (suc left) s sum on c = elim (Bool-cases (eq_ℤ (clock s.reads) s.last_clk)) [
    | inl still ↦
        rw (poll_still s still)
          (k, suc left, sum, record { runtime = c.runtime; reports = c.reports })
    | inr moved ↦ (suc k, left, omega arith, poll-Counts k left s c moved)
  ]

  -- At any time, whenever the process was stopped and continued, the units that have been reported and
  -- those that are left make up the runtime; all reports are SIGUSR2, but SIGUSR1 is the last one
  -- once nothing is left.
  pub Reached-Counts :
      (n : ℕ) (s : Running) → Reached n s → (k : ℕ) × (left : ℕ) × (k + left ≡ n) × Counts k left s
  unfolding run_process stopped handle_sigcont
  Reached-Counts n s Reached.started =
      (0, n, omega arith, record { runtime = refl; reports = refl })
  Reached-Counts n s (Reached.polled on r) =
      let (k, left, sum, c) = Reached-Counts n _ r in polled-Counts n k left _ sum on c
  Reached-Counts n s (Reached.continued r) =
      let (k, left, sum, c) = Reached-Counts n _ r in
      (k, left, sum, record { runtime = c.runtime; reports = c.reports })

  -- The clock moves within `d` readings.
  module _ (d : ℕ)
      (ticks : (n : ℕ) (t : ℤ) → (j : ℕ) × (j < d) × (eq_ℤ (clock (n + j)) t ≡ false)) where
    -- Enough turns of the loop for `n` units of time.
    abbrev pub turns : ℕ → ℕ
    turns zero = 1
    turns (suc n) = d + turns n

    -- What a run ends with.
    abbrev pub Finished : ℕ → Running → Type 0
    Finished n s = (s.runtime ≡ pos 0) × (s.reports ≡ reported n 0)

    finished :
        (fuel n k : ℕ) (s : Running)
        → 0 < fuel
        → k ≡ n
        → Counts k 0 s
        → Ends (Finished n) (run_loop clock fuel s)
    unfolding run_loop
    finished zero n k s enough sum c = absurd (omega arith)
    finished (suc fuel) n k s enough sum c =
        let off : lt_ℤ (pos 0) s.runtime ≡ false = ap (lt_ℤ (pos 0)) c.runtime ∙ stops in
        rw off (ends (c.runtime, c.reports ∙ ap (λ m. reported m 0) sum))

    later :
        (s : Running) (j : ℕ)
        → eq_ℤ (clock s.reads) s.last_clk ≡ true
        → eq_ℤ (clock (s.reads + j)) s.last_clk ≡ false
        → (i : ℕ) × (j ≡ suc i) × (eq_ℤ (clock (s.reads + 1 + i)) s.last_clk ≡ false)
    later s zero still moves =
        let here : s.reads + 0 ≡ s.reads = omega arith in
        let moves = rw here at moves in absurd (cc (sym still ∙ moves))
    later s (suc i) still moves =
        let next : s.reads + suc i ≡ s.reads + 1 + i = omega arith in (i, refl, rw next at moves)

    run_loop-Finished :
        (fuel n k left j : ℕ) (s : Running)
        → k + suc left ≡ n
        → Counts k (suc left) s
        → eq_ℤ (clock (s.reads + j)) s.last_clk ≡ false
        → j + turns left < fuel
        → Ends (Finished n) (run_loop clock fuel s)
    unfolding run_loop
    run_loop-Finished zero n k left j s sum c moves enough = absurd (omega arith)
    run_loop-Finished (suc fuel) n k zero j s sum c moves enough =
        let on : lt_ℤ (pos 0) s.runtime ≡ true = ap (lt_ℤ (pos 0)) c.runtime ∙ goes 0 in
        rw on (elim (Bool-cases (eq_ℤ (clock s.reads) s.last_clk)) [
          | inl still ↦
              let (i, is, moves) = later s j still moves in
              rw (poll_still s still) (
                run_loop-Finished fuel n k 0 i (record s { reads = s.reads + 1 }) sum
                  (record { runtime = c.runtime; reports = c.reports }) moves (omega arith))
          | inr moved ↦
              finished fuel n (suc k) (poll clock s) (omega arith) (omega arith)
                (poll-Counts k 0 s c moved)
        ])
    run_loop-Finished (suc fuel) n k (suc left) j s sum c moves enough =
        let on : lt_ℤ (pos 0) s.runtime ≡ true = ap (lt_ℤ (pos 0)) c.runtime ∙ goes (suc left) in
        rw on (elim (Bool-cases (eq_ℤ (clock s.reads) s.last_clk)) [
          | inl still ↦
              let (i, is, moves) = later s j still moves in
              rw (poll_still s still) (
                run_loop-Finished fuel n k (suc left) i (record s { reads = s.reads + 1 }) sum
                  (record { runtime = c.runtime; reports = c.reports }) moves (omega arith))
          | inr moved ↦
              let (i, soon, moves) = ticks (poll clock s).reads (poll clock s).last_clk in
              run_loop-Finished fuel n (suc k) left i (poll clock s) (omega arith)
                (poll-Counts k (suc left) s c moved) moves (omega arith)
        ])

    -- Where the clock moves within any `d` readings, run_loop ends, with the reports of n units.
    pub run_loop_ends :
        (n fuel : ℕ) (s : Running)
        → Counts 0 n s
        → turns n < fuel
        → Ends (Finished n) (run_loop clock fuel s)
    run_loop_ends zero fuel s c enough = finished fuel 0 0 s (omega arith) refl c
    run_loop_ends (suc n) fuel s c enough =
        let (j, soon, moves) = ticks s.reads s.last_clk in
        run_loop-Finished fuel (suc n) 0 n j s (omega arith) c moves (omega arith)
