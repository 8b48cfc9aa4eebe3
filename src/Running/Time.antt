-- ===== src/Running/Time.antt =====
-- src/process.c: a process reports no more units of time than the clock has moved on.
use mathlib.Core.Path.{subst}
use os_scheduler.Base.{
  ap, ℕ, zero, suc, ◌+◌, ◌<◌, ◌≤◌, ◌≡◌, refl, inl, inr, false, arith, Bool-cases,
}
use os_scheduler.Base.Int.{ℤ, pos, ◌+ℤ◌, ◌≤ℤ◌, lt_ℤ, eq_ℤ, pos_part, neg_part, int_laws}
use os_scheduler.Base.Outcome.{done, Ends, ends, Ends-result, done_injective}
use os_scheduler.Running.{Running, stopped, run_process, handle_sigcont, poll, run_loop}
use os_scheduler.Running.Countdown.{Reached, Counts, Finished, turns, run_loop_ends}

module _ (clock : ℕ → ℤ) (forward : (k : ℕ) → clock k ≤ℤ clock (k + 1)) where
  -- The units that were counted since the first reading are no more than the clock has moved on since.
  pub record Timed (n : ℕ) (s : Running) : Type 0 where
    pub elapsed : clock 0 +ℤ pos n ≤ℤ s.last_clk +ℤ s.runtime
    pub past : s.last_clk ≤ℤ clock s.reads

  unequal : (a b : ℤ) → a ≤ℤ b → eq_ℤ b a ≡ false → a +ℤ pos 1 ≤ℤ b
  unfolding eq_ℤ
  unequal a b below apart =
      let differ : suc (pos_part a + neg_part b) ≤ pos_part b + neg_part a = ground arith in
      omega (int_laws, differ)

  twice : (k : ℕ) → clock k ≤ℤ clock (k + 2)
  twice k = omega (int_laws, forward k, next)
    where
      next : clock (k + 1) ≤ℤ clock (k + 2)
      next = let same : k + 1 + 1 ≡ k + 2 = omega arith in rw same at (forward (k + 1))

  poll-Timed : (n : ℕ) (s : Running) → Timed n s → Timed n (poll clock s)
  unfolding poll
  poll-Timed n s t = elim (Bool-cases (eq_ℤ (clock s.reads) s.last_clk)) [
    | inl still ↦
        rw still (record { elapsed = t.elapsed; past = omega (int_laws, t.past, forward s.reads) })
    | inr moved ↦
        let more = unequal s.last_clk (clock s.reads) t.past moved in
        let same : s.reads + 1 + 1 ≡ s.reads + 2 = omega arith in
        rw moved (record {
          elapsed = omega (int_laws, more, forward s.reads, t.elapsed);
          past = rw same at (forward (s.reads + 1));
        })
  ]

  handle_sigcont-Timed : (n : ℕ) (s : Running) → Timed n s → Timed n (handle_sigcont clock s)
  unfolding handle_sigcont
  handle_sigcont-Timed n s t = record {
    elapsed = omega (int_laws, t.past, t.elapsed);
    past = forward s.reads;
  }

  start-Timed : (n : ℕ) → Timed n (run_process clock (pos n))
  unfolding run_process stopped handle_sigcont
  start-Timed n = record { elapsed = omega arith; past = twice 0 }

  Reached-Timed : (n : ℕ) (s : Running) → Reached clock n s → Timed n s
  Reached-Timed n s Reached.started = start-Timed n
  Reached-Timed n s (Reached.polled {s = before} on r) =
      poll-Timed n before (Reached-Timed n before r)
  Reached-Timed n s (Reached.continued {s = before} r) =
      handle_sigcont-Timed n before (Reached-Timed n before r)

  run_loop-Reached :
      (fuel n : ℕ) (s t : Running)
      → Reached clock n s
      → run_loop clock fuel s ≡ done t
      → Reached clock n t
  unfolding run_loop
  run_loop-Reached zero n s t r run = absurd (cc run)
  run_loop-Reached (suc fuel) n s t r run = elim (Bool-cases (lt_ℤ (pos 0) s.runtime)) [
    | inl on ↦ run_loop-Reached fuel n (poll clock s) t (Reached.polled on r) (rw on at run)
    | inr off ↦ subst (Reached clock n) (done_injective (rw off at run)) r
  ]

  -- Where the clock never goes back and moves within any `d` readings, a child of runtime n, from the
  -- SIGCONT that ends its stop, ends with fuel for n times d turns of its loop; it has then reported n - 1
  -- units of time by SIGUSR2 and its end by one SIGUSR1, nothing at all if n is 0, and the clock has
  -- moved on by at least n since that SIGCONT.
  pub run_process_ends :
      (d : ℕ) (ticks : (n : ℕ) (t : ℤ) → (j : ℕ) × (j < d) × (eq_ℤ (clock (n + j)) t ≡ false))
      (n fuel : ℕ)
      → turns clock d ticks n < fuel
      → Ends
          (λ s. Finished clock d ticks n s × (clock 0 +ℤ pos n ≤ℤ s.last_clk))
          (run_loop clock fuel (run_process clock (pos n)))
  unfolding run_process stopped handle_sigcont
  run_process_ends d ticks n fuel enough =
      let begun : Counts 0 n (run_process clock (pos n)) = record {
        runtime = refl;
        reports = refl;
      } in
      let (s, run, f) = Ends-result (run_loop_ends clock d ticks n fuel _ begun enough) in
      let timed = Reached-Timed n s (run_loop-Reached fuel n _ s Reached.started run) in
      rw run (ends (f, omega (int_laws, ap pos_part f.0, ap neg_part f.0, timed.elapsed)))
