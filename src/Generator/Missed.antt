-- ===== src/Generator/Missed.antt =====
-- src/process_generator.c: a process whose arrival time the loop does not read is never admitted.
use mathlib.Core.Path.{subst}
use os_scheduler.Base.{
  ℕ, ◌+◌, if◌then◌else◌, zero, suc, ◌≤◌, ◌<◌, ◌≡◌, ◌≢◌, refl, ◌∙◌, inl, inr, true, false, ◌||◌,
  Option, some, List, [], ◌∷◌, get_elem?, length, arith, Bool-cases, Option-cases,
}
use os_scheduler.Base.Int.{ℤ, eq_ℤ, eq_ℤ_iff, pos_part}
use os_scheduler.Base.Outcome.{done, done_injective, bind-done}
use os_scheduler.Pcb.{Process, Pcb}
use os_scheduler.MemoryManager.{
  assign_memory_block_to_process, get_oldest_fit, get_smallest_block, allocate_process_memory,
  deallocate_process_memory,
}
use os_scheduler.Generator.{
  Generator, System, is_assigned, new_pcb, fork_and_send, allocate, send_waited, send_waiting,
  send_arrived, generator_pass, handle_child_exit, goes_on,
}

eq_false : (a b : ℤ) → a ≢ b → eq_ℤ a b ≡ false
eq_false a b ne = elim (Bool-cases (eq_ℤ a b)) [
  | inl e ↦ absurd (ne ((eq_ℤ_iff a b).0 e))
  | inr e ↦ e
]

-- No process of the input is admitted, and the clock is read on.
pub record Kept (s t : Generator) : Type 0 where
  pub same_i : t.i ≡ s.i
  pub same_processed : t.processed ≡ s.processed
  pub later : s.reads ≤ t.reads

Kept-trans : (s t u : Generator) → Kept s t → Kept t u → Kept s u
Kept-trans s t u first next = record {
  same_i = next.same_i ∙ first.same_i;
  same_processed = next.same_processed ∙ first.same_processed;
  later = omega (arith, first.later, next.later);
}

read_on : {n : ℕ} (pcb : Pcb) → n ≤ (if is_assigned pcb then n + 1 else n)
read_on pcb = elim (Bool-cases (is_assigned pcb)) [
  | inl e ↦ rw e (omega arith)
  | inr e ↦ rw e (omega arith)
]

module _ (system : System) where
  fork_and_send-Kept :
      (s t : Generator) (process : Process) (block : Option ℕ)
      → fork_and_send system s process block ≡ done t
      → Kept s t
  unfolding fork_and_send
  fork_and_send-Kept s t process block run = elim (Option-cases (system.fork s.forks)) [
    | inl failed ↦
        subst (Kept s) (done_injective (rw (failed, fork_and_send) at run))
          (record { same_i = refl; same_processed = refl; later = omega arith })
    | inr (pid, forked) ↦
        let (r, _, run) =
          bind-done
            (assign_memory_block_to_process (system.clock s.reads) s.manager (new_pcb pid process)
              block)
            _ _ (rw (forked, fork_and_send) at run) in
        elim (Bool-cases (system.msgsnd s.forks)) [
          | inl sent ↦
              subst (Kept s) (done_injective (rw sent at run))
                (record { same_i = refl; same_processed = refl; later = read_on r.0 })
          | inr unsent ↦
              subst (Kept s) (done_injective (rw unsent at run))
                (record { same_i = refl; same_processed = refl; later = read_on r.0 })
        ]
  ]

  allocate-Kept :
      (s : Generator) (process : Process) (r : Option ℕ × Generator)
      → allocate system s process ≡ done r
      → Kept s r.1
  unfolding allocate
  allocate-Kept s process r run =
      let (_, _, run) =
        bind-done (allocate_process_memory _ s.manager (pos_part process.memory_size)) _ _ run in
      subst (λ r. Kept s r.1) (done_injective run)
        (record { same_i = refl; same_processed = refl; later = omega arith })

  send_waited-Kept :
      (s t : Generator) (process : Process) → send_waited system s process ≡ done t → Kept s t
  unfolding send_waited
  send_waited-Kept s t process run = elim (Option-cases (get_smallest_block s.manager process)) [
    | inl none_fits ↦
        subst (Kept s) (done_injective (rw (none_fits, send_waited) at run))
          (record { same_i = refl; same_processed = refl; later = omega arith })
    | inr (place, fits) ↦
        let (r, allocated, run) =
          bind-done (allocate system s process) _ _ (rw (fits, send_waited) at run) in
        Kept-trans s r.1 t (allocate-Kept s process r allocated)
          (fork_and_send-Kept r.1 t process (some place.block.address) run)
  ]

  send_waiting-Kept : (fuel : ℕ) (s t : Generator) → send_waiting system fuel s ≡ done t → Kept s t
  unfolding send_waiting
  send_waiting-Kept zero s t run = absurd (cc run)
  send_waiting-Kept (suc fuel) s t run =
      let left : Generator = record s {
        waiting_list = (get_oldest_fit s.manager s.waiting_list).1;
      } in
      let kept : Kept s left = record {
        same_i = refl;
        same_processed = refl;
        later = omega arith;
      } in
      elim (Option-cases (get_oldest_fit s.manager s.waiting_list).0) [
        | inl nobody ↦ subst (Kept s) (done_injective (rw (nobody, send_waiting) at run)) kept
        | inr (process, e) ↦
            let (u, sent, run) =
              bind-done (send_waited system left process) _ _ (rw (e, send_waiting) at run) in
            Kept-trans s left t kept (
              Kept-trans left u t (send_waited-Kept left u process sent)
                (send_waiting-Kept fuel u t run))
      ]

  handle_child_exit-Kept :
      (s t : Generator) (pid : ℤ) → handle_child_exit system s pid ≡ done t → Kept s t
  unfolding handle_child_exit
  handle_child_exit-Kept s t pid run =
      elim (Bool-cases (eq_ℤ pid system.clk_pid || eq_ℤ pid system.sch_pid)) [
        | inl other ↦
            subst (Kept s) (done_injective (rw other at run))
              (record { same_i = refl; same_processed = refl; later = omega arith })
        | inr child ↦
            let (_, _, run) =
              bind-done (deallocate_process_memory (system.clock s.reads) s.manager pid) _ _
                (rw child at run) in
            subst (Kept s) (done_injective run)
              (record { same_i = refl; same_processed = refl; later = omega arith })
      ]

  module _ (process_list : List Process) where
    -- Passes of the outer loop, and children that exit between them.
    pub data Later : Generator → Generator → Type 0 where
      now : {s : Generator} → Later s s
      passed :
          {s t u : Generator} (fuel : ℕ)
          → Later s t
          → generator_pass system process_list fuel t ≡ done u
          → Later s u
      child_exited :
          {s t u : Generator} (pid : ℤ)
          → Later s t
          → handle_child_exit system t pid ≡ done u
          → Later s u

    send_arrived-Kept :
        (s t : Generator) (process : Process)
        → get_elem? process_list s.i ≡ some process
        → system.clock s.reads ≢ process.arrival_time
        → send_arrived system process_list s ≡ done t
        → Kept s t
    unfolding send_arrived
    send_arrived-Kept s t process there other run =
        let run = rw (there, send_arrived) at run in
        subst (Kept s) (done_injective (rw (eq_false _ _ other) at run))
          (record { same_i = refl; same_processed = refl; later = omega arith })

    module _ (s : Generator) (process : Process) (there : get_elem? process_list s.i ≡ some process)
        (missed : (k : ℕ) → s.reads ≤ k → system.clock k ≢ process.arrival_time) where
      Later-Kept : (t : Generator) → Later s t → Kept s t
      unfolding generator_pass
      Later-Kept t Later.now = record { same_i = refl; same_processed = refl; later = omega arith }
      Later-Kept t (Later.passed {t = before} fuel first run) =
          let kept = Later-Kept before first in
          let (u, waited, run) = bind-done (send_waiting system fuel before) _ _ run in
          let sent = Kept-trans s before u kept (send_waiting-Kept fuel before u waited) in
          Kept-trans s u t sent
            (send_arrived-Kept u t process (rw sent.same_i there) (missed u.reads sent.later) run)
      Later-Kept t (Later.child_exited {t = before} pid first run) =
          Kept-trans s before t (Later-Kept before first) (handle_child_exit-Kept before t pid run)

      inside : (xs : List Process) (i : ℕ) → get_elem? xs i ≡ some process → i < length xs
      inside [] i found = absurd (cc found)
      inside (x ∷ xs) zero found = omega arith
      inside (x ∷ xs) (suc i) found = omega (arith, inside xs i found)

      -- Where no reading of the clock from now on is the arrival time of the process at i, after any passes
      -- and exits of children, with processes that wait or without, the process at i is still neither
      -- admitted nor passed over, and the outer loop goes on.
      pub missed_arrival :
          (t : Generator)
          → Later s t
          → (t.i ≡ s.i) × (t.processed ≡ s.processed) × (goes_on process_list t ≡ true)
      unfolding goes_on
      missed_arrival t later =
          let kept = Later-Kept t later in
          let before_end : t.i < length process_list =
            omega (arith, kept.same_i, inside process_list s.i there) in
          (kept.same_i, kept.same_processed, ground arith)
