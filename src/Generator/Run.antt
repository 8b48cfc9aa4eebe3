-- ===== src/Generator/Run.antt =====
-- src/process_generator.c: create_processes from its start to its end, with the children that exit on
-- the way.
use mathlib.Core.Path.{subst}
use mathlib.Core.List.{append-nil}
use os_scheduler.Base.{
  ℕ, zero, suc, ◌≤◌, ◌≡◌, refl, ap, ◌∙◌, inl, inr, Bool-cases, if◌then◌else◌, true, false, List, [],
  ◌∷◌, ◌++◌, arith, map, Perm, take, length, All, ◌==◌,
}
use os_scheduler.Base.Int.{ℤ}
use os_scheduler.Base.Outcome.{done, Ends, ends, Ends-done, Ends-result}
use os_scheduler.Pcb.{Process, Pcb}
use os_scheduler.Generator.Exit.{fresh-Holds, handle_child_exit-Holds}
use os_scheduler.Generator.{
  Generator, System, fresh_generator, generator_pass, goes_on, send_no_more, handle_child_exit,
}
use os_scheduler.Generator.Assign.{IsMalloc}
use os_scheduler.Generator.Admit.{works, failures}
use os_scheduler.Generator.Pass.{IsSized, known, Holds}
use os_scheduler.Generator.Arrive.{generator_pass_correct}

take-all : (n : ℕ) (xs : List Process) → length xs ≤ n → take n xs ≡ xs
take-all zero [] h = refl
take-all zero (x ∷ xs) h = absurd (omega arith)
take-all (suc n) [] h = refl
take-all (suc n) (x ∷ xs) h = ap (◌∷◌ x) (take-all n xs (omega arith))

eq_nil : (xs : List Process) → length xs ≡ 0 → xs ≡ []
eq_nil [] h = refl
eq_nil (x ∷ xs) h = absurd (omega arith)

no_failures :
    (system : System) → ((n : ℕ) → works system n ≡ true) → (n : ℕ) → failures system n ≡ 0
no_failures system all zero = refl
no_failures system all (suc n) = rw (failures, all n) (no_failures system all n)

module _ (system : System) (process_list : List Process) where
  -- What passes of the outer loop reach from a fresh start, with children that exit between the
  -- passes.
  pub data Reached : Generator → Type 0 where
    started : (address : ℕ) → Reached (fresh_generator address)
    passed :
        {s s' : Generator}
        → goes_on process_list s ≡ true
        → generator_pass system process_list (suc (length s.waiting_list)) s ≡ done s'
        → Reached s
        → Reached s'
    child_exited :
        {s s' : Generator} (pid : ℤ)
        → handle_child_exit system s pid ≡ done s'
        → Reached s
        → Reached s'

  module _ (ok : IsMalloc system.malloc) (sized : All IsSized process_list) where
    -- In every state that create_processes reaches, where every process asks for memory, the blocks are
    -- good, and each process up to `i` has been sent once, waits once, or is lost: exactly one for each
    -- fork_and_send of which fork or msgsnd failed.
    pub Reached-Holds : (s : Generator) → Reached s → Holds system process_list s
    Reached-Holds s (Reached.started address) = fresh-Holds system process_list address
    Reached-Holds s (Reached.passed _ run r) =
        Ends-done (generator_pass_correct system ok process_list sized _ (Reached-Holds _ r)) run
    Reached-Holds s (Reached.child_exited pid run r) =
        handle_child_exit-Holds system process_list _ _ pid (Reached-Holds _ r) run

    -- From every state that create_processes reaches, where every process asks for memory, a further
    -- pass of the outer loop ends, without a fault, whichever forks and msgsnd fail: its
    -- inner loop takes at most one turn more than there are waiting processes.
    pub Reached-generator_pass :
        (s : Generator)
        → Reached s
        → goes_on process_list s ≡ true
        → Ends Reached (generator_pass system process_list (suc (length s.waiting_list)) s)
    Reached-generator_pass s r on =
        let (s', run, _) =
          Ends-result (generator_pass_correct system ok process_list sized s (Reached-Holds _ r)) in
        rw run (ends (Reached.passed on run r))

    -- When the outer loop of create_processes stops, after passes with children that exit in between,
    -- where every process asks for memory, no process waits, every process of the input has been sent
    -- exactly once or is lost, as many as calls of fork_and_send failed, and the scheduler gets the
    -- notice that there are no more exactly if its msgsnd succeeds.
    pub Reached-send_no_more :
        (s : Generator)
        → Reached s
        → goes_on process_list s ≡ false
        → ((lost : List Process) × (length lost ≡ failures system s.forks)
            × Perm (lost ++ map (λ (p : Pcb). p.process) s.messages) process_list)
          × (s.waiting_list ≡ [])
          × ((send_no_more system s).notices
              ≡ (if system.notifies then "no_more_processes" ∷ s.notices else s.notices))
    unfolding goes_on send_no_more
    Reached-send_no_more s r stopped =
        let read : length process_list ≤ s.i = ground arith in
        let none_waits : (length s.waiting_list == 0) ≡ true = ground arith in
        let empty = eq_nil s.waiting_list (ground arith) in
        let all = take-all s.i process_list read in
        let v = Reached-Holds s r in
        let sent = map (λ (p : Pcb). p.process) s.messages in
        let whole = subst (Perm (known v.lost s.messages s.waiting_list)) all v.accounts in
        let no_waiting = subst (λ w. Perm (v.lost ++ (sent ++ w)) process_list) empty whole in
        (
          (
            v.lost,
            v.counted,
            subst (λ l. Perm (v.lost ++ l) process_list) (append-nil sent) no_waiting,
          ),
          empty,
          elim (Bool-cases system.notifies) [
            | inl sent ↦ rw (none_waits, sent) refl
            | inr failed ↦ rw (none_waits, failed) refl
          ],
        )

    -- Where every fork and msgsnd works, every process has then been sent exactly once.
    all_sent :
        (s : Generator)
        → ((n : ℕ) → works system n ≡ true)
        → Reached s
        → goes_on process_list s ≡ false
        → Perm (map (λ (p : Pcb). p.process) s.messages) process_list
    all_sent s all r stopped =
        let (lost, counted, sent) = (Reached-send_no_more s r stopped).0 in
        let nothing = eq_nil lost (counted ∙ no_failures system all s.forks) in
        subst (λ l. Perm (l ++ map (λ (p : Pcb). p.process) s.messages) process_list) nothing sent
