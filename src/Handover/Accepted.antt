-- ===== src/Handover/Accepted.antt =====
-- The messages of src/process_generator.c at check_for_new_processes of src/scheduler.c.
use mathlib.Core.Path.{subst}
use mathlib.Core.List.{reverse_aux}
use os_scheduler.Base.{
  ℕ, zero, suc, ◌+◌, ◌≡◌, refl, ap, ◌∙◌, inl, inr, some, List, [], ◌∷◌, ◌++◌, All, All-reverse_aux,
  Bool-cases, Option-cases, get_elem?,
}
use os_scheduler.Base.Int.{ℤ, eq_ℤ}
use os_scheduler.Base.Outcome.{done, Ends, Ends-weaken, done_injective, bind-done}
use os_scheduler.Pcb.{Process, Pcb}
use os_scheduler.Generator.{
  Generator, System, fresh_generator, send_waiting, is_marked, send_arrived, generator_pass,
}
use os_scheduler.Generator.Run.{Reached}
use os_scheduler.Scheduler.State.{Scheduler}
use os_scheduler.Scheduler.Loop.{check_for_new_processes}
use os_scheduler.Scheduler.Sound.{IsSound}
use os_scheduler.Scheduler.Rounds.{accepted, left_over, check_for_new_processes_correct}
use os_scheduler.Handover.Sent.{
  IsStartable, IsValid, Forks, AllValid, send_waiting-AllValid, admit-AllValid,
  handle_child_exit-AllValid,
}

listed-IsStartable :
    (process_list : List Process) (i : ℕ) (process : Process)
    → All IsStartable process_list
    → get_elem? process_list i ≡ some process
    → IsStartable process
listed-IsStartable [] i process all e = absurd (cc e)
listed-IsStartable (first ∷ rest) zero process all e =
    let same : first ≡ process = cc e in subst IsStartable same all.0
listed-IsStartable (first ∷ rest) (suc i) process all e = listed-IsStartable rest i process all.1 e

-- The later messages.
All-front : (xs ys : List Pcb) → All IsValid (xs ++ ys) → All IsValid xs
All-front [] ys all = tt
All-front (x ∷ xs) ys all = (all.0, All-front xs ys all.1)

accepted-IsValid : (pcbs : List Pcb) → All IsValid pcbs → accepted pcbs ≡ pcbs
accepted-IsValid [] all = refl
accepted-IsValid (pcb ∷ rest) all = rw (all.0, accepted-IsValid rest all.1) refl

left_over-IsValid : (pcbs : List Pcb) → All IsValid pcbs → left_over pcbs ≡ []
left_over-IsValid [] all = refl
left_over-IsValid (pcb ∷ rest) all = rw (all.0, left_over-IsValid rest all.1) refl

module _ (system : System) (pids : Forks system) where
  module _ (process_list : List Process) (startable : All IsStartable process_list) where
    send_arrived-AllValid :
        (s s' : Generator) → AllValid s → send_arrived system process_list s ≡ done s' → AllValid s'
    unfolding send_arrived
    send_arrived-AllValid s s' v run =
        let read : AllValid (record s { reads = s.reads + 1 }) = record {
          messages = v.messages;
          waiting = v.waiting;
        } in
        elim (Option-cases (get_elem? process_list s.i)) [
          | inl past ↦ subst AllValid (done_injective (rw (past, send_arrived) at run)) v
          | inr (process, e) ↦
              let run = rw (e, send_arrived) at run in
              elim (Bool-cases (eq_ℤ (system.clock s.reads) process.arrival_time)) [
                | inr other ↦ subst AllValid (done_injective (rw other at run)) read
                | inl now ↦ elim (Bool-cases (is_marked s)) [
                  | inl marked ↦ subst AllValid (done_injective (rw (now, marked) at run)) read
                  | inr fresh ↦
                      admit-AllValid system pids _ s' process read
                        (listed-IsStartable process_list s.i process startable e)
                        (rw (now, fresh) at run)
                ]
              ]
        ]

    Reached-AllValid : (s : Generator) → Reached system process_list s → AllValid s
    unfolding fresh_generator generator_pass
    Reached-AllValid s (Reached.started address) = record { messages = tt; waiting = tt }
    Reached-AllValid s (Reached.passed {s = before} on run r) =
        let (t, waited, run) = bind-done (send_waiting system _ before) _ _ run in
        send_arrived-AllValid t s
          (send_waiting-AllValid system pids _ before t (Reached-AllValid before r) waited) run
    Reached-AllValid s (Reached.child_exited {s = before} pid run r) =
        handle_child_exit-AllValid system pids before s pid (Reached-AllValid before r) run

    -- Where create_processes, whose processes have an id and a runtime above 0 and whose forks return
    -- pids above 0, has reached any state and the messages that were not yet read are waiting for
    -- the scheduler, check_for_new_processes on sound globals ends with sound globals, has allocated
    -- a PCB for each of them in the order of sending, and leaves none.
    pub check_for_new_processes-Reached :
        (clock : ℕ → ℤ) (g : Generator) (pending received : List Pcb) (s : Scheduler)
        → Reached system process_list g
        → g.messages ≡ pending ++ received
        → IsSound s
        → s.arrivals ≡ reverse_aux pending []
        → Ends
            (λ t. IsSound t × (t.store ≡ s.store ++ reverse_aux pending []) × (t.arrivals ≡ []))
            (check_for_new_processes clock s)
    check_for_new_processes-Reached clock g pending received s r sent sound queued =
        let all = rw sent at (Reached-AllValid g r).messages in
        let pending_valid =
          All-reverse_aux IsValid pending [] (All-front pending received all) tt in
        let valid : All IsValid s.arrivals = rw queued pending_valid in
        Ends-weaken (check_for_new_processes_correct clock s sound) λ t got. (
          got.sound,
          got.stored ∙ ap (λ l. s.store ++ l) (accepted-IsValid s.arrivals valid ∙ queued),
          got.waiting ∙ left_over-IsValid s.arrivals valid,
        )
