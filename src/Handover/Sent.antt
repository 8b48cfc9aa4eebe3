-- ===== src/Handover/Sent.antt =====
-- fork_and_send of src/process_generator.c and what calls it: each message has what is_valid of
-- src/scheduler.c tests.
use mathlib.Core.Path.{subst}
use os_scheduler.Base.{
  ℕ, zero, suc, ◌≡◌, refl, inl, inr, true, ◌||◌, Option, none, some, List, [], ◌∷◌, All, All-append,
  All-reverse_aux, Bool-cases, Option-cases,
}
use os_scheduler.Base.Int.{ℤ, pos, pos_part, lt_ℤ, eq_ℤ}
use os_scheduler.Base.Outcome.{done, done_injective, bind-done}
use os_scheduler.Pcb.{Process, Pcb}
use os_scheduler.HashMap.{hashmap_put}
use os_scheduler.MemoryManager.{
  MemoryManager, assign_memory_block_to_process, log_memory_event, fit_from, get_oldest_fit,
  get_smallest_block, allocate_process_memory, deallocate_process_memory,
}
use os_scheduler.Generator.{
  Generator, System, new_pcb, fork_and_send, allocate, send_waited, send_waiting, admit,
  handle_child_exit,
}
use os_scheduler.Scheduler.Loop.{is_valid}

-- A process with an id and a runtime above 0.
abbrev pub IsStartable : Process → Type 0
IsStartable process = (lt_ℤ (pos 0) process.id ≡ true) × (lt_ℤ (pos 0) process.runtime ≡ true)

abbrev pub IsValid : Pcb → Type 0
IsValid pcb = is_valid pcb ≡ true

-- fork returns a pid above 0 in the parent.
abbrev pub Forks : System → Type 0
Forks system = (n : ℕ) (pid : ℤ) → system.fork n ≡ some pid → lt_ℤ (pos 0) pid ≡ true

pub record AllValid (s : Generator) : Type 0 where
  pub messages : All IsValid s.messages
  pub waiting : All IsStartable s.waiting_list

assign-IsValid :
    (time : ℤ) (m : MemoryManager) (pcb : Pcb) (block : Option ℕ) (r : Pcb × MemoryManager)
    → IsValid pcb
    → assign_memory_block_to_process time m pcb block ≡ done r
    → IsValid r.0
unfolding assign_memory_block_to_process is_valid
assign-IsValid time m pcb none r v run = subst (λ r. IsValid r.0) (done_injective run) v
assign-IsValid time m pcb (some block) r v run =
    let (put, _, run) = bind-done (hashmap_put m.memory_map pcb.pid _) _ _ run in
    elim (Bool-cases (lt_ℤ (pos 0) put.0)) [
      | inl added ↦
          let (_, _, run) = bind-done (log_memory_event _ block _) _ _ (rw added at run) in
          subst (λ r. IsValid r.0) (done_injective run) v
      | inr refused ↦ subst (λ r. IsValid r.0) (done_injective (rw refused at run)) v
    ]

-- What get_oldest_fit returns and what it leaves.
abbrev AllStartable : Option Process × List Process → Type 0
AllStartable r =
    ((process : Process) → r.0 ≡ some process → IsStartable process) × All IsStartable r.1

fit_from-All :
    (m : MemoryManager) (before after : List Process)
    → All IsStartable before
    → All IsStartable after
    → AllStartable (fit_from m before after)
unfolding fit_from
fit_from-All m before [] b a =
    (λ process e. absurd (cc e), All-reverse_aux IsStartable before [] b tt)
fit_from-All m before (first ∷ after) b a = elim (Option-cases (get_smallest_block m first)) [
  | inl none_fits ↦ rw (none_fits, fit_from) (fit_from-All m (first ∷ before) after (a.0, b) a.1)
  | inr (place, fits) ↦
      rw (fits, fit_from)
        (
          λ process e. let same : first ≡ process = cc e in subst IsStartable same a.0,
          All-reverse_aux IsStartable before after b a.1,
        )
]

module _ (system : System) (pids : Forks system) where
  new_pcb-IsValid :
      (n : ℕ) (pid : ℤ) (process : Process)
      → system.fork n ≡ some pid
      → IsStartable process
      → IsValid (new_pcb pid process)
  unfolding is_valid new_pcb
  new_pcb-IsValid n pid process forked startable =
      rw (pids n pid forked, startable.0, startable.1) refl

  fork_and_send-AllValid :
      (s s' : Generator) (process : Process) (block : Option ℕ)
      → AllValid s
      → IsStartable process
      → fork_and_send system s process block ≡ done s'
      → AllValid s'
  unfolding fork_and_send
  fork_and_send-AllValid s s' process block v startable run =
      elim (Option-cases (system.fork s.forks)) [
        | inl failed ↦
            subst AllValid (done_injective (rw (failed, fork_and_send) at run))
              (record { messages = v.messages; waiting = v.waiting })
        | inr (pid, forked) ↦
            let (r, assigned, run) =
              bind-done
                (assign_memory_block_to_process (system.clock s.reads) s.manager
                  (new_pcb pid process) block)
                _ _ (rw (forked, fork_and_send) at run) in
            let valid =
              assign-IsValid _ _ _ block r (new_pcb-IsValid _ pid process forked startable)
                assigned in
            elim (Bool-cases (system.msgsnd s.forks)) [
              | inl sent ↦
                  subst AllValid (done_injective (rw sent at run))
                    (record { messages = (valid, v.messages); waiting = v.waiting })
              | inr unsent ↦
                  subst AllValid (done_injective (rw unsent at run))
                    (record { messages = v.messages; waiting = v.waiting })
            ]
      ]

  allocate-AllValid :
      (s : Generator) (process : Process) (r : Option ℕ × Generator)
      → AllValid s
      → allocate system s process ≡ done r
      → AllValid r.1
  unfolding allocate
  allocate-AllValid s process r v run =
      let (_, _, run) =
        bind-done (allocate_process_memory _ s.manager (pos_part process.memory_size)) _ _ run in
      subst (λ r. AllValid r.1) (done_injective run)
        (record { messages = v.messages; waiting = v.waiting })

  send_waited-AllValid :
      (s s' : Generator) (process : Process)
      → AllValid s
      → IsStartable process
      → send_waited system s process ≡ done s'
      → AllValid s'
  unfolding send_waited
  send_waited-AllValid s s' process v startable run =
      elim (Option-cases (get_smallest_block s.manager process)) [
        | inl none_fits ↦ subst AllValid (done_injective (rw (none_fits, send_waited) at run)) v
        | inr (place, fits) ↦
            let (r, allocated, run) =
              bind-done (allocate system s process) _ _ (rw (fits, send_waited) at run) in
            fork_and_send-AllValid r.1 s' process (some place.block.address)
              (allocate-AllValid s process r v allocated) startable run
      ]

  pub send_waiting-AllValid :
      (fuel : ℕ) (s s' : Generator)
      → AllValid s
      → send_waiting system fuel s ≡ done s'
      → AllValid s'
  unfolding send_waiting get_oldest_fit
  send_waiting-AllValid zero s s' v run = absurd (cc run)
  send_waiting-AllValid (suc fuel) s s' v run =
      let (chosen, left) = fit_from-All s.manager [] s.waiting_list tt v.waiting in
      let v : AllValid (record s { waiting_list = (fit_from s.manager [] s.waiting_list).1 }) =
        record { messages = v.messages; waiting = left } in
      elim (Option-cases (fit_from s.manager [] s.waiting_list).0) [
        | inl nobody ↦ subst AllValid (done_injective (rw (nobody, send_waiting) at run)) v
        | inr (process, e) ↦
            let (t, sent, run) =
              bind-done (send_waited system _ process) _ _ (rw (e, send_waiting) at run) in
            send_waiting-AllValid fuel t s'
              (send_waited-AllValid _ t process v (chosen process e) sent) run
      ]

  pub admit-AllValid :
      (s s' : Generator) (process : Process)
      → AllValid s
      → IsStartable process
      → admit system s process ≡ done s'
      → AllValid s'
  unfolding admit
  admit-AllValid s s' process v startable run =
      let (r, allocated, run) = bind-done (allocate system _ process) _ _ run in
      let v =
        allocate-AllValid _ process r (record { messages = v.messages; waiting = v.waiting })
          allocated in
      elim (Option-cases r.0) [
        | inl refused ↦ subst AllValid (done_injective (rw refused at run)) (record {
          messages = v.messages;
          waiting = All-append IsStartable _ (process ∷ []) v.waiting (startable, tt);
        })
        | inr (block, e) ↦
            let (t, sent, run) =
              bind-done (fork_and_send system r.1 process (some block)) _ _ (rw e at run) in
            let v = fork_and_send-AllValid r.1 t process (some block) v startable sent in
            subst AllValid (done_injective run)
              (record { messages = v.messages; waiting = v.waiting })
      ]

  pub handle_child_exit-AllValid :
      (s s' : Generator) (pid : ℤ)
      → AllValid s
      → handle_child_exit system s pid ≡ done s'
      → AllValid s'
  unfolding handle_child_exit
  handle_child_exit-AllValid s s' pid v run =
      elim (Bool-cases (eq_ℤ pid system.clk_pid || eq_ℤ pid system.sch_pid)) [
        | inl other ↦ subst AllValid (done_injective (rw other at run)) v
        | inr child ↦
            let (_, _, run) =
              bind-done (deallocate_process_memory (system.clock s.reads) s.manager pid) _ _
                (rw child at run) in
            subst AllValid (done_injective run)
              (record { messages = v.messages; waiting = v.waiting })
      ]
