-- ===== src/Scheduler/Handlers.antt =====
-- src/scheduler.c: the functions that start, stop, tick and end a process, on sound globals.
use os_scheduler.Base.{
  ap, ◌∙◌, ℕ, ◌<◌, ◌≡◌, refl, inl, inr, true, false, Option, none, some, if◌then◌else◌, length,
  get_or, Bool-cases, Option-cases,
}
use os_scheduler.Base.Int.{ℤ, negsuc, eq_ℤ}
use os_scheduler.Base.Outcome.{
  done, fault, load-done, Ends, ends, Ends-bind, Ends-weaken, Ends-result, Ends-done,
}
use os_scheduler.IQueue.{SchedulingAlgorithm, IQueue, circular, priority, is_empty, front, dequeue}
use os_scheduler.IQueue.Good.{IsGood, Within, Serves, Keeps, Answers, AtFront}
use os_scheduler.IQueue.Laws.{
  unchanged, dequeue_correct, front_correct, front-dequeue, change_priority_correct,
}
use os_scheduler.Scheduler.State.{Scheduler, get_clk, is_finished, log_event}
use os_scheduler.Scheduler.Dispatch.{
  is_hpf, is_rr, dispatched, choose_next, announce_next, tick_queue, schedule_next_process,
  handle_process_termination, handle_quantum_expiration, handle_process_tick,
}
use os_scheduler.Scheduler.Sound.{
  nobody, Sound, IsSound, rewrite-Sound, start-Sound, stop-Sound, end-Sound,
}

answered :
    (q : IQueue) (k : ℕ) (o : Option ℕ)
    → Answers q o
    → is_empty q ≡ false
    → Within k q
    → (p : ℕ) × (o ≡ some p) × (p < k)
answered q k none a e w = absurd cc
answered q k (some p) a e w = (p, refl, a.1 k w)

-- The choice from a queue that is not empty.
record Chosen (s : Scheduler) (r : Option ℕ × IQueue) : Type 0 where
  kept : Keeps s.ready_queue r.1
  at_front : AtFront r.0 r.1
  chosen : (p : ℕ) × (r.0 ≡ some p) × (p < length s.store)
  answer : front s.ready_queue ≡ done r.0

-- What schedule_next_process leaves: the process at the front of the queue runs.
abbrev pub Dispatched : IQueue → Scheduler → Type 0
Dispatched queue t =
    IsSound t × ((p : ℕ) × (front queue ≡ done (some p)) × (t.current_pcb ≡ some p))

hpf-AtFront :
    (a : SchedulingAlgorithm) (q : IQueue) (current : Option ℕ)
    → is_hpf a ≡ true
    → Serves a q
    → AtFront current q
unfolding is_hpf
hpf-AtFront SchedulingAlgorithm.hpf (priority q) none h v = tt
hpf-AtFront SchedulingAlgorithm.hpf (priority q) (some p) h v = tt
hpf-AtFront SchedulingAlgorithm.hpf (circular q) current h v = elim v [ ]
hpf-AtFront SchedulingAlgorithm.rr q current h v = absurd cc
hpf-AtFront SchedulingAlgorithm.srtn q current h v = absurd cc

choose_next-Chosen :
    (s : Scheduler) → IsSound s → is_empty s.ready_queue ≡ false → Ends (Chosen s) (choose_next s)
unfolding choose_next
choose_next-Chosen s v e = elim (Bool-cases (is_hpf s.selected_algorithm)) [
  | inl t ↦ rw t (
      let (r, run, served) = Ends-result (dequeue_correct s.ready_queue true v.good) in
      let same = Ends-done (front-dequeue s.ready_queue true v.good) run in
      rw run (
        ends (record {
          kept = served.keeps;
          at_front = hpf-AtFront s.selected_algorithm r.1 r.0 t (served.keeps.serves _ v.serves);
          chosen = answered s.ready_queue (length s.store) r.0 served.answer e v.within;
          answer = same;
        })))
  | inr t ↦ rw t (
      let (next, run, (a, at)) = Ends-result (front_correct s.ready_queue v.good) in
      rw run (
        ends (record {
          kept = unchanged s.ready_queue v.good;
          at_front = at;
          chosen = answered s.ready_queue (length s.store) next a e v.within;
          answer = run;
        })))
]

pub announce_next_correct :
    (s : Scheduler)
    → IsGood s.ready_queue
    → Within (length s.store) s.ready_queue
    → Ends (λ t. t ≡ s) (announce_next s)
unfolding announce_next
announce_next_correct s good within = elim (Bool-cases (is_empty s.ready_queue)) [
  | inl e ↦ rw e (ends refl)
  | inr e ↦ rw e (
      Ends-bind (front_correct s.ready_queue good) λ next a.
        let (p, chosen, h) = answered s.ready_queue (length s.store) next a.0 e within in
        rw (chosen, load-done s.store p nobody h) (ends refl))
]

tick_queue_correct :
    (a : SchedulingAlgorithm) (q : IQueue) (remaining : ℤ)
    → IsGood q
    → Ends
        (λ r. Keeps q r × ((current : Option ℕ) → AtFront current q → AtFront current r))
        (tick_queue a q remaining)
unfolding tick_queue
tick_queue_correct SchedulingAlgorithm.rr q remaining v = ends (unchanged q v, λ current h. h)
tick_queue_correct SchedulingAlgorithm.hpf q remaining v = ends (unchanged q v, λ current h. h)
tick_queue_correct SchedulingAlgorithm.srtn q remaining v = change_priority_correct q 0 remaining v

module _ (clock : ℕ → ℤ) where
  -- On sound globals, with no running process and a queue that is not empty, schedule_next_process
  -- ends with sound globals, and the process that front answers is the one that runs.
  pub schedule_next_process_correct :
      (s : Scheduler)
      → IsSound s
      → s.current_pcb ≡ none
      → is_empty s.ready_queue ≡ false
      → Ends (Dispatched s.ready_queue) (schedule_next_process clock s)
  unfolding schedule_next_process get_clk log_event dispatched is_finished
  schedule_next_process_correct s v idle e =
      let v : Sound s.selected_algorithm s.ready_queue s.store none s.log s.signals =
        rw idle at v in
      rw e (
        Ends-bind (choose_next-Chosen s (rw idle v) e) λ r choice.
          let (p, chosen, h) = choice.chosen in
          let at : AtFront (some p) r.1 = rw chosen at choice.at_front in
          let answer : front s.ready_queue ≡ done (some p) = choice.answer ∙ ap done chosen in
          rw (chosen, load-done s.store p nobody h)
            (elim (Bool-cases (eq_ℤ (get_or s.store p nobody).start_time (negsuc 0))) [
              | inl first ↦ rw first (
                  ends
                    (start-Sound v choice.kept p _ _ h refl (inl refl) refl at, (p, answer, refl)))
              | inr again ↦ rw again (
                  ends
                    (start-Sound v choice.kept p _ _ h refl (inr refl) refl at, (p, answer, refl)))
            ]))

  -- On sound globals without a running process schedule_next_process ends, with sound globals.
  pub schedule_next_process_Sound :
      (s : Scheduler)
      → IsSound s
      → s.current_pcb ≡ none
      → Ends IsSound (schedule_next_process clock s)
  unfolding schedule_next_process
  schedule_next_process_Sound s v idle = elim (Bool-cases (is_empty s.ready_queue)) [
    | inl e ↦ rw e (ends v)
    | inr e ↦ Ends-weaken (schedule_next_process_correct s v idle e) λ t r. r.0
  ]

  -- SIGUSR2, on sound globals with a running process, ends with sound globals.
  pub handle_process_tick_Sound :
      (s : Scheduler) (p : ℕ)
      → IsSound s
      → s.current_pcb ≡ some p
      → Ends IsSound (handle_process_tick clock s)
  unfolding handle_process_tick get_clk
  handle_process_tick_Sound s p v busy =
      let v : Sound s.selected_algorithm s.ready_queue s.store (some p) s.log s.signals =
        rw busy at v in
      rw (busy, load-done s.store p nobody v.current_in)
        (Ends-bind (tick_queue_correct s.selected_algorithm s.ready_queue _ v.good)
          λ queue (kept, stays).
            ends (rewrite-Sound v kept p _ v.current_in refl (stays (some p) v.at_front)))

  -- SIGUSR1, on sound globals with a running process, ends with sound globals.
  pub handle_process_termination_Sound :
      (s : Scheduler) (p : ℕ)
      → IsSound s
      → s.current_pcb ≡ some p
      → Ends IsSound (handle_process_termination clock s)
  unfolding handle_process_termination get_clk log_event is_finished
  handle_process_termination_Sound s p v busy =
      let v : Sound s.selected_algorithm s.ready_queue s.store (some p) s.log s.signals =
        rw busy at v in
      rw (busy, load-done s.store p nobody v.current_in)
        (Ends-bind (left_queue s v.good) λ r kept.
          Ends-bind (announce_next_correct _ kept.good (kept.within (length s.store) v.within))
            λ t e. rw e (ends (end-Sound v kept _ _ refl refl refl)))
    where
      left_queue :
          (s : Scheduler)
          → IsGood s.ready_queue
          → Ends
              (λ r. Keeps s.ready_queue r.1)
              (if is_hpf s.selected_algorithm
                then done (none, s.ready_queue)
                else dequeue s.ready_queue true)
      left_queue s good = elim (Bool-cases (is_hpf s.selected_algorithm)) [
        | inl t ↦ rw t (ends (unchanged s.ready_queue good))
        | inr t ↦
            rw t (Ends-weaken (dequeue_correct s.ready_queue true good) λ r served. served.keeps)
      ]

  -- The end of a quantum, on sound globals, ends with sound globals, whether or not a process runs.
  pub handle_quantum_expiration_Sound :
      (s : Scheduler) → IsSound s → Ends IsSound (handle_quantum_expiration clock s)
  unfolding handle_quantum_expiration get_clk log_event is_finished
  handle_quantum_expiration_Sound s v = elim (Option-cases s.current_pcb) [
    | inl idle ↦
        let v : Sound s.selected_algorithm s.ready_queue s.store none s.log s.signals =
          rw idle at v in
        rw idle (ends v)
    | inr (p, busy) ↦
        let v : Sound s.selected_algorithm s.ready_queue s.store (some p) s.log s.signals =
          rw busy at v in
        rw (busy, load-done s.store p nobody v.current_in)
          (Ends-bind (left_queue s v.good) λ r kept. ends (stop-Sound v kept _ _ refl refl refl))
  ]
    where
      left_queue :
          (s : Scheduler)
          → IsGood s.ready_queue
          → Ends
              (λ r. Keeps s.ready_queue r.1)
              (if is_rr s.selected_algorithm
                then dequeue s.ready_queue false
                else done (none, s.ready_queue))
      left_queue s good = elim (Bool-cases (is_rr s.selected_algorithm)) [
        | inr t ↦ rw t (ends (unchanged s.ready_queue good))
        | inl t ↦
            rw t (Ends-weaken (dequeue_correct s.ready_queue false good) λ r served. served.keeps)
      ]

  -- A tick or a termination with no running process reads through NULL.
  pub no_process-fault :
      (s : Scheduler)
      → s.current_pcb ≡ none
      → (handle_process_tick clock s ≡ fault) × (handle_process_termination clock s ≡ fault)
  unfolding handle_process_tick handle_process_termination get_clk
  no_process-fault s idle = (rw idle refl, rw idle refl)
