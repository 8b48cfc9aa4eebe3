-- ===== src/Scheduler/Rounds.antt =====
-- src/scheduler.c: the messages, the policies and a round of scheduler_loop, on sound globals.
use Prim.Native.String.{String}
use text.Mathlib.Text.{◌==◌ as str_eq}
use mathlib.Core.List.{append-nil, append_assoc}
use os_scheduler.Base.{
  suc, arith, length-append, ℕ, ◌≡◌, refl, sym, ◌∙◌, inl, inr, true, false, ◌&&◌, ◌||◌, Option,
  none, some, List, [], ◌∷◌, ◌++◌, if◌then◌else◌, length, get_or, Bool-cases, Option-cases,
}
use os_scheduler.Base.Int.{pos, ℤ, ◌-ℤ◌, lt_ℤ, le_ℤ}
use os_scheduler.Base.Outcome.{done, ◌>>=◌, load, load-done, Ends, ends, Ends-bind, Ends-weaken}
use os_scheduler.Pcb.{Pcb}
use os_scheduler.IQueue.{SchedulingAlgorithm, is_empty}
use os_scheduler.IQueue.Good.{Answers, Filled, Filled-nothing, Filled-more}
use os_scheduler.IQueue.Laws.{unchanged, enqueue_correct, front_correct}
use os_scheduler.Scheduler.State.{Scheduler, get_clk}
use os_scheduler.Scheduler.Dispatch.{schedule_next_process, handle_quantum_expiration}
use os_scheduler.Scheduler.Loop.{
  queue_priority, is_valid, check_no_more_processes, differs, is_none, receive,
  check_for_new_processes, handle_rr, handle_srtn, handle_current_running_process, start_next,
  scheduler_round,
}
use os_scheduler.Scheduler.Sound.{nobody, Sound, IsSound, rewrite-Sound, receive-Sound}
use os_scheduler.Scheduler.Handlers.{
  Dispatched, schedule_next_process_correct, schedule_next_process_Sound,
  handle_quantum_expiration_Sound,
}

-- The messages up to the first invalid one, and those behind it.
abbrev pub accepted : List Pcb → List Pcb
accepted [] = []
accepted (pcb ∷ rest) = let more = accepted rest in if is_valid pcb then pcb ∷ more else []

abbrev pub left_over : List Pcb → List Pcb
left_over [] = []
left_over (pcb ∷ rest) = let more = left_over rest in if is_valid pcb then more else rest

-- The PCBs at these addresses, with the priorities that the policy gives them: the remaining time under
-- SRTN, the priority of the process under HPF.
abbrev pub numbered : SchedulingAlgorithm → (address : ℕ) → List Pcb → List (ℕ × ℤ)
numbered a address [] = []
numbered SchedulingAlgorithm.rr address (pcb ∷ rest) =
    (address, pos 0) ∷ numbered SchedulingAlgorithm.rr (suc address) rest
numbered SchedulingAlgorithm.hpf address (pcb ∷ rest) =
    (address, pcb.process.priority) ∷ numbered SchedulingAlgorithm.hpf (suc address) rest
numbered SchedulingAlgorithm.srtn address (pcb ∷ rest) =
    (address, pcb.remaining_time) ∷ numbered SchedulingAlgorithm.srtn (suc address) rest

numbered_first :
    (a : SchedulingAlgorithm) (address : ℕ) (pcb : Pcb) (rest : List Pcb)
    → numbered a address (pcb ∷ rest)
      ≡ (address, queue_priority a pcb) ∷ numbered a (suc address) rest
unfolding queue_priority
numbered_first SchedulingAlgorithm.rr address pcb rest = refl
numbered_first SchedulingAlgorithm.hpf address pcb rest = refl
numbered_first SchedulingAlgorithm.srtn address pcb rest = refl

longer : (store : List Pcb) (pcb : Pcb) → length (store ++ pcb ∷ []) ≡ suc (length store)
longer store pcb = omega (arith, length-append store (pcb ∷ []))

-- What receiving messages leaves.
pub record Received (messages : List Pcb) (s t : Scheduler) : Type 0 where
  pub sound : IsSound t
  pub stored : t.store ≡ s.store ++ accepted messages
  pub waiting : t.arrivals ≡ left_over messages
  pub same_process : t.current_pcb ≡ s.current_pcb
  pub queued :
      Filled s.ready_queue
        (numbered s.selected_algorithm (length s.store) (accepted messages))
        t.ready_queue

module _ (clock : ℕ → ℤ) where
  receive_correct :
      (messages : List Pcb) (s : Scheduler)
      → IsSound s
      → Ends (Received messages s) (receive clock messages s)
  unfolding receive get_clk
  receive_correct [] s v = ends (record {
    sound = v;
    stored = sym (append-nil s.store);
    waiting = refl;
    same_process = refl;
    queued = Filled-nothing s.ready_queue;
  })
  receive_correct (pcb ∷ rest) s v = elim (Bool-cases (is_valid pcb)) [
    | inl ok ↦ rw ok (
        Ends-bind
          (enqueue_correct s.ready_queue (length s.store) (queue_priority s.selected_algorithm pcb)
            v.good)
          λ queue added. Ends-weaken (receive_correct rest _ (receive-Sound v pcb added)) λ t r.
            record {
              sound = r.sound;
              stored = rw ok (r.stored ∙ append_assoc s.store (pcb ∷ []) (accepted rest));
              waiting = rw ok r.waiting;
              same_process = r.same_process;
              queued =
                  rw (ok, numbered_first s.selected_algorithm (length s.store) pcb (accepted rest))
                    (Filled-more s.ready_queue queue t.ready_queue (length s.store)
                      (queue_priority s.selected_algorithm pcb) _ added.filled
                      (rw (longer s.store pcb) at r.queued));
            })
    | inr bad ↦ rw bad (
        ends (record {
          sound = v;
          stored = rw bad (sym (append-nil s.store));
          waiting = rw bad refl;
          same_process = refl;
          queued = rw bad (Filled-nothing s.ready_queue);
        }))
  ]

  handle_rr_Sound : (s : Scheduler) → IsSound s → Ends IsSound (handle_rr clock s)
  unfolding handle_rr
  handle_rr_Sound s v = elim (Option-cases s.current_pcb) [
    | inl idle ↦
        let v : Sound s.selected_algorithm s.ready_queue s.store none s.log s.signals =
          rw idle at v in
        rw idle (ends v)
    | inr (p, busy) ↦
        let v : Sound s.selected_algorithm s.ready_queue s.store (some p) s.log s.signals =
          rw busy at v in
        let limit = s.last_remain_time -ℤ s.quantum in
        rw (busy, load-done s.store p nobody v.current_in)
          (elim (Bool-cases (le_ℤ (get_or s.store p nobody).remaining_time limit)) [
            | inl spent ↦ rw spent (
                handle_quantum_expiration_Sound clock _ (
                  rewrite-Sound v (unchanged s.ready_queue v.good) p _ v.current_in refl
                    v.at_front))
            | inr more ↦ rw more (ends v)
          ])
  ]

  handle_srtn_Sound : (s : Scheduler) → IsSound s → Ends IsSound (handle_srtn clock s)
  unfolding handle_srtn
  handle_srtn_Sound s v = Ends-bind (front_correct s.ready_queue v.good) λ next a. go next a.0
    where
      go :
          (next : Option ℕ)
          → Answers s.ready_queue next
          → Ends IsSound (elim next [
            | none ↦ done s
            | some p ↦ do
              pcb ← load s.store p
              if differs s.current_pcb p then handle_quantum_expiration clock s else done s
          ])
      go none a = ends v
      go (some p) a =
          rw (load-done s.store p nobody (a.1 (length s.store) v.within))
            (elim (Bool-cases (differs s.current_pcb p)) [
              | inl other ↦ rw other (handle_quantum_expiration_Sound clock s v)
              | inr same ↦ rw same (ends v)
            ])

  handle_current_running_process_Sound :
      (s : Scheduler) → IsSound s → Ends IsSound (handle_current_running_process clock s)
  unfolding handle_current_running_process
  handle_current_running_process_Sound s v = go s.selected_algorithm s.current_pcb refl
    where
      go :
          (a : SchedulingAlgorithm) (c : Option ℕ)
          → s.current_pcb ≡ c
          → Ends IsSound (elim a [
            | SchedulingAlgorithm.rr ↦ handle_rr clock s
            | SchedulingAlgorithm.hpf ↦ elim c [
              | none ↦ schedule_next_process clock s
              | some _ ↦ done s
            ]
            | SchedulingAlgorithm.srtn ↦ handle_srtn clock s
          ])
      go SchedulingAlgorithm.rr c e = handle_rr_Sound s v
      go SchedulingAlgorithm.hpf none e = schedule_next_process_Sound clock s v e
      go SchedulingAlgorithm.hpf (some _) e = ends v
      go SchedulingAlgorithm.srtn c e = handle_srtn_Sound s v

  start_next_Sound : (s : Scheduler) → IsSound s → Ends IsSound (start_next clock s)
  unfolding start_next is_none get_clk
  start_next_Sound s v = elim (Option-cases s.current_pcb) [
    | inr (p, busy) ↦
        let v : Sound s.selected_algorithm s.ready_queue s.store (some p) s.log s.signals =
          rw busy at v in
        rw busy (ends v)
    | inl idle ↦
        let free : is_none s.current_pcb ≡ true = rw idle refl in
        elim (Bool-cases (
          lt_ℤ s.last_process_end_time (clock s.reads)
          && (if is_empty s.ready_queue then false else true))) [
            | inl t ↦ rw (free, t) (schedule_next_process_Sound clock _ v idle)
            | inr t ↦ rw (free, t) (schedule_next_process_Sound clock _ v idle)
          ]
  ]

  -- On sound globals, with no running process and a queue that is not empty, the part of a round that starts a process
  -- ends with sound globals, and the process that front answers runs: the CPU is not left idle.
  pub start_next_correct :
      (s : Scheduler)
      → IsSound s
      → s.current_pcb ≡ none
      → is_empty s.ready_queue ≡ false
      → Ends (Dispatched s.ready_queue) (start_next clock s)
  unfolding start_next is_none get_clk
  start_next_correct s v idle busy =
      let free : is_none s.current_pcb ≡ true = rw idle refl in
      elim (Bool-cases (lt_ℤ s.last_process_end_time (clock s.reads))) [
        | inl t ↦ rw (free, t, busy) (schedule_next_process_correct clock _ v idle busy)
        | inr t ↦ rw (free, t) (schedule_next_process_correct clock _ v idle busy)
      ]

  -- check_for_new_processes on sound globals ends with sound globals and the same running process; it
  -- allocates a PCB for each message up to the first invalid one, puts exactly these in the ready
  -- queue, at the end of the ring or in the heap with the priority of the policy, drops the invalid
  -- one, and leaves those behind it to the next call.
  pub check_for_new_processes_correct :
      (s : Scheduler) → IsSound s → Ends (Received s.arrivals s) (check_for_new_processes clock s)
  unfolding check_for_new_processes
  check_for_new_processes_correct s v = receive_correct s.arrivals s v

  check_no_more_processes_Sound : (s : Scheduler) → IsSound s → IsSound (check_no_more_processes s)
  unfolding check_no_more_processes
  check_no_more_processes_Sound s v = go s.notices
    where
      go :
          (notices : List String)
          → IsSound (elim notices [
            | [] ↦ s
            | text ∷ rest ↦ record s {
              notices = rest;
              no_more_processes = str_eq text "no_more_processes" || s.no_more_processes;
            }
          ])
      go [] = v
      go (text ∷ rest) = v

  -- A round of scheduler_loop on sound globals ends, without an access out of bounds or through a null
  -- pointer, with sound globals.
  pub scheduler_round_Sound : (s : Scheduler) → IsSound s → Ends IsSound (scheduler_round clock s)
  unfolding scheduler_round
  scheduler_round_Sound s v = Ends-bind (check_for_new_processes_correct s v) λ t r.
      Ends-bind (start_next_Sound t r.sound) λ t v.
        Ends-bind (handle_current_running_process_Sound t v)
          λ t v. ends (check_no_more_processes_Sound t v)
