-- ===== src/Scheduler/Turns.antt =====
-- src/scheduler.c under Round Robin: what the end of a process and the end of its quantum do to the ring.
use os_scheduler.Base.{ℕ, ◌≡◌, refl, sym, ap, ◌∙◌, true, none, some, List, [], ◌∷◌, ◌++◌, length}
use os_scheduler.Base.Int.{ℤ}
use os_scheduler.Base.Outcome.{load-done, Ends, ends, Ends-bind, Ends-done}
use os_scheduler.CircularQueue.{CircularQueue, head?, cq_dequeue, cq_dequeue_and_remove, cq_front}
use os_scheduler.CircularQueue.Order.{
  IsRing, service, rotate, tail, cq_front-service, cq_dequeue_correct,
  cq_dequeue_and_remove_correct,
}
use os_scheduler.IQueue.{SchedulingAlgorithm, circular, dequeue}
use os_scheduler.IQueue.Good.{AtFront}
use os_scheduler.IQueue.Laws.{dequeue_correct}
use os_scheduler.Scheduler.State.{Scheduler, get_clk, is_finished, log_event}
use os_scheduler.Scheduler.Dispatch.{
  is_hpf, is_rr, handle_process_termination, handle_quantum_expiration,
}
use os_scheduler.Scheduler.Sound.{nobody, Sound, IsSound}
use os_scheduler.Scheduler.Handlers.{announce_next_correct}

head-tail : (xs : List ℕ) (p : ℕ) → head? xs ≡ some p → xs ≡ p ∷ tail xs
head-tail [] p h = absurd cc
head-tail (x ∷ xs) p h = let e : x ≡ p = cc in rw e refl

-- The running process is the first in the order of service.
abbrev pub RunsFirst : CircularQueue → ℕ → Type 0
RunsFirst q p = service q ≡ p ∷ tail (service q)

first_of_ring :
    (q : CircularQueue) (p : ℕ) → IsRing q → AtFront (some p) (circular q) → RunsFirst q p
unfolding cq_front
first_of_ring q p ring at = head-tail (service q) p (sym (cq_front-service q ring).0 ∙ at)

-- The ring is left in the order `order`, and no process runs.
pub record Turned (order : List ℕ) (t : Scheduler) : Type 0 where
  pub idle : t.current_pcb ≡ none
  pub ring : CircularQueue
  pub queue : t.ready_queue ≡ circular ring
  pub order_is : service ring ≡ order

module _ (clock : ℕ → ℤ) (s : Scheduler) (q : CircularQueue) (p : ℕ) (v : IsSound s)
    (rr : s.selected_algorithm ≡ SchedulingAlgorithm.rr) (ring : s.ready_queue ≡ circular q)
    (busy : s.current_pcb ≡ some p) where
  known : Sound SchedulingAlgorithm.rr (circular q) s.store (some p) s.log s.signals
  known = rw (rr, ring, busy) at v

  -- Under Round Robin the running process is the first in the ring, and SIGUSR1 takes it out of the ring, the
  -- others keeping their order.
  pub handle_process_termination_turns :
      RunsFirst q p × Ends (Turned (tail (service q))) (handle_process_termination clock s)
  unfolding handle_process_termination get_clk log_event is_finished is_hpf dequeue
  handle_process_termination_turns =
      let (good, first, order) = cq_dequeue_and_remove_correct q known.good in
      let kept = (Ends-done (dequeue_correct (circular q) true known.good) refl).keeps in
      (
        first_of_ring q p known.good known.at_front,
        rw (busy, load-done s.store p nobody known.current_in, rr, ring)
            (Ends-bind (announce_next_correct _ good (kept.within (length s.store) known.within))
              λ t e. rw e (
                ends (record {
                  idle = refl;
                  ring = (cq_dequeue_and_remove q).1;
                  queue = refl;
                  order_is = order;
                }))),
      )

  -- Under Round Robin the running process is the first in the ring, and the end of its quantum sends it to the
  -- end of the ring, the others keeping their order.
  pub handle_quantum_expiration_turns :
      RunsFirst q p × Ends (Turned (tail (service q) ++ p ∷ [])) (handle_quantum_expiration clock s)
  unfolding handle_quantum_expiration get_clk log_event is_finished is_rr dequeue
  handle_quantum_expiration_turns =
      let (good, first, order) = cq_dequeue_correct q known.good in
      let runs_first = first_of_ring q p known.good known.at_front in
      (
        runs_first,
        rw (busy, load-done s.store p nobody known.current_in, rr, ring)
            (ends (record {
              idle = refl;
              ring = (cq_dequeue q).1;
              queue = refl;
              order_is = order ∙ ap rotate runs_first;
            })),
      )
