-- ===== src/IQueue/Laws.antt =====
-- What a client of the queue interface relies on, whichever queue stands behind it.
use mathlib.Core.List.Perm
use os_scheduler.Base.{
  ℕ, ◌<◌, ◌≡◌, refl, inl, inr, Bool, true, false, Option, List, [], ◌∷◌, arith, leb, All,
  All-append, All-set, All-get_or, Bool-cases,
}
use os_scheduler.Base.Int.{ℤ}
use os_scheduler.Base.Outcome.{done, Ends, ends, Ends-bind, Ends-result, Ends-done}
use os_scheduler.PriorityQueue.{PqueueNode, PriorityQueue, pq_size, pq_front}
use os_scheduler.PriorityQueue.Order.{blank}
use os_scheduler.PriorityQueue.Queue.{
  Dequeued, pq_enqueue_restores, pq_dequeue_restores, pq_dequeue-empty, pq_front-pq_dequeue,
}
use os_scheduler.PriorityQueue.Change.{
  rewritten, pq_change_priority_restores, pq_change_priority_outside,
}
use os_scheduler.CircularQueue.{
  head?, removed, cq_enqueue, cq_dequeue, cq_dequeue_and_remove, cq_front,
}
use os_scheduler.CircularQueue.Order.{
  cq_enqueue_correct, cq_dequeue_correct, cq_dequeue_and_remove_correct,
}
use os_scheduler.IQueue.{IQueue, circular, priority, enqueue, dequeue, front, change_priority}
use os_scheduler.IQueue.Good.{
  IsGood, Within, AtFront, Keeps, Answers, All-nodes, Added, Serves-circular, Serves-priority,
  AtFront-priority, AtFront-enqueue, Served, Within-advance, Within-removed, circular_Answers,
  priority_Answers, no_nodes, nodes-cases,
}

-- enqueue on a good queue ends with a good queue of the same kind, and if the ring has the running
-- object at its head, it has it there still; its objects are below every bound that the new object
-- and those before are below.
pub enqueue_correct :
    (q : IQueue) (obj : ℕ) (p : ℤ) → IsGood q → Ends (Added q obj p) (enqueue q obj p)
unfolding enqueue cq_enqueue
enqueue_correct (circular q) obj p v = ends (record {
  good = (cq_enqueue_correct q obj v).0;
  serves = λ a. Serves-circular a q (cq_enqueue q obj);
  within = λ k h lt. (All-append (λ p. p < k) q.waiting (obj ∷ []) h.0 (lt, tt), h.1);
  at_front = λ current. AtFront-enqueue current q obj;
  filled = (refl, refl);
})
enqueue_correct (priority q) obj p v = Ends-bind (pq_enqueue_restores q obj p v) λ q' (good, same).
    ends (record {
      good = good;
      serves = λ a. Serves-priority a q q';
      within = λ k h lt. All-nodes k (Perm.symm same) (lt, h);
      at_front = λ current h. AtFront-priority current q';
      filled = same;
    })

pub unchanged : (q : IQueue) → IsGood q → Keeps q q
unchanged q v = record { good = v; serves = λ a h. h; within = λ k h. h }

-- The answer of pq_dequeue, and the queue that it leaves.
Served-priority :
    (q : PriorityQueue) (r : Option ℕ × PriorityQueue)
    → Dequeued q r
    → Served (priority q) (r.0, priority r.1)
Served-priority q r d = record {
  keeps = record {
    good = d.valid;
    serves = λ a. Serves-priority a q r.1;
    within = λ k h. (All-nodes k (Perm.symm d.same) h).1;
  };
  answer = rw d.returned (priority_Answers q d.first r.1.nodes d.same);
}

-- dequeue on a good queue ends with a good queue of the same kind, and its answer and the objects that
-- are left are below every bound on the objects before; it is NULL if and only if the queue is empty.
pub dequeue_correct : (q : IQueue) (remove : Bool) → IsGood q → Ends (Served q) (dequeue q remove)
unfolding dequeue cq_dequeue cq_dequeue_and_remove
dequeue_correct (circular q) true v = ends (record {
  keeps = record {
    good = (cq_dequeue_and_remove_correct q v).0;
    serves = λ a. Serves-circular a q (removed q.waiting q);
    within = λ k. Within-removed k q.size q.passed q.waiting;
  };
  answer = circular_Answers q v;
})
dequeue_correct (circular q) false v = ends (record {
  keeps = record {
    good = (cq_dequeue_correct q v).0;
    serves = λ a. Serves-circular a q (cq_dequeue q).1;
    within = λ k. Within-advance k q.passed q.waiting;
  };
  answer = circular_Answers q v;
})
dequeue_correct (priority q) remove v = elim (nodes-cases q.nodes) [
  | inl e ↦
      rw (pq_dequeue-empty q e).0
        (ends (record { keeps = unchanged (priority q) v; answer = no_nodes q e }))
  | inr ne ↦ Ends-bind (pq_dequeue_restores q v ne) λ r d. ends (Served-priority q r d)
]

front_priority :
    (q : PriorityQueue) (r : Option ℕ × PriorityQueue)
    → pq_front q ≡ done r.0
    → Dequeued q r
    → Ends (λ o. Answers (priority q) o × AtFront o (priority q)) (pq_front q)
front_priority q r e d = rw e (ends ((Served-priority q r d).answer, AtFront-priority r.0 q))

-- front on a good queue ends, with NULL if the queue is empty and otherwise an object of the
-- queue, the one at the head if it is a ring.
pub front_correct : (q : IQueue) → IsGood q → Ends (λ o. Answers q o × AtFront o q) (front q)
unfolding front cq_front
front_correct (circular q) v = ends (circular_Answers q v, at_head q.waiting)
  where
    at_head :
        (waiting : List ℕ) → AtFront (head? waiting) (circular (record q { waiting = waiting }))
    at_head [] = tt
    at_head (x ∷ waiting) = refl
front_correct (priority q) v = elim (nodes-cases q.nodes) [
  | inl e ↦ rw (pq_dequeue-empty q e).1 (ends (no_nodes q e, tt))
  | inr ne ↦
      let (r, e, d) = Ends-result (pq_dequeue_restores q v ne) in
      front_priority q r (Ends-done (pq_front-pq_dequeue q v ne) e) d
]

-- On a good queue front answers what dequeue goes on to answer.
pub front-dequeue :
    (q : IQueue) (remove : Bool) → IsGood q → Ends (λ r. front q ≡ done r.0) (dequeue q remove)
unfolding front dequeue cq_front cq_dequeue cq_dequeue_and_remove
front-dequeue (circular q) true v = ends refl
front-dequeue (circular q) false v = ends refl
front-dequeue (priority q) remove v = elim (nodes-cases q.nodes) [
  | inl e ↦ rw (pq_dequeue-empty q e).0 (ends (pq_dequeue-empty q e).1)
  | inr ne ↦ Ends-bind (pq_front-pq_dequeue q v ne) λ r same. ends same
]

-- change_priority on a good queue ends, at any index, leaves a good queue of the same kind and the same
-- objects, and whatever the ring has at its head stays there.
pub change_priority_correct :
    (q : IQueue) (index : ℕ) (p : ℤ)
    → IsGood q
    → Ends
        (λ q'. Keeps q q' × ((current : Option ℕ) → AtFront current q → AtFront current q'))
        (change_priority q index p)
unfolding change_priority pq_size
change_priority_correct (circular q) index p v = ends (unchanged (circular q) v, λ current h. h)
change_priority_correct (priority q) index p v = elim (Bool-cases (leb (pq_size q) index)) [
  | inr lt ↦ Ends-bind (pq_change_priority_restores q index p v (ground arith)) λ q' (good, same).
      ends (
        record {
          good = good;
          serves = λ a. Serves-priority a q q';
          within = λ k h. All-nodes k (Perm.symm same) (rewritten_Within k h (ground arith));
        },
        λ current h. AtFront-priority current q',
      )
  | inl ge ↦
      rw (pq_change_priority_outside q index p (ground arith))
        (ends (unchanged (priority q) v, λ current h. h))
]
  where
    rewritten_Within :
        (k : ℕ)
        → Within k (priority q)
        → index < pq_size q
        → All (λ (n : PqueueNode). n.item < k) (rewritten q index p)
    rewritten_Within k h lt =
        All-set (λ (n : PqueueNode). n.item < k) q.nodes index _ h
          (All-get_or (λ (n : PqueueNode). n.item < k) q.nodes index blank lt h)
