-- ===== src/IQueue/Contents.antt =====
-- src/DS/IQueue.c: the objects of a queue, and what dequeue makes of them.
use mathlib.Core.List.Perm
use os_scheduler.Base.{
  ℕ, ◌≡◌, refl, ap, inl, inr, Bool, true, false, Option, none, some, List, [], ◌∷◌, ◌++◌, map, Perm,
}
use os_scheduler.Base.Outcome.{Ends, ends, Ends-bind}
use os_scheduler.PriorityQueue.{PqueueNode, PriorityQueue}
use os_scheduler.PriorityQueue.Queue.{Dequeued, pq_dequeue_restores, pq_dequeue-empty}
use os_scheduler.CircularQueue.{CircularQueue, head?, cq_dequeue, cq_dequeue_and_remove}
use os_scheduler.CircularQueue.Order.{
  service, rotate, tail, cq_dequeue_correct, cq_dequeue_and_remove_correct,
}
use os_scheduler.IQueue.{IQueue, circular, priority, dequeue}
use os_scheduler.IQueue.Good.{IsGood, nodes-cases}

-- The objects: of a ring in the order of service, of a heap as they stand in the array.
abbrev pub contents : IQueue → List ℕ
contents (circular q) = service q
contents (priority q) = map (λ (n : PqueueNode). n.item) q.nodes

-- What dequeue answers and leaves. The order of a heap does not matter.
pub data Taken : (remove : Bool) → IQueue → Option ℕ × IQueue → Type 0 where
  nothing :
      {remove : Bool} {q q' : IQueue}
      → contents q ≡ []
      → contents q' ≡ []
      → Taken remove q (none, q')
  rotated :
      {q q' : CircularQueue} (obj : ℕ) (rest : List ℕ)
      → contents (circular q) ≡ obj ∷ rest
      → contents (circular q') ≡ rest ++ obj ∷ []
      → Taken false (circular q) (some obj, circular q')
  removed :
      {q q' : CircularQueue} (obj : ℕ) (rest : List ℕ)
      → contents (circular q) ≡ obj ∷ rest
      → contents (circular q') ≡ rest
      → Taken true (circular q) (some obj, circular q')
  popped :
      {remove : Bool} {q q' : PriorityQueue} (obj : ℕ)
      → Perm (obj ∷ contents (priority q')) (contents (priority q))
      → Taken remove (priority q) (some obj, priority q')

removed-Taken :
    (q q' : CircularQueue) (answer : Option ℕ) (order : List ℕ)
    → service q ≡ order
    → answer ≡ head? order
    → service q' ≡ tail order
    → Taken true (circular q) (answer, circular q')
removed-Taken q q' answer [] whole first left = rw first (Taken.nothing whole left)
removed-Taken q q' answer (x ∷ rest) whole first left = rw first (Taken.removed x rest whole left)

rotated-Taken :
    (q q' : CircularQueue) (answer : Option ℕ) (order : List ℕ)
    → service q ≡ order
    → answer ≡ head? order
    → service q' ≡ rotate order
    → Taken false (circular q) (answer, circular q')
rotated-Taken q q' answer [] whole first left = rw first (Taken.nothing whole left)
rotated-Taken q q' answer (x ∷ rest) whole first left = rw first (Taken.rotated x rest whole left)

popped-Taken :
    (remove : Bool) (q : PriorityQueue) (r : Option ℕ × PriorityQueue)
    → Dequeued q r
    → Taken remove (priority q) (r.0, priority r.1)
popped-Taken remove q r d =
    rw d.returned (Taken.popped d.first.item (Perm.map (λ (n : PqueueNode). n.item) d.same))

-- dequeue on a good queue of either kind ends. It answers NULL if the queue has no objects, and otherwise an
-- object of the queue: of a ring the first in the order of service, which it takes out if told to
-- remove it and else puts at the end, and of a heap one that it takes out. The other objects stay, in
-- a ring in their order.
pub dequeue-Taken :
    (q : IQueue) (remove : Bool) → IsGood q → Ends (Taken remove q) (dequeue q remove)
unfolding dequeue
dequeue-Taken (circular q) true v =
    let (_, first, left) = cq_dequeue_and_remove_correct q v in
    ends (removed-Taken q (cq_dequeue_and_remove q).1 _ (service q) refl first left)
dequeue-Taken (circular q) false v =
    let (_, first, left) = cq_dequeue_correct q v in
    ends (rotated-Taken q (cq_dequeue q).1 _ (service q) refl first left)
dequeue-Taken (priority q) remove v = elim (nodes-cases q.nodes) [
  | inl e ↦
      let empty = ap (map (λ (n : PqueueNode). n.item)) e in
      rw (pq_dequeue-empty q e).0 (ends (Taken.nothing empty empty))
  | inr ne ↦ Ends-bind (pq_dequeue_restores q v ne) λ r d. ends (popped-Taken remove q r d)
]
