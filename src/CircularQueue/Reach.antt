-- ===== src/CircularQueue/Reach.antt =====
-- src/DS/circular_queue.c: what any sequence of calls on a new queue reaches.
use os_scheduler.Base.{ℕ, ◌≡◌, ◌≢◌, sym, ap, ◌==◌, Option, none}
use os_scheduler.Base.Outcome.{done, Ends, Ends-done, Ends-weaken, Ends-result, ends}
use os_scheduler.Nodes.{null, Heap}
use os_scheduler.CircularQueue.{
  CircularQueue, circular_queue, cq_enqueue, cq_dequeue, cq_dequeue_and_remove, cq_front,
  cq_is_empty, cq_size,
}
use os_scheduler.CircularQueue.Pointers
use os_scheduler.CircularQueue.Pointers.{QueuePointers}
use os_scheduler.CircularQueue.Refine.{Refines, circular_queue-Refines, cq_enqueue-Refines}
use os_scheduler.CircularQueue.Turn.{
  cq_dequeue-Refines, cq_front-Refines, cq_dequeue_and_remove-Refines,
}

-- The pointers that calls on a new queue leave, each that ended, beside the ring of objects after the same
-- calls. A new node stands where none did.
pub data Reached : Heap → QueuePointers → CircularQueue → Type 0 where
  created : (h : Heap) → Reached h Pointers.circular_queue circular_queue
  enqueued :
      {h : Heap} {q : QueuePointers} {c : CircularQueue} {h' : Heap} {q' : QueuePointers}
      (new obj : ℕ)
      → new ≢ null
      → h new ≡ none
      → Pointers.cq_enqueue h q new obj ≡ done (h', q')
      → Reached h q c
      → Reached h' q' (cq_enqueue c obj)
  dequeued :
      {h : Heap} {q : QueuePointers} {c : CircularQueue} {v : Option ℕ} {q' : QueuePointers}
      → Pointers.cq_dequeue h q ≡ done (v, q')
      → Reached h q c
      → Reached h q' (cq_dequeue c).1
  removed :
      {h : Heap} {q : QueuePointers} {c : CircularQueue} {v : Option ℕ} {h' : Heap}
      {q' : QueuePointers}
      → Pointers.cq_dequeue_and_remove h q ≡ done (v, h', q')
      → Reached h q c
      → Reached h' q' (cq_dequeue_and_remove c).1

Reached-Refines :
    {h : Heap} {q : QueuePointers} {c : CircularQueue} → Reached h q c → Refines c (h, q)
Reached-Refines (Reached.created h) = circular_queue-Refines h
Reached-Refines (Reached.enqueued new obj real empty ran r) =
    Ends-done (cq_enqueue-Refines _ _ new obj real _ empty (Reached-Refines r)) ran
Reached-Refines (Reached.dequeued ran r) =
    (Ends-done (cq_dequeue-Refines _ _ _ (Reached-Refines r)) ran).1
Reached-Refines (Reached.removed ran r) =
    (Ends-done (cq_dequeue_and_remove-Refines _ _ _ (Reached-Refines r)) ran).1

-- At pointers that any calls on a new queue have reached, no further call faults: cq_front,
-- cq_dequeue and cq_dequeue_and_remove return what they return on the ring of objects, cq_enqueue
-- with a new node ends, and cq_size and cq_is_empty agree.
pub Reached-answers :
    (h : Heap) (q : QueuePointers) (c : CircularQueue)
    → Reached h q c
    → (Pointers.cq_front h q ≡ done (cq_front c))
      × Ends (λ r. r.0 ≡ (cq_dequeue c).0) (Pointers.cq_dequeue h q)
      × Ends (λ r. r.0 ≡ (cq_dequeue_and_remove c).0) (Pointers.cq_dequeue_and_remove h q)
      × ((new obj : ℕ)
          → new ≢ null
          → h new ≡ none
          → Ends (λ r. Reached r.0 r.1 (cq_enqueue c obj)) (Pointers.cq_enqueue h q new obj))
      × (Pointers.cq_size q ≡ cq_size c)
      × (Pointers.cq_is_empty q ≡ cq_is_empty c)
unfolding cq_size cq_is_empty Pointers.cq_size Pointers.cq_is_empty
Reached-answers h q c reached =
    let r = Reached-Refines reached in
    let (_, _, _, e) = r in
    (
      cq_front-Refines h q c r,
      Ends-weaken (cq_dequeue-Refines h q c r) (λ _ p. p.0),
      Ends-weaken (cq_dequeue_and_remove-Refines h q c r) (λ _ p. p.0),
      λ new obj real empty.
          let (_, ran, _) = Ends-result (cq_enqueue-Refines h q new obj real c empty r) in
          rw ran (ends (Reached.enqueued new obj real empty ran reached)),
      sym (ap CircularQueue.size e),
      sym (ap (λ p. p.size == 0) e),
    )
