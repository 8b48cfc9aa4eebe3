-- ===== src/IQueue.antt =====
-- src/DS/IQueue.c and .h: one queue interface over the ring and the heap.
-- `q` is the union that the `void*` stands for, and the constructor is the `type` field.
pub mod Good
pub mod Laws
pub mod Contents
mod Tests
use os_scheduler.Base.{ℕ, Bool, true, false, Option, none, some}
use os_scheduler.Base.Int.{ℤ}
use os_scheduler.Base.Outcome.{Outcome, done, ◌>>=◌}
use os_scheduler.PriorityQueue.{
  PriorityQueue, priority_queue, pq_enqueue, pq_dequeue, pq_front, pq_is_empty, pq_size,
  pq_change_priority,
}
use os_scheduler.CircularQueue.{
  CircularQueue, circular_queue, cq_enqueue, cq_dequeue, cq_dequeue_and_remove, cq_front,
  cq_is_empty, cq_size,
}

pub data SchedulingAlgorithm : Type 0 where
  rr hpf srtn : SchedulingAlgorithm

pub data IQueue : Type 0 where
  circular : CircularQueue → IQueue
  priority : PriorityQueue → IQueue

unfoldable pub init_queue : SchedulingAlgorithm → IQueue
init_queue SchedulingAlgorithm.rr = circular circular_queue
init_queue SchedulingAlgorithm.hpf = priority priority_queue
init_queue SchedulingAlgorithm.srtn = priority priority_queue

unfoldable pub enqueue : IQueue → (obj : ℕ) → ℤ → Outcome IQueue
enqueue (circular q) obj p = done (circular (cq_enqueue q obj))
enqueue (priority q) obj p = do q' ← pq_enqueue q obj p; done (priority q')

-- The flag `remove` means something to the ring alone.
unfoldable pub dequeue : IQueue → (remove : Bool) → Outcome (Option ℕ × IQueue)
dequeue (circular q) true = let (obj, q') = cq_dequeue_and_remove q in done (obj, circular q')
dequeue (circular q) false = let (obj, q') = cq_dequeue q in done (obj, circular q')
dequeue (priority q) remove = do (obj, q') ← pq_dequeue q; done (obj, priority q')

unfoldable pub front : IQueue → Outcome (Option ℕ)
front (circular q) = done (cq_front q)
front (priority q) = pq_front q

unfoldable pub is_empty : IQueue → Bool
is_empty (circular q) = cq_is_empty q
is_empty (priority q) = pq_is_empty q

unfoldable pub size : IQueue → ℕ
size (circular q) = cq_size q
size (priority q) = pq_size q

unfoldable pub change_priority : IQueue → (index : ℕ) → ℤ → Outcome IQueue
change_priority (circular q) index new_priority = done (circular q)
change_priority (priority q) index new_priority = do
  q' ← pq_change_priority q index new_priority
  done (priority q')
