-- ===== src/PriorityQueue/Tests.antt =====
-- Runs of src/DS/priority_queue.c on small queues, and its theorems at one of them.
use os_scheduler.Base.{◌≤◌, ◌<◌, ◌^◌, ◌≡◌, ◌≢◌, ◌↔◌, refl, none, some, [], ◌∷◌, Perm, arith, get_or}
use os_scheduler.Base.Int.{pos, pos_part, neg_part, neg, ◌-ℤ◌, ◌<ℤ◌, lt_ℤ}
use os_scheduler.Base.Outcome.{done, ◌>>=◌, Ends, load}
use os_scheduler.PriorityQueue
use os_scheduler.PriorityQueue.{
  PqueueNode, PriorityQueue, priority_queue, compare_priority, above, pq_swap, move_up, if_child,
  pq_heapify, pq_enqueue, pq_dequeue, pq_front, pq_change_priority,
}
use os_scheduler.PriorityQueue.Queue.{IsQueue, entry, Dequeued}
use os_scheduler.PriorityQueue.Bounded.{
  IsBounded, pq_enqueue_correct, pq_dequeue_correct, pq_change_priority_correct,
}
use os_scheduler.PriorityQueue.Change.{rewritten, compare_priority_bounds}

abbrev three : PriorityQueue
three = record { capacity = 100; nodes = entry 7 (pos 1) ∷ entry 8 (pos 5) ∷ entry 9 (pos 3) ∷ [] }

-- Items 8, 7 and 9 with priorities 5, 1 and 3.
fill_three :
    (do a ← pq_enqueue priority_queue 8 (pos 5); b ← pq_enqueue a 7 (pos 1); pq_enqueue b 9 (pos 3))
    ≡ done three
unfolding priority_queue pq_enqueue move_up above compare_priority pq_swap load lt_ℤ ◌-ℤ◌ neg
fill_three = refl

drain_three :
    (do
      (a, q) ← pq_dequeue three
      (b, q) ← pq_dequeue q
      (c, q) ← pq_dequeue q
      (d, q) ← pq_dequeue q
      done (a ∷ b ∷ c ∷ d ∷ []))
    ≡ done (some 7 ∷ some 9 ∷ some 8 ∷ none ∷ [])
unfolding pq_dequeue pq_heapify if_child above compare_priority pq_swap load lt_ℤ ◌-ℤ◌ neg
drain_three = refl

promoted : (do q ← pq_change_priority three 1 (pos 0); pq_front q) ≡ done (some 8)
unfolding pq_change_priority move_up above compare_priority pq_swap load lt_ℤ ◌-ℤ◌ neg pq_front
promoted = refl

three-IsQueue : IsQueue three
unfolding get_or neg pos_part neg_part
three-IsQueue = grind arith

three-IsBounded : IsBounded three
unfolding pos_part neg_part neg
three-IsBounded = record {
  valid = three-IsQueue;
  small = (omega arith, (omega arith, (omega arith, tt)));
}

pq_enqueue_correct_example :
    Ends
      (λ after. IsBounded after × Perm after.nodes (entry 4 (pos 2) ∷ three.nodes))
      (pq_enqueue three 4 (pos 2))
unfolding pos_part neg_part
pq_enqueue_correct_example = pq_enqueue_correct three 4 (pos 2) three-IsBounded (omega arith)

three_nonempty : three.nodes ≢ []
three_nonempty = ground arith

pq_dequeue_correct_example : Ends (λ r. Dequeued three r × IsBounded r.1) (pq_dequeue three)
pq_dequeue_correct_example = pq_dequeue_correct three three-IsBounded three_nonempty

pq_change_priority_correct_example :
    Ends
      (λ after. IsBounded after × Perm after.nodes (rewritten three 0 (pos 4)))
      (pq_change_priority three 0 (pos 4))
unfolding PriorityQueue.pq_size pos_part neg_part
pq_change_priority_correct_example =
    pq_change_priority_correct three 0 (pos 4) three-IsBounded (omega arith) (omega arith)

compare_priority_bounds_example :
    (pos_part (compare_priority (entry 1 (pos 2)) (entry 2 (pos 9))) < 2 ^ 31)
    × (neg_part (compare_priority (entry 1 (pos 2)) (entry 2 (pos 9))) ≤ 2 ^ 31)
    × ((pos 0 <ℤ compare_priority (entry 1 (pos 2)) (entry 2 (pos 9)))
        ↔ (neg (pos 9) <ℤ neg (pos 2)))
unfolding pos_part neg_part neg
compare_priority_bounds_example =
    compare_priority_bounds (entry 1 (pos 2)) (entry 2 (pos 9)) (omega arith) (omega arith)
