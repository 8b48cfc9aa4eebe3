-- ===== src/CircularQueue/Tests.antt =====
-- Runs of src/DS/circular_queue.c, and its theorems at one ring.
use os_scheduler.Base.{ℕ, ◌≡◌, ◌≢◌, refl, some, none, [], ◌∷◌, ◌++◌, arith}
use os_scheduler.Base.Outcome.{done, Ends}
use os_scheduler.Nodes.{null, Heap, node, write, deref, set_next, set_prev}
use os_scheduler.CircularQueue.{
  CircularQueue, circular_queue, cq_enqueue, cq_dequeue, cq_dequeue_and_remove, cq_front,
  cq_is_empty, cq_size,
}
use os_scheduler.CircularQueue.Pointers
use os_scheduler.CircularQueue.Pointers.{QueuePointers}
use os_scheduler.Nodes.Free.{Freed}
use os_scheduler.CircularQueue.Reach.{Reached, Reached-answers}
use os_scheduler.CircularQueue.Refine.{Stands, round}
use os_scheduler.CircularQueue.Release.{cq_free-Freed}
use os_scheduler.CircularQueue.Order.{
  service, IsRing, cq_enqueue_correct, cq_dequeue_correct, cq_dequeue_and_remove_correct,
}

-- 1, 2 and 3 are queued, the head moves on to 2, and 4 comes: it is served before 1.
turned :
    service
      (cq_enqueue (cq_dequeue (cq_enqueue (cq_enqueue (cq_enqueue circular_queue 1) 2) 3)).1 4)
    ≡ 2 ∷ 3 ∷ 4 ∷ 1 ∷ []
unfolding circular_queue cq_enqueue cq_dequeue
turned = refl

abbrev three : CircularQueue
three = record { passed = 1 ∷ []; waiting = 2 ∷ 3 ∷ []; size = 3 }

three-IsRing : IsRing three
three-IsRing = record { at_head = λ e. absurd (ground arith); counted = refl }

cq_enqueue_correct_example :
    IsRing (cq_enqueue three 4)
    × (service (cq_enqueue three 4) ≡ 2 ∷ 3 ∷ 4 ∷ 1 ∷ [])
    × (three.passed ≡ [] → service (cq_enqueue three 4) ≡ service three ++ 4 ∷ [])
cq_enqueue_correct_example = cq_enqueue_correct three 4 three-IsRing

cq_dequeue_correct_example :
    IsRing (cq_dequeue three).1
    × ((cq_dequeue three).0 ≡ some 2)
    × (service (cq_dequeue three).1 ≡ 3 ∷ 1 ∷ 2 ∷ [])
cq_dequeue_correct_example = cq_dequeue_correct three three-IsRing

cq_dequeue_and_remove_correct_example :
    IsRing (cq_dequeue_and_remove three).1
    × ((cq_dequeue_and_remove three).0 ≡ some 2)
    × (service (cq_dequeue_and_remove three).1 ≡ 3 ∷ 1 ∷ [])
cq_dequeue_and_remove_correct_example = cq_dequeue_and_remove_correct three three-IsRing

-- 7 is put in at address 16 and 8 at 32, and the head turns to 8.
abbrev nothing : Heap
nothing = λ _. none

abbrev one_node : Heap
one_node =
    write (write (write nothing 16 (some (node 0 0 7))) 16 (some (node 16 0 7))) 16
      (some (node 16 16 7))

abbrev two_nodes : Heap
two_nodes =
    write
      (write
        (write (write (write one_node 32 (some (node 0 0 8))) 32 (some (node 16 0 8))) 32
          (some (node 16 16 8)))
        16 (some (node 16 32 7)))
      16 (some (node 32 32 7))

abbrev two : QueuePointers
two = record { head = 32; tail = 32; size = 2 }

abbrev two_objects : CircularQueue
two_objects = (cq_dequeue (cq_enqueue (cq_enqueue circular_queue 7) 8)).1

two_nodes-Reached : Reached two_nodes two two_objects
unfolding Pointers.cq_enqueue Pointers.circular_queue Pointers.cq_dequeue set_next set_prev deref
    write
two_nodes-Reached = Reached.dequeued {v = some 7} refl (
    Reached.enqueued {h = one_node} 32 8 (λ e. ground arith) refl refl
      (Reached.enqueued {h = nothing} 16 7 (λ e. ground arith) refl refl (Reached.created nothing)))

Reached-answers_example :
    (Pointers.cq_front two_nodes two ≡ done (cq_front two_objects))
    × Ends (λ r. r.0 ≡ (cq_dequeue two_objects).0) (Pointers.cq_dequeue two_nodes two)
    × Ends
        (λ r. r.0 ≡ (cq_dequeue_and_remove two_objects).0)
        (Pointers.cq_dequeue_and_remove two_nodes two)
    × ((new obj : ℕ)
        → new ≢ null
        → two_nodes new ≡ none
        → Ends
            (λ r. Reached r.0 r.1 (cq_enqueue two_objects obj))
            (Pointers.cq_enqueue two_nodes two new obj))
    × (Pointers.cq_size two ≡ cq_size two_objects)
    × (Pointers.cq_is_empty two ≡ cq_is_empty two_objects)
Reached-answers_example = Reached-answers two_nodes two two_objects two_nodes-Reached

two_nodes-Stands : Stands two_nodes two ((16, 7) ∷ []) ((32, 8) ∷ [])
unfolding write
two_nodes-Stands = record {
  ring = ((λ e. ground arith), refl, ((λ e. ground arith), refl, tt));
  distinct = (refl, (refl, tt));
  at_head = refl;
  at_tail = refl;
  some_wait = λ e. cc;
}

cq_free-Freed_example :
    Ends (Freed (round ((16, 7) ∷ []) ((32, 8) ∷ [])) two_nodes) (Pointers.cq_free 3 two_nodes two)
cq_free-Freed_example =
    cq_free-Freed 3 two_nodes two ((16, 7) ∷ []) ((32, 8) ∷ []) (omega arith) two_nodes-Stands
