-- ===== src/IQueue/Tests.antt =====
-- The theorems of src/DS/IQueue.c on a ring of two objects and on a heap of one.
use os_scheduler.Base.{true, ◌≡◌, refl, false, [], ◌∷◌, arith}
use os_scheduler.Base.Int.{pos}
use os_scheduler.Base.Outcome.{done, Ends}
use os_scheduler.PriorityQueue.Queue.{entry}
use os_scheduler.IQueue.{IQueue, circular, priority, dequeue, front}
use os_scheduler.IQueue.Good.{IsGood}
use os_scheduler.IQueue.Laws.{front-dequeue}
use os_scheduler.IQueue.Contents.{Taken, dequeue-Taken}

abbrev pair : IQueue
pair = circular (record { passed = 3 ∷ []; waiting = 4 ∷ []; size = 2 })

pair-IsRing : IsGood pair
pair-IsRing = record { at_head = λ e. cc; counted = refl }

abbrev single : IQueue
single = priority (record { capacity = 100; nodes = entry 7 (pos 5) ∷ [] })

single-IsQueue : IsGood single
single-IsQueue = record {
  heap = λ c p q. absurd (omega arith);
  fits = omega arith;
  nonzero = omega arith;
}

dequeue-Taken_example : Ends (Taken false pair) (dequeue pair false)
dequeue-Taken_example = dequeue-Taken pair false pair-IsRing

front-dequeue_example : Ends (λ r. front pair ≡ done r.0) (dequeue pair true)
front-dequeue_example = front-dequeue pair true pair-IsRing
