-- ===== src/CircularQueue/Pointers.antt =====
-- src/DS/circular_queue.c at the level of its pointers. `malloc` is a parameter: the address of the
-- new node, whose `next` and `prev` are written before they are read.
use os_scheduler.Base.{ℕ, ◌+◌, ◌-◌, Bool, false, Option, none, some, ◌==◌, if◌then◌else◌}
use os_scheduler.Base.Outcome.{Outcome, done, ◌>>=◌}
use os_scheduler.Nodes.{null, Heap, node, write, deref, set_next, set_prev, free, free_nodes}

pub record QueuePointers : Type 0 where
  pub head : ℕ
  pub tail : ℕ
  pub size : ℕ

unfoldable pub circular_queue : QueuePointers
circular_queue = record { head = null; tail = null; size = 0 }

unfoldable pub cq_enqueue : Heap → QueuePointers → (new obj : ℕ) → Outcome (Heap × QueuePointers)
cq_enqueue h q new obj =
    if q.tail == null
    then (do
      h ← set_next (write h new (some (node null null obj))) new new
      h ← set_prev h new new
      done (h, record { head = new; tail = new; size = q.size + 1 }))
    else (do
      let h = write h new (some (node null null obj))
      tail ← deref h q.tail
      h ← set_next h new tail.next
      h ← set_prev h new q.tail
      tail ← deref h q.tail
      h ← set_prev h tail.next new
      h ← set_next h q.tail new
      done (h, record q { tail = new; size = q.size + 1 }))

unfoldable pub cq_dequeue : Heap → QueuePointers → Outcome (Option ℕ × QueuePointers)
cq_dequeue h q =
    if q.head == null
    then done (none, q)
    else do n ← deref h q.head; done (some n.item, record q { head = n.next })

-- `node == q->tail && node == q->tail->next`
unfoldable pub is_alone : Heap → QueuePointers → Outcome Bool
is_alone h q =
    if q.head == q.tail then (do tail ← deref h q.tail; done (q.head == tail.next)) else done false

unfoldable pub cq_dequeue_and_remove :
    Heap → QueuePointers → Outcome (Option ℕ × Heap × QueuePointers)
cq_dequeue_and_remove h q = if q.head == null then done (none, h, q) else do
  n ← deref h q.head
  alone ← is_alone h q
  if alone
      then (do
        h ← free h q.head
        done (some n.item, h, record { head = null; tail = null; size = q.size - 1 }))
      else (do
        before ← deref h q.head
        h ← set_next h before.prev before.next
        behind ← deref h q.head
        h ← set_prev h behind.next behind.prev
        last ← deref h q.head
        let tail = if q.head == q.tail then last.prev else q.tail
        h ← free h q.head
        done (some n.item, h, record { head = last.next; tail = tail; size = q.size - 1 }))

unfoldable pub cq_front : Heap → QueuePointers → Outcome (Option ℕ)
cq_front h q = if q.head == null then done none else do n ← deref h q.head; done (some n.item)

unfoldable pub cq_is_empty : QueuePointers → Bool
cq_is_empty q = q.size == 0

unfoldable pub cq_size : QueuePointers → ℕ
cq_size q = q.size

-- The ring is opened at `tail`, and its nodes are given back from there on.
unfoldable pub cq_free : (fuel : ℕ) → Heap → QueuePointers → Outcome Heap
cq_free fuel h q =
    if q.tail == null
    then done h
    else do tail ← deref h q.tail; h ← set_next h q.tail null; free_nodes fuel h tail.next
