-- ===== src/PriorityQueue/Queue.antt =====
-- pq_enqueue, pq_dequeue and pq_front, as operations on the collection of entries.
use mathlib.Core.List.{not-mem-nil, forall_mem-cons}
use mathlib.Core.List.Perm
use native.Mathlib.Bridge.{le_prop}
use os_scheduler.Base.{
  ℕ, suc, ◌-◌, ◌≤◌, ◌<◌, ◌≡◌, ◌≢◌, refl, inl, inr, ◌∙◌, false, if◌then◌else◌, Option, none, some,
  List, [], ◌∷◌, ◌++◌, Perm, Mem, arith, ◌==◌, length, get_or, take, length-append, length-perm,
  snoc-perm, get_or-append, get_or-take, take-append_last, Bool-cases,
}
use os_scheduler.Base.Int.{ℤ, neg, ◌≤ℤ◌, int_laws}
use os_scheduler.Base.Outcome.{done, Ends, ends, Ends-bind, load-done}
use os_scheduler.PriorityQueue.{
  PqueueNode, PriorityQueue, priority_queue, pq_heapify, pq_enqueue, pq_dequeue, pq_front,
}
use os_scheduler.PriorityQueue.Order.{
  blank, node, up_index, IsHeap, Reordered, front_least, swapped, pq_swap-done, node-swapped,
  length-swapped, swapped-perm,
}
use os_scheduler.PriorityQueue.Up.{UpInv, move_up_restores}
use os_scheduler.PriorityQueue.Down.{DownInv, pq_heapify_restores}

pub record IsQueue (pq : PriorityQueue) : Type 0 where
  pub heap : IsHeap pq.nodes
  pub fits : length pq.nodes ≤ pq.capacity
  pub nonzero : 0 < pq.capacity

-- The node that pq_enqueue makes of an item and its priority.
abbrev pub entry : ℕ → ℤ → PqueueNode
entry item priority = record { item = item; priority = neg priority }

-- The priority that a node was given.
abbrev pub given : PqueueNode → ℤ
given n = neg n.priority

-- What pq_enqueue of a new entry leaves.
abbrev pub Enqueued : PriorityQueue → ℕ → ℤ → PriorityQueue → Type 0
Enqueued pq item priority after = IsQueue after × Perm after.nodes (entry item priority ∷ pq.nodes)

-- What pq_dequeue returns and leaves: an entry of the least priority, and the others.
pub record Dequeued (pq : PriorityQueue) (r : Option ℕ × PriorityQueue) : Type 0 where
  pub first : PqueueNode
  pub returned : r.0 ≡ some first.item
  pub valid : IsQueue r.1
  pub same : Perm (first ∷ r.1.nodes) pq.nodes
  pub least : (n : PqueueNode) → Mem n pq.nodes → given first ≤ℤ given n

pub priority_queue-IsQueue : IsQueue priority_queue
unfolding priority_queue
priority_queue-IsQueue = record {
  heap = λ c p q. absurd (omega arith);
  fits = omega arith;
  nonzero = omega arith;
}

appended-UpInv :
    (nodes : List PqueueNode) (n : PqueueNode)
    → IsHeap nodes
    → UpInv (nodes ++ n ∷ []) (length nodes)
appended-UpInv nodes n heap =
    let size = length-append nodes (n ∷ []) in
    record {
      inside = omega (arith, size);
      edges = λ c ne p q. ground (
        arith,
        size,
        heap c,
        get_or-append nodes (n ∷ []) c blank,
        get_or-append nodes (n ∷ []) (up_index c) blank,
      );
      bridged = λ c p q r e. absurd (omega (arith, size));
    }

-- With priorities that do not overflow, pq_enqueue on a valid queue ends, keeps it valid, and adds exactly the given entry.
pub pq_enqueue_restores :
    (pq : PriorityQueue) (item : ℕ) (priority : ℤ)
    → IsQueue pq
    → Ends (Enqueued pq item priority) (pq_enqueue pq item priority)
unfolding pq_enqueue
pq_enqueue_restores pq item priority v =
    let new = entry item priority in
    let size = length-append pq.nodes (new ∷ []) in
    let last : length (pq.nodes ++ new ∷ []) - 1 ≡ length pq.nodes = omega (arith, size) in
    rw last (
      Ends-bind
        (move_up_restores (length (pq.nodes ++ new ∷ [])) (pq.nodes ++ new ∷ []) (length pq.nodes)
          (omega (arith, size)) (appended-UpInv pq.nodes new v.heap))
        λ moved r.
          let grown = length-perm r.1 in
          ends (
            record {
              heap = r.0;
              fits = ground (arith, v.fits, v.nonzero, size, grown);
              nonzero = ground (arith, v.nonzero);
            },
            Perm.trans r.1 (snoc-perm pq.nodes new),
          ))

-- On an empty queue pq_dequeue and pq_front return NULL, and the queue stays as it is.
pub pq_dequeue-empty :
    (pq : PriorityQueue)
    → pq.nodes ≡ []
    → (pq_dequeue pq ≡ done (none, pq)) × (pq_front pq ≡ done none)
unfolding pq_dequeue pq_front
pq_dequeue-empty pq e = (ground arith, ground arith)

most_of_all :
    (nodes : List PqueueNode) (f : PqueueNode)
    → ((i : ℕ) → i < length nodes → (node nodes i).priority ≤ℤ f.priority)
    → (n : PqueueNode) → Mem n nodes
    → n.priority ≤ℤ f.priority
unfolding get_or
most_of_all [] f h = λ n m. absurd (not-mem-nil m)
most_of_all (x ∷ nodes) f h =
    (forall_mem-cons λ n. le_prop).1
      (h 0 (omega arith), most_of_all nodes f λ i p. h (suc i) (omega arith))

front_least_of_mem :
    (nodes : List PqueueNode)
    → IsHeap nodes
    → (n : PqueueNode) → Mem n nodes
    → given (node nodes 0) ≤ℤ given n
front_least_of_mem nodes heap n m =
    omega (int_laws, most_of_all nodes (node nodes 0) (λ i. front_least nodes i heap) n m)

module _ (nodes : List PqueueNode) (k : ℕ) (size : length nodes ≡ suc k) where
  -- the array without its front, which the last entry has replaced
  abbrev rest : List PqueueNode
  rest = take k (swapped nodes 0 k)

  rest-perm : Perm (node nodes 0 ∷ rest) nodes
  rest-perm =
      let whole : rest ++ node nodes 0 ∷ [] ≡ swapped nodes 0 k = ground (
        arith,
        take-append_last k (swapped nodes 0 k) blank
            (length-swapped nodes 0 k (omega arith) (omega arith) ∙ size),
        node-swapped nodes 0 k (omega arith) (omega arith) k,
      ) in
      Perm.trans (Perm.symm (snoc-perm rest (node nodes 0)))
        (rw whole (swapped-perm nodes 0 k (omega arith) (omega arith)))

  rest-DownInv : IsHeap nodes → DownInv rest 0
  rest-DownInv heap =
      let at = node-swapped nodes 0 k (omega arith) (omega arith) in
      let shorter = length-perm rest-perm in
      record {
        edges = λ c p q ne. ground (
          arith,
          shorter,
          size,
          at c,
          at (up_index c),
          heap c,
          get_or-take k (swapped nodes 0 k) c blank,
          get_or-take k (swapped nodes 0 k) (up_index c) blank,
        );
        bridged = λ c p. absurd (omega arith);
      }

  -- the end of pq_dequeue: a heap of the entries that are left
  rest-Ends :
      IsHeap nodes
      → Ends
          (Reordered rest)
          (if length rest == 0 then done rest else pq_heapify (length rest) rest 0)
  rest-Ends heap = elim (Bool-cases (length rest == 0)) [
    | inl nothing ↦ rw nothing (ends (λ c p q. absurd (ground arith), Perm.refl rest))
    | inr some_left ↦
        rw some_left (
          pq_heapify_restores (length rest) rest 0 (omega arith) (ground arith) (rest-DownInv heap))
  ]

-- With priorities that do not overflow, pq_dequeue on a valid queue that is not empty ends, returns the item of an entry whose priority
-- is the least, and leaves a valid queue of exactly the other entries.
pub pq_dequeue_restores :
    (pq : PriorityQueue) → IsQueue pq → pq.nodes ≢ [] → Ends (Dequeued pq) (pq_dequeue pq)
unfolding pq_dequeue
pq_dequeue_restores pq v some_left =
    let k = length pq.nodes - 1 in
    let size : length pq.nodes ≡ suc k = ground arith in
    let busy : (length pq.nodes == 0) ≡ false = ground arith in
    rw
      (
        busy,
        load-done pq.nodes 0 blank (omega arith),
        pq_swap-done pq.nodes 0 k (omega arith) (omega arith),
      )
      (Ends-bind (rest-Ends pq.nodes k size v.heap) λ left r.
        let same = Perm.trans (Perm.cons (node pq.nodes 0) r.1) (rest-perm pq.nodes k size) in
        ends (record {
          first = node pq.nodes 0;
          returned = refl;
          valid = record {
            heap = r.0;
            fits = omega (arith, v.fits, length-perm same);
            nonzero = v.nonzero;
          };
          same = same;
          least = front_least_of_mem pq.nodes v.heap;
        }))

-- pq_front on a valid queue that is not empty returns the item that pq_dequeue goes on to return.
pub pq_front-pq_dequeue :
    (pq : PriorityQueue)
    → IsQueue pq
    → pq.nodes ≢ []
    → Ends (λ r. pq_front pq ≡ done r.0) (pq_dequeue pq)
unfolding pq_front pq_dequeue
pq_front-pq_dequeue pq v some_left =
    let k = length pq.nodes - 1 in
    let size : length pq.nodes ≡ suc k = ground arith in
    let busy : (length pq.nodes == 0) ≡ false = ground arith in
    rw
      (
        busy,
        load-done pq.nodes 0 blank (omega arith),
        pq_swap-done pq.nodes 0 k (omega arith) (omega arith),
      )
      (Ends-bind (rest-Ends pq.nodes k size v.heap) λ left r. ends refl)
