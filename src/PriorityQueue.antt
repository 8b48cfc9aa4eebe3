-- ===== src/PriorityQueue.antt =====
-- src/DS/priority_queue.c: a growing array of nodes, kept as a binary heap on the negated priority.
-- `nodes` holds the live prefix of the array, so `pq->size` is its length; `malloc` and `realloc`
-- succeed.
pub mod Order
pub mod Up
pub mod Down
pub mod Change
pub mod Bounded
pub mod Queue
mod Tests
use os_scheduler.Base.{
  ℕ, zero, suc, ◌+◌, ◌-◌, ◌*◌, ◌/◌, Bool, true, false, Option, none, some, List, [], ◌∷◌, ◌++◌, ltb,
  leb, ◌==◌, if◌then◌else◌, length, set, take,
}
use os_scheduler.Base.Int.{ℤ, pos, ◌-ℤ◌, neg, lt_ℤ}
use os_scheduler.Base.Outcome.{Outcome, done, fault, starved, ◌>>=◌, load}

-- `item` is the address of the object that is queued.
pub record PqueueNode : Type 0 where
  pub item : ℕ
  pub priority : ℤ

pub record PriorityQueue : Type 0 where
  pub capacity : ℕ
  pub nodes : List PqueueNode

unfoldable pub priority_queue : PriorityQueue
priority_queue = record { capacity = 100; nodes = [] }

unfoldable pub pq_size : PriorityQueue → ℕ
pq_size pq = length pq.nodes

unfoldable pub pq_is_empty : PriorityQueue → Bool
unfolding pq_size
pq_is_empty pq = pq_size pq == 0

-- The exact difference, which the code has where it fits an `int`; elsewhere the subtraction, as the change
-- of sign in pq_enqueue, is undefined, and this is not what the code then does.
unfoldable pub compare_priority : PqueueNode → PqueueNode → ℤ
compare_priority a b = a.priority -ℤ b.priority

-- `compare_priority(nodes[i], nodes[j]) > 0`
unfoldable pub above : List PqueueNode → ℕ → ℕ → Outcome Bool
above nodes i j = do a ← load nodes i; b ← load nodes j; done (lt_ℤ (pos 0) (compare_priority a b))

unfoldable pub pq_swap : List PqueueNode → ℕ → ℕ → Outcome (List PqueueNode)
pq_swap nodes i j = do a ← load nodes i; b ← load nodes j; done (set (set nodes i b) j a)

-- The `while (parent > 0)` loop that moves a node up. The source calls the index that moves
-- `parent`, and the one above it `child`.
unfoldable pub move_up : ℕ → List PqueueNode → ℕ → Outcome (List PqueueNode)
move_up zero nodes parent = starved
move_up (suc fuel) nodes parent =
    let child = (parent - 1) / 2 in
    let continue = pq_swap nodes parent child >>= λ swapped. move_up fuel swapped child in
    let round = above nodes parent child >>= λ rise. if rise then continue else done nodes in
    if ltb 0 parent then round else done nodes

-- The two tests of pq_heapify that choose `smallest`. `&&` reads a child only if it is there.
unfoldable pub if_child : List PqueueNode → ℕ → ℕ → Outcome ℕ
if_child nodes child smallest =
    if ltb child (length nodes)
    then (do better ← above nodes child smallest; done (if better then child else smallest))
    else done smallest

unfoldable pub pq_heapify : ℕ → List PqueueNode → ℕ → Outcome (List PqueueNode)
pq_heapify zero nodes parent = starved
pq_heapify (suc fuel) nodes parent = do
  first ← if_child nodes (2 * parent + 1) parent
  smallest ← if_child nodes (2 * parent + 2) first
  let continue = pq_swap nodes parent smallest >>= λ swapped. pq_heapify fuel swapped smallest
  if smallest == parent then done nodes else continue

unfoldable pub pq_enqueue : PriorityQueue → ℕ → ℤ → Outcome PriorityQueue
unfolding pq_size
pq_enqueue pq item priority = do
  let new_node : PqueueNode = record { item = item; priority = neg priority }
  let capacity = if pq_size pq == pq.capacity then pq.capacity * 2 else pq.capacity
  let nodes = pq.nodes ++ new_node ∷ []
  moved ← move_up (length nodes) nodes (length nodes - 1)
  done (record { capacity = capacity; nodes = moved })

-- `none` for NULL.
unfoldable pub pq_dequeue : PriorityQueue → Outcome (Option ℕ × PriorityQueue)
unfolding pq_is_empty
pq_dequeue pq = if pq_is_empty pq then done (none, pq) else do
  front ← load pq.nodes 0
  swapped ← pq_swap pq.nodes 0 (length pq.nodes - 1)
  let rest = take (length pq.nodes - 1) swapped
  nodes ← if length rest == 0 then done rest else pq_heapify (length rest) rest 0
  done (some front.item, record pq { nodes = nodes })

unfoldable pub pq_front : PriorityQueue → Outcome (Option ℕ)
unfolding pq_is_empty
pq_front pq =
    if pq_is_empty pq then done none else do front ← load pq.nodes 0; done (some front.item)

-- The callers give an index that is not negative.
unfoldable pub pq_change_priority : PriorityQueue → ℕ → ℤ → Outcome PriorityQueue
unfolding pq_size
pq_change_priority pq index new_priority = if leb (pq_size pq) index then done pq else do
  old ← load pq.nodes index
  let nodes = set pq.nodes index (record old { priority = neg new_priority })
  moved ←
      if lt_ℤ old.priority (neg new_priority)
      then move_up (suc index) nodes index
      else if lt_ℤ (neg new_priority) old.priority
      then pq_heapify (length nodes) nodes index
      else done nodes
  done (record pq { nodes = moved })

-- The nodes that are freed, and whether the array is: an empty queue keeps its array.
unfoldable pub pq_free : PriorityQueue → List PqueueNode × Bool
pq_free pq = if pq_is_empty pq then ([], false) else (pq.nodes, true)
