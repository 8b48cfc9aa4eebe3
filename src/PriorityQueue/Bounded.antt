-- ===== src/PriorityQueue/Bounded.antt =====
-- src/DS/priority_queue.c: its operations on priorities whose differences fit an `int`.
use native.Mathlib.Bridge.{le_prop}
use mathlib.Core.List.Perm
use os_scheduler.Base.{
  ℕ, zero, suc, ◌+◌, ◌^◌, ◌<◌, ◌≢◌, List, [], ◌∷◌, arith, Perm, All, All-perm, All-set,
}
use os_scheduler.Base.Int.{ℤ, pos, negsuc, neg, pos_part, neg_part}
use os_scheduler.Base.Outcome.{Ends, Ends-weaken}
use os_scheduler.PriorityQueue.{
  PqueueNode, PriorityQueue, pq_size, pq_enqueue, pq_dequeue, pq_change_priority,
}
use os_scheduler.PriorityQueue.Queue.{
  IsQueue, entry, Dequeued, pq_enqueue_restores, pq_dequeue_restores,
}
use os_scheduler.PriorityQueue.Change.{rewritten, pq_change_priority_restores}

-- Less than 2 ^ 30 in size.
abbrev pub IsSmall : ℤ → Type 0
IsSmall p = pos_part p + neg_part p < 2 ^ 30

abbrev IsSmallNode : PqueueNode → Type 0
IsSmallNode n = IsSmall n.priority

-- A valid queue of such priorities: compare_priority does not overflow on any two of its entries.
pub record IsBounded (pq : PriorityQueue) : Type 0 where
  pub valid : IsQueue pq
  pub small : All IsSmallNode pq.nodes

neg-IsSmall : (p : ℤ) → IsSmall p → IsSmall (neg p)
unfolding neg pos_part neg_part
neg-IsSmall (pos zero) small = ground arith
neg-IsSmall (pos (suc n)) small = ground arith
neg-IsSmall (negsuc n) small = ground arith

All-small : {xs ys : List PqueueNode} → Perm xs ys → All IsSmallNode xs → All IsSmallNode ys
All-small perm all = All-perm IsSmallNode (λ n. le_prop) perm all

-- pq_enqueue of a priority of less than 2 ^ 30 in size on a valid queue of such priorities ends, keeps
-- it so, within its capacity, and adds exactly the given entry.
pub pq_enqueue_correct :
    (pq : PriorityQueue) (item : ℕ) (priority : ℤ)
    → IsBounded pq
    → IsSmall priority
    → Ends
        (λ after. IsBounded after × Perm after.nodes (entry item priority ∷ pq.nodes))
        (pq_enqueue pq item priority)
pq_enqueue_correct pq item priority v small =
    Ends-weaken (pq_enqueue_restores pq item priority v.valid) λ after (valid, same). (
      record {
        valid = valid;
        small = All-small (Perm.symm same) (neg-IsSmall priority small, v.small);
      },
      same,
    )

-- pq_dequeue on a valid queue of priorities of less than 2 ^ 30 in size that is not empty ends, returns
-- the item of an entry of least priority value, and leaves such a queue of exactly the other entries.
pub pq_dequeue_correct :
    (pq : PriorityQueue)
    → IsBounded pq
    → pq.nodes ≢ []
    → Ends (λ r. Dequeued pq r × IsBounded r.1) (pq_dequeue pq)
pq_dequeue_correct pq v some_left =
    Ends-weaken (pq_dequeue_restores pq v.valid some_left)
      λ r d. (d, record { valid = d.valid; small = (All-small (Perm.symm d.same) v.small).1 })

-- pq_change_priority of an entry of a valid queue of priorities of less than 2 ^ 30 in size, to such a
-- priority, ends, keeps the queue so, and changes the priority of that entry and of no other.
pub pq_change_priority_correct :
    (pq : PriorityQueue) (index : ℕ) (priority : ℤ)
    → IsBounded pq
    → IsSmall priority
    → index < pq_size pq
    → Ends
        (λ after. IsBounded after × Perm after.nodes (rewritten pq index priority))
        (pq_change_priority pq index priority)
pq_change_priority_correct pq index priority v small inside =
    Ends-weaken (pq_change_priority_restores pq index priority v.valid inside)
      λ after (valid, same). (
        record {
          valid = valid;
          small =
              All-small (Perm.symm same)
                (All-set IsSmallNode pq.nodes index _ v.small (neg-IsSmall priority small));
        },
        same,
      )
