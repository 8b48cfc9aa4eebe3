-- ===== src/PriorityQueue/Change.antt =====
-- pq_change_priority, and the C integers that compare_priority computes with.
use mathlib.Core.List.Perm
use os_scheduler.Base.{
  ℕ, suc, ◌+◌, ◌^◌, ◌≤◌, ◌<◌, ◌≡◌, ◌==◌, ◌↔◌, inl, inr, Perm, List, set, false, arith, leb,
  if◌then◌else◌, length, length-set, length-perm, get_or-set,
}
use os_scheduler.Base.Int.{
  ℤ, neg, pos, pos_part, neg_part, ◌≤ℤ◌, ◌<ℤ◌, ◌-ℤ◌, one_part, lt_ℤ, lt_ℤ-cases, int_laws,
}
use os_scheduler.Base.Outcome.{done, Ends, ends, Ends-bind, load-done}
use os_scheduler.PriorityQueue.{
  PqueueNode, PriorityQueue, pq_size, compare_priority, move_up, pq_heapify, pq_change_priority,
}
use os_scheduler.PriorityQueue.Order.{blank, node, up_index, IsHeap, Reordered}
use os_scheduler.PriorityQueue.Up.{UpInv, move_up_restores}
use os_scheduler.PriorityQueue.Down.{DownInv, pq_heapify_restores}
use os_scheduler.PriorityQueue.Queue.{IsQueue}

-- The array after the write of the new priority, before anything moves.
abbrev pub rewritten : PriorityQueue → ℕ → ℤ → List PqueueNode
rewritten pq index priority =
    set pq.nodes index (record (node pq.nodes index) { priority = neg priority })

module _ (nodes : List PqueueNode) (i : ℕ) (p : ℤ) (heap : IsHeap nodes)
    (h : i < length nodes) where
  abbrev written : List PqueueNode
  written = set nodes i (record (node nodes i) { priority = p })

  size : length written ≡ length nodes
  size = length-set nodes i (record (node nodes i) { priority = p })

  at :
      (c : ℕ)
      → node written c ≡ (if i == c then record (node nodes i) { priority = p } else node nodes c)
  at c = get_or-set nodes i c (record (node nodes i) { priority = p }) blank h

  raised-UpInv : (node nodes i).priority ≤ℤ p → UpInv written i
  raised-UpInv up = record {
    inside = omega (arith, size);
    edges = λ c ne q r. ground (arith, size, at c, at (up_index c), heap c);
    bridged = λ c q r s e. ground (arith, size, at c, at (up_index i), heap c, heap i);
  }

  lowered-DownInv : p ≤ℤ (node nodes i).priority → DownInv written i
  lowered-DownInv down = record {
    edges = λ c q r ne. ground (arith, size, at c, at (up_index c), heap c);
    bridged = λ c q r s e. ground (arith, size, at c, at (up_index i), heap c, heap i);
  }

  unmoved-IsHeap : p ≤ℤ (node nodes i).priority → (node nodes i).priority ≤ℤ p → IsHeap written
  unmoved-IsHeap down up = λ c q r. ground (arith, size, at c, at (up_index c), heap c)

  -- the three-way branch of pq_change_priority
  moved-Ends : Ends (Reordered written) (
      if lt_ℤ (node nodes i).priority p
      then move_up (suc i) written i
      else if lt_ℤ p (node nodes i).priority
      then pq_heapify (length written) written i
      else done written)
  moved-Ends = elim (lt_ℤ-cases (node nodes i).priority p) [
    | inl (t, more) ↦
        rw t (move_up_restores (suc i) written i (omega arith) (raised-UpInv (omega arith)))
    | inr (t, down) ↦ rw t (elim (lt_ℤ-cases p (node nodes i).priority) [
      | inl (u, less) ↦ rw u (
          pq_heapify_restores (length written) written i (omega arith) (omega (arith, size))
            (lowered-DownInv down))
      | inr (u, up) ↦ rw u (ends (unmoved-IsHeap down up, Perm.refl written))
    ])
  ]

-- With priorities that do not overflow, pq_change_priority of an entry of a valid queue ends, keeps the queue valid, and changes the
-- priority of that entry and of no other.
pub pq_change_priority_restores :
    (pq : PriorityQueue) (index : ℕ) (priority : ℤ)
    → IsQueue pq
    → index < pq_size pq
    → Ends
        (λ after. IsQueue after × Perm after.nodes (rewritten pq index priority))
        (pq_change_priority pq index priority)
unfolding pq_change_priority pq_size
pq_change_priority_restores pq index priority v h =
    let within : leb (length pq.nodes) index ≡ false = ground arith in
    rw (within, load-done pq.nodes index blank h)
      (Ends-bind (moved-Ends pq.nodes index (neg priority) v.heap h) λ after r. ends (
        record {
          heap = r.0;
          fits =
              omega (arith, v.fits, length-perm r.1, size pq.nodes index (neg priority) v.heap h);
          nonzero = v.nonzero;
        },
        r.1,
      ))

-- Past the end of the queue pq_change_priority changes nothing.
pub pq_change_priority_outside :
    (pq : PriorityQueue) (index : ℕ) (priority : ℤ)
    → pq_size pq ≤ index
    → pq_change_priority pq index priority ≡ done pq
unfolding pq_change_priority
pq_change_priority_outside pq index priority h = ground arith

-- Between priorities that are less than 2 ^ 30 in size the subtraction of compare_priority fits an `int`,
-- and its sign is the order of the two.
pub compare_priority_bounds :
    (a b : PqueueNode)
    → pos_part a.priority + neg_part a.priority < 2 ^ 30
    → pos_part b.priority + neg_part b.priority < 2 ^ 30
    → (pos_part (compare_priority a b) < 2 ^ 31)
      × (neg_part (compare_priority a b) ≤ 2 ^ 31)
      × ((pos 0 <ℤ compare_priority a b) ↔ (b.priority <ℤ a.priority))
unfolding compare_priority
compare_priority_bounds a b ha hb = let sign = one_part (a.priority -ℤ b.priority) in omega int_laws
