-- ===== src/PriorityQueue/Up.antt =====
-- The loop that moves a node towards the front: it ends, in order.
use mathlib.Core.List.Perm
use os_scheduler.Base.{
  ℕ, zero, suc, ◌+◌, ◌≤◌, ◌<◌, ◌≡◌, ◌≢◌, inl, inr, List, arith, ltb, length, Bool-cases,
}
use os_scheduler.Base.Int
use os_scheduler.Base.Outcome.{Ends, ends, Ends-weaken}
use os_scheduler.PriorityQueue.{PqueueNode, move_up}
use os_scheduler.PriorityQueue.Order.{
  node, Below, up_index, Reordered, above-cases, swapped, pq_swap-done, node-swapped,
  length-swapped, swapped-perm,
}

-- Only the edge above `i` may be out of order.
pub record UpInv (nodes : List PqueueNode) (i : ℕ) : Type 0 where
  pub inside : i < length nodes
  pub edges : (c : ℕ) → c ≢ i → 0 < c → c < length nodes → Below nodes c (up_index c)
  pub bridged :
      (c : ℕ) → 0 < i → 0 < c → c < length nodes → up_index c ≡ i → Below nodes c (up_index i)

module _ (nodes : List PqueueNode) (i : ℕ) (v : UpInv nodes i) (below_root : 0 < i) where
  rise-UpInv :
      suc (Int.pos_part (node nodes (up_index i)).priority + Int.neg_part (node nodes i).priority)
        ≤ Int.pos_part (node nodes i).priority + Int.neg_part (node nodes (up_index i)).priority
      → UpInv (swapped nodes i (up_index i)) (up_index i)
  rise-UpInv rise =
      let up_inside : up_index i < length nodes = omega (arith, v.inside) in
      let at = node-swapped nodes i (up_index i) v.inside up_inside in
      let size = length-swapped nodes i (up_index i) v.inside up_inside in
      record {
        inside = omega (arith, size);
        edges = λ c ne p q. ground (
          arith,
          size,
          at c,
          at (up_index c),
          v.edges c,
          v.bridged c,
          v.edges (up_index i),
          v.edges i,
        );
        bridged = λ c p q r s.
            ground (arith, size, at c, at (up_index (up_index i)), v.edges c, v.edges (up_index i));
      }

-- With more fuel than the index, the loop ends with a heap of the same nodes.
pub move_up_restores :
    (fuel : ℕ) (nodes : List PqueueNode) (i : ℕ)
    → i < fuel
    → UpInv nodes i
    → Ends (Reordered nodes) (move_up fuel nodes i)
unfolding move_up
move_up_restores zero nodes i h v = elim h [ ]
move_up_restores (suc fuel) nodes i h v = elim (Bool-cases (ltb 0 i)) [
  | inr at_root ↦ rw at_root (ends (λ c p q. v.edges c (ground arith) p q, Perm.refl nodes))
  | inl inner ↦
      let below_root : 0 < i = ground arith in
      let up_inside : up_index i < length nodes = omega (arith, v.inside) in
      rw inner (elim (above-cases nodes i (up_index i) v.inside up_inside) [
        | inl (rises, more) ↦
            rw (rises, pq_swap-done nodes i (up_index i) v.inside up_inside)
              (Ends-weaken
                (move_up_restores fuel (swapped nodes i (up_index i)) (up_index i) (omega arith)
                  (rise-UpInv nodes i v below_root more))
                λ after r.
                  (r.0, Perm.trans r.1 (swapped-perm nodes i (up_index i) v.inside up_inside)))
        | inr (stays, below) ↦ rw stays (ends (λ c p q. ground (arith, v.edges c), Perm.refl nodes))
      ])
]
