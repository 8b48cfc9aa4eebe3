-- ===== src/PriorityQueue/Down.antt =====
-- pq_heapify: it ends, in order.
use mathlib.Core.List.Perm
use os_scheduler.Base.{
  ℕ, zero, suc, ◌+◌, ◌*◌, ◌≤◌, ◌<◌, ◌≡◌, ◌≢◌, ◌⊎◌, refl, inl, inr, List, arith, ltb, ◌==◌, length,
  Bool-cases,
}
use os_scheduler.Base.Int.{◌<ℤ◌}
use os_scheduler.Base.Outcome.{done, Ends, ends, Ends-weaken}
use os_scheduler.PriorityQueue.{PqueueNode, if_child, pq_heapify}
use os_scheduler.PriorityQueue.Order.{
  node, Below, up_index, Reordered, above-cases, swapped, pq_swap-done, node-swapped,
  length-swapped, swapped-perm,
}

-- Only the edges from `i` to its children may be out of order.
pub record DownInv (nodes : List PqueueNode) (i : ℕ) : Type 0 where
  pub edges : (c : ℕ) → 0 < c → c < length nodes → up_index c ≢ i → Below nodes c (up_index c)
  pub bridged :
      (c : ℕ) → 0 < i → 0 < c → c < length nodes → up_index c ≡ i → Below nodes c (up_index i)

-- What one test of pq_heapify chooses: the better of `child`, if there is one, and `smallest`.
record Choice (nodes : List PqueueNode) (child smallest r : ℕ) : Type 0 where
  runs : if_child nodes child smallest ≡ done r
  inside : r < length nodes
  keeps : Below nodes smallest r
  beats : child < length nodes → Below nodes child r
  strict :
      (r ≡ smallest) ⊎ ((r ≡ child) × ((node nodes smallest).priority <ℤ (node nodes r).priority))

if_child-Choice :
    (nodes : List PqueueNode) (child smallest : ℕ)
    → smallest < length nodes
    → (r : ℕ) × Choice nodes child smallest r
unfolding if_child
if_child-Choice nodes child smallest h = elim (Bool-cases (ltb child (length nodes))) [
  | inr missing ↦ (
    smallest,
    record {
      runs = rw missing;
      inside = h;
      keeps = omega arith;
      beats = λ present. absurd (ground arith);
      strict = inl refl;
    },
  )
  | inl present ↦
      let child_inside : child < length nodes = ground arith in
      elim (above-cases nodes child smallest child_inside h) [
        | inl (better, more) ↦ (
          child,
          record {
            runs = rw (present, better);
            inside = child_inside;
            keeps = omega arith;
            beats = λ _. omega arith;
            strict = inr (refl, more);
          },
        )
        | inr (worse, below) ↦ (
          smallest,
          record {
            runs = rw (present, worse);
            inside = h;
            keeps = omega arith;
            beats = λ _. below;
            strict = inl refl;
          },
        )
      ]
]

module _ (nodes : List PqueueNode) (i s : ℕ) (v : DownInv nodes i) (hi : i < length nodes)
    (hs : s < length nodes)
    (best : (c : ℕ) → 0 < c → c < length nodes → up_index c ≡ i → Below nodes c s) where
  sink-DownInv :
      i < s
      → up_index s ≡ i
      → (node nodes i).priority <ℤ (node nodes s).priority
      → DownInv (swapped nodes i s) s
  sink-DownInv later edge more =
      let at = node-swapped nodes i s hi hs in
      let size = length-swapped nodes i s hi hs in
      record {
        edges = λ c p q ne.
            ground
              (arith, size, at c, at (up_index c), v.edges c, v.bridged c, best c, v.bridged s);
        bridged = λ c p q r e. ground (arith, size, at c, at (up_index s), v.edges c);
      }

  settled-IsHeap : s ≡ i → (c : ℕ) → 0 < c → c < length nodes → Below nodes c (up_index c)
  settled-IsHeap e c p q = ground (arith, v.edges c, best c)

-- With as much fuel as there are entries from the index on, pq_heapify ends with a heap.
pub pq_heapify_restores :
    (fuel : ℕ) (nodes : List PqueueNode) (i : ℕ)
    → length nodes ≤ fuel + i
    → i < length nodes
    → DownInv nodes i
    → Ends (Reordered nodes) (pq_heapify fuel nodes i)
unfolding pq_heapify
pq_heapify_restores zero nodes i f h v = absurd (omega arith)
pq_heapify_restores (suc fuel) nodes i f h v =
    let (m, first) = if_child-Choice nodes (2 * i + 1) i h in
    let (s, second) = if_child-Choice nodes (2 * i + 2) m first.inside in
    let best : (c : ℕ) → 0 < c → c < length nodes → up_index c ≡ i → Below nodes c s =
      λ c p q e. ground (arith, first.beats, second.beats, second.keeps) in
    rw (first.runs, second.runs)
      (elim (Bool-cases (s == i)) [
        | inl settled ↦
            rw settled (
              ends
                (settled-IsHeap nodes i s v h second.inside best (ground arith), Perm.refl nodes))
        | inr moves ↦
            rw (moves, pq_swap-done nodes i s h second.inside)
              (Ends-weaken
                (pq_heapify_restores fuel (swapped nodes i s) s
                  (ground
                    (arith, length-swapped nodes i s h second.inside, first.strict, second.strict))
                  (ground (arith, length-swapped nodes i s h second.inside))
                  (sink-DownInv nodes i s v h second.inside best
                    (ground (arith, first.strict, second.strict))
                    (ground (arith, first.strict, second.strict))
                    (ground (arith, first.strict, second.strict, second.keeps))))
                λ after r. (r.0, Perm.trans r.1 (swapped-perm nodes i s h second.inside)))
      ])
