-- ===== src/PriorityQueue/Order.antt =====
-- The heap order on the array of nodes, and what the elementary accesses do within bounds.
use mathlib.Core.List.Perm
use os_scheduler.Base.{
  ℕ, zero, suc, ◌-◌, ◌/◌, ◌<◌, ◌≡◌, ◌⊎◌, inl, inr, true, false, List, Perm, arith, ◌==◌,
  if◌then◌else◌, length, set, get_or, get_or-set, length-set, set-perm,
}
use os_scheduler.Base.Int.{pos, ◌≤ℤ◌, ◌<ℤ◌, lt_ℤ-cases, int_laws}
use os_scheduler.Base.Outcome.{done, load-done}
use os_scheduler.PriorityQueue.{PqueueNode, compare_priority, above, pq_swap}

-- what a read outside the array would give; no statement depends on it
abbrev pub blank : PqueueNode
blank = record { item = 0; priority = pos 0 }

abbrev pub node : List PqueueNode → ℕ → PqueueNode
node nodes i = get_or nodes i blank

-- the node `c` is not above the node `p`
abbrev pub Below : List PqueueNode → ℕ → ℕ → Type 0
Below nodes c p = (node nodes c).priority ≤ℤ (node nodes p).priority

abbrev pub up_index : ℕ → ℕ
up_index c = (c - 1) / 2

abbrev pub IsHeap : List PqueueNode → Type 0
IsHeap nodes = (c : ℕ) → 0 < c → c < length nodes → Below nodes c (up_index c)

-- A heap of exactly the nodes of `before`.
abbrev pub Reordered : List PqueueNode → List PqueueNode → Type 0
Reordered before after = IsHeap after × Perm after before

pub above-cases :
    (nodes : List PqueueNode) (i j : ℕ)
    → i < length nodes
    → j < length nodes
    → ((above nodes i j ≡ done true) × ((node nodes j).priority <ℤ (node nodes i).priority))
      ⊎ ((above nodes i j ≡ done false) × Below nodes i j)
unfolding above compare_priority
above-cases nodes i j hi hj =
    let a = node nodes i in
    let b = node nodes j in
    elim (lt_ℤ-cases (pos 0) (compare_priority a b)) [
      | inl (t, h) ↦
          inl (rw (load-done nodes i blank hi, load-done nodes j blank hj, t), omega int_laws)
      | inr (t, h) ↦
          inr (rw (load-done nodes i blank hi, load-done nodes j blank hj, t), omega int_laws)
    ]

abbrev pub swapped : List PqueueNode → ℕ → ℕ → List PqueueNode
swapped nodes i j = set (set nodes i (node nodes j)) j (node nodes i)

module _ (nodes : List PqueueNode) (i j : ℕ) (hi : i < length nodes) (hj : j < length nodes) where
  pub pq_swap-done : pq_swap nodes i j ≡ done (swapped nodes i j)
  unfolding pq_swap
  pq_swap-done = rw (load-done nodes i blank hi, load-done nodes j blank hj)

  pub node-swapped :
      (c : ℕ)
      → node (swapped nodes i j) c
        ≡ (if j == c then node nodes i else if i == c then node nodes j else node nodes c)
  node-swapped c = rw (
    get_or-set (set nodes i (node nodes j)) j c (node nodes i) blank (rw length-set hj),
    get_or-set nodes i c (node nodes j) blank hi,
  )

  pub length-swapped : length (swapped nodes i j) ≡ length nodes
  length-swapped = simp length-set

  pub swapped-perm : Perm (swapped nodes i j) nodes
  swapped-perm =
      let once = set nodes i (node nodes j) in
      let kept : node once j ≡ node nodes j =
        ground (arith, get_or-set nodes i j (node nodes j) blank hi) in
      let second = rw kept at (set-perm once j (node nodes i) blank (rw length-set hj)) in
      Perm.cons_inv (Perm.trans second (set-perm nodes i (node nodes j) blank hi))

front_least-Below :
    (k : ℕ) (nodes : List PqueueNode) (i : ℕ)
    → IsHeap nodes
    → i < k
    → i < length nodes
    → Below nodes i 0
front_least-Below zero nodes i heap fuel h = elim fuel [ ]
front_least-Below (suc k) nodes zero heap fuel h = omega arith
front_least-Below (suc k) nodes (suc i) heap fuel h = omega (
  arith,
  heap (suc i) (omega arith) h,
  front_least-Below k nodes (up_index (suc i)) heap (omega arith) (omega arith),
)

pub front_least :
    (nodes : List PqueueNode) (i : ℕ) → IsHeap nodes → i < length nodes → Below nodes i 0
front_least nodes i heap h = front_least-Below (suc i) nodes i heap (omega arith) h
