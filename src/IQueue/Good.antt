-- ===== src/IQueue/Good.antt =====
-- src/DS/IQueue.c: when a queue is good, and what the interface says of its objects.
use native.Mathlib.Bridge.{le_prop}
use mathlib.Core.List.Perm
use mathlib.Core.List.{append-nil, append_assoc, perm_middle}
use os_scheduler.Base.Int.{ℤ}
use os_scheduler.Base.{
  ℕ, ◌+◌, ◌<◌, ◌≡◌, ◌≢◌, refl, sym, ◌∙◌, map, ap, inl, inr, true, false, Option, none, some, List,
  [], ◌∷◌, ◌++◌, arith, ◌⊎◌, length-perm, length, All, All-perm, All-reverse_aux, Perm,
}
use os_scheduler.PriorityQueue
use os_scheduler.PriorityQueue.{PqueueNode, PriorityQueue, pq_is_empty, pq_size, pq_front}
use os_scheduler.PriorityQueue.Queue.{IsQueue, entry, priority_queue-IsQueue}
use os_scheduler.CircularQueue.{
  CircularQueue, circular_queue, advance, head?, removed, cq_enqueue, cq_is_empty,
}
use os_scheduler.CircularQueue.Order.{IsRing, circular_queue-IsRing}
use os_scheduler.IQueue.{SchedulingAlgorithm, IQueue, circular, priority, init_queue, is_empty}

abbrev pub IsGood : IQueue → Type 0
IsGood (circular q) = IsRing q
IsGood (priority q) = IsQueue q

-- Every object in the queue is an address below `k`.
abbrev pub Within : ℕ → IQueue → Type 0
Within k (circular q) = All (λ p. p < k) q.waiting × All (λ p. p < k) q.passed
Within k (priority q) = All (λ (n : PqueueNode). n.item < k) q.nodes

-- The queue that init_queue makes for the algorithm.
abbrev pub Serves : SchedulingAlgorithm → IQueue → Type 0
Serves SchedulingAlgorithm.rr (circular _) = Unit {0}
Serves SchedulingAlgorithm.rr (priority _) = ⊥
Serves SchedulingAlgorithm.hpf (circular _) = ⊥
Serves SchedulingAlgorithm.hpf (priority _) = Unit {0}
Serves SchedulingAlgorithm.srtn (circular _) = ⊥
Serves SchedulingAlgorithm.srtn (priority _) = Unit {0}

-- The running object, if the queue is a ring, stands at its head.
abbrev pub AtFront : (current : Option ℕ) → IQueue → Type 0
AtFront none q = Unit {0}
AtFront (some p) (circular q) = head? q.waiting ≡ some p
AtFront (some p) (priority q) = Unit {0}

-- An operation keeps the queue good, of its kind, and within any bound that it met.
pub record Keeps (q q' : IQueue) : Type 0 where
  pub good : IsGood q'
  pub serves : (a : SchedulingAlgorithm) → Serves a q → Serves a q'
  pub within : (k : ℕ) → Within k q → Within k q'

-- The answer, if any, is one of the objects.
abbrev pub Answers : IQueue → Option ℕ → Type 0
Answers q none = is_empty q ≡ true
Answers q (some p) = (is_empty q ≡ false) × ((k : ℕ) → Within k q → p < k)

pub All-nodes :
    (k : ℕ) {xs ys : List PqueueNode}
    → Perm xs ys
    → All (λ (n : PqueueNode). n.item < k) xs
    → All (λ (n : PqueueNode). n.item < k) ys
All-nodes k perm h = All-perm (λ (n : PqueueNode). n.item < k) (λ n. le_prop) perm h

pub init_queue_correct :
    (a : SchedulingAlgorithm)
    → IsGood (init_queue a) × Serves a (init_queue a) × Within 0 (init_queue a)
unfolding init_queue PriorityQueue.priority_queue circular_queue
init_queue_correct SchedulingAlgorithm.rr = (circular_queue-IsRing, tt, (tt, tt))
init_queue_correct SchedulingAlgorithm.hpf = (priority_queue-IsQueue, tt, tt)
init_queue_correct SchedulingAlgorithm.srtn = (priority_queue-IsQueue, tt, tt)

-- The objects of the list have been put in the queue, in this order, with these priorities.
abbrev pub Filled : IQueue → List (ℕ × ℤ) → IQueue → Type 0
Filled (circular q) objs (circular q') =
    (q'.passed ≡ q.passed) × (q'.waiting ≡ q.waiting ++ map (λ (o : ℕ × ℤ). o.0) objs)
Filled (priority q) objs (priority q') =
    Perm q'.nodes (map (λ (o : ℕ × ℤ). entry o.0 o.1) objs ++ q.nodes)
Filled (circular q) objs (priority q') = ⊥
Filled (priority q) objs (circular q') = ⊥

pub Filled-nothing : (q : IQueue) → Filled q [] q
Filled-nothing (circular q) = (refl, sym (append-nil q.waiting))
Filled-nothing (priority q) = Perm.refl q.nodes

pub Filled-more :
    (q q' q'' : IQueue) (obj : ℕ) (p : ℤ) (more : List (ℕ × ℤ))
    → Filled q ((obj, p) ∷ []) q'
    → Filled q' more q''
    → Filled q ((obj, p) ∷ more) q''
Filled-more (circular q) (circular q') (circular q'') obj p more (passed, first) (passed', then') =
    (
      passed' ∙ passed,
      then'
          ∙ ap (λ l. l ++ map (λ (o : ℕ × ℤ). o.0) more) first
          ∙ append_assoc q.waiting (obj ∷ []) (map (λ (o : ℕ × ℤ). o.0) more),
    )
Filled-more (priority q) (priority q') (priority q'') obj p more first then' =
    let rest = map (λ (o : ℕ × ℤ). entry o.0 o.1) more in
    Perm.trans then' (Perm.trans (Perm.append_left rest first) (perm_middle rest q.nodes))
Filled-more (circular q) (priority q') q'' obj p more first then' = elim first [ ]
Filled-more (priority q) (circular q') q'' obj p more first then' = elim first [ ]
Filled-more (circular q) (circular q') (priority q'') obj p more first then' = elim then' [ ]
Filled-more (priority q) (priority q') (circular q'') obj p more first then' = elim then' [ ]

-- What enqueue leaves.
pub record Added (q : IQueue) (obj : ℕ) (p : ℤ) (q' : IQueue) : Type 0 where
  pub good : IsGood q'
  pub serves : (a : SchedulingAlgorithm) → Serves a q → Serves a q'
  pub within : (k : ℕ) → Within k q → obj < k → Within k q'
  pub at_front : (current : Option ℕ) → AtFront current q → AtFront current q'
  pub filled : Filled q ((obj, p) ∷ []) q'

pub Serves-circular :
    (a : SchedulingAlgorithm) (q q' : CircularQueue)
    → Serves a (circular q)
    → Serves a (circular q')
Serves-circular SchedulingAlgorithm.rr q q' h = h
Serves-circular SchedulingAlgorithm.hpf q q' h = h
Serves-circular SchedulingAlgorithm.srtn q q' h = h

pub Serves-priority :
    (a : SchedulingAlgorithm) (q q' : PriorityQueue)
    → Serves a (priority q)
    → Serves a (priority q')
Serves-priority SchedulingAlgorithm.rr q q' h = h
Serves-priority SchedulingAlgorithm.hpf q q' h = h
Serves-priority SchedulingAlgorithm.srtn q q' h = h

pub AtFront-priority : (current : Option ℕ) (q : PriorityQueue) → AtFront current (priority q)
AtFront-priority none q = tt
AtFront-priority (some p) q = tt

pub AtFront-enqueue :
    (current : Option ℕ) (q : CircularQueue) (obj : ℕ)
    → AtFront current (circular q)
    → AtFront current (circular (cq_enqueue q obj))
unfolding cq_enqueue
AtFront-enqueue none q obj h = tt
AtFront-enqueue (some p) q obj h = go q.waiting h
  where
    go : (waiting : List ℕ) → head? waiting ≡ some p → head? (waiting ++ obj ∷ []) ≡ some p
    go [] h = absurd cc
    go (x ∷ waiting) h = h

-- What dequeue returns and leaves.
pub record Served (q : IQueue) (r : Option ℕ × IQueue) : Type 0 where
  pub keeps : Keeps q r.1
  pub answer : Answers q r.0

-- `head` moves on, or its node is taken out: the objects that are left are among those before.
pub Within-advance :
    (k : ℕ) (passed waiting : List ℕ)
    → All (λ p. p < k) waiting × All (λ p. p < k) passed
    → All (λ p. p < k) (advance passed waiting).1 × All (λ p. p < k) (advance passed waiting).0
Within-advance k passed [] h = h
Within-advance k passed (x ∷ []) h = (All-reverse_aux (λ p. p < k) passed (x ∷ []) h.1 h.0, tt)
Within-advance k passed (x ∷ y ∷ waiting) h = (h.0.1, (h.0.0, h.1))

pub Within-removed :
    (k size : ℕ) (passed waiting : List ℕ)
    → Within k (circular (record { passed = passed; waiting = waiting; size = size }))
    → Within k
        (circular (removed waiting (record { passed = passed; waiting = waiting; size = size })))
Within-removed k size passed [] h = h
Within-removed k size passed (x ∷ []) h = (All-reverse_aux (λ p. p < k) passed [] h.1 tt, tt)
Within-removed k size passed (x ∷ y ∷ waiting) h = (h.0.1, h.1)

pub circular_Answers : (q : CircularQueue) → IsRing q → Answers (circular q) (head? q.waiting)
unfolding is_empty cq_is_empty
circular_Answers q v = go q.passed q.waiting q.size v.at_head v.counted
  where
    go :
        (passed waiting : List ℕ) (size : ℕ)
        → (waiting ≡ [] → passed ≡ [])
        → size ≡ length passed + length waiting
        → Answers
            (circular (record { passed = passed; waiting = waiting; size = size }))
            (head? waiting)
    go passed [] size h c = ground (arith, ap length (h refl))
    go passed (x ∷ waiting) size h c = (ground arith, λ k w. w.0.0)

pub priority_Answers :
    (q : PriorityQueue) (n : PqueueNode) (rest : List PqueueNode)
    → Perm (n ∷ rest) q.nodes
    → Answers (priority q) (some n.item)
unfolding is_empty pq_is_empty pq_size
priority_Answers q n rest same =
    (ground (arith, length-perm same), λ k h. (All-nodes k (Perm.symm same) h).0)

pub no_nodes : (q : PriorityQueue) → q.nodes ≡ [] → is_empty (priority q) ≡ true
unfolding is_empty pq_is_empty pq_size
no_nodes q e = ground (arith, ap length e)

pub nodes-cases : (xs : List PqueueNode) → (xs ≡ []) ⊎ (xs ≢ [])
nodes-cases [] = inl refl
nodes-cases (x ∷ xs) = inr λ e. cc
