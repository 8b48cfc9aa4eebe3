-- ===== src/CircularQueue/Turn.antt =====
-- src/DS/circular_queue.c: the pointers implement turning the ring, and taking a node out of it.
use mathlib.Core.Path.{subst}
use mathlib.Core.List.{reverse_aux, append-nil, append_assoc}
use os_scheduler.Base.{
  ℕ, ◌-◌, ◌≡◌, refl, sym, ap, ◌∙◌, true, false, ◌||◌, Option, none, some, [], ◌∷◌, ◌++◌, arith,
  ◌==◌, reverse_aux_split,
}
use os_scheduler.Base.Outcome.{done, Ends, ends, Ends-weaken}
use os_scheduler.Nodes.{null, Heap}
use os_scheduler.Nodes.Chain.{
  Cells, occupies, Distinct, first_or, last_or, first_or-append, last_or-append, items-reverse_aux,
  ne-test, occupies-apart, occupies-append, same-test, deref-done,
}
use os_scheduler.Nodes.Swap.{Distinct-swap}
use os_scheduler.CircularQueue.{CircularQueue, cq_dequeue, cq_dequeue_and_remove, cq_front}
use os_scheduler.CircularQueue.Pointers
use os_scheduler.CircularQueue.Pointers.{QueuePointers}
use os_scheduler.CircularQueue.Ring.{
  IsRingOf, IsRingOf-rotate, occupies-last_or, cq_dequeue_and_remove-Removed,
  cq_dequeue_and_remove-alone,
}
use os_scheduler.CircularQueue.Refine.{Stands, Refines}

test-sym : (a b : ℕ) → (a == b) ≡ false → (b == a) ≡ false
test-sym a b e = ground arith

-- A node before the last is another.
before_last :
    (x y : ℕ × ℕ) (ws bs : Cells)
    → occupies x.0 (y ∷ (ws ++ bs)) ≡ false
    → (x.0 == last_or y.0 ws) ≡ false
before_last x y ws bs out =
    let both : (occupies x.0 (y ∷ ws) || occupies x.0 bs) ≡ false =
      sym (occupies-append x.0 (y ∷ ws) bs) ∙ out in
    let out_front : occupies x.0 (y ∷ ws) ≡ false = ground arith in
    test-sym _ _ (occupies-apart x.0 (last_or y.0 ws) (y ∷ ws) out_front (occupies-last_or y ws))

module _ (h : Heap) (q : QueuePointers) where
  -- The queue that the pointers stand for, and the answer.
  abbrev Answers : Option ℕ × CircularQueue → Option ℕ × QueuePointers → Type 0
  Answers (v, c) r = (r.0 ≡ v) × Refines c (h, r.1)

  dequeue_last :
      (passed : Cells) (x : ℕ × ℕ)
      → Stands h q passed (x ∷ [])
      → Stands h
          (record q { head = first_or x.0 (reverse_aux passed []) })
          []
          (reverse_aux passed (x ∷ []))
  dequeue_last passed x s =
      let split = reverse_aux_split passed (x ∷ []) in
      let bs = reverse_aux passed [] in
      rw split (record {
        ring =
            subst (IsRingOf h) (sym (append-nil (bs ++ x ∷ [])))
              (IsRingOf-rotate h (x ∷ []) bs s.ring);
        distinct =
            subst Distinct (sym (append-nil (bs ++ x ∷ []))) (Distinct-swap (x ∷ []) bs s.distinct);
        at_head = sym (first_or-append null bs (x ∷ []));
        at_tail = s.at_tail ∙ sym (last_or-append null bs (x ∷ []));
        some_wait = λ _. refl;
      })

  dequeue_next :
      (passed : Cells) (x y : ℕ × ℕ) (ws : Cells)
      → Stands h q passed (x ∷ y ∷ ws)
      → Stands h (record q { head = y.0 }) (x ∷ passed) (y ∷ ws)
  dequeue_next passed x y ws s =
      let split = reverse_aux_split passed (x ∷ []) in
      let bs = reverse_aux passed [] in
      let cells = append_assoc (y ∷ ws) bs (x ∷ []) in
      record {
        ring =
            rw split
              (subst (IsRingOf h) cells (IsRingOf-rotate h (x ∷ []) ((y ∷ ws) ++ bs) s.ring));
        distinct =
            rw split (subst Distinct cells (Distinct-swap (x ∷ []) ((y ∷ ws) ++ bs) s.distinct));
        at_head = refl;
        at_tail = s.at_tail;
        some_wait = λ e. cc;
      }

  -- cq_dequeue does not fault, and implements the operation on the ring of objects.
  pub cq_dequeue-Refines :
      (c : CircularQueue)
      → Refines c (h, q)
      → Ends (Answers (cq_dequeue c)) (Pointers.cq_dequeue h q)
  unfolding cq_dequeue Pointers.cq_dequeue
  cq_dequeue-Refines c (passed, [], s, e) =
      let empty : (q.head == null) ≡ true = ap (λ a. a == null) s.at_head in
      rw (e, empty) (ends (refl, (passed, [], s, refl)))
  cq_dequeue-Refines c (passed, x ∷ [], s, e) =
      let (real, held, _) = s.ring in
      rw (e, s.at_head, ne-test x.0 null real, deref-done h real held)
        (ends (
          refl,
          (
            [],
            reverse_aux passed (x ∷ []),
            dequeue_last passed x s,
            rw (items-reverse_aux passed (x ∷ [])),
          ),
        ))
  cq_dequeue-Refines c (passed, x ∷ y ∷ ws, s, e) =
      let (real, held, _) = s.ring in
      rw (e, s.at_head, ne-test x.0 null real, deref-done h real held)
        (ends (refl, (x ∷ passed, y ∷ ws, dequeue_next passed x y ws s, refl)))

  -- cq_front does not fault, and answers as on the ring of objects.
  pub cq_front-Refines :
      (c : CircularQueue) → Refines c (h, q) → Pointers.cq_front h q ≡ done (cq_front c)
  unfolding cq_front Pointers.cq_front
  cq_front-Refines c (passed, [], s, e) = rw (e, s.at_head)
  cq_front-Refines c (passed, x ∷ ws, s, e) =
      let (real, held, _) = s.ring in
      rw (e, s.at_head, ne-test x.0 null real, deref-done h real held)

  remove_empty : (q.head == null) ≡ true → Pointers.cq_dequeue_and_remove h q ≡ done (none, h, q)
  unfolding Pointers.cq_dequeue_and_remove
  remove_empty e = rw e

  stands_at :
      (x : ℕ × ℕ) (tail : ℕ)
      → q.head ≡ x.0
      → q.tail ≡ tail
      → q ≡ record { head = x.0; tail = tail; size = q.size }
  stands_at x tail at_head at_tail =
      λ i. record { head = at_head i; tail = at_tail i; size = q.size }

  -- What is left where the only waiting node is taken out.
  remove_last :
      (x : ℕ × ℕ) (bs : Cells)
      → IsRingOf h (x ∷ bs)
      → Distinct (x ∷ bs)
      → q.head ≡ x.0
      → q.tail ≡ x.0
      → Ends
          (λ r. (r.0 ≡ some x.1) × Stands r.1 r.2 [] bs × (r.2.size ≡ q.size - 1))
          (Pointers.cq_dequeue_and_remove h q)
  remove_last x [] ring distinct at_head at_tail =
      rw (stands_at x x.0 at_head at_tail, cq_dequeue_and_remove-alone h x x.0 q.size ring)
        (ends (
          refl,
          record {
            ring = tt;
            distinct = tt;
            at_head = refl;
            at_tail = refl;
            some_wait = λ _. refl;
          },
          refl,
        ))
  remove_last x (z ∷ zs) ring distinct at_head at_tail =
      let single = append-nil (z ∷ zs) in
      rw (stands_at x x.0 at_head at_tail) (
        Ends-weaken (cq_dequeue_and_remove-Removed h x x.0 q.size z zs ring distinct) λ r m.
          let e = rw (same-test x.0) at m.pointers in
          (
            m.answer,
            record {
              ring = subst (IsRingOf r.1) (sym single) m.ring;
              distinct = subst Distinct (sym single) distinct.1;
              at_head = ap QueuePointers.head e;
              at_tail = ap QueuePointers.tail e;
              some_wait = λ _. refl;
            },
            ap QueuePointers.size e,
          ))

  remove_next :
      (passed : Cells) (x y : ℕ × ℕ) (ws : Cells)
      → Stands h q passed (x ∷ y ∷ ws)
      → Ends
          (λ r. (r.0 ≡ some x.1) × Stands r.1 r.2 passed (y ∷ ws) × (r.2.size ≡ q.size - 1))
          (Pointers.cq_dequeue_and_remove h q)
  remove_next passed x y ws s =
      let bs = reverse_aux passed [] in
      let last = last_or y.0 ws in
      rw (stands_at x last s.at_head s.at_tail) (
        Ends-weaken (cq_dequeue_and_remove-Removed h x last q.size y (ws ++ bs) s.ring s.distinct)
          λ r m.
            let e = rw (before_last x y ws bs s.distinct.0) at m.pointers in
            (
              m.answer,
              record {
                ring = m.ring;
                distinct = s.distinct.1;
                at_head = ap QueuePointers.head e;
                at_tail = ap QueuePointers.tail e;
                some_wait = λ e. cc;
              },
              ap QueuePointers.size e,
            ))

  -- cq_dequeue_and_remove does not fault, gives the node back, and implements the operation on the
  -- ring of objects.
  pub cq_dequeue_and_remove-Refines :
      (c : CircularQueue)
      → Refines c (h, q)
      → Ends
          (λ r.
            (r.0 ≡ (cq_dequeue_and_remove c).0) × Refines (cq_dequeue_and_remove c).1 (r.1, r.2))
          (Pointers.cq_dequeue_and_remove h q)
  unfolding cq_dequeue_and_remove
  cq_dequeue_and_remove-Refines c (passed, [], s, e) =
      let empty : (q.head == null) ≡ true = ap (λ a. a == null) s.at_head in
      rw (e, remove_empty empty) (ends (refl, (passed, [], s, refl)))
  cq_dequeue_and_remove-Refines c (passed, x ∷ [], s, e) =
      let bs = reverse_aux passed [] in
      rw e (
        Ends-weaken (remove_last x bs s.ring s.distinct s.at_head s.at_tail)
          λ r (v, t, n). (v, ([], bs, t, rw (n, items-reverse_aux passed []))))
  cq_dequeue_and_remove-Refines c (passed, x ∷ y ∷ ws, s, e) =
      rw e (Ends-weaken (remove_next passed x y ws s) λ r (v, t, n). (v, (passed, y ∷ ws, t, rw n)))
