-- ===== src/CircularQueue/Ring.antt =====
-- The linked nodes of a ring, and the writes that put a node in and take one out.
use mathlib.Core.Path.{subst}
use mathlib.Core.List.{append-nil}
use os_scheduler.Base.{
  ℕ, ◌+◌, ◌-◌, ◌≡◌, ◌≢◌, inl, inr, refl, ◌∙◌, true, false, Option, none, some, [], ◌∷◌, ◌++◌, arith,
  ◌==◌, if◌then◌else◌,
}
use os_scheduler.Base.Outcome.{done, Ends, ends, Ends-bind}
use os_scheduler.Nodes.{null, Node, Heap, node, write}
use os_scheduler.Nodes.Chain.{
  Cells, occupies, Distinct, first_or, last_or, Linked, Linked-append, Linked-split, Linked-write,
  ne-test, occupies-apart, same-test, same_or_apart, write_self, write_other, last_or-append,
  deref-done, set_next-done, set_prev-done, free-done,
}
use os_scheduler.CircularQueue.Pointers.{QueuePointers, cq_enqueue, is_alone, cq_dequeue_and_remove}
use os_scheduler.Nodes.Relink.{SameOutside, set_next-Relinked, set_prev-Relinked}

abbrev pub IsRingOf : Heap → Cells → Type 0
IsRingOf h xs = Linked h (last_or null xs) xs (first_or null xs)

-- A ring can be read from any of its nodes on.
pub IsRingOf-rotate : (h : Heap) (xs ys : Cells) → IsRingOf h (xs ++ ys) → IsRingOf h (ys ++ xs)
IsRingOf-rotate h [] ys r = rw (append-nil ys) r
IsRingOf-rotate h (x ∷ xs) [] r = subst (IsRingOf h) (append-nil (x ∷ xs)) r
IsRingOf-rotate h (x ∷ xs) (y ∷ ys) r =
    let (left, right) = Linked-split h _ (x ∷ xs) (y ∷ ys) x.0 r in
    let end_x = last_or-append x.0 xs (y ∷ ys) in
    let end_y = last_or-append y.0 ys (x ∷ xs) in
    rw end_y (Linked-append h _ (y ∷ ys) (x ∷ xs) y.0 right (rw end_x at left))

-- What the last node of a run holds.
pub last_node :
    (h : Heap) (before : ℕ) (x : ℕ × ℕ) (xs : Cells) (behind : ℕ)
    → Linked h before (x ∷ xs) behind
    → (last_or x.0 xs ≢ null) × ((n : Node) × (h (last_or x.0 xs) ≡ some n) × (n.next ≡ behind))
last_node h before x [] behind l = (l.0, (_, l.1, refl))
last_node h before x (y ∷ ys) behind l = last_node h x.0 y ys behind l.2

pub occupies-last_or : (x : ℕ × ℕ) (xs : Cells) → occupies (last_or x.0 xs) (x ∷ xs) ≡ true
occupies-last_or x [] = ground arith
occupies-last_or x (y ∷ ys) = let ih = occupies-last_or y ys in ground arith

module _ (h : Heap) (q : QueuePointers) (z : ℕ × ℕ) (zs : Cells) (ring : IsRingOf h (z ∷ zs))
    (distinct : Distinct (z ∷ zs)) (at_tail : q.tail ≡ last_or z.0 zs) where
  -- The new node goes between the last and the first.
  pub cq_enqueue-IsRingOf :
      (new obj : ℕ)
      → new ≢ null
      → occupies new (z ∷ zs) ≡ false
      → Ends
          (λ r.
            IsRingOf r.0 ((z ∷ zs) ++ (new, obj) ∷ [])
            × (r.1 ≡ record { head = q.head; tail = new; size = q.size + 1 }))
          (cq_enqueue h q new obj)
  unfolding cq_enqueue
  cq_enqueue-IsRingOf new obj real out =
      let tail = last_or z.0 zs in
      let (real_tail, (n, at_last, goes_on)) = last_node h tail z zs z.0 ring in
      let some_tail = ne-test tail null real_tail in
      let apart = occupies-apart new tail (z ∷ zs) out (occupies-last_or z zs) in
      let h1 = write h new (some (node null null obj)) in
      let h2 = write h1 new (some (node z.0 null obj)) in
      let h3 = write h2 new (some (node z.0 tail obj)) in
      let old1 : h1 tail ≡ some n = write_other h new tail _ apart ∙ at_last in
      let old3 : h3 tail ≡ some n =
        write_other h2 new tail _ apart ∙ write_other h1 new tail _ apart ∙ old1 in
      let ring3 : Linked h3 tail (z ∷ zs) z.0 = Linked-write h2 tail (z ∷ zs) z.0 new _ out (
        Linked-write h1 tail (z ∷ zs) z.0 new _ out
          (Linked-write h tail (z ∷ zs) z.0 new _ out ring)) in
      rw
        (
          at_tail,
          some_tail,
          deref-done h1 real_tail old1,
          goes_on,
          set_next-done h1 real (write_self h new _) z.0,
          set_prev-done h2 real (write_self h1 new _) tail,
          deref-done h3 real_tail old3,
          goes_on,
        )
        (Ends-bind (set_prev-Relinked h3 tail z zs z.0 new distinct ring3) λ h4 r4.
          Ends-bind (set_next-Relinked h4 new z zs z.0 new distinct r4.linked) λ h5 r5. ends (
            rw (last_or-append z.0 zs ((new, obj) ∷ [])) (
                Linked-append h5 new (z ∷ zs) ((new, obj) ∷ []) z.0 r5.linked
                  (real, r5.same new out ∙ r4.same new out ∙ write_self h2 new _, tt)),
            refl,
          ))

-- What cq_dequeue_and_remove leaves where other nodes remain.
pub record Removed (h : Heap) (tail size : ℕ) (a z : ℕ × ℕ) (zs : Cells)
    (r : Option ℕ × Heap × QueuePointers) : Type 0 where
  pub answer : r.0 ≡ some a.1
  pub ring : IsRingOf r.1 (z ∷ zs)
  pub freed : r.1 a.0 ≡ none
  pub same : SameOutside (a ∷ z ∷ zs) h r.1
  pub pointers :
      r.2
      ≡ record { head = z.0; tail = if a.0 == tail then last_or z.0 zs else tail; size = size - 1 }

apart_of : (a z : ℕ × ℕ) (zs : Cells) → occupies a.0 (z ∷ zs) ≡ false → (a.0 == z.0) ≡ false
apart_of a z zs out = ground arith

module _ (h : Heap) (a : ℕ × ℕ) (tail size : ℕ) where
  is_alone-false :
      {n : Node}
      → a.0 ≢ null
      → h a.0 ≡ some n
      → (a.0 == n.next) ≡ false
      → is_alone h (record { head = a.0; tail = tail; size = size }) ≡ done false
  unfolding is_alone
  is_alone-false real held apart = elim (same_or_apart a.0 tail) [
    | inl e ↦ rw (e, same-test a.0, deref-done h real held, apart)
    | inr e ↦ rw e
  ]

  pub cq_dequeue_and_remove-Removed :
      (z : ℕ × ℕ) (zs : Cells)
      → IsRingOf h (a ∷ z ∷ zs)
      → Distinct (a ∷ z ∷ zs)
      → Ends
          (Removed h tail size a z zs)
          (cq_dequeue_and_remove h (record { head = a.0; tail = tail; size = size }))
  unfolding cq_dequeue_and_remove
  cq_dequeue_and_remove-Removed z zs (real, held, rest) (out, distinct) =
      let last = last_or z.0 zs in
      let alone = is_alone-false real held (apart_of a z zs out) in
      rw (ne-test a.0 null real, deref-done h real held, alone)
        (Ends-bind (set_next-Relinked h a.0 z zs a.0 z.0 distinct rest) λ h1 r1.
          let held1 = r1.same a.0 out ∙ held in
          rw (deref-done h1 real held1) (
            Ends-bind (set_prev-Relinked h1 a.0 z zs z.0 last distinct r1.linked) λ h2 r2.
              let held2 = r2.same a.0 out ∙ held1 in
              rw (deref-done h2 real held2, free-done h2 real held2)
                (ends (record {
                  answer = refl;
                  ring = Linked-write h2 last (z ∷ zs) z.0 a.0 none out r2.linked;
                  freed = write_self h2 a.0 none;
                  same = λ b other.
                      write_other h2 a.0 b none (ground arith)
                      ∙ r2.same b (ground arith)
                      ∙ r1.same b (ground arith);
                  pointers = refl;
                }))))

  -- The only node is given back.
  pub cq_dequeue_and_remove-alone :
      IsRingOf h (a ∷ [])
      → cq_dequeue_and_remove h (record { head = a.0; tail = a.0; size = size })
        ≡ done (some a.1, write h a.0 none, record { head = null; tail = null; size = size - 1 })
  unfolding cq_dequeue_and_remove is_alone
  cq_dequeue_and_remove-alone (real, held, _) =
      rw (ne-test a.0 null real, deref-done h real held, same-test a.0, free-done h real held)
