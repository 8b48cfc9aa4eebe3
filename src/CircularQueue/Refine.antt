-- ===== src/CircularQueue/Refine.antt =====
-- src/DS/circular_queue.c: the pointers implement the ring of objects.
use mathlib.Core.Path.{subst}
use mathlib.Core.List.{reverse_aux, append-nil, append_assoc}
use os_scheduler.Base.{ℕ, ◌+◌, ◌≡◌, ◌≢◌, refl, sym, ap, ◌∙◌, none, some, [], ◌∷◌, ◌++◌}
use os_scheduler.Base.Outcome.{Ends, ends, Ends-weaken}
use os_scheduler.Nodes.{null, Heap, node, write}
use os_scheduler.Nodes.Chain.{
  Cells, Distinct, first_or, last_or, items, last_or-append, items-append, Linked-fresh,
  set_next-done, set_prev-done, write_self,
}
use os_scheduler.Nodes.Swap.{Distinct-swap}
use os_scheduler.CircularQueue.{CircularQueue, circular_queue, cq_enqueue}
use os_scheduler.CircularQueue.Pointers
use os_scheduler.CircularQueue.Pointers.{QueuePointers}
use os_scheduler.CircularQueue.Ring.{IsRingOf, IsRingOf-rotate, cq_enqueue-IsRingOf}

-- The nodes from `head` on, once round the ring.
abbrev pub round : (passed waiting : Cells) → Cells
round passed waiting = waiting ++ reverse_aux passed []

abbrev pub view : (passed waiting : Cells) → ℕ → CircularQueue
view passed waiting size = record { passed = items passed; waiting = items waiting; size = size }

-- The pointers, with the heap, stand for the nodes.
pub record Stands (h : Heap) (q : QueuePointers) (passed waiting : Cells) : Type 0 where
  pub ring : IsRingOf h (round passed waiting)
  pub distinct : Distinct (round passed waiting)
  pub at_head : q.head ≡ first_or null waiting
  pub at_tail : q.tail ≡ last_or null waiting
  pub some_wait : waiting ≡ [] → passed ≡ []

-- The pointers, with the heap, implement the queue.
abbrev pub Refines : CircularQueue → Heap × QueuePointers → Type 0
Refines c (h, q) =
    (passed : Cells) × (waiting : Cells) × Stands h q passed waiting
    × (c ≡ view passed waiting q.size)

-- circular_queue's queue is empty.
pub circular_queue-Refines : (h : Heap) → Refines circular_queue (h, Pointers.circular_queue)
unfolding circular_queue Pointers.circular_queue
circular_queue-Refines h = (
  [],
  [],
  record { ring = tt; distinct = tt; at_head = refl; at_tail = refl; some_wait = λ _. refl },
  refl,
)

module _ (h : Heap) (q : QueuePointers) (new obj : ℕ) (real : new ≢ null) where
  -- The first node of an empty queue.
  enqueue_first :
      (passed : Cells)
      → Stands h q passed []
      → Ends (Refines (cq_enqueue (view passed [] q.size) obj)) (Pointers.cq_enqueue h q new obj)
  unfolding cq_enqueue Pointers.cq_enqueue
  enqueue_first passed s =
      let h1 = write h new (some (node null null obj)) in
      let h2 = write h1 new (some (node new null obj)) in
      rw
        (
          s.at_tail,
          set_next-done h1 real (write_self h new _) new,
          set_prev-done h2 real (write_self h1 new _) new,
        )
        (ends (
          [],
          (new, obj) ∷ [],
          record {
            ring = (real, write_self h2 new _, tt);
            distinct = (refl, tt);
            at_head = refl;
            at_tail = refl;
            some_wait = λ e. cc;
          },
          rw (s.some_wait refl),
        ))

  enqueue_ring :
      (x : ℕ × ℕ) (xs bs : Cells)
      → h new ≡ none
      → IsRingOf h ((x ∷ xs) ++ bs)
      → Distinct ((x ∷ xs) ++ bs)
      → q.tail ≡ last_or x.0 xs
      → Ends
          (λ r.
            IsRingOf r.0 (((x ∷ xs) ++ (new, obj) ∷ []) ++ bs)
            × (r.1 ≡ record { head = q.head; tail = new; size = q.size + 1 }))
          (Pointers.cq_enqueue h q new obj)
  enqueue_ring x xs [] empty ring distinct at_tail =
      let all = append-nil (x ∷ xs) in
      let ring_all = subst (IsRingOf h) all ring in
      let out = Linked-fresh h _ (x ∷ xs) _ new empty ring_all in
      Ends-weaken
        (cq_enqueue-IsRingOf h q x xs ring_all (subst Distinct all distinct) at_tail new obj real
          out)
        λ r s. (subst (IsRingOf r.0) (sym (append-nil ((x ∷ xs) ++ (new, obj) ∷ []))) s.0, s.1)
  enqueue_ring x xs (b ∷ bs) empty ring distinct at_tail =
      let turned = IsRingOf-rotate h (x ∷ xs) (b ∷ bs) ring in
      let out = Linked-fresh h _ ((b ∷ bs) ++ x ∷ xs) _ new empty turned in
      Ends-weaken
        (cq_enqueue-IsRingOf h q b (bs ++ x ∷ xs) turned (Distinct-swap (x ∷ xs) (b ∷ bs) distinct)
          (at_tail ∙ sym (last_or-append b.0 bs (x ∷ xs))) new obj real out)
        λ r s.
          let together = append_assoc (b ∷ bs) (x ∷ xs) ((new, obj) ∷ []) in
          (IsRingOf-rotate r.0 (b ∷ bs) _ (subst (IsRingOf r.0) together s.0), s.1)

  enqueue-Distinct :
      (x : ℕ × ℕ) (xs bs : Cells)
      → h new ≡ none
      → IsRingOf h ((x ∷ xs) ++ bs)
      → Distinct ((x ∷ xs) ++ bs)
      → Distinct (((x ∷ xs) ++ (new, obj) ∷ []) ++ bs)
  enqueue-Distinct x xs bs empty ring distinct =
      let turned = IsRingOf-rotate h (x ∷ xs) bs ring in
      let out = Linked-fresh h _ (bs ++ x ∷ xs) _ new empty turned in
      subst Distinct (sym (append_assoc (x ∷ xs) ((new, obj) ∷ []) bs))
        (Distinct-swap ((new, obj) ∷ bs) (x ∷ xs) (out, Distinct-swap (x ∷ xs) bs distinct))

  enqueue_last :
      (passed : Cells) (x : ℕ × ℕ) (xs : Cells)
      → h new ≡ none
      → Stands h q passed (x ∷ xs)
      → Ends
          (Refines (cq_enqueue (view passed (x ∷ xs) q.size) obj))
          (Pointers.cq_enqueue h q new obj)
  unfolding cq_enqueue
  enqueue_last passed x xs empty s =
      let bs = reverse_aux passed [] in
      Ends-weaken (enqueue_ring x xs bs empty s.ring s.distinct s.at_tail) λ r (ring, e). (
        passed,
        (x ∷ xs) ++ (new, obj) ∷ [],
        record {
          ring = ring;
          distinct = enqueue-Distinct x xs bs empty s.ring s.distinct;
          at_head = ap QueuePointers.head e ∙ s.at_head;
          at_tail = ap QueuePointers.tail e ∙ sym (last_or-append x.0 xs ((new, obj) ∷ []));
          some_wait = λ e. cc;
        },
        rw (e, items-append xs ((new, obj) ∷ [])),
      )

  -- cq_enqueue, with a new node at an address that was free, does not fault and implements the
  -- operation on the ring of objects.
  pub cq_enqueue-Refines :
      (c : CircularQueue)
      → h new ≡ none
      → Refines c (h, q)
      → Ends (Refines (cq_enqueue c obj)) (Pointers.cq_enqueue h q new obj)
  cq_enqueue-Refines c empty (passed, [], s, e) = rw e (enqueue_first passed s)
  cq_enqueue-Refines c empty (passed, x ∷ xs, s, e) = rw e (enqueue_last passed x xs empty s)
