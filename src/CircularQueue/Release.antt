-- ===== src/CircularQueue/Release.antt =====
-- src/DS/circular_queue.c: cq_free gives every node of the ring back.
use mathlib.Core.List.{reverse_aux}
use os_scheduler.Base.{ℕ, ◌<◌, ◌≡◌, refl, sym, ◌∙◌, [], ◌∷◌, ◌++◌, arith, length, length-append}
use os_scheduler.Base.Outcome.{done, Ends, ends, Ends-weaken, Ends-bind}
use os_scheduler.Nodes.{null, Heap}
use os_scheduler.Nodes.Chain.{
  Cells, occupies, Distinct, last_or, occupies-append, last_or-append, ne-test, deref-done,
}
use os_scheduler.Nodes.Swap.{Distinct-swap}
use os_scheduler.Nodes.Relink.{set_next-Relinked}
use os_scheduler.Nodes.Free.{Freed, free_nodes-Freed}
use os_scheduler.CircularQueue.Pointers.{QueuePointers, cq_free}
use os_scheduler.CircularQueue.Ring.{IsRingOf, IsRingOf-rotate, last_node}
use os_scheduler.CircularQueue.Refine.{round, Stands}

module _ (fuel : ℕ) (h : Heap) (q : QueuePointers) where
  free_ring :
      (z : ℕ × ℕ) (zs : Cells)
      → length (z ∷ zs) < fuel
      → IsRingOf h (z ∷ zs)
      → Distinct (z ∷ zs)
      → q.tail ≡ last_or z.0 zs
      → Ends (Freed (z ∷ zs) h) (cq_free fuel h q)
  unfolding cq_free
  free_ring z zs enough ring distinct at_tail =
      let last = last_or z.0 zs in
      let (real, (n, held, goes_on)) = last_node h last z zs z.0 ring in
      rw (at_tail, ne-test last null real, deref-done h real held, goes_on)
        (Ends-bind (set_next-Relinked h last z zs z.0 null distinct ring) λ h1 r1.
          Ends-weaken (free_nodes-Freed fuel h1 last (z ∷ zs) enough distinct r1.linked)
            λ h2 f. record { gone = f.gone; kept = λ a out. f.kept a out ∙ r1.same a out })

  occupies-swap : (a : ℕ) (xs ys : Cells) → occupies a (xs ++ ys) ≡ occupies a (ys ++ xs)
  occupies-swap a xs ys = rw (occupies-append a xs ys, occupies-append a ys xs) (ground arith)

  free_swapped : (xs ys : Cells) (h' : Heap) → Freed (xs ++ ys) h h' → Freed (ys ++ xs) h h'
  free_swapped xs ys h' f = record {
    gone = λ a e. f.gone a (occupies-swap a xs ys ∙ e);
    kept = λ a e. f.kept a (occupies-swap a xs ys ∙ e);
  }

  free_none : q.tail ≡ null → cq_free fuel h q ≡ done h
  unfolding cq_free
  free_none e = rw e

  -- With more fuel than nodes, cq_free ends without a fault, every node of the ring is given back
  -- and nothing else is touched.
  pub cq_free-Freed :
      (passed waiting : Cells)
      → length (round passed waiting) < fuel
      → Stands h q passed waiting
      → Ends (Freed (round passed waiting) h) (cq_free fuel h q)
  cq_free-Freed passed [] enough s =
      rw (s.some_wait refl, free_none s.at_tail)
        (ends (record { gone = λ a e. absurd (ground arith); kept = λ a e. refl }))
  cq_free-Freed passed (x ∷ xs) enough s = go (reverse_aux passed []) enough s.ring s.distinct
    where
      go :
          (bs : Cells)
          → length ((x ∷ xs) ++ bs) < fuel
          → IsRingOf h ((x ∷ xs) ++ bs)
          → Distinct ((x ∷ xs) ++ bs)
          → Ends (Freed ((x ∷ xs) ++ bs) h) (cq_free fuel h q)
      go [] enough ring distinct =
          free_ring x (xs ++ []) enough ring distinct (s.at_tail ∙ sym (last_or-append x.0 xs []))
      go (b ∷ bs) enough ring distinct =
          Ends-weaken
            (free_ring b (bs ++ x ∷ xs)
              (omega
                (arith, length-append (x ∷ xs) (b ∷ bs), length-append (b ∷ bs) (x ∷ xs), enough))
              (IsRingOf-rotate h (x ∷ xs) (b ∷ bs) ring) (Distinct-swap (x ∷ xs) (b ∷ bs) distinct)
              (s.at_tail ∙ sym (last_or-append b.0 bs (x ∷ xs))))
            λ h' f. free_swapped (b ∷ bs) (x ∷ xs) h' f
