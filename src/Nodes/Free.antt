-- ===== src/Nodes/Free.antt =====
-- The loop of cq_free and free_linked_list gives every node back, and touches nothing else.
use os_scheduler.Base.{
  ℕ, zero, suc, ◌<◌, ◌≡◌, inl, inr, refl, ◌∙◌, true, false, none, [], ◌∷◌, arith, length,
}
use os_scheduler.Base.Outcome.{Ends, ends, Ends-weaken}
use os_scheduler.Nodes.{null, Heap, write, free_nodes}
use os_scheduler.Nodes.Chain.{
  Cells, occupies, Distinct, first_or, Linked, Linked-write, write_self, write_other, same_or_apart,
  ne-test, deref-done, free-done,
}

pub record Freed (xs : Cells) (h h' : Heap) : Type 0 where
  pub gone : (a : ℕ) → occupies a xs ≡ true → h' a ≡ none
  pub kept : (a : ℕ) → occupies a xs ≡ false → h' a ≡ h a

Freed-step :
    (x : ℕ × ℕ) (xs : Cells) (h h' : Heap)
    → occupies x.0 xs ≡ false
    → Freed xs (write h x.0 none) h'
    → Freed (x ∷ xs) h h'
Freed-step x xs h h' out f = record {
  gone = λ a inside. elim (same_or_apart a x.0) [
    | inl e ↦ rw e at (f.kept x.0 out ∙ write_self h x.0 none)
    | inr e ↦ f.gone a (ground arith)
  ];
  kept = λ a outside. f.kept a (ground arith) ∙ write_other h x.0 a none (ground arith);
}

pub free_nodes-Freed :
    (fuel : ℕ) (h : Heap) (before : ℕ) (xs : Cells)
    → length xs < fuel
    → Distinct xs
    → Linked h before xs null
    → Ends (Freed xs h) (free_nodes fuel h (first_or null xs))
unfolding free_nodes
free_nodes-Freed zero h before xs enough d l = absurd (omega arith)
free_nodes-Freed (suc fuel) h before [] enough d l =
    ends (record { gone = λ a e. absurd (ground arith); kept = λ a e. refl })
free_nodes-Freed (suc fuel) h before (x ∷ xs) enough d l =
    let (real, held, rest) = l in
    let rest_after = Linked-write h x.0 xs null x.0 none d.0 rest in
    rw (ne-test x.0 null real, deref-done h real held, free-done h real held)
      (Ends-weaken (free_nodes-Freed fuel (write h x.0 none) x.0 xs (omega arith) d.1 rest_after)
        λ h' f. Freed-step x xs h h' d.0 f)
