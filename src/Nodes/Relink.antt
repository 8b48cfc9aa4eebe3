-- ===== src/Nodes/Relink.antt =====
-- Writing the pointers at the ends of a run of linked nodes.
use os_scheduler.Base.{ℕ, ◌≡◌, ◌∙◌, true, false, [], ◌∷◌, arith}
use os_scheduler.Base.Outcome.{Ends, ends, Ends-weaken}
use os_scheduler.Nodes.{Heap, write, set_next, set_prev}
use os_scheduler.Nodes.Chain.{
  Cells, occupies, Distinct, last_or, Linked, Linked-write, set_next-done, set_prev-done,
}

-- The heaps differ at most at the nodes of the run.
abbrev pub SameOutside : Cells → Heap → Heap → Type 0
SameOutside xs h h' = (a : ℕ) → occupies a xs ≡ false → h' a ≡ h a

pub Linked-frame :
    (h h' : Heap) (before : ℕ) (xs : Cells) (behind : ℕ)
    → ((a : ℕ) → occupies a xs ≡ true → h' a ≡ h a)
    → Linked h before xs behind
    → Linked h' before xs behind
Linked-frame h h' before [] behind same l = tt
Linked-frame h h' before (x ∷ xs) behind same l = (
  l.0,
  same x.0 (ground arith) ∙ l.1,
  Linked-frame h h' x.0 xs behind (λ a inside. same a (ground arith)) l.2,
)

-- The run between other neighbours.
pub record Relinked (h : Heap) (xs : Cells) (before behind : ℕ) (h' : Heap) : Type 0 where
  pub linked : Linked h' before xs behind
  pub same : SameOutside xs h h'

-- The `next` of the last node is written.
pub set_next-Relinked :
    (h : Heap) (before : ℕ) (x : ℕ × ℕ) (xs : Cells) (behind q : ℕ)
    → Distinct (x ∷ xs)
    → Linked h before (x ∷ xs) behind
    → Ends (Relinked h (x ∷ xs) before q) (set_next h (last_or x.0 xs) q)
unfolding write
set_next-Relinked h before x [] behind q d l =
    rw (set_next-done h l.0 l.1 q)
      (ends (record { linked = (l.0, ground arith, tt); same = λ a out. ground arith }))
set_next-Relinked h before x (y ∷ ys) behind q d l =
    Ends-weaken (set_next-Relinked h x.0 y ys behind q d.1 l.2) λ h' r. record {
      linked = (l.0, r.same x.0 d.0 ∙ l.1, r.linked);
      same = λ a out. r.same a (ground arith);
    }

-- The `prev` of the first node is written.
pub set_prev-Relinked :
    (h : Heap) (before : ℕ) (x : ℕ × ℕ) (xs : Cells) (behind q : ℕ)
    → Distinct (x ∷ xs)
    → Linked h before (x ∷ xs) behind
    → Ends (Relinked h (x ∷ xs) q behind) (set_prev h x.0 q)
unfolding write
set_prev-Relinked h before x xs behind q d l = rw (set_prev-done h l.0 l.1 q) (
    ends (record {
      linked = (l.0, ground arith, Linked-write h x.0 xs behind x.0 _ d.0 l.2);
      same = λ a out. ground arith;
    }))
