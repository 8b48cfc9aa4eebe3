-- ===== src/Nodes/Chain.antt =====
-- What a run of linked nodes stands for: the addresses and the objects, in order.
use mathlib.Core.Bool.{or_assoc}
use mathlib.Core.List.{reverse_aux}
use os_scheduler.Base.{
  ℕ, ◌≡◌, ◌≢◌, ◌⊎◌, inl, inr, refl, sym, ap, ◌∙◌, Bool, true, false, ◌||◌, Option, none, some, List,
  [], ◌∷◌, ◌++◌, arith, ◌==◌,
}
use os_scheduler.Base.Outcome.{done}
use os_scheduler.Nodes.{null, Node, Heap, node, write, deref, set_next, set_prev, free}

-- An address and an object each.
abbrev pub Cells : Type 0
Cells = List (ℕ × ℕ)

abbrev pub occupies : (address : ℕ) → Cells → Bool
occupies address [] = false
occupies address (x ∷ xs) = address == x.0 || occupies address xs

abbrev pub Distinct : Cells → Type 0
Distinct [] = Unit {0}
Distinct ((p, _) ∷ xs) = (occupies p xs ≡ false) × Distinct xs

abbrev pub first_or : ℕ → Cells → ℕ
first_or d [] = d
first_or d ((p, _) ∷ _) = p

abbrev pub last_or : ℕ → Cells → ℕ
last_or d [] = d
last_or d ((p, _) ∷ xs) = last_or p xs

abbrev pub items : Cells → List ℕ
items [] = []
items ((_, v) ∷ xs) = v ∷ items xs

-- The nodes stand at the addresses, linked both ways, between the nodes `before` and `behind`.
abbrev pub Linked : Heap → (before : ℕ) → Cells → (behind : ℕ) → Type 0
Linked h before [] behind = Unit {0}
Linked h before ((p, v) ∷ xs) behind =
    (p ≢ null) × (h p ≡ some (node (first_or behind xs) before v)) × Linked h p xs behind

pub occupies-append :
    (a : ℕ) (front back : Cells)
    → occupies a (front ++ back) ≡ (occupies a front || occupies a back)
occupies-append a [] back = refl
occupies-append a (x ∷ front) back =
    ap (λ t. a == x.0 || t) (occupies-append a front back)
    ∙ sym (or_assoc (a == x.0) (occupies a front) (occupies a back))

pub first_or-append : (d : ℕ) (xs ys : Cells) → first_or d (xs ++ ys) ≡ first_or (first_or d ys) xs
first_or-append d [] ys = refl
first_or-append d (x ∷ xs) ys = refl

pub last_or-append : (d : ℕ) (xs ys : Cells) → last_or d (xs ++ ys) ≡ last_or (last_or d xs) ys
last_or-append d [] ys = refl
last_or-append d (x ∷ xs) ys = last_or-append x.0 xs ys

pub Linked-append :
    (h : Heap) (before : ℕ) (xs ys : Cells) (behind : ℕ)
    → Linked h before xs (first_or behind ys)
    → Linked h (last_or before xs) ys behind
    → Linked h before (xs ++ ys) behind
Linked-append h before [] ys behind l m = m
Linked-append h before (x ∷ xs) ys behind l m =
    (l.0, rw (first_or-append behind xs ys) l.1, Linked-append h x.0 xs ys behind l.2 m)

pub Linked-split :
    (h : Heap) (before : ℕ) (xs ys : Cells) (behind : ℕ)
    → Linked h before (xs ++ ys) behind
    → Linked h before xs (first_or behind ys) × Linked h (last_or before xs) ys behind
Linked-split h before [] ys behind l = (tt, l)
Linked-split h before (x ∷ xs) ys behind l =
    let (left, right) = Linked-split h x.0 xs ys behind l.2 in
    ((l.0, rw (first_or-append behind xs ys) at l.1, left), right)

pub ne-test : (a b : ℕ) → a ≢ b → (a == b) ≡ false
ne-test a b h = ground arith

pub same-test : (a : ℕ) → (a == a) ≡ true
same-test a = ground arith

pub same_or_apart : (a b : ℕ) → (b ≡ a) ⊎ ((a == b) ≡ false)
same_or_apart a b = go (a == b) refl
  where
    go : (t : Bool) → (a == b) ≡ t → (b ≡ a) ⊎ ((a == b) ≡ false)
    go true e = inl (ground arith)
    go false e = inr e

-- A node of the run is none outside it.
pub occupies-apart :
    (a b : ℕ) (xs : Cells) → occupies a xs ≡ false → occupies b xs ≡ true → (b == a) ≡ false
occupies-apart a b [] out inside = cc
occupies-apart a b (x ∷ xs) out inside = ground (arith, occupies-apart a b xs)

pub write_self : (h : Heap) (p : ℕ) (c : Option Node) → write h p c p ≡ c
unfolding write
write_self h p c = rw (same-test p)

pub write_other : (h : Heap) (p a : ℕ) (c : Option Node) → (a == p) ≡ false → write h p c a ≡ h a
unfolding write
write_other h p a c apart = rw apart

-- A write elsewhere keeps the run.
pub Linked-write :
    (h : Heap) (before : ℕ) (xs : Cells) (behind a : ℕ) (c : Option Node)
    → occupies a xs ≡ false
    → Linked h before xs behind
    → Linked (write h a c) before xs behind
unfolding write
Linked-write h before [] behind a c out l = tt
Linked-write h before (x ∷ xs) behind a c out l =
    (l.0, ground arith, Linked-write h x.0 xs behind a c (ground arith) l.2)

pub Distinct-append : (xs ys : Cells) → Distinct (xs ++ ys) → Distinct xs × Distinct ys
Distinct-append [] ys d = (tt, d)
Distinct-append (x ∷ xs) ys d =
    let (left, right) = Distinct-append xs ys d.1 in
    ((ground (arith, occupies-append x.0 xs ys), left), right)

-- Following a pointer to a node, and writing one of its fields.
module _ (h : Heap) {p : ℕ} {n : Node} (real : p ≢ null) (holds : h p ≡ some n) where
  pub deref-done : deref h p ≡ done n
  unfolding deref
  deref-done = let e : (p == null) ≡ false = ground arith in rw (e, holds)

  pub set_next-done : (q : ℕ) → set_next h p q ≡ done (write h p (some (record n { next = q })))
  unfolding set_next
  set_next-done q = rw deref-done

  pub set_prev-done : (q : ℕ) → set_prev h p q ≡ done (write h p (some (record n { prev = q })))
  unfolding set_prev
  set_prev-done q = rw deref-done

  pub free-done : free h p ≡ done (write h p none)
  unfolding free
  free-done = rw deref-done

pub items-append : (xs ys : Cells) → items (xs ++ ys) ≡ items xs ++ items ys
items-append [] ys = refl
items-append (x ∷ xs) ys = ap (◌∷◌ x.1) (items-append xs ys)

pub items-reverse_aux :
    (xs ys : Cells) → items (reverse_aux xs ys) ≡ reverse_aux (items xs) (items ys)
items-reverse_aux [] ys = refl
items-reverse_aux (x ∷ xs) ys = items-reverse_aux xs (x ∷ ys)

-- An address without a node is none of the run.
pub Linked-fresh :
    (h : Heap) (before : ℕ) (xs : Cells) (behind a : ℕ)
    → h a ≡ none
    → Linked h before xs behind
    → occupies a xs ≡ false
Linked-fresh h before [] behind a empty l = refl
Linked-fresh h before (x ∷ xs) behind a empty l = elim (same_or_apart a x.0) [
  | inl e ↦ let held = l.1 in cc
  | inr e ↦ rw (e, Linked-fresh h x.0 xs behind a empty l.2)
]

pub outside_parts :
    (a : ℕ) (xs ys : Cells)
    → occupies a (xs ++ ys) ≡ false
    → (occupies a xs ≡ false) × (occupies a ys ≡ false)
outside_parts a xs ys out =
    let both : (occupies a xs || occupies a ys) ≡ false = sym (occupies-append a xs ys) ∙ out in
    (ground arith, ground arith)
