-- ===== src/Nodes/Swap.antt =====
-- Runs whose nodes are apart, joined and swapped.
use os_scheduler.Base.{ℕ, ◌≡◌, inl, inr, refl, Bool, true, false, ◌||◌, [], ◌∷◌, ◌++◌, arith}
use os_scheduler.Nodes.Chain.{Cells, occupies, Distinct, occupies-append, same_or_apart}

abbrev pub Disjoint : Cells → Cells → Type 0
Disjoint xs ys = (a : ℕ) → occupies a xs ≡ true → occupies a ys ≡ false

Disjoint-sym : (xs ys : Cells) → Disjoint xs ys → Disjoint ys xs
Disjoint-sym xs ys d a inside = go (occupies a xs) refl
  where
    go : (b : Bool) → occupies a xs ≡ b → occupies a xs ≡ false
    go true e = let out = d a e in cc
    go false e = e

pub Distinct-parts :
    (xs ys : Cells) → Distinct (xs ++ ys) → Distinct xs × Distinct ys × Disjoint xs ys
Distinct-parts [] ys d = (tt, d, λ a inside. absurd (ground arith))
Distinct-parts (x ∷ xs) ys d =
    let (left, right, apart) = Distinct-parts xs ys d.1 in
    let both : (occupies x.0 xs || occupies x.0 ys) ≡ false =
      rw (occupies-append x.0 xs ys) at d.0 in
    (
      (ground arith, left),
      right,
      λ a inside. elim (same_or_apart a x.0) [
        | inl e ↦ ground arith
        | inr e ↦ apart a (ground arith)
      ],
    )

pub Distinct-join :
    (xs ys : Cells) → Distinct xs → Distinct ys → Disjoint xs ys → Distinct (xs ++ ys)
Distinct-join [] ys left right apart = right
Distinct-join (x ∷ xs) ys left right apart = (
  rw (occupies-append x.0 xs ys, left.0) (apart x.0 (ground arith)),
  Distinct-join xs ys left.1 right (λ a inside. apart a (ground arith)),
)

pub Distinct-swap : (xs ys : Cells) → Distinct (xs ++ ys) → Distinct (ys ++ xs)
Distinct-swap xs ys d =
    let (left, right, apart) = Distinct-parts xs ys d in
    Distinct-join ys xs right left (Disjoint-sym xs ys apart)

-- A node that is taken out of a run is none of what is left.
pub record Without (before : Cells) (c : ℕ × ℕ) (after : Cells) : Type 0 where
  pub not_before : occupies c.0 before ≡ false
  pub not_after : occupies c.0 after ≡ false
  pub left : Distinct before
  pub right : Distinct after
  pub apart : Disjoint before after
  pub apart_back : Disjoint after before

false_unless : (b : Bool) → (b ≡ true → true ≡ false) → b ≡ false
false_unless true h = h refl
false_unless false h = refl

pub Distinct-Without :
    (before : Cells) (c : ℕ × ℕ) (after : Cells)
    → Distinct (before ++ c ∷ after)
    → Without before c after
Distinct-Without before c after d =
    let (left, right, apart) = Distinct-parts before (c ∷ after) d in
    let apart_after : Disjoint before after =
      λ a inside. let out = apart a inside in ground arith in
    record {
      not_before =
          false_unless (occupies c.0 before) λ inside. let out = apart c.0 inside in ground arith;
      not_after = right.0;
      left = left;
      right = right.1;
      apart = apart_after;
      apart_back = Disjoint-sym before after apart_after;
    }
