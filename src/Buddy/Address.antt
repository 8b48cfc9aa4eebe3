-- ===== src/Buddy/Address.antt =====
-- Addresses: a pointer that is kept finds its block again.
use mathlib.Core.List.{reverse, reverse_aux, reverse_aux-eq, reverse-reverse}
use os_scheduler.Base.{
  ℕ, ◌≡◌, refl, sym, ap, ◌∙◌, Bool, true, false, ◌||◌, List, [], ◌∷◌, ◌++◌, arith, ◌==◌, some, inl,
  inr, Bool-cases,
}
use os_scheduler.Base.Outcome.{done, fault}
use os_scheduler.Buddy.{Block, Place, blocks_of, place, focus_from, focus, deallocate_memory}

-- A block stands at the address.
abbrev pub has : ℕ → List Block → Bool
has address [] = false
has address (b ∷ bs) = b.address == address || has address bs

-- No two blocks have one address.
abbrev pub Distinct : List Block → Type 0
Distinct [] = Unit {0}
Distinct (b ∷ bs) = (has b.address bs ≡ false) × Distinct bs

pub has-reverse_aux :
    (address : ℕ) (before after : List Block)
    → has address (reverse_aux before after) ≡ (has address before || has address after)
has-reverse_aux address [] after = refl
has-reverse_aux address (b ∷ before) after =
    has-reverse_aux address before (b ∷ after) ∙ ground arith

pub Distinct-suffix :
    (before after : List Block) → Distinct (reverse_aux before after) → Distinct after
Distinct-suffix [] after d = d
Distinct-suffix (b ∷ before) after d = (Distinct-suffix before (b ∷ after) d).1

-- Of distinct blocks, none before a point has the address of one behind it.
Distinct-before :
    (address : ℕ) (before after : List Block)
    → Distinct (reverse_aux before after)
    → has address after ≡ true
    → has address before ≡ false
Distinct-before address [] after d present = refl
Distinct-before address (a ∷ before) after d present =
    let (apart, _) = Distinct-suffix before (a ∷ after) d in
    let other : (a.address == address) ≡ false = elim (Bool-cases (a.address == address)) [
      | inr e ↦ e
      | inl e ↦
          let same : a.address ≡ address = ground arith in
          let absent : has address after ≡ false = ap (λ n. has n after) (sym same) ∙ apart in cc
    ] in
    rw other (Distinct-before address before (a ∷ after) d (rw other present))

-- The search passes over the blocks that have other addresses.
focus_from-found :
    (before rest : List Block) (b : Block) (after : List Block)
    → has b.address rest ≡ false
    → focus_from b.address before (rest ++ b ∷ after)
      ≡ done (place (reverse_aux rest before) b after)
unfolding focus_from
focus_from-found before [] b after absent = ground arith
focus_from-found before (c ∷ rest) b after absent =
    ground (arith, focus_from-found (c ∷ before) rest b after (ground arith))

-- The address of a block of a list of distinct blocks leads to that block.
pub focus-found :
    (p : Place) → Distinct (blocks_of p) → focus p.block.address (blocks_of p) ≡ done p
unfolding focus
focus-found p d =
    let listed = reverse_aux-eq p.before (p.block ∷ p.after) in
    let self : has p.block.address (p.block ∷ p.after) ≡ true = ground arith in
    let absent = Distinct-before p.block.address p.before (p.block ∷ p.after) d self in
    let back = has-reverse_aux p.block.address p.before [] in
    rw (listed, focus_from-found [] (reverse p.before) p.block p.after (ground arith))
      (ap (λ l. done (place l p.block p.after)) (reverse-reverse p.before))

focus_from-absent :
    (address : ℕ) (before rest : List Block)
    → has address rest ≡ false
    → focus_from address before rest ≡ fault
unfolding focus_from
focus_from-absent address before [] absent = refl
focus_from-absent address before (b ∷ rest) absent =
    ground (arith, focus_from-absent address (b ∷ before) rest)

-- An address at which no block stands is a fault: the pointer dangles.
pub deallocate_memory_dangling :
    (address : ℕ) (memory : List Block)
    → has address memory ≡ false
    → deallocate_memory (some address) memory ≡ fault
unfolding deallocate_memory focus
deallocate_memory_dangling address memory absent = rw (focus_from-absent address [] memory absent)
