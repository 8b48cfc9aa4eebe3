-- ===== src/Buddy/Tiling.antt =====
-- The list of blocks tiles the memory: no gap and no overlap.
use mathlib.Core.List.{reverse_aux}
use os_scheduler.Base.{ℕ, ◌+◌, ◌≡◌, refl, List, [], ◌∷◌, ◌==◌, if◌then◌else◌, inl, inr, Bool-cases}
use os_scheduler.Buddy.{Block}
use os_scheduler.Buddy.Slot.{IsBlock}

-- From `s` up to `e`, each block begins where the one before it ends.
abbrev pub Tiled : ℕ → List Block → ℕ → Type 0
Tiled s [] e = s ≡ e
Tiled s (b ∷ bs) e = (b.start ≡ s) × IsBlock b × Tiled (b.start + b.size) bs e

-- The same of a list that is read against the `next` links.
abbrev pub TiledBack : ℕ → List Block → ℕ → Type 0
TiledBack s [] e = s ≡ e
TiledBack s (b ∷ bs) e = (b.start + b.size ≡ e) × IsBlock b × TiledBack s bs b.start

module _ (s e : ℕ) where
  pub Tiled-split :
      (before after : List Block)
      → Tiled s (reverse_aux before after) e
      → (m : ℕ) × TiledBack s before m × Tiled m after e
  Tiled-split [] after t = (s, refl, t)
  Tiled-split (b ∷ before) after t =
      let (m, back, (start, v, rest)) = Tiled-split before (b ∷ after) t in
      (b.start + b.size, (refl, v, rw start back), rest)

  pub Tiled-join :
      (m : ℕ) (before after : List Block)
      → TiledBack s before m
      → Tiled m after e
      → Tiled s (reverse_aux before after) e
  Tiled-join m [] after start t = rw start t
  Tiled-join m (b ∷ before) after (meets, v, back) t =
      Tiled-join b.start before (b ∷ after) back (refl, v, rw meets t)

-- The blocks in use, in order.
unfoldable pub live : List Block → List Block
live [] = []
live (b ∷ bs) = let rest = live bs in if b.allocated == 0 then rest else b ∷ rest

pub live-reverse_aux :
    (before after : List Block)
    → live (reverse_aux before after) ≡ reverse_aux (live before) (live after)
unfolding live
live-reverse_aux [] after = refl
live-reverse_aux (b ∷ before) after =
    rw (live-reverse_aux before (b ∷ after))
      (elim (Bool-cases (b.allocated == 0)) [ inl e ↦ rw e | inr e ↦ rw e ])
