-- ===== src/Buddy/Parted.antt =====
-- Free buddies do not stand side by side: what can be merged has been merged.
use mathlib.Core.List.{reverse_aux}
use os_scheduler.Base.{
  ◌+◌, ◌*◌, ◌%◌, ◌<◌, ◌≡◌, ◌≢◌, inl, inr, refl, List, [], ◌∷◌, arith, ◌==◌, ◌&&◌, Bool, false,
}
use os_scheduler.Buddy.{Block, Place, max_size, blocks_of}
use os_scheduler.Buddy.Slot.{IsBlock, IsEven, IsOdd, size_pos, slot-cases, not_both_even}
use os_scheduler.Buddy.Tiling.{Tiled, TiledBack, Tiled-split, Tiled-join}

-- Two neighbours, `a` on the left, are free buddies: they make up one aligned block of twice
-- the size.
abbrev pub free_buddies : Block → Block → Bool
free_buddies a b =
    a.allocated == 0 && (b.allocated == 0 && (a.size == b.size && (a.start % (a.size * 2) == 0)))

abbrev pub Apart : Block → Block → Type 0
Apart a b = free_buddies a b ≡ false

abbrev pub ApartFrom : Block → List Block → Type 0
ApartFrom a [] = Unit {0}
ApartFrom a (b ∷ _) = Apart a b

abbrev pub ApartBefore : List Block → Block → Type 0
ApartBefore [] b = Unit {0}
ApartBefore (a ∷ _) b = Apart a b

abbrev pub Parted : List Block → Type 0
Parted [] = Unit {0}
Parted (b ∷ bs) = ApartFrom b bs × Parted bs

abbrev pub PartedBack : List Block → Type 0
PartedBack [] = Unit {0}
PartedBack (b ∷ bs) = ApartBefore bs b × PartedBack bs

abbrev pub Meet : List Block → List Block → Type 0
Meet [] after = Unit {0}
Meet (a ∷ _) after = ApartFrom a after

pub Parted-split :
    (before after : List Block)
    → Parted (reverse_aux before after)
    → PartedBack before × Parted after × Meet before after
Parted-split [] after p = (tt, p, tt)
Parted-split (b ∷ before) after p =
    let (back, (first, rest), meets) = Parted-split before (b ∷ after) p in
    ((side before meets, back), rest, first)
  where
    side : (l : List Block) → Meet l (b ∷ after) → ApartBefore l b
    side [] m = tt
    side (a ∷ l) m = m

pub Parted-join :
    (before after : List Block)
    → PartedBack before
    → Parted after
    → Meet before after
    → Parted (reverse_aux before after)
Parted-join [] after back p m = p
Parted-join (b ∷ before) after (first, back) p m =
    Parted-join before (b ∷ after) back (m, p) (side before first)
  where
    side : (l : List Block) → ApartBefore l b → Meet l (b ∷ after)
    side [] m = tt
    side (a ∷ l) m = m

-- The list of all blocks between two operations.
pub record IsMemory (memory : List Block) : Type 0 where
  pub tiled : Tiled 0 memory max_size
  pub parted : Parted memory

-- The same during an operation, when the block at the pointer may be one to merge.
pub record IsPlace (p : Place) : Type 0 where
  pub whole : IsBlock p.block
  pub back : TiledBack 0 p.before p.block.start
  pub tiled : Tiled (p.block.start + p.block.size) p.after max_size
  pub parted_back : PartedBack p.before
  pub parted : Parted p.after

pub IsMemory-IsPlace : (p : Place) → IsMemory (blocks_of p) → IsPlace p
IsMemory-IsPlace p v =
    let (m, back, (start, whole, rest)) =
      Tiled-split 0 max_size p.before (p.block ∷ p.after) v.tiled in
    let (parted_back, (_, parted), _) = Parted-split p.before (p.block ∷ p.after) v.parted in
    record {
      whole = whole;
      back = rw start back;
      tiled = rest;
      parted_back = parted_back;
      parted = parted;
    }

pub IsPlace-IsMemory :
    (p : Place)
    → IsPlace p
    → ApartBefore p.before p.block
    → ApartFrom p.block p.after
    → IsMemory (blocks_of p)
IsPlace-IsMemory p v left right = record {
  tiled =
      Tiled-join 0 max_size p.block.start p.before (p.block ∷ p.after) v.back
        (refl, v.whole, v.tiled);
  parted =
      Parted-join p.before (p.block ∷ p.after) v.parted_back (right, v.parted) (side p.before left);
}
  where
    side : (l : List Block) → ApartBefore l p.block → Meet l (p.block ∷ p.after)
    side [] m = tt
    side (a ∷ l) m = m

-- A block at an odd slot is apart from what follows it, one at an even slot from what is before.
pub odd_apart : (b : Block) (after : List Block) → 0 < b.size → IsOdd b → ApartFrom b after
odd_apart b [] pos odd = tt
odd_apart b (c ∷ after) pos odd = ground (arith, odd.rest)

pub even_apart :
    (b : Block) (before : List Block)
    → 0 < b.size
    → IsEven b
    → TiledBack 0 before b.start
    → ApartBefore before b
even_apart b [] pos even t = tt
even_apart b (a ∷ before) pos even (meets, v, _) = elim (slot-cases a v) [
  | inr odd ↦ ground (arith, odd.rest, size_pos v)
  | inl even_a ↦
      let differ : a.size ≢ b.size = λ same. not_both_even a b even_a even pos same meets in
      ground arith
]

-- A block in use is apart from both neighbours.
pub used_apart :
    (b : Block) (before after : List Block)
    → 0 < b.allocated
    → ApartBefore before b × ApartFrom b after
used_apart b before after h = (left before, right after)
  where
    left : (l : List Block) → ApartBefore l b
    left [] = tt
    left (a ∷ l) = ground arith

    right : (l : List Block) → ApartFrom b l
    right [] = tt
    right (c ∷ l) = ground arith
