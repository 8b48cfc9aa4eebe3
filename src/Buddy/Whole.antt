-- ===== src/Buddy/Whole.antt =====
-- A memory with no block in use is one block: nothing is lost to fragmentation.
use os_scheduler.Base.{
  ℕ, zero, suc, ◌+◌, ◌*◌, ◌^◌, ◌≡◌, refl, ap, inl, inr, ◌∙◌, sym, List, [], ◌∷◌, arith, true,
}
use os_scheduler.Base.Binary.{pow_double}
use os_scheduler.Buddy.{Block, max_size, init_memory}
use os_scheduler.Buddy.Slot.{IsBlock, IsEven, slot-cases, size_pos}
use os_scheduler.Buddy.Tiling.{Tiled, live}
use os_scheduler.Buddy.Parted.{Parted, free_buddies, IsMemory}

-- The power of two in a number is unique.
odd_part : (k j x y : ℕ) → (2 * x + 1) * 2 ^ k ≡ (2 * y + 1) * 2 ^ j → k ≡ j
odd_part zero zero x y h = refl
odd_part zero (suc j) x y h = absurd (omega (arith, rw (pow_double j) at h))
odd_part (suc k) zero x y h = absurd (omega (arith, rw (pow_double k) at h))
odd_part (suc k) (suc j) x y h =
    ap suc (odd_part k j x y (omega (arith, rw (pow_double k, pow_double j) at h)))

live_nil : (b : Block) (bs : List Block) → live (b ∷ bs) ≡ [] → (b.allocated ≡ 0) × (live bs ≡ [])
unfolding live
live_nil b bs h = ground arith

-- A free block at an even slot, with nothing but free blocks behind it up to the end of the
-- memory, is the whole memory.
even_whole :
    (b : Block) (rest : List Block)
    → IsBlock b
    → IsEven b
    → Tiled (b.start + b.size) rest max_size
    → Parted (b ∷ rest)
    → live (b ∷ rest) ≡ []
    → (b.start ≡ 0) × (b.size ≡ max_size) × (rest ≡ [])
even_whole b [] v even ends_at parted free =
    let whole : (2 * even.half + 1) * 2 ^ v.order ≡ (2 * 0 + 1) * 2 ^ 10 =
      rw (← v.sized) (omega (arith, even.start)) in
    let order : v.order ≡ 10 = odd_part v.order 10 even.half 0 whole in
    let size : b.size ≡ max_size = v.sized ∙ ap (λ (n : ℕ). 2 ^ n) order in
    (omega arith, size, refl)
even_whole b (c ∷ rest) v even (start, w, tiled) (apart, parted) free =
    let (b_free, rest_free) = live_nil b (c ∷ rest) free in
    let (c_free, _) = live_nil c rest rest_free in
    elim (slot-cases c w) [
      | inl even_c ↦
          let (at_zero, _, _) = even_whole c rest w even_c tiled parted rest_free in
          absurd (omega (arith, size_pos v))
      | inr odd_c ↦
          let same_order : v.order ≡ w.order =
            odd_part v.order w.order even.half odd_c.half
              (rw (← v.sized, ← w.sized) (omega (arith, even.start, odd_c.start))) in
          let same : b.size ≡ c.size = v.sized ∙ ap (λ (n : ℕ). 2 ^ n) same_order ∙ sym w.sized in
          let buddies : free_buddies b c ≡ true = ground (arith, even.rest) in cc
    ]

-- When no block is in use, a good memory is the list that init_memory makes: one block.
pub all_free-init_memory :
    (memory : List Block)
    → IsMemory memory
    → live memory ≡ []
    → (address : ℕ) × (memory ≡ init_memory address)
unfolding init_memory
all_free-init_memory [] v free = absurd (omega (arith, v.tiled))
all_free-init_memory (b ∷ rest) v free =
    let (start, w, tiled) = v.tiled in
    elim (slot-cases b w) [
      | inr odd ↦ absurd (omega (arith, odd.start, size_pos w))
      | inl even ↦
          let (at_zero, size, alone) = even_whole b rest w even tiled v.parted free in
          let (unused, _) = live_nil b rest free in (b.address, ground arith)
    ]

-- The list that init_memory makes is good, and no block of it is in use.
pub init_memory-IsMemory :
    (address : ℕ) → IsMemory (init_memory address) × (live (init_memory address) ≡ [])
unfolding init_memory live
init_memory-IsMemory address = (
  record {
    tiled = (
      refl,
      record { order = 10; sized = refl; slot = 0; placed = refl; used = omega arith },
      refl,
    );
    parted = (tt, tt);
  },
  refl,
)
