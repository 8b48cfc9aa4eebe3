-- ===== src/HashMap.antt =====
-- src/DS/hash_map.c and .h: an open-addressing map from `int` keys, with quadratic probing.
-- `buckets` has `capacity` places, and `none` is NULL. Values are of any type. The map itself is
-- not NULL, and `calloc` and `malloc` succeed.
pub mod Probe
pub mod Laws
pub mod Put
pub mod Free
pub mod Remove
mod Tests
use os_scheduler.Base.{
  ℕ, zero, suc, ◌+◌, ◌-◌, ◌*◌, ◌/◌, ◌%◌, ◌^◌, Bool, Option, none, some, List, [], ◌∷◌, leb, ◌==◌,
  if◌then◌else◌, length, set, replicate,
}
use os_scheduler.Base.Int.{ℤ, pos, negsuc, eq_ℤ}
use os_scheduler.Base.Outcome.{Outcome, done, fault, starved, ◌>>=◌, load}

pub record HashNode (V : Type 0) : Type 0 where
  pub key : ℤ
  pub value : V

pub record HashMap (V : Type 0) : Type 0 where
  pub buckets : List (Option (HashNode V))
  pub capacity : ℕ
  pub size : ℕ

-- The conversion of an `int` to `unsigned long`, of 64 bits.
abbrev pub to_u64 : ℤ → ℕ
to_u64 (pos n) = n % 2 ^ 64
to_u64 (negsuc n) = 2 ^ 64 - 1 - n

unfoldable pub hashmap_int_hash : ℤ → ℕ
hashmap_int_hash key = to_u64 key * 2654435761 % 2 ^ 64 / 2 ^ 16

-- How the probing loop ends: at the key, at an empty place, or back where it began.
pub data Probed : Type 0 where
  found : ℕ → Probed
  vacant : ℕ → Probed
  circled : Probed

module _ {V : Type 0} where
  unfoldable pub hashmap_create : ℕ → HashMap V
  hashmap_create capacity = record {
    buckets = replicate capacity none;
    capacity = capacity;
    size = 0;
  }

  -- The `while (current)` loop, the same in hashmap_put, hashmap_get and hashmap_remove: one round
  -- at the place `index`, over the rounds that follow, and the loop.
  unfoldable pub probe_round :
      (continue : (step index : ℕ) → Outcome Probed)
      → (capacity : ℕ) (key : ℤ) (original_index step index : ℕ) → Option (HashNode V)
      → Outcome Probed
  probe_round continue capacity key original_index step index none = done (vacant index)
  probe_round continue capacity key original_index step index (some current) =
      let next = (original_index + step * step) % capacity in
      let rest = continue (suc step) next in
      if eq_ℤ current.key key
      then done (found index)
      else if next == original_index
      then done circled
      else rest

  unfoldable pub probe :
      (fuel : ℕ)
      → List (Option (HashNode V))
      → (capacity : ℕ) (key : ℤ) (original_index step index : ℕ) → Outcome Probed
  probe zero buckets capacity key original_index step index = starved
  probe (suc fuel) buckets capacity key original_index step index =
      load buckets index
      >>= probe_round (probe fuel buckets capacity key original_index) capacity key original_index
          step index

  -- From the hash of the key on, with the capacity for fuel.
  unfoldable pub search_key : HashMap V → ℤ → Outcome Probed
  search_key map key =
      let index = hashmap_int_hash key % map.capacity in
      probe map.capacity map.buckets map.capacity key index 1 index

  -- What follows the loop in each function: NULL is `none`, and the codes are -1, 0 and 1.
  unfoldable pub put_at : HashMap V → ℤ → V → Probed → ℤ × HashMap V
  put_at map key value (found index) = (
    pos 0,
    record map { buckets = set map.buckets index (some (record { key = key; value = value })) },
  )
  put_at map key value (vacant index) = (
    pos 1,
    record map {
      buckets = set map.buckets index (some (record { key = key; value = value }));
      size = map.size + 1;
    },
  )
  put_at map key value circled = (negsuc 0, map)

  unfoldable pub hashmap_put : HashMap V → ℤ → V → Outcome (ℤ × HashMap V)
  hashmap_put map key value =
      if leb map.capacity map.size
      then done (negsuc 0, map)
      else search_key map key >>= λ r. done (put_at map key value r)

  unfoldable pub value_at : HashMap V → Probed → Outcome (Option V)
  value_at map (found index) =
      load map.buckets index >>= elim [ none ↦ fault | some current ↦ done (some current.value) ]
  value_at map (vacant index) = done none
  value_at map circled = done none

  unfoldable pub hashmap_get : HashMap V → ℤ → Outcome (Option V)
  hashmap_get map key = search_key map key >>= value_at map

  unfoldable pub remove_at : HashMap V → Probed → ℤ × HashMap V
  remove_at map (found index) =
      (pos 0, record map { buckets = set map.buckets index none; size = map.size - 1 })
  remove_at map (vacant index) = (negsuc 0, map)
  remove_at map circled = (negsuc 0, map)

  unfoldable pub hashmap_remove : HashMap V → ℤ → Outcome (ℤ × HashMap V)
  hashmap_remove map key = search_key map key >>= λ r. done (remove_at map r)

  -- The loop over the places from `i` on, `left` of them, and the nodes that it frees.
  unfoldable pub free_from : (left i : ℕ) → HashMap V → Outcome (List (HashNode V))
  free_from zero i map = done []
  free_from (suc left) i map = do
    current ← load map.buckets i
    rest ← free_from left (i + 1) map
    done (elim current [ none ↦ rest | some node ↦ node ∷ rest ])

  unfoldable pub hashmap_free : HashMap V → Outcome (List (HashNode V))
  hashmap_free map = free_from map.capacity 0 map
