-- ===== src/HashMap/Remove.antt =====
-- hashmap_remove.
use mathlib.Core.Path.{subst}
use os_scheduler.Base.{
  ℕ, ◌≡◌, ◌≢◌, inl, inr, Bool-cases, false, ◌-◌, ◌+◌, ◌*◌, ◌%◌, ◌<◌, zero, suc, refl, sym, ◌∙◌, ap,
  if◌then◌else◌, Option, none, some, List, [], ◌∷◌, arith, ◌==◌, set,
}
use os_scheduler.Base.Int.{ℤ, pos, negsuc, eq_ℤ_iff}
use os_scheduler.Base.Outcome.{
  done, done_injective, load, load-set, load_inside, Ends, ends, Ends-result,
}
use os_scheduler.HashMap.{
  HashNode, HashMap, Probed, found, vacant, circled, hashmap_int_hash, probe, probe_round, value_at,
  search_key, hashmap_get, remove_at, hashmap_remove,
}
use os_scheduler.HashMap.Probe.{IsProbed}
use os_scheduler.HashMap.Laws.{IsMap, occupied, search_key-IsProbed, get_found}

-- Emptying the place where a search ends makes the search end there with nothing.
probe-set-none :
    {V : Type 0} (fuel : ℕ) (buckets : List (Option (HashNode V))) (capacity : ℕ) (key : ℤ)
    (original step index i : ℕ) (old : HashNode V)
    → load buckets i ≡ done (some old)
    → old.key ≡ key
    → probe fuel buckets capacity key original step index ≡ done (found i)
    → probe fuel (set buckets i none) capacity key original step index ≡ done (vacant i)
unfolding probe probe_round
probe-set-none zero buckets capacity key original step index i old there same run = cc
probe-set-none (suc fuel) buckets capacity key original step index i old there same run =
    let inside = load_inside buckets i (some old) there in
    let next = (original + step * step) % capacity in
    let later =
      probe-set-none fuel buckets capacity key original (suc step) next i old there same in
    ground (arith, load-set buckets i index none inside, later, (eq_ℤ_iff old.key key).1 same)

module _ {V : Type 0} where
  occupied_pos :
      (bs : List (Option (HashNode V))) (i : ℕ) (n : HashNode V)
      → load bs i ≡ done (some n)
      → 0 < occupied bs
  unfolding load
  occupied_pos [] i n h = cc
  occupied_pos (none ∷ bs) zero n h = cc
  occupied_pos (none ∷ bs) (suc i) n h = occupied_pos bs i n h
  occupied_pos (some m ∷ bs) i n h = omega arith

  found_node :
      (m : HashMap V) (key : ℤ) (i : ℕ)
      → search_key m key ≡ done (found i)
      → IsMap m
      → (n : HashNode V) × (load m.buckets i ≡ done (some n)) × (n.key ≡ key)
  found_node m key i run v =
      let (r, run', probed) = Ends-result (search_key-IsProbed m key v.places v.nonzero) in
      subst (IsProbed m.buckets key) (done_injective (sym run' ∙ run)) probed

  -- What hashmap_remove returns and leaves: where it returns 0, the place of the key is emptied, every
  -- other place is as it was, and the size is one less.
  pub data Removed (m : HashMap V) (key : ℤ) : ℤ × HashMap V → Type 0 where
    not_held : hashmap_get m key ≡ done none → Removed m key (negsuc 0, m)
    removed :
        {after : HashMap V} (i : ℕ) (old : HashNode V)
        → load m.buckets i ≡ done (some old)
        → old.key ≡ key
        → load after.buckets i ≡ done none
        → ((j : ℕ) → j ≢ i → load after.buckets j ≡ load m.buckets j)
        → after.size + 1 ≡ m.size
        → hashmap_get after key ≡ done none
        → Removed m key (pos 0, after)

  remove_at-Removed :
      (m : HashMap V) (key : ℤ)
      → IsMap m
      → (r : Probed) → search_key m key ≡ done r
      → IsProbed m.buckets key r
      → Removed m key (remove_at m r)
  unfolding remove_at hashmap_get search_key value_at
  remove_at-Removed m key v (found i) run (old, there, same) =
      let gone =
        probe-set-none m.capacity m.buckets m.capacity key (hashmap_int_hash key % m.capacity) 1
          (hashmap_int_hash key % m.capacity) i old there same run in
      let at : (j : ℕ)
          → load (set m.buckets i none) j ≡ (if i == j then done none else load m.buckets j) =
        λ j. load-set m.buckets i j none (load_inside m.buckets i (some old) there) in
      Removed.removed i old there same (ground (arith, at i)) (λ j ne. ground (arith, at j))
        (omega (arith, v.counted, occupied_pos m.buckets i old there)) (rw gone refl)
  remove_at-Removed m key v (vacant i) run is = Removed.not_held (rw run refl)
  remove_at-Removed m key v circled run is = Removed.not_held (rw run refl)

  -- hashmap_remove on a well-formed map ends. It returns -1 with no change if the map did not hold the
  -- key; otherwise 0, the place that held the key is emptied, every other place is as it was, the size
  -- is one less, and the key leads to nothing.
  pub hashmap_remove_correct :
      (m : HashMap V) (key : ℤ) → IsMap m → Ends (Removed m key) (hashmap_remove m key)
  unfolding hashmap_remove
  hashmap_remove_correct m key v =
      let (r, run, is) = Ends-result (search_key-IsProbed m key v.places v.nonzero) in
      rw run (ends (remove_at-Removed m key v r run is))

  home_vacant :
      (buckets : List (Option (HashNode V))) (capacity fuel : ℕ) (key : ℤ) (index : ℕ)
      → 0 < fuel
      → load buckets index ≡ done none
      → probe fuel buckets capacity key index 1 index ≡ done (vacant index)
  unfolding probe probe_round
  home_vacant buckets capacity zero key index h empty = elim h [ ]
  home_vacant buckets capacity (suc fuel) key index h empty = rw empty

  emptied_hides :
      (m : HashMap V) (other : ℤ) (i : ℕ)
      → 0 < m.capacity
      → hashmap_int_hash other % m.capacity ≡ i
      → load (set m.buckets i none) i ≡ done none
      → hashmap_get (record m { buckets = set m.buckets i none; size = m.size - 1 }) other
        ≡ done none
  unfolding hashmap_get search_key value_at
  emptied_hides m other i pos_capacity home vacated =
      rw (
        home,
        home_vacant (set m.buckets i none) m.capacity m.capacity other i pos_capacity vacated,
      )

  -- Removing a key loses every other key whose search begins at its place: the node of the other
  -- key is still in the buckets, and hashmap_get no longer finds it, though it did before.
  pub hashmap_remove_hides :
      (m : HashMap V) (key other : ℤ) (i j : ℕ) (n : HashNode V)
      → IsMap m
      → search_key m key ≡ done (found i)
      → hashmap_int_hash other % m.capacity ≡ i
      → load m.buckets j ≡ done (some n)
      → n.key ≡ other
      → other ≢ key
      → (hashmap_get m other ≡ done (some n.value))
        × Ends
            (λ r. (load r.1.buckets j ≡ done (some n)) × (hashmap_get r.1 other ≡ done none))
            (hashmap_remove m key)
  unfolding hashmap_remove remove_at
  hashmap_remove_hides m key other i j n v run home there is ne =
      let (r, run', probed) = Ends-result (search_key-IsProbed m key v.places v.nonzero) in
      let (old, here, same) = found_node m key i run v in
      let emptied = load-set m.buckets i i none (load_inside m.buckets i (some old) here) in
      let vacated : load (set m.buckets i none) i ≡ done none = ground arith in
      let apart : (i == j) ≡ false = elim (Bool-cases (i == j)) [
        | inr e ↦ e
        | inl e ↦
            let node_is : old ≡ n = ground arith in
            absurd (ne (sym is ∙ ap (λ (k : HashNode V). k.key) (sym node_is) ∙ same))
      ] in
      (
        get_found m other j n (ap (search_key m) (sym is) ∙ v.reach j n there) there,
        rw run (
            ends (
              ground (arith, load-set m.buckets i j none (load_inside m.buckets i (some old) here)),
              emptied_hides m other i v.nonzero home vacated,
            )),
      )
