-- ===== src/HashMap/Put.antt =====
-- hashmap_put.
use os_scheduler.Base.{
  ℕ, ◌<◌, ◌≤◌, ◌+◌, ◌%◌, ◌≡◌, ◌≢◌, refl, sym, ◌∙◌, ap, inl, inr, false, none, some, arith, ◌==◌,
  leb, if◌then◌else◌, length-set, set, Bool-cases,
}
use os_scheduler.Base.Int.{ℤ, pos, negsuc}
use os_scheduler.Base.Outcome.{
  done, done_injective, load, load-set, load_inside, Ends, ends, Ends-result,
}
use os_scheduler.HashMap.{
  HashNode, HashMap, Probed, found, vacant, circled, hashmap_int_hash, search_key, put_at, value_at,
  hashmap_put, hashmap_get,
}
use os_scheduler.HashMap.Probe.{IsProbed, probe-set_vacant, probe-found_vacant, probe-set_value}
use os_scheduler.HashMap.Laws.{
  IsMap, Absent, occupied-set_vacant, occupied-set_value, search_key-IsProbed, get-Absent,
  get_found,
}

module _ {V : Type 0} where
  -- The ends of hashmap_put: full, the probe sequence back at its start, the key updated, or added.
  pub data PutEnd (m : HashMap V) (key : ℤ) (value : V) : ℤ × HashMap V → Type 0 where
    map_full : m.capacity ≤ m.size → PutEnd m key value (negsuc 0, m)
    no_place :
        m.size < m.capacity
        → search_key m key ≡ done circled
        → hashmap_get m key ≡ done none
        → PutEnd m key value (negsuc 0, m)
    key_updated :
        {after : HashMap V} (old : V)
        → m.size < m.capacity
        → hashmap_get m key ≡ done (some old)
        → hashmap_get after key ≡ done (some value)
        → after.size ≡ m.size
        → PutEnd m key value (pos 0, after)
    key_added :
        {after : HashMap V}
        → m.size < m.capacity
        → hashmap_get m key ≡ done none
        → hashmap_get after key ≡ done (some value)
        → after.size ≡ m.size + 1
        → PutEnd m key value (pos 1, after)

  -- What hashmap_put returns and leaves.
  pub record Put (m : HashMap V) (key : ℤ) (value : V) (r : ℤ × HashMap V) : Type 0 where
    pub good : IsMap r.1
    pub outcome : PutEnd m key value r
    pub others : (other : ℤ) → other ≢ key → hashmap_get r.1 other ≡ hashmap_get m other

  get_vacant :
      (m : HashMap V) (key : ℤ) (i : ℕ)
      → search_key m key ≡ done (vacant i)
      → hashmap_get m key ≡ done none
  unfolding hashmap_get value_at
  get_vacant m key i run = rw run refl

  get_circled :
      (m : HashMap V) (key : ℤ) → search_key m key ≡ done circled → hashmap_get m key ≡ done none
  unfolding hashmap_get value_at
  get_circled m key run = rw run refl

  module _ (m : HashMap V) (key : ℤ) (value : V) (v : IsMap m) (room : m.size < m.capacity) where
    abbrev new_node : HashNode V
    new_node = record { key = key; value = value }

    -- the key is new, and its search ends at the empty place `i`
    module _ (i : ℕ) (run : search_key m key ≡ done (vacant i))
        (empty : load m.buckets i ≡ done none) where
      abbrev filled : HashMap V
      filled = record m { buckets = set m.buckets i (some new_node); size = m.size + 1 }

      at :
          (j : ℕ)
          → load filled.buckets j ≡ (if i == j then done (some new_node) else load m.buckets j)
      at j = load-set m.buckets i j (some new_node) (load_inside m.buckets i none empty)

      filled-found : search_key filled key ≡ done (found i)
      unfolding search_key
      filled-found =
          probe-found_vacant m.capacity m.buckets m.capacity key (hashmap_int_hash key % m.capacity)
            1 (hashmap_int_hash key % m.capacity) i new_node refl run empty

      filled_keeps :
          (other : ℤ) (j : ℕ)
          → search_key m other ≡ done (found j)
          → search_key filled other ≡ done (found j)
      unfolding search_key
      filled_keeps other j there =
          probe-set_vacant m.capacity m.buckets m.capacity other
            (hashmap_int_hash other % m.capacity) 1 (hashmap_int_hash other % m.capacity) i j
            new_node empty there

      filled-IsMap : IsMap filled
      filled-IsMap = record {
        places = length-set m.buckets i (some new_node) ∙ v.places;
        nonzero = v.nonzero;
        counted = omega (arith, v.counted, occupied-set_vacant m.buckets i new_node empty);
        reach = λ j n loaded. elim (Bool-cases (i == j)) [
          | inl here ↦
              let same_key : n.key ≡ key = ground (arith, at j) in
              let place : i ≡ j = ground arith in
              ap (search_key filled) same_key ∙ filled-found ∙ ap (λ x. done (found x)) place
          | inr elsewhere ↦ filled_keeps n.key j (v.reach j n (ground (arith, at j)))
        ];
      }

      -- a search that succeeded before finds the same node
      filled_value :
          (other : ℤ) (j : ℕ) (n : HashNode V)
          → search_key m other ≡ done (found j)
          → load m.buckets j ≡ done (some n)
          → hashmap_get filled other ≡ hashmap_get m other
      filled_value other j n there loaded =
          let kept : load filled.buckets j ≡ done (some n) = ground (arith, at j) in
          get_found filled other j n (filled_keeps other j there) kept
          ∙ sym (get_found m other j n there loaded)

      still-Absent : (other : ℤ) → other ≢ key → Absent m other → Absent filled other
      still-Absent other ne absent j n loaded = elim (Bool-cases (i == j)) [
        | inl here ↦ let same_key : n.key ≡ key = ground (arith, at j) in λ e. ne (sym e ∙ same_key)
        | inr elsewhere ↦ absent j n (ground (arith, at j))
      ]

      -- a search that did not find its key would have found it, if the key were in the buckets
      unfound :
          (other : ℤ) (r : Probed)
          → search_key m other ≡ done r
          → ((j : ℕ) → r ≢ found j)
          → Absent m other
      unfound other r there none_found j n loaded same =
          none_found j
            (done_injective (sym there ∙ ap (search_key m) (sym same) ∙ v.reach j n loaded))

      filled_others : (other : ℤ) → other ≢ key → hashmap_get filled other ≡ hashmap_get m other
      filled_others other ne =
          let (r, there, is) = Ends-result (search_key-IsProbed m other v.places v.nonzero) in
          go r there is
        where
          unchanged : Absent m other → hashmap_get filled other ≡ hashmap_get m other
          unchanged absent =
              get-Absent filled other (filled-IsMap.places) v.nonzero (still-Absent other ne absent)
              ∙ sym (get-Absent m other v.places v.nonzero absent)

          go :
              (r : Probed)
              → search_key m other ≡ done r
              → IsProbed m.buckets other r
              → hashmap_get filled other ≡ hashmap_get m other
          go (found j) there (n, loaded, _) = filled_value other j n there loaded
          go (vacant j) there is = unchanged (unfound other (vacant j) there λ k. ground arith)
          go circled there is = unchanged (unfound other circled there λ k. ground arith)

      filled-Put : Put m key value (pos 1, filled)
      filled-Put = record {
        good = filled-IsMap;
        outcome =
            PutEnd.key_added room (get_vacant m key i run)
              (get_found filled key i new_node filled-found (ground (arith, at i))) refl;
        others = filled_others;
      }

    -- the key is at the place `i`
    module _ (i : ℕ) (old : HashNode V) (run : search_key m key ≡ done (found i))
        (there : load m.buckets i ≡ done (some old)) (same : old.key ≡ key) where
      abbrev updated : HashMap V
      updated = record m { buckets = set m.buckets i (some new_node) }

      at' :
          (j : ℕ)
          → load updated.buckets j ≡ (if i == j then done (some new_node) else load m.buckets j)
      at' j = load-set m.buckets i j (some new_node) (load_inside m.buckets i (some old) there)

      same_search : (other : ℤ) → search_key updated other ≡ search_key m other
      unfolding search_key
      same_search other =
          probe-set_value m.capacity m.buckets m.capacity other
            (hashmap_int_hash other % m.capacity) 1 (hashmap_int_hash other % m.capacity) i old
            new_node there (sym same)

      updated-IsMap : IsMap updated
      updated-IsMap = record {
        places = length-set m.buckets i (some new_node) ∙ v.places;
        nonzero = v.nonzero;
        counted = v.counted ∙ sym (occupied-set_value m.buckets i old new_node there);
        reach = λ j n loaded. elim (Bool-cases (i == j)) [
          | inl here ↦
              let same_key : n.key ≡ key = ground (arith, at' j) in
              let place : i ≡ j = ground arith in
              same_search n.key ∙ ap (search_key m) same_key ∙ run ∙ ap (λ x. done (found x)) place
          | inr elsewhere ↦ same_search n.key ∙ v.reach j n (ground (arith, at' j))
        ];
      }

      updated_others : (other : ℤ) → other ≢ key → hashmap_get updated other ≡ hashmap_get m other
      unfolding hashmap_get value_at
      updated_others other ne =
          let (r, run', is) = Ends-result (search_key-IsProbed m other v.places v.nonzero) in
          go r run' is
        where
          go :
              (r : Probed)
              → search_key m other ≡ done r
              → IsProbed m.buckets other r
              → hashmap_get updated other ≡ hashmap_get m other
          go (found j) run' (n, loaded, is) =
              let apart : (i == j) ≡ false = elim (Bool-cases (i == j)) [
                | inr e ↦ e
                | inl e ↦
                    let node_is : old ≡ n = ground arith in
                    absurd (ne (sym is ∙ ap (λ (k : HashNode V). k.key) (sym node_is) ∙ same))
              ] in
              get_found updated other j n (same_search other ∙ run') (ground (arith, at' j))
              ∙ sym (get_found m other j n run' loaded)
          go (vacant j) run' is = rw (same_search other, run')
          go circled run' is = rw (same_search other, run')

      updated-Put : Put m key value (pos 0, updated)
      updated-Put = record {
        good = updated-IsMap;
        outcome =
            PutEnd.key_updated old.value room (get_found m key i old run there)
              (get_found updated key i new_node (same_search key ∙ run) (ground (arith, at' i)))
              refl;
        others = updated_others;
      }

    refused-Put : search_key m key ≡ done circled → Put m key value (negsuc 0, m)
    refused-Put run = record {
      good = v;
      outcome = PutEnd.no_place room run (get_circled m key run);
      others = λ other ne. refl;
    }

    probed-Put :
        (r : Probed)
        → search_key m key ≡ done r
        → IsProbed m.buckets key r
        → Put m key value (put_at m key value r)
    unfolding put_at
    probed-Put (found i) run (old, there, same) = updated-Put i old run there same
    probed-Put (vacant i) run empty = filled-Put i run empty
    probed-Put circled run is = refused-Put run

  -- hashmap_put on a well-formed map ends. It returns -1 and changes nothing if the map is full, or if
  -- the probe sequence of the key comes back to its start, and the key is then not held; 0 if the key
  -- was held; 1 if it was not, and the size is then one more. In the last two cases the key leads to
  -- the new value. What every other key leads to stays, and the map stays well-formed.
  pub hashmap_put_correct :
      (m : HashMap V) (key : ℤ) (value : V)
      → IsMap m
      → Ends (Put m key value) (hashmap_put m key value)
  unfolding hashmap_put
  hashmap_put_correct m key value v = elim (Bool-cases (leb m.capacity m.size)) [
    | inl full ↦ rw full (
        ends (record {
          good = v;
          outcome = PutEnd.map_full (ground arith);
          others = λ other ne. refl;
        }))
    | inr room ↦
        let (r, run, is) = Ends-result (search_key-IsProbed m key v.places v.nonzero) in
        rw (room, run) (ends (probed-Put m key value v (ground arith) r run is))
  ]
