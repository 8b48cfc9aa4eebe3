-- ===== src/HashMap/Laws.antt =====
-- hashmap_create, hashmap_put and hashmap_get.
use native.Mathlib.Nat.{mod-lt}
use os_scheduler.Base.{
  ℕ, zero, suc, ◌%◌, ◌<◌, ◌≡◌, ◌≢◌, refl, sym, ap, Option, none, some, List, [], ◌∷◌, arith, length,
  length-replicate, set, replicate,
}
use os_scheduler.Base.Int.{ℤ}
use os_scheduler.Base.Outcome.{done, load, Ends, Ends-result}
use os_scheduler.HashMap.{
  HashNode, HashMap, Probed, found, vacant, circled, hashmap_int_hash, search_key, hashmap_create,
  value_at, hashmap_get,
}
use os_scheduler.HashMap.Probe.{IsProbed, probe-IsProbed}

module _ {V : Type 0} where
  -- The places in use.
  abbrev pub occupied : List (Option (HashNode V)) → ℕ
  occupied [] = 0
  occupied (none ∷ bs) = occupied bs
  occupied (some _ ∷ bs) = suc (occupied bs)

  -- Every key in the buckets is found by its own search.
  pub record IsMap (m : HashMap V) : Type 0 where
    pub places : length m.buckets ≡ m.capacity
    pub nonzero : 0 < m.capacity
    pub counted : m.size ≡ occupied m.buckets
    pub reach :
        (i : ℕ) (n : HashNode V)
        → load m.buckets i ≡ done (some n)
        → search_key m n.key ≡ done (found i)

  abbrev pub Absent : HashMap V → ℤ → Type 0
  Absent m key = (i : ℕ) (n : HashNode V) → load m.buckets i ≡ done (some n) → n.key ≢ key

  pub occupied-set_vacant :
      (bs : List (Option (HashNode V))) (i : ℕ) (n : HashNode V)
      → load bs i ≡ done none
      → occupied (set bs i (some n)) ≡ suc (occupied bs)
  unfolding load
  occupied-set_vacant [] i n h = cc
  occupied-set_vacant (none ∷ bs) zero n h = refl
  occupied-set_vacant (some m ∷ bs) zero n h = cc
  occupied-set_vacant (none ∷ bs) (suc i) n h = occupied-set_vacant bs i n h
  occupied-set_vacant (some m ∷ bs) (suc i) n h = ap suc (occupied-set_vacant bs i n h)

  pub occupied-set_value :
      (bs : List (Option (HashNode V))) (i : ℕ) (old n : HashNode V)
      → load bs i ≡ done (some old)
      → occupied (set bs i (some n)) ≡ occupied bs
  unfolding load
  occupied-set_value [] i old n h = cc
  occupied-set_value (none ∷ bs) zero old n h = cc
  occupied-set_value (some m ∷ bs) zero old n h = refl
  occupied-set_value (none ∷ bs) (suc i) old n h = occupied-set_value bs i old n h
  occupied-set_value (some m ∷ bs) (suc i) old n h = ap suc (occupied-set_value bs i old n h)

  -- A search of a map ends.
  pub search_key-IsProbed :
      (m : HashMap V) (key : ℤ)
      → length m.buckets ≡ m.capacity
      → 0 < m.capacity
      → Ends (IsProbed m.buckets key) (search_key m key)
  unfolding search_key
  search_key-IsProbed m key size pos_capacity =
      let inside = mod-lt (hashmap_int_hash key) {m = m.capacity} pos_capacity in
      probe-IsProbed m.buckets m.capacity key (hashmap_int_hash key % m.capacity) m.capacity 1
        (hashmap_int_hash key % m.capacity) size inside inside (omega arith) (omega arith)

  -- A search of a key that is nowhere in the buckets finds nothing.
  pub value_at-Absent :
      (m : HashMap V) (key : ℤ)
      → Absent m key
      → (r : Probed) → IsProbed m.buckets key r
      → value_at m r ≡ done none
  unfolding value_at
  value_at-Absent m key absent (found i) (n, loaded, same) = absurd (absent i n loaded same)
  value_at-Absent m key absent (vacant i) is = refl
  value_at-Absent m key absent circled is = refl

  pub get-Absent :
      (m : HashMap V) (key : ℤ)
      → length m.buckets ≡ m.capacity
      → 0 < m.capacity
      → Absent m key
      → hashmap_get m key ≡ done none
  unfolding hashmap_get
  get-Absent m key size pos_capacity absent =
      let (r, run, is) = Ends-result (search_key-IsProbed m key size pos_capacity) in
      rw run (value_at-Absent m key absent r is)

  pub get_found :
      (m : HashMap V) (key : ℤ) (i : ℕ) (n : HashNode V)
      → search_key m key ≡ done (found i)
      → load m.buckets i ≡ done (some n)
      → hashmap_get m key ≡ done (some n.value)
  unfolding hashmap_get value_at
  get_found m key i n run loaded = rw (run, loaded)

  nothing_loaded : (c i : ℕ) (n : HashNode V) → load (replicate c none) i ≡ done (some n) → ⊥
  unfolding load
  nothing_loaded zero i n h = cc
  nothing_loaded (suc c) zero n h = cc
  nothing_loaded (suc c) (suc i) n h = nothing_loaded c i n h

  nothing_occupied :
      (bs : List (Option (HashNode V)))
      → ((i : ℕ) (n : HashNode V) → load bs i ≢ done (some n))
      → occupied bs ≡ 0
  unfolding load
  nothing_occupied [] h = refl
  nothing_occupied (none ∷ bs) h = nothing_occupied bs λ i n. h (suc i) n
  nothing_occupied (some n ∷ bs) h = absurd (h 0 n refl)

  -- hashmap_create makes a map in which no key is found.
  pub hashmap_create-IsMap :
      (capacity : ℕ)
      → 0 < capacity
      → IsMap (hashmap_create {V = V} capacity)
        × ((key : ℤ) → hashmap_get (hashmap_create {V = V} capacity) key ≡ done none)
  unfolding hashmap_create
  hashmap_create-IsMap capacity h =
      let empty : HashMap V = record {
        buckets = replicate capacity none;
        capacity = capacity;
        size = 0;
      } in
      let absent : (key : ℤ) → Absent empty key =
        λ key i n loaded. absurd (nothing_loaded capacity i n loaded) in
      (
        record {
          places = length-replicate capacity none;
          nonzero = h;
          counted = sym (nothing_occupied (replicate capacity none) (nothing_loaded capacity));
          reach = λ i n loaded. absurd (nothing_loaded capacity i n loaded);
        },
        λ key. get-Absent empty key (length-replicate capacity none) h (absent key),
      )
