-- ===== src/HashMap/Probe.antt =====
-- The probing loop: it ends, at what it says, and writes elsewhere do not disturb it.
use native.Mathlib.Nat.{mod-lt, mod-eq_of_lt, add-mul-mod_self_right}
use os_scheduler.Base.{
  ℕ, zero, suc, ◌+◌, ◌*◌, ◌%◌, ◌≤◌, ◌<◌, ◌≡◌, ◌≢◌, refl, ◌∙◌, inl, inr, Option, none, some, List,
  arith, ◌==◌, length, set, Bool-cases,
}
use os_scheduler.Base.Int.{ℤ, eq_ℤ, eq_ℤ_iff}
use os_scheduler.Base.Outcome.{Outcome, done, load, load-set, load_total, load_inside, Ends, ends}
use os_scheduler.HashMap.{HashNode, Probed, found, vacant, circled, probe_round, probe}

-- After `capacity` steps the square of the step is a multiple of the capacity.
full_circle :
    (capacity original : ℕ)
    → original < capacity
    → (original + capacity * capacity) % capacity ≡ original
full_circle capacity original h = add-mul-mod_self_right original capacity capacity ∙ mod-eq_of_lt h

-- What the end of the loop says of the buckets.
abbrev pub IsProbed : {V : Type 0} → List (Option (HashNode V)) → ℤ → Probed → Type 0
IsProbed {V} buckets key (found i) =
    (n : HashNode V) × (load buckets i ≡ done (some n)) × (n.key ≡ key)
IsProbed buckets key (vacant i) = load buckets i ≡ done none
IsProbed buckets key circled = Unit {0}

module _ {V : Type 0} (buckets : List (Option (HashNode V))) (capacity : ℕ) (key : ℤ)
    (original : ℕ) where
  round-IsProbed :
      (continue : (step index : ℕ) → Outcome Probed) (step index : ℕ)
      → original < capacity
      → step ≤ capacity
      → (step < capacity
          → (next : ℕ) → next < capacity
          → Ends (IsProbed buckets key) (continue (suc step) next))
      → (o : Option (HashNode V)) → load buckets index ≡ done o
      → Ends (IsProbed buckets key) (probe_round continue capacity key original step index o)
  unfolding probe_round
  round-IsProbed continue step index ho hs recurse none loaded = ends loaded
  round-IsProbed continue step index ho hs recurse (some n) loaded =
      elim (Bool-cases (eq_ℤ n.key key)) [
        | inl same ↦ rw same (ends (n, loaded, (eq_ℤ_iff n.key key).0 same))
        | inr other ↦ elim (Bool-cases ((original + step * step) % capacity == original)) [
          | inl back ↦ rw (other, back) (ends tt)
          | inr on ↦
              let ne : step ≢ capacity =
                λ e. absurd (ground (arith, full_circle capacity original ho)) in
              let next = mod-lt (original + step * step) {m = capacity} (omega arith) in
              rw (other, on) (recurse (omega arith) ((original + step * step) % capacity) next)
        ]
      ]

  -- The loop ends within as many rounds as the map has places.
  pub probe-IsProbed :
      (fuel step index : ℕ)
      → length buckets ≡ capacity
      → original < capacity
      → index < capacity
      → step ≤ capacity
      → capacity < fuel + step
      → Ends (IsProbed buckets key) (probe fuel buckets capacity key original step index)
  unfolding probe
  probe-IsProbed zero step index size ho hi hs hf = absurd (omega arith)
  probe-IsProbed (suc fuel) step index size ho hi hs hf =
      let (o, loaded) = load_total buckets index (omega arith) in
      rw loaded (
        round-IsProbed (probe fuel buckets capacity key original) step index ho hs
          (λ below next inside.
            probe-IsProbed fuel (suc step) next size ho inside (omega arith) (omega arith))
          o loaded)

-- Filling an empty place disturbs no search that succeeds.
pub probe-set_vacant :
    {V : Type 0} (fuel : ℕ) (buckets : List (Option (HashNode V))) (capacity : ℕ) (key : ℤ)
    (original step index v i : ℕ) (n : HashNode V)
    → load buckets v ≡ done none
    → probe fuel buckets capacity key original step index ≡ done (found i)
    → probe fuel (set buckets v (some n)) capacity key original step index ≡ done (found i)
unfolding probe probe_round
probe-set_vacant zero buckets capacity key original step index v i n empty run = cc
probe-set_vacant (suc fuel) buckets capacity key original step index v i n empty run =
    let inside = load_inside buckets v none empty in
    let next = (original + step * step) % capacity in
    let later = probe-set_vacant fuel buckets capacity key original (suc step) next v i n empty in
    ground (arith, load-set buckets v index (some n) inside, later)

-- The key that is put into an empty place at the end of its search is found there.
pub probe-found_vacant :
    {V : Type 0} (fuel : ℕ) (buckets : List (Option (HashNode V))) (capacity : ℕ) (key : ℤ)
    (original step index v : ℕ) (n : HashNode V)
    → n.key ≡ key
    → probe fuel buckets capacity key original step index ≡ done (vacant v)
    → load buckets v ≡ done none
    → probe fuel (set buckets v (some n)) capacity key original step index ≡ done (found v)
unfolding probe probe_round
probe-found_vacant zero buckets capacity key original step index v n same run empty = cc
probe-found_vacant (suc fuel) buckets capacity key original step index v n same run empty =
    let inside = load_inside buckets v none empty in
    let next = (original + step * step) % capacity in
    let later = probe-found_vacant fuel buckets capacity key original (suc step) next v n same in
    ground (arith, load-set buckets v index (some n) inside, later, (eq_ℤ_iff n.key key).1 same)

-- A new value at a key changes no search.
pub probe-set_value :
    {V : Type 0} (fuel : ℕ) (buckets : List (Option (HashNode V))) (capacity : ℕ) (key : ℤ)
    (original step index i : ℕ) (old new : HashNode V)
    → load buckets i ≡ done (some old)
    → new.key ≡ old.key
    → probe fuel (set buckets i (some new)) capacity key original step index
      ≡ probe fuel buckets capacity key original step index
unfolding probe probe_round
probe-set_value zero buckets capacity key original step index i old new there same = refl
probe-set_value (suc fuel) buckets capacity key original step index i old new there same =
    let inside = load_inside buckets i (some old) there in
    let next = (original + step * step) % capacity in
    let later =
      probe-set_value fuel buckets capacity key original (suc step) next i old new there same in
    ground (arith, load-set buckets i index (some new) inside, later)
