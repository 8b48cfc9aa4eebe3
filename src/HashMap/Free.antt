-- ===== src/HashMap/Free.antt =====
-- src/DS/hash_map.c: hashmap_free.
use mathlib.Core.List.{append_assoc}
use os_scheduler.Base.{
  ℕ, zero, suc, ◌+◌, ◌≡◌, refl, sym, ap, ◌∙◌, Option, none, some, List, [], ◌∷◌, ◌++◌, arith,
  length-append, length,
}
use os_scheduler.Base.Outcome.{done, Ends, ends, load}
use os_scheduler.HashMap.{HashNode, HashMap, free_from, hashmap_free}
use os_scheduler.HashMap.Laws.{IsMap, occupied}

module _ {V : Type 0} where
  -- The nodes in the places, in order.
  abbrev pub nodes_of : List (Option (HashNode V)) → List (HashNode V)
  nodes_of [] = []
  nodes_of (none ∷ bs) = nodes_of bs
  nodes_of (some n ∷ bs) = n ∷ nodes_of bs

  load-behind :
      (front : List (Option (HashNode V))) (b : Option (HashNode V))
      (back : List (Option (HashNode V)))
      → load (front ++ b ∷ back) (length front) ≡ done b
  unfolding load
  load-behind [] b back = refl
  load-behind (x ∷ front) b back = load-behind front b back

  free_from-nodes_of :
      (map : HashMap V) (left i : ℕ) (front back : List (Option (HashNode V)))
      → map.buckets ≡ front ++ back
      → length front ≡ i
      → length back ≡ left
      → free_from left i map ≡ done (nodes_of back)
  unfolding free_from
  free_from-nodes_of map zero i front [] is before behind = refl
  free_from-nodes_of map zero i front (b ∷ back) is before behind = absurd (omega arith)
  free_from-nodes_of map (suc left) i front [] is before behind = absurd (omega arith)
  free_from-nodes_of map (suc left) i front (b ∷ back) is before behind =
      let here : load map.buckets i ≡ done b = rw⁻¹ before (rw is (load-behind front b back)) in
      let rest =
        free_from-nodes_of map left (i + 1) (front ++ b ∷ []) back
          (is ∙ sym (append_assoc front (b ∷ []) back))
          (omega (arith, length-append front (b ∷ []), before)) (omega arith) in
      rw (here, rest) (go b)
    where
      go :
          (b : Option (HashNode V))
          → (done (elim b [ none ↦ nodes_of back | some node ↦ node ∷ nodes_of back ])
              ≡ done (nodes_of (b ∷ back)))
      go none = refl
      go (some n) = refl

  length-nodes_of : (bs : List (Option (HashNode V))) → length (nodes_of bs) ≡ occupied bs
  length-nodes_of [] = refl
  length-nodes_of (none ∷ bs) = length-nodes_of bs
  length-nodes_of (some n ∷ bs) = ap suc (length-nodes_of bs)

  -- hashmap_free of a well-formed map stays within the places and frees as many nodes as the map counts.
  pub hashmap_free_correct :
      (map : HashMap V)
      → IsMap map
      → Ends
          (λ freed. (freed ≡ nodes_of map.buckets) × (length freed ≡ map.size))
          (hashmap_free map)
  unfolding hashmap_free
  hashmap_free_correct map v =
      rw (free_from-nodes_of map map.capacity 0 [] map.buckets refl refl v.places)
        (ends (refl, length-nodes_of map.buckets ∙ sym v.counted))
