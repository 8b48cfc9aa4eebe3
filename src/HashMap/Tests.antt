-- ===== src/HashMap/Tests.antt =====
-- Runs of src/DS/hash_map.c, and its theorems at one map.
use os_scheduler.Base.{ℕ, ◌≡◌, refl, Option, none, some, List, [], ◌∷◌, arith}
use os_scheduler.Base.Int.{ℤ, pos, eq_ℤ}
use os_scheduler.Base.Outcome.{Outcome, done, ◌>>=◌, Ends, Ends-done, load}
use os_scheduler.HashMap.{
  HashMap, hashmap_int_hash, probe, probe_round, search_key, hashmap_create, put_at, hashmap_put,
  value_at, hashmap_get, hashmap_remove,
}
use os_scheduler.HashMap.Laws.{IsMap, hashmap_create-IsMap}
use os_scheduler.HashMap.Remove.{Removed, hashmap_remove_correct, hashmap_remove_hides}
use os_scheduler.HashMap.Put.{Put, hashmap_put_correct}

abbrev empty : HashMap ℕ
empty = hashmap_create 100

abbrev session : Outcome (List ℤ × List (Option ℕ))
session = do
  (a, m) ← hashmap_put empty (pos 1234) 7
  (b, m) ← hashmap_put m (pos 1235) 8
  (c, m) ← hashmap_put m (pos 1234) 9
  x ← hashmap_get m (pos 1234)
  y ← hashmap_get m (pos 1235)
  z ← hashmap_get m (pos 1236)
  done (a ∷ b ∷ c ∷ [], x ∷ y ∷ z ∷ [])

round_trip : session ≡ done (pos 1 ∷ pos 1 ∷ pos 0 ∷ [], some 9 ∷ some 8 ∷ none ∷ [])
unfolding hashmap_create hashmap_put put_at search_key probe probe_round hashmap_int_hash load eq_ℤ
    hashmap_get value_at
round_trip = refl

empty-IsMap : IsMap empty
empty-IsMap = (hashmap_create-IsMap 100 (omega arith)).0

hashmap_put_correct_example : Ends (Put empty (pos 1234) 7) (hashmap_put empty (pos 1234) 7)
hashmap_put_correct_example = hashmap_put_correct empty (pos 1234) 7 empty-IsMap

-- In a map of 4 places the keys 1 and 8 have one home, the place 3.
abbrev one : HashMap ℕ
one = record {
  buckets = none ∷ none ∷ none ∷ some (record { key = pos 1; value = 10 }) ∷ [];
  capacity = 4;
  size = 1;
}

abbrev two : HashMap ℕ
two = record {
  buckets =
      some (record { key = pos 8; value = 20 })
      ∷ none
      ∷ none
      ∷ some (record { key = pos 1; value = 10 })
      ∷ [];
  capacity = 4;
  size = 2;
}

put_1 : hashmap_put (hashmap_create 4) (pos 1) 10 ≡ done (pos 1, one)
unfolding hashmap_create hashmap_put put_at search_key probe probe_round hashmap_int_hash load
put_1 = refl

put_8 : hashmap_put one (pos 8) 20 ≡ done (pos 1, two)
unfolding hashmap_put put_at search_key probe probe_round hashmap_int_hash load eq_ℤ
put_8 = refl

one-IsMap : IsMap one
one-IsMap =
    (Ends-done
      (hashmap_put_correct (hashmap_create 4) (pos 1) 10 (hashmap_create-IsMap 4 (omega arith)).0)
      put_1).good

two-IsMap : IsMap two
two-IsMap = (Ends-done (hashmap_put_correct one (pos 8) 20 one-IsMap) put_8).good

hashmap_remove_correct_example : Ends (Removed two (pos 8)) (hashmap_remove two (pos 8))
hashmap_remove_correct_example = hashmap_remove_correct two (pos 8) two-IsMap

hashmap_remove_hides_example :
    (hashmap_get two (pos 8) ≡ done (some 20))
    × Ends
        (λ r.
          (load r.1.buckets 0 ≡ done (some (record { key = pos 8; value = 20 })))
          × (hashmap_get r.1 (pos 8) ≡ done none))
        (hashmap_remove two (pos 1))
unfolding search_key probe probe_round hashmap_int_hash load eq_ℤ
hashmap_remove_hides_example =
    hashmap_remove_hides two (pos 1) (pos 8) 3 0 (record { key = pos 8; value = 20 }) two-IsMap refl
      refl refl refl (ground arith)
