-- ===== src/LinkedList/Release.antt =====
-- src/DS/linked_list.c: peek and free_linked_list.
use os_scheduler.Base.{ℕ, ◌<◌, ◌≡◌, Option, none, some, List, [], ◌∷◌, length}
use os_scheduler.Base.Outcome.{done, Ends}
use os_scheduler.Nodes.{null, Heap}
use os_scheduler.Nodes.Chain.{Cells, items, ne-test, deref-done}
use os_scheduler.Nodes.Free.{Freed, free_nodes-Freed}
use os_scheduler.LinkedList.{LinkedList, peek, free_linked_list}
use os_scheduler.LinkedList.Add.{IsListOf}

abbrev pub head? : List ℕ → Option ℕ
head? [] = none
head? (x ∷ _) = some x

module _ (h : Heap) (l : LinkedList) (xs : Cells) (v : IsListOf h l xs) where
  -- peek answers the first object, and NULL if there is none.
  pub peek_correct : peek h (some l) ≡ done (head? (items xs))
  unfolding peek
  peek_correct = go xs v
    where
      go : (xs : Cells) → IsListOf h l xs → peek h (some l) ≡ done (head? (items xs))
      go [] v = rw v.at_head
      go (x ∷ xs) v =
          let (real, held, _) = v.linked in
          rw (v.at_head, ne-test x.0 null real, deref-done h real held)

  -- With more fuel than nodes free_linked_list ends, every node of the list is given back, and
  -- nothing else is touched.
  pub free_linked_list-Freed :
      (fuel : ℕ) → length xs < fuel → Ends (Freed xs h) (free_linked_list fuel h (some l))
  unfolding free_linked_list
  free_linked_list-Freed fuel enough =
      rw v.at_head (free_nodes-Freed fuel h null xs enough v.distinct v.linked)
