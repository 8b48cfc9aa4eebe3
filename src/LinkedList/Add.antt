-- ===== src/LinkedList/Add.antt =====
-- src/DS/linked_list.c: the nodes of a list, and the operations that put a node in.
use os_scheduler.Base.{
  ℕ, suc, ◌≡◌, ◌≢◌, refl, sym, ap, ◌∙◌, false, some, [], ◌∷◌, ◌++◌, arith, length, length-append,
}
use os_scheduler.Base.Int.{pos, ◌+ℤ◌, ◌-ℤ◌, pos_part, neg_part}
use os_scheduler.Base.Outcome.{Ends, ends, Ends-bind}
use os_scheduler.Nodes.{null, Heap, node}
use os_scheduler.Nodes.Chain.{
  Cells, occupies, Distinct, first_or, last_or, Linked, Linked-append, Linked-write, last_or-append,
  write_self, ne-test, deref-done, set_next-done, set_prev-done,
}
use os_scheduler.Nodes.Swap.{Distinct-swap}
use os_scheduler.Nodes.Relink.{set_next-Relinked, set_prev-Relinked}
use os_scheduler.LinkedList.{LinkedList, create_linked_list, add_node_to_back, add_node_to_front}

-- The list holds exactly these nodes.
pub record IsListOf (h : Heap) (l : LinkedList) (xs : Cells) : Type 0 where
  pub linked : Linked h null xs null
  pub distinct : Distinct xs
  pub at_head : l.head ≡ first_or null xs
  pub at_tail : l.tail ≡ last_or null xs
  pub counted : l.size ≡ pos (length xs)

pub create_linked_list-IsListOf : (h : Heap) → IsListOf h create_linked_list []
unfolding create_linked_list
create_linked_list-IsListOf h = record {
  linked = tt;
  distinct = tt;
  at_head = refl;
  at_tail = refl;
  counted = refl;
}

pub counted_up : (n : ℕ) → pos n +ℤ pos 1 ≡ pos (suc n)
unfolding ◌+ℤ◌ pos_part neg_part
counted_up n = ground arith

pub counted_down : (n : ℕ) → pos (suc n) -ℤ pos 1 ≡ pos n
unfolding ◌-ℤ◌ pos_part neg_part
counted_down n = ground arith

longer : (x : ℕ × ℕ) (xs : Cells) → pos (length xs) +ℤ pos 1 ≡ pos (length (xs ++ x ∷ []))
longer x xs = counted_up (length xs) ∙ ap pos (omega (arith, length-append xs (x ∷ [])))

module _ (h : Heap) (l : LinkedList) (added obj : ℕ) (real : added ≢ null)
    (holds : h added ≡ some (node null null obj)) where
  -- add_node_to_back of a new node with an object adds it at the end of the list.
  pub add_node_to_back_correct :
      (xs : Cells)
      → obj ≢ null
      → occupies added xs ≡ false
      → IsListOf h l xs
      → Ends (λ r. IsListOf r.0 r.1 (xs ++ (added, obj) ∷ [])) (add_node_to_back h l added)
  unfolding add_node_to_back
  add_node_to_back_correct [] some_obj out v =
      rw (deref-done h real holds, ne-test obj null some_obj, v.at_head)
        (ends (record {
          linked = (real, holds, tt);
          distinct = (refl, tt);
          at_head = refl;
          at_tail = refl;
          counted = rw v.counted (counted_up 0);
        }))
  add_node_to_back_correct (x ∷ xs) some_obj out v =
      let tail = last_or x.0 xs in
      let some_head = ne-test x.0 null v.linked.0 in
      rw (deref-done h real holds, ne-test obj null some_obj, v.at_head, some_head, v.at_tail)
        (Ends-bind (set_next-Relinked h null x xs null added v.distinct v.linked) λ h1 r1.
          let holds1 = r1.same added out ∙ holds in
          rw (set_prev-done h1 real holds1 tail) (
            ends (record {
              linked =
                  Linked-append _ null (x ∷ xs) ((added, obj) ∷ []) null
                    (Linked-write h1 null (x ∷ xs) added added _ out r1.linked)
                    (real, write_self h1 added _, tt);
              distinct = Distinct-swap ((added, obj) ∷ []) (x ∷ xs) (out, v.distinct);
              at_head = refl;
              at_tail = sym (last_or-append x.0 xs ((added, obj) ∷ []));
              counted = rw v.counted (longer (added, obj) (x ∷ xs));
            })))

  -- add_node_to_front of a new node adds it at the start of the list.
  pub add_node_to_front_correct :
      (xs : Cells)
      → occupies added xs ≡ false
      → IsListOf h l xs
      → Ends (λ r. IsListOf r.0 r.1 ((added, obj) ∷ xs)) (add_node_to_front h l added)
  unfolding add_node_to_front
  add_node_to_front_correct [] out v = rw v.at_head (
      ends (record {
        linked = (real, holds, tt);
        distinct = (refl, tt);
        at_head = refl;
        at_tail = refl;
        counted = rw v.counted (counted_up 0);
      }))
  add_node_to_front_correct (x ∷ xs) out v =
      rw (v.at_head, ne-test x.0 null v.linked.0)
        (Ends-bind (set_prev-Relinked h null x xs null added v.distinct v.linked) λ h1 r1.
          let holds1 = r1.same added out ∙ holds in
          rw (set_next-done h1 real holds1 x.0) (
            ends (record {
              linked = (
                real,
                write_self h1 added _,
                Linked-write h1 added (x ∷ xs) null added _ out r1.linked,
              );
              distinct = (out, v.distinct);
              at_head = refl;
              at_tail = v.at_tail;
              counted = rw v.counted (counted_up (length (x ∷ xs)));
            })))
