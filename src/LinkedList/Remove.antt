-- ===== src/LinkedList/Remove.antt =====
-- src/DS/linked_list.c: taking a node out of the list.
use mathlib.Core.Path.{subst}
use mathlib.Core.List.{append-nil}
use os_scheduler.Base.{
  ℕ, suc, ◌≡◌, ◌≢◌, refl, sym, ◌∙◌, true, false, none, some, [], ◌∷◌, ◌++◌, arith, ◌==◌, length,
  length-append,
}
use os_scheduler.Base.Int.{pos, negsuc, pos_part, neg_part, ◌-ℤ◌}
use os_scheduler.Base.Outcome.{done, ◌>>=◌, Ends, ends, Ends-bind}
use os_scheduler.Nodes.{null, Node, Heap, free}
use os_scheduler.Nodes.Chain.{
  Cells, occupies, Distinct, last_or, Linked, Linked-append, Linked-split, Linked-write,
  occupies-append, outside_parts, last_or-append, write_self, write_other, ne-test, same-test,
  deref-done, free-done,
}
use os_scheduler.Nodes.Swap.{Distinct-Without, Distinct-join}
use os_scheduler.Nodes.Relink.{SameOutside, Linked-frame, set_next-Relinked, set_prev-Relinked}
use os_scheduler.LinkedList.{
  create_linked_list, LinkedList, remove_node_from_front, remove_node_from_back, unlink_inner,
  remove_node,
}
use os_scheduler.LinkedList.Add.{IsListOf, counted_down}

-- The node is out of the list, but still stands.
pub record Unlinked (h : Heap) (before : Cells) (c : ℕ × ℕ) (after : Cells) (r : Heap × LinkedList)
    : Type 0 where
  pub list : IsListOf r.0 r.1 (before ++ after)
  pub held : (n : Node) × (r.0 c.0 ≡ some n)
  pub same : SameOutside (before ++ c ∷ after) h r.0

shorter :
    (before : Cells) (c : ℕ × ℕ) (after : Cells)
    → pos (length (before ++ c ∷ after)) -ℤ pos 1 ≡ pos (length (before ++ after))
shorter before c after =
    let longer : length (before ++ c ∷ after) ≡ suc (length (before ++ after)) =
      omega (arith, length-append before (c ∷ after), length-append before after) in
    rw longer (counted_down (length (before ++ after)))

last-other :
    (c y : ℕ × ℕ) (ys : Cells) → occupies c.0 (y ∷ ys) ≡ false → (c.0 == last_or y.0 ys) ≡ false
last-other c y [] out = ground arith
last-other c y (z ∷ zs) out = last-other c z zs (ground arith)

first-other : (c b : ℕ × ℕ) (bs : Cells) → occupies c.0 (b ∷ bs) ≡ false → (b.0 == c.0) ≡ false
first-other c b bs out = ground arith

before-other : (c b : ℕ × ℕ) (bs : Cells) → occupies c.0 (b ∷ bs) ≡ false → (c.0 == b.0) ≡ false
before-other c b bs out = ground arith

module _ (h : Heap) (l : LinkedList) (c : ℕ × ℕ) where
  pub remove_node_from_front_correct :
      (after : Cells)
      → IsListOf h l (c ∷ after)
      → Ends (Unlinked h [] c after) (remove_node_from_front h l)
  unfolding remove_node_from_front
  remove_node_from_front_correct [] v =
      rw (v.at_head, ne-test c.0 null v.linked.0, v.at_tail, same-test c.0)
        (ends (record {
          list = record {
            linked = tt;
            distinct = tt;
            at_head = refl;
            at_tail = refl;
            counted = rw v.counted (counted_down 0);
          };
          held = (_, v.linked.1);
          same = λ a out. refl;
        }))
  remove_node_from_front_correct (y ∷ ys) v =
      let (real, held, rest) = v.linked in
      rw
        (
          v.at_head,
          ne-test c.0 null real,
          v.at_tail,
          last-other c y ys v.distinct.0,
          deref-done h real held,
        )
        (Ends-bind (set_prev-Relinked h c.0 y ys null null v.distinct.1 rest) λ h1 r1.
          ends (record {
            list = record {
              linked = r1.linked;
              distinct = v.distinct.1;
              at_head = refl;
              at_tail = refl;
              counted = rw v.counted (counted_down (length (y ∷ ys)));
            };
            held = (_, r1.same c.0 v.distinct.0 ∙ held);
            same = λ a out. r1.same a (ground arith);
          }))

  -- The last node, behind others.
  pub remove_node_from_back_correct :
      (b : ℕ × ℕ) (bs : Cells)
      → IsListOf h l ((b ∷ bs) ++ c ∷ [])
      → Ends (Unlinked h (b ∷ bs) c []) (remove_node_from_back h l)
  unfolding remove_node_from_back
  remove_node_from_back_correct b bs v =
      let w = Distinct-Without (b ∷ bs) c [] v.distinct in
      let (linked, (real, held, _)) = Linked-split h null (b ∷ bs) (c ∷ []) null v.linked in
      let at_tail = v.at_tail ∙ last_or-append b.0 bs (c ∷ []) in
      let apart : (b.0 == c.0) ≡ false = first-other c b bs w.not_before in
      rw (v.at_head, ne-test b.0 null linked.0, at_tail, apart, deref-done h real held)
        (Ends-bind (set_next-Relinked h null b bs c.0 null w.left linked) λ h1 r1. ends (record {
          list = record {
            linked = subst (λ xs. Linked h1 null xs null) (sym (append-nil (b ∷ bs))) r1.linked;
            distinct = subst Distinct (sym (append-nil (b ∷ bs))) w.left;
            at_head = refl;
            at_tail = sym (last_or-append b.0 bs []);
            counted = rw v.counted (shorter (b ∷ bs) c []);
          };
          held = (_, r1.same c.0 w.not_before ∙ held);
          same = λ a out. r1.same a (outside_parts a (b ∷ bs) (c ∷ []) out).0;
        }))

  -- A node between others.
  unlink_inner-Unlinked :
      (b : ℕ × ℕ) (bs : Cells) (y : ℕ × ℕ) (ys : Cells)
      → IsListOf h l ((b ∷ bs) ++ c ∷ y ∷ ys)
      → Ends (Unlinked h (b ∷ bs) c (y ∷ ys)) (unlink_inner h l c.0)
  unfolding unlink_inner
  unlink_inner-Unlinked b bs y ys v =
      let before = b ∷ bs in
      let after = y ∷ ys in
      let last = last_or b.0 bs in
      let w = Distinct-Without before c after v.distinct in
      let (front, (real, held, back)) = Linked-split h null before (c ∷ after) null v.linked in
      rw (deref-done h real held) (
        Ends-bind (set_next-Relinked h null b bs c.0 y.0 w.left front) λ h1 r1.
          let held1 = r1.same c.0 w.not_before ∙ held in
          let back1 = Linked-frame h h1 c.0 after null (λ a i. r1.same a (w.apart_back a i)) back in
          rw (deref-done h1 real held1) (
            Ends-bind (set_prev-Relinked h1 c.0 y ys null last w.right back1) λ h2 r2.
              let front2 =
                Linked-frame h1 h2 null before y.0 (λ a i. r2.same a (w.apart a i)) r1.linked in
              ends (record {
                list = record {
                  linked = Linked-append h2 null before after null front2 r2.linked;
                  distinct = Distinct-join before after w.left w.right w.apart;
                  at_head = v.at_head;
                  at_tail = v.at_tail ∙ ends_alike;
                  counted = rw v.counted (shorter before c after);
                };
                held = (_, r2.same c.0 w.not_after ∙ held1);
                same = λ a out.
                    let (out_front, out_back) = outside_parts a before (c ∷ after) out in
                    r2.same a (ground arith) ∙ r1.same a out_front;
              })))
    where
      ends_alike : last_or b.0 (bs ++ c ∷ y ∷ ys) ≡ last_or b.0 (bs ++ y ∷ ys)
      ends_alike = last_or-append b.0 bs (c ∷ y ∷ ys) ∙ sym (last_or-append b.0 bs (y ∷ ys))

  free-Unlinked :
      (before after : Cells) (r : Heap × LinkedList)
      → c.0 ≢ null
      → Distinct (before ++ c ∷ after)
      → Unlinked h before c after r
      → Ends
          (λ (s : Heap × LinkedList).
            IsListOf s.0 s.1 (before ++ after)
            × (s.0 c.0 ≡ none)
            × SameOutside (before ++ c ∷ after) h s.0)
          (free r.0 c.0 >>= λ freed. done (freed, r.1))
  free-Unlinked before after r real distinct u =
      let w = Distinct-Without before c after distinct in
      let out : occupies c.0 (before ++ after) ≡ false =
        rw (occupies-append c.0 before after, w.not_before, w.not_after) refl in
      rw (free-done r.0 real u.held.1) (
        ends (
          record {
            linked = Linked-write r.0 null (before ++ after) null c.0 none out u.list.linked;
            distinct = u.list.distinct;
            at_head = u.list.at_head;
            at_tail = u.list.at_tail;
            counted = u.list.counted;
          },
          write_self r.0 c.0 none,
          λ a other.
              let (_, out_back) = outside_parts a before (c ∷ after) other in
              write_other r.0 c.0 a none (ground arith) ∙ u.same a other,
        ))

  -- remove_node of a node of the list ends, the list then holds exactly the other nodes in their order,
  -- the node is given back, and no node of another list is touched.
  pub remove_node_correct :
      (before after : Cells)
      → IsListOf h l (before ++ c ∷ after)
      → Ends
          (λ r.
            IsListOf r.0 r.1 (before ++ after)
            × (r.0 c.0 ≡ none)
            × SameOutside (before ++ c ∷ after) h r.0)
          (remove_node h l c.0)
  unfolding remove_node
  remove_node_correct [] after v =
      let at_head : (c.0 == l.head) ≡ true = rw (v.at_head, same-test c.0) in
      rw at_head (
        Ends-bind (remove_node_from_front_correct after v)
          λ r u. free-Unlinked [] after r v.linked.0 v.distinct u)
  remove_node_correct (b ∷ bs) [] v =
      let w = Distinct-Without (b ∷ bs) c [] v.distinct in
      let (_, (real, _, _)) = Linked-split h null (b ∷ bs) (c ∷ []) null v.linked in
      let not_head : (c.0 == l.head) ≡ false = rw (v.at_head, before-other c b bs w.not_before) in
      let at_tail : (c.0 == l.tail) ≡ true =
        rw (v.at_tail, last_or-append b.0 bs (c ∷ []), same-test c.0) in
      rw (not_head, at_tail)
        (Ends-bind (remove_node_from_back_correct b bs v)
          λ r u. free-Unlinked (b ∷ bs) [] r real v.distinct u)
  remove_node_correct (b ∷ bs) (y ∷ ys) v =
      let w = Distinct-Without (b ∷ bs) c (y ∷ ys) v.distinct in
      let (_, (real, _, _)) = Linked-split h null (b ∷ bs) (c ∷ y ∷ ys) null v.linked in
      let not_head : (c.0 == l.head) ≡ false = rw (v.at_head, before-other c b bs w.not_before) in
      let not_tail : (c.0 == l.tail) ≡ false =
        rw (v.at_tail, last_or-append b.0 bs (c ∷ y ∷ ys), last-other c y ys w.not_after) in
      rw (not_head, not_tail)
        (Ends-bind (unlink_inner-Unlinked b bs y ys v)
          λ r u. free-Unlinked (b ∷ bs) (y ∷ ys) r real v.distinct u)

-- Taking an end off an empty list counts its size down all the same: a new list then has size -1.
pub remove_from_empty :
    (h : Heap)
    → (remove_node_from_front h create_linked_list
        ≡ done (h, record create_linked_list { size = negsuc 0 }))
      × (remove_node_from_back h create_linked_list
          ≡ done (h, record create_linked_list { size = negsuc 0 }))
unfolding create_linked_list remove_node_from_front remove_node_from_back ◌-ℤ◌ pos_part neg_part
remove_from_empty h = (refl, refl)
