-- ===== src/LinkedList/Tests.antt =====
-- Runs of src/DS/linked_list.c on a list of three nodes.
use os_scheduler.Base.{◌≡◌, refl, some, none, [], ◌∷◌, ◌++◌, arith}
use os_scheduler.Base.Int.{pos}
use os_scheduler.Base.Outcome.{done, ◌>>=◌, Ends}
use os_scheduler.Nodes.{null, Heap, node, write, deref, set_next, set_prev, free}
use os_scheduler.Nodes.Chain.{Cells}
use os_scheduler.Nodes.Relink.{SameOutside}
use os_scheduler.LinkedList.{
  LinkedList, create_node, create_linked_list, add_node_to_back, add_node_to_front, remove_node,
  unlink_inner, peek,
}
use os_scheduler.LinkedList.Add.{IsListOf, add_node_to_back_correct}
use os_scheduler.LinkedList.Remove.{remove_node_correct}

abbrev nothing : Heap
nothing = λ _. none

abbrev three_nodes : Heap
three_nodes =
    write (write (write nothing 16 (some (node 32 null 7))) 32 (some (node 48 16 8))) 48
      (some (node null 32 9))

abbrev three : LinkedList
three = record { head = 16; tail = 48; size = pos 3 }

abbrev three_cells : Cells
three_cells = (16, 7) ∷ (32, 8) ∷ (48, 9) ∷ []

three-IsListOf : IsListOf three_nodes three three_cells
unfolding write
three-IsListOf = record {
  linked =
      ((λ e. ground arith), refl, ((λ e. ground arith), refl, ((λ e. ground arith), refl, tt)));
  distinct = (refl, (refl, (refl, tt)));
  at_head = refl;
  at_tail = refl;
  counted = refl;
}

-- 7 and 8 are queued, 9 goes in front, and 7 is taken out of the middle.
queued :
    (add_node_to_back (create_node nothing 16 7) create_linked_list 16 >>= λ r.
    add_node_to_back (create_node r.0 32 8) r.1 32 >>= λ r.
    add_node_to_front (create_node r.0 48 9) r.1 48 >>= λ r.
    remove_node r.0 r.1 16 >>= λ r. peek r.0 (some r.1))
    ≡ done (some 9)
unfolding add_node_to_back add_node_to_front create_node create_linked_list remove_node peek deref
    set_next set_prev free write unlink_inner
queued = refl

remove_node_correct_example :
    Ends
      (λ (r : Heap × LinkedList).
        IsListOf r.0 r.1 ((16, 7) ∷ (48, 9) ∷ [])
        × (r.0 32 ≡ none)
        × SameOutside three_cells three_nodes r.0)
      (remove_node three_nodes three 32)
remove_node_correct_example =
    remove_node_correct three_nodes three (32, 8) ((16, 7) ∷ []) ((48, 9) ∷ []) three-IsListOf

abbrev four_nodes : Heap
four_nodes = create_node three_nodes 64 10

four-IsListOf : IsListOf four_nodes three three_cells
unfolding write create_node
four-IsListOf = record {
  linked =
      ((λ e. ground arith), refl, ((λ e. ground arith), refl, ((λ e. ground arith), refl, tt)));
  distinct = (refl, (refl, (refl, tt)));
  at_head = refl;
  at_tail = refl;
  counted = refl;
}

add_node_to_back_correct_example :
    Ends
      (λ (r : Heap × LinkedList). IsListOf r.0 r.1 (three_cells ++ (64, 10) ∷ []))
      (add_node_to_back four_nodes three 64)
unfolding write create_node
add_node_to_back_correct_example =
    add_node_to_back_correct four_nodes three 64 10 (λ e. ground arith) refl three_cells
      (λ e. ground arith) refl four-IsListOf
