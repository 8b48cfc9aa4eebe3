-- ===== src/LinkedList.antt =====
-- src/DS/linked_list.c: the list of waiting processes, at the level of its pointers. The objects are
-- addresses. The two functions that remove an end return no value where there is a node, and nothing
-- reads one.
pub mod Add
pub mod Remove
pub mod Release
mod Tests
use os_scheduler.Base.{ℕ, Bool, Option, none, some, ◌==◌, if◌then◌else◌}
use os_scheduler.Base.Int.{ℤ, pos, ◌+ℤ◌, ◌-ℤ◌}
use os_scheduler.Base.Outcome.{Outcome, done, fault, ◌>>=◌}
use os_scheduler.Nodes.{null, Node, Heap, node, write, deref, set_next, set_prev, free, free_nodes}

pub record LinkedList : Type 0 where
  pub head : ℕ
  pub tail : ℕ
  pub size : ℤ

-- `new` is the address that malloc returns.
unfoldable pub create_node : Heap → (new obj : ℕ) → Heap
create_node h new obj = write h new (some (node null null obj))

unfoldable pub create_linked_list : LinkedList
create_linked_list = record { head = null; tail = null; size = pos 0 }

-- The object is read first, for the line that is printed.
unfoldable pub add_node_to_back : Heap → LinkedList → (added : ℕ) → Outcome (Heap × LinkedList)
add_node_to_back h l added = do
  n ← deref h added
  let size = l.size +ℤ pos 1
  if n.item == null
      then fault
      else if l.head == null
      then done (h, record { head = added; tail = added; size = size })
      else (do
        h ← set_next h l.tail added
        h ← set_prev h added l.tail
        done (h, record { head = l.head; tail = added; size = size }))

unfoldable pub add_node_to_front : Heap → LinkedList → (added : ℕ) → Outcome (Heap × LinkedList)
add_node_to_front h l added =
    let size = l.size +ℤ pos 1 in
    if l.head == null then done (h, record { head = added; tail = added; size = size }) else (do
      h ← set_prev h l.head added
      h ← set_next h added l.head
      done (h, record { head = added; tail = l.tail; size = size }))

-- The size is counted down before the test for an empty list.
unfoldable pub remove_node_from_front : Heap → LinkedList → Outcome (Heap × LinkedList)
remove_node_from_front h l =
    let size = l.size -ℤ pos 1 in
    if l.head == null
    then done (h, record l { size = size })
    else if l.head == l.tail
    then done (h, record { head = null; tail = null; size = size })
    else (do
      first ← deref h l.head
      h ← set_prev h first.next null
      done (h, record { head = first.next; tail = l.tail; size = size }))

unfoldable pub remove_node_from_back : Heap → LinkedList → Outcome (Heap × LinkedList)
remove_node_from_back h l =
    let size = l.size -ℤ pos 1 in
    if l.head == null
    then done (h, record l { size = size })
    else if l.head == l.tail
    then done (h, record { head = null; tail = null; size = size })
    else (do
      last ← deref h l.tail
      h ← set_next h last.prev null
      done (h, record { head = l.head; tail = last.prev; size = size }))

-- The node between two others.
unfoldable pub unlink_inner : Heap → LinkedList → (removed : ℕ) → Outcome (Heap × LinkedList)
unlink_inner h l removed = do
  n ← deref h removed
  h ← set_next h n.prev n.next
  n ← deref h removed
  h ← set_prev h n.next n.prev
  done (h, record l { size = l.size -ℤ pos 1 })

unfoldable pub remove_node : Heap → LinkedList → (removed : ℕ) → Outcome (Heap × LinkedList)
remove_node h l removed = do
  (h, l) ←
      if removed == l.head
      then remove_node_from_front h l
      else if removed == l.tail
      then remove_node_from_back h l
      else unlink_inner h l removed
  h ← free h removed
  done (h, l)

-- The address of the object, `none` for NULL. A list that is NULL is `none` too.
unfoldable pub peek : Heap → Option LinkedList → Outcome (Option ℕ)
peek h none = done none
peek h (some l) = if l.head == null then done none else do n ← deref h l.head; done (some n.item)

-- The nodes are given back; the list itself stands outside this heap.
unfoldable pub free_linked_list : (fuel : ℕ) → Heap → Option LinkedList → Outcome Heap
free_linked_list fuel h none = done h
free_linked_list fuel h (some l) = free_nodes fuel h l.head
