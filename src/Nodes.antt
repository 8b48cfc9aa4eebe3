-- ===== src/Nodes.antt =====
-- The nodes of src/DS/linked_list.h and src/DS/circular_queue.h: a `next`, a `prev` and a pointer to an
-- object, at addresses. NULL is 0, and an address without a node is fault to follow.
pub mod Chain
pub mod Free
pub mod Relink
pub mod Swap
use os_scheduler.Base.{ℕ, zero, suc, Option, none, some, ◌==◌, if◌then◌else◌}
use os_scheduler.Base.Outcome.{Outcome, done, fault, starved, ◌>>=◌}

abbrev pub null : ℕ
null = 0

pub record Node : Type 0 where
  pub next : ℕ
  pub prev : ℕ
  pub item : ℕ

abbrev pub Heap : Type 0
Heap = ℕ → Option Node

abbrev pub node : (next prev item : ℕ) → Node
node next prev item = record { next = next; prev = prev; item = item }

unfoldable pub write : Heap → ℕ → Option Node → Heap
write h p c = λ a. if a == p then c else h a

-- `*p`
unfoldable pub deref : Heap → ℕ → Outcome Node
deref h p = if p == null then fault else elim (h p) [ none ↦ fault | some n ↦ done n ]

-- `p->next = q` and `p->prev = q`
unfoldable pub set_next : Heap → (p q : ℕ) → Outcome Heap
set_next h p q = do n ← deref h p; done (write h p (some (record n { next = q })))

unfoldable pub set_prev : Heap → (p q : ℕ) → Outcome Heap
set_prev h p q = do n ← deref h p; done (write h p (some (record n { prev = q })))

unfoldable pub free : Heap → ℕ → Outcome Heap
free h p = do n ← deref h p; done (write h p none)

-- The loop that gives back every node from `current` on, of cq_free and free_linked_list.
unfoldable pub free_nodes : (fuel : ℕ) → Heap → (current : ℕ) → Outcome Heap
free_nodes zero h current = starved
free_nodes (suc fuel) h current =
    let rest = deref h current >>= λ temp. free h current >>= λ h. free_nodes fuel h temp.next in
    if current == null then done h else rest
