-- ===== src/MemoryManager/Waiting.antt =====
-- get_oldest_fit of src/memory_manager.c over the pointers of src/DS/linked_list.c. `process_at` is what
-- stands at an address of a process.
use mathlib.Core.List.{reverse_aux, append_assoc, append-nil}
use mathlib.Core.Path.{subst}
use os_scheduler.Base.{
  ℕ, zero, suc, ◌<◌, ◌≡◌, ◌≢◌, inl, inr, refl, sym, ap, ◌∙◌, Option, none, some, List, [], ◌∷◌,
  ◌++◌, ◌==◌, if◌then◌else◌, arith, length, map, true, false, Option-cases, reverse_aux_split,
}
use os_scheduler.Base.Int.{pos, eq_ℤ, pos_part, neg_part}
use os_scheduler.Base.Outcome.{Outcome, done, starved, ◌>>=◌, Ends, ends, Ends-bind}
use os_scheduler.Pcb.{Process}
use os_scheduler.Buddy.{Place}
use os_scheduler.Nodes.{null, Node, Heap, deref}
use os_scheduler.Nodes.Chain.{Cells, items, first_or, Linked-split, ne-test, deref-done}
use os_scheduler.LinkedList.{LinkedList, remove_node}
use os_scheduler.LinkedList.Add.{IsListOf}
use os_scheduler.LinkedList.Remove.{remove_node_correct}
use os_scheduler.MemoryManager
use os_scheduler.MemoryManager.{MemoryManager, get_smallest_block, fit_from}

-- The `while (current != NULL)` loop.
unfoldable pub find_fit :
    (fuel : ℕ)
    → MemoryManager
    → (process_at : ℕ → Process) → Heap
    → LinkedList
    → (current : ℕ) → Outcome (Option ℕ × Heap × LinkedList)
find_fit zero m process_at h l current = starved
find_fit (suc fuel) m process_at h l current = if current == null then done (none, h, l) else (do
  n ← deref h current
  elim (get_smallest_block m (process_at n.item)) [
    | none ↦ find_fit fuel m process_at h l n.next
    | some fit_block ↦ remove_node h l current >>= λ (h, l). done (some n.item, h, l)
  ])

-- The address of the process, `none` for NULL.
unfoldable pub get_oldest_fit :
    (fuel : ℕ)
    → MemoryManager
    → (process_at : ℕ → Process) → Heap
    → LinkedList
    → Outcome (Option ℕ × Heap × LinkedList)
get_oldest_fit fuel m process_at h l =
    if eq_ℤ l.size (pos 0) then done (none, h, l) else find_fit fuel m process_at h l l.head

module _ (m : MemoryManager) (process_at : ℕ → Process) where
  abbrev pub processes : Cells → List Process
  processes xs = map process_at (items xs)

  abbrev pub at_option : Option ℕ → Option Process
  at_option none = none
  at_option (some a) = some (process_at a)

  processes-append : (xs ys : Cells) → processes (xs ++ ys) ≡ processes xs ++ processes ys
  processes-append [] ys = refl
  processes-append (x ∷ xs) ys = ap (◌∷◌ (process_at x.1)) (processes-append xs ys)

  -- The list that is left, and what the waiting processes say of it.
  abbrev pub Fit : Option Process × List Process → Option ℕ × Heap × LinkedList → Type 0
  Fit answer r = (left : Cells) × IsListOf r.1 r.2 left × (answer ≡ (at_option r.0, processes left))

  fit_from-short :
      (passed : List Process) (process : Process) (rest : List Process)
      → get_smallest_block m process ≡ none
      → fit_from m passed (process ∷ rest) ≡ fit_from m (process ∷ passed) rest
  unfolding fit_from
  fit_from-short passed process rest short = rw (short, fit_from) refl

  fit_from-found :
      (passed : List Process) (process : Process) (rest : List Process) (block : Place)
      → get_smallest_block m process ≡ some block
      → fit_from m passed (process ∷ rest) ≡ (some process, reverse_aux passed rest)
  unfolding fit_from
  fit_from-found passed process rest block found = rw (found, fit_from) refl

  module _ (fuel : ℕ) (h : Heap) (l : LinkedList) (current : ℕ) (n : Node) (real : current ≢ null)
      (held : h current ≡ some n) where
    find_fit-short :
        get_smallest_block m (process_at n.item) ≡ none
        → find_fit (suc fuel) m process_at h l current ≡ find_fit fuel m process_at h l n.next
    unfolding find_fit
    find_fit-short short =
        rw (ne-test current null real) (rw (deref-done h real held, ◌>>=◌) (rw short refl))

    find_fit-found :
        (block : Place)
        → get_smallest_block m (process_at n.item) ≡ some block
        → find_fit (suc fuel) m process_at h l current
          ≡ (remove_node h l current >>= λ (h, l). done (some n.item, h, l))
    unfolding find_fit
    find_fit-found block found =
        rw (ne-test current null real) (rw (deref-done h real held, ◌>>=◌) (rw found refl))

  find_fit-Fit :
      (fuel : ℕ) (h : Heap) (l : LinkedList) (before rest : Cells) (passed : List Process)
      → length rest < fuel
      → IsListOf h l (before ++ rest)
      → processes before ≡ reverse_aux passed []
      → Ends
          (Fit (fit_from m passed (processes rest)))
          (find_fit fuel m process_at h l (first_or null rest))
  unfolding find_fit fit_from
  find_fit-Fit zero h l before rest passed enough v same = absurd (omega arith)
  find_fit-Fit (suc fuel) h l before [] passed enough v same =
      ends (before, subst (IsListOf h l) (append-nil before) v, rw same)
  find_fit-Fit (suc fuel) h l before (c ∷ after) passed enough v same =
      let (_, (real, held, _)) = Linked-split h null before (c ∷ after) null v.linked in
      elim (Option-cases (get_smallest_block m (process_at c.1))) [
        | inl short ↦
            rw
              (
                find_fit-short fuel h l c.0 _ real held short,
                fit_from-short passed (process_at c.1) (processes after) short,
              )
              (find_fit-Fit fuel h l (before ++ c ∷ []) after (process_at c.1 ∷ passed)
                (omega arith) (subst (IsListOf h l) (sym (append_assoc before (c ∷ []) after)) v)
                (processes-append before (c ∷ [])
                  ∙ ap (λ ps. ps ++ process_at c.1 ∷ []) same
                  ∙ sym (reverse_aux_split passed (process_at c.1 ∷ []))))
        | inr (block, found) ↦
            rw
              (
                find_fit-found fuel h l c.0 _ real held block found,
                fit_from-found passed (process_at c.1) (processes after) block found,
              )
              (Ends-bind (remove_node_correct h l c before after v) λ r (list, _, _). ends (
                before ++ after,
                list,
                rw (
                  reverse_aux_split passed (processes after),
                  processes-append before after,
                  same,
                ),
              ))
      ]

  -- get_oldest_fit over the pointers, with more fuel than nodes, ends without a fault; it returns the
  -- process that get_oldest_fit finds in the list of the processes, and leaves a list of exactly the
  -- processes that it leaves.
  pub get_oldest_fit-Fit :
      (fuel : ℕ) (h : Heap) (l : LinkedList) (xs : Cells)
      → length xs < fuel
      → IsListOf h l xs
      → Ends
          (Fit (MemoryManager.get_oldest_fit m (processes xs)))
          (get_oldest_fit fuel m process_at h l)
  unfolding get_oldest_fit MemoryManager.get_oldest_fit fit_from eq_ℤ pos_part neg_part
  get_oldest_fit-Fit fuel h l [] enough v =
      let no_size : eq_ℤ l.size (pos 0) ≡ true = rw v.counted refl in
      rw no_size (ends ([], v, refl))
  get_oldest_fit-Fit fuel h l (x ∷ xs) enough v =
      let some_size : eq_ℤ l.size (pos 0) ≡ false = rw v.counted (ground arith) in
      rw some_size (
        subst
          (λ current.
            Ends (Fit (MemoryManager.get_oldest_fit m (processes (x ∷ xs))))
              (find_fit fuel m process_at h l current))
          (sym v.at_head) (find_fit-Fit fuel h l [] (x ∷ xs) [] enough v refl))
