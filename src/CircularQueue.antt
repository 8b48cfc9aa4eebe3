-- ===== src/CircularQueue.antt =====
-- src/DS/circular_queue.c and .h: the ring that Round Robin turns. The nodes of the ring are kept
-- in the order of the `next` links, cut open between `tail` and `tail->next`: `waiting` leads from
-- `head` to `tail`, and `passed` holds what lies before `head`, the nearest first. `head` and
-- `tail` are NULL exactly when `waiting` is empty. Objects are addresses; `malloc` succeeds.
pub mod Order
pub mod Pointers
pub mod Ring
pub mod Refine
pub mod Reach
pub mod Turn
pub mod Release
mod Tests
use mathlib.Core.List.{reverse_aux}
use os_scheduler.Base.{ℕ, ◌+◌, ◌-◌, Bool, Option, none, some, List, [], ◌∷◌, ◌++◌, ◌==◌}

pub record CircularQueue : Type 0 where
  pub passed : List ℕ
  pub waiting : List ℕ
  pub size : ℕ

unfoldable pub circular_queue : CircularQueue
circular_queue = record { passed = []; waiting = []; size = 0 }

-- The new node goes between `tail` and `tail->next`, and becomes `tail`.
unfoldable pub cq_enqueue : CircularQueue → ℕ → CircularQueue
cq_enqueue q obj = record q { waiting = q.waiting ++ obj ∷ []; size = q.size + 1 }

-- `head = head->next`: past `tail` it comes round to `tail->next`.
abbrev pub advance : (passed waiting : List ℕ) → List ℕ × List ℕ
advance passed [] = (passed, [])
advance passed (x ∷ []) = ([], reverse_aux passed (x ∷ []))
advance passed (x ∷ y ∷ waiting) = (x ∷ passed, y ∷ waiting)

abbrev pub head? : List ℕ → Option ℕ
head? [] = none
head? (x ∷ _) = some x

-- `none` for NULL.
unfoldable pub cq_dequeue : CircularQueue → Option ℕ × CircularQueue
cq_dequeue q =
    let (passed, waiting) = advance q.passed q.waiting in
    (head? q.waiting, record q { passed = passed; waiting = waiting })

-- The node at `head` is unlinked, and `head` is its `next`. Where it was `tail`, its `prev` is.
abbrev pub unlink : (passed waiting : List ℕ) → List ℕ × List ℕ
unlink passed [] = (passed, [])
unlink passed (x ∷ []) = ([], reverse_aux passed [])
unlink passed (x ∷ y ∷ waiting) = (passed, y ∷ waiting)

abbrev pub removed : List ℕ → CircularQueue → CircularQueue
removed [] q = q
removed (x ∷ _) q =
    let (passed, waiting) = unlink q.passed q.waiting in
    record { passed = passed; waiting = waiting; size = q.size - 1 }

unfoldable pub cq_dequeue_and_remove : CircularQueue → Option ℕ × CircularQueue
cq_dequeue_and_remove q = (head? q.waiting, removed q.waiting q)

unfoldable pub cq_front : CircularQueue → Option ℕ
cq_front q = head? q.waiting

unfoldable pub cq_is_empty : CircularQueue → Bool
cq_is_empty q = q.size == 0

unfoldable pub cq_size : CircularQueue → ℕ
cq_size q = q.size
