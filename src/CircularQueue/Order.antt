-- ===== src/CircularQueue/Order.antt =====
-- The order in which the ring serves its objects.
use mathlib.Core.List.{reverse_aux, append-nil, append_assoc}
use os_scheduler.Base.{
  ℕ, ◌+◌, ◌≡◌, refl, sym, ap, ◌∙◌, List, [], ◌∷◌, ◌++◌, arith, length, length-append,
  length-reverse_aux, reverse_aux_split, true, ◌↔◌,
}
use os_scheduler.CircularQueue.{
  CircularQueue, circular_queue, cq_enqueue, advance, head?, cq_dequeue, unlink, removed,
  cq_dequeue_and_remove, cq_front, cq_is_empty,
}

-- The objects from `head` on, once round the ring.
abbrev pub service : CircularQueue → List ℕ
service q = q.waiting ++ reverse_aux q.passed []

-- `head` stands at a node if there is one, and the size is the number of nodes.
pub record IsRing (q : CircularQueue) : Type 0 where
  pub at_head : q.waiting ≡ [] → q.passed ≡ []
  pub counted : q.size ≡ length q.passed + length q.waiting

pub circular_queue-IsRing : IsRing circular_queue
unfolding circular_queue
circular_queue-IsRing = record { at_head = λ _. refl; counted = refl }

-- What cq_enqueue leaves: the object stands behind those from `head` to `tail`, and before those
-- that `head` has passed.
pub cq_enqueue_correct :
    (q : CircularQueue) (obj : ℕ)
    → IsRing q
    → IsRing (cq_enqueue q obj)
      × (service (cq_enqueue q obj) ≡ q.waiting ++ (obj ∷ reverse_aux q.passed []))
      × (q.passed ≡ [] → service (cq_enqueue q obj) ≡ service q ++ obj ∷ [])
unfolding cq_enqueue
cq_enqueue_correct q obj v = (
  record {
    at_head = λ e. absurd (omega (arith, ap length e, length-append q.waiting (obj ∷ [])));
    counted = omega (arith, v.counted, length-append q.waiting (obj ∷ []));
  },
  append_assoc q.waiting (obj ∷ []) (reverse_aux q.passed []),
  λ none_passed. simp (none_passed, append-nil),
)

-- The first object goes to the end.
abbrev pub rotate : List ℕ → List ℕ
rotate [] = []
rotate (x ∷ xs) = xs ++ x ∷ []

abbrev pub tail : List ℕ → List ℕ
tail [] = []
tail (_ ∷ xs) = xs

service_advance :
    (passed waiting : List ℕ)
    → (waiting ≡ [] → passed ≡ [])
    → (advance passed waiting).1 ++ reverse_aux (advance passed waiting).0 []
      ≡ rotate (waiting ++ reverse_aux passed [])
service_advance passed [] h = rw (h refl)
service_advance passed (x ∷ []) h =
    append-nil (reverse_aux passed (x ∷ [])) ∙ reverse_aux_split passed (x ∷ [])
service_advance passed (x ∷ y ∷ waiting) h =
    ap (λ l. y ∷ (waiting ++ l)) (reverse_aux_split passed (x ∷ []))
    ∙ ap (◌∷◌ y) (sym (append_assoc waiting (reverse_aux passed []) (x ∷ [])))

service_unlink :
    (passed waiting : List ℕ)
    → (waiting ≡ [] → passed ≡ [])
    → (unlink passed waiting).1 ++ reverse_aux (unlink passed waiting).0 []
      ≡ tail (waiting ++ reverse_aux passed [])
service_unlink passed [] h = rw (h refl)
service_unlink passed (x ∷ []) h = append-nil (reverse_aux passed [])
service_unlink passed (x ∷ y ∷ waiting) h = refl

advance-IsRing :
    (passed waiting : List ℕ)
    → (waiting ≡ [] → passed ≡ [])
    → ((advance passed waiting).1 ≡ [] → (advance passed waiting).0 ≡ [])
      × (length (advance passed waiting).0 + length (advance passed waiting).1
          ≡ length passed + length waiting)
advance-IsRing passed [] h = (h, refl)
advance-IsRing passed (x ∷ []) h = (λ _. refl, omega (arith, length-reverse_aux passed (x ∷ [])))
advance-IsRing passed (x ∷ y ∷ waiting) h = (λ e. cc, omega arith)

unlink-IsRing :
    (passed : List ℕ) (x : ℕ) (waiting : List ℕ)
    → ((unlink passed (x ∷ waiting)).1 ≡ [] → (unlink passed (x ∷ waiting)).0 ≡ [])
      × (length (unlink passed (x ∷ waiting)).0 + length (unlink passed (x ∷ waiting)).1
          ≡ length passed + length waiting)
unlink-IsRing passed x [] = (λ _. refl, omega (arith, length-reverse_aux passed []))
unlink-IsRing passed x (y ∷ waiting) = (λ e. cc, refl)

head?-service : (q : CircularQueue) → IsRing q → head? q.waiting ≡ head? (service q)
head?-service q v = go q.passed q.waiting v.at_head
  where
    go :
        (passed waiting : List ℕ)
        → (waiting ≡ [] → passed ≡ [])
        → head? waiting ≡ head? (waiting ++ reverse_aux passed [])
    go passed [] h = rw (h refl)
    go passed (x ∷ waiting) h = refl

-- cq_dequeue returns the first object in the order of service, and sends it to the end.
pub cq_dequeue_correct :
    (q : CircularQueue)
    → IsRing q
    → IsRing (cq_dequeue q).1
      × ((cq_dequeue q).0 ≡ head? (service q))
      × (service (cq_dequeue q).1 ≡ rotate (service q))
unfolding cq_dequeue
cq_dequeue_correct q v =
    let (at_head, counted) = advance-IsRing q.passed q.waiting v.at_head in
    (
      record { at_head = at_head; counted = v.counted ∙ sym counted },
      head?-service q v,
      service_advance q.passed q.waiting v.at_head,
    )

-- cq_dequeue_and_remove returns the first object in the order of service, and takes it out.
pub cq_dequeue_and_remove_correct :
    (q : CircularQueue)
    → IsRing q
    → IsRing (cq_dequeue_and_remove q).1
      × ((cq_dequeue_and_remove q).0 ≡ head? (service q))
      × (service (cq_dequeue_and_remove q).1 ≡ tail (service q))
unfolding cq_dequeue_and_remove
cq_dequeue_and_remove_correct q v = (
  (go q.passed q.waiting q.size v.at_head v.counted).0,
  head?-service q v,
  (go q.passed q.waiting q.size v.at_head v.counted).1,
)
  where
    go :
        (passed waiting : List ℕ) (size : ℕ)
        → (waiting ≡ [] → passed ≡ [])
        → size ≡ length passed + length waiting
        → IsRing (removed waiting (record { passed = passed; waiting = waiting; size = size }))
          × (service (removed waiting (record { passed = passed; waiting = waiting; size = size }))
              ≡ tail (waiting ++ reverse_aux passed []))
    go passed [] size h c = (record { at_head = h; counted = c }, service_unlink passed [] h)
    go passed (x ∷ waiting) size h c =
        let (at_head, counted) = unlink-IsRing passed x waiting in
        (record { at_head = at_head; counted = omega arith }, service_unlink passed (x ∷ waiting) h)

length-service : (q : CircularQueue) → IsRing q → length (service q) ≡ q.size
length-service q v = omega (
  arith,
  v.counted,
  length-append q.waiting (reverse_aux q.passed []),
  length-reverse_aux q.passed [],
)

eq_nil : (xs : List ℕ) → length xs ≡ 0 → xs ≡ []
eq_nil [] h = refl
eq_nil (x ∷ xs) h = absurd (omega arith)

-- cq_front and cq_is_empty look at the order of service.
pub cq_front-service :
    (q : CircularQueue)
    → IsRing q
    → (cq_front q ≡ head? (service q)) × ((cq_is_empty q ≡ true) ↔ (service q ≡ []))
unfolding cq_front cq_is_empty
cq_front-service q v = (
  head?-service q v,
  (
    λ e. eq_nil (service q) (ground (arith, length-service q v)),
    λ e. ground (arith, ap length e, length-service q v),
  ),
)
