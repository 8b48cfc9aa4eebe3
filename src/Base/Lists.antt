-- ===== src/Base/Lists.antt =====
-- Lists measured and indexed by native numbers, as C arrays are.
use Prim.Native.Nat.{ℕ, zero, suc, ◌+◌, ◌<◌}
use mathlib.Core.Path.{◌≡◌, refl, sym, subst, ap, ◌∙◌}
use mathlib.Core.Logic.{∥∥₁_elim}
use mathlib.Core.List.{
  List, [], ◌∷◌, ◌++◌, Perm, Permᴰ, append-nil, perm_middle, reverse, reverse_aux, reverse_aux-eq,
}
use mathlib.Core.List.Perm
use mathlib.Core.Option.{Option, none, some}
use mathlib.Core.HLevel.{×_prop, Unit-prop}
use native.Mathlib.Nat.{ℕ_set}
use native.Mathlib.Omega.{arith}
use os_scheduler.Base.Tests.{◌==◌, if◌then◌else◌}

module _ {ℓ} {A : Type ℓ} where
  abbrev pub length : List A → ℕ
  length [] = 0
  length (_ ∷ xs) = suc (length xs)

  abbrev pub get_elem? : List A → ℕ → Option A
  get_elem? [] i = none
  get_elem? (x ∷ xs) zero = some x
  get_elem? (x ∷ xs) (suc i) = get_elem? xs i

  -- A write out of bounds changes nothing.
  abbrev pub set : List A → ℕ → A → List A
  set [] i v = []
  set (x ∷ xs) zero v = v ∷ xs
  set (x ∷ xs) (suc i) v = x ∷ set xs i v

  unfoldable pub get_or : List A → ℕ → A → A
  get_or [] i d = d
  get_or (x ∷ xs) zero d = x
  get_or (x ∷ xs) (suc i) d = get_or xs i d

  abbrev pub take : ℕ → List A → List A
  take zero xs = []
  take (suc n) [] = []
  take (suc n) (x ∷ xs) = x ∷ take n xs

  abbrev pub replicate : ℕ → A → List A
  replicate zero a = []
  replicate (suc n) a = a ∷ replicate n a

  pub length-append : (xs ys : List A) → length (xs ++ ys) ≡ length xs + length ys
  length-append [] ys = omega arith
  length-append (x ∷ xs) ys = omega (arith, length-append xs ys)

  pub length-set : (xs : List A) (i : ℕ) (v : A) → length (set xs i v) ≡ length xs
  length-set [] i v = refl
  length-set (x ∷ xs) zero v = refl
  length-set (x ∷ xs) (suc i) v = ap suc (length-set xs i v)

  pub length-replicate : (n : ℕ) (a : A) → length (replicate n a) ≡ n
  length-replicate zero a = refl
  length-replicate (suc n) a = ap suc (length-replicate n a)

  same_length : {xs ys : List A} → Permᴰ xs ys → length xs ≡ length ys
  same_length Permᴰ.nil = refl
  same_length (Permᴰ.cons _ p) = ap suc (same_length p)
  same_length (Permᴰ.swap _ _) = refl
  same_length (Permᴰ.trans p q) = same_length p ∙ same_length q

  pub length-perm : {xs ys : List A} → Perm xs ys → length xs ≡ length ys
  length-perm p = ∥∥₁_elim p (ℕ_set _ _) same_length

  -- Appending one entry is, up to order, putting it in front.
  pub snoc-perm : (xs : List A) (x : A) → Perm (xs ++ x ∷ []) (x ∷ xs)
  snoc-perm xs x = rw (append-nil xs) at (perm_middle {a = x} xs [])

  pub get_elem?-get_or :
      (xs : List A) (i : ℕ) (d : A) → i < length xs → get_elem? xs i ≡ some (get_or xs i d)
  unfolding get_or
  get_elem?-get_or [] i d h = elim h [ ]
  get_elem?-get_or (x ∷ xs) zero d h = refl
  get_elem?-get_or (x ∷ xs) (suc i) d h = get_elem?-get_or xs i d (omega arith)

  pub get_or-set :
      (xs : List A) (i j : ℕ) (v d : A)
      → i < length xs
      → get_or (set xs i v) j d ≡ (if i == j then v else get_or xs j d)
  unfolding get_or
  get_or-set [] i j v d h = elim h [ ]
  get_or-set (x ∷ xs) zero zero v d h = refl
  get_or-set (x ∷ xs) zero (suc j) v d h = ground arith
  get_or-set (x ∷ xs) (suc i) zero v d h = ground arith
  get_or-set (x ∷ xs) (suc i) (suc j) v d h = ground (arith, get_or-set xs i j v d (omega arith))

  pub get_or-append :
      (xs ys : List A) (i : ℕ) (d : A) → i < length xs → get_or (xs ++ ys) i d ≡ get_or xs i d
  unfolding get_or
  get_or-append [] ys i d h = elim h [ ]
  get_or-append (x ∷ xs) ys zero d h = refl
  get_or-append (x ∷ xs) ys (suc i) d h = get_or-append xs ys i d (omega arith)

  pub get_or-append_length : (xs : List A) (y d : A) → get_or (xs ++ y ∷ []) (length xs) d ≡ y
  unfolding get_or
  get_or-append_length [] y d = refl
  get_or-append_length (x ∷ xs) y d = get_or-append_length xs y d

  pub get_or-take :
      (n : ℕ) (xs : List A) (i : ℕ) (d : A) → i < n → get_or (take n xs) i d ≡ get_or xs i d
  unfolding get_or
  get_or-take zero xs i d h = elim h [ ]
  get_or-take (suc n) [] i d h = refl
  get_or-take (suc n) (x ∷ xs) zero d h = refl
  get_or-take (suc n) (x ∷ xs) (suc i) d h = get_or-take n xs i d (omega arith)

  -- An array is all but its last entry, and that entry.
  pub take-append_last :
      (n : ℕ) (xs : List A) (d : A) → length xs ≡ suc n → take n xs ++ get_or xs n d ∷ [] ≡ xs
  unfolding get_or
  take-append_last n [] d h = absurd (omega arith)
  take-append_last zero (x ∷ []) d h = refl
  take-append_last zero (x ∷ y ∷ xs) d h = absurd (omega arith)
  take-append_last (suc n) (x ∷ xs) d h = ap (◌∷◌ x) (take-append_last n xs d (omega arith))

  -- A write takes one entry out and puts one in.
  pub set-perm :
      (xs : List A) (i : ℕ) (v d : A) → i < length xs → Perm (get_or xs i d ∷ set xs i v) (v ∷ xs)
  unfolding get_or
  set-perm [] i v d h = elim h [ ]
  set-perm (x ∷ xs) zero v d h = Perm.swap v x xs
  set-perm (x ∷ xs) (suc i) v d h =
      Perm.trans (Perm.swap x _ _)
        (Perm.trans (Perm.cons x (set-perm xs i v d (omega arith))) (Perm.swap v x xs))

-- Every entry satisfies `P`.
abbrev pub All {ℓ} : {A : Type ℓ} → (A → Type 0) → List A → Type 0
All P [] = Unit {0}
All P (x ∷ xs) = P x × All P xs

module _ {ℓ} {A : Type ℓ} (P : A → Type 0) where
  pub All-reverse_aux : (xs ys : List A) → All P xs → All P ys → All P (reverse_aux xs ys)
  All-reverse_aux [] ys h k = k
  All-reverse_aux (x ∷ xs) ys h k = All-reverse_aux xs (x ∷ ys) h.1 (h.0, k)

  pub All-reverse_aux_inv : (xs ys : List A) → All P (reverse_aux xs ys) → All P xs × All P ys
  All-reverse_aux_inv [] ys h = (tt, h)
  All-reverse_aux_inv (x ∷ xs) ys h =
      let (front, back) = All-reverse_aux_inv xs (x ∷ ys) h in ((back.0, front), back.1)

  pub All-weaken : (Q : A → Type 0) → ((x : A) → P x → Q x) → (xs : List A) → All P xs → All Q xs
  All-weaken Q f [] h = tt
  All-weaken Q f (x ∷ xs) h = (f x h.0, All-weaken Q f xs h.1)

module _ {ℓ} {A : Type ℓ} where
  pub length-reverse_aux : (xs ys : List A) → length (reverse_aux xs ys) ≡ length xs + length ys
  length-reverse_aux [] ys = omega arith
  length-reverse_aux (x ∷ xs) ys = omega (arith, length-reverse_aux xs (x ∷ ys))

  pub reverse_aux_split : (xs ys : List A) → reverse_aux xs ys ≡ reverse_aux xs [] ++ ys
  reverse_aux_split xs ys =
      reverse_aux-eq xs ys
      ∙ ap (λ l. l ++ ys) (sym (reverse_aux-eq xs [] ∙ append-nil (reverse xs)))

module _ {ℓ} {A : Type ℓ} (P : A → Type 0) where
  All-along : {xs ys : List A} → Permᴰ xs ys → All P xs → All P ys
  All-along Permᴰ.nil h = h
  All-along (Permᴰ.cons e p) h = (subst P e h.0, All-along p h.1)
  All-along (Permᴰ.swap e f) h = (subst P f h.1.0, (subst P e h.0, h.1.1))
  All-along (Permᴰ.trans p q) h = All-along q (All-along p h)

  All-prop : ((x : A) → IsProp (P x)) → (xs : List A) → IsProp (All P xs)
  All-prop p [] = Unit-prop
  All-prop p (x ∷ xs) = ×_prop (p x) (All-prop p xs)

  -- What holds of every entry holds in any order.
  pub All-perm : ((x : A) → IsProp (P x)) → {xs ys : List A} → Perm xs ys → All P xs → All P ys
  All-perm p {ys} perm h = ∥∥₁_elim perm (All-prop p ys) λ along. All-along along h

  pub All-append : (xs ys : List A) → All P xs → All P ys → All P (xs ++ ys)
  All-append [] ys h k = k
  All-append (x ∷ xs) ys h k = (h.0, All-append xs ys h.1 k)

  pub All-set : (xs : List A) (i : ℕ) (v : A) → All P xs → P v → All P (set xs i v)
  All-set [] i v h p = tt
  All-set (x ∷ xs) zero v h p = (p, h.1)
  All-set (x ∷ xs) (suc i) v h p = (h.0, All-set xs i v h.1 p)

  pub All-get_or : (xs : List A) (i : ℕ) (d : A) → i < length xs → All P xs → P (get_or xs i d)
  unfolding get_or
  All-get_or [] i d lt h = elim lt [ ]
  All-get_or (x ∷ xs) zero d lt h = h.0
  All-get_or (x ∷ xs) (suc i) d lt h = All-get_or xs i d (omega arith) h.1
