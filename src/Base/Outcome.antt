-- ===== src/Base/Outcome.antt =====
-- How a run of the C code ends.
use Prim.Native.Nat.{ℕ, zero, suc, ◌<◌}
use native.Mathlib.Omega.{arith}
use os_scheduler.Base.Tests.{◌==◌, if◌then◌else◌}
use mathlib.Core.Path.{◌≡◌, refl, subst}
use mathlib.Core.List.{List, [], ◌∷◌}
use mathlib.Core.Option.{Option, none, some}
use os_scheduler.Base.Lists.{length, get_elem?, set, get_or, get_elem?-get_or}

-- A value; an access outside an array or through a null or freed
-- pointer; or the end of the model's fuel.
pub data Outcome {ℓ} (A : Type ℓ) : Type ℓ where
  done : A → Outcome A
  fault starved : Outcome A

infixl 5 ◌>>=◌
abbrev pub ◌>>=◌ {ℓ κ} : {A : Type ℓ} {B : Type κ} → Outcome A → (A → Outcome B) → Outcome B
done a >>= f = f a
fault >>= f = fault
starved >>= f = starved

-- `none` is a fault.
abbrev pub require {ℓ} : {A : Type ℓ} → Option A → Outcome A
require (some a) = done a
require none = fault

-- `xs[i]`
unfoldable pub load {ℓ} : {A : Type ℓ} → List A → ℕ → Outcome A
load xs i = require (get_elem? xs i)

pub load-done {ℓ} :
    {A : Type ℓ} (xs : List A) (i : ℕ) (d : A) → i < length xs → load xs i ≡ done (get_or xs i d)
unfolding load
load-done xs i d h = rw (get_elem?-get_or xs i d h)

-- Total correctness: the run ends with a value, and the value satisfies `P`.
pub data Ends {ℓ κ} {A : Type ℓ} (P : A → Type κ) : Outcome A → Type (ℓ ⊔ κ) where
  ends : {a : A} → P a → Ends P (done a)

module _ {ℓ κ} {A : Type ℓ} {P : A → Type κ} where
  pub Ends-bind {ℓ' κ'} :
      {B : Type ℓ'} {Q : B → Type κ'} {m : Outcome A} {f : A → Outcome B}
      → Ends P m
      → ((a : A) → P a → Ends Q (f a))
      → Ends Q (m >>= f)
  Ends-bind (ends p) next = next _ p

  pub Ends-weaken {κ'} :
      {Q : A → Type κ'} {m : Outcome A} → Ends P m → ((a : A) → P a → Q a) → Ends Q m
  Ends-weaken (ends p) weaken = ends (weaken _ p)

  pub Ends-result : {m : Outcome A} → Ends P m → (a : A) × (m ≡ done a) × P a
  Ends-result (ends p) = (_, refl, p)

pub load-set {ℓ} :
    {A : Type ℓ} (xs : List A) (i j : ℕ) (v : A)
    → i < length xs
    → load (set xs i v) j ≡ (if i == j then done v else load xs j)
unfolding load
load-set [] i j v h = elim h [ ]
load-set (x ∷ xs) zero zero v h = refl
load-set (x ∷ xs) zero (suc j) v h = ground arith
load-set (x ∷ xs) (suc i) zero v h = ground arith
load-set (x ∷ xs) (suc i) (suc j) v h = ground (arith, load-set xs i j v (omega arith))

-- A load that ends is within bounds, and one within bounds ends.
pub load_inside {ℓ} :
    {A : Type ℓ} (xs : List A) (i : ℕ) (x : A) → load xs i ≡ done x → i < length xs
unfolding load
load_inside [] i x h = cc
load_inside (y ∷ xs) zero x h = omega arith
load_inside (y ∷ xs) (suc i) x h = omega (arith, load_inside xs i x h)

pub load_total {ℓ} :
    {A : Type ℓ} (xs : List A) (i : ℕ) → i < length xs → (x : A) × (load xs i ≡ done x)
unfolding load
load_total [] i h = elim h [ ]
load_total (x ∷ xs) zero h = (x, refl)
load_total (x ∷ xs) (suc i) h = load_total xs i (omega arith)

pub done_injective {ℓ} : {A : Type ℓ} {a b : A} → done a ≡ done b → a ≡ b
done_injective h = cc

pub Ends-done {ℓ κ} :
    {A : Type ℓ} {P : A → Type κ} {m : Outcome A} {a : A} → Ends P m → m ≡ done a → P a
Ends-done {P} (ends p) e = subst P (done_injective e) p

-- A run in two parts that ends has two parts that end.
pub bind-done {ℓ κ} :
    {A : Type ℓ} {B : Type κ} (m : Outcome A) (f : A → Outcome B) (b : B)
    → (m >>= f) ≡ done b
    → (a : A) × (m ≡ done a) × (f a ≡ done b)
bind-done (done a) f b run = (a, refl, run)
bind-done fault f b run = absurd (cc run)
bind-done starved f b run = absurd (cc run)
