-- ===== src/Buddy/Log.antt =====
-- The logarithms of allocate_memory, rounded down and up.
use native.Mathlib.Nat.{pow-le-pow_right}
use os_scheduler.Base.{
  ℕ, zero, suc, ◌-◌, ◌*◌, ◌/◌, ◌^◌, ◌≤◌, ◌<◌, ◌≡◌, ap, inl, inr, ◌⊎◌, false, arith, ltb, ◌==◌,
  Bool-cases,
}
use os_scheduler.Base.Binary.{pow_pos, pow_double}
use os_scheduler.Base.Outcome.{done}
use os_scheduler.Buddy.{floor_log2_loop, floor_log2, ceil_log2}

pub pow_mono : (i j : ℕ) → i ≤ j → 2 ^ i ≤ 2 ^ j
pow_mono i j h = pow-le-pow_right {n = 2} (omega arith) {i = i} {j = j} h

pub lt-pow : (k : ℕ) → k < 2 ^ k
lt-pow zero = omega arith
lt-pow (suc k) = omega (arith, pow_double k, lt-pow k)

floor_log2_loop_bounds :
    (fuel n : ℕ)
    → 0 < n
    → n ≤ fuel
    → (2 ^ floor_log2_loop fuel n ≤ n) × (n < 2 * 2 ^ floor_log2_loop fuel n)
unfolding floor_log2_loop
floor_log2_loop_bounds zero n h f = absurd (omega arith)
floor_log2_loop_bounds (suc fuel) n h f = elim (Bool-cases (ltb n 2)) [
  | inl small ↦ rw small (ground arith, ground arith)
  | inr large ↦
      let two : 2 ≤ n = ground arith in
      let rest = floor_log2_loop_bounds fuel (n / 2) (omega arith) (omega arith) in
      let double = pow_double (floor_log2_loop fuel (n / 2)) in rw large (omega arith, omega arith)
]

-- The power of two that a number is, is its logarithm.
log_unique : (f k : ℕ) → 2 ^ f ≤ 2 ^ k → 2 ^ k < 2 * 2 ^ f → f ≡ k
log_unique f k low high = elim (ordered f k) [
  | inl below ↦ absurd (omega (arith, pow_double f, pow_mono (suc f) k below))
  | inr above ↦ elim (ordered k f) [
    | inl below ↦ absurd (omega (arith, pow_double k, pow_pos k, pow_mono (suc k) f below))
    | inr above' ↦ omega arith
  ]
]
  where
    ordered : (i j : ℕ) → (i < j) ⊎ (j ≤ i)
    ordered i j = grind arith

pub floor_log2-pow : (k : ℕ) → floor_log2 (2 ^ k) ≡ done k
unfolding floor_log2
floor_log2-pow k =
    let nonzero : (2 ^ k == 0) ≡ false = ground (arith, pow_pos k) in
    let (low, high) = floor_log2_loop_bounds (2 ^ k) (2 ^ k) (pow_pos k) (omega arith) in
    rw nonzero (ap done (log_unique (floor_log2_loop (2 ^ k) (2 ^ k)) k low high))

-- The order of a request of `n`: the least power of two that `n` fits.
pub record IsOrder (n r : ℕ) : Type 0 where
  pub runs : ceil_log2 n ≡ done r
  pub enough : n ≤ 2 ^ r
  pub tight : 2 ^ r < 2 * n

pub ceil_log2-IsOrder : (n : ℕ) → 0 < n → (r : ℕ) × IsOrder n r
unfolding ceil_log2
ceil_log2-IsOrder n h = elim (Bool-cases (n == 1)) [
  | inl one ↦ (0, record { runs = ground arith; enough = ground arith; tight = ground arith })
  | inr more ↦
      let two : 2 ≤ n = ground arith in
      let f = floor_log2_loop n (n - 1) in
      let (low, high) = floor_log2_loop_bounds n (n - 1) (omega arith) (omega arith) in
      (
        suc f,
        record {
          runs = ground arith;
          enough = omega (arith, pow_double f);
          tight = omega (arith, pow_double f);
        },
      )
]

-- No smaller power of two holds the request.
pub order-le : (n r m : ℕ) → IsOrder n r → n ≤ 2 ^ m → r ≤ m
order-le n zero m o h = omega arith
order-le n (suc f) m o h = elim (ordered m (suc f)) [
  | inl below ↦ absurd (omega (arith, pow_double f, o.tight, pow_mono m f (omega arith)))
  | inr above ↦ above
]
  where
    ordered : (i j : ℕ) → (i < j) ⊎ (j ≤ i)
    ordered i j = grind arith
