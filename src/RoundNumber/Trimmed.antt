-- ===== src/RoundNumber/Trimmed.antt =====
-- round_number of src/file_handlers.c: it keeps the number and drops what does not count.
use mathlib.Core.List.{append_assoc}
use os_scheduler.Base.{
  ℕ, zero, suc, ◌+◌, ◌*◌, ◌<◌, ◌≤◌, ◌≡◌, ◌≢◌, refl, sym, ap, ◌∙◌, false, List, [], ◌∷◌, ◌++◌, arith,
  ◌==◌, if◌then◌else◌, length, length-append, get_or-append_length, take,
}
use os_scheduler.InputFile.Scan.{Numeral}
use os_scheduler.RoundNumber.{trim_zeros, trim_point, round_number, snprintf}

-- What %.2f prints: n whole and two decimals.
abbrev pub printed : (ds : List ℕ) (a b : ℕ) → List ℕ
printed ds a b = ds ++ 46 ∷ (48 + a) ∷ (48 + b) ∷ []

-- The shortest decimal text of a number of hundredths.
pub data Shortest : ℕ → List ℕ → Type 0 where
  whole : {n : ℕ} {ds : List ℕ} → Numeral n ds → Shortest (n * 100) ds
  tenths :
      {n : ℕ} {ds : List ℕ} (a : ℕ)
      → a < 10
      → a ≢ 0
      → Numeral n ds
      → Shortest (n * 100 + a * 10) (ds ++ 46 ∷ (48 + a) ∷ [])
  hundredths :
      {n : ℕ} {ds : List ℕ} (a b : ℕ)
      → a < 10
      → b < 10
      → b ≢ 0
      → Numeral n ds
      → Shortest (n * 100 + a * 10 + b) (printed ds a b)

take_all : (n : ℕ) (xs : List ℕ) → length xs ≤ n → take n xs ≡ xs
take_all zero [] short = refl
take_all zero (x ∷ xs) short = absurd (omega arith)
take_all (suc n) [] short = refl
take_all (suc n) (x ∷ xs) short = ap (λ l. x ∷ l) (take_all n xs (omega arith))

take-append_length : (xs ys : List ℕ) → take (length xs) (xs ++ ys) ≡ xs
take-append_length [] [] = refl
take-append_length [] (y ∷ ys) = refl
take-append_length (x ∷ xs) ys = ap (λ l. x ∷ l) (take-append_length xs ys)

length-snoc : (xs : List ℕ) (c : ℕ) → length (xs ++ c ∷ []) ≡ suc (length xs)
length-snoc xs c = omega (arith, length-append xs (c ∷ []))

abbrev trimmed : List ℕ → List ℕ
trimmed str = trim_zeros (length str) str

-- What the loop does with the last character.
trimmed_last :
    (xs : List ℕ) (c : ℕ) → trimmed (xs ++ c ∷ []) ≡ (if c == 48 then trimmed xs else xs ++ c ∷ [])
unfolding trim_zeros
trimmed_last xs c =
    rw (length-snoc xs c, get_or-append_length xs c 0, take-append_length xs (c ∷ [])) refl

trim_point_last :
    (xs : List ℕ) (c : ℕ) → trim_point (xs ++ c ∷ []) ≡ (if c == 46 then xs else xs ++ c ∷ [])
unfolding trim_point
trim_point_last xs c =
    rw (length-snoc xs c, get_or-append_length xs c 0, take-append_length xs (c ∷ [])) refl

module _ (ds : List ℕ) where
  snoc_printed : (a b : ℕ) → printed ds a b ≡ (ds ++ 46 ∷ (48 + a) ∷ []) ++ (48 + b) ∷ []
  snoc_printed a b = sym (append_assoc ds (46 ∷ (48 + a) ∷ []) ((48 + b) ∷ []))

  snoc_tenths : (a : ℕ) → ds ++ 46 ∷ (48 + a) ∷ [] ≡ (ds ++ 46 ∷ []) ++ (48 + a) ∷ []
  snoc_tenths a = sym (append_assoc ds (46 ∷ []) ((48 + a) ∷ []))

  no_zero : (d : ℕ) → ((48 + suc d) == 48) ≡ false
  no_zero d = ground arith

  no_point : (d : ℕ) → ((48 + d) == 46) ≡ false
  no_point d = ground arith

  -- A digit that is not 0 stays.
  keep_digit :
      (xs : List ℕ) (d : ℕ)
      → trim_point (trimmed (xs ++ (48 + suc d) ∷ [])) ≡ xs ++ (48 + suc d) ∷ []
  keep_digit xs d =
      ap trim_point (trimmed_last xs (48 + suc d) ∙ rw (no_zero d) refl)
      ∙ trim_point_last xs (48 + suc d)
      ∙ rw (no_point (suc d)) refl

  drop_zero : (xs : List ℕ) → trimmed (xs ++ 48 ∷ []) ≡ trimmed xs
  drop_zero xs = trimmed_last xs 48

  both_digits : (a b : ℕ) → trim_point (trimmed (printed ds a (suc b))) ≡ printed ds a (suc b)
  both_digits a b = rw (snoc_printed a (suc b)) (keep_digit (ds ++ 46 ∷ (48 + a) ∷ []) b)

  one_digit : (a : ℕ) → trim_point (trimmed (printed ds (suc a) 0)) ≡ ds ++ 46 ∷ (48 + suc a) ∷ []
  one_digit a =
      ap trim_point (ap trimmed (snoc_printed (suc a) 0) ∙ drop_zero (ds ++ 46 ∷ (48 + suc a) ∷ []))
      ∙ rw (snoc_tenths (suc a)) (keep_digit (ds ++ 46 ∷ []) a)

  no_digit : trim_point (trimmed (printed ds 0 0)) ≡ ds
  no_digit =
      ap trim_point (
        ap trimmed (snoc_printed 0 0)
        ∙ drop_zero (ds ++ 46 ∷ 48 ∷ [])
        ∙ ap trimmed (snoc_tenths 0)
        ∙ drop_zero (ds ++ 46 ∷ [])
        ∙ trimmed_last ds 46)
      ∙ trim_point_last ds 46

  fits : (a b : ℕ) → length ds ≤ 4 → snprintf 8 (printed ds a b) ≡ printed ds a b
  fits a b small =
      take_all 7 (printed ds a b) (omega (arith, length-append ds (46 ∷ (48 + a) ∷ (48 + b) ∷ [])))

  shorten :
      (n a b : ℕ)
      → Numeral n ds
      → a < 10
      → b < 10
      → Shortest (n * 100 + a * 10 + b) (trim_point (trimmed (printed ds a b)))
  shorten n zero zero number a_small b_small =
      let value : n * 100 + 0 * 10 + 0 ≡ n * 100 = omega arith in
      rw (value, no_digit) (Shortest.whole number)
  shorten n (suc a) zero number a_small b_small =
      let value : n * 100 + suc a * 10 + 0 ≡ n * 100 + suc a * 10 = omega arith in
      rw (value, one_digit a) (Shortest.tenths (suc a) a_small (omega arith) number)
  shorten n a (suc b) number a_small b_small =
      rw (both_digits a b) (Shortest.hundredths a (suc b) a_small b_small (omega arith) number)

-- For what %.2f prints of a number of at most four digits before the point, round_number is the
-- shortest decimal text of the same number of hundredths: no 0 at the end, and no point with nothing
-- behind it.
pub round_number_correct :
    (n a b : ℕ) (ds : List ℕ)
    → Numeral n ds
    → a < 10
    → b < 10
    → length ds ≤ 4
    → Shortest (n * 100 + a * 10 + b) (round_number (printed ds a b))
unfolding round_number
round_number_correct n a b ds number a_small b_small small =
    rw (fits ds a b small) (shorten ds n a b number a_small b_small)
