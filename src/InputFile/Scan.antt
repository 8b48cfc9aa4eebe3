-- ===== src/InputFile/Scan.antt =====
-- read_input_file of src/file_handlers.c: sscanf reads what a line of five numbers says.
use mathlib.Core.List.{append_assoc}
use os_scheduler.Base.{
  ℕ, suc, ◌+◌, ◌-◌, ◌*◌, ◌<◌, ◌≡◌, refl, ap, ◌∙◌, true, false, some, List, [], ◌∷◌, ◌++◌, arith,
  ◌==◌,
}
use os_scheduler.Base.Int.{ℤ, FitsInt, pos, negsuc, neg, pos_part, neg_part}
use os_scheduler.Pcb.{Process}
use os_scheduler.Arguments.{is_digit, is_space, skip_space}
use os_scheduler.InputFile.{
  scan_digits, scan_unsigned, scan_signed, scan_int, scan_process, positive, negative,
}

-- The digits of a number, with any zeros in front.
pub data Numeral : ℕ → List ℕ → Type 0 where
  digit : (d : ℕ) → d < 10 → Numeral d ((48 + d) ∷ [])
  longer :
      {n : ℕ} {ds : List ℕ} (d : ℕ)
      → d < 10
      → Numeral n ds
      → Numeral (n * 10 + d) (ds ++ (48 + d) ∷ [])

-- A number as the input file writes it.
pub data IntText : ℤ → List ℕ → Type 0 where
  plain : {n : ℕ} {ds : List ℕ} → Numeral n ds → IntText (pos n) ds
  minus : {n : ℕ} {ds : List ℕ} → Numeral (suc n) ds → IntText (negsuc n) (45 ∷ ds)

-- What follows a number.
abbrev pub Stops : List ℕ → Type 0
Stops [] = Unit {0}
Stops (c ∷ cs) = is_digit c ≡ false

digit_step :
    (value d : ℕ) (cs : List ℕ)
    → d < 10
    → scan_digits value ((48 + d) ∷ cs) ≡ scan_digits (value * 10 + d) cs
digit_step value d cs small =
    let test : is_digit (48 + d) ≡ true = ground arith in
    let back : 48 + d - 48 ≡ d = omega arith in rw (test, back) refl

from_nothing : (n : ℕ) → 0 * 10 + n ≡ n
from_nothing n = omega arith

scan_digits-Numeral :
    (n : ℕ) (ds cs : List ℕ) → Numeral n ds → scan_digits 0 (ds ++ cs) ≡ scan_digits n cs
scan_digits-Numeral n ds cs (Numeral.digit d small) =
    digit_step 0 n cs small ∙ ap (λ v. scan_digits v cs) (from_nothing n)
scan_digits-Numeral n ds cs (Numeral.longer {n = m} {ds = es} d small number) =
    ap (scan_digits 0) (append_assoc es ((48 + d) ∷ []) cs)
    ∙ scan_digits-Numeral m es ((48 + d) ∷ cs) number
    ∙ digit_step m d cs small

scan_digits-stop : (n : ℕ) (cs : List ℕ) → Stops cs → scan_digits n cs ≡ (n, cs)
scan_digits-stop n [] stops = refl
scan_digits-stop n (c ∷ cs) stops = rw stops refl

-- A number starts with a digit.
first_digit :
    (n : ℕ) (ds : List ℕ)
    → Numeral n ds
    → (c : ℕ) × (rest : List ℕ) × (ds ≡ c ∷ rest) × (is_digit c ≡ true)
first_digit n ds (Numeral.digit d small) = (48 + n, [], refl, ground arith)
first_digit n ds (Numeral.longer {n = m} {ds = es} d small number) =
    let (c, rest, is, test) = first_digit m es number in
    (c, rest ++ (48 + d) ∷ [], ap (λ l. l ++ (48 + d) ∷ []) is, test)

scan_unsigned-Numeral :
    (n : ℕ) (ds cs : List ℕ) → Numeral n ds → Stops cs → scan_unsigned (ds ++ cs) ≡ some (n, cs)
scan_unsigned-Numeral n ds cs number stops =
    let (c, rest, is, test) = first_digit n ds number in
    let whole = scan_digits-Numeral n ds cs number ∙ scan_digits-stop n cs stops in
    let scanned : scan_digits 0 (c ∷ (rest ++ cs)) ≡ (n, cs) = rw is at whole in
    rw is (rw test (ap some (rw test at scanned)))

no_space : (c : ℕ) → is_digit c ≡ true → is_space c ≡ false
no_space c test = ground arith

no_sign : (c : ℕ) → is_digit c ≡ true → ((c == 45) ≡ false) × ((c == 43) ≡ false)
no_sign c test = (ground arith, ground arith)

-- No white space stands in front of a number.
skip_space-IntText : (z : ℤ) (ds cs : List ℕ) → IntText z ds → skip_space (ds ++ cs) ≡ ds ++ cs
skip_space-IntText z ds cs (IntText.plain {n} number) =
    let (c, rest, is, test) = first_digit n ds number in rw is (rw (no_space c test) refl)
skip_space-IntText z ds cs (IntText.minus number) = refl

neg-suc : (n : ℕ) → neg (pos (suc n)) ≡ negsuc n
unfolding neg pos_part neg_part
neg-suc n = ground arith

scan_signed-IntText :
    (z : ℤ) (ds cs : List ℕ) → IntText z ds → Stops cs → scan_signed (ds ++ cs) ≡ some (z, cs)
scan_signed-IntText z ds cs (IntText.plain {n} number) stops =
    let (c, rest, is, test) = first_digit n ds number in
    let (no_minus, no_plus) = no_sign c test in
    let read = rw is at (scan_unsigned-Numeral n ds cs number stops) in
    rw is (rw (no_minus, no_plus) (ap positive read))
scan_signed-IntText z ds cs (IntText.minus {n} {ds = es} number) stops =
    ap negative (scan_unsigned-Numeral (suc n) es cs number stops)
    ∙ ap (λ z. some (z, cs)) (neg-suc n)

pub scan_int-IntText :
    (z : ℤ) (ds cs : List ℕ) → IntText z ds → Stops cs → scan_int (ds ++ cs) ≡ some (z, cs)
unfolding scan_int
scan_int-IntText z ds cs text stops =
    ap scan_signed (skip_space-IntText z ds cs text) ∙ scan_signed-IntText z ds cs text stops

-- A field and the tab before it.
pub scan_field :
    (z : ℤ) (ds cs : List ℕ)
    → IntText z ds
    → Stops cs
    → scan_int (skip_space (9 ∷ (ds ++ cs))) ≡ some (z, cs)
scan_field z ds cs text stops =
    ap scan_int (skip_space-IntText z ds cs text) ∙ scan_int-IntText z ds cs text stops

-- The line of a process: five numbers that fit an int, with tabs between them.
pub record Fields (process : Process) (line : List ℕ) : Type 0 where
  pub id : List ℕ
  pub arrival_time : List ℕ
  pub runtime : List ℕ
  pub priority : List ℕ
  pub memory_size : List ℕ
  pub id_text : IntText process.id id
  pub arrival_time_text : IntText process.arrival_time arrival_time
  pub runtime_text : IntText process.runtime runtime
  pub priority_text : IntText process.priority priority
  pub memory_size_text : IntText process.memory_size memory_size
  pub id_fits : FitsInt process.id
  pub arrival_time_fits : FitsInt process.arrival_time
  pub runtime_fits : FitsInt process.runtime
  pub priority_fits : FitsInt process.priority
  pub memory_size_fits : FitsInt process.memory_size
  pub whole :
      line
      ≡ id ++ 9 ∷ (arrival_time ++ 9 ∷ (runtime ++ 9 ∷ (priority ++ 9 ∷ (memory_size ++ 10 ∷ []))))

-- sscanf reads the process that the line says.
pub scan_process-Fields :
    (process : Process) (line : List ℕ) → Fields process line → scan_process line ≡ some process
unfolding scan_process
scan_process-Fields process line f =
    rw
      (
        f.whole,
        scan_int-IntText process.id f.id _ f.id_text refl,
        scan_field process.arrival_time f.arrival_time _ f.arrival_time_text refl,
        scan_field process.runtime f.runtime _ f.runtime_text refl,
        scan_field process.priority f.priority _ f.priority_text refl,
        scan_field process.memory_size f.memory_size (10 ∷ []) f.memory_size_text refl,
      )
      refl
