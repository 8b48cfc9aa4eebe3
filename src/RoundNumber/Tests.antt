-- ===== src/RoundNumber/Tests.antt =====
-- Runs of round_number of src/file_handlers.c, and its theorem at one number.
use os_scheduler.Base.{◌+◌, ◌*◌, ◌≡◌, refl, [], ◌∷◌, arith, get_or}
use os_scheduler.InputFile.Scan.{Numeral}
use os_scheduler.RoundNumber.{trim_zeros, trim_point, round_number}
use os_scheduler.RoundNumber.Trimmed.{printed, Shortest, round_number_correct}

-- "12.50" is printed as "12.5".
half : round_number (49 ∷ 50 ∷ 46 ∷ 53 ∷ 48 ∷ []) ≡ 49 ∷ 50 ∷ 46 ∷ 53 ∷ []
unfolding round_number trim_zeros trim_point get_or
half = refl

-- "100.00" is printed as "100".
hundred : round_number (printed (49 ∷ 48 ∷ 48 ∷ []) 0 0) ≡ 49 ∷ 48 ∷ 48 ∷ []
unfolding round_number trim_zeros trim_point get_or
hundred = refl

-- The buffer cuts "12345.67", and its last digit is lost.
last_digit :
    round_number (printed (49 ∷ 50 ∷ 51 ∷ 52 ∷ 53 ∷ []) 6 7) ≡ 49 ∷ 50 ∷ 51 ∷ 52 ∷ 53 ∷ 46 ∷ 54 ∷ []
unfolding round_number trim_zeros trim_point get_or
last_digit = refl

-- It cuts "1000000.00" before the point, and a million is printed as "1".
million : round_number (printed (49 ∷ 48 ∷ 48 ∷ 48 ∷ 48 ∷ 48 ∷ 48 ∷ []) 0 0) ≡ 49 ∷ []
unfolding round_number trim_zeros trim_point get_or
million = refl

-- 12.50
round_number_correct_example :
    Shortest (12 * 100 + 5 * 10 + 0) (round_number (printed (49 ∷ 50 ∷ []) 5 0))
round_number_correct_example =
    round_number_correct 12 5 0 (49 ∷ 50 ∷ [])
      (Numeral.longer 2 (omega arith) (Numeral.digit 1 (omega arith))) (omega arith) (omega arith)
      (omega arith)
