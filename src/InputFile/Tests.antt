-- ===== src/InputFile/Tests.antt =====
-- Runs of read_input_file of src/file_handlers.c on small texts, and its theorem at one of them.
use os_scheduler.Base.{ℕ, ◌+◌, ◌<◌, ◌≡◌, refl, none, some, List, [], ◌∷◌, ◌++◌, arith}
use os_scheduler.Base.Int.{pos, negsuc, neg, pos_part, neg_part}
use os_scheduler.Base.Outcome.{done}
use os_scheduler.Pcb.{Process}
use os_scheduler.InputFile.{take_line, scan_int, scan_process, read_lines, read_input_file}
use os_scheduler.InputFile.Scan.{Numeral, IntText, Fields}
use os_scheduler.InputFile.Lines.{IsLine, InputText, read_input_file_correct}

-- "#x\n"
abbrev comment : List ℕ
comment = 35 ∷ 120 ∷ 10 ∷ []

-- "1\t0\t12\t-3\t8\n"
abbrev first_line : List ℕ
first_line = 49 ∷ 9 ∷ 48 ∷ 9 ∷ 49 ∷ 50 ∷ 9 ∷ 45 ∷ 51 ∷ 9 ∷ 56 ∷ 10 ∷ []

abbrev first_process : Process
first_process = record {
  id = pos 1;
  arrival_time = pos 0;
  runtime = pos 12;
  priority = negsuc 2;
  memory_size = pos 8;
}

abbrev small_text : List ℕ
small_text = comment ++ (first_line ++ [])

reads : read_input_file 20 (some small_text) ≡ done (some (first_process ∷ []))
unfolding read_input_file read_lines scan_process scan_int neg pos_part neg_part
reads = refl

-- A line of fewer numbers is an error, as is a file that does not open.
short_line : read_input_file 20 (some (49 ∷ 9 ∷ 50 ∷ 10 ∷ [])) ≡ done none
unfolding read_input_file read_lines scan_process scan_int
short_line = refl

no_file : read_input_file 20 none ≡ done none
unfolding read_input_file
no_file = refl

-- The buffer cuts a line, and the rest is a line of its own.
cut : take_line 2 (49 ∷ 50 ∷ 51 ∷ 10 ∷ []) ≡ (49 ∷ 50 ∷ [], 51 ∷ 10 ∷ [])
cut = refl

comment-IsLine : IsLine comment
comment-IsLine = record {
  body = 35 ∷ 120 ∷ [];
  whole = refl;
  single = ground arith;
  short = omega arith;
}

first_line-IsLine : IsLine first_line
first_line-IsLine = record {
  body = 49 ∷ 9 ∷ 48 ∷ 9 ∷ 49 ∷ 50 ∷ 9 ∷ 45 ∷ 51 ∷ 9 ∷ 56 ∷ [];
  whole = refl;
  single = ground arith;
  short = omega arith;
}

one_digit : (d : ℕ) → d < 10 → IntText (pos d) ((48 + d) ∷ [])
one_digit d small = IntText.plain (Numeral.digit d small)

first_line-Fields : Fields first_process first_line
unfolding pos_part neg_part
first_line-Fields = record {
  id = 49 ∷ [];
  arrival_time = 48 ∷ [];
  runtime = 49 ∷ 50 ∷ [];
  priority = 45 ∷ 51 ∷ [];
  memory_size = 56 ∷ [];
  id_text = one_digit 1 (omega arith);
  arrival_time_text = one_digit 0 (omega arith);
  runtime_text = IntText.plain (Numeral.longer 2 (omega arith) (Numeral.digit 1 (omega arith)));
  priority_text = IntText.minus (Numeral.digit 3 (omega arith));
  memory_size_text = one_digit 8 (omega arith);
  id_fits = (omega arith, omega arith);
  arrival_time_fits = (omega arith, omega arith);
  runtime_fits = (omega arith, omega arith);
  priority_fits = (omega arith, omega arith);
  memory_size_fits = (omega arith, omega arith);
  whole = refl;
}

small_text-InputText : InputText small_text (first_process ∷ [])
small_text-InputText =
    InputText.ignored comment-IsLine refl
      (InputText.described first_process first_line-IsLine refl first_line-Fields InputText.no_line)

read_input_file_correct_example :
    read_input_file 20 (some small_text) ≡ done (some (first_process ∷ []))
read_input_file_correct_example =
    read_input_file_correct 20 small_text (first_process ∷ []) small_text-InputText (omega arith)
