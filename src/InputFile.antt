-- ===== src/InputFile.antt =====
-- read_input_file of src/file_handlers.c: the processes of a text. The text is a list of character
-- codes without NUL, and fgets and sscanf of the standard library are written out: a line of at
-- most 255 characters, and %d as white space, a sign and digits. An integer that fits no `int` is
-- undefined in sscanf, and the model is not what the code then does. realloc succeeds. proc_count
-- is the length of the result; on an error the caller exits.
pub mod Scan
pub mod Lines
mod Tests
use os_scheduler.Base.{
  ℕ, zero, suc, ◌+◌, ◌-◌, ◌*◌, Bool, true, false, ◌||◌, Option, none, some, List, [], ◌∷◌, ◌++◌,
  ◌==◌, if◌then◌else◌,
}
use os_scheduler.Base.Int.{ℤ, pos, neg}
use os_scheduler.Base.Outcome.{Outcome, done, starved}
use os_scheduler.Pcb.{Process}
use os_scheduler.Arguments.{is_digit, skip_space}

-- The characters up to the end of the line, `room` at most, and those behind.
abbrev pub take_line : (room : ℕ) → List ℕ → List ℕ × List ℕ
take_line zero cs = ([], cs)
take_line (suc room) [] = ([], [])
take_line (suc room) (c ∷ cs) =
    let (line, rest) = take_line room cs in if c == 10 then (c ∷ [], cs) else (c ∷ line, rest)

-- The number that the digits at the start add to, and what follows them.
abbrev pub scan_digits : (value : ℕ) → List ℕ → ℕ × List ℕ
scan_digits value [] = (value, [])
scan_digits value (c ∷ cs) =
    let more = scan_digits (value * 10 + (c - 48)) cs in
    if is_digit c then more else (value, c ∷ cs)

abbrev pub scan_unsigned : List ℕ → Option (ℕ × List ℕ)
scan_unsigned [] = none
scan_unsigned (c ∷ cs) = if is_digit c then some (scan_digits 0 (c ∷ cs)) else none

abbrev pub positive : Option (ℕ × List ℕ) → Option (ℤ × List ℕ)
positive none = none
positive (some (n, cs)) = some (pos n, cs)

abbrev pub negative : Option (ℕ × List ℕ) → Option (ℤ × List ℕ)
negative none = none
negative (some (n, cs)) = some (neg (pos n), cs)

abbrev pub scan_signed : List ℕ → Option (ℤ × List ℕ)
scan_signed [] = none
scan_signed (c ∷ cs) =
    if c == 45
    then negative (scan_unsigned cs)
    else if c == 43
    then positive (scan_unsigned cs)
    else positive (scan_unsigned (c ∷ cs))

-- %d
unfoldable pub scan_int : List ℕ → Option (ℤ × List ℕ)
scan_int cs = scan_signed (skip_space cs)

infixl 5 ◌>>=?◌
abbrev pub ◌>>=?◌ {ℓ κ} : {A : Type ℓ} {B : Type κ} → Option A → (A → Option B) → Option B
none >>=? f = none
some a >>=? f = f a

-- "%d\t%d\t%d\t%d\t%d"; the tab stands for any white space.
unfoldable pub scan_process : List ℕ → Option Process
scan_process line = scan_int line >>=? λ (id, cs).
    scan_int (skip_space cs) >>=? λ (arrival_time, cs).
    scan_int (skip_space cs) >>=? λ (runtime, cs). scan_int (skip_space cs) >>=? λ (priority, cs).
    scan_int (skip_space cs) >>=? λ (memory_size, cs). some (record {
      id = id;
      arrival_time = arrival_time;
      runtime = runtime;
      priority = priority;
      memory_size = memory_size;
    })

abbrev pub is_ignored : List ℕ → Bool
is_ignored [] = false
is_ignored (c ∷ cs) = c == 35 || c == 10

-- The loop over the lines; `none` is the exit code 1.
unfoldable pub read_lines :
    (fuel : ℕ) → List ℕ → (process_list : List Process) → Outcome (Option (List Process))
read_lines zero text process_list = starved
read_lines (suc fuel) [] process_list = done (some process_list)
read_lines (suc fuel) (c ∷ cs) process_list =
    let (line, rest) = take_line 255 (c ∷ cs) in
    let skipped = read_lines fuel rest process_list in
    if is_ignored line then skipped else elim (scan_process line) [
      | none ↦ done none
      | some process ↦ read_lines fuel rest (process_list ++ process ∷ [])
    ]

-- `none` is a file that does not open.
unfoldable pub read_input_file : (fuel : ℕ) → Option (List ℕ) → Outcome (Option (List Process))
read_input_file fuel none = done none
read_input_file fuel (some text) = read_lines fuel text []
