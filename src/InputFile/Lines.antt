-- ===== src/InputFile/Lines.antt =====
-- read_input_file of src/file_handlers.c: the loop over the lines ends, and reads what the text says.
use mathlib.Core.List.{append_assoc, append-nil}
use os_scheduler.Base.{
  ℕ, zero, suc, ◌<◌, ◌≡◌, refl, sym, ap, ◌∙◌, true, false, Option, none, some, List, [], ◌∷◌, ◌++◌,
  arith, ◌==◌, if◌then◌else◌, length, length-append, All,
}
use os_scheduler.Base.Outcome.{Outcome, done}
use os_scheduler.Pcb.{Process}
use os_scheduler.InputFile.{take_line, scan_process, is_ignored, read_lines, read_input_file}
use os_scheduler.InputFile.Scan.{Fields, scan_process-Fields}

-- A line with its end, short enough for the buffer.
pub record IsLine (line : List ℕ) : Type 0 where
  pub body : List ℕ
  pub whole : line ≡ body ++ 10 ∷ []
  pub single : All (λ (c : ℕ). (c == 10) ≡ false) body
  pub short : length body < 255

-- A text of lines, each a comment, empty, or one process.
pub data InputText : List ℕ → List Process → Type 0 where
  no_line : InputText [] []
  ignored :
      {line text : List ℕ} {ps : List Process}
      → IsLine line
      → is_ignored line ≡ true
      → InputText text ps
      → InputText (line ++ text) ps
  described :
      {line text : List ℕ} {ps : List Process} (process : Process)
      → IsLine line
      → is_ignored line ≡ false
      → Fields process line
      → InputText text ps
      → InputText (line ++ text) (process ∷ ps)

take_line-body :
    (room : ℕ) (body text : List ℕ)
    → All (λ (c : ℕ). (c == 10) ≡ false) body
    → length body < room
    → take_line room (body ++ 10 ∷ text) ≡ (body ++ 10 ∷ [], text)
take_line-body zero body text single short = absurd (omega arith)
take_line-body (suc room) [] text single short = refl
take_line-body (suc room) (c ∷ body) text single short =
    rw (single.0, take_line-body room body text single.1 (omega arith)) refl

-- fgets returns the line.
take_line-IsLine : (line text : List ℕ) → IsLine line → take_line 255 (line ++ text) ≡ (line, text)
take_line-IsLine line text l =
    rw (l.whole, append_assoc l.body (10 ∷ []) text)
      (take_line-body 255 l.body text l.single l.short)

-- What a turn does with a line and the text behind it.
abbrev read_turn :
    (fuel : ℕ) (before : List Process) → List ℕ × List ℕ → Outcome (Option (List Process))
read_turn fuel before (line, text) =
    if is_ignored line then read_lines fuel text before else elim (scan_process line) [
      | none ↦ done none
      | some process ↦ read_lines fuel text (before ++ process ∷ [])
    ]

read_line :
    (fuel : ℕ) (line text : List ℕ) (before : List Process)
    → IsLine line
    → read_lines (suc fuel) (line ++ text) before ≡ read_turn fuel before (line, text)
unfolding read_lines
read_line fuel [] text before l =
    absurd (omega (arith, ap length l.whole, length-append l.body (10 ∷ [])))
read_line fuel (c ∷ cs) text before l =
    ap (read_turn fuel before) (take_line-IsLine (c ∷ cs) text l)

-- A line has a character, so the text behind it is shorter.
behind_shorter :
    (fuel : ℕ) (line text : List ℕ)
    → IsLine line
    → length (line ++ text) < suc fuel
    → length text < fuel
behind_shorter fuel line text l enough =
    omega (arith, ap length l.whole, length-append l.body (10 ∷ []), length-append line text)

read_lines-InputText :
    (fuel : ℕ) (text : List ℕ) (before ps : List Process)
    → InputText text ps
    → length text < fuel
    → read_lines fuel text before ≡ done (some (before ++ ps))
unfolding read_lines
read_lines-InputText zero text before ps said enough = absurd (omega arith)
read_lines-InputText (suc fuel) _ before _ InputText.no_line enough =
    ap (λ l. done (some l)) (sym (append-nil before))
read_lines-InputText (suc fuel) _ before ps (InputText.ignored {line} {text} l skipped said)
      enough =
    read_line fuel line text before l
    ∙ rw skipped
        (read_lines-InputText fuel text before ps said (behind_shorter fuel line text l enough))
read_lines-InputText (suc fuel) _ before _
      (InputText.described {line} {text} {ps} process l kept fields said) enough =
    read_line fuel line text before l
    ∙ rw (kept, scan_process-Fields process line fields)
        (read_lines-InputText fuel text (before ++ process ∷ []) ps said
          (behind_shorter fuel line text l enough))
    ∙ ap (λ l. done (some l)) (append_assoc before (process ∷ []) ps)

-- With more fuel than characters, read_input_file of a text of lines, each a comment, empty, or five
-- integers that fit an int, with tabs between them, all shorter than the buffer, ends with exit code 0 and exactly the
-- processes that the lines say, in their order.
pub read_input_file_correct :
    (fuel : ℕ) (text : List ℕ) (ps : List Process)
    → InputText text ps
    → length text < fuel
    → read_input_file fuel (some text) ≡ done (some ps)
unfolding read_input_file
read_input_file_correct fuel text ps said enough = read_lines-InputText fuel text [] ps said enough
