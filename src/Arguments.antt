-- ===== src/Arguments.antt =====
-- parse_args of src/process_generator.c: the command line, with argv[0] the program. `none` is the exit after a
-- usage message. atoi of the standard library is written out: white space, a sign, digits;
-- where the value fits no `int` it is undefined, and this is not what the code then does.
pub mod Valid
mod Tests
use Prim.Native.Char.{code}
use Prim.Native.String.{String}
use text.Mathlib.Text.{◌==◌ as str_eq}
use os_scheduler.Base.{
  ℕ, zero, suc, ◌+◌, ◌-◌, ◌*◌, Bool, true, false, ◌&&◌, ◌||◌, Option, none, some, List, [], ◌∷◌,
  leb, ◌==◌, if◌then◌else◌, length, get_or,
}
use os_scheduler.Base.Int.{ℤ, pos, neg, le_ℤ}

abbrev pub characters : String → List ℕ
characters String.[] = []
characters (String.◌∷◌ letter rest) = code letter ∷ characters rest

abbrev pub is_space : ℕ → Bool
is_space c = c == 32 || (leb 9 c && leb c 13)

abbrev pub is_digit : ℕ → Bool
is_digit c = leb 48 c && leb c 57

abbrev pub digits : (value : ℕ) → List ℕ → ℕ
digits value [] = value
digits value (c ∷ cs) =
    let rest = digits (value * 10 + (c - 48)) cs in if is_digit c then rest else value

abbrev pub signed : List ℕ → ℤ
signed [] = pos 0
signed (c ∷ cs) =
    if c == 45
    then neg (pos (digits 0 cs))
    else if c == 43
    then pos (digits 0 cs)
    else pos (digits 0 (c ∷ cs))

abbrev pub skip_space : List ℕ → List ℕ
skip_space [] = []
skip_space (c ∷ cs) = let rest = skip_space cs in if is_space c then rest else c ∷ cs

unfoldable pub atoi : String → ℤ
atoi s = signed (skip_space (characters s))

-- What parse_args stores; `none` where it leaves the quantum unset.
pub record Arguments : Type 0 where
  pub scheduling_algo : String
  pub input_file : String
  pub quantum : Option ℤ

abbrev pub not : Bool → Bool
not true = false
not false = true

-- `argv[i]`, read only where it stands.
abbrev pub arg : List String → ℕ → String
arg argv i = get_or argv i ""

unfoldable pub parse_rr : List String → Option Arguments
parse_rr argv =
    let quantum = atoi (arg argv 4) in
    if not (length argv == 7) || (not (str_eq (arg argv 3) "-q") || not (str_eq (arg argv 5) "-f"))
    then none
    else if le_ℤ quantum (pos 0)
    then none
    else some
        (record { scheduling_algo = arg argv 2; input_file = arg argv 6; quantum = some quantum })

unfoldable pub parse_other : List String → Option Arguments
parse_other argv =
    if not (length argv == 5) || not (str_eq (arg argv 3) "-f")
    then none
    else some (record { scheduling_algo = arg argv 2; input_file = arg argv 4; quantum = none })

unfoldable pub parse_args : List String → Option Arguments
parse_args argv =
    let scheduling_algo = arg argv 2 in
    if (not (length argv == 5) && not (length argv == 7)) || not (str_eq (arg argv 1) "-s")
    then none
    else if not (str_eq scheduling_algo "rr")
        && (not (str_eq scheduling_algo "hpf") && not (str_eq scheduling_algo "srtn"))
    then none
    else if str_eq scheduling_algo "rr"
    then parse_rr argv
    else parse_other argv
