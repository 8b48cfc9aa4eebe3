-- ===== src/Arguments/Valid.antt =====
-- parse_args of src/process_generator.c accepts exactly the command lines of the usage message.
use mathlib.Core.Path.{subst}
use Prim.Native.String.{String}
use text.Mathlib.Text.{◌==◌ as str_eq}
use text.Mathlib.TextEquality.{eq_iff}
use os_scheduler.Base.{
  ◌≡◌, refl, ◌⊎◌, inl, inr, ◌↔◌, Bool, true, false, ◌&&◌, none, some, List, [], ◌∷◌, ◌==◌, length,
  get_or, arith, Bool-cases,
}
use os_scheduler.Base.Int.{pos, le_ℤ, FitsInt}
use os_scheduler.Arguments.{not, arg, Arguments, atoi, parse_rr, parse_other, parse_args}

-- The command lines of the usage message, with what they say.
pub data CommandLine : List String → Arguments → Type 0 where
  round_robin :
      (program quantum input_file : String)
      → le_ℤ (atoi quantum) (pos 0) ≡ false
      → FitsInt (atoi quantum)
      → CommandLine (program ∷ "-s" ∷ "rr" ∷ "-q" ∷ quantum ∷ "-f" ∷ input_file ∷ []) (record {
        scheduling_algo = "rr";
        input_file = input_file;
        quantum = some (atoi quantum);
      })
  by_priority :
      (program scheduling_algo input_file : String)
      → (scheduling_algo ≡ "hpf") ⊎ (scheduling_algo ≡ "srtn")
      → CommandLine
          (program ∷ "-s" ∷ scheduling_algo ∷ "-f" ∷ input_file ∷ [])
          (record { scheduling_algo = scheduling_algo; input_file = input_file; quantum = none })

-- parse_args accepts every such command line, with what it says.
pub parse_args-CommandLine :
    (argv : List String) (a : Arguments) → CommandLine argv a → parse_args argv ≡ some a
unfolding parse_args parse_rr parse_other get_or
parse_args-CommandLine argv a (CommandLine.round_robin program quantum input_file positive fits) =
    rw positive refl
parse_args-CommandLine argv a (CommandLine.by_priority program algo input_file (inl hpf)) =
    rw hpf refl
parse_args-CommandLine argv a (CommandLine.by_priority program algo input_file (inr srtn)) =
    rw srtn refl

some_injective : (a b : Arguments) → some a ≡ some b → a ≡ b
some_injective a b e = cc e

same_text : (s t : String) → str_eq s t ≡ true → s ≡ t
same_text s t = (eq_iff s t).0

abbrev unknown : String → Bool
unknown algo = not (str_eq algo "hpf") && not (str_eq algo "srtn")

known_name : (algo : String) → unknown algo ≡ false → (algo ≡ "hpf") ⊎ (algo ≡ "srtn")
known_name algo known = elim (Bool-cases (str_eq algo "hpf")) [
  | inl e ↦ inl (same_text algo "hpf" e)
  | inr e ↦ elim (Bool-cases (str_eq algo "srtn")) [
    | inl f ↦ inr (same_text algo "srtn" f)
    | inr f ↦ absurd (cc (rw (e, f) at known))
  ]
]

parse_five :
    (program flag algo file_flag file : String) (a : Arguments)
    → parse_args (program ∷ flag ∷ algo ∷ file_flag ∷ file ∷ []) ≡ some a
    → CommandLine (program ∷ flag ∷ algo ∷ file_flag ∷ file ∷ []) a
unfolding parse_args parse_rr parse_other get_or
parse_five program flag algo file_flag file a run = elim (Bool-cases (str_eq flag "-s")) [
  | inr e ↦ absurd (cc (rw e at run))
  | inl s ↦ elim (Bool-cases (str_eq algo "rr")) [
    | inl e ↦ absurd (cc (rw (s, e) at run))
    | inr r ↦ elim (Bool-cases (unknown algo)) [
      | inl e ↦ absurd (cc (rw (s, r, e) at run))
      | inr known ↦ elim (Bool-cases (str_eq file_flag "-f")) [
        | inr e ↦ absurd (cc (rw (s, r, known, e) at run))
        | inl f ↦
            rw (same_text flag "-s" s, same_text file_flag "-f" f)
              (subst (CommandLine _) (some_injective _ _ (rw (s, r, known, f) at run))
                (CommandLine.by_priority program algo file (known_name algo known)))
      ]
    ]
  ]
]

parse_seven :
    (program flag algo quantum_flag quantum file_flag file : String) (a : Arguments)
    → FitsInt (atoi quantum)
    → parse_args (program ∷ flag ∷ algo ∷ quantum_flag ∷ quantum ∷ file_flag ∷ file ∷ []) ≡ some a
    → CommandLine (program ∷ flag ∷ algo ∷ quantum_flag ∷ quantum ∷ file_flag ∷ file ∷ []) a
unfolding parse_args parse_rr parse_other get_or
parse_seven program flag algo quantum_flag quantum file_flag file a fits run =
    elim (Bool-cases (str_eq flag "-s")) [
      | inr e ↦ absurd (cc (rw e at run))
      | inl s ↦ elim (Bool-cases (str_eq algo "rr")) [
        | inr r ↦ elim (Bool-cases (unknown algo)) [
          | inl e ↦ absurd (cc (rw (s, r, e) at run))
          | inr known ↦ absurd (cc (rw (s, r, known) at run))
        ]
        | inl r ↦ elim (Bool-cases (str_eq quantum_flag "-q")) [
          | inr e ↦ absurd (cc (rw (s, r, e) at run))
          | inl q ↦ elim (Bool-cases (str_eq file_flag "-f")) [
            | inr e ↦ absurd (cc (rw (s, r, q, e) at run))
            | inl f ↦ elim (Bool-cases (le_ℤ (atoi quantum) (pos 0))) [
              | inl e ↦ absurd (cc (rw (s, r, q, f, e) at run))
              | inr positive ↦
                  rw
                    (
                      same_text flag "-s" s,
                      same_text quantum_flag "-q" q,
                      same_text file_flag "-f" f,
                    )
                    (subst (CommandLine _) (some_injective _ _ (rw (s, r, q, f, positive) at run)) (
                      rw (same_text algo "rr" r)
                        (CommandLine.round_robin program quantum file positive fits)))
            ]
          ]
        ]
      ]
    ]

parse_length :
    (argv : List String) (a : Arguments)
    → parse_args argv ≡ some a
    → (length argv ≡ 5) ⊎ (length argv ≡ 7)
unfolding parse_args
parse_length argv a run = elim (Bool-cases (length argv == 5)) [
  | inl e ↦ inl (ground arith)
  | inr e ↦ elim (Bool-cases (length argv == 7)) [
    | inl f ↦ inr (ground arith)
    | inr f ↦ absurd (cc (rw (e, f) at run))
  ]
]

-- parse_args accepts no other command line.
pub parse_args-only :
    (argv : List String) (a : Arguments)
    → (length argv ≡ 7 → FitsInt (atoi (arg argv 4)))
    → parse_args argv ≡ some a
    → CommandLine argv a
unfolding get_or
parse_args-only argv a fits run = elim (parse_length argv a run) [
  | inl five ↦ go5 argv five run
  | inr seven ↦ go7 argv seven (fits seven) run
]
  where
    go5 : (argv : List String) → length argv ≡ 5 → parse_args argv ≡ some a → CommandLine argv a
    go5 [] l run = absurd (omega arith)
    go5 (p ∷ []) l run = absurd (omega arith)
    go5 (p ∷ s ∷ []) l run = absurd (omega arith)
    go5 (p ∷ s ∷ g ∷ []) l run = absurd (omega arith)
    go5 (p ∷ s ∷ g ∷ f ∷ []) l run = absurd (omega arith)
    go5 (p ∷ s ∷ g ∷ f ∷ i ∷ []) l run = parse_five p s g f i a run
    go5 (p ∷ s ∷ g ∷ f ∷ i ∷ x ∷ xs) l run = absurd (omega arith)

    go7 :
        (argv : List String)
        → length argv ≡ 7
        → FitsInt (atoi (arg argv 4))
        → parse_args argv ≡ some a
        → CommandLine argv a
    go7 [] l fits run = absurd (omega arith)
    go7 (p ∷ []) l fits run = absurd (omega arith)
    go7 (p ∷ s ∷ []) l fits run = absurd (omega arith)
    go7 (p ∷ s ∷ g ∷ []) l fits run = absurd (omega arith)
    go7 (p ∷ s ∷ g ∷ f ∷ []) l fits run = absurd (omega arith)
    go7 (p ∷ s ∷ g ∷ f ∷ i ∷ []) l fits run = absurd (omega arith)
    go7 (p ∷ s ∷ g ∷ q ∷ n ∷ f ∷ []) l fits run = absurd (omega arith)
    go7 (p ∷ s ∷ g ∷ q ∷ n ∷ f ∷ i ∷ []) l fits run = parse_seven p s g q n f i a fits run
    go7 (p ∷ s ∷ g ∷ q ∷ n ∷ f ∷ i ∷ x ∷ xs) l fits run = absurd (omega arith)

-- Where the fifth of seven arguments, read by atoi, fits an int, parse_args accepts a command line, and
-- stores what it says, exactly if it is one of the usage message with a known algorithm and, for
-- Round Robin, a positive quantum; every other one ends the program.
pub parse_args_correct :
    (argv : List String) (a : Arguments)
    → (length argv ≡ 7 → FitsInt (atoi (arg argv 4)))
    → (parse_args argv ≡ some a) ↔ CommandLine argv a
parse_args_correct argv a fits = (parse_args-only argv a fits, parse_args-CommandLine argv a)
