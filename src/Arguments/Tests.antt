-- ===== src/Arguments/Tests.antt =====
-- Runs of parse_args of src/process_generator.c.
use Prim.Native.String.{String}
use os_scheduler.Base.{arith, ◌≡◌, ◌↔◌, refl, some, none, [], ◌∷◌, get_or, List}
use os_scheduler.Base.Int.{pos, negsuc, neg, le_ℤ, pos_part, neg_part}
use os_scheduler.Arguments.{Arguments, atoi, parse_args, parse_rr, parse_other}
use os_scheduler.Arguments.Valid.{CommandLine, parse_args_correct}

abbrev ring_line : List String
ring_line = "os-sim" ∷ "-s" ∷ "rr" ∷ "-q" ∷ "3" ∷ "-f" ∷ "processes.txt" ∷ []

abbrev ring_arguments : Arguments
ring_arguments = record {
  scheduling_algo = "rr";
  input_file = "processes.txt";
  quantum = some (pos 3);
}

ring : parse_args ring_line ≡ some ring_arguments
unfolding parse_args parse_rr parse_other get_or atoi le_ℤ neg pos_part neg_part
ring = refl

read_number : atoi " -12x3" ≡ negsuc 11
unfolding atoi neg pos_part neg_part
read_number = refl

-- A quantum of 0 and one that is no number are refused.
no_quantum : parse_args ("os-sim" ∷ "-s" ∷ "rr" ∷ "-q" ∷ "x" ∷ "-f" ∷ "processes.txt" ∷ []) ≡ none
unfolding parse_args parse_rr parse_other get_or atoi le_ℤ neg pos_part neg_part
no_quantum = refl

parse_args_correct_example :
    (parse_args ring_line ≡ some ring_arguments) ↔ CommandLine ring_line ring_arguments
unfolding get_or atoi neg pos_part neg_part
parse_args_correct_example =
    parse_args_correct ring_line ring_arguments λ seven. (omega arith, omega arith)
