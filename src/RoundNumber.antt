-- ===== src/RoundNumber.antt =====
-- round_number of src/file_handlers.c. `text` is what the conversion %.2f of printf makes of the
-- number, as character codes; how printf formats a float is not modelled.
pub mod Trimmed
mod Tests
use os_scheduler.Base.{
  ℕ, zero, suc, ◌-◌, Bool, true, false, List, [], ◌∷◌, ◌==◌, if◌then◌else◌, length, get_or, take,
}

-- snprintf with a size: the end of the string takes the last place.
abbrev pub snprintf : (size : ℕ) → (text : List ℕ) → List ℕ
snprintf size text = take (size - 1) text

-- sizeof(str), where str is a pointer of 64 bits.
abbrev pub sizeof_str : ℕ
sizeof_str = 8

-- The loop over the zeros at the end.
unfoldable pub trim_zeros : (len : ℕ) → List ℕ → List ℕ
trim_zeros zero str = str
trim_zeros (suc len) str =
    let shorter = trim_zeros len (take len str) in if get_or str len 0 == 48 then shorter else str

abbrev pub trim_at : (len : ℕ) → List ℕ → List ℕ
trim_at zero str = str
trim_at (suc len) str = if get_or str len 0 == 46 then take len str else str

unfoldable pub trim_point : List ℕ → List ℕ
trim_point str = trim_at (length str) str

unfoldable pub round_number : (text : List ℕ) → List ℕ
round_number text = let str = snprintf sizeof_str text in trim_point (trim_zeros (length str) str)
