-- ===== src/Uniq/Modes.antt =====
-- hw1/uniq.c: the two modes and uniq, with string_compare as a parameter.
use nyu_operating_systems.Base.{
  ℕ, zero, suc, ◌+◌, ◌&&◌, not, Bool, true, false, List, [], ◌∷◌, length, if◌then◌else◌,
}
use nyu_operating_systems.Uniq.Compare.{Stack, string_compare}
use nyu_operating_systems.Uniq.Reading.{Text, Read, end_of_file, overrun, line, myreadline}

-- printf(STD_OUT, "%s", line) and printf(STD_OUT, "%d %s", n, line)
pub data Print : Type 0 where
  plain : Text → Print
  counted : ℕ → Text → Print

pub data Result : Type 0 where
  prints : List Print → Result
  file_empty overruns out_of_fuel : Result

abbrev pub also : Print → Result → Result
also o (prints os) = prints (o ∷ os)
also o file_empty = file_empty
also o overruns = overruns
also o out_of_fuel = out_of_fuel

-- if (count) ... else ...
abbrev pub print_line : Bool → ℕ → Text → Print
print_line count n l = if count then counted n l else plain l

-- The body of a loop; `again` is the rest of the loop, from dupe_count and last_line.
abbrev pub next_line :
    (Text → Text → Bool) → (Text → ℕ → Text → Result) → Bool → ℕ → Text → Read → Result
next_line compare again count n last end_of_file = prints (print_line count n last ∷ [])
next_line compare again count n last overrun = overruns
next_line compare again count n last (line l rest) =
    if compare last l
    then again rest (n + 1) last
    else also (print_line count n last) (again rest 1 l)

unfoldable pub non_duplicate_loop : (Text → Text → Bool) → ℕ → Bool → Text → ℕ → Text → Result
non_duplicate_loop compare zero count file n last = out_of_fuel
non_duplicate_loop compare (suc fuel) count file n last =
    next_line compare (non_duplicate_loop compare fuel count) count n last (myreadline file)

-- Each round but the last takes a byte of the file.
unfoldable pub uniq_non_duplicate_mode : (Text → Text → Bool) → Bool → Text → Text → Result
uniq_non_duplicate_mode compare count file last =
    non_duplicate_loop compare (suc (length file)) count file 1 last

-- The same with the flag dupe_found and last_line.
abbrev pub next_dupe :
    (Text → Text → Bool) → (Text → Bool → Text → Result) → Bool → Text → Read → Result
next_dupe compare again dupe last end_of_file = prints []
next_dupe compare again dupe last overrun = overruns
next_dupe compare again dupe last (line l rest) =
    if compare last l && not dupe
    then also (plain last) (again rest true last)
    else again rest false l

unfoldable pub duplicate_loop : (Text → Text → Bool) → ℕ → Text → Bool → Text → Result
duplicate_loop compare zero file dupe last = out_of_fuel
duplicate_loop compare (suc fuel) file dupe last =
    next_dupe compare (duplicate_loop compare fuel) dupe last (myreadline file)

unfoldable pub uniq_duplicate_mode : (Text → Text → Bool) → Text → Text → Result
uniq_duplicate_mode compare file last = duplicate_loop compare (suc (length file)) file false last

-- The first line, and the switch.
abbrev pub choose : (Text → Text → Bool) → Bool → Bool → Read → Result
choose compare count duplicate end_of_file = file_empty
choose compare count duplicate overrun = overruns
choose compare count duplicate (line l rest) =
    if duplicate
    then uniq_duplicate_mode compare rest l
    else uniq_non_duplicate_mode compare count rest l

unfoldable pub uniq : Bool → Stack → Bool → Bool → Text → Result
uniq ignore stack count duplicate file =
    choose (string_compare ignore stack) count duplicate (myreadline file)
