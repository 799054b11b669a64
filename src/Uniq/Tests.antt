-- ===== src/Uniq/Tests.antt =====
-- Small files for hw1/uniq.c.
use nyu_operating_systems.Base.{
  ◌/◌, ◌*◌, ◌+◌, ◌%◌, ◌==◌, ◌≡◌, inl, length, refl, arith, true, false, some, none, List, [], ◌∷◌,
  map, replicate, ◌&◌,
}
use nyu_operating_systems.Uniq.Reading.{Text}
use nyu_operating_systems.Uniq.Compare.{Stack}
use nyu_operating_systems.Uniq.Copies.{Apart}
use nyu_operating_systems.Uniq.Modes.{prints, uniq}
use nyu_operating_systems.Uniq.Alike.{Run, closed, file_of, expand, print_run, AreAlike, Maximal}
use nyu_operating_systems.Uniq.Runs.{uniq-runs}
use nyu_operating_systems.Uniq.Dupes.{uniq-dupes}
use nyu_operating_systems.Uniq.Options.{Surroundings}

-- The arrays lie one behind the other, at addresses that 16 divides, on a stack of zeros.
abbrev aligned : Stack
aligned = record {
  memory = λ s t a. 0;
  first = λ m n. 4096 + (n + 15) / 16 * 16;
  second = λ m n. 4096;
  bytes = 8192;
}

-- A line that leaves room for its NUL there.
abbrev LeavesRoom : Text → Type 0
LeavesRoom l = length (closed l) % 16 == 0 ≡ false

LeavesRoom-Apart : (s t : Text) → LeavesRoom s → LeavesRoom t → Apart aligned (closed s) (closed t)
LeavesRoom-Apart s t of_s of_t = inl (ground arith)

-- "a", "a", "b"
abbrev three_lines : List Text
three_lines = (97 ∷ []) ∷ (97 ∷ []) ∷ (98 ∷ []) ∷ []

uniq-runs_example :
    (rs : List Run) × (uniq false aligned true false (file_of three_lines)
      ≡ prints (map (print_run true) rs))
    × (expand rs ≡ map closed three_lines)
    × AreAlike (λ k. k) rs
    × Maximal (λ k. k) rs
uniq-runs_example =
    uniq-runs aligned true LeavesRoom (97 ∷ []) ((97 ∷ []) ∷ (98 ∷ []) ∷ []) (omega arith)
      LeavesRoom-Apart
      ((((refl, tt), (refl, tt), omega arith), refl)
        & (((refl, tt), (refl, tt), omega arith), refl)
        & (((refl, tt), (refl, tt), omega arith), refl)
        & tt)

-- A line of 15 bytes, which with its newline fills its array, comes twice.
abbrev long_line : Text
long_line = replicate 15 97

uniq-dupes_example : uniq false aligned false true (file_of (replicate 2 long_line)) ≡ prints []
uniq-dupes_example = uniq-dupes aligned true false long_line 1 (omega arith) refl (
  refl & refl & refl & refl & refl & refl & refl & refl & refl & refl & refl & refl & refl & refl
      & refl & tt,
  refl & refl & refl & refl & refl & refl & refl & refl & refl & refl & refl & refl & refl & refl
      & refl & tt,
  omega arith,
)

abbrev one_file : Surroundings
one_file = record {
  files = λ name. some (file_of three_lines);
  unset = none;
  std_in = [];
  stack = aligned;
}
