-- ===== src/Uniq/Runs.antt =====
-- The output of hw1/uniq.c without -d: the runs of equal lines, and of lines that are equal in upper
-- case under -i.
use nyu_operating_systems.Base.{
  ◌≤◌, ◌≡◌, refl, arith, Bool, false, List, [], ◌∷◌, map, All, length-append,
}
use nyu_operating_systems.Uniq.Reading.{Text, newline, NoNul, IsLine}
use nyu_operating_systems.Uniq.Compare.{Stack, string_compare}
use nyu_operating_systems.Uniq.Copies.{Readable, Apart, string_compare-copied}
use nyu_operating_systems.Uniq.Modes.{prints, uniq}
use nyu_operating_systems.Uniq.Alike.{
  closed, file_of, Run, expand, print_run, AreAlike, Maximal, Fits, choose-runs,
}

NoNul-closed : (l : Text) → NoNul l → NoNul (closed l)
NoNul-closed [] h = (refl, tt)
NoNul-closed (c ∷ l) (some_char, h) = (some_char, NoNul-closed l h)

pub closed-Readable :
    (stack : Stack) (l : Text) → 1024 ≤ stack.bytes → IsLine l → Readable stack (closed l)
closed-Readable stack l room (one_line, plain, short) =
    (NoNul-closed l plain, omega (arith, length-append l (newline ∷ [])))

-- On a file of lines that fit the buffer, each ended by a newline, whose copies in string_compare
-- and the bytes behind them do not overlap, uniq without -d and -i prints one line for each run of
-- equal lines, with its length under -c: the lines of a run are equal, no two runs in a row are of
-- the same line, and the runs are the lines of the file.
pub uniq-runs :
    (stack : Stack) (count : Bool) (Kept : Text → Type 0) (l : Text) (ls : List Text)
    → 1024 ≤ stack.bytes
    → ((s t : Text) → Kept s → Kept t → Apart stack (closed s) (closed t))
    → All (Fits Kept) (l ∷ ls)
    → (rs : List Run) × (uniq false stack count false (file_of (l ∷ ls))
        ≡ prints (map (print_run count) rs))
      × (expand rs ≡ map closed (l ∷ ls))
      × AreAlike (λ k. k) rs
      × Maximal (λ k. k) rs
unfolding uniq
uniq-runs stack count Kept l ls room apart fits =
    choose-runs (λ k. k) (string_compare false stack) Kept
      (λ s t (line_s, kept_s) (line_t, kept_t).
        string_compare-copied stack (closed s) (closed t) (closed-Readable stack s room line_s)
          (closed-Readable stack t room line_t) (apart s t kept_s kept_t))
      count l ls fits
