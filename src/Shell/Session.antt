-- ===== src/Shell/Session.antt =====
-- What the shell of hw2/shell.c does with lines that fit its buffer.
use nyu_operating_systems.Base.{
  ℕ, suc, ◌≡◌, ◌≢◌, ◌<◌, ap, true, false, List, [], ◌∷◌, ◌++◌, length, All, map,
}
use nyu_operating_systems.Shell.Token.{Text}
use nyu_operating_systems.Shell.Table.{own}
use nyu_operating_systems.Shell.Wiring.{Starts, joined, runcmd-joined}
use nyu_operating_systems.Shell.Items.{Item}
use nyu_operating_systems.Shell.Reading.{
  IsCommand, print_commands, program_of, parsecmd-print_commands,
}
use nyu_operating_systems.Shell.Main.{Answers, Event, child, is_cd, run_line}

abbrev pub join_lines : List Text → Text
join_lines [] = []
join_lines (l ∷ ls) = l ++ 10 ∷ join_lines ls

-- The lines, run one after the other from the i-th on.
abbrev pub run_lines : (ℕ → Answers) → ℕ → List Text → List Event
run_lines kernels i [] = []
run_lines kernels i (l ∷ ls) = run_line (kernels i) (l ++ 10 ∷ []) ∷ run_lines kernels (suc i) ls

-- No newline inside, and short enough for the buffer with its newline and NUL.
abbrev pub IsLine : Text → Type 0
IsLine l = All (λ c. c ≢ 10) l × (length l < 99)

-- A printed line of commands that is no cd, of plain arguments and files, fewer than MAXARGS
-- arguments each, where every fork works, every program is found and every file opens, becomes
-- these programs with their arguments: each reads what the one before it writes, and the first
-- and the last have the shell's input and output, except where they redirect them.
pub run_line-joined :
    (k : Answers) (is : List Item) (rest : List (List Item))
    → All IsCommand (is ∷ rest)
    → is_cd (print_commands is rest) ≡ false
    → k.forked ≡ true
    → ((m : ℕ) → k.system.forks m ≡ true)
    → All (Starts k.system) (program_of is ∷ map program_of rest)
    → run_line k (print_commands is rest)
      ≡ child (joined 1 0 (own 0) (own 1) (own 2) (program_of is) (map program_of rest))
unfolding run_line
run_line-joined k is rest commands command forked forks starts =
    rw (command, forked, parsecmd-print_commands is rest commands)
      (ap child (
        runcmd-joined k.system 1 0 (program_of is) (map program_of rest) (own 0) (own 1) (own 2)
          forks starts))
