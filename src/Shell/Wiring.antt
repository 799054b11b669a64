-- ===== src/Shell/Wiring.antt =====
-- The descriptors that the programs of a line of hw2/shell.c start with.
use nyu_operating_systems.Base.{
  ℕ, zero, suc, ◌+◌, ◌*◌, ◌≡◌, refl, ◌∙◌, ap, true, false, none, some, List, [], ◌∷◌, ◌++◌,
  replicate, All, append-nil,
}
use nyu_operating_systems.Shell.Token.{Text}
use nyu_operating_systems.Shell.Parser.{Direction, from_file, to_file, Cmd, exec, redir, pipe}
use nyu_operating_systems.Shell.Table.{
  Desc, file, pipe_read, pipe_write, Descriptors, lowest, install, System,
}
use nyu_operating_systems.Shell.Run.{Fate, becomes, runcmd}

-- A process with its three standard descriptors open; k others were once in use.
abbrev pub standard : Desc → Desc → Desc → ℕ → Descriptors
standard input output errors k = some input ∷ some output ∷ some errors ∷ replicate k none

abbrev pub with_pipe : ℕ → ℕ
with_pipe zero = 2
with_pipe (suc zero) = 2
with_pipe (suc (suc k)) = suc (suc k)

-- In a process with its three standard descriptors open, a pipe whose fork works joins the
-- output of its left side to the input of its right side. Neither side keeps another end of it,
-- so that a reader sees the end of what its writer writes.
pub runcmd-pipe :
    (sys : System) (n k : ℕ) (l r : Cmd) (input output errors : Desc)
    (opened : List (Direction × Text))
    → sys.forks n ≡ true
    → runcmd sys n (pipe l r) (record { fds = standard input output errors k; opened = opened })
      ≡ runcmd sys
          (2 * n)
          l
          (record { fds = standard input (pipe_write n) errors (with_pipe k); opened = opened })
        ++ runcmd sys
            (2 * n + 1)
            r
            (record { fds = standard (pipe_read n) output errors (with_pipe k); opened = opened })
unfolding runcmd lowest install
runcmd-pipe sys n zero l r input output errors opened works = rw works refl
runcmd-pipe sys n (suc zero) l r input output errors opened works = rw works refl
runcmd-pipe sys n (suc (suc k)) l r input output errors opened works = rw works refl

abbrev pub Redirection : Type 0
Redirection = Direction × Text

-- The command of some redirections as they are written.
abbrev pub redirected : List Redirection → Cmd → Cmd
redirected [] c = c
redirected ((d, name) ∷ rs) c = redirected rs (redir d c name)

-- What the input or the output is after some redirections.
abbrev pub input_of : List Redirection → Desc → Desc
input_of [] input = input
input_of ((from_file, name) ∷ rs) input = file from_file name
input_of ((to_file, name) ∷ rs) input = input_of rs input

abbrev pub output_of : List Redirection → Desc → Desc
output_of [] output = output
output_of ((from_file, name) ∷ rs) output = output_of rs output
output_of ((to_file, name) ∷ rs) output = file to_file name

abbrev pub Opens : System → Redirection → Type 0
Opens sys (d, name) = sys.opens d name ≡ true

-- Redirections that all open leave the file of the first one that is written as the input, and of
-- the first one as the output; they open every file, the last one written first.
pub runcmd-redirected :
    (sys : System) (n k : ℕ) (rs : List Redirection) (c : Cmd) (input output errors : Desc)
    (opened : List Redirection)
    → All (Opens sys) rs
    → runcmd sys n
        (redirected rs c)
        (record { fds = standard input output errors k; opened = opened })
      ≡ runcmd sys n c (record {
        fds = standard (input_of rs input) (output_of rs output) errors k;
        opened = rs ++ opened;
      })
unfolding runcmd install
runcmd-redirected sys n k [] c input output errors opened all = refl
runcmd-redirected sys n k ((from_file, name) ∷ rs) c input output errors opened (opens, all) =
    runcmd-redirected sys n k rs (redir from_file c name) input output errors opened all
    ∙ rw opens refl
runcmd-redirected sys n k ((to_file, name) ∷ rs) c input output errors opened (opens, all) =
    runcmd-redirected sys n k rs (redir to_file c name) input output errors opened all
    ∙ rw opens refl

-- Where the input file of `program > out < in` does not open, but the output file does and the
-- program is found, the program starts all the same, with the output file as its input and no
-- output.
pub runcmd-misplaced :
    (sys : System) (n k : ℕ) (program out unopened : Text) (args : List Text)
    (input output errors : Desc)
    → sys.opens from_file unopened ≡ false
    → sys.opens to_file out ≡ true
    → sys.found program ≡ true
    → runcmd sys n
        (redirected ((to_file, out) ∷ (from_file, unopened) ∷ []) (exec (program ∷ args)))
        (record { fds = standard input output errors k; opened = [] })
      ≡ becomes (program ∷ args) (record {
        fds = some (file to_file out) ∷ none ∷ some errors ∷ replicate k none;
        opened = (to_file, out) ∷ [];
      })
        ∷ []
unfolding runcmd install
runcmd-misplaced sys n k program out unopened args input output errors fails opens found =
    rw (fails, opens, found) refl

-- A program with its arguments, and the redirections.
abbrev pub Stage : Type 0
Stage = List Text × List Redirection

abbrev pub command : Stage → Cmd
command (argv, rs) = redirected rs (exec argv)

abbrev pub command_line : Stage → List Stage → Cmd
command_line g [] = command g
command_line g (h ∷ gs) = pipe (command g) (command_line h gs)

abbrev pub started : Stage → Desc → Desc → Desc → ℕ → Fate
started (argv, rs) input output errors k =
    becomes argv
      (record { fds = standard (input_of rs input) (output_of rs output) errors k; opened = rs })

-- The programs, each joined to the next one by a pipe of its own.
abbrev pub joined : ℕ → ℕ → Desc → Desc → Desc → Stage → List Stage → List Fate
joined n k input output errors g [] = started g input output errors k ∷ []
joined n k input output errors g (h ∷ gs) =
    started g input (pipe_write n) errors (with_pipe k)
    ∷ joined (2 * n + 1) (with_pipe k) (pipe_read n) output errors h gs

abbrev pub Starts : System → Stage → Type 0
Starts sys ([], rs) = ⊥
Starts sys (w ∷ ws, rs) = (sys.found w ≡ true) × All (Opens sys) rs

runcmd-command :
    (sys : System) (n k : ℕ) (g : Stage) (input output errors : Desc)
    → Starts sys g
    → runcmd sys n (command g) (record { fds = standard input output errors k; opened = [] })
      ≡ started g input output errors k ∷ []
unfolding runcmd
runcmd-command sys n k ([], rs) input output errors starts = absurd starts
runcmd-command sys n k (w ∷ ws, rs) input output errors (found, opens) =
    runcmd-redirected sys n k rs (exec (w ∷ ws)) input output errors [] opens
    ∙ rw (found, append-nil rs) refl

-- A line of programs with their redirections, in which every fork works, every program is found and
-- every file opens, becomes these programs, each with its input from the program before it and its
-- output to the one after it, unless it redirects them.
pub runcmd-joined :
    (sys : System) (n k : ℕ) (g : Stage) (gs : List Stage) (input output errors : Desc)
    → ((m : ℕ) → sys.forks m ≡ true)
    → All (Starts sys) (g ∷ gs)
    → runcmd sys n
        (command_line g gs)
        (record { fds = standard input output errors k; opened = [] })
      ≡ joined n k input output errors g gs
runcmd-joined sys n k g [] input output errors forks (starts, all) =
    runcmd-command sys n k g input output errors starts
runcmd-joined sys n k g (h ∷ gs) input output errors forks (starts, all) =
    runcmd-pipe sys n k (command g) (command_line h gs) input output errors [] (forks n)
    ∙ ap
        (λ fates.
          fates
          ++ runcmd sys (2 * n + 1) (command_line h gs)
              (record { fds = standard (pipe_read n) output errors (with_pipe k); opened = [] }))
        (runcmd-command sys (2 * n) (with_pipe k) g input (pipe_write n) errors starts)
    ∙ ap (λ fates. started g input (pipe_write n) errors (with_pipe k) ∷ fates)
        (runcmd-joined sys (2 * n + 1) (with_pipe k) h gs (pipe_read n) output errors forks all)
