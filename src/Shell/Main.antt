-- ===== src/Shell/Main.antt =====
-- hw2/shell.c: getcmd and main.
use nyu_operating_systems.Base.{
  ℕ, zero, suc, ◌==◌, ◌&&◌, Bool, true, false, Option, none, some, List, [], ◌∷◌, if◌then◌else◌,
  on_some, length,
}
use nyu_operating_systems.Shell.Token.{Text}
use nyu_operating_systems.Shell.Parser.{Complaint, Parse, ok, exits, out_of_fuel, parsecmd}
use nyu_operating_systems.Shell.Table.{own, Process, System}
use nyu_operating_systems.Shell.Run.{Fate, runcmd}

-- fgets into room for n characters: up to a newline, and what is left.
unfoldable pub fgets : ℕ → Text → Text × Text
fgets zero input = ([], input)
fgets (suc n) [] = ([], [])
fgets (suc n) (c ∷ input) =
    let (line, rest) = fgets n input in if c == 10 then (c ∷ [], input) else (c ∷ line, rest)

-- getcmd with sizeof(buf) = 100: one character is for the NUL.
abbrev pub getcmd : Text → Text × Text
getcmd input = fgets 99 input

-- What the kernel answers while a line is run: to the fork and the chdir of main, and to the rest.
pub record Answers : Type 0 where
  pub forked : Bool
  pub chdir : Text → Bool
  pub system : System

-- What a line does: a chdir that works or fails with a message; a fork that fails; a child that runs
-- a command, or exits(-1) with the parser's message, or is still parsing when the fuel is out.
pub data Event : Type 0 where
  changed cannot_cd : Text → Event
  no_child : Event
  child : List Fate → Event
  refused : Complaint → Event
  unparsed : Event

-- buf[0] == 'c' && buf[1] == 'd' && buf[2] == ' '
abbrev pub is_cd : Text → Bool
is_cd [] = false
is_cd (c ∷ []) = false
is_cd (c ∷ d ∷ []) = false
is_cd (c ∷ d ∷ e ∷ rest) = c == 99 && d == 100 && e == 32

-- buf[strlen(buf)-1] = 0
abbrev pub chop : Text → Text
chop [] = []
chop (c ∷ []) = []
chop (c ∷ d ∷ buf) = c ∷ chop (d ∷ buf)

-- buf+3
abbrev pub after_cd : Text → Text
after_cd (c ∷ d ∷ e ∷ path) = path
after_cd _ = []

-- The shell's own descriptors; the command's pipes are numbered from 1.
abbrev pub shell_process : Process
shell_process = record { fds = some (own 0) ∷ some (own 1) ∷ some (own 2) ∷ []; opened = [] }

abbrev pub run_parsed : System → Parse → Event
run_parsed sys (ok cmd rest) = child (runcmd sys 1 cmd shell_process)
run_parsed sys (exits complaint) = refused complaint
run_parsed sys out_of_fuel = unparsed

abbrev pub run_cd : Answers → Text → Event
run_cd k path = if k.chdir path then changed path else cannot_cd path

-- The body of main's loop.
unfoldable pub run_line : Answers → Text → Event
run_line k buf =
    if is_cd buf
    then run_cd k (after_cd (chop buf))
    else (if k.forked then run_parsed k.system (parsecmd buf) else no_child)

-- buf[0] == 0
abbrev pub at_eof : Text → Bool
at_eof [] = true
at_eof (c ∷ buf) = false

-- The loop of main, from line i on; the kernel may answer differently at each line. The fuel bounds
-- the lines.
unfoldable pub main_loop : (ℕ → Answers) → ℕ → ℕ → Text → Option (List Event)
unfolding run_line fgets
main_loop kernels zero i input = none
main_loop kernels (suc fuel) i input =
    let (buf, rest) = getcmd input in
    let next = main_loop kernels fuel (suc i) rest in
    if at_eof buf then some [] else on_some (λ events. run_line (kernels i) buf ∷ events) next

-- main on the shell's whole input: each line that is read takes a character at least.
unfoldable pub main : (ℕ → Answers) → Text → Option (List Event)
unfolding main_loop
main kernels input = main_loop kernels (suc (length input)) 0 input
