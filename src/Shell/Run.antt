-- ===== src/Shell/Run.antt =====
-- hw2/shell.c: runcmd. It never returns: its result is what becomes of each process.
use nyu_operating_systems.Base.{ℕ, ◌+◌, ◌*◌, Bool, true, false, List, [], ◌∷◌, ◌++◌, if◌then◌else◌}
use nyu_operating_systems.Shell.Token.{Text}
use nyu_operating_systems.Shell.Parser.{Cmd, exec, redir, pipe}
use nyu_operating_systems.Shell.Table.{
  pipe_read, pipe_write, Descriptors, lowest, install, close, dup, Process, System, fd_of,
  open_file,
}

-- A program with its arguments, or exit(0), after "unknown runcmd" where the flag is set.
pub data Fate : Type 0 where
  becomes : List Text → Process → Fate
  ends : Bool → Process → Fate

abbrev pub with_fds : Process → Descriptors → Process
with_fds p t = record p { fds = t }

-- The child between fork and its runcmd, where p[0] and p[1] are the ends of the pipe.
abbrev pub left_ends : ℕ → ℕ → Descriptors → Descriptors
left_ends p_read p_write t = close p_write (close p_read (dup p_write (close 1 t)))

-- The parent.
abbrev pub right_ends : ℕ → ℕ → Descriptors → Descriptors
right_ends p_read p_write t = close p_read (close p_write (dup p_read (close 0 t)))

abbrev pub run_exec : System → List Text → Process → Fate
run_exec sys [] p = ends false p
run_exec sys (w ∷ ws) p = if sys.found w then becomes (w ∷ ws) p else ends true p

-- The processes of a command, the left ones of a pipe first. n is the number of the next pipe; the
-- pipes of its sides are 2 n and 2 n + 1 and so on.
unfoldable pub runcmd : System → ℕ → Cmd → Process → List Fate
unfolding lowest install
runcmd sys n (exec argv) p = run_exec sys argv p ∷ []
runcmd sys n (redir d cmd name) p =
    runcmd sys n cmd (open_file sys d name (with_fds p (close (fd_of d) p.fds)))
runcmd sys n (pipe l r) p =
    let p_read = lowest p.fds in
    let with_read = install (pipe_read n) p.fds in
    let p_write = lowest with_read in
    let both = install (pipe_write n) with_read in
    let left = runcmd sys (2 * n) l (with_fds p (left_ends p_read p_write both)) in
    let right = runcmd sys (2 * n + 1) r (with_fds p (right_ends p_read p_write both)) in
    if sys.forks n then left ++ right else right
