-- ===== src/Shell/Parser.antt =====
-- hw2/shell.c: the recursive descent from parsecmd, its calls of exit as results.
use nyu_operating_systems.Base.{ℕ, zero, suc, leb, List, [], ◌∷◌, ◌++◌, length, if◌then◌else◌}
use nyu_operating_systems.Shell.Token.{
  Text, Token, end, less, greater, arg, skip, gettoken, peek, bar_only, less_greater,
}

-- MAXARGS
abbrev pub max_args : ℕ
max_args = 10

-- The direction of a redirection, with the mode and descriptor that redircmd derives from it.
pub data Direction : Type 0 where
  from_file to_file : Direction

-- struct cmd and its kinds: an execcmd's argv up to its null, a redircmd, a pipecmd.
pub data Cmd : Type 0 where
  exec : List Text → Cmd
  redir : Direction → Cmd → Text → Cmd
  pipe : Cmd → Cmd → Cmd

-- The messages before exit(-1).
pub data Complaint : Type 0 where
  leftovers missing_file syntax_error too_many_args : Complaint

pub data Parse : Type 0 where
  ok : Cmd → Text → Parse
  exits : Complaint → Parse
  out_of_fuel : Parse

abbrev pub and_then : Parse → (Cmd → Text → Parse) → Parse
and_then (ok c s) f = f c s
and_then (exits e) f = exits e
and_then out_of_fuel f = out_of_fuel

-- cmd->argv[argc] = w: the execcmd under the redirections that ret stands for.
unfoldable pub add_arg : Text → Cmd → Cmd
add_arg w (exec argv) = exec (argv ++ w ∷ [])
add_arg w (redir d c file) = redir d (add_arg w c) file
add_arg w (pipe l r) = pipe l r

-- The constructors; malloc and memset give a struct whose other fields are zero.
abbrev pub execcmd : Cmd
execcmd = exec []

-- The type stands for the mode and the descriptor.
abbrev pub redircmd : Cmd → Text → Direction → Cmd
redircmd subcmd file type = redir type subcmd file

abbrev pub pipecmd : Cmd → Cmd → Cmd
pipecmd left right = pipe left right

-- The switch on tok in parseredirs.
abbrev pub redir_of : Token → Cmd → Text → Cmd
redir_of less cmd file = redircmd cmd file from_file
redir_of greater cmd file = redircmd cmd file to_file
redir_of _ cmd file = cmd

-- The body of parseredirs' loop; `again` is the rest of the loop.
abbrev pub take_file : (Cmd → Text → Parse) → Cmd → Token → Token × Text → Parse
take_file again cmd tok (arg file, s) = again (redir_of tok cmd file) s
take_file again cmd tok (_, s) = exits missing_file

abbrev pub take_redir : (Cmd → Text → Parse) → Cmd → Token × Text → Parse
take_redir again cmd (tok, s) = take_file again cmd tok (gettoken s)

unfoldable pub redir_loop : ℕ → Cmd → Text → Parse
redir_loop zero cmd s = out_of_fuel
redir_loop (suc fuel) cmd s =
    let rest = take_redir (redir_loop fuel) cmd (gettoken (skip s)) in
    if peek less_greater s then rest else ok cmd (skip s)

unfoldable pub parseredirs : Cmd → Text → Parse
parseredirs cmd s = redir_loop (suc (length s)) cmd s

-- The body of parseexec's loop after its gettoken.
abbrev pub take_arg : (ℕ → Cmd → Text → Parse) → ℕ → Cmd → Token × Text → Parse
take_arg again argc ret (end, s) = ok ret s
take_arg again argc ret (arg w, s) =
    if leb max_args (suc argc)
    then exits too_many_args
    else and_then (parseredirs (add_arg w ret) s) (again (suc argc))
take_arg again argc ret (_, s) = exits syntax_error

unfoldable pub exec_loop : ℕ → ℕ → Cmd → Text → Parse
exec_loop zero argc ret s = out_of_fuel
exec_loop (suc fuel) argc ret s =
    let rest = take_arg (exec_loop fuel) argc ret (gettoken (skip s)) in
    if peek bar_only s then ok ret (skip s) else rest

-- The loop of parseexec takes one argument and its redirections a round.
abbrev pub exec_args : Cmd → Text → Parse
exec_args ret s = exec_loop (suc (length s)) 0 ret s

unfoldable pub parseexec : Text → Parse
parseexec s = and_then (parseredirs execcmd s) exec_args

abbrev pub pipe_left : Cmd → Cmd → Text → Parse
pipe_left left right s = ok (pipecmd left right) s

-- parsepipe after its parseexec; `again` is its own call.
abbrev pub take_pipe : (Text → Parse) → Cmd → Text → Parse
take_pipe again cmd s =
    if peek bar_only s
    then and_then (again (gettoken (skip s)).1) (pipe_left cmd)
    else ok cmd (skip s)

unfoldable pub pipe_loop : ℕ → Text → Parse
pipe_loop zero s = out_of_fuel
pipe_loop (suc fuel) s = and_then (parseexec s) (take_pipe (pipe_loop fuel))

-- parseline is parsepipe.
unfoldable pub parsepipe : Text → Parse
parsepipe s = pipe_loop (suc (length s)) s

-- The test for leftovers, after peek.
abbrev pub all_read : Cmd → Text → Parse
all_read cmd [] = ok cmd []
all_read cmd (c ∷ s) = exits leftovers

abbrev pub close_line : Cmd → Text → Parse
close_line cmd s = all_read cmd (skip s)

unfoldable pub parsecmd : Text → Parse
parsecmd s = and_then (parsepipe s) close_line
