-- ===== src/Shell/Tests.antt =====
-- Lines for the parser of hw2/shell.c.
use nyu_operating_systems.Base.{
  arith, ◌&◌, some, none, List, All, true, false, Bool, not, ◌==◌, [], ◌∷◌, ◌≡◌, refl,
}
use nyu_operating_systems.Shell.Token.{Text, token_at, gettoken, word, peek, skip}
use nyu_operating_systems.Shell.Parser.{
  exec, redir, pipe, to_file, missing_file, ok, exits, add_arg, redir_loop, parseredirs, exec_loop,
  parseexec, pipe_loop, parsepipe, parsecmd,
}
use nyu_operating_systems.Shell.Parser.{Direction, from_file}
use nyu_operating_systems.Shell.Table.{own, file, pipe_read, pipe_write, System}
use nyu_operating_systems.Shell.Run.{becomes, ends, runcmd}
use nyu_operating_systems.Shell.Wiring.{standard, redirected, runcmd-pipe, runcmd-misplaced}
use nyu_operating_systems.Shell.Items.{Item, word_item, redirection}
use nyu_operating_systems.Shell.Reading.{IsCommand, print_commands, parsecmd-print_commands}
use nyu_operating_systems.Shell.Main.{Answers, child, run_line}
use nyu_operating_systems.Shell.Session.{run_line-joined}
use nyu_operating_systems.Shell.Ends.{Ends}
use nyu_operating_systems.Shell.Line.{AtEnd, parsecmd-Ends}

-- "a>b c|d\n"
abbrev line : Text
line = 97 ∷ 62 ∷ 98 ∷ 32 ∷ 99 ∷ 124 ∷ 100 ∷ 10 ∷ []

-- The argument after the redirection joins the command under it.
line_parsed :
    parsecmd line
    ≡ ok
        (pipe
          (redir to_file (exec ((97 ∷ []) ∷ (99 ∷ []) ∷ [])) (98 ∷ []))
          (exec ((100 ∷ []) ∷ [])))
        []
unfolding parsecmd parsepipe pipe_loop parseexec exec_loop parseredirs redir_loop add_arg peek skip
    gettoken token_at word
line_parsed = refl

-- "a>\n"
no_file : parsecmd (97 ∷ 62 ∷ 10 ∷ []) ≡ exits missing_file
unfolding parsecmd parsepipe pipe_loop parseexec exec_loop parseredirs redir_loop add_arg peek skip
    gettoken token_at word
no_file = refl

parsecmd-Ends_example : Ends 0 AtEnd (parsecmd line)
parsecmd-Ends_example = parsecmd-Ends line

-- Only an input whose name starts with "x" does not open.
abbrev may_open : Direction → Text → Bool
may_open from_file (c ∷ name) = not (c == 120)
may_open _ _ = true

-- A kernel that does all it is asked, except to open "x" as an input.
abbrev almost_all_works : System
almost_all_works = record {
  opens = λ d name. may_open d name;
  found = λ w. true;
  forks = λ n. true;
}

abbrev quiet_kernel : Answers
quiet_kernel = record { forked = true; chdir = λ path. true; system = almost_all_works }

-- "a >o b |c\n"
abbrev first_items : List Item
first_items =
    word_item (97 ∷ []) 32 ∷ redirection to_file (111 ∷ []) 32 ∷ word_item (98 ∷ []) 32 ∷ []

abbrev last_items : List Item
last_items = word_item (99 ∷ []) 10 ∷ []

plain : All IsCommand (first_items ∷ last_items ∷ [])
plain =
    (((refl & tt) & refl) & ((refl & tt) & refl) & ((refl & tt) & refl) & tt, omega arith)
    & (((refl & tt) & refl) & tt, omega arith)
    & tt

parsecmd-print_commands_example :
    parsecmd (print_commands first_items (last_items ∷ []))
    ≡ ok
        (pipe
          (redir to_file (exec ((97 ∷ []) ∷ (98 ∷ []) ∷ [])) (111 ∷ []))
          (exec ((99 ∷ []) ∷ [])))
        []
parsecmd-print_commands_example = parsecmd-print_commands first_items (last_items ∷ []) plain

run_line-joined_example :
    run_line quiet_kernel (print_commands first_items (last_items ∷ []))
    ≡ child (
        becomes ((97 ∷ []) ∷ (98 ∷ []) ∷ []) (record {
          fds = some (own 0) ∷ some (file to_file (111 ∷ [])) ∷ some (own 2) ∷ none ∷ none ∷ [];
          opened = (to_file, 111 ∷ []) ∷ [];
        })
        ∷ becomes ((99 ∷ []) ∷ []) (record {
          fds = some (pipe_read 1) ∷ some (own 1) ∷ some (own 2) ∷ none ∷ none ∷ [];
          opened = [];
        })
        ∷ [])
run_line-joined_example =
    run_line-joined quiet_kernel first_items (last_items ∷ []) plain refl refl (λ m. refl)
      ((refl & refl & tt) & (refl & tt) & tt)

-- The lines "cd d", "x>" and "c", the last one without its newline.
abbrev input : Text
input = 99 ∷ 100 ∷ 32 ∷ 100 ∷ 10 ∷ 120 ∷ 62 ∷ 10 ∷ 99 ∷ []

runcmd-pipe_example :
    runcmd almost_all_works 1
      (pipe (exec ((97 ∷ []) ∷ [])) (exec []))
      (record { fds = standard (own 0) (own 1) (own 2) 0; opened = [] })
    ≡ becomes
        ((97 ∷ []) ∷ [])
        (record { fds = standard (own 0) (pipe_write 1) (own 2) 2; opened = [] })
      ∷ ends false (record { fds = standard (pipe_read 1) (own 1) (own 2) 2; opened = [] })
      ∷ []
unfolding runcmd
runcmd-pipe_example =
    runcmd-pipe almost_all_works 1 0 (exec ((97 ∷ []) ∷ [])) (exec []) (own 0) (own 1) (own 2) []
      refl

-- "a >o <x"
runcmd-misplaced_example :
    runcmd almost_all_works 1
      (redirected ((to_file, 111 ∷ []) ∷ (from_file, 120 ∷ []) ∷ []) (exec ((97 ∷ []) ∷ [])))
      (record { fds = standard (own 0) (own 1) (own 2) 0; opened = [] })
    ≡ becomes ((97 ∷ []) ∷ []) (record {
      fds = some (file to_file (111 ∷ [])) ∷ none ∷ some (own 2) ∷ [];
      opened = (to_file, 111 ∷ []) ∷ [];
    })
      ∷ []
runcmd-misplaced_example =
    runcmd-misplaced almost_all_works 1 0 (97 ∷ []) (111 ∷ []) (120 ∷ []) [] (own 0) (own 1) (own 2)
      refl refl refl
