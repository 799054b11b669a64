-- ===== src/Shell/RoundTrip.antt =====
-- Pipelines of plain words go through the parser of hw2/shell.c unchanged.
use nyu_operating_systems.Base.{
  ℕ, zero, suc, ◌+◌, ◌<◌, ◌≤◌, ◌≡◌, ◌||◌, ◌==◌, refl, arith, leb, Bool, false, List, [], ◌∷◌, ◌++◌,
  length, All, ap, sym, ◌∙◌, append_assoc, append-nil, length-append,
}
use nyu_operating_systems.Shell.Token.{
  Text, bar, arg, skip, word, gettoken, token_at, peek, bar_only, less_greater, strchr, starts_with,
  whitespace, symbols,
}
use nyu_operating_systems.Shell.Parser.{
  max_args, Cmd, exec, pipe, ok, add_arg, redir_loop, parseredirs, exec_loop, parseexec, pipe_loop,
  parsepipe, parsecmd,
}

-- Neither white nor a symbol.
abbrev pub is_special : ℕ → Bool
is_special c = strchr whitespace c || strchr symbols c

abbrev pub IsPlain : Text → Type 0
IsPlain w = All (λ c. is_special c ≡ false) w

-- An argument: a plain word that is not empty.
abbrev pub IsArg : Text → Type 0
IsArg [] = ⊥
IsArg (c ∷ w) = IsPlain (c ∷ w)

-- The words, a space after each; pipelines, with a bar between commands.
abbrev pub print_words : List Text → Text → Text
print_words [] t = t
print_words (w ∷ ws) t = w ++ 32 ∷ print_words ws t

abbrev pub print_pipeline : List Text → List (List Text) → Text
print_pipeline ws [] = print_words ws []
print_pipeline ws (vs ∷ rest) = print_words ws (124 ∷ print_pipeline vs rest)

abbrev pub pipeline : List Text → List (List Text) → Cmd
pipeline ws [] = exec ws
pipeline ws (vs ∷ rest) = pipe (exec ws) (pipeline vs rest)

word-plain : (w t : Text) → IsPlain w → word (w ++ 32 ∷ t) ≡ (w, 32 ∷ t)
unfolding word
word-plain [] t h = refl
word-plain (c ∷ w) t (plain, h) = rw (plain, word-plain w t h) refl

-- A text that starts with no white space and no redirection.
abbrev pub IsReady : Text → Type 0
IsReady t = (skip t ≡ t) × (starts_with less_greater t ≡ false)

-- gettoken takes an argument and its space.
gettoken-arg : (w t : Text) → IsArg w → skip t ≡ t → gettoken (w ++ 32 ∷ t) ≡ (arg w, t)
unfolding gettoken token_at skip
gettoken-arg [] t h ready = absurd h
gettoken-arg (c ∷ w) t (plain, h) ready =
    let dark : strchr whitespace c ≡ false = ground arith in
    let nb : c == 124 ≡ false = ground arith in
    let nl : c == 60 ≡ false = ground arith in
    let ng : c == 62 ≡ false = ground arith in
    rw (dark, nb, nl, ng, word-plain w t h, dark) (ap (λ z. (arg (c ∷ w), z)) ready)

IsReady-words : (ws : List Text) (t : Text) → All IsArg ws → IsReady t → IsReady (print_words ws t)
unfolding skip
IsReady-words [] t h ready = ready
IsReady-words ([] ∷ ws) t (h, hs) ready = absurd h
IsReady-words ((c ∷ w) ∷ ws) t ((plain, h), hs) ready =
    let dark : strchr whitespace c ≡ false = ground arith in (rw dark refl, ground arith)

pub no_bar-words : (w : Text) (t : Text) → IsArg w → starts_with bar_only (w ++ t) ≡ false
no_bar-words [] t h = absurd h
no_bar-words (c ∷ w) t (plain, h) = ground arith

parseredirs-ready : (cmd : Cmd) (s : Text) → IsReady s → parseredirs cmd s ≡ ok cmd s
unfolding parseredirs redir_loop peek
parseredirs-ready cmd s (same, none_first) = rw (same, none_first) refl

-- Where a command ends: at the end or at a bar.
abbrev pub Stops : Text → Type 0
Stops [] = Unit
Stops (c ∷ s) = c ≡ 124

pub Stops-IsReady : (t : Text) → Stops t → IsReady t
unfolding skip
Stops-IsReady [] h = (refl, refl)
Stops-IsReady (c ∷ s) h = rw h (refl, refl)

pub exec_loop-Stops :
    (fuel argc : ℕ) (ret : Cmd) (t : Text) → Stops t → exec_loop (suc fuel) argc ret t ≡ ok ret t
unfolding exec_loop peek skip gettoken token_at
exec_loop-Stops fuel argc ret [] h = refl
exec_loop-Stops fuel argc ret (c ∷ s) h = rw h refl

exec_loop-words :
    (fuel argc : ℕ) (ws args : List Text) (t : Text)
    → All IsArg ws
    → argc + length ws < max_args
    → length (print_words ws t) < fuel
    → Stops t
    → exec_loop fuel argc (exec args) (print_words ws t) ≡ ok (exec (args ++ ws)) t
unfolding exec_loop peek add_arg
exec_loop-words zero argc ws args t h few small stop = absurd (omega arith)
exec_loop-words (suc fuel) argc [] args t h few small stop =
    exec_loop-Stops fuel argc (exec args) t stop ∙ ap (λ z. ok (exec z) t) (sym (append-nil args))
exec_loop-words (suc fuel) argc (w ∷ ws) args t (h, hs) few small stop =
    let rest = print_words ws t in
    let ready = IsReady-words ws t hs (Stops-IsReady t stop) in
    let here = IsReady-words (w ∷ ws) t (h, hs) (Stops-IsReady t stop) in
    let room : leb max_args (suc argc) ≡ false = ground arith in
    let shorter : length rest < fuel = omega (arith, length-append w (32 ∷ rest)) in
    rw
      (
        here.0,
        no_bar-words w (32 ∷ rest) h,
        gettoken-arg w rest h ready.0,
        room,
        parseredirs-ready (exec (args ++ w ∷ [])) rest ready,
      )
      (exec_loop-words fuel (suc argc) ws (args ++ w ∷ []) t hs (omega arith) shorter stop
        ∙ ap (λ z. ok (exec z) t) (append_assoc args (w ∷ []) ws))

parseexec-words :
    (ws : List Text) (t : Text)
    → All IsArg ws
    → length ws < max_args
    → Stops t
    → parseexec (print_words ws t) ≡ ok (exec ws) t
unfolding parseexec
parseexec-words ws t h few stop =
    rw
      (parseredirs-ready (exec []) (print_words ws t) (IsReady-words ws t h (Stops-IsReady t stop)))
      (exec_loop-words (suc (length (print_words ws t))) 0 ws [] t h (omega arith) (omega arith)
        stop)

-- A command of a pipeline: arguments, fewer than MAXARGS.
abbrev pub IsCommand : List Text → Type 0
IsCommand ws = All IsArg ws × (length ws < max_args)

pipeline-IsReady :
    (ws : List Text) (rest : List (List Text))
    → All IsCommand (ws ∷ rest)
    → IsReady (print_pipeline ws rest)
pipeline-IsReady ws [] ((args, few), h) = IsReady-words ws [] args (Stops-IsReady [] tt)
pipeline-IsReady ws (vs ∷ rest) ((args, few), h) =
    let next = 124 ∷ print_pipeline vs rest in IsReady-words ws next args (Stops-IsReady next refl)

pub gettoken-bar : (s : Text) → gettoken (124 ∷ s) ≡ (bar, skip s)
unfolding gettoken token_at skip
gettoken-bar s = refl

length-print_words : (ws : List Text) (t : Text) → length t ≤ length (print_words ws t)
length-print_words [] t = omega arith
length-print_words (w ∷ ws) t =
    omega (arith, length-print_words ws t, length-append w (32 ∷ print_words ws t))

pipe_loop-pipeline :
    (fuel : ℕ) (ws : List Text) (rest : List (List Text))
    → All IsCommand (ws ∷ rest)
    → length (print_pipeline ws rest) < fuel
    → pipe_loop fuel (print_pipeline ws rest) ≡ ok (pipeline ws rest) []
unfolding pipe_loop peek skip
pipe_loop-pipeline zero ws rest h small = absurd (omega arith)
pipe_loop-pipeline (suc fuel) ws [] ((args, few), h) small =
    rw (parseexec-words ws [] args few tt) refl
pipe_loop-pipeline (suc fuel) ws (vs ∷ rest) ((args, few), h) small =
    let shorter : length (print_pipeline vs rest) < fuel =
      omega (arith, length-print_words ws (124 ∷ print_pipeline vs rest)) in
    rw (parseexec-words ws (124 ∷ print_pipeline vs rest) args few refl) (
      rw (gettoken-bar (print_pipeline vs rest), (pipeline-IsReady vs rest h).0)
        (rw (pipe_loop-pipeline fuel vs rest h shorter) refl))

-- A printed pipeline of commands with plain arguments, fewer than MAXARGS in each, is parsed to
-- the command tree of that pipeline: each bar to a pipe of the command before it and all that
-- follows.
pub parsecmd-pipeline :
    (ws : List Text) (rest : List (List Text))
    → All IsCommand (ws ∷ rest)
    → parsecmd (print_pipeline ws rest) ≡ ok (pipeline ws rest) []
unfolding parsecmd parsepipe skip
parsecmd-pipeline ws rest h =
    rw (pipe_loop-pipeline (suc (length (print_pipeline ws rest))) ws rest h (omega arith)) refl
