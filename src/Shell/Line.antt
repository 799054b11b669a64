-- ===== src/Shell/Line.antt =====
-- The parser of hw2/shell.c ends, reads the whole line, and complains of nothing else than a missing
-- file or too many arguments.
use nyu_operating_systems.Base.{
  ℕ, zero, suc, ◌<◌, ◌≤◌, ◌≡◌, inl, inr, refl, arith, leb, false, [], ◌∷◌, length, Bool-cases, ap,
  sym, ◌∙◌, subst,
}
use nyu_operating_systems.Shell.Token.{
  Text, arg, skip, gettoken, token_at, peek, bar_only, starts_with, skip-le, skip-skip, skip-head,
  token_at-lt, token_at-arg,
}
use nyu_operating_systems.Shell.Parser.{
  max_args, Cmd, exec, Parse, add_arg, parseredirs, take_arg, exec_loop, exec_args, parseexec,
  pipe_left, take_pipe, pipe_loop, parsepipe, close_line, parsecmd,
}
use nyu_operating_systems.Shell.Ends.{
  Ends, NoRedir, AtBar, and_then-Ends, Ends-le, gettoken-skip, peek-lt, parseredirs-Ends,
}

-- A loop of parseexec that has fuel for each character.
abbrev GoodArgs : ℕ → (ℕ → Cmd → Text → Parse) → Type 0
GoodArgs fuel f =
    (argc : ℕ) (ret : Cmd) (s : Text)
    → NoRedir s
    → length s < fuel
    → Ends (length s) AtBar (f argc ret s)

word-Ends :
    (fuel n argc : ℕ) (again : ℕ → Cmd → Text → Parse) (ret : Cmd) (w s : Text)
    → GoodArgs fuel again
    → length s < fuel
    → length s ≤ n
    → Ends n AtBar (take_arg again argc ret (arg w, s))
word-Ends fuel n argc again ret w s good small le = elim (Bool-cases (leb max_args (suc argc))) [
  | inl many ↦ rw many refl
  | inr few ↦ rw few (
      and_then-Ends (length s) n NoRedir AtBar (parseredirs (add_arg w ret) s) (again (suc argc))
        (parseredirs-Ends (add_arg w ret) s)
        (λ c t short stop.
          Ends-le (length t) n AtBar (again (suc argc) c t) (omega arith)
            (good (suc argc) c t stop (omega arith))))
]

-- A round of parseexec's loop at a text where parseredirs has stopped and no bar comes first.
round-Ends :
    (fuel argc : ℕ) (again : ℕ → Cmd → Text → Parse) (ret : Cmd) (s : Text)
    → GoodArgs fuel again
    → NoRedir s
    → starts_with bar_only s ≡ false
    → length s < suc fuel
    → Ends (length s) AtBar (take_arg again argc ret (token_at s))
unfolding token_at
round-Ends fuel argc again ret [] good stop no_bar small = (omega arith, (stop.0, inl refl))
round-Ends fuel argc again ret (c ∷ s) good (same, no_redir) no_bar small =
    let dark = skip-head c s same in
    let (w, rest, e) = token_at-arg c s dark no_redir no_bar in
    let fewer : length rest < length (c ∷ s) =
      subst (λ r. length r.1 < length (c ∷ s)) e (token_at-lt c s dark) in
    subst (λ r. Ends (length (c ∷ s)) AtBar (take_arg again argc ret r)) (sym e)
      (word-Ends fuel (length (c ∷ s)) argc again ret w rest good (omega arith) (omega arith))

exec_loop-Ends : (fuel : ℕ) → GoodArgs fuel (exec_loop fuel)
unfolding exec_loop peek
exec_loop-Ends zero argc ret s stop small = absurd (omega arith)
exec_loop-Ends (suc fuel) argc ret s stop small = elim (Bool-cases (peek bar_only s)) [
  | inl hit ↦ rw hit (skip-le s, (skip-skip s, inr hit))
  | inr miss ↦
      let no_bar : starts_with bar_only s ≡ false =
        subst (λ t. starts_with bar_only t ≡ false) stop.0 miss in
      let token : gettoken (skip s) ≡ token_at s = gettoken-skip s ∙ ap token_at stop.0 in
      rw (miss, token)
        (round-Ends fuel argc (exec_loop fuel) ret s (exec_loop-Ends fuel) stop no_bar small)
]

parseexec-Ends : (s : Text) → Ends (length s) AtBar (parseexec s)
unfolding parseexec
parseexec-Ends s =
    and_then-Ends (length s) (length s) NoRedir AtBar (parseredirs (exec []) s) exec_args
      (parseredirs-Ends (exec []) s)
      (λ c t short stop.
        Ends-le (length t) (length s) AtBar (exec_args c t) short
          (exec_loop-Ends (suc (length t)) 0 c t stop (omega arith)))

-- Where parsepipe stops: at the end.
abbrev pub AtEnd : Text → Type 0
AtEnd s = s ≡ []

abbrev GoodPipe : ℕ → (Text → Parse) → Type 0
GoodPipe fuel f = (s : Text) → length s < fuel → Ends (length s) AtEnd (f s)

take_pipe-Ends :
    (fuel : ℕ) (again : Text → Parse) (c : Cmd) (s : Text)
    → GoodPipe fuel again
    → length s < suc fuel
    → AtBar s
    → Ends (length s) AtEnd (take_pipe again c s)
unfolding peek
take_pipe-Ends fuel again c s good small (same, stop) = elim (Bool-cases (peek bar_only s)) [
  | inl hit ↦
      let fewer = peek-lt bar_only s hit in
      let rest : Text = (gettoken (skip s)).1 in
      rw hit (
        and_then-Ends (length rest) (length s) AtEnd AtEnd (again rest) (pipe_left c)
          (good rest (omega arith)) (λ d t short over. (omega arith, over)))
  | inr miss ↦ elim stop [
    | inl over ↦ rw miss (skip-le s, same ∙ over)
    | inr at_bar ↦
        let no_bar : starts_with bar_only s ≡ false =
          subst (λ t. starts_with bar_only t ≡ false) same miss in
        absurd (cc)
  ]
]

pipe_loop-Ends : (fuel : ℕ) → GoodPipe fuel (pipe_loop fuel)
unfolding pipe_loop
pipe_loop-Ends zero s small = absurd (omega arith)
pipe_loop-Ends (suc fuel) s small =
    and_then-Ends (length s) (length s) AtBar AtEnd (parseexec s) (take_pipe (pipe_loop fuel))
      (parseexec-Ends s)
      (λ c t short stop.
        Ends-le (length t) (length s) AtEnd (take_pipe (pipe_loop fuel) c t) short
          (take_pipe-Ends fuel (pipe_loop fuel) c t (pipe_loop-Ends fuel) (omega arith) stop))

close_line-Ends : (c : Cmd) (s : Text) → s ≡ [] → Ends 0 AtEnd (close_line c s)
unfolding skip
close_line-Ends c [] over = (omega arith, refl)
close_line-Ends c (d ∷ s) over = absurd (cc)

-- On every line parsecmd comes to an end within the fuel it has: it gives a command and has read
-- the whole line, or it exits for a redirection without a file or for too many arguments. Its
-- complaints of leftovers and of a syntax error are never made.
pub parsecmd-Ends : (s : Text) → Ends 0 AtEnd (parsecmd s)
unfolding parsecmd parsepipe
parsecmd-Ends s =
    and_then-Ends (length s) 0 AtEnd AtEnd (parsepipe s) close_line
      (pipe_loop-Ends (suc (length s)) s (omega arith)) (λ c t short over. close_line-Ends c t over)
