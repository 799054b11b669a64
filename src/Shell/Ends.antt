-- ===== src/Shell/Ends.antt =====
-- The loop of parseredirs (hw2/shell.c) ends, and complains of nothing but a missing file.
use nyu_operating_systems.Base.{
  ℕ, zero, suc, ◌<◌, ◌≤◌, ◌≡◌, ◌⊎◌, inl, inr, refl, arith, Bool, true, false, List, [], ◌∷◌, length,
  Bool-cases, ap,
}
use nyu_operating_systems.Shell.Token.{
  Text, Token, end, bar, less, greater, arg, skip, gettoken, token_at, peek, bar_only, less_greater,
  starts_with, skip-le, skip-skip, skip-head, token_at-lt,
}
use nyu_operating_systems.Shell.Parser.{
  Cmd, Complaint, missing_file, too_many_args, Parse, ok, exits, out_of_fuel, and_then, redir_of,
  take_file, take_redir, redir_loop, parseredirs,
}

-- The complaints that a line can get.
abbrev pub is_expected : Complaint → Bool
is_expected missing_file = true
is_expected too_many_args = true
is_expected _ = false

-- A result that is not out of fuel: a command with a rest of at most n characters in P, or one of
-- these complaints.
abbrev pub Ends : ℕ → (Text → Type 0) → Parse → Type 0
Ends n P (ok c s) = (length s ≤ n) × P s
Ends n P (exits e) = is_expected e ≡ true
Ends n P out_of_fuel = ⊥

pub and_then-Ends :
    (n m : ℕ) (P Q : Text → Type 0) (r : Parse) (f : Cmd → Text → Parse)
    → Ends n P r
    → ((c : Cmd) (s : Text) → length s ≤ n → P s → Ends m Q (f c s))
    → Ends m Q (and_then r f)
and_then-Ends n m P Q (ok c s) f (h, p) g = g c s h p
and_then-Ends n m P Q (exits e) f h g = h
and_then-Ends n m P Q out_of_fuel f h g = absurd h

pub Ends-le : (n m : ℕ) (P : Text → Type 0) (r : Parse) → n ≤ m → Ends n P r → Ends m P r
Ends-le n m P (ok c s) le (h, p) = (omega arith, p)
Ends-le n m P (exits e) le h = h
Ends-le n m P out_of_fuel le h = h

-- Where parseredirs stops: no white space, no redirection.
abbrev pub NoRedir : Text → Type 0
NoRedir s = (skip s ≡ s) × (starts_with less_greater s ≡ false)

-- Where parseexec stops: at a bar or at the end.
abbrev pub AtBar : Text → Type 0
AtBar s = (skip s ≡ s) × ((s ≡ []) ⊎ (starts_with bar_only s ≡ true))

gettoken-lt :
    (c : ℕ) (s : Text) → skip (c ∷ s) ≡ c ∷ s → length (gettoken (c ∷ s)).1 < length (c ∷ s)
unfolding gettoken
gettoken-lt c s e = rw e (token_at-lt c s (skip-head c s e))

token_at-le : (s : Text) → skip s ≡ s → length (token_at s).1 ≤ length s
unfolding token_at
token_at-le [] e = omega arith
token_at-le (c ∷ s) e = omega (arith, token_at-lt c s (skip-head c s e))

-- gettoken after peek has skipped the white space.
pub gettoken-skip : (s : Text) → gettoken (skip s) ≡ token_at (skip s)
unfolding gettoken
gettoken-skip s = ap token_at (skip-skip s)

gettoken-le : (s : Text) → length (gettoken s).1 ≤ length s
unfolding gettoken
gettoken-le s = omega (arith, token_at-le (skip s) (skip-skip s), skip-le s)

pub peek-lt :
    (toks : List ℕ) (s : Text) → peek toks s ≡ true → length (gettoken (skip s)).1 < length s
unfolding peek
peek-lt toks s e = peeked (skip s) (skip-skip s) (skip-le s) e
  where
    peeked :
        (t : Text)
        → skip t ≡ t
        → length t ≤ length s
        → starts_with toks t ≡ true
        → length (gettoken t).1 < length s
    peeked [] same le e = absurd (cc)
    peeked (c ∷ t) same le e = omega (arith, gettoken-lt c t same)

-- A loop of parseredirs that has fuel for each character.
abbrev Good : ℕ → (Cmd → Text → Parse) → Type 0
Good fuel f = (cmd : Cmd) (s : Text) → length s < fuel → Ends (length s) NoRedir (f cmd s)

take_file-Ends :
    (fuel n : ℕ) (again : Cmd → Text → Parse) (cmd : Cmd) (tok : Token) (r : Token × Text)
    → Good fuel again
    → length r.1 < fuel
    → length r.1 ≤ n
    → Ends n NoRedir (take_file again cmd tok r)
take_file-Ends fuel n again cmd tok (arg file, s) good small le =
    Ends-le (length s) n NoRedir (again (redir_of tok cmd file) s) le
      (good (redir_of tok cmd file) s small)
take_file-Ends fuel n again cmd tok (end, s) good small le = refl
take_file-Ends fuel n again cmd tok (bar, s) good small le = refl
take_file-Ends fuel n again cmd tok (less, s) good small le = refl
take_file-Ends fuel n again cmd tok (greater, s) good small le = refl

take_redir-Ends :
    (fuel n : ℕ) (again : Cmd → Text → Parse) (cmd : Cmd) (r : Token × Text)
    → Good fuel again
    → length r.1 < fuel
    → length r.1 ≤ n
    → Ends n NoRedir (take_redir again cmd r)
take_redir-Ends fuel n again cmd (tok, s) good small le =
    let fewer = gettoken-le s in
    take_file-Ends fuel n again cmd tok (gettoken s) good (omega arith) (omega arith)

redir_loop-Ends : (fuel : ℕ) → Good fuel (redir_loop fuel)
unfolding redir_loop peek
redir_loop-Ends zero cmd s small = absurd (omega arith)
redir_loop-Ends (suc fuel) cmd s small = elim (Bool-cases (peek less_greater s)) [
  | inl hit ↦
      let fewer = peek-lt less_greater s hit in
      rw hit (
        take_redir-Ends fuel (length s) (redir_loop fuel) cmd (gettoken (skip s))
          (redir_loop-Ends fuel) (omega arith) (omega arith))
  | inr miss ↦ rw miss (skip-le s, (skip-skip s, miss))
]

pub parseredirs-Ends : (cmd : Cmd) (s : Text) → Ends (length s) NoRedir (parseredirs cmd s)
unfolding parseredirs
parseredirs-Ends cmd s = redir_loop-Ends (suc (length s)) cmd s (omega arith)
