-- ===== src/Shell/Token.antt =====
-- hw2/shell.c: gettoken and peek. A text is the characters from *ps to es, none of them NUL, as
-- getcmd's buffer up to strlen has them.
use nyu_operating_systems.Base.{
  ℕ, suc, ◌==◌, ◌||◌, ◌<◌, ◌≤◌, ◌≡◌, inl, inr, refl, arith, Bool, false, List, [], ◌∷◌, length,
  if◌then◌else◌, Bool-cases, ap,
}

abbrev pub Text : Type 0
Text = List ℕ

-- strchr(set, c) for a c that is not NUL
abbrev pub strchr : List ℕ → ℕ → Bool
strchr [] c = false
strchr (d ∷ ds) c = c == d || strchr ds c

-- " \t\r\n\v" and "<|>"
abbrev pub whitespace : List ℕ
whitespace = 32 ∷ 9 ∷ 13 ∷ 10 ∷ 11 ∷ []

abbrev pub symbols : List ℕ
symbols = 60 ∷ 124 ∷ 62 ∷ []

abbrev pub less_greater : List ℕ
less_greater = 60 ∷ 62 ∷ []

abbrev pub bar_only : List ℕ
bar_only = 124 ∷ []

-- The results of gettoken: 0, '|', '<', '>', and 'a' with the characters from *q to *eq.
pub data Token : Type 0 where
  end bar less greater : Token
  arg : Text → Token

-- while(s < es && strchr(whitespace, *s)) s++
unfoldable pub skip : Text → Text
skip [] = []
skip (c ∷ s) = let rest = skip s in if strchr whitespace c then rest else c ∷ s

-- The loop over a word: the word, and the text after it.
unfoldable pub word : Text → Text × Text
word [] = ([], [])
word (c ∷ s) =
    let (w, rest) = word s in
    if strchr whitespace c || strchr symbols c then ([], c ∷ s) else (c ∷ w, rest)

-- The default case; the word and then the white space.
abbrev pub word_token : Text × Text → Token × Text
word_token (w, rest) = (arg w, skip rest)

-- The switch of gettoken at the first character that is not white.
unfoldable pub token_at : Text → Token × Text
unfolding word
token_at [] = (end, [])
token_at (c ∷ s) =
    let other = word_token (word (c ∷ s)) in
    if c == 124
    then (bar, skip s)
    else (if c == 60 then (less, skip s) else (if c == 62 then (greater, skip s) else other))

unfoldable pub gettoken : Text → Token × Text
gettoken s = token_at (skip s)

abbrev pub starts_with : List ℕ → Text → Bool
starts_with toks [] = false
starts_with toks (c ∷ s) = strchr toks c

-- The answer; the new *ps is `skip s`.
unfoldable pub peek : List ℕ → Text → Bool
peek toks s = starts_with toks (skip s)

pub skip-le : (s : Text) → length (skip s) ≤ length s
unfolding skip
skip-le [] = omega arith
skip-le (c ∷ s) = elim (Bool-cases (strchr whitespace c)) [
  | inl w ↦ rw w (omega (arith, skip-le s))
  | inr n ↦ rw n (omega arith)
]

pub skip-skip : (s : Text) → skip (skip s) ≡ skip s
unfolding skip
skip-skip [] = refl
skip-skip (c ∷ s) = elim (Bool-cases (strchr whitespace c)) [
  | inl w ↦ rw w (skip-skip s)
  | inr n ↦ rw (n, n) refl
]

-- No white space comes first in a text that skip leaves as it is.
pub skip-head : (c : ℕ) (s : Text) → skip (c ∷ s) ≡ c ∷ s → strchr whitespace c ≡ false
unfolding skip
skip-head c s e = elim (Bool-cases (strchr whitespace c)) [
  | inl w ↦
      let same : length (skip s) ≡ suc (length s) = ap length (rw (skip, w) at e) in
      absurd (omega (arith, skip-le s))
  | inr n ↦ n
]

word-le : (s : Text) → length (word s).1 ≤ length s
unfolding word
word-le [] = omega arith
word-le (c ∷ s) = elim (Bool-cases (strchr whitespace c || strchr symbols c)) [
  | inl w ↦ rw w (omega arith)
  | inr n ↦ rw n (omega (arith, word-le s))
]

-- At a character that is not white, gettoken takes at least that character.
pub token_at-lt :
    (c : ℕ) (s : Text) → strchr whitespace c ≡ false → length (token_at (c ∷ s)).1 < length (c ∷ s)
unfolding token_at word
token_at-lt c s dark = elim (Bool-cases (c == 124)) [
  | inl b ↦ rw b (omega (arith, skip-le s))
  | inr nb ↦ elim (Bool-cases (c == 60)) [
    | inl l ↦ rw (nb, l) (omega (arith, skip-le s))
    | inr nl ↦ elim (Bool-cases (c == 62)) [
      | inl g ↦ rw (nb, nl, g) (omega (arith, skip-le s))
      | inr ng ↦ rw (nb, nl, ng, dark) (omega (arith, skip-le (word s).1, word-le s))
    ]
  ]
]

-- At a character that is neither white nor a symbol the token is a word.
pub token_at-arg :
    (c : ℕ) (s : Text)
    → strchr whitespace c ≡ false
    → strchr less_greater c ≡ false
    → strchr bar_only c ≡ false
    → (w : Text) × (rest : Text) × (token_at (c ∷ s) ≡ (arg w, rest))
unfolding token_at
token_at-arg c s dark no_redir no_bar =
    let nb : c == 124 ≡ false = ground arith in
    let nl : c == 60 ≡ false = ground arith in
    let ng : c == 62 ≡ false = ground arith in
    ((word (c ∷ s)).0, skip (word (c ∷ s)).1, rw (nb, nl, ng) refl)
