-- ===== src/Shell/Items.antt =====
-- Arguments and redirections of a line for hw2/shell.c, and how parseredirs reads them.
use nyu_operating_systems.Base.{
  ℕ, zero, suc, ◌<◌, ◌≡◌, ◌==◌, refl, arith, true, false, List, [], ◌∷◌, ◌++◌, length, All, ap,
  length-append,
}
use nyu_operating_systems.Shell.Token.{
  Text, Token, less, greater, arg, skip, word, gettoken, token_at, peek, less_greater, strchr,
  starts_with, whitespace,
}
use nyu_operating_systems.Shell.Parser.{
  Direction, from_file, to_file, Cmd, redir, ok, redir_of, redir_loop,
}
use nyu_operating_systems.Shell.RoundTrip.{IsArg, IsPlain, Stops, Stops-IsReady}
use nyu_operating_systems.Shell.Wiring.{Redirection, redirected}

pub data Item : Type 0 where
  word_item : Text → ℕ → Item
  redirection : Direction → Text → ℕ → Item

abbrev pub symbol_of : Direction → ℕ
symbol_of from_file = 60
symbol_of to_file = 62

abbrev token_of : Direction → Token
token_of from_file = less
token_of to_file = greater

-- A character of white space after each item.
abbrev pub print_items : List Item → Text → Text
print_items [] t = t
print_items (word_item w e ∷ is) t = w ++ e ∷ print_items is t
print_items (redirection d name e ∷ is) t = symbol_of d ∷ (name ++ e ∷ print_items is t)

abbrev pub words_of : List Item → List Text
words_of [] = []
words_of (word_item w e ∷ is) = w ∷ words_of is
words_of (redirection d name e ∷ is) = words_of is

abbrev pub redirections_of : List Item → List Redirection
redirections_of [] = []
redirections_of (word_item w e ∷ is) = redirections_of is
redirections_of (redirection d name e ∷ is) = (d, name) ∷ redirections_of is

abbrev pub IsItem : Item → Type 0
IsItem (word_item w e) = IsArg w × (strchr whitespace e ≡ true)
IsItem (redirection d name e) = IsArg name × (strchr whitespace e ≡ true)

-- The items up to the first word, and the others.
abbrev pub first_redirections : List Item → List Redirection
first_redirections [] = []
first_redirections (word_item w e ∷ is) = []
first_redirections (redirection d name e ∷ is) = (d, name) ∷ first_redirections is

abbrev pub from_word : List Item → List Item
from_word [] = []
from_word (word_item w e ∷ is) = word_item w e ∷ is
from_word (redirection d name e ∷ is) = from_word is

skip-symbol : (d : Direction) (t : Text) → skip (symbol_of d ∷ t) ≡ symbol_of d ∷ t
unfolding skip
skip-symbol from_file t = refl
skip-symbol to_file t = refl

pub skip-arg : (w t : Text) → IsArg w → skip (w ++ t) ≡ w ++ t
unfolding skip
skip-arg [] t h = absurd h
skip-arg (c ∷ w) t (plain, h) =
    let dark : strchr whitespace c ≡ false = ground arith in rw dark refl

pub skip-items :
    (is : List Item) (t : Text)
    → All IsItem is
    → Stops t
    → skip (print_items is t) ≡ print_items is t
skip-items [] t h stop = (Stops-IsReady t stop).0
skip-items (word_item w e ∷ is) t ((h, white), hs) stop = skip-arg w (e ∷ print_items is t) h
skip-items (redirection d name e ∷ is) t ((h, white), hs) stop =
    skip-symbol d (name ++ e ∷ print_items is t)

word-plain :
    (w : Text) (e : ℕ) (t : Text)
    → IsPlain w
    → strchr whitespace e ≡ true
    → word (w ++ e ∷ t) ≡ (w, e ∷ t)
unfolding word
word-plain [] e t h white = rw white refl
word-plain (c ∷ w) e t (plain, h) white = rw (plain, word-plain w e t h white) refl

-- gettoken takes an argument and the white space after it.
pub gettoken-word :
    (w : Text) (e : ℕ) (t : Text)
    → IsArg w
    → strchr whitespace e ≡ true
    → skip t ≡ t
    → gettoken (w ++ e ∷ t) ≡ (arg w, t)
unfolding gettoken token_at skip
gettoken-word [] e t h white ready = absurd h
gettoken-word (c ∷ w) e t (plain, h) white ready =
    let dark : strchr whitespace c ≡ false = ground arith in
    let nb : c == 124 ≡ false = ground arith in
    let nl : c == 60 ≡ false = ground arith in
    let ng : c == 62 ≡ false = ground arith in
    rw (dark, nb, nl, ng, word-plain w e t h white, dark, white) (ap (λ z. (arg (c ∷ w), z)) ready)

gettoken-symbol :
    (d : Direction) (t : Text) → skip t ≡ t → gettoken (symbol_of d ∷ t) ≡ (token_of d, t)
unfolding gettoken token_at skip
gettoken-symbol from_file t e = ap (λ z. (less, z)) e
gettoken-symbol to_file t e = ap (λ z. (greater, z)) e

redirects-symbol : (d : Direction) (t : Text) → starts_with less_greater (symbol_of d ∷ t) ≡ true
redirects-symbol from_file t = refl
redirects-symbol to_file t = refl

redir_of-token :
    (d : Direction) (c : Cmd) (name : Text) → redir_of (token_of d) c name ≡ redir d c name
redir_of-token from_file c name = refl
redir_of-token to_file c name = refl

no_redir-word : (w t : Text) → IsArg w → starts_with less_greater (w ++ t) ≡ false
no_redir-word [] t h = absurd h
no_redir-word (c ∷ w) t (plain, h) = ground arith

-- The loop of parseredirs takes all the redirections before a word.
pub redir_loop-items :
    (fuel : ℕ) (c : Cmd) (is : List Item) (t : Text)
    → All IsItem is
    → Stops t
    → length (print_items is t) < fuel
    → redir_loop fuel c (print_items is t)
      ≡ ok (redirected (first_redirections is) c) (print_items (from_word is) t)
unfolding redir_loop peek
redir_loop-items zero c is t h stop small = absurd (omega arith)
redir_loop-items (suc fuel) c [] t h stop small =
    let (same, none_first) = Stops-IsReady t stop in rw (same, none_first) refl
redir_loop-items (suc fuel) c (word_item w e ∷ is) t ((h, white), hs) stop small =
    rw (skip-arg w (e ∷ print_items is t) h, no_redir-word w (e ∷ print_items is t) h) refl
redir_loop-items (suc fuel) c (redirection d name e ∷ is) t ((h, white), hs) stop small =
    let rest = print_items is t in
    let shorter : length rest < fuel = omega (arith, length-append name (e ∷ rest)) in
    rw
      (
        skip-symbol d (name ++ e ∷ rest),
        redirects-symbol d (name ++ e ∷ rest),
        gettoken-symbol d (name ++ e ∷ rest) (skip-arg name (e ∷ rest) h),
        gettoken-word name e rest h white (skip-items is t hs stop),
        redir_of-token d c name,
      )
      (redir_loop-items fuel (redir d c name) is t hs stop shorter)
