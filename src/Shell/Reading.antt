-- ===== src/Shell/Reading.antt =====
-- Lines with redirections among the arguments go through the parser of hw2/shell.c unchanged.
use nyu_operating_systems.Base.{
  ℕ, zero, suc, ◌+◌, ◌<◌, ◌≤◌, ◌≡◌, refl, arith, leb, false, List, [], ◌∷◌, ◌++◌, length, All, map,
  ap, sym, ◌∙◌, append_assoc, append-nil, length-append,
}
use nyu_operating_systems.Shell.Token.{Text, skip, peek}
use nyu_operating_systems.Shell.Parser.{
  max_args, Cmd, exec, redir, ok, add_arg, parseredirs, exec_loop, parseexec, pipe_loop, parsepipe,
  parsecmd,
}
use nyu_operating_systems.Shell.RoundTrip.{Stops, no_bar-words, gettoken-bar, exec_loop-Stops}
use nyu_operating_systems.Shell.Wiring.{Redirection, redirected, Stage, command_line}
use nyu_operating_systems.Shell.Items.{
  Item, word_item, redirection, print_items, words_of, redirections_of, IsItem, first_redirections,
  from_word, skip-items, skip-arg, gettoken-word, redir_loop-items,
}

redirected-append :
    (rs qs : List Redirection) (c : Cmd) → redirected (rs ++ qs) c ≡ redirected qs (redirected rs c)
redirected-append [] qs c = refl
redirected-append ((d, name) ∷ rs) qs c = redirected-append rs qs (redir d c name)

add_arg-redirected :
    (w : Text) (rs : List Redirection) (c : Cmd)
    → add_arg w (redirected rs c) ≡ redirected rs (add_arg w c)
unfolding add_arg
add_arg-redirected w [] c = refl
add_arg-redirected w ((d, name) ∷ rs) c = add_arg-redirected w rs (redir d c name)

words_of-from_word : (is : List Item) → words_of (from_word is) ≡ words_of is
words_of-from_word [] = refl
words_of-from_word (word_item w e ∷ is) = refl
words_of-from_word (redirection d name e ∷ is) = words_of-from_word is

redirections_of-split :
    (is : List Item) → first_redirections is ++ redirections_of (from_word is) ≡ redirections_of is
redirections_of-split [] = refl
redirections_of-split (word_item w e ∷ is) = refl
redirections_of-split (redirection d name e ∷ is) =
    ap (λ rs. (d, name) ∷ rs) (redirections_of-split is)

IsItem-from_word : (is : List Item) → All IsItem is → All IsItem (from_word is)
IsItem-from_word [] h = h
IsItem-from_word (word_item w e ∷ is) h = h
IsItem-from_word (redirection d name e ∷ is) (h, hs) = IsItem-from_word is hs

length-from_word :
    (is : List Item) (t : Text) → length (print_items (from_word is) t) ≤ length (print_items is t)
length-from_word [] t = omega arith
length-from_word (word_item w e ∷ is) t = omega arith
length-from_word (redirection d name e ∷ is) t =
    omega (arith, length-from_word is t, length-append name (e ∷ print_items is t))

abbrev WordFirst : List Item → Type 0
WordFirst [] = Unit
WordFirst (word_item w e ∷ is) = Unit
WordFirst (redirection d name e ∷ is) = ⊥

WordFirst-from_word : (is : List Item) → WordFirst (from_word is)
WordFirst-from_word [] = tt
WordFirst-from_word (word_item w e ∷ is) = tt
WordFirst-from_word (redirection d name e ∷ is) = WordFirst-from_word is

-- The command of what was read before, and of the items.
abbrev read_on : List Redirection → List Text → List Item → Cmd
read_on rs args is = redirected (rs ++ redirections_of is) (exec (args ++ words_of is))

read_on-word :
    (rs : List Redirection) (args : List Text) (w : Text) (e : ℕ) (is : List Item)
    → read_on (rs ++ first_redirections is) (args ++ w ∷ []) (from_word is)
      ≡ read_on rs args (word_item w e ∷ is)
read_on-word rs args w e is =
    ap (λ qs. redirected qs (exec (args ++ w ∷ [] ++ words_of (from_word is))))
      (append_assoc rs (first_redirections is) (redirections_of (from_word is))
        ∙ ap (λ qs. rs ++ qs) (redirections_of-split is))
    ∙ ap (λ ws. redirected (rs ++ redirections_of is) (exec ws))
        (append_assoc args (w ∷ []) (words_of (from_word is))
          ∙ ap (λ ws. args ++ w ∷ ws) (words_of-from_word is))

exec_loop-items :
    (fuel argc : ℕ) (rs : List Redirection) (args : List Text) (is : List Item) (t : Text)
    → All IsItem is
    → WordFirst is
    → argc + length (words_of is) < max_args
    → length (print_items is t) < fuel
    → Stops t
    → exec_loop fuel argc (redirected rs (exec args)) (print_items is t) ≡ ok (read_on rs args is) t
unfolding exec_loop peek parseredirs add_arg
exec_loop-items zero argc rs args is t h first few small stop = absurd (omega arith)
exec_loop-items (suc fuel) argc rs args [] t h first few small stop =
    exec_loop-Stops fuel argc (redirected rs (exec args)) t stop
    ∙ ap (λ qs. ok (redirected qs (exec args)) t) (sym (append-nil rs))
    ∙ ap (λ ws. ok (redirected (rs ++ []) (exec ws)) t) (sym (append-nil args))
exec_loop-items (suc fuel) argc rs args (redirection d name e ∷ is) t h first few small stop =
    absurd first
exec_loop-items (suc fuel) argc rs args (word_item w e ∷ is) t ((h, white), hs) first few small
      stop =
    let rest = print_items is t in
    let ready = skip-items is t hs stop in
    let room : leb max_args (suc argc) ≡ false = ground arith in
    let shorter : length (print_items (from_word is) t) < fuel =
      omega (arith, length-append w (e ∷ rest), length-from_word is t) in
    let few_left : suc argc + length (words_of (from_word is)) < max_args =
      omega (arith, ap length (words_of-from_word is)) in
    rw
      (
        skip-arg w (e ∷ rest) h,
        no_bar-words w (e ∷ rest) h,
        gettoken-word w e rest h white ready,
        room,
        add_arg-redirected w rs (exec args),
        redir_loop-items (suc (length rest)) (redirected rs (exec (args ++ w ∷ []))) is t hs stop
            (omega arith),
        sym (redirected-append rs (first_redirections is) (exec (args ++ w ∷ []))),
      )
      (exec_loop-items fuel (suc argc) (rs ++ first_redirections is) (args ++ w ∷ []) (from_word is)
          t (IsItem-from_word is hs) (WordFirst-from_word is) few_left shorter stop
        ∙ ap (λ c. ok c t) (read_on-word rs args w e is))

-- One command up to the end of the line or a bar.
parseexec-items :
    (is : List Item) (t : Text)
    → All IsItem is
    → length (words_of is) < max_args
    → Stops t
    → parseexec (print_items is t) ≡ ok (redirected (redirections_of is) (exec (words_of is))) t
unfolding parseexec parseredirs
parseexec-items is t h few stop =
    let all = print_items is t in
    let rest = print_items (from_word is) t in
    rw (redir_loop-items (suc (length all)) (exec []) is t h stop (omega arith)) (
      exec_loop-items (suc (length rest)) 0 (first_redirections is) [] (from_word is) t
        (IsItem-from_word is h) (WordFirst-from_word is)
        (omega (arith, ap length (words_of-from_word is))) (omega arith) stop
      ∙ ap (λ qs. ok (redirected qs (exec (words_of (from_word is)))) t) (redirections_of-split is)
      ∙ ap (λ ws. ok (redirected (redirections_of is) (exec ws)) t) (words_of-from_word is))

-- The items of a command, and those of the commands after it, a bar between.
abbrev pub print_commands : List Item → List (List Item) → Text
print_commands is [] = print_items is []
print_commands is (js ∷ rest) = print_items is (124 ∷ print_commands js rest)

abbrev pub program_of : List Item → Stage
program_of is = (words_of is, redirections_of is)

abbrev pub IsCommand : List Item → Type 0
IsCommand is = All IsItem is × (length (words_of is) < max_args)

skip-line :
    (is : List Item) (rest : List (List Item))
    → All IsCommand (is ∷ rest)
    → skip (print_commands is rest) ≡ print_commands is rest
skip-line is [] ((items, few), h) = skip-items is [] items tt
skip-line is (js ∷ rest) ((items, few), h) = skip-items is (124 ∷ print_commands js rest) items refl

length-print_items : (is : List Item) (t : Text) → length t ≤ length (print_items is t)
length-print_items [] t = omega arith
length-print_items (word_item w e ∷ is) t =
    omega (arith, length-print_items is t, length-append w (e ∷ print_items is t))
length-print_items (redirection d name e ∷ is) t =
    omega (arith, length-print_items is t, length-append name (e ∷ print_items is t))

pipe_loop-line :
    (fuel : ℕ) (is : List Item) (rest : List (List Item))
    → All IsCommand (is ∷ rest)
    → length (print_commands is rest) < fuel
    → pipe_loop fuel (print_commands is rest)
      ≡ ok (command_line (program_of is) (map program_of rest)) []
unfolding pipe_loop peek skip
pipe_loop-line zero is rest h small = absurd (omega arith)
pipe_loop-line (suc fuel) is [] ((items, few), h) small =
    rw (parseexec-items is [] items few tt) refl
pipe_loop-line (suc fuel) is (js ∷ rest) ((items, few), h) small =
    let next = 124 ∷ print_commands js rest in
    let shorter : length (print_commands js rest) < fuel =
      omega (arith, length-print_items is next) in
    rw (parseexec-items is next items few refl) (
      rw (gettoken-bar (print_commands js rest), skip-line js rest h)
        (rw (pipe_loop-line fuel js rest h shorter) refl))

-- A printed line of commands, each of plain arguments, fewer than MAXARGS, and of redirections in
-- any order among them, is parsed to the pipes of these commands: each with its arguments in their
-- order, under its redirections, of which the first that is written is the innermost.
pub parsecmd-print_commands :
    (is : List Item) (rest : List (List Item))
    → All IsCommand (is ∷ rest)
    → parsecmd (print_commands is rest) ≡ ok (command_line (program_of is) (map program_of rest)) []
unfolding parsecmd parsepipe skip
parsecmd-print_commands is rest h =
    rw (pipe_loop-line (suc (length (print_commands is rest))) is rest h (omega arith)) refl
