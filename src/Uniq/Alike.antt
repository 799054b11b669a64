-- ===== src/Uniq/Alike.antt =====
-- The output of hw1/uniq.c, for any string_compare that compares keys of the lines.
use nyu_operating_systems.Base.{
  ℕ, zero, suc, ◌+◌, ◌<◌, ◌≡◌, ◌≢◌, refl, arith, Bool, true, false, List, [], ◌∷◌, ◌++◌, map,
  length, All, if◌then◌else◌, Bool-cases, inl, inr, ap, ◌∙◌, subst, length-append, append_assoc,
}
use nyu_operating_systems.Uniq.Reading.{Text, newline, line, myreadline, IsLine, myreadline-line}
use nyu_operating_systems.Uniq.Compare.{same_string, same_string-eq, same_string_refl}
use nyu_operating_systems.Uniq.Modes.{
  Print, plain, counted, print_line, prints, also, non_duplicate_loop, uniq_non_duplicate_mode,
  choose,
}

abbrev pub closed : Text → Text
closed l = l ++ newline ∷ []

-- A file of these lines.
abbrev pub file_of : List Text → Text
file_of [] = []
file_of (l ∷ ls) = l ++ newline ∷ file_of ls

-- A run: its first line, and the others.
abbrev pub Run : Type 0
Run = Text × List Text

abbrev pub expand : List Run → List Text
expand [] = []
expand ((l, ls) ∷ rs) = l ∷ ls ++ expand rs

-- With the number of lines under -c.
abbrev pub print_run : Bool → Run → Print
print_run true (l, ls) = counted (suc (length ls)) l
print_run false (l, ls) = plain l

print_line-run :
    (count : Bool) (l : Text) (ls : List Text)
    → print_line count (suc (length ls)) l ≡ print_run count (l, ls)
print_line-run true l ls = refl
print_line-run false l ls = refl

pub myreadline-file :
    (l : Text) (ls : List Text)
    → IsLine l
    → myreadline (file_of (l ∷ ls)) ≡ line (closed l) (file_of ls)
myreadline-file l ls h = myreadline-line l (file_of ls) h

-- A line that fits, and of which something else holds.
abbrev pub Fits : (Text → Type 0) → Text → Type 0
Fits Kept l = IsLine l × Kept l

module _ (key : Text → Text) where
  -- The lines of a run have one key.
  abbrev pub AreAlike : List Run → Type 0
  AreAlike [] = Unit
  AreAlike ((l, ls) ∷ rs) = All (λ k. key l ≡ key k) ls × AreAlike rs

  abbrev pub StartsApart : Text → List Run → Type 0
  StartsApart l [] = Unit
  StartsApart l ((k, ks) ∷ rs) = key l ≢ key k

  -- No two runs in a row have one key.
  abbrev pub Maximal : List Run → Type 0
  Maximal [] = Unit
  Maximal ((l, ls) ∷ rs) = StartsApart l rs × Maximal rs

  -- The runs after a line and others of its run.
  abbrev runs_from : Text → List Text → List Text → List Run
  runs_from l seen [] = (l, seen) ∷ []
  runs_from l seen (k ∷ ls) =
      if same_string (key l) (key (closed k))
      then runs_from l (seen ++ closed k ∷ []) ls
      else (l, seen) ∷ runs_from (closed k) [] ls

  expand-runs_from :
      (l : Text) (seen ls : List Text) → expand (runs_from l seen ls) ≡ l ∷ seen ++ map closed ls
  expand-runs_from l seen [] = refl
  expand-runs_from l seen (k ∷ ls) = elim (Bool-cases (same_string (key l) (key (closed k)))) [
    | inl same ↦ rw same (
        expand-runs_from l (seen ++ closed k ∷ []) ls
        ∙ ap (λ z. l ∷ z) (append_assoc seen (closed k ∷ []) (map closed ls)))
    | inr new ↦ rw new (ap (λ z. l ∷ seen ++ z) (expand-runs_from (closed k) [] ls))
  ]

  All-last :
      (l k : Text) (seen : List Text)
      → All (λ z. key l ≡ key z) seen
      → key l ≡ key k
      → All (λ z. key l ≡ key z) (seen ++ k ∷ [])
  All-last l k [] all one = (one, tt)
  All-last l k (z ∷ seen) (first, all) one = (first, All-last l k seen all one)

  runs_from-AreAlike :
      (l : Text) (seen ls : List Text)
      → All (λ z. key l ≡ key z) seen
      → AreAlike (runs_from l seen ls)
  runs_from-AreAlike l seen [] all = (all, tt)
  runs_from-AreAlike l seen (k ∷ ls) all =
      elim (Bool-cases (same_string (key l) (key (closed k)))) [
        | inl same ↦ rw same (
            runs_from-AreAlike l (seen ++ closed k ∷ []) ls
              (All-last l (closed k) seen all (same_string-eq (key l) (key (closed k)) same)))
        | inr new ↦ rw new (all, runs_from-AreAlike (closed k) [] ls tt)
      ]

  runs_from-StartsApart :
      (h l : Text) (seen ls : List Text) → key h ≢ key l → StartsApart h (runs_from l seen ls)
  runs_from-StartsApart h l seen [] differ = differ
  runs_from-StartsApart h l seen (k ∷ ls) differ =
      elim (Bool-cases (same_string (key l) (key (closed k)))) [
        | inl same ↦ rw same (runs_from-StartsApart h l (seen ++ closed k ∷ []) ls differ)
        | inr new ↦ rw new differ
      ]

  runs_from-Maximal : (l : Text) (seen ls : List Text) → Maximal (runs_from l seen ls)
  runs_from-Maximal l seen [] = (tt, tt)
  runs_from-Maximal l seen (k ∷ ls) = elim (Bool-cases (same_string (key l) (key (closed k)))) [
    | inl same ↦ rw same (runs_from-Maximal l (seen ++ closed k ∷ []) ls)
    | inr new ↦
        let differ : key l ≢ key (closed k) = λ q.
          let s : same_string (key l) (key (closed k)) ≡ true =
            subst (λ z. same_string (key l) z ≡ true) q (same_string_refl (key l)) in
          cc in
        rw new (runs_from-StartsApart l (closed k) [] ls differ, runs_from-Maximal (closed k) [] ls)
  ]

  module _ (compare : Text → Text → Bool) (Kept : Text → Type 0)
      (agree : (s t : Text)
        → Fits Kept s
        → Fits Kept t
        → compare (closed s) (closed t) ≡ same_string (key (closed s)) (key (closed t))) where
    loop-runs_from :
        (fuel : ℕ) (count : Bool) (l : Text) (seen ls : List Text)
        → Fits Kept l
        → All (Fits Kept) ls
        → length (file_of ls) < fuel
        → non_duplicate_loop compare fuel count (file_of ls) (suc (length seen)) (closed l)
          ≡ prints (map (print_run count) (runs_from (closed l) seen ls))
    unfolding non_duplicate_loop
    loop-runs_from zero count l seen ls kept fits small = absurd (omega arith)
    loop-runs_from (suc fuel) count l seen [] kept fits small =
        unfold myreadline in ap (λ z. prints (z ∷ [])) (print_line-run count (closed l) seen)
    loop-runs_from (suc fuel) count l seen (k ∷ ls) kept ((h, this), fits) small =
        let shorter : length (file_of ls) < fuel =
          omega (arith, length-append k (newline ∷ file_of ls)) in
        let more : suc (length seen) + 1 ≡ suc (length (seen ++ closed k ∷ [])) =
          omega (arith, length-append seen (closed k ∷ [])) in
        rw (myreadline-file k ls h, agree l k kept (h, this))
          (elim (Bool-cases (same_string (key (closed l)) (key (closed k)))) [
            | inl same ↦
                rw (same, more)
                  (loop-runs_from fuel count l (seen ++ closed k ∷ []) ls kept fits shorter)
            | inr new ↦
                rw (new, print_line-run count (closed l) seen)
                  (ap (also (print_run count (closed l, seen)))
                    (loop-runs_from fuel count k [] ls (h, this) fits shorter))
          ])

    -- What uniq without -d prints.
    pub choose-runs :
        (count : Bool) (l : Text) (ls : List Text)
        → All (Fits Kept) (l ∷ ls)
        → (rs : List Run) × (choose compare count false (myreadline (file_of (l ∷ ls)))
            ≡ prints (map (print_run count) rs))
          × (expand rs ≡ map closed (l ∷ ls))
          × AreAlike rs
          × Maximal rs
    unfolding uniq_non_duplicate_mode
    choose-runs count l ls ((h, kept), fits) = (
      runs_from (closed l) [] ls,
      rw (myreadline-file l ls h)
          (loop-runs_from (suc (length (file_of ls))) count l [] ls (h, kept) fits (omega arith)),
      expand-runs_from (closed l) [] ls,
      runs_from-AreAlike (closed l) [] ls tt,
      runs_from-Maximal (closed l) [] ls,
    )
