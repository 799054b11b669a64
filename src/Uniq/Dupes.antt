-- ===== src/Uniq/Dupes.antt =====
-- What hw1/uniq.c prints under -d for one line that comes several times.
use nyu_operating_systems.Base.{
  ℕ, zero, suc, ◌+◌, ◌<◌, ◌≤◌, ◌/◌, ◌≡◌, refl, arith, Bool, true, false, [], ◌∷◌, length, replicate,
  ap, length-append, ◌∙◌, if◌then◌else◌,
}
use nyu_operating_systems.Uniq.Reading.{Text, newline, myreadline, IsLine}
use nyu_operating_systems.Uniq.Compare.{same_string_refl, Stack, string_compare}
use nyu_operating_systems.Uniq.Copies.{
  Readable, Apart, Meets, string_compare-copied, string_compare-Meets,
}
use nyu_operating_systems.Uniq.Modes.{
  plain, prints, also, duplicate_loop, uniq_duplicate_mode, uniq,
}
use nyu_operating_systems.Uniq.Alike.{closed, file_of, myreadline-file}
use nyu_operating_systems.Uniq.Runs.{closed-Readable}

-- How often the line is printed when n copies of it are still to come.
abbrev printed : Bool → ℕ → ℕ
printed dupe zero = 0
printed false (suc n) = suc (printed true n)
printed true (suc n) = printed false n

printed-half : (n : ℕ) → (printed false n ≡ (n + 1) / 2) × (printed true n ≡ n / 2)
printed-half zero = (refl, refl)
printed-half (suc n) = let (odd, even) = printed-half n in (omega arith, omega arith)

module _ (compare : Text → Text → Bool) (l : Text) (h : IsLine l) where
  loop-printed :
      (fuel : ℕ) (dupe : Bool) (n : ℕ)
      → compare (closed l) (closed l) ≡ true
      → length (file_of (replicate n l)) < fuel
      → duplicate_loop compare fuel (file_of (replicate n l)) dupe (closed l)
        ≡ prints (replicate (printed dupe n) (plain (closed l)))
  unfolding duplicate_loop
  loop-printed zero dupe n same small = absurd (omega arith)
  loop-printed (suc fuel) dupe zero same small = unfold myreadline in refl
  loop-printed (suc fuel) false (suc n) same small =
      let shorter : length (file_of (replicate n l)) < fuel =
        omega (arith, length-append l (newline ∷ file_of (replicate n l))) in
      rw (myreadline-file l (replicate n l) h, same)
        (ap (also (plain (closed l))) (loop-printed fuel true n same shorter))
  loop-printed (suc fuel) true (suc n) same small =
      let shorter : length (file_of (replicate n l)) < fuel =
        omega (arith, length-append l (newline ∷ file_of (replicate n l))) in
      rw (myreadline-file l (replicate n l) h, same) (loop-printed fuel false n same shorter)

  loop-differs :
      (fuel : ℕ) (n : ℕ)
      → compare (closed l) (closed l) ≡ false
      → length (file_of (replicate n l)) < fuel
      → duplicate_loop compare fuel (file_of (replicate n l)) false (closed l) ≡ prints []
  unfolding duplicate_loop
  loop-differs zero n differ small = absurd (omega arith)
  loop-differs (suc fuel) zero differ small = unfold myreadline in refl
  loop-differs (suc fuel) (suc n) differ small =
      let shorter : length (file_of (replicate n l)) < fuel =
        omega (arith, length-append l (newline ∷ file_of (replicate n l))) in
      rw (myreadline-file l (replicate n l) h, differ) (loop-differs fuel n differ shorter)

string_compare-same :
    (stack : Stack) (s : Text)
    → Readable stack s
    → Apart stack s s
    → string_compare false stack s s ≡ true
string_compare-same stack s fine apart =
    string_compare-copied stack s s fine fine apart ∙ same_string_refl s

string_compare-differs :
    (stack : Stack) (l : Text)
    → Readable stack (closed l)
    → Meets stack (closed l) (closed l)
    → string_compare false stack (closed l) (closed l) ≡ false
string_compare-differs stack [] fine meets =
    string_compare-Meets stack (closed []) [] newline fine meets
string_compare-differs stack (c ∷ l) fine meets =
    string_compare-Meets stack (closed (c ∷ l)) (closed l) c fine meets

-- How the copies of a line lie in string_compare: the second one directly before the first one, or
-- with a byte at least between the two.
abbrev pub Lie : Bool → Stack → Text → Type 0
Lie true stack l = Meets stack (closed l) (closed l)
Lie false stack l = Apart stack (closed l) (closed l)

-- Under -d a line that fits the buffer and comes n times in a row, n > 0, is printed n / 2 times,
-- if the copies that string_compare makes of it lie apart: not at all when it comes once, once when it
-- comes two or three times, and again at its fourth time. Where the copy of the second line ends
-- directly before that of the first, strcpy spoils the first one, and nothing is printed however
-- often the line comes.
pub uniq-dupes :
    (stack : Stack) (meet : Bool) (count : Bool) (l : Text) (n : ℕ)
    → 1024 ≤ stack.bytes
    → Lie meet stack l
    → IsLine l
    → uniq false stack count true (file_of (replicate (suc n) l))
      ≡ prints (replicate (if meet then 0 else suc n / 2) (plain (closed l)))
unfolding uniq uniq_duplicate_mode
uniq-dupes stack true count l n room meets h =
    let differ = string_compare-differs stack l (closed-Readable stack l room h) meets in
    rw (myreadline-file l (replicate n l) h) (
      loop-differs (string_compare false stack) l h (suc (length (file_of (replicate n l)))) n
        differ (omega arith))
uniq-dupes stack false count l n room apart h =
    let same = string_compare-same stack (closed l) (closed-Readable stack l room h) apart in
    let half : printed false n ≡ suc n / 2 = (printed-half n).0 ∙ omega arith in
    rw (myreadline-file l (replicate n l) h) (
      loop-printed (string_compare false stack) l h (suc (length (file_of (replicate n l)))) false n
        same (omega arith)
      ∙ ap (λ z. prints (replicate z (plain (closed l)))) half)
