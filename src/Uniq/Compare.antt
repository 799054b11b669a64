-- ===== src/Uniq/Compare.antt =====
-- hw1/uniq.c: string_compare, on the memory where its two arrays lie.
use nyu_operating_systems.Base.{
  ℕ, zero, suc, ◌+◌, ◌-◌, ◌==◌, ◌&&◌, ◌≡◌, leb, refl, arith, Bool, true, false, [], ◌∷◌, length,
  if◌then◌else◌, ==_refl,
}
use nyu_operating_systems.Uniq.Reading.{Text}

-- strcmp(...) == 0 on two strings.
unfoldable pub same_string : Text → Text → Bool
same_string [] [] = true
same_string [] (d ∷ t) = false
same_string (c ∷ s) [] = false
same_string (c ∷ s) (d ∷ t) = c == d && same_string s t

-- The bytes by their addresses.
abbrev pub Memory : Type 0
Memory = ℕ → ℕ

-- A character of to_upper.
abbrev pub upper : ℕ → ℕ
upper c = if leb 97 c && leb c 122 then c - 32 else c

abbrev pub put : Memory → ℕ → ℕ → Memory
put m a v b = if a == b then v else m b

-- The loop of to_upper, over str up to its NUL, which it does not copy.
abbrev pub to_upper : Memory → Text → ℕ → Memory
to_upper m [] copy = m
to_upper m (c ∷ str) copy = to_upper (put m copy (upper c)) str (copy + 1)

-- strcpy(copy, str), with the NUL.
abbrev pub strcpy : Memory → Text → ℕ → Memory
strcpy m [] copy = put m copy 0
strcpy m (c ∷ str) copy = strcpy (put m copy c) str (copy + 1)

-- The string at an address, in at most so many bytes.
abbrev pub string_at : ℕ → Memory → ℕ → Text
string_at zero m a = []
string_at (suc bytes) m a =
    let rest = string_at bytes m (a + 1) in if m a == 0 then [] else m a ∷ rest

-- What C leaves open in a call on two strings: what memory holds, where the arrays str_1_cmp and
-- str_2_cmp of these lengths begin, and a bound on what strcmp can read.
pub record Stack : Type 0 where
  pub memory : Text → Text → Memory
  pub first : ℕ → ℕ → ℕ
  pub second : ℕ → ℕ → ℕ
  pub bytes : ℕ

abbrev pub first_at : Stack → Text → Text → ℕ
first_at stack s t = stack.first (length s) (length t)

abbrev pub second_at : Stack → Text → Text → ℕ
second_at stack s t = stack.second (length s) (length t)

-- The memory after the copies, by the value of ignore_case.
abbrev pub copies : Bool → Stack → Text → Text → Memory
copies true stack s t =
    to_upper (to_upper (stack.memory s t) s (first_at stack s t)) t (second_at stack s t)
copies false stack s t =
    strcpy (strcpy (stack.memory s t) s (first_at stack s t)) t (second_at stack s t)

unfoldable pub string_compare : Bool → Stack → Text → Text → Bool
string_compare ignore_case stack s t =
    same_string (string_at stack.bytes (copies ignore_case stack s t) (first_at stack s t))
      (string_at stack.bytes (copies ignore_case stack s t) (second_at stack s t))

pub same_string-eq : (s t : Text) → same_string s t ≡ true → s ≡ t
unfolding same_string
same_string-eq [] [] e = refl
same_string-eq [] (d ∷ t) e = cc
same_string-eq (c ∷ s) [] e = cc
same_string-eq (c ∷ s) (d ∷ t) e = let rest = same_string-eq s t (ground arith) in ground arith

pub same_string_refl : (s : Text) → same_string s s ≡ true
unfolding same_string
same_string_refl [] = refl
same_string_refl (c ∷ s) = rw (==_refl c, same_string_refl s) refl
