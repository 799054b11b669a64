-- ===== src/Lotterytest/Calls.antt =====
-- What a system call of hw3/lotterytest.c leaves to do for its process.
use nyu_operating_systems.Base.{
  ℕ, ◌+◌, ◌<◌, ◌≤◌, ◌==◌, ◌≡◌, ◌⊎◌, refl, arith, false, some, List, [], ◌∷◌, length, zero, suc,
  get_elem?, set, inl, inr, All, some-inj, sym, subst,
}
use nyu_operating_systems.Lotterytest.{
  Place, main_time, main_print, fork_first, fork_second, wait_first, wait_second, main_exit,
  set_tickets, spin_time, spin_print, child_exit, exited, resume, IsFork, IsWait, IsOther, Family,
  remove,
}

-- The calls that are left, with those of the children to come.
abbrev pub left : Place → ℕ
left main_time = 15
left main_print = 14
left fork_first = 13
left fork_second = 8
left wait_first = 3
left wait_second = 2
left main_exit = 1
left (set_tickets tix) = 4
left (spin_time tix) = 3
left (spin_print tix) = 2
left child_exit = 1
left exited = 0

abbrev pub left_all : List Place → ℕ
left_all [] = 0
left_all (c ∷ cs) = left c + left_all cs

abbrev pub calls_left : Family → ℕ
calls_left f = left f.parent + left_all f.children

-- How many children the parent can have at most.
abbrev pub IsRoom : Place → ℕ → Type 0
IsRoom main_time n = n ≡ 0
IsRoom main_print n = n ≡ 0
IsRoom fork_first n = n ≡ 0
IsRoom fork_second n = n ≤ 1
IsRoom wait_first n = n ≤ 2
IsRoom wait_second n = n ≤ 1
IsRoom main_exit n = n ≡ 0
IsRoom exited n = n ≡ 0
IsRoom _ n = ⊥

abbrev pub IsChild : Place → Type 0
IsChild (set_tickets tix) = Unit
IsChild (spin_time tix) = Unit
IsChild (spin_print tix) = Unit
IsChild child_exit = Unit
IsChild exited = Unit
IsChild _ = ⊥

abbrev pub IsFamily : Family → Type 0
IsFamily f = IsRoom f.parent (length f.children) × All IsChild f.children

pub left_all-set :
    (cs : List Place) (i : ℕ) (c d : Place)
    → get_elem? cs i ≡ some c
    → left d < left c
    → left_all (set cs i d) < left_all cs
left_all-set [] i c d e h = absurd (cc)
left_all-set (b ∷ cs) zero c d e h =
    let less : left d < left b = subst (λ z. left d < left z) (sym (some-inj e)) h in omega arith
left_all-set (b ∷ cs) (suc i) c d e h = omega (arith, left_all-set cs i c d e h)

pub left_all-remove : (cs : List Place) (i : ℕ) → left_all (remove cs i) ≤ left_all cs
left_all-remove [] i = omega arith
left_all-remove (c ∷ cs) zero = omega arith
left_all-remove (c ∷ cs) (suc i) = omega (arith, left_all-remove cs i)

pub length-remove :
    (cs : List Place) (i : ℕ) (c : Place)
    → get_elem? cs i ≡ some c
    → length cs ≡ suc (length (remove cs i))
length-remove [] i c e = absurd (cc)
length-remove (b ∷ cs) zero c e = refl
length-remove (b ∷ cs) (suc i) c e = omega (arith, length-remove cs i c e)

pub All-remove : (cs : List Place) (i : ℕ) → All IsChild cs → All IsChild (remove cs i)
All-remove [] i h = h
All-remove (c ∷ cs) zero (h, hs) = hs
All-remove (c ∷ cs) (suc i) (h, hs) = (h, All-remove cs i hs)

pub All-at :
    (cs : List Place) (i : ℕ) (c : Place) → All IsChild cs → get_elem? cs i ≡ some c → IsChild c
All-at [] i c h e = absurd (cc)
All-at (b ∷ cs) zero c (h, hs) e = subst IsChild (some-inj e) h
All-at (b ∷ cs) (suc i) c (h, hs) e = All-at cs i c hs e

pub All-put :
    (cs : List Place) (i : ℕ) (d : Place) → IsChild d → All IsChild cs → All IsChild (set cs i d)
All-put [] i d g h = h
All-put (c ∷ cs) zero d g (h, hs) = (g, hs)
All-put (c ∷ cs) (suc i) d g (h, hs) = (h, All-put cs i d g hs)

pub IsChild-resume :
    (c : Place) (v : ℕ)
    → IsChild c
    → IsOther c
    → IsChild (resume c v) × (left (resume c v) < left c)
unfolding resume
IsChild-resume (set_tickets tix) v h o = (tt, omega arith)
IsChild-resume (spin_time tix) v h o = (tt, omega arith)
IsChild-resume (spin_print tix) v h o = (tt, omega arith)
IsChild-resume child_exit v h o = (tt, omega arith)
IsChild-resume exited v h o = absurd o
IsChild-resume main_time v h o = absurd h
IsChild-resume main_print v h o = absurd h
IsChild-resume fork_first v h o = absurd h
IsChild-resume fork_second v h o = absurd h
IsChild-resume wait_first v h o = absurd h
IsChild-resume wait_second v h o = absurd h
IsChild-resume main_exit v h o = absurd h

pub IsOther-resume :
    (c : Place) (v n : ℕ)
    → IsRoom c n
    → IsOther c
    → IsRoom (resume c v) n × (left (resume c v) < left c)
unfolding resume
IsOther-resume main_time v n h o = (h, omega arith)
IsOther-resume main_print v n h o = (h, omega arith)
IsOther-resume main_exit v n h o = (h, omega arith)
IsOther-resume exited v n h o = absurd o
IsOther-resume fork_first v n h o = absurd o
IsOther-resume fork_second v n h o = absurd o
IsOther-resume wait_first v n h o = absurd o
IsOther-resume wait_second v n h o = absurd o
IsOther-resume (set_tickets tix) v n h o = absurd h
IsOther-resume (spin_time tix) v n h o = absurd h
IsOther-resume (spin_print tix) v n h o = absurd h
IsOther-resume child_exit v n h o = absurd h

-- fork, with the answer that the parent gets.
pub IsFork-resume :
    (c : Place) (v n : ℕ)
    → IsRoom c n
    → IsFork c
    → 0 < v
    → IsRoom (resume c v) (suc n)
      × IsRoom (resume c v) n
      × IsChild (resume c 0)
      × (left (resume c v) + left (resume c 0) < left c)
unfolding resume
IsFork-resume fork_first v n h o pid =
    let parent : v == 0 ≡ false = ground arith in
    rw parent (omega arith, omega arith, tt, omega arith)
IsFork-resume fork_second v n h o pid =
    let parent : v == 0 ≡ false = ground arith in
    rw parent (omega arith, omega arith, tt, omega arith)
IsFork-resume main_time v n h o pid = absurd o
IsFork-resume main_print v n h o pid = absurd o
IsFork-resume wait_first v n h o pid = absurd o
IsFork-resume wait_second v n h o pid = absurd o
IsFork-resume main_exit v n h o pid = absurd o
IsFork-resume (set_tickets tix) v n h o pid = absurd o
IsFork-resume (spin_time tix) v n h o pid = absurd o
IsFork-resume (spin_print tix) v n h o pid = absurd o
IsFork-resume child_exit v n h o pid = absurd o
IsFork-resume exited v n h o pid = absurd o

-- wait, after which there are m children; before it there was one more, or there are none.
pub IsWait-resume :
    (c : Place) (v n m : ℕ)
    → IsRoom c n
    → IsWait c
    → (n ≡ suc m) ⊎ ((n ≡ 0) × (m ≡ 0))
    → IsRoom (resume c v) m × (left (resume c v) < left c)
unfolding resume
IsWait-resume wait_first v n m h o (inl more) = (omega arith, omega arith)
IsWait-resume wait_first v n m h o (inr (none_now, none_then)) = (omega arith, omega arith)
IsWait-resume wait_second v n m h o (inl more) = (omega arith, omega arith)
IsWait-resume wait_second v n m h o (inr (none_now, none_then)) = (omega arith, omega arith)
IsWait-resume fork_first v n m h o d = absurd o
IsWait-resume fork_second v n m h o d = absurd o
IsWait-resume main_time v n m h o d = absurd o
IsWait-resume main_print v n m h o d = absurd o
IsWait-resume main_exit v n m h o d = absurd o
IsWait-resume (set_tickets tix) v n m h o d = absurd o
IsWait-resume (spin_time tix) v n m h o d = absurd o
IsWait-resume (spin_print tix) v n m h o d = absurd o
IsWait-resume child_exit v n m h o d = absurd o
IsWait-resume exited v n m h o d = absurd o
