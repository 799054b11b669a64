-- ===== src/Lotterytest/Ends.antt =====
-- How the processes of hw3/lotterytest.c end.
use nyu_operating_systems.Base.{
  ℕ, ◌+◌, ◌<◌, ◌≤◌, ◌≡◌, ◌⊎◌, refl, arith, List, [], ◌∷◌, length, inl, inr, All, length-set,
}
use nyu_operating_systems.Base.Words.{minus_one}
use nyu_operating_systems.Lotterytest.{
  Place, main_time, main_print, fork_first, fork_second, wait_first, wait_second, main_exit,
  set_tickets, spin_time, spin_print, child_exit, exited, resume, IsWait, Family, one_process,
  remove, CallStep, forks, fork_fails, waits, wait_fails, parent_calls, child_calls, CallRun, start,
  later,
}
use nyu_operating_systems.Lotterytest.Calls.{
  calls_left, IsChild, IsFamily, left_all-set, left_all-remove, length-remove, All-remove, All-at,
  All-put, IsChild-resume, IsOther-resume, IsFork-resume, IsWait-resume,
}

CallStep-IsFamily :
    {f g : Family} → CallStep f g → IsFamily f → IsFamily g × (calls_left g < calls_left f)
CallStep-IsFamily {f} (forks pid o positive) (room, kids) =
    let (more, same, child, less) =
      IsFork-resume f.parent pid (length f.children) room o positive in
    ((more, (child, kids)), omega arith)
CallStep-IsFamily {f} (fork_fails o) (room, kids) =
    let (more, same, child, less) =
      IsFork-resume f.parent minus_one (length f.children) room o (omega arith) in
    ((same, kids), omega arith)
CallStep-IsFamily {f} (waits pid i o e) (room, kids) =
    let size = length-remove f.children i exited e in
    let (fits, less) =
      IsWait-resume f.parent pid (length f.children) (length (remove f.children i)) room o
        (inl size) in
    ((fits, All-remove f.children i kids), omega (arith, left_all-remove f.children i))
CallStep-IsFamily {f} (wait_fails o e) (room, kids) =
    let none_left : length f.children ≡ 0 = rw e refl in
    let (fits, less) =
      IsWait-resume f.parent minus_one (length f.children) (length f.children) room o
        (inr (none_left, none_left)) in
    ((fits, kids), omega arith)
CallStep-IsFamily {f} (parent_calls v o) (room, kids) =
    let (fits, less) = IsOther-resume f.parent v (length f.children) room o in
    ((fits, kids), omega arith)
CallStep-IsFamily {f} (child_calls i v c e o) (room, kids) =
    let (child, less) = IsChild-resume c v (All-at f.children i c kids e) o in
    let size = length-set f.children i (resume c v) in
    (
      (rw size room, All-put f.children i (resume c v) child kids),
      omega (arith, left_all-set f.children i c (resume c v) e less),
    )

-- The parent has exited and has waited for every child.
abbrev pub IsOver : Family → Type 0
IsOver f = (f.parent ≡ exited) × (f.children ≡ [])

abbrev pub CanCall : Family → Type 0
CanCall f = (g : Family) × CallStep f g

-- A child that has not exited makes its next call.
IsChild-CanCall :
    (f : Family) (c : Place) (cs : List Place)
    → f.children ≡ c ∷ cs
    → IsChild c
    → (c ≡ exited) ⊎ CanCall f
IsChild-CanCall f exited cs e h = inl refl
IsChild-CanCall f (set_tickets tix) cs e h =
    inr (_, child_calls 0 0 (set_tickets tix) (rw e refl) tt)
IsChild-CanCall f (spin_time tix) cs e h = inr (_, child_calls 0 0 (spin_time tix) (rw e refl) tt)
IsChild-CanCall f (spin_print tix) cs e h = inr (_, child_calls 0 0 (spin_print tix) (rw e refl) tt)
IsChild-CanCall f child_exit cs e h = inr (_, child_calls 0 0 child_exit (rw e refl) tt)
IsChild-CanCall f main_time cs e h = absurd h
IsChild-CanCall f main_print cs e h = absurd h
IsChild-CanCall f fork_first cs e h = absurd h
IsChild-CanCall f fork_second cs e h = absurd h
IsChild-CanCall f wait_first cs e h = absurd h
IsChild-CanCall f wait_second cs e h = absurd h
IsChild-CanCall f main_exit cs e h = absurd h

-- A parent in wait: it has no child, or the first one exits or has exited.
IsWait-CanCall :
    (f : Family) (cs : List Place) → f.children ≡ cs → All IsChild cs → IsWait f.parent → CanCall f
IsWait-CanCall f [] e kids o = (_, wait_fails o e)
IsWait-CanCall f (c ∷ cs) e (h, hs) o = elim (IsChild-CanCall f c cs e h) [
  | inl gone ↦ (_, waits 1 0 o (rw (e, gone) refl))
  | inr step ↦ step
]

length-zero : (cs : List Place) → length cs ≡ 0 → cs ≡ []
length-zero [] e = refl
length-zero (c ∷ cs) e = absurd (omega arith)

progress : (f : Family) (c : Place) → f.parent ≡ c → IsFamily f → IsOver f ⊎ CanCall f
progress f main_time e (room, kids) = inr (_, parent_calls 0 (rw e tt))
progress f main_print e (room, kids) = inr (_, parent_calls 0 (rw e tt))
progress f main_exit e (room, kids) = inr (_, parent_calls 0 (rw e tt))
progress f fork_first e (room, kids) = inr (_, fork_fails (rw e tt))
progress f fork_second e (room, kids) = inr (_, fork_fails (rw e tt))
progress f wait_first e (room, kids) = inr (IsWait-CanCall f f.children refl kids (rw e tt))
progress f wait_second e (room, kids) = inr (IsWait-CanCall f f.children refl kids (rw e tt))
progress f exited e (room, kids) = inl (e, length-zero f.children (rw e at room))
progress f (set_tickets tix) e (room, kids) = absurd (rw e at room)
progress f (spin_time tix) e (room, kids) = absurd (rw e at room)
progress f (spin_print tix) e (room, kids) = absurd (rw e at room)
progress f child_exit e (room, kids) = absurd (rw e at room)

CallRun-IsFamily :
    {f : Family} {n : ℕ} {g : Family}
    → CallRun f n g
    → IsFamily f
    → IsFamily g × (calls_left g + n ≤ calls_left f)
CallRun-IsFamily start h = (h, omega arith)
CallRun-IsFamily (later r s) h =
    let (g, less) = CallRun-IsFamily r h in
    let (g', less') = CallStep-IsFamily s g in (g', omega arith)

-- Every run of lotterytest comes to its end: after any n calls of its processes, a printf counted as
-- one call, in any order, whether the forks work or not, n is at most 15, and either the first process
-- has exited and has waited for every child, or some process can make its next call.
pub CallRun-ends :
    (n : ℕ) (f : Family) → CallRun one_process n f → (n ≤ 15) × (IsOver f ⊎ CanCall f)
CallRun-ends n f r =
    let (family, bound) = CallRun-IsFamily r (refl, tt) in
    (omega arith, progress f f.parent refl family)
