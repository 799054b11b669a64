-- ===== src/Lotterytest.antt =====
-- hw3/lotterytest.c: the user program that forks two children with 80 and 20 tickets, and waits for
-- both. The kernel answers each system call as hw3/proc.c does. A printf, which writes its characters
-- one by one, is one call.
pub mod Calls
pub mod Ends
mod Tests
use nyu_operating_systems.Base.{
  ℕ, ◌+◌, ◌<◌, ◌==◌, ◌≡◌, some, List, [], ◌∷◌, zero, suc, get_elem?, set, if◌then◌else◌,
}
use nyu_operating_systems.Base.Words.{minus_one}

-- The next call of a process, a system call or a printf: in main; in a child with its tickets; after exit.
pub data Place : Type 0 where
  main_time main_print fork_first fork_second wait_first wait_second main_exit : Place
  set_tickets spin_time spin_print : ℕ → Place
  child_exit exited : Place

-- Where a process goes on after the call, with the call's answer. The loops of spin only take time.
unfoldable pub resume : Place → ℕ → Place
resume main_time answer = main_print
resume main_print answer = fork_first
resume fork_first answer = if answer == 0 then set_tickets 80 else fork_second
resume fork_second answer = if answer == 0 then set_tickets 20 else wait_first
resume wait_first answer = wait_second
resume wait_second answer = main_exit
resume main_exit answer = exited
resume (set_tickets tix) answer = spin_time tix
resume (spin_time tix) answer = spin_print tix
resume (spin_print tix) answer = child_exit
resume child_exit answer = exited
resume exited answer = exited

abbrev pub IsFork : Place → Type 0
IsFork fork_first = Unit
IsFork fork_second = Unit
IsFork _ = ⊥

abbrev pub IsWait : Place → Type 0
IsWait wait_first = Unit
IsWait wait_second = Unit
IsWait _ = ⊥

-- gettime, printf, settickets and exit.
abbrev pub IsOther : Place → Type 0
IsOther fork_first = ⊥
IsOther fork_second = ⊥
IsOther wait_first = ⊥
IsOther wait_second = ⊥
IsOther exited = ⊥
IsOther _ = Unit

-- The processes: the first one, and its children until it has waited for them.
pub record Family : Type 0 where
  pub parent : Place
  pub children : List Place

abbrev pub one_process : Family
one_process = record { parent = main_time; children = [] }

abbrev pub remove : List Place → ℕ → List Place
remove [] i = []
remove (c ∷ cs) zero = cs
remove (c ∷ cs) (suc i) = c ∷ remove cs i

-- A step: a call of the parent or of a child, with what the kernel makes of it. fork gives the child
-- 0 and the parent a pid, or fails; wait takes a child that has exited, or fails where there is none.
pub data CallStep (f : Family) : Family → Type 0 where
  forks :
      (pid : ℕ)
      → IsFork f.parent
      → 0 < pid
      → CallStep f
          (record { parent = resume f.parent pid; children = resume f.parent 0 ∷ f.children })
  fork_fails : IsFork f.parent → CallStep f (record f { parent = resume f.parent minus_one })
  waits :
      (pid i : ℕ)
      → IsWait f.parent
      → get_elem? f.children i ≡ some exited
      → CallStep f (record { parent = resume f.parent pid; children = remove f.children i })
  wait_fails :
      IsWait f.parent
      → f.children ≡ []
      → CallStep f (record f { parent = resume f.parent minus_one })
  parent_calls :
      (answer : ℕ) → IsOther f.parent → CallStep f (record f { parent = resume f.parent answer })
  child_calls :
      (i answer : ℕ) (c : Place)
      → get_elem? f.children i ≡ some c
      → IsOther c
      → CallStep f (record f { children = set f.children i (resume c answer) })

-- n steps.
pub data CallRun (f : Family) : ℕ → Family → Type 0 where
  start : CallRun f 0 f
  later : {n : ℕ} {g h : Family} → CallRun f n g → CallStep g h → CallRun f (suc n) h
