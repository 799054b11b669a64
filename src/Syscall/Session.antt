-- ===== src/Syscall/Session.antt =====
-- The kernel from boot on: user programs compute and make the system calls of hw3/syscall.c, and
-- hw3/proc.c switches between them.
use nyu_operating_systems.Base.{ℕ, ◌+◌, ◌^◌, ◌<◌, ◌≡◌, ◌≢◌, some, subst}
use nyu_operating_systems.Proc.State.{Trapframe, Kernel, Externals}
use nyu_operating_systems.Proc.Sched.{switched}
use nyu_operating_systems.Proc.Alloc.{userinit}
use nyu_operating_systems.Proc.Lottery.{scheduler_return}
use nyu_operating_systems.Proc.Valid.Steps.{Step, Reach, Inv, Step-Inv}
use nyu_operating_systems.Proc.Valid.Boot.{IsFresh, boot-Inv}
use nyu_operating_systems.Syscall.Handlers.{returns, leaves, System}
use nyu_operating_systems.Syscall.Dispatch.{syscall}
use nyu_operating_systems.Syscall.Handled.{Calls, Settled}
use nyu_operating_systems.Syscall.Keeps.{IsFileCall, syscall-Settled}

module _ {M : Type 0} (x : Externals M) (s : System M) where
  -- What happens on the machine: the current process calls, and is answered or gives up the CPU;
  -- it computes, which changes its registers and memory; the kernel takes a step of its own.
  pub data Happens (k : Kernel M) : Kernel M → Type 0 where
    answers :
        (me v : ℕ) {l : Kernel M}
        → k.proc ≡ some me
        → k.nextpid + 1 < 2 ^ 32
        → syscall x s me k ≡ returns v l
        → Happens k l
    gives_up :
        (me n : ℕ) {l : Kernel M}
        → k.proc ≡ some me
        → k.nextpid + 1 < 2 ^ 32
        → syscall x s me k ≡ leaves (switched n l)
        → Happens k (scheduler_return x l)
    computes :
        (frames : ℕ → Trapframe) (m : M) → Happens k (record k { trapframes = frames; mach = m })
    steps : {l : Kernel M} → Step x k l → Happens k l

  pub data Session (k : Kernel M) : Kernel M → Type 0 where
    start : Session k k
    later : {l l' : Kernel M} → Session k l → Happens l l' → Session k l'

  -- The contract of the handlers of sysfile.c.
  abbrev pub FileLaws : Type 0
  FileLaws = (me n : ℕ) (k : Kernel M) → Calls x s me k → IsFileCall x s me k (s.sysfile n k)

  call-Settled :
      (me : ℕ) (k : Kernel M)
      → FileLaws
      → Inv x k
      → k.proc ≡ some me
      → k.nextpid + 1 < 2 ^ 32
      → Settled x s (syscall x s me k)
  call-Settled me k files v cpu room =
      let c : Calls x s me k = record { inv = v; runs = cpu; room = room } in
      syscall-Settled x s me k c (λ n. files me n k c)

  Happens-Inv : {k l : Kernel M} → FileLaws → Happens k l → Inv x k → Inv x l
  Happens-Inv {k} files (answers me v cpu room e) i =
      subst (Settled x s) e (call-Settled me k files i cpu room)
  Happens-Inv {k} files (gives_up me n cpu room e) i =
      subst (Settled x s) e (call-Settled me k files i cpu room)
  Happens-Inv files (computes frames m) i = record { valid = i.valid; busy = i.busy }
  Happens-Inv files (steps t) i = Step-Inv x t i

  Session-Inv : {k l : Kernel M} → FileLaws → Session k l → Inv x k → Inv x l
  Session-Inv files start i = i
  Session-Inv files (later r h) i = Happens-Inv files h (Session-Inv files r i)

  -- The invariant of the process table (used slots have different pids below nextpid, every parent
  -- can still wait, an unused slot has no parent, init is alive, and the CPU's process and no other
  -- is RUNNING) holds in every kernel that comes from a successful userinit on a zeroed table with a
  -- slot, pids from 1 and no current process, through any sequence of system calls of the current
  -- process with any numbers and arguments, computations of user programs, and steps of hw3/proc.c,
  -- as long as pids do not run out. Of the handlers of sysfile.c it is supposed that they change
  -- the table only as `Alike` says, and that they give up the CPU only in sleep.
  pub boot-session_Inv :
      (k k' l : Kernel M) (n : ℕ)
      → FileLaws
      → IsFresh x k k' n
      → n ≢ 0
      → userinit x k ≡ some k'
      → Session k' l
      → Inv x l
  boot-session_Inv k k' l n files fresh slots e r =
      Session-Inv files r (boot-Inv x k k' n fresh slots e (Reach.start))
