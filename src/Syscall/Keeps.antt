-- ===== src/Syscall/Keeps.antt =====
-- The system calls of hw3/syscall.c and hw3/sysproc.c keep the invariant of the process table.
use nyu_operating_systems.Base.{
  ℕ, ◌≡◌, true, Option, none, some, ◌&&◌, get_or, get_elem?, Bool-cases, inl, inr, subst, sym, ◌∙◌,
  All, length, get_or-All, ◌&◌,
}
use nyu_operating_systems.Base.Words.{minus_one, int_lt}
use nyu_operating_systems.Proc.State.{is_running, Chan, Lock, Proc, Kernel, Externals, deref}
use nyu_operating_systems.Proc.Sched.{switched, panic, sleep}
use nyu_operating_systems.Proc.Valid.{SameTable, SameTable-IsValid}
use nyu_operating_systems.Proc.Valid.Wake.{RunsAt}
use nyu_operating_systems.Proc.Valid.Steps.{Inv, Step-Inv, sleeps, others, Inv-runs}
use nyu_operating_systems.Syscall.Handlers.{Reply, returns, leaves, System, sys_getpid, sys_uptime}
use nyu_operating_systems.Syscall.Dispatch.{
  syscalls, set_eax, finish, call_handler, syscall, Handler,
}
use nyu_operating_systems.Syscall.Handled.{
  Calls, Settled, leaves-Settled, sys_fork-Settled, sys_exit-Settled, sys_wait-Settled,
  sys_kill-Settled, sys_settickets-Settled, sys_gettime-Settled, sys_sleep-Settled,
  sys_sbrk-Settled,
}

module _ {M : Type 0} (x : Externals M) (s : System M) where
  set_eax-Inv : (me v : ℕ) (k : Kernel M) → Inv x k → Inv x (set_eax x s me v k)
  set_eax-Inv me v k h = record { valid = h.valid; busy = h.busy }

  finish-Settled : (me : ℕ) (r : Reply M) → Settled x s r → Settled x s (finish x s me r)
  finish-Settled me (returns v l) h = set_eax-Inv me v l h
  finish-Settled me (leaves (switched n l)) h = h
  finish-Settled me (leaves (panic c)) h = tt

  -- What the handlers of sysfile.c do with the table up to their return or their sleep: they wake
  -- processes, and change the caller's files, directory, name and memory.
  pub record Alike (me : ℕ) (k l : Kernel M) : Type 0 where
    pub table : SameTable k.ptable l.ptable
    pub pids : l.nextpid ≡ k.nextpid
    pub cpu : l.proc ≡ k.proc
    pub init : l.initproc ≡ k.initproc
    pub alone :
        (i : ℕ) (p : Proc) → get_elem? l.ptable i ≡ some p → is_running p.state ≡ true → i ≡ me
    pub caller : RunsAt l me

  abbrev pub IsFileCall : ℕ → Kernel M → Reply M → Type 0
  IsFileCall me k (returns v l) = Alike me k l
  IsFileCall me k (leaves o) =
      (l : Kernel M) × (c : Chan) × (lk : Lock) × (o ≡ sleep x (some me) c lk l) × Alike me k l

  Alike-Inv : (me : ℕ) (k l : Kernel M) → Calls x s me k → Alike me k l → Inv x l
  Alike-Inv me k l c a =
      let here : l.proc ≡ some me = a.cpu ∙ c.runs in
      Inv-runs x l me
        (rw (a.pids, a.init)
          (SameTable-IsValid a.table (λ i p e on. let same = a.alone i p e on in cc) c.inv.valid))
        a.caller

  IsFileCall-Settled :
      (me : ℕ) (k : Kernel M) (r : Reply M) → Calls x s me k → IsFileCall me k r → Settled x s r
  IsFileCall-Settled me k (returns v l) c a = Alike-Inv me k l c a
  IsFileCall-Settled me k (leaves o) c (l, ch, lk, e, a) =
      subst (λ z. Settled x s (leaves z)) (sym e)
        (leaves-Settled x s (sleep x (some me) ch lk l)
          (λ n l' e'. Step-Inv x (sleeps me n ch lk (a.cpu ∙ c.runs) e') (Alike-Inv me k l c a)))

  abbrev SettledHandler : Kernel M → Option (Handler x s) → Type 0
  SettledHandler k none = Unit
  SettledHandler k (some h) = Settled x s (h k)

  syscalls-Settled :
      (me : ℕ) (k : Kernel M)
      → Calls x s me k
      → ((n : ℕ) → IsFileCall me k (s.sysfile n k))
      → All (SettledHandler k) (syscalls x s me)
  unfolding syscalls sys_getpid sys_uptime
  syscalls-Settled me k c files =
      let file : (n : ℕ) → Settled x s (s.sysfile n k) =
        λ n. IsFileCall-Settled me k (s.sysfile n k) c (files n) in
      tt
      & sys_fork-Settled x s me k c
      & sys_exit-Settled x s me k c
      & sys_wait-Settled x s me k c
      & file 4
      & file 5
      & sys_kill-Settled x s me k c
      & file 7
      & file 8
      & file 9
      & file 10
      & c.inv
      & sys_sbrk-Settled x s me k c
      & sys_sleep-Settled x s me k c
      & Step-Inv x
          (others (x.release (Lock.other s.tickslock) (x.acquire (Lock.other s.tickslock) k.mach)))
          c.inv
      & file 15
      & file 16
      & file 17
      & file 18
      & file 19
      & file 20
      & file 21
      & sys_gettime-Settled x s me k c
      & sys_settickets-Settled x s me k c
      & tt

  call_handler-Settled :
      (me : ℕ) (k : Kernel M) (h : Option (Handler x s))
      → Calls x s me k
      → SettledHandler k h
      → Settled x s (call_handler x s me h k)
  call_handler-Settled me k none c d = set_eax-Inv me minus_one k c.inv
  call_handler-Settled me k (some h) c d = finish-Settled me (h k) d

  -- In a kernel where the invariant of the process table holds, the process `me` runs and a pid is
  -- left, a system call with any number in eax ends with the invariant, whether it returns or goes
  -- to the scheduler. Of the handlers of sysfile.c it is supposed that they change the table only
  -- as `Alike` says, and that they give up the CPU only in sleep.
  pub syscall-Settled :
      (me : ℕ) (k : Kernel M)
      → Calls x s me k
      → ((n : ℕ) → IsFileCall me k (s.sysfile n k))
      → Settled x s (syscall x s me k)
  unfolding syscall
  syscall-Settled me k c files =
      let num = (k.trapframes (deref k me).tf).eax in
      let all = syscalls-Settled me k c files in
      let ok = int_lt 0 num && int_lt num (length (syscalls x s me)) in
      elim (Bool-cases ok) [
        | inl known ↦ rw known (
            call_handler-Settled me k (get_or (syscalls x s me) num none) c
              (get_or-All (SettledHandler k) (syscalls x s me) num none all tt))
        | inr unknown ↦ rw unknown (call_handler-Settled me k none c tt)
      ]
