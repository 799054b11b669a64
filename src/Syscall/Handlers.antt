-- ===== src/Syscall/Handlers.antt =====
-- hw3/sysproc.c: the handlers of the process calls, for a current process in slot `me`.
use nyu_operating_systems.Base.{ℕ, ◌==◌, ltb, Option, none, some, if◌then◌else◌}
use nyu_operating_systems.Base.Words.{minus_one, sub32, int_lt}
use nyu_operating_systems.Proc.State.{Chan, Lock, Kernel, Externals, deref, write}
use nyu_operating_systems.Proc.Alloc.{growproc, fork}
use nyu_operating_systems.Proc.Sched.{Outcome, sleep, sleep_return, kill}
use nyu_operating_systems.Proc.Exit.{Waited, returned, waits, exit, wait}
use nyu_operating_systems.Syscall.Args.{argint, argptr}

-- How a handler ends: with a result, or at the switch to the scheduler or in a panic.
pub data Reply (M : Type 0) : Type 0 where
  returns : ℕ → Kernel M → Reply M
  leaves : Outcome M → Reply M

-- The rest of the machine that these two files use.
pub record System (M : Type 0) : Type 0 where
  -- the bytes of the current process's memory
  pub byte : M → ℕ → ℕ
  -- trap.c: ticks, and the address of it; its lock
  pub ticks : M → ℕ
  pub ticks_addr : ℕ
  pub tickslock : ℕ
  -- lapic.c: cmostime; date.h: sizeof(struct rtcdate)
  pub cmostime : ℕ → M → M
  pub rtcdate_size : ℕ
  -- sysfile.c: the handlers in its table, by the number in syscall.h
  pub sysfile : ℕ → Kernel M → Reply M

module _ {M : Type 0} (x : Externals M) (s : System M) where
  -- argint and argptr of the current process
  abbrev pub int_arg : ℕ → Kernel M → ℕ → Option ℕ
  int_arg me k n = let p = deref k me in argint (s.byte k.mach) p.sz (k.trapframes p.tf).esp n

  abbrev pub ptr_arg : ℕ → Kernel M → ℕ → ℕ → Option ℕ
  ptr_arg me k n size =
      let p = deref k me in argptr (s.byte k.mach) p.sz (k.trapframes p.tf).esp n size

  abbrev pub reply : ℕ × Kernel M → Reply M
  reply (v, k) = returns v k

  abbrev pub of_wait : Waited M → Reply M
  of_wait (returned pid k) = returns pid k
  of_wait (waits o) = leaves o

  unfoldable pub sys_fork : ℕ → Kernel M → Reply M
  sys_fork me k = reply (fork x me k)

  unfoldable pub sys_exit : ℕ → Kernel M → Reply M
  sys_exit me k = leaves (exit x me k)

  unfoldable pub sys_wait : ℕ → Kernel M → Reply M
  sys_wait me k = of_wait (wait x me k)

  unfoldable pub sys_kill : ℕ → Kernel M → Reply M
  sys_kill me k = elim (int_arg me k 0) [
    | none ↦ returns minus_one k
    | some pid ↦ reply (kill x pid k)
  ]

  unfoldable pub sys_getpid : ℕ → Kernel M → Reply M
  sys_getpid me k = returns (deref k me).pid k

  -- growproc(n) and the test of its result; `addr` is the old size.
  abbrev pub grown : ℕ → ℕ × Kernel M → Reply M
  grown addr (r, k) = if int_lt r 0 then returns minus_one k else returns addr k

  unfoldable pub sys_sbrk : ℕ → Kernel M → Reply M
  sys_sbrk me k = elim (int_arg me k 0) [
    | none ↦ returns minus_one k
    | some n ↦ grown (deref k me).sz (growproc x me n k)
  ]

  -- The loop of sys_sleep, with tickslock held, up to its next sleep or its end. The comparison of
  -- a uint with the int n is unsigned.
  unfoldable pub sleep_round : ℕ → ℕ → ℕ → Kernel M → Reply M
  sleep_round me ticks0 n k =
      let free = record k { mach = x.release (Lock.other s.tickslock) k.mach } in
      if ltb (sub32 (s.ticks k.mach) ticks0) n
      then (if (deref k me).killed == 0
          then leaves (sleep x (some me) (Chan.addr s.ticks_addr) (Lock.other s.tickslock) k)
          else returns minus_one free)
      else returns 0 free

  unfoldable pub sys_sleep : ℕ → Kernel M → Reply M
  unfolding sleep_round
  sys_sleep me k = elim (int_arg me k 0) [
    | none ↦ returns minus_one k
    | some n ↦
        let k' = record k { mach = x.acquire (Lock.other s.tickslock) k.mach } in
        sleep_round me (s.ticks k'.mach) n k'
  ]

  -- The return from the sleep of a round, with the value that pushcli left, and the next round.
  unfoldable pub sleep_again : ℕ → ℕ → ℕ → ℕ → Kernel M → Reply M
  unfolding sleep_round
  sleep_again saved me ticks0 n k =
      sleep_round me ticks0 n (sleep_return x saved me (Lock.other s.tickslock) k)

  unfoldable pub sys_uptime : Kernel M → Reply M
  sys_uptime k =
      let m = x.acquire (Lock.other s.tickslock) k.mach in
      returns (s.ticks m) (record k { mach = x.release (Lock.other s.tickslock) m })

  unfoldable pub sys_gettime : ℕ → Kernel M → Reply M
  sys_gettime me k = elim (ptr_arg me k 0 s.rtcdate_size) [
    | none ↦ returns minus_one k
    | some d ↦ returns 0 (record k { mach = s.cmostime d k.mach })
  ]

  unfoldable pub sys_settickets : ℕ → Kernel M → Reply M
  sys_settickets me k = elim (int_arg me k 0) [
    | none ↦ returns minus_one k
    | some tix ↦
        let k' = write k me (λ p. record p { tickets = tix }) in returns (deref k' me).tickets k'
  ]
