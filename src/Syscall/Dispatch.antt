-- ===== src/Syscall/Dispatch.antt =====
-- hw3/syscall.c: the table of handlers and syscall.
use nyu_operating_systems.Base.{
  ℕ, ◌&&◌, Option, none, some, List, [], ◌∷◌, length, get_or, if◌then◌else◌,
}
use nyu_operating_systems.Base.Words.{minus_one, int_lt}
use nyu_operating_systems.Proc.State.{Kernel, Externals, deref, store}
use nyu_operating_systems.Syscall.Handlers.{
  Reply, returns, leaves, System, sys_fork, sys_exit, sys_wait, sys_kill, sys_getpid, sys_sbrk,
  sys_sleep, sys_uptime, sys_gettime, sys_settickets,
}

module _ {M : Type 0} (x : Externals M) (s : System M) where
  abbrev pub Handler : Type 0
  Handler = Kernel M → Reply M

  -- syscalls[]: its place 0 is null.
  unfoldable pub syscalls : ℕ → List (Option Handler)
  syscalls me =
      none
      ∷ some (sys_fork x s me)
      ∷ some (sys_exit x s me)
      ∷ some (sys_wait x s me)
      ∷ some (s.sysfile 4)
      ∷ some (s.sysfile 5)
      ∷ some (sys_kill x s me)
      ∷ some (s.sysfile 7)
      ∷ some (s.sysfile 8)
      ∷ some (s.sysfile 9)
      ∷ some (s.sysfile 10)
      ∷ some (sys_getpid x s me)
      ∷ some (sys_sbrk x s me)
      ∷ some (sys_sleep x s me)
      ∷ some (sys_uptime x s)
      ∷ some (s.sysfile 15)
      ∷ some (s.sysfile 16)
      ∷ some (s.sysfile 17)
      ∷ some (s.sysfile 18)
      ∷ some (s.sysfile 19)
      ∷ some (s.sysfile 20)
      ∷ some (s.sysfile 21)
      ∷ some (sys_gettime x s me)
      ∷ some (sys_settickets x s me)
      ∷ []

  -- proc->tf->eax = v
  abbrev pub set_eax : ℕ → ℕ → Kernel M → Kernel M
  set_eax me v k =
      let tf = (deref k me).tf in
      record k { trapframes = store k.trapframes tf (record (k.trapframes tf) { eax = v }) }

  abbrev pub finish : ℕ → Reply M → Reply M
  finish me (returns v k) = returns v (set_eax me v k)
  finish me (leaves o) = leaves o

  -- The call of the handler; a null one is an unknown call, and the message goes to the console.
  abbrev pub call_handler : ℕ → Option Handler → Kernel M → Reply M
  call_handler me none k = returns minus_one (set_eax me minus_one k)
  call_handler me (some h) k = finish me (h k)

  unfoldable pub syscall : ℕ → Kernel M → Reply M
  unfolding syscalls
  syscall me k =
      let num = (k.trapframes (deref k me).tf).eax in
      let table = syscalls me in
      call_handler me
        (if int_lt 0 num && int_lt num (length table) then get_or table num none else none) k
