-- ===== src/Syscall/Replies.antt =====
-- What hw3/syscall.c and hw3/sysproc.c answer: to an unknown number, to settickets, and in sleep.
use nyu_operating_systems.Base.{
  inl, inr, true, Bool-cases, ltb, leb, ◌==◌, if◌then◌else◌, ℕ, ◌^◌, ◌<◌, ◌≤◌, ◌≡◌, ◌⊎◌, refl,
  false, some, arith, get_elem?, get_or-get_elem?, ap, get_elem?-modify_self, ◌&&◌,
}
use nyu_operating_systems.Base.Words.{minus_one, int_lt, add32, sub32}
use nyu_operating_systems.Proc.State.{Chan, Lock, Proc, Kernel, Externals, deref, write, zero_proc}
use nyu_operating_systems.Syscall.Handlers.{
  leaves, sleep_round, returns, System, int_arg, sys_settickets,
}
use nyu_operating_systems.Proc.Sched.{sleep}
use nyu_operating_systems.Syscall.Dispatch.{syscalls, set_eax, syscall}

module _ {M : Type 0} (x : Externals M) (s : System M) (me : ℕ) (k : Kernel M) where
  out_of_table :
      (num : ℕ) → (num ≡ 0) ⊎ (24 ≤ num) → num < 2 ^ 32 → int_lt 0 num && int_lt num 24 ≡ false
  out_of_table num o word = ground arith

  -- A number that is 0, past the table, or negative as an int gets -1 in eax, and nothing else
  -- of the kernel changes.
  pub syscall-unknown :
      (num : ℕ)
      → (k.trapframes (deref k me).tf).eax ≡ num
      → (num ≡ 0) ⊎ (24 ≤ num)
      → num < 2 ^ 32
      → syscall x s me k ≡ returns minus_one (set_eax x s me minus_one k)
  unfolding syscall syscalls
  syscall-unknown num at o word = rw (at, out_of_table num o word) refl

  -- settickets with a readable argument makes it the caller's tickets, whatever its sign, answers
  -- it in eax and changes nothing else.
  pub syscall-settickets :
      (p : Proc) (tix : ℕ)
      → get_elem? k.ptable me ≡ some p
      → (k.trapframes (deref k me).tf).eax ≡ 23
      → int_arg x s me k 0 ≡ some tix
      → syscall x s me k
        ≡ returns tix (set_eax x s me tix (write k me (λ q. record q { tickets = tix })))
  unfolding syscall syscalls sys_settickets
  syscall-settickets p tix here num got =
      let after : (deref (write k me (λ q. record q { tickets = tix })) me).tickets ≡ tix =
        ap (λ q. q.tickets)
          (get_or-get_elem? (write k me (λ q. record q { tickets = tix })).ptable me zero_proc _
            (get_elem?-modify_self k.ptable me (λ q. record q { tickets = tix }) here)) in
      rw (num, sys_settickets, got, after) refl

sub32-add32 : (t d : ℕ) → t < 2 ^ 32 → d < 2 ^ 32 → sub32 (add32 t d) t ≡ d
sub32-add32 t d ht hd = omega arith

module _ {M : Type 0} (x : Externals M) (s : System M) (me : ℕ) (k : Kernel M) where
  -- A round of sys_sleep that started d ticks ago, at the count ticks0, ends the call with 0 if d is
  -- at least n, also when the count of ticks has wrapped since; otherwise it ends it with -1 if
  -- the process is killed, and sleeps on the address of ticks if not.
  pub sleep_round-elapsed :
      (ticks0 n d : ℕ)
      → ticks0 < 2 ^ 32
      → d < 2 ^ 32
      → s.ticks k.mach ≡ add32 ticks0 d
      → let free = record k { mach = x.release (Lock.other s.tickslock) k.mach } in
        sleep_round x s me ticks0 n k ≡ (
          if leb n d
          then returns 0 free
          else (if (deref k me).killed == 0
              then leaves (sleep x (some me) (Chan.addr s.ticks_addr) (Lock.other s.tickslock) k)
              else returns minus_one free))
  unfolding sleep_round
  sleep_round-elapsed ticks0 n d small_start small_d now = elim (Bool-cases (leb n d)) [
    | inl over ↦
        let late : ltb d n ≡ false = ground arith in
        rw (now, sub32-add32 ticks0 d small_start small_d, late, over) refl
    | inr early ↦
        let soon : ltb d n ≡ true = ground arith in
        rw (now, sub32-add32 ticks0 d small_start small_d, soon, early) refl
  ]
