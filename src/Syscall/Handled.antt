-- ===== src/Syscall/Handled.antt =====
-- Every handler of hw3/sysproc.c keeps the invariant of the process table.
use nyu_operating_systems.Base.{
  ℕ, ◌+◌, ◌^◌, ◌<◌, ◌==◌, ◌≡◌, refl, some, ◌||◌, ◌&&◌, Bool-cases, Option-cases, inl, inr, ltb,
  get_elem?-modify_self,
}
use nyu_operating_systems.Base.Words.{sub32, int_lt}
use nyu_operating_systems.Proc.State.{Chan, Lock, Proc, Kernel, Externals, deref, write}
use nyu_operating_systems.Proc.Alloc.{grow_memory, resize, growproc}
use nyu_operating_systems.Proc.Sched.{Outcome, switched, panic, sleep}
use nyu_operating_systems.Proc.Exit.{Waited, returned, waits, exit, wait}
use nyu_operating_systems.Proc.Lottery.{scheduler_return}
use nyu_operating_systems.Proc.Valid.{modify-IsValid}
use nyu_operating_systems.Proc.Valid.Steps.{
  Inv, Step-Inv, forks, reaps, waits_on, sleeps, exits, sets_tickets, kills, others, Inv-runs,
}
use nyu_operating_systems.Syscall.Handlers.{
  Reply, returns, leaves, System, of_wait, int_arg, ptr_arg, grown, sys_fork, sys_exit, sys_wait,
  sys_kill, sys_sbrk, sleep_round, sys_sleep, sys_gettime, sys_settickets,
}

module _ {M : Type 0} (x : Externals M) (s : System M) where
  -- The invariant at the end of a call: at its return, or where the scheduler goes on.
  abbrev pub Settled : Reply M → Type 0
  Settled (returns v l) = Inv x l
  Settled (leaves (switched n l)) = Inv x (scheduler_return x l)
  Settled (leaves (panic c)) = Unit

  -- The kernel as it is when the process `me` calls: a valid one that it runs on, with a pid left.
  pub record Calls (me : ℕ) (k : Kernel M) : Type 0 where
    pub inv : Inv x k
    pub runs : k.proc ≡ some me
    pub room : k.nextpid + 1 < 2 ^ 32

  pub leaves-Settled :
      (o : Outcome M)
      → ((n : ℕ) (l : Kernel M) → o ≡ switched n l → Inv x (scheduler_return x l))
      → Settled (leaves o)
  leaves-Settled (switched n l) h = h n l refl
  leaves-Settled (panic c) h = tt

  of_wait-Settled :
      (w : Waited M)
      → ((pid : ℕ) (l : Kernel M) → w ≡ returned pid l → Inv x l)
      → ((n : ℕ) (l : Kernel M) → w ≡ waits (switched n l) → Inv x (scheduler_return x l))
      → Settled (of_wait x s w)
  of_wait-Settled (returned pid l) h g = h pid l refl
  of_wait-Settled (waits (switched n l)) h g = g n l refl
  of_wait-Settled (waits (panic c)) h g = tt

  pub sys_fork-Settled : (me : ℕ) (k : Kernel M) → Calls me k → Settled (sys_fork x s me k)
  unfolding sys_fork
  sys_fork-Settled me k c = Step-Inv x (forks me c.runs c.room) c.inv

  pub sys_exit-Settled : (me : ℕ) (k : Kernel M) → Calls me k → Settled (sys_exit x s me k)
  unfolding sys_exit
  sys_exit-Settled me k c =
      leaves-Settled (exit x me k) (λ n l e. Step-Inv x (exits me n c.runs e) c.inv)

  pub sys_wait-Settled : (me : ℕ) (k : Kernel M) → Calls me k → Settled (sys_wait x s me k)
  unfolding sys_wait
  sys_wait-Settled me k c =
      of_wait-Settled (wait x me k) (λ pid l e. Step-Inv x (reaps me pid c.runs e) c.inv)
        (λ n l e. Step-Inv x (waits_on me n c.runs e) c.inv)

  pub sys_kill-Settled : (me : ℕ) (k : Kernel M) → Calls me k → Settled (sys_kill x s me k)
  unfolding sys_kill
  sys_kill-Settled me k c = elim (Option-cases (int_arg x s me k 0)) [
    | inl bad ↦ rw (sys_kill, bad) c.inv
    | inr (pid, got) ↦ rw (sys_kill, got) (Step-Inv x (kills pid) c.inv)
  ]

  pub sys_settickets-Settled :
      (me : ℕ) (k : Kernel M) → Calls me k → Settled (sys_settickets x s me k)
  unfolding sys_settickets
  sys_settickets-Settled me k c = elim (Option-cases (int_arg x s me k 0)) [
    | inl bad ↦ rw (sys_settickets, bad) c.inv
    | inr (tix, got) ↦ rw (sys_settickets, got) (Step-Inv x (sets_tickets me tix c.runs) c.inv)
  ]

  pub sys_gettime-Settled : (me : ℕ) (k : Kernel M) → Calls me k → Settled (sys_gettime x s me k)
  unfolding sys_gettime
  sys_gettime-Settled me k c = elim (Option-cases (ptr_arg x s me k 0 s.rtcdate_size)) [
    | inl bad ↦ rw (sys_gettime, bad) c.inv
    | inr (d, got) ↦ rw (sys_gettime, got) (Step-Inv x (others (s.cmostime d k.mach)) c.inv)
  ]

  sleep_round-Settled :
      (me ticks0 n : ℕ) (k : Kernel M) → Calls me k → Settled (sleep_round x s me ticks0 n k)
  unfolding sleep_round
  sleep_round-Settled me ticks0 n k c =
      let free = Step-Inv x (others (x.release (Lock.other s.tickslock) k.mach)) c.inv in
      elim (Bool-cases (ltb (sub32 (s.ticks k.mach) ticks0) n)) [
        | inl early ↦ elim (Bool-cases ((deref k me).killed == 0)) [
          | inl on ↦
              rw (early, on)
                (leaves-Settled
                  (sleep x (some me) (Chan.addr s.ticks_addr) (Lock.other s.tickslock) k)
                  (λ saved l e.
                    Step-Inv x
                      (sleeps me saved (Chan.addr s.ticks_addr) (Lock.other s.tickslock) c.runs e)
                      c.inv))
          | inr dead ↦ rw (early, dead) free
        ]
        | inr over ↦ rw over free
      ]

  pub sys_sleep-Settled : (me : ℕ) (k : Kernel M) → Calls me k → Settled (sys_sleep x s me k)
  unfolding sys_sleep
  sys_sleep-Settled me k c = elim (Option-cases (int_arg x s me k 0)) [
    | inl bad ↦ rw (sys_sleep, bad) c.inv
    | inr (n, got) ↦
        let m = x.acquire (Lock.other s.tickslock) k.mach in
        rw (sys_sleep, got)
          (sleep_round-Settled me (s.ticks m) n (record k { mach = m })
            (record { inv = Step-Inv x (others m) c.inv; runs = c.runs; room = c.room }))
  ]

  resize-Inv : (me n : ℕ) (k : Kernel M) (r : ℕ × M) → Calls me k → Inv x (resize x me n k r).1
  unfolding resize
  resize-Inv me n k (sz, m) c =
      let (p, h, on) = c.inv.busy me c.runs in
      elim (Bool-cases ((int_lt 0 n || int_lt n 0) && sz == 0)) [
        | inl bad ↦ rw bad (Step-Inv x (others m) c.inv)
        | inr good ↦
            let grow : Proc → Proc = λ q. record q { sz = sz } in
            let k' = record (write k me grow) { mach = m } in
            rw good (
              Inv-runs x (record k' { mach = x.switchuvm (deref k' me) m }) me
                (modify-IsValid k.proc me grow (λ q i. (refl, refl, refl, refl))
                  (λ q i run. c.inv.valid.sole me q i run) c.inv.valid.sole c.inv.valid)
                (grow p, get_elem?-modify_self k.ptable me grow h, on))
      ]

  grown-Settled : (addr : ℕ) (r : ℕ × Kernel M) → Inv x r.1 → Settled (grown x s addr r)
  grown-Settled addr (r, l) v = elim (Bool-cases (int_lt r 0)) [
    | inl bad ↦ rw bad v
    | inr good ↦ rw good v
  ]

  pub sys_sbrk-Settled : (me : ℕ) (k : Kernel M) → Calls me k → Settled (sys_sbrk x s me k)
  unfolding sys_sbrk growproc
  sys_sbrk-Settled me k c = elim (Option-cases (int_arg x s me k 0)) [
    | inl bad ↦ rw (sys_sbrk, bad) c.inv
    | inr (n, got) ↦
        rw (sys_sbrk, got)
          (grown-Settled (deref k me).sz (growproc x me n k)
            (resize-Inv me n k (grow_memory x me n k) c))
  ]
