-- ===== src/Proc/Life/Steps.antt =====
-- The life of a process over the steps of the kernel of hw3/proc.c.
use nyu_operating_systems.Base.{ℕ, ◌<◌, ◌≤◌, ◌≡◌, refl, Bool, false, some, arith, get_elem?, ◌∙◌}
use nyu_operating_systems.Proc.State.{is_unused, Proc, Kernel, Externals}
use nyu_operating_systems.Proc.Lottery.{
  run, scheduler_round, scheduler_return, scheduler_round-run, scheduler_round-idles,
}
use nyu_operating_systems.Proc.Lottery.Winner.{draw-runnable}
use nyu_operating_systems.Proc.Valid.Steps.{
  Step, forks, reaps, waits_on, yields, sleeps, exits, sets_tickets, kills, wakes, others, elects,
  idles, Reach, start, later, Inv, Reach-Inv,
}
use nyu_operating_systems.Proc.Life.{
  Moves, Moved, Moved-refl, Moved-modify, stays, given_up, born, elected, preempted, slept, woken,
  ended, reaped,
}
use nyu_operating_systems.Proc.Life.Calls.{
  Advances, fork-Advances, wait-Advances, yield-Advances, sleep-Advances, wait_on-Advances,
  wakeup-Advances, kill-Advances, dispatch-Advances, exit-Advances,
}

-- A used slot with an old pid was used before, by the process with this pid.
Moves-old :
    (n : ℕ) (p q : Proc)
    → Moves n p q
    → is_unused q.state ≡ false
    → q.pid < n
    → (is_unused p.state ≡ false) × (p.pid ≡ q.pid)
Moves-old n p q (stays a b) u old = ground arith
Moves-old n p q (given_up a b) u old = ground arith
Moves-old n p q (born a b c) u old = absurd (omega arith)
Moves-old n p q (elected a b c) u old = ground arith
Moves-old n p q (preempted a b c) u old = ground arith
Moves-old n p q (slept a b c) u old = ground arith
Moves-old n p q (woken a b c) u old = ground arith
Moves-old n p q (ended a b c) u old = ground arith
Moves-old n p q (reaped a b) u old = ground arith

module _ {M : Type 0} (x : Externals M) where
  elects-Advances :
      (k l : Kernel M) (f : Bool) (j : ℕ) → scheduler_round x f k ≡ run j l → Advances k l
  elects-Advances k l f j s =
      let (w, m, d, same) = scheduler_round-run x f k l j s in
      let (p, h, r) = draw-runnable 0 w j k.ptable d in
      rw same (dispatch-Advances x (record k { mach = m }) j p h r)

  Step-Advances : {k l : Kernel M} → Step x k l → Inv x k → Advances k l
  unfolding scheduler_return
  Step-Advances {k} (forks me e room) v = fork-Advances x me k room
  Step-Advances {k} (reaps me w {k' = l} e s) v = wait-Advances x me w k l s
  Step-Advances {k} (waits_on me n {k' = l} e s) v = wait_on-Advances x k l me n (v.busy me e) s
  Step-Advances {k} (yields me n {k' = l} e s) v = yield-Advances x k l me n (v.busy me e) s
  Step-Advances {k} (sleeps me n c lk {k' = l} e s) v =
      sleep-Advances x k l me n c lk (v.busy me e) s
  Step-Advances {k} (exits me n {k' = l} e s) v = exit-Advances x k l me n (v.busy me e) s
  Step-Advances {k} (sets_tickets me tix e) v = (
    Moved-modify k.nextpid k.ptable me (λ p. record p { tickets = tix }) (λ p at. stays refl refl),
    omega arith,
  )
  Step-Advances {k} (kills pid) v = kill-Advances x k pid
  Step-Advances {k} (wakes c) v = wakeup-Advances x k c
  Step-Advances {k} (others m) v = (Moved-refl k.nextpid k.ptable, omega arith)
  Step-Advances {k} (elects f j {k' = l} e s) v = elects-Advances k l f j s
  Step-Advances {k} (idles f {k' = l} e s) v =
      let (m, same) = scheduler_round-idles x f k l s in
      rw same (Moved-refl k.nextpid k.ptable, omega arith)

  -- In a kernel where the invariant of the table holds, every step of the kernel moves each slot
  -- as `Moves` says, and no slot comes or goes: an unused slot stays unused or gets a child,
  -- RUNNABLE and with the next pid; a RUNNABLE process is elected; a RUNNING one is preempted, goes
  -- to sleep or becomes a ZOMBIE; a SLEEPING one wakes; a ZOMBIE is reaped; and all of these keep
  -- the pid, but the last.
  pub Step-Moved : {k l : Kernel M} → Step x k l → Inv x k → Moved k.nextpid k.ptable l.ptable
  Step-Moved s v = (Step-Advances s v).0

  -- A used slot of the later kernel with a pid that the earlier one had given out.
  abbrev pub IsOld : Kernel M → ℕ → ℕ → Type 0
  IsOld k j pid =
      (p : Proc) × (get_elem? k.ptable j ≡ some p) × (is_unused p.state ≡ false) × (p.pid ≡ pid)

  Reach-nextpid : {k l : Kernel M} → Reach x k l → Inv x k → k.nextpid ≤ l.nextpid
  Reach-nextpid start v = omega arith
  Reach-nextpid (later r s) v =
      omega (arith, Reach-nextpid r v, (Step-Advances s (Reach-Inv x r v)).1)

  -- From a kernel where the invariant of the table holds, no pid is given out again: in every kernel
  -- that is reached, a used slot whose pid is below the earlier nextpid was used in the earlier
  -- kernel too, by the process with that pid.
  pub pid-IsOld :
      {k l : Kernel M} (j : ℕ) (q : Proc)
      → Reach x k l
      → Inv x k
      → get_elem? l.ptable j ≡ some q
      → is_unused q.state ≡ false
      → q.pid < k.nextpid
      → IsOld k j q.pid
  pid-IsOld j q start v h used old = (q, h, used, refl)
  pid-IsOld {k} j q (later {k' = l} r s) v h used old =
      let (p, at, goes) = (Step-Moved s (Reach-Inv x r v)).back j q h in
      let more = Reach-nextpid r v in
      let (was, same) = Moves-old l.nextpid p q goes used (omega arith) in
      let (o, there, alive, named) = pid-IsOld j p r v at was (omega arith) in
      (o, there, alive, named ∙ same)
