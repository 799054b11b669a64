-- ===== src/Proc/Wakeups/Steps.antt =====
-- No step of the kernel of hw3/proc.c lets a parent miss the end of a child.
use nyu_operating_systems.Base.{ℕ, ◌≡◌, ◌≢◌, refl, Bool}
use nyu_operating_systems.Proc.State.{running, Chan, Kernel, Externals}
use nyu_operating_systems.Proc.Lottery.{
  run, scheduler_round, scheduler_return, dispatch, scheduler_round-run, scheduler_round-idles,
}
use nyu_operating_systems.Proc.Valid.Steps.{
  Step, forks, reaps, waits_on, yields, sleeps, exits, sets_tickets, kills, wakes, others, elects,
  idles, Reach, start, later, Inv, Reach-Inv,
}
use nyu_operating_systems.Proc.Wakeups.{Calm-state, Served-modify}
use nyu_operating_systems.Proc.Wakeups.Calls.{
  IsServed, stop-Served, fork-IsServed, wait-IsServed, wait_on-IsServed, yield-IsServed,
  sleep-IsServed, kill-IsServed, wakeup-IsServed, exit-IsServed,
}

module _ {M : Type 0} (x : Externals M) where
  -- Code outside proc.c sleeps on other channels than processes.
  abbrev pub SleepsElsewhere : {k l : Kernel M} → Step x k l → Type 0
  SleepsElsewhere (sleeps me n c lk e s) = (j : ℕ) → c ≢ Chan.slot j
  SleepsElsewhere _ = Unit

  abbrev pub AllElsewhere : {k l : Kernel M} → Reach x k l → Type 0
  AllElsewhere start = Unit
  AllElsewhere (later r s) = AllElsewhere r × SleepsElsewhere s

  elects-IsServed :
      (k l : Kernel M) (f : Bool) (j : ℕ)
      → scheduler_round x f k ≡ run j l
      → IsServed k
      → IsServed l
  unfolding dispatch
  elects-IsServed k l f j e s =
      let (w, m, d, same) = scheduler_round-run x f k l j e in
      rw same (
        stop-Served x k.initproc k.ptable j (λ p. record p { state = running }) s (λ p. refl)
          (λ p (asleep, c). cc) (λ p. refl))

  Step-IsServed :
      {k l : Kernel M} (t : Step x k l) → SleepsElsewhere t → Inv x k → IsServed k → IsServed l
  unfolding scheduler_return
  Step-IsServed {k} (forks me e room) h v s = fork-IsServed x me k v.valid (v.busy me e) s
  Step-IsServed {k} (reaps me w {k' = l} e t) h v s = wait-IsServed x me w k l t s
  Step-IsServed {k} (waits_on me n {k' = l} e t) h v s = wait_on-IsServed x me n k l t s
  Step-IsServed {k} (yields me n {k' = l} e t) h v s = yield-IsServed x me n k l t s
  Step-IsServed {k} (sleeps me n c lk {k' = l} e t) h v s =
      sleep-IsServed x me n c lk k l (h me) t s
  Step-IsServed {k} (exits me n {k' = l} e t) h v s = exit-IsServed x me n k l (v.busy me e) t s
  Step-IsServed {k} (sets_tickets me tix e) h v s =
      Served-modify k.initproc k.ptable me (λ p. record p { tickets = tix }) s
        (λ p at. Calm-state k.initproc me p _ refl (λ w. w) (λ z. z))
  Step-IsServed {k} (kills pid) h v s = kill-IsServed x pid k s
  Step-IsServed {k} (wakes c) h v s = wakeup-IsServed x c k s
  Step-IsServed {k} (others m) h v s = s
  Step-IsServed {k} (elects f j {k' = l} e t) h v s = elects-IsServed k l f j t s
  Step-IsServed {k} (idles f {k' = l} e t) h v s =
      let (m, same) = scheduler_round-idles x f k l t in rw same s

  pub Reach-IsServed :
      {k l : Kernel M} (r : Reach x k l) → AllElsewhere r → Inv x k → IsServed k → IsServed l
  Reach-IsServed start h v s = s
  Reach-IsServed (later r t) (h, g) v s =
      Step-IsServed t g (Reach-Inv x r v) (Reach-IsServed r h v s)
