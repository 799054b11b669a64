-- ===== src/Proc/Life/Calls.antt =====
-- Where each operation of hw3/proc.c moves the processes of the table.
use nyu_operating_systems.Base.{
  ℕ, ◌+◌, ◌^◌, ◌<◌, ◌≤◌, ◌≡◌, refl, true, List, some, arith, get_elem?, length, modify, Bool-cases,
  Option-cases, inl, inr, ap, ◌∙◌,
}
use nyu_operating_systems.Proc.State.{
  unused, sleeping, runnable, running, zombie, is_runnable, same_proc, chan_of, Chan, Lock,
  ptable_lock, Proc, Kernel, Externals, deref,
}
use nyu_operating_systems.Proc.Alloc.{fork}
use nyu_operating_systems.Proc.Sched.{
  switched, wake, wakeup1, wakeup, mark_killed, kill, find_pid, sched, yield, sleep, sleep_on,
}
use nyu_operating_systems.Proc.Exit.{
  clear_proc, returned, waits, wait, exit, exit_table, exit_files, abandon_children,
}
use nyu_operating_systems.Proc.Lottery.{dispatch}
use nyu_operating_systems.Proc.Valid.Wake.{RunsAt, sched-switched}
use nyu_operating_systems.Proc.Valid.Fill.{find_unused_lem}
use nyu_operating_systems.Proc.Life.Forked.{fork-Forked}
use nyu_operating_systems.Proc.Valid.Leave.Pass.{
  modify-Passed, Passed-trans, wakeup1-Passed, abandon_children-Passed,
}
use nyu_operating_systems.Proc.Valid.Reap.{wait-sleep_on, wait-Returns}
use nyu_operating_systems.Proc.Life.{
  Moves, Moved, Moved-refl, Moved-modify, Moved-map, Moved-ended, Wakes-Moves, given_up, born,
  elected, preempted, slept, reaped,
}

-- A kernel and a later one: the processes have moved, and pids are not taken back.
abbrev pub AdvancesTo : {M : Type 0} → Kernel M → List Proc → ℕ → Type 0
AdvancesTo k t nextpid = Moved k.nextpid k.ptable t × (k.nextpid ≤ nextpid)

abbrev pub Advances : {M : Type 0} → Kernel M → Kernel M → Type 0
Advances k l = AdvancesTo k l.ptable l.nextpid

wake-Moves : (n : ℕ) (c : Chan) (p : Proc) → Moves n p (wake c p)
unfolding wake
wake-Moves n c p = Wakes-Moves n p (wake c p) (ground arith) (ground arith)

mark_killed-Moves : (n : ℕ) (p : Proc) → Moves n p (mark_killed p)
unfolding mark_killed
mark_killed-Moves n p = Wakes-Moves n p (mark_killed p) (ground arith) (ground arith)

module _ {M : Type 0} (x : Externals M) where
  pub fork-Advances : (me : ℕ) (k : Kernel M) → k.nextpid + 1 < 2 ^ 32 → Advances k (fork x me k).1
  fork-Advances me k room = elim (fork-Forked x me k) [
    | inl (table, pids, inits) ↦ rw table (Moved-refl k.nextpid k.ptable, omega arith)
    | inr (i, f, e, table, pids, inits, facts) ↦
        let (p, h, u) = find_unused_lem k.ptable i e in
        let was : p.state ≡ unused = ground arith in
        (
          rw table (
              Moved-modify k.nextpid k.ptable i f (λ q at.
                let same : q ≡ p = cc in
                let free : q.state ≡ unused = ap (λ z. z.state) same ∙ was in
                elim (facts q) [
                  | inl (none_made, up) ↦ given_up free none_made
                  | inr (ready, named, up) ↦ born free ready named
                ])),
          omega arith,
        )
  ]

  pub wait-Advances : (me w : ℕ) (k l : Kernel M) → wait x me k ≡ returned w l → Advances k l
  unfolding clear_proc
  wait-Advances me w k l e = elim (wait-Returns x k me w l e) [
    | inl (none_found, same, pids, inits) ↦ rw same (Moved-refl k.nextpid k.ptable, omega arith)
    | inr (i, p, r) ↦ rw r.table (
      Moved-modify k.nextpid k.ptable i clear_proc
          (λ q at. let here : q ≡ p = cc r.at in reaped (ground (arith, r.dead)) refl),
      omega (arith, r.pids),
    )
  ]

  -- The CPU's process gives it up.
  stop-Advances :
      {t : List Proc} {n : ℕ} (k : Kernel M) (me : ℕ) (f : Proc → Proc)
      → RunsAt k me
      → t ≡ modify k.ptable me f
      → n ≡ k.nextpid
      → ((p : Proc) → p.state ≡ running → Moves k.nextpid p (f p))
      → AdvancesTo k t n
  stop-Advances k me f (p, h, r) table pids goes = (
    rw table (
        Moved-modify k.nextpid k.ptable me f
          (λ q at. let same : q ≡ p = cc in goes q (ground arith))),
    omega arith,
  )

  pub yield-Advances :
      (k l : Kernel M) (me n : ℕ) → RunsAt k me → yield x me k ≡ switched n l → Advances k l
  unfolding yield
  yield-Advances k l me n run e = rw (sched-switched x _ me n l e) (
      stop-Advances k me (λ p. record p { state = runnable }) run refl refl
        (λ p on. preempted on refl refl))

  pub sleep_on-Advances :
      (k l : Kernel M) (me n : ℕ) (c : Chan) (lk : Lock)
      → RunsAt k me
      → sleep_on x me c lk k ≡ switched n l
      → Advances k l
  unfolding sleep_on
  sleep_on-Advances k l me n c lk run e = rw (sched-switched x _ me n l e) (
      stop-Advances k me (λ p. record p { chan = c; state = sleeping }) run refl refl
        (λ p on. slept on refl refl))

  pub wakeup-Advances : (k : Kernel M) (c : Chan) → Advances k (wakeup x c k)
  unfolding wakeup wakeup1
  wakeup-Advances k c =
      (Moved-map k.nextpid k.ptable (wake c) (wake-Moves k.nextpid c), omega arith)

  pub kill-Advances : (k : Kernel M) (pid : ℕ) → Advances k (kill x pid k).1
  unfolding kill
  kill-Advances k pid = elim (Option-cases (find_pid pid k.ptable)) [
    | inl n ↦ rw (kill, n) (Moved-refl k.nextpid k.ptable, omega arith)
    | inr (i, e) ↦
        rw (kill, e)
          (
            Moved-modify k.nextpid k.ptable i mark_killed (λ p at. mark_killed-Moves k.nextpid p),
            omega arith,
          )
  ]

  pub dispatch-Advances :
      (k : Kernel M) (j : ℕ) (p : Proc)
      → get_elem? k.ptable j ≡ some p
      → is_runnable p.state ≡ true
      → Advances k (dispatch x j k)
  unfolding dispatch
  dispatch-Advances k j p h r = (
    Moved-modify k.nextpid k.ptable j (λ q. record q { state = running })
        (λ q at. let same : q ≡ p = cc in elected (ground arith) refl refl),
    omega arith,
  )

  pub wait_on-Advances :
      (k l : Kernel M) (me n : ℕ) → RunsAt k me → wait x me k ≡ waits (switched n l) → Advances k l
  wait_on-Advances k l me n run e =
      sleep_on-Advances (record k { mach = x.acquire ptable_lock k.mach }) l me n (Chan.slot me)
        ptable_lock run (wait-sleep_on x k me n l e)

  pub sleep-Advances :
      (k l : Kernel M) (me n : ℕ) (c : Chan) (lk : Lock)
      → RunsAt k me
      → sleep x (some me) c lk k ≡ switched n l
      → Advances k l
  unfolding sleep
  sleep-Advances k l me n c Lock.null run e = cc
  sleep-Advances k l me n c ptable_lock run e = sleep_on-Advances k l me n c ptable_lock run e
  sleep-Advances k l me n c (Lock.other a) run e = sleep_on-Advances k l me n c (Lock.other a) run e

  pub exit-Advances :
      (k l : Kernel M) (me n : ℕ) → RunsAt k me → exit x me k ≡ switched n l → Advances k l
  unfolding exit exit_table exit_files
  exit-Advances k l me n (p, h, r) e = elim (Bool-cases (same_proc (some me) k.initproc)) [
    | inl i ↦ absurd (ground arith)
    | inr i ↦
        let files = exit_files x me k in
        let woken = wakeup1 (chan_of (deref files me).parent) files.ptable in
        let e' : sched x me (exit_table x me files) ≡ switched n l = rw (exit, i) at e in
        rw (sched-switched x _ me n l e') (
          Moved-ended k.nextpid k.ptable (abandon_children me k.initproc (length woken) 0 woken) me
              k.initproc (λ q. record q { state = zombie })
              (Passed-trans me k.initproc
                (modify-Passed me k.initproc k.ptable me _
                  (λ q at. (refl, refl, refl, refl, inl refl, (inl refl, refl))))
                (Passed-trans me k.initproc
                  (wakeup1-Passed me k.initproc (chan_of (deref files me).parent) files.ptable)
                  (abandon_children-Passed me k.initproc (length woken) 0 woken)))
              (λ q at. let same : q ≡ p = cc in ground arith) (λ q. (refl, refl)),
          omega arith,
        )
  ]
