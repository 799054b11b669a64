-- ===== src/Proc/Valid/Wake.antt =====
-- The operations of hw3/proc.c that only change who sleeps, waits for the CPU or runs keep the
-- invariant of the table.
use nyu_operating_systems.Base.{
  ℕ, ◌≡◌, refl, true, false, List, Option, some, arith, get_elem?, modify, get_elem?-modify,
  get_elem?-map, Bool-cases, Option-cases, inl, inr,
}
use nyu_operating_systems.Proc.State.{
  sleeping, runnable, running, is_running, is_runnable, Chan, Lock, Proc, Kernel, Externals,
}
use nyu_operating_systems.Proc.Sched.{
  switched, wake, wakeup1, wakeup, mark_killed, kill, find_pid, sched, yield, sleep,
}
use nyu_operating_systems.Proc.Lottery.{dispatch}
use nyu_operating_systems.Proc.Valid.{
  IsValid, Valid, Same, SameTable, SameTable-map, SameTable-IsValid, modify-IsValid,
}

-- The current process is RUNNING.
abbrev pub RunsAt : {M : Type 0} → Kernel M → ℕ → Type 0
RunsAt k i = (p : Proc) × (get_elem? k.ptable i ≡ some p) × (is_running p.state ≡ true)

-- No process is RUNNING.
abbrev pub IsParked : {M : Type 0} → Kernel M → Type 0
IsParked k = (i : ℕ) (p : Proc) → get_elem? k.ptable i ≡ some p → is_running p.state ≡ false

wake-Same : (c : Chan) (p : Proc) → Same p (wake c p)
unfolding wake
wake-Same c p = ground arith

pub wake-running : (c : Chan) (p : Proc) → is_running (wake c p).state ≡ is_running p.state
unfolding wake
wake-running c p = ground arith

wakeup1-SameTable : (c : Chan) (t : List Proc) → SameTable t (wakeup1 c t)
unfolding wakeup1
wakeup1-SameTable c t = SameTable-map t (wake c) (wake-Same c)

mark_killed-Same : (p : Proc) → Same p (mark_killed p)
unfolding mark_killed
mark_killed-Same p = ground arith

module _ {M : Type 0} (x : Externals M) (k : Kernel M) where
  pub wakeup-Valid : (c : Chan) → Valid k → Valid (wakeup x c k)
  unfolding wakeup wakeup1
  wakeup-Valid c v =
      SameTable-IsValid (wakeup1-SameTable c k.ptable)
        (λ i q e r. elim (Option-cases (get_elem? k.ptable i)) [
          | inl n ↦ absurd (ground (arith, get_elem?-map (wake c) k.ptable i))
          | inr (p, h) ↦
              v.sole i p h (ground (arith, get_elem?-map (wake c) k.ptable i, wake-running c p))
        ])
        v

  pub kill-Valid : (pid : ℕ) → Valid k → Valid (kill x pid k).1
  unfolding kill
  kill-Valid pid v = elim (Option-cases (find_pid pid k.ptable)) [
    | inl n ↦ rw (kill, n) v
    | inr (i, e) ↦
        rw (kill, e)
          (modify-IsValid k.proc i mark_killed (λ p h. mark_killed-Same p)
            (λ p h r. v.sole i p h (unfold mark_killed in ground arith)) v.sole v)
  ]

  -- sched switches in the state that it is called in.
  pub sched-switched : (me n : ℕ) (k' : Kernel M) → sched x me k ≡ switched n k' → k' ≡ k
  unfolding sched
  sched-switched me n k' e = ground arith

-- The current process stops running: it goes to a state in which it can still wait.
module _ {t : List Proc} {pids : ℕ} {proc init : Option ℕ} (me : ℕ) (f : Proc → Proc)
    (same : (p : Proc)
      → is_running p.state ≡ true
      → Same p (f p) × (is_running (f p).state ≡ false))
    (v : IsValid t pids proc init) (p : Proc) (h : get_elem? t me ≡ some p)
    (r : is_running p.state ≡ true) where
  pub stop-IsValid : IsValid (modify t me f) pids proc init
  stop-IsValid =
      modify-IsValid proc me f
        (λ q e. let rq : is_running q.state ≡ true = ground arith in (same q rq).0)
        (λ q e run. let rq : is_running q.state ≡ true = ground arith in ground (arith, same q rq))
        v.sole v

  stop-parked :
      (i : ℕ) (q : Proc) → get_elem? (modify t me f) i ≡ some q → is_running q.state ≡ false
  stop-parked i q e = elim (Option-cases (get_elem? t i)) [
    | inl n ↦ absurd (ground (arith, get_elem?-modify t me i f))
    | inr (q', h') ↦ elim (Bool-cases (is_running q.state)) [
      | inl run ↦
          ground (arith, get_elem?-modify t me i f, same p r, v.sole i q' h', v.sole me p h r)
      | inr parked ↦ parked
    ]
  ]

module _ {M : Type 0} (x : Externals M) (k : Kernel M) (me n : ℕ) (k' : Kernel M) where
  -- If the current process yields, the invariant holds at the switch, and no process runs.
  pub yield-Valid : Valid k → RunsAt k me → yield x me k ≡ switched n k' → Valid k' × IsParked k'
  unfolding yield
  yield-Valid v (p, h, r) e =
      let f : Proc → Proc = λ q. record q { state = runnable } in
      let back = sched-switched x _ me n k' e in
      rw back (
        stop-IsValid me f (λ q rq. ground arith) v p h r,
        stop-parked me f (λ q rq. ground arith) v p h r,
      )

  pub sleep-Valid :
      (c : Chan) (lk : Lock)
      → Valid k
      → RunsAt k me
      → sleep x (some me) c lk k ≡ switched n k'
      → Valid k' × IsParked k'
  unfolding sleep
  sleep-Valid c Lock.null v (p, h, r) e = cc
  sleep-Valid c lk v (p, h, r) e =
      let f : Proc → Proc = λ q. record q { chan = c; state = sleeping } in
      rw (sched-switched x _ me n k' e) (
        stop-IsValid me f (λ q rq. ground arith) v p h r,
        stop-parked me f (λ q rq. ground arith) v p h r,
      )

module _ {M : Type 0} (x : Externals M) (k : Kernel M) where
  -- A process that is elected becomes the only one that runs.
  pub dispatch-Valid :
      (j : ℕ) (p : Proc)
      → Valid k
      → IsParked k
      → get_elem? k.ptable j ≡ some p
      → is_runnable p.state ≡ true
      → Valid (dispatch x j k)
  unfolding dispatch
  dispatch-Valid j p v parked h r =
      modify-IsValid (some j) j (λ q. record q { state = running }) (λ q e. ground arith)
        (λ q e run. refl) (λ i q e run. cc (parked i q e)) v
