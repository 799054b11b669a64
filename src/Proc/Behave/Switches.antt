-- ===== src/Proc/Behave/Switches.antt =====
-- No function of hw3/proc.c that gives up the CPU panics in sched, where the kernel's locks keep their
-- contract.
use nyu_operating_systems.Base.{
  ℕ, zero, suc, ◌-◌, ◌<◌, ◌≡◌, ◌==◌, ◌||◌, not, refl, arith, true, false, some, List, [], ◌∷◌,
  get_or, modify, Bool-cases, inl, inr, ◌∙◌, ap,
}
use nyu_operating_systems.Proc.State.{
  runnable, sleeping, zombie, is_running, same_proc, Chan, Lock, ptable_lock, Proc, Kernel,
  Externals, deref, zero_proc,
}
use nyu_operating_systems.Proc.Valid.Reap.{Scan-cases}
use nyu_operating_systems.Proc.Sched.{Outcome, switched, panic, sched, yield, sleep, sleep_on}
use nyu_operating_systems.Proc.Exit.{
  Waited, returned, waits, scan_children, close_files, exit_table, exit_files, exit, wait_round,
  wait,
}

-- What the callers of spinlock.c rely on: a lock that was acquired is held, whatever other lock is
-- released; acquire and release count the locks of the CPU, and while there is one no interrupt
-- comes. The functions of file.c, fs.c and log.c release the locks that they take.
pub record LockLaws {M : Type 0} (x : Externals M) : Type 0 where
  pub holds : (m : M) → x.holding ptable_lock (x.acquire ptable_lock m) ≡ true
  pub keeps :
      (a : ℕ) (m : M) → x.holding ptable_lock (x.release (Lock.other a) m) ≡ x.holding ptable_lock m
  pub counts : (l : Lock) (m : M) → x.ncli (x.acquire l m) ≡ suc (x.ncli m)
  pub uncounts : (l : Lock) (m : M) → x.ncli (x.release l m) ≡ x.ncli m - 1
  pub masks : (m : M) → 0 < x.ncli m → x.interruptible m ≡ false
  pub closes : (f : ℕ) (m : M) → x.ncli (x.fileclose f m) ≡ x.ncli m
  pub puts : (d : ℕ) (m : M) → x.ncli (x.iput d m) ≡ x.ncli m
  pub begins : (m : M) → x.ncli (x.begin_op m) ≡ x.ncli m
  pub ends : (m : M) → x.ncli (x.end_op m) ≡ x.ncli m

abbrev pub Switches : {M : Type 0} → Outcome M → Type 0
Switches (switched n k) = Unit
Switches (panic c) = ⊥

-- wait returns, or switches to the scheduler.
abbrev pub Proceeds : {M : Type 0} → Waited M → Type 0
Proceeds (returned w k) = Unit
Proceeds (waits o) = Switches o

-- A state that was just written, or that of no process at all.
not_running :
    (t : List Proc) (i : ℕ) (f : Proc → Proc)
    → ((p : Proc) → is_running (f p).state ≡ false)
    → is_running (get_or (modify t i f) i zero_proc).state ≡ false
not_running [] i f h = refl
not_running (p ∷ t) zero f h = h p
not_running (p ∷ t) (suc i) f h = not_running t i f h

module _ {M : Type 0} (x : Externals M) (laws : LockLaws x) where
  sched-Switches :
      (me : ℕ) (k : Kernel M)
      → x.holding ptable_lock k.mach ≡ true
      → x.ncli k.mach ≡ 1
      → is_running (deref k me).state ≡ false
      → Switches (sched x me k)
  unfolding sched
  sched-Switches me k held one off =
      let masked : x.interruptible k.mach ≡ false = laws.masks k.mach (omega arith) in
      rw (sched, held, one, off, masked) tt

  yield-Switches : (me : ℕ) (k : Kernel M) → x.ncli k.mach ≡ 0 → Switches (yield x me k)
  unfolding yield
  yield-Switches me k none_held =
      sched-Switches me _ (laws.holds k.mach) (laws.counts ptable_lock k.mach ∙ ap suc none_held)
        (not_running k.ptable me (λ p. record p { state = runnable }) (λ p. refl))

  -- The lock lk = other a is held, as sleep's callers do.
  sleep-Switches :
      (me a : ℕ) (c : Chan) (k : Kernel M)
      → x.ncli k.mach ≡ 0
      → Switches
          (sleep x (some me) c (Lock.other a) (record k { mach = x.acquire (Lock.other a) k.mach }))
  unfolding sleep sleep_on
  sleep-Switches me a c k none_held =
      let m1 = x.acquire (Lock.other a) k.mach in
      let m2 = x.acquire ptable_lock m1 in
      let one = laws.counts (Lock.other a) k.mach in
      let two = laws.counts ptable_lock m1 in
      let left = laws.uncounts (Lock.other a) m2 in
      sched-Switches me _ (laws.keeps a m2 ∙ laws.holds m1) (omega arith)
        (not_running k.ptable me (λ p. record p { chan = c; state = sleeping }) (λ p. refl))

  sleep_on-Switches :
      (me : ℕ) (c : Chan) (k : Kernel M)
      → x.holding ptable_lock k.mach ≡ true
      → x.ncli k.mach ≡ 1
      → Switches (sleep_on x me c ptable_lock k)
  unfolding sleep_on
  sleep_on-Switches me c k held one =
      sched-Switches me _ held one
        (not_running k.ptable me (λ p. record p { chan = c; state = sleeping }) (λ p. refl))

  wait-Proceeds : (me : ℕ) (k : Kernel M) → x.ncli k.mach ≡ 0 → Proceeds (wait x me k)
  unfolding wait wait_round
  wait-Proceeds me k none_held =
      let m = x.acquire ptable_lock k.mach in
      let locked : Kernel M = record k { mach = m } in
      let one = laws.counts ptable_lock k.mach in
      let asleep : Switches (sleep_on x me (Chan.slot me) ptable_lock locked) =
        sleep_on-Switches me (Chan.slot me) locked (laws.holds k.mach) (omega arith) in
      elim (Scan-cases (scan_children me false k.ptable)) [
        | inl (i, s) ↦ rw (wait, wait_round, s) tt
        | inr (kids, s) ↦ elim (Bool-cases (not kids || not ((deref k me).killed == 0))) [
          | inl fails ↦ rw (wait, wait_round, s, fails) tt
          | inr sleeps ↦ rw (wait, wait_round, s, sleeps) asleep
        ]
      ]

  close_files-ncli : (fs : List ℕ) (m : M) → x.ncli (close_files x fs m).1 ≡ x.ncli m
  unfolding close_files
  close_files-ncli [] m = refl
  close_files-ncli (f ∷ fs) m = elim (Bool-cases (f == 0)) [
    | inl null ↦ rw (close_files, null) (close_files-ncli fs m)
    | inr other ↦ rw (close_files, other) (close_files-ncli fs (x.fileclose f m) ∙ laws.closes f m)
  ]

  exit_files-ncli : (me : ℕ) (k : Kernel M) → x.ncli (exit_files x me k).mach ≡ x.ncli k.mach
  unfolding exit_files
  exit_files-ncli me k =
      let m = (close_files x (deref k me).ofile k.mach).1 in
      laws.ends (x.iput (deref k me).cwd (x.begin_op m))
      ∙ laws.puts (deref k me).cwd (x.begin_op m)
      ∙ laws.begins m
      ∙ close_files-ncli (deref k me).ofile k.mach

  exit_table-Switches :
      (me : ℕ) (k : Kernel M) → x.ncli k.mach ≡ 0 → Switches (sched x me (exit_table x me k))
  unfolding exit_table
  exit_table-Switches me k none_held =
      sched-Switches me (exit_table x me k) (laws.holds k.mach)
        (laws.counts ptable_lock k.mach ∙ ap suc none_held)
        (not_running _ me (λ p. record p { state = zombie }) (λ p. refl))

  exit-Switches :
      (me : ℕ) (k : Kernel M)
      → x.ncli k.mach ≡ 0
      → same_proc (some me) k.initproc ≡ false
      → Switches (exit x me k)
  unfolding exit
  exit-Switches me k none_held other =
      rw (exit, other)
        (exit_table-Switches me (exit_files x me k) (exit_files-ncli me k ∙ none_held))

  -- A process other than init that holds no lock and gives up the CPU never makes sched panic,
  -- under the contract of the kernel's locks: yield switches to the scheduler, so does sleep
  -- with another lock held, so does exit, and wait does so or returns.
  pub no_panic :
      (me a : ℕ) (c : Chan) (k : Kernel M)
      → x.ncli k.mach ≡ 0
      → same_proc (some me) k.initproc ≡ false
      → Switches (yield x me k)
        × Switches (
            sleep x
              (some me)
              c
              (Lock.other a)
              (record k { mach = x.acquire (Lock.other a) k.mach }))
        × Proceeds (wait x me k)
        × Switches (exit x me k)
  no_panic me a c k none_held other = (
    yield-Switches me k none_held,
    sleep-Switches me a c k none_held,
    wait-Proceeds me k none_held,
    exit-Switches me k none_held other,
  )
