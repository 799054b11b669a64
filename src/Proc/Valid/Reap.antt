-- ===== src/Proc/Valid/Reap.antt =====
-- wait (hw3/proc.c) keeps the invariant, whether it reaps a child or sleeps.
use nyu_operating_systems.Proc.Valid.Leave.{slot_cases}
use nyu_operating_systems.Base.{
  ℕ, zero, suc, ◌≡◌, refl, Bool, true, false, List, [], ◌∷◌, Option, some, arith, get_elem?, modify,
  get_elem?-modify, Bool-cases, inl, inr, ◌⊎◌, if◌then◌else◌, ◌==◌, ◌||◌, not, ap, sym, ◌∙◌,
  get_or-get_elem?,
}
use nyu_operating_systems.Base.Words.{minus_one}
use nyu_operating_systems.Proc.State.{
  Chan, ptable_lock, is_zombie, same_proc, Proc, Kernel, Externals, deref, zero_proc,
}
use nyu_operating_systems.Proc.Sched.{switched, sleep, sleep_on}
use nyu_operating_systems.Proc.Exit.{
  clear_proc, reap, Scan, found, finished, scan_children, returned, waits, wait, wait_round,
}
use nyu_operating_systems.Proc.Valid.{IsValid, Valid, LiveAt}
use nyu_operating_systems.Proc.Valid.Wake.{RunsAt, IsParked, sleep-Valid}

-- wait frees the slot of a zombie: no process has it as parent.
module _ {t : List Proc} {n : ℕ} {proc init : Option ℕ} (i : ℕ) (v : IsValid t n proc init)
    (p : Proc) (h : get_elem? t i ≡ some p) (z : is_zombie p.state ≡ true) where
  LiveAt-clear : (l : ℕ) → LiveAt t l → LiveAt (modify t i clear_proc) l
  LiveAt-clear l (q, e, alive) = (q, ground (arith, get_elem?-modify t i l clear_proc), alive)

  clear_proc-IsValid : IsValid (modify t i clear_proc) n proc init
  unfolding clear_proc
  clear_proc-IsValid = record {
    fresh = λ j q e u. elim (slot_cases t i clear_proc j q e) [
      | inl (s, o) ↦ let (o', eo, d) = o in absurd (ground arith)
      | inr (s, eo) ↦ v.fresh j q eo u
    ];
    unique = λ j l q q' e e' u u' same. elim (slot_cases t i clear_proc j q e) [
      | inl (s, o) ↦ let (o', eo, d) = o in absurd (ground arith)
      | inr (s, eo) ↦ elim (slot_cases t i clear_proc l q' e') [
        | inl (s', o) ↦ let (o', eo', d) = o in absurd (ground arith)
        | inr (s', eo') ↦ v.unique j l q q' eo eo' u u' same
      ]
    ];
    kept = λ j l q e up. elim (slot_cases t i clear_proc j q e) [
      | inl (s, o) ↦ let (o', eo, d) = o in absurd (ground arith)
      | inr (s, eo) ↦ LiveAt-clear l (v.kept j l q eo up)
    ];
    clean = λ j q e u. elim (slot_cases t i clear_proc j q e) [
      | inl (s, o) ↦ let (o', eo, d) = o in ground arith
      | inr (s, eo) ↦ v.clean j q eo u
    ];
    sole = λ j q e run. elim (slot_cases t i clear_proc j q e) [
      | inl (s, o) ↦ let (o', eo, d) = o in absurd (ground arith)
      | inr (s, eo) ↦ v.sole j q eo run
    ];
    reaper = let (b, eb, alive) = v.reaper in (b, eb, LiveAt-clear b alive);
    counts = v.counts;
  }

pub Scan-cases : (s : Scan) → ((i : ℕ) × (s ≡ found i)) ⊎ ((b : Bool) × (s ≡ finished b))
Scan-cases (found i) = inl (i, refl)
Scan-cases (finished b) = inr (b, refl)

-- The scan of wait finds a zombie child.
pub scan_children-found :
    (me : ℕ) (kids : Bool) (t : List Proc) (i : ℕ)
    → scan_children me kids t ≡ found i
    → (p : Proc) × (get_elem? t i ≡ some p) × (p.parent ≡ some me) × (is_zombie p.state ≡ true)
unfolding scan_children
scan_children-found me kids [] i e = cc
scan_children-found me kids (p ∷ ps) zero e = (p, refl, ground arith, ground arith)
scan_children-found me kids (p ∷ ps) (suc i) e =
    scan_children-found me (if same_proc p.parent (some me) then true else kids) ps i (ground arith)

-- The zombie in slot i had the pid that wait returns, and is cleared.
pub record Reaped {M : Type 0} (k l : Kernel M) (pid i : ℕ) (p : Proc) : Type 0 where
  pub at : get_elem? k.ptable i ≡ some p
  pub dead : is_zombie p.state ≡ true
  pub named : p.pid ≡ pid
  pub table : l.ptable ≡ modify k.ptable i clear_proc
  pub pids : l.nextpid ≡ k.nextpid
  pub inits : l.initproc ≡ k.initproc

module _ {M : Type 0} (x : Externals M) (k : Kernel M) (me : ℕ) where
  locked : Kernel M
  locked = record k { mach = x.acquire ptable_lock k.mach }

  -- wait returns -1 and leaves the table, or the pid of a zombie that it frees.
  pub wait-Returns :
      (w : ℕ) (k' : Kernel M)
      → wait x me k ≡ returned w k'
      → ((w ≡ minus_one)
          × (k'.ptable ≡ k.ptable)
          × (k'.nextpid ≡ k.nextpid)
          × (k'.initproc ≡ k.initproc))
        ⊎ ((i : ℕ) × (p : Proc) × Reaped k k' w i p)
  unfolding wait wait_round reap locked
  wait-Returns w k' e = elim (Scan-cases (scan_children me false k.ptable)) [
    | inl (i, s) ↦
        let (p, h, up, z) = scan_children-found me false k.ptable i s in
        let e' : returned (reap x i locked).0 (reap x i locked).1 ≡ returned w k' =
          rw (wait, wait_round, s) at e in
        let pid : (reap x i locked).0 ≡ w = cc in
        let same : (reap x i locked).1 ≡ k' = cc in
        inr (
          i,
          p,
          record {
            at = h;
            dead = z;
            named =
                ap (λ (q : Proc). q.pid) (sym (get_or-get_elem? k.ptable i zero_proc p h)) ∙ pid;
            table = ap (λ (m : Kernel M). m.ptable) (sym same);
            pids = ap (λ (m : Kernel M). m.nextpid) (sym same);
            inits = ap (λ (m : Kernel M). m.initproc) (sym same);
          },
        )
    | inr (kids, s) ↦ elim (Bool-cases (not kids || not ((deref k me).killed == 0))) [
      | inl t ↦
          let e' : returned minus_one (record locked { mach = x.release ptable_lock locked.mach })
              ≡ returned w k' =
            rw (wait, wait_round, s, t) at e in
          let same : record locked { mach = x.release ptable_lock locked.mach } ≡ k' = cc in
          let error : minus_one ≡ w = cc in
          inl (
            sym error,
            ap (λ (m : Kernel M). m.ptable) (sym same),
            ap (λ (m : Kernel M). m.nextpid) (sym same),
            ap (λ (m : Kernel M). m.initproc) (sym same),
          )
      | inr t ↦
          let e' : waits (sleep_on x me (Chan.slot me) ptable_lock locked) ≡ returned w k' =
            rw (wait, wait_round, s, t) at e in
          cc
    ]
  ]

  -- If wait returns, the invariant still holds, and every process but a zombie is as it was.
  pub wait-returned :
      (w : ℕ) (k' : Kernel M)
      → Valid k
      → wait x me k ≡ returned w k'
      → Valid k'
        × ((j : ℕ) (p : Proc)
            → get_elem? k.ptable j ≡ some p
            → is_zombie p.state ≡ false
            → get_elem? k'.ptable j ≡ some p)
  unfolding wait wait_round reap locked
  wait-returned w k' v e = elim (Scan-cases (scan_children me false k.ptable)) [
    | inl (i, s) ↦
        let (p, h, up, z) = scan_children-found me false k.ptable i s in
        let e' : returned (reap x i locked).0 (reap x i locked).1 ≡ returned w k' =
          rw (wait, wait_round, s) at e in
        let same : (reap x i locked).1 ≡ k' = cc in
        rw (← same) (
          clear_proc-IsValid i v p h z,
          λ j q e dead. ground (arith, get_elem?-modify k.ptable i j clear_proc),
        )
    | inr (kids, s) ↦ elim (Bool-cases (not kids || not ((deref k me).killed == 0))) [
      | inl t ↦
          let e' : returned minus_one (record locked { mach = x.release ptable_lock locked.mach })
              ≡ returned w k' =
            rw (wait, wait_round, s, t) at e in
          let same : record locked { mach = x.release ptable_lock locked.mach } ≡ k' = cc in
          rw (← same) (v, λ j q e dead. e)
      | inr t ↦
          let e' : waits (sleep_on x me (Chan.slot me) ptable_lock locked) ≡ returned w k' =
            rw (wait, wait_round, s, t) at e in
          cc
    ]
  ]

  -- If wait switches to the scheduler, its process has gone to sleep on its own slot.
  pub wait-sleep_on :
      (n : ℕ) (k' : Kernel M)
      → wait x me k ≡ waits (switched n k')
      → sleep_on x me (Chan.slot me) ptable_lock (record k { mach = x.acquire ptable_lock k.mach })
        ≡ switched n k'
  unfolding wait wait_round locked
  wait-sleep_on n k' e = elim (Scan-cases (scan_children me false k.ptable)) [
    | inl (i, s) ↦
        let e' : returned (reap x i locked).0 (reap x i locked).1 ≡ waits (switched n k') =
          rw (wait, wait_round, s) at e in
        cc
    | inr (kids, s) ↦ elim (Bool-cases (not kids || not ((deref k me).killed == 0))) [
      | inl t ↦
          let e' : returned minus_one (record locked { mach = x.release ptable_lock locked.mach })
              ≡ waits (switched n k') =
            rw (wait, wait_round, s, t) at e in
          cc
      | inr t ↦
          let e' : waits (sleep_on x me (Chan.slot me) ptable_lock locked) ≡ waits (switched n k') =
            rw (wait, wait_round, s, t) at e in
          cc
    ]
  ]

  -- If wait switches to the scheduler, the invariant holds at the switch, and no process runs.
  pub wait-waits :
      (n : ℕ) (k' : Kernel M)
      → Valid k
      → RunsAt k me
      → wait x me k ≡ waits (switched n k')
      → Valid k' × IsParked k'
  unfolding locked
  wait-waits n k' v run e =
      sleep-Valid x locked me n k' (Chan.slot me) ptable_lock v run
        (unfold sleep in wait-sleep_on n k' e)
