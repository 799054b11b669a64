-- ===== src/Proc/Valid/Leave.antt =====
-- exit (hw3/proc.c) keeps the invariant of the table.
pub mod Pass
use Pass.{
  Passed, PassedOn, Passed-trans, wakeup1-Passed, abandon_children-Passed, abandon_children-parent,
}
use nyu_operating_systems.Base.{
  ℕ, zero, suc, ◌+◌, ◌≤◌, ◌<◌, ◌≡◌, ◌≢◌, refl, Bool, true, false, List, [], ◌∷◌, Option, none, some,
  arith, get_elem?, modify, get_elem?-modify, get_elem?-modify_self, get_elem?-lt, length,
  Bool-cases, Option-cases, inl, inr, ◌⊎◌, if◌then◌else◌, ◌==◌, ◌||◌, not, ap, sym, ◌∙◌, subst,
}
use nyu_operating_systems.Base.Words.{minus_one}
use nyu_operating_systems.Proc.State.{
  Procstate, Chan, ptable_lock, zombie, is_unused, is_running, is_zombie, same_proc, chan_of, Proc,
  Kernel, Externals, deref,
}
use nyu_operating_systems.Proc.Sched.{Outcome, switched, wakeup1, sched, sleep, sleep_on}
use nyu_operating_systems.Proc.Exit.{
  abandon_children, clear_proc, exit, exit_table, exit_files, reap, Scan, found, finished,
  scan_children, Waited, returned, waits, wait, wait_round,
}
use nyu_operating_systems.Proc.Valid.{IsValid, Valid, LiveAt, is_live, modify-IsValid}
use nyu_operating_systems.Proc.Valid.Wake.{
  RunsAt, IsParked, sleep-Valid, stop-IsValid, sched-switched,
}

-- A slot of a table after a write, as the written one or an old one.
pub slot_cases :
    (t : List Proc) (i : ℕ) (f : Proc → Proc) (j : ℕ) (q : Proc)
    → get_elem? (modify t i f) j ≡ some q
    → ((j ≡ i) × ((p : Proc) × (get_elem? t i ≡ some p) × (q ≡ f p)))
      ⊎ ((j ≢ i) × (get_elem? t j ≡ some q))
slot_cases t i f j q e = elim (Option-cases (get_elem? t j)) [
  | inl n ↦ absurd (ground (arith, get_elem?-modify t i j f))
  | inr (p, h) ↦ elim (Bool-cases (i == j)) [
    | inl s ↦
        let ij : j ≡ i = ground arith in
        inl (
          ij,
          (p, subst (λ z. get_elem? t z ≡ some p) ij h, ground (arith, get_elem?-modify t i j f)),
        )
    | inr s ↦ inr (ground arith, ground (arith, get_elem?-modify t i j f))
  ]
]

-- The process `me` ends, its children passed on to init.
module _ {t t' : List Proc} {n : ℕ} {proc init : Option ℕ} (me : ℕ) (v : IsValid t n proc init)
    (p : Proc) (h : get_elem? t me ≡ some p) (r : is_running p.state ≡ true)
    (other : init ≢ some me) (pass : Passed me init t t')
    (childless : (j : ℕ) (q : Proc) → get_elem? t' j ≡ some q → q.parent ≢ some me) where
  end : Proc → Proc
  end q = record q { state = zombie }

  LiveAt-end : (l : ℕ) → l ≢ me → LiveAt t l → LiveAt (modify t' me end) l
  LiveAt-end l far (q, e, alive) =
      let (q', e', a) = pass.forth l q e in
      (q', ground (arith, get_elem?-modify t' me l end), ground arith)

  -- What stands in a slot at the end, and what stood there.
  Was : ℕ → Proc → Type 0
  Was j q =
      (o : Proc) × (get_elem? t j ≡ some o)
      × (q.pid ≡ o.pid)
      × (is_unused q.state ≡ is_unused o.state)
      × (is_running q.state ≡ true → is_running o.state ≡ true)
      × ((q.parent ≡ o.parent) ⊎ ((o.parent ≡ some me) × (q.parent ≡ init)))
      × (q.parent ≢ some me)

  was : (j : ℕ) (q : Proc) → get_elem? (modify t' me end) j ≡ some q → Was j q
  unfolding Was end
  was j q e = elim (slot_cases t' me end j q e) [
    | inl (s, o) ↦
        let (o', eo, d) = o in
        let (b, eb, a) = pass.back me o' eo in
        let same : b ≡ p = ground arith in
        let never : q.parent ≢ some me = ground (arith, childless me o' eo) in
        (
          b,
          subst (λ z. get_elem? t z ≡ some b) (sym s) eb,
          ground arith,
          ground arith,
          ground arith,
          ground arith,
          never,
        )
    | inr (s, eo) ↦
        let (b, eb, a) = pass.back j q eo in
        (b, eb, ground arith, ground arith, ground arith, ground arith, childless j q eo)
  ]

  leave-IsValid : IsValid (modify t' me end) n proc init
  unfolding Was
  leave-IsValid = record {
    fresh = λ j q e u.
        let (o, eo, pid, used, runs, up, fine) = was j q e in ground (arith, v.fresh j o);
    unique = λ i j q q' e e' u u' same.
        let (o, eo, pid, used, runs, up, fine) = was i q e in
        let (o', eo', pid', used', runs', up', fine') = was j q' e' in
        v.unique i j o o' eo eo' (ground arith) (ground arith) (ground arith);
    kept = λ j l q e parent.
        let (o, eo, pid, used, runs, up, fine) = was j q e in
        let far : l ≢ me = λ s. fine (parent ∙ ap some s) in
        LiveAt-end l far (elim up [
          | inl same ↦ v.kept j l o eo (sym same ∙ parent)
          | inr s ↦
              let (b, eb, alive) = v.reaper in
              let bl : b ≡ l = ground arith in subst (LiveAt t) bl alive
        ]);
    clean = λ j q e u.
        let (o, eo, pid, used, runs, up, fine) = was j q e in ground (arith, v.clean j o);
    sole =
        λ j q e run. let (o, eo, pid, used, runs, up, fine) = was j q e in v.sole j o eo (runs run);
    reaper =
        let (b, eb, alive) = v.reaper in (b, eb, LiveAt-end b (λ s. other (eb ∙ ap some s)) alive);
    counts = v.counts;
  }

  leave-parked :
      (j : ℕ) (q : Proc) → get_elem? (modify t' me end) j ≡ some q → is_running q.state ≡ false
  unfolding end
  leave-parked j q e = elim (Bool-cases (is_running q.state)) [
    | inr parked ↦ parked
    | inl run ↦
        let here = leave-IsValid.sole j q e run in
        let mine = v.sole me p h r in
        elim (slot_cases t' me end j q e) [
          | inl (s, o) ↦ let (o', eo, d) = o in ground arith
          | inr (s, eo) ↦ absurd (ground arith)
        ]
  ]

module _ {M : Type 0} (x : Externals M) (k : Kernel M) (me n : ℕ) (k' : Kernel M) where
  exit_files-IsValid : Valid k → Valid (exit_files x me k)
  unfolding exit_files
  exit_files-IsValid v =
      modify-IsValid k.proc me _ (λ p h. (refl, refl, refl, refl)) (λ p h r. v.sole me p h r) v.sole
        v

  exit_files-RunsAt : RunsAt k me → RunsAt (exit_files x me k) me
  unfolding exit_files
  exit_files-RunsAt (p, h, r) = (_, get_elem?-modify_self k.ptable me _ h, r)

  -- exit with the lock held, by a process that is not init.
  exit_table-Valid :
      (k : Kernel M)
      → k.initproc ≢ some me
      → Valid k
      → RunsAt k me
      → Valid (exit_table x me k) × IsParked (exit_table x me k)
  unfolding exit_table
  exit_table-Valid k other v (p, h, r) =
      let woken = wakeup1 (chan_of (deref k me).parent) k.ptable in
      let first = wakeup1-Passed me k.initproc (chan_of (deref k me).parent) k.ptable in
      let second = abandon_children-Passed me k.initproc (length woken) 0 woken in
      let childless =
        λ (j : ℕ) (q : Proc)
            (e : get_elem? (abandon_children me k.initproc (length woken) 0 woken) j ≡ some q).
          let (b, eb, a) = second.back j q e in
          let small = get_elem?-lt woken j eb in
          abandon_children-parent me k.initproc other (length woken) 0 j woken q (omega arith)
            (omega arith) e in
      let pass = Passed-trans me k.initproc first second in
      unfold end in
      (leave-IsValid me v p h r other pass childless, leave-parked me v p h r other pass childless)

  -- If a process that runs exits, and is not init, the invariant holds at the switch: its children
  -- have init as their parent. No process runs then.
  pub exit-Valid : Valid k → RunsAt k me → exit x me k ≡ switched n k' → Valid k' × IsParked k'
  unfolding exit
  exit-Valid v run e = elim (Bool-cases (same_proc (some me) k.initproc)) [
    | inl i ↦ absurd (ground arith)
    | inr i ↦
        let e' : sched x me (exit_table x me (exit_files x me k)) ≡ switched n k' =
          rw (exit, i) at e in
        rw (sched-switched x _ me n k' e') (
          exit_table-Valid (exit_files x me k) (unfold exit_files in λ s. ground arith)
            (exit_files-IsValid v) (exit_files-RunsAt run))
  ]
