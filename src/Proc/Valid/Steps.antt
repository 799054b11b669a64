-- ===== src/Proc/Valid/Steps.antt =====
-- The kernel of hw3/proc.c as a step relation: the current process calls an operation, another part
-- of the kernel wakes or kills, the scheduler elects.
use nyu_operating_systems.Base.{
  ℕ, ◌+◌, ◌^◌, ◌<◌, ◌≡◌, refl, Bool, true, List, none, some, arith, get_elem?, get_elem?-map,
  modify, get_elem?-modify, get_elem?-modify_self, Bool-cases, Option-cases, inl, inr, subst, ◌∙◌,
  ◌==◌,
}
use nyu_operating_systems.Proc.State.{is_running, Chan, Lock, Proc, Kernel, Externals, write}
use nyu_operating_systems.Proc.Alloc.{fork}
use nyu_operating_systems.Proc.Sched.{
  switched, wake, wakeup1, wakeup, kill, yield, sleep, mark_killed, find_pid,
}
use nyu_operating_systems.Proc.Exit.{returned, waits, wait, exit}
use nyu_operating_systems.Proc.Lottery.{
  run, idle, scheduler_round, scheduler_return, dispatch, scheduler_round-run,
  scheduler_round-idles,
}
use nyu_operating_systems.Proc.Lottery.Winner.{draw-runnable}
use nyu_operating_systems.Proc.Valid.{Valid, modify-IsValid}
use nyu_operating_systems.Proc.Valid.Wake.{
  RunsAt, IsParked, wakeup-Valid, kill-Valid, yield-Valid, sleep-Valid, dispatch-Valid,
  wake-running,
}
use nyu_operating_systems.Proc.Valid.Fork.{fork-Valid}
use nyu_operating_systems.Proc.Valid.Leave.{exit-Valid}
use nyu_operating_systems.Proc.Valid.Reap.{wait-returned, wait-waits}

mark_killed-running : (p : Proc) → is_running (mark_killed p).state ≡ is_running p.state
unfolding mark_killed
mark_killed-running p = ground arith

runs-modify :
    (t : List Proc) (i : ℕ) (f : Proc → Proc)
    → ((p : Proc) → is_running (f p).state ≡ is_running p.state)
    → (j : ℕ) (p : Proc) → get_elem? t j ≡ some p
    → is_running p.state ≡ true
    → (q : Proc) × (get_elem? (modify t i f) j ≡ some q) × (is_running q.state ≡ true)
runs-modify t i f same j p h r = elim (Bool-cases (i == j)) [
  | inl s ↦ (f p, ground (arith, get_elem?-modify t i j f), same p ∙ r)
  | inr s ↦ (p, ground (arith, get_elem?-modify t i j f), r)
]

module _ {M : Type 0} (x : Externals M) where
  -- The operations of the current process `me` run to their end, or to the switch to the scheduler
  -- and through the rest of its round. Code that is not of proc.c changes the machine only.
  pub data Step (k : Kernel M) : Kernel M → Type 0 where
    forks : (me : ℕ) → k.proc ≡ some me → k.nextpid + 1 < 2 ^ 32 → Step k (fork x me k).1
    reaps : (me w : ℕ) {k' : Kernel M} → k.proc ≡ some me → wait x me k ≡ returned w k' → Step k k'
    waits_on :
        (me n : ℕ) {k' : Kernel M}
        → k.proc ≡ some me
        → wait x me k ≡ waits (switched n k')
        → Step k (scheduler_return x k')
    yields :
        (me n : ℕ) {k' : Kernel M}
        → k.proc ≡ some me
        → yield x me k ≡ switched n k'
        → Step k (scheduler_return x k')
    sleeps :
        (me n : ℕ) (c : Chan) (lk : Lock) {k' : Kernel M}
        → k.proc ≡ some me
        → sleep x (some me) c lk k ≡ switched n k'
        → Step k (scheduler_return x k')
    exits :
        (me n : ℕ) {k' : Kernel M}
        → k.proc ≡ some me
        → exit x me k ≡ switched n k'
        → Step k (scheduler_return x k')
    sets_tickets :
        (me tix : ℕ) → k.proc ≡ some me → Step k (write k me (λ p. record p { tickets = tix }))
    kills : (pid : ℕ) → Step k (kill x pid k).1
    wakes : (c : Chan) → Step k (wakeup x c k)
    others : (m : M) → Step k (record k { mach = m })
    elects :
        (f : Bool) (j : ℕ) {k' : Kernel M}
        → k.proc ≡ none
        → scheduler_round x f k ≡ run j k'
        → Step k k'
    idles : (f : Bool) {k' : Kernel M} → k.proc ≡ none → scheduler_round x f k ≡ idle k' → Step k k'

  pub data Reach (k : Kernel M) : Kernel M → Type 0 where
    start : Reach k k
    later : {k' k'' : Kernel M} → Reach k k' → Step k' k'' → Reach k k''

  -- The invariant of the table, and the CPU's current process is RUNNING.
  pub record Inv (k : Kernel M) : Type 0 where
    pub valid : Valid k
    pub busy : (i : ℕ) → k.proc ≡ some i → RunsAt k i

  -- At a switch no process runs, so the scheduler goes on with none.
  Inv-return : (k : Kernel M) → Valid k × IsParked k → Inv (scheduler_return x k)
  unfolding scheduler_return
  Inv-return k (v, parked) = record {
    valid = record {
      fresh = v.fresh;
      unique = v.unique;
      kept = v.kept;
      clean = v.clean;
      sole = λ i p e on. cc (parked i p e);
      reaper = v.reaper;
      counts = v.counts;
    };
    busy = λ i e. cc;
  }

  -- With a process that runs the invariant names it as the CPU's.
  pub Inv-runs : (k : Kernel M) (me : ℕ) → Valid k → RunsAt k me → Inv k
  Inv-runs k me v (p, h, r) = record {
    valid = v;
    busy = λ i e.
        let mine = v.sole me p h r in
        let same : me ≡ i = ground arith in
        (p, subst (λ z. get_elem? k.ptable z ≡ some p) same h, r);
  }

  Step-Inv_forks :
      (k : Kernel M) (me : ℕ)
      → Inv k
      → k.proc ≡ some me
      → k.nextpid + 1 < 2 ^ 32
      → Inv (fork x me k).1
  Step-Inv_forks k me v e room =
      let (p, h, r) = v.busy me e in
      let (valid, same) = fork-Valid x me k v.valid (p, h, ground arith) room in
      Inv-runs (fork x me k).1 me valid (p, same me p h (ground arith), r)

  wakes-runs : (k : Kernel M) (c : Chan) (i : ℕ) → RunsAt k i → RunsAt (wakeup x c k) i
  unfolding wakeup wakeup1
  wakes-runs k c i (p, h, r) =
      (wake c p, ground (arith, get_elem?-map (wake c) k.ptable i), wake-running c p ∙ r)

  elects-Inv :
      (k : Kernel M) (f : Bool) (j : ℕ) (l : Kernel M)
      → Inv k
      → k.proc ≡ none
      → scheduler_round x f k ≡ run j l
      → Inv l
  elects-Inv k f j l v e s =
      let (w, m, d, same) = scheduler_round-run x f k l j s in
      let (p, h, r) = draw-runnable 0 w j k.ptable d in
      let parked : IsParked k = λ i q g. elim (Bool-cases (is_running q.state)) [
        | inl on ↦ let taken = v.valid.sole i q g on in cc
        | inr off ↦ off
      ] in
      rw same (
        Inv-runs (dispatch x j (record k { mach = m })) j
          (dispatch-Valid x (record k { mach = m }) j p v.valid parked h r)
          (unfold dispatch in (_, get_elem?-modify_self k.ptable j _ h, refl)))

  Step-Inv_kills : (k : Kernel M) (pid : ℕ) → Inv k → Inv (kill x pid k).1
  unfolding kill
  Step-Inv_kills k pid v = record {
    valid = kill-Valid x k pid v.valid;
    busy = elim (Option-cases (find_pid pid k.ptable)) [
      | inl n ↦ rw (kill, n) v.busy
      | inr (i, e) ↦
          rw (kill, e)
            (λ j at_j.
              let (p, h, r) = v.busy j at_j in
              runs-modify k.ptable i mark_killed mark_killed-running j p h r)
    ];
  }

  -- Every step keeps the invariant.
  pub Step-Inv : {k k' : Kernel M} → Step k k' → Inv k → Inv k'
  Step-Inv {k} (forks me e room) v = Step-Inv_forks k me v e room
  Step-Inv {k} (reaps me w {k' = l} e s) v =
      let (p, h, r) = v.busy me e in
      let (valid, same) = wait-returned x k me w l v.valid s in
      Inv-runs l me valid (p, same me p h (ground arith), r)
  Step-Inv {k} (waits_on me n {k' = l} e s) v =
      Inv-return l (wait-waits x k me n l v.valid (v.busy me e) s)
  Step-Inv {k} (yields me n {k' = l} e s) v =
      Inv-return l (yield-Valid x k me n l v.valid (v.busy me e) s)
  Step-Inv {k} (sleeps me n c lk {k' = l} e s) v =
      Inv-return l (sleep-Valid x k me n l c lk v.valid (v.busy me e) s)
  Step-Inv {k} (exits me n {k' = l} e s) v =
      Inv-return l (exit-Valid x k me n l v.valid (v.busy me e) s)
  Step-Inv {k} (sets_tickets me tix e) v =
      let (p, h, r) = v.busy me e in
      Inv-runs (write k me (λ q. record q { tickets = tix })) me
        (modify-IsValid k.proc me (λ q. record q { tickets = tix })
          (λ q i. (refl, refl, refl, refl)) (λ q i on. v.valid.sole me q i on) v.valid.sole v.valid)
        (_, get_elem?-modify_self k.ptable me _ h, r)
  Step-Inv {k} (kills pid) v = Step-Inv_kills k pid v
  Step-Inv {k} (wakes c) v = record {
    valid = wakeup-Valid x k c v.valid;
    busy = unfold wakeup in λ i e. wakes-runs k c i (v.busy i e);
  }
  Step-Inv {k} (others m) v = record { valid = v.valid; busy = v.busy }
  Step-Inv {k} (elects f j {k' = l} e s) v = elects-Inv k f j l v e s
  Step-Inv {k} (idles f {k' = l} e s) v =
      let (m, same) = scheduler_round-idles x f k l s in
      rw same (record { valid = v.valid; busy = v.busy })

  -- The invariant holds in every kernel that is reached from one where it holds.
  pub Reach-Inv : {k k' : Kernel M} → Reach k k' → Inv k → Inv k'
  Reach-Inv start v = v
  Reach-Inv (later r s) v = Step-Inv s (Reach-Inv r v)
