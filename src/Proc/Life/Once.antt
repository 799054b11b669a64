-- ===== src/Proc/Life/Once.antt =====
-- wait (hw3/proc.c) tells of the end of a process once.
use nyu_operating_systems.Base.{ℕ, ◌<◌, ◌≡◌, ◌≢◌, false, some, arith, get_elem?, inl, inr, sym, ◌∙◌}
use nyu_operating_systems.Base.Words.{minus_one}
use nyu_operating_systems.Proc.State.{is_unused, Proc, Kernel, Externals}
use nyu_operating_systems.Proc.Exit.{clear_proc, returned, wait}
use nyu_operating_systems.Proc.Valid.{Valid}
use nyu_operating_systems.Proc.Valid.Leave.{slot_cases}
use nyu_operating_systems.Proc.Valid.Reap.{Reaped, wait-Returns}
use nyu_operating_systems.Proc.Valid.Steps.{reaps, Reach, Inv, Step-Inv}
use nyu_operating_systems.Proc.Life.Steps.{pid-IsOld}

module _ {M : Type 0} (x : Externals M) where
  wait-Reaped :
      (me pid : ℕ) (k l : Kernel M)
      → wait x me k ≡ returned pid l
      → pid ≢ minus_one
      → (i : ℕ) × (p : Proc) × Reaped k l pid i p
  wait-Reaped me pid k l e real = elim (wait-Returns x k me pid l e) [
    | inl (error, same, pids, inits) ↦ absurd (real error)
    | inr r ↦ r
  ]

  -- After wait has returned a pid, no slot that is used has it.
  gone :
      (k l : Kernel M) (pid i j : ℕ) (p q : Proc)
      → Valid k
      → Reaped k l pid i p
      → get_elem? l.ptable j ≡ some q
      → is_unused q.state ≡ false
      → q.pid ≢ pid
  unfolding clear_proc
  gone k l pid i j p q v r h used same =
      elim (slot_cases k.ptable i clear_proc j q (rw (sym r.table) h)) [
        | inl (here, (o, at, d)) ↦ absurd (ground arith)
        | inr (other, at) ↦
            other (v.unique j i q p at r.at used (ground (arith, r.dead)) (same ∙ sym r.named))
      ]

  -- From a kernel where the invariant of the table holds: once wait has returned a pid to the
  -- current process, no later wait, of any process, in any kernel that is reached, returns the same
  -- pid, if neither is the -1 of an error.
  pub wait-once :
      {k l m m' : Kernel M} (me me' pid pid' : ℕ)
      → Inv x k
      → k.proc ≡ some me
      → wait x me k ≡ returned pid l
      → pid ≢ minus_one
      → Reach x l m
      → wait x me' m ≡ returned pid' m'
      → pid' ≢ minus_one
      → pid' ≢ pid
  wait-once {k} {l} {m} {m'} me me' pid pid' v cpu e real r e' real' same =
      let (i, p, first) = wait-Reaped me pid k l e real in
      let (j, q, second) = wait-Reaped me' pid' m m' e' real' in
      let inv = Step-Inv x (reaps me pid cpu e) v in
      let used : is_unused q.state ≡ false = ground (arith, second.dead) in
      let alive : is_unused p.state ≡ false = ground (arith, first.dead) in
      let named : q.pid ≡ p.pid = second.named ∙ same ∙ sym first.named in
      let old : q.pid < l.nextpid =
        omega (arith, named, first.pids, v.valid.fresh i p first.at alive) in
      let (o, at, was, kept) = pid-IsOld x j q r inv second.at used old in
      gone k l pid i j p o v.valid first at was (kept ∙ named ∙ first.named)
