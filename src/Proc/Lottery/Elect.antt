-- ===== src/Proc/Lottery/Elect.antt =====
-- What a round of hw3/proc.c's scheduler does: it runs a process whenever one is runnable.
use nyu_operating_systems.Base.{
  ℕ, ◌^◌, ◌≤◌, ◌<◌, ◌≡◌, refl, Bool, true, false, if◌then◌else◌, some, arith, get_elem?, modify,
  Bool-cases, inl, inr,
}
use nyu_operating_systems.Proc.State.{Proc, Kernel, Externals, running, is_runnable, ptable_lock}
use nyu_operating_systems.Proc.Lottery.{sum_tickets, run, idle, scheduler_round, dispatch}
use nyu_operating_systems.Proc.Lottery.Fair.{total, at, sum_tickets-eq-total}
use nyu_operating_systems.Proc.Lottery.Winner.{draw-some, draw-runnable}

-- random_at_most(max) lies in [0, max], for an int max that is not negative.
abbrev pub RandomInRange : {M : Type 0} → Externals M → Type 0
RandomInRange {M} x = (max : ℕ) (m : M) → max < 2 ^ 31 → (x.random_at_most max m).0 ≤ max

module _ {M : Type 0} (x : Externals M) (random : RandomInRange x) where
  -- If the tickets of the runnable processes add up to an int and a process is runnable, the round
  -- switches to a process `j` that was runnable: `proc` is `j`, the table has changed only in
  -- that `j` is RUNNING.
  pub scheduler_round-runs :
      (f : Bool) (k : Kernel M) (i : ℕ)
      → total k.ptable < 2 ^ 31
      → is_runnable (at k.ptable i).state ≡ true
      → (j : ℕ) × (p : Proc) × (k' : Kernel M) × (scheduler_round x f k ≡ run j k')
        × (get_elem? k.ptable j ≡ some p)
        × (is_runnable p.state ≡ true)
        × (k'.proc ≡ some j)
        × (k'.ptable ≡ modify k.ptable j (λ q. record q { state = running }))
  unfolding scheduler_round dispatch
  scheduler_round-runs f k i small r =
      let m = x.acquire ptable_lock (if f then x.sti k.mach else x.hlt (x.sti k.mach)) in
      let sum = sum_tickets-eq-total 0 k.ptable (omega arith) in
      let w = (x.random_at_most (sum_tickets 0 k.ptable) m).0 in
      let below = random (sum_tickets 0 k.ptable) m (omega arith) in
      let (j, e) = draw-some 0 w i k.ptable (omega arith) (omega arith) r in
      let (p, here, q) = draw-runnable 0 w j k.ptable e in
      (
        j,
        p,
        dispatch x j (record k { mach = (x.random_at_most (sum_tickets 0 k.ptable) m).1 }),
        rw (scheduler_round, e),
        here,
        q,
        refl,
        refl,
      )

  -- A round that switches to nothing has found no runnable process, and has left the table and
  -- `proc` as they were.
  scheduler_round-idle :
      (f : Bool) (k k' : Kernel M)
      → total k.ptable < 2 ^ 31
      → scheduler_round x f k ≡ idle k'
      → ((i : ℕ) → is_runnable (at k.ptable i).state ≡ false)
        × (k'.ptable ≡ k.ptable)
        × (k'.proc ≡ k.proc)
  scheduler_round-idle f k k' small e = (
    λ i. elim (Bool-cases (is_runnable (at k.ptable i).state)) [
      | inl r ↦ absurd (let (j, p, k1, e1, a, b, c, d) = scheduler_round-runs f k i small r in cc)
      | inr r ↦ r
    ],
    unfold scheduler_round in ground arith,
    unfold scheduler_round in ground arith,
  )
