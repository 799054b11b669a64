-- ===== src/Proc/Lottery.antt =====
-- hw3/proc.c: scheduler.
pub mod Fair
pub mod Winner
pub mod Elect
use nyu_operating_systems.Base.{
  ℕ, zero, suc, Bool, true, false, Option, none, some, List, [], ◌∷◌, if◌then◌else◌, on_some, ◌≡◌,
  Option-cases, inl, inr,
}
use nyu_operating_systems.Base.Words.{add32, int_lt}
use nyu_operating_systems.Proc.State.{
  Procstate, running, is_runnable, Proc, ptable_lock, Kernel, Externals, deref, write,
}

-- The loop that sums the tickets of the RUNNABLE processes, from `acc` on; an int that wraps.
unfoldable pub sum_tickets : ℕ → List Proc → ℕ
sum_tickets acc [] = acc
sum_tickets acc (p ∷ ps) = sum_tickets (if is_runnable p.state then add32 acc p.tickets else acc) ps

-- The loop that looks for the winner: the slot at which it breaks.
unfoldable pub draw : ℕ → ℕ → List Proc → Option ℕ
draw counter winner [] = none
draw counter winner (p ∷ ps) = elim (is_runnable p.state) [
  | false ↦ on_some suc (draw counter winner ps)
  | true ↦ elim (int_lt (add32 counter p.tickets) winner) [
    | true ↦ on_some suc (draw (add32 counter p.tickets) winner ps)
    | false ↦ some zero
  ]
]

-- A round of the scheduler either switches to a process or finds none.
pub data Round (M : Type 0) : Type 0 where
  run : ℕ → Kernel M → Round M
  idle : Kernel M → Round M

module _ {M : Type 0} (x : Externals M) where
  -- Switch to the process in slot `i`, up to swtch.
  unfoldable pub dispatch : ℕ → Kernel M → Kernel M
  dispatch i k =
      let k' = record k { proc = some i; mach = x.switchuvm (deref k i) k.mach } in
      write k' i (λ p. record p { state = running })

  -- A round of the loop up to swtch, given `foundproc`.
  unfoldable pub scheduler_round : Bool → Kernel M → Round M
  scheduler_round foundproc k =
      let m = x.sti k.mach in
      let m' = x.acquire ptable_lock (if foundproc then m else x.hlt m) in
      let (winner, m'') = x.random_at_most (sum_tickets 0 k.ptable) m' in
      elim (draw 0 winner k.ptable) [
        | some i ↦ run i (dispatch i (record k { mach = m'' }))
        | none ↦ idle (record k { mach = x.release ptable_lock m'' })
      ]

  -- The rest of a round, after the process has switched back.
  unfoldable pub scheduler_return : Kernel M → Kernel M
  scheduler_return k = record k { proc = none; mach = x.release ptable_lock (x.switchkvm k.mach) }

  -- A round that runs a process dispatches the slot that is drawn.
  pub scheduler_round-run :
      (f : Bool) (k k' : Kernel M) (j : ℕ)
      → scheduler_round f k ≡ run j k'
      → (w : ℕ) × (m : M) × (draw 0 w k.ptable ≡ some j) × (k' ≡ dispatch j (record k { mach = m }))
  unfolding scheduler_round
  scheduler_round-run f k k' j e =
      let m = x.acquire ptable_lock (if f then x.sti k.mach else x.hlt (x.sti k.mach)) in
      let w = x.random_at_most (sum_tickets 0 k.ptable) m in
      elim (Option-cases (draw 0 w.0 k.ptable)) [
        | inl n ↦
            let e' : idle (record k { mach = x.release ptable_lock w.1 }) ≡ run j k' =
              rw (scheduler_round, n) at e in
            cc
        | inr (i, d) ↦
            let e' : run i (dispatch i (record k { mach = w.1 })) ≡ run j k' =
              rw (scheduler_round, d) at e in
            (w.0, w.1, cc, cc)
      ]

  -- A round that runs none changes the machine only.
  pub scheduler_round-idles :
      (f : Bool) (k k' : Kernel M)
      → scheduler_round f k ≡ idle k'
      → (m : M) × (k' ≡ record k { mach = m })
  unfolding scheduler_round
  scheduler_round-idles f k k' e =
      let m = x.acquire ptable_lock (if f then x.sti k.mach else x.hlt (x.sti k.mach)) in
      let w = x.random_at_most (sum_tickets 0 k.ptable) m in
      elim (Option-cases (draw 0 w.0 k.ptable)) [
        | inl n ↦
            let e' : idle (record k { mach = x.release ptable_lock w.1 }) ≡ idle k' =
              rw (scheduler_round, n) at e in
            (x.release ptable_lock w.1, cc)
        | inr (i, d) ↦
            let e' : run i (dispatch i (record k { mach = w.1 })) ≡ idle k' =
              rw (scheduler_round, d) at e in
            cc
      ]
