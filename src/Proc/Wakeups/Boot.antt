-- ===== src/Proc/Wakeups/Boot.antt =====
-- wait and exit of hw3/proc.c from boot on.
use nyu_operating_systems.Base.{
  ℕ, ◌≡◌, ◌≢◌, false, Option, some, none, get_elem?, modify, replicate, get_elem?-replicate, inl,
  inr, ◌∙◌, ap,
}
use nyu_operating_systems.Proc.State.{runnable, is_zombie, Proc, Kernel, Externals, zero_proc}
use nyu_operating_systems.Proc.Alloc.{userinit}
use nyu_operating_systems.Proc.Valid.Leave.{slot_cases}
use nyu_operating_systems.Proc.Valid.Boot.{IsFresh, userinit-Inv, userinit-HasFirst}
use nyu_operating_systems.Proc.Valid.Steps.{Reach}
use nyu_operating_systems.Proc.Wakeups.{IsWaiting, Served}
use nyu_operating_systems.Proc.Wakeups.Steps.{AllElsewhere, Reach-IsServed}

-- One RUNNABLE process without a parent in a zeroed table.
first-Served :
    (init : Option ℕ) (n : ℕ) (h : Proc → Proc)
    → (h zero_proc).state ≡ runnable
    → (h zero_proc).parent ≡ none
    → Served init (modify (replicate n zero_proc) 0 h)
first-Served init n h ready orphan =
    let alone : (j : ℕ) (q : Proc)
        → get_elem? (modify (replicate n zero_proc) 0 h) j ≡ some q
        → q.parent ≡ none =
      λ j q e. elim (slot_cases (replicate n zero_proc) 0 h j q e) [
        | inl (same, (o, ho, d)) ↦
            let blank = get_elem?-replicate n zero_proc 0 ho in
            ap (λ z. z.parent) d ∙ ap (λ z. (h z).parent) blank ∙ orphan
        | inr (other, hq) ↦ ap (λ z. z.parent) (get_elem?-replicate n zero_proc j hq)
      ] in
    record {
      apart = λ j q e own. let none_yet = alone j q e in cc;
      orphan = λ j q is_init e. alone j q e;
      heard = λ i j p q e w e' up. let none_yet = alone j q e' in cc;
    }

module _ {M : Type 0} (x : Externals M) (k k' : Kernel M) (n : ℕ) where
  -- No wakeup is lost: in every kernel that is reached from a successful userinit on a zeroed table
  -- with a slot, pids from 1 and no current process, no child of a process that sleeps in wait, on
  -- the channel of its own slot, is a ZOMBIE. Of the code outside proc.c it is supposed that it
  -- does not sleep on the channel of a slot.
  pub boot-heard :
      {l : Kernel M} (i j : ℕ) (p q : Proc) (r : Reach x k' l)
      → IsFresh x k k' n
      → n ≢ 0
      → userinit x k ≡ some k'
      → AllElsewhere x r
      → get_elem? l.ptable i ≡ some p
      → IsWaiting i p
      → get_elem? l.ptable j ≡ some q
      → q.parent ≡ some i
      → is_zombie q.state ≡ false
  boot-heard i j p q r fresh slots e elsewhere =
      let (h, table, ready, orphan) = userinit-HasFirst x k k' n fresh slots e in
      let served : Served k'.initproc k'.ptable =
        rw table (first-Served k'.initproc n h ready orphan) in
      (Reach-IsServed x r elsewhere (userinit-Inv x k k' n fresh slots e) served).heard i j p q
