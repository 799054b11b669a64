-- ===== src/Proc/Tests/Life.antt =====
-- The life of the processes of the small kernel: init is elected, and forks.
use nyu_operating_systems.Base.{
  ℕ, ◌≡◌, ◌≢◌, ◌⊎◌, inl, inr, refl, arith, get_or, get_elem?, sym, some-inj, zero, suc, some, List,
  [], ◌∷◌,
}
use nyu_operating_systems.Proc.State.{Proc, zero_proc}
use nyu_operating_systems.Proc.Alloc.{
  fork, fork_new, fork_copy, allocproc, claim, give_stack, lay_out_stack, find_unused,
}
use nyu_operating_systems.Proc.Lottery.{scheduler_round, draw, sum_tickets, dispatch}
use nyu_operating_systems.Proc.Valid.Steps.{Inv, start, later, forks}
use nyu_operating_systems.Proc.Exit.{wait, wait_round, scan_children, reap, clear_proc}
use nyu_operating_systems.Proc.Life.Once.{wait-once}
use nyu_operating_systems.Proc.Life.{Moved}
use nyu_operating_systems.Proc.Life.Steps.{Step-Moved, IsOld, pid-IsOld}
use nyu_operating_systems.Proc.Tests.Toy.{toy, kernel, init_proc, dead_proc}
use nyu_operating_systems.Proc.Tests.Boot.{elected, elected_proc, elected-Inv}

Step-Moved_example : Moved elected.nextpid elected.ptable (fork toy 0 elected).1.ptable
Step-Moved_example =
    Step-Moved toy (forks 0 elected_proc.0 (omega (arith, elected_proc.1))) elected-Inv

-- init, before and after.
pid-IsOld_example : IsOld toy elected 0 1
unfolding elected fork fork_new fork_copy allocproc claim give_stack lay_out_stack find_unused
    scheduler_round draw sum_tickets dispatch
pid-IsOld_example =
    pid-IsOld toy 0 (get_or (fork toy 0 elected).1.ptable 0 zero_proc)
      (later start (forks 0 elected_proc.0 (omega (arith, elected_proc.1)))) elected-Inv refl refl
      (omega (arith, elected_proc.1))

-- init runs, and its two children have ended.
abbrev two_dead : List Proc
two_dead = init_proc ∷ record dead_proc { pid = 2 } ∷ dead_proc ∷ []

abbrev ThreeSlots : ℕ → Proc → Type 0
ThreeSlots i p =
    ((i ≡ 0) × (p ≡ init_proc))
    ⊎ ((i ≡ 1) × (p ≡ record dead_proc { pid = 2 }))
    ⊎ ((i ≡ 2) × (p ≡ dead_proc))

slots : (i : ℕ) (p : Proc) → get_elem? two_dead i ≡ some p → ThreeSlots i p
slots zero p e = inl (refl, sym (some-inj e))
slots (suc zero) p e = inr (inl (refl, sym (some-inj e)))
slots (suc (suc zero)) p e = inr (inr (refl, sym (some-inj e)))
slots (suc (suc (suc i))) p e = absurd (cc)

two_dead-Inv : Inv toy (kernel two_dead (some 0))
two_dead-Inv = record {
  valid = record {
    fresh = λ i p e u. ground (arith, slots i p e);
    unique = λ i j p q e e' u u' same. ground (arith, slots i p e, slots j q e');
    kept = λ i j p e up. (init_proc, ground (arith, slots i p e), refl);
    clean = λ i p e u. ground (arith, slots i p e);
    sole = λ i p e on. ground (arith, slots i p e);
    reaper = (0, refl, (init_proc, refl, refl));
    counts = omega arith;
  };
  busy = λ i e. (init_proc, ground arith, refl);
}

-- init waits twice.
wait-once_example : dead_proc.pid ≢ 2
unfolding wait wait_round scan_children reap clear_proc
wait-once_example =
    let k1 = kernel two_dead (some 0) in
    wait-once toy {k = k1} 0 0 2 3 two_dead-Inv refl refl (λ e. omega arith) start refl
      (λ e. omega arith)
