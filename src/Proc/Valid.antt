-- ===== src/Proc/Valid.antt =====
-- The invariant of the process table of hw3/proc.c.
pub mod Wake
pub mod Fill
pub mod Fork
pub mod Leave
pub mod Reap
pub mod Steps
pub mod Boot
use nyu_operating_systems.Base.{
  ℕ, zero, suc, ◌+◌, ◌<◌, ◌≡◌, refl, Bool, true, false, List, Option, none, some, arith, get_elem?,
  modify, on_some, if◌then◌else◌, ◌==◌, get_elem?-modify, get_elem?-map, map, Option-cases, inl,
  inr,
}
use nyu_operating_systems.Proc.State.{
  Procstate, sleeping, runnable, running, is_unused, is_running, Proc, Kernel,
}

-- SLEEPING, RUNNABLE or RUNNING: the process can still wait for its children.
abbrev pub is_live : Procstate → Bool
is_live sleeping = true
is_live runnable = true
is_live running = true
is_live _ = false

-- A process in slot `i` that can still wait.
abbrev pub LiveAt : List Proc → ℕ → Type 0
LiveAt t i = (p : Proc) × (get_elem? t i ≡ some p) × (is_live p.state ≡ true)

pub record IsValid (t : List Proc) (nextpid : ℕ) (proc init : Option ℕ) : Type 0 where
  -- a used slot has a pid that was handed out
  pub fresh :
      (i : ℕ) (p : Proc)
      → get_elem? t i ≡ some p
      → is_unused p.state ≡ false
      → (0 < p.pid) × (p.pid < nextpid)
  -- no two used slots have the same pid
  pub unique :
      (i j : ℕ) (p q : Proc)
      → get_elem? t i ≡ some p
      → get_elem? t j ≡ some q
      → is_unused p.state ≡ false
      → is_unused q.state ≡ false
      → p.pid ≡ q.pid
      → i ≡ j
  -- a parent can still wait
  pub kept : (i j : ℕ) (p : Proc) → get_elem? t i ≡ some p → p.parent ≡ some j → LiveAt t j
  -- an unused slot has no parent
  pub clean :
      (i : ℕ) (p : Proc) → get_elem? t i ≡ some p → is_unused p.state ≡ true → p.parent ≡ none
  -- only the CPU's current process runs
  pub sole : (i : ℕ) (p : Proc) → get_elem? t i ≡ some p → is_running p.state ≡ true → proc ≡ some i
  -- init is alive
  pub reaper : (i : ℕ) × (init ≡ some i) × LiveAt t i
  pub counts : 0 < nextpid

abbrev pub Valid : {M : Type 0} → Kernel M → Type 0
Valid k = IsValid k.ptable k.nextpid k.proc k.initproc

-- A process before and after an operation that changes neither who it is nor whether it lives.
abbrev pub Same : Proc → Proc → Type 0
Same p q =
    (q.pid ≡ p.pid)
    × (q.parent ≡ p.parent)
    × (is_unused q.state ≡ is_unused p.state)
    × (is_live q.state ≡ is_live p.state)

-- Slot by slot, `t'` holds the processes of `t`.
pub record SameTable (t t' : List Proc) : Type 0 where
  pub back :
      (j : ℕ) (q : Proc)
      → get_elem? t' j ≡ some q
      → (p : Proc) × (get_elem? t j ≡ some p) × Same p q
  pub forth :
      (j : ℕ) (p : Proc)
      → get_elem? t j ≡ some p
      → (q : Proc) × (get_elem? t' j ≡ some q) × Same p q

SameTable-modify :
    (t : List Proc) (i : ℕ) (f : Proc → Proc)
    → ((p : Proc) → get_elem? t i ≡ some p → Same p (f p))
    → SameTable t (modify t i f)
SameTable-modify t i f same = record { back = back; forth = forth }
  where
    back :
        (j : ℕ) (q : Proc)
        → get_elem? (modify t i f) j ≡ some q
        → (p : Proc) × (get_elem? t j ≡ some p) × Same p q
    back j q e = elim (Option-cases (get_elem? t j)) [
      | inl n ↦ absurd (ground (arith, get_elem?-modify t i j f))
      | inr (p, h) ↦ (p, h, ground (arith, get_elem?-modify t i j f, same p))
    ]

    forth :
        (j : ℕ) (p : Proc)
        → get_elem? t j ≡ some p
        → (q : Proc) × (get_elem? (modify t i f) j ≡ some q) × Same p q
    forth j p e = (
      (if i == j then f p else p),
      ground (arith, get_elem?-modify t i j f),
      ground (arith, same p),
    )

pub SameTable-map :
    (t : List Proc) (f : Proc → Proc) → ((p : Proc) → Same p (f p)) → SameTable t (map f t)
SameTable-map t f same = record {
  back = λ j q e. elim (Option-cases (get_elem? t j)) [
    | inl n ↦ absurd (ground (arith, get_elem?-map f t j))
    | inr (p, h) ↦ (p, h, ground (arith, get_elem?-map f t j, same p))
  ];
  forth = λ j p e. (f p, ground (arith, get_elem?-map f t j), same p);
}

-- The invariant holds of the same processes, if those that run are the CPU's.
pub SameTable-IsValid :
    {t t' : List Proc} {n : ℕ} {proc proc' init : Option ℕ}
    → SameTable t t'
    → ((i : ℕ) (p : Proc) → get_elem? t' i ≡ some p → is_running p.state ≡ true → proc' ≡ some i)
    → IsValid t n proc init
    → IsValid t' n proc' init
SameTable-IsValid {t} {t'} {n} {proc} {proc'} {init} s run v = record {
  fresh = λ i q e u. let (p, h, a) = s.back i q e in ground (arith, v.fresh i p);
  unique = λ i j q q' e e' u u' same.
      let (p, h, a) = s.back i q e in
      let (p', h', a') = s.back j q' e' in ground (arith, v.unique i j p p');
  kept = λ i j q e up.
      let (p, h, a) = s.back i q e in
      let (r, l, alive) = v.kept i j p h (ground arith) in
      let (r', l', a') = s.forth j r l in (r', l', ground arith);
  clean = λ i q e u. let (p, h, a) = s.back i q e in ground (arith, v.clean i p);
  sole = run;
  reaper =
      let (i, e, at_init) = v.reaper in
      let (r, l, alive) = at_init in
      let (r', l', a') = s.forth i r l in (i, e, (r', l', ground arith));
  counts = v.counts;
}

-- A write to one slot that keeps its process the same, made with `proc` as its current process
-- from then on.
pub modify-IsValid :
    {t : List Proc} {n : ℕ} {proc init : Option ℕ} (proc' : Option ℕ) (i : ℕ) (f : Proc → Proc)
    → ((p : Proc) → get_elem? t i ≡ some p → Same p (f p))
    → ((p : Proc) → get_elem? t i ≡ some p → is_running (f p).state ≡ true → proc' ≡ some i)
    → ((j : ℕ) (p : Proc) → get_elem? t j ≡ some p → is_running p.state ≡ true → proc' ≡ some j)
    → IsValid t n proc init
    → IsValid (modify t i f) n proc' init
modify-IsValid {t} proc' i f same here there v =
    SameTable-IsValid (SameTable-modify t i f same)
      (λ j q e r. elim (Option-cases (get_elem? t j)) [
        | inl n ↦ absurd (ground (arith, get_elem?-modify t i j f))
        | inr (p, h) ↦ ground (arith, get_elem?-modify t i j f, here p, there j p)
      ])
      v
