-- ===== src/Proc/Valid/Boot.antt =====
-- userinit (hw3/proc.c) makes the first process in a zeroed table, and so starts the invariant.
use nyu_operating_systems.Base.{
  ℕ, zero, suc, ◌-◌, ◌≡◌, ◌≢◌, refl, List, none, some, arith, get_elem?, get_elem?-replicate,
  modify, modify-modify, Bool-cases, inl, inr, ◌⊎◌, some-inj, replicate, ap, sym, ◌∙◌, ◌==◌,
}
use nyu_operating_systems.Proc.State.{runnable, Proc, Kernel, Externals, zero_proc}
use nyu_operating_systems.Proc.Alloc.{
  find_unused, claim, lay_out_stack, user_image, first_user, userinit,
}
use nyu_operating_systems.Proc.Valid.{IsValid}
use nyu_operating_systems.Proc.Valid.Fill.{
  claimed, allocproc-some, give_stack-none, give_stack-some, IsValid-eq,
}
use nyu_operating_systems.Proc.Valid.Fork.{remodify}
use nyu_operating_systems.Proc.Valid.Steps.{Inv, Reach, Reach-Inv}

-- One process in a zeroed table.
module _ (n : ℕ) (h : Proc → Proc) (ready : (h zero_proc).state ≡ runnable)
    (pid : (h zero_proc).pid ≡ 1) (orphan : (h zero_proc).parent ≡ none) where
  first_table : List Proc
  first_table = modify (replicate (suc n) zero_proc) 0 h

  first_cases :
      (j : ℕ) (q : Proc)
      → get_elem? first_table j ≡ some q
      → ((j ≡ 0) × (q ≡ h zero_proc)) ⊎ (q ≡ zero_proc)
  unfolding first_table
  first_cases zero q e = inl (refl, ground arith)
  first_cases (suc j) q e = inr (get_elem?-replicate n zero_proc j e)

  first_table-IsValid : IsValid first_table 2 none (some 0)
  first_table-IsValid = record {
    fresh = λ i q e u. elim (first_cases i q e) [
      | inl s ↦ ground arith
      | inr s ↦ absurd (ground arith)
    ];
    unique = λ i j q q' e e' u u' same. elim (first_cases i q e) [
      | inl s ↦ elim (first_cases j q' e') [
        | inl s' ↦ ground arith
        | inr s' ↦ absurd (ground arith)
      ]
      | inr s ↦ absurd (ground arith)
    ];
    kept = λ i j q e up. elim (first_cases i q e) [
      | inl s ↦ absurd (ground arith)
      | inr s ↦ absurd (ground arith)
    ];
    clean = λ i q e u. elim (first_cases i q e) [ inl s ↦ ground arith | inr s ↦ ground arith ];
    sole = λ i q e run. elim (first_cases i q e) [
      | inl s ↦ absurd (ground arith)
      | inr s ↦ absurd (ground arith)
    ];
    reaper = (0, refl, (h zero_proc, unfold first_table in refl, ground arith));
    counts = omega arith;
  }

module _ {M : Type 0} (x : Externals M) (k k' : Kernel M) (n : ℕ) where
  -- A zeroed table of `n` slots, pids that start at 1, no process on the CPU.
  pub record IsFresh : Type 0 where
    pub table : k.ptable ≡ replicate n zero_proc
    pub pids : k.nextpid ≡ 1
    pub cpu : k.proc ≡ none

  -- What userinit does to a process in slot `i` once it has one.
  image-writes :
      (k : Kernel M) (i : ℕ)
      → user_image x i k ≡ some k'
      → (h : Proc → Proc) × (k'.ptable ≡ modify k.ptable i h)
        × ((p : Proc) → ((h p).state ≡ runnable) × ((h p).pid ≡ p.pid) × ((h p).parent ≡ p.parent))
        × (k'.nextpid ≡ k.nextpid)
        × (k'.proc ≡ k.proc)
        × (k'.initproc ≡ k.initproc)
  unfolding user_image
  image-writes k i e = elim (Bool-cases ((x.setupkvm k.mach).0 == 0)) [
    | inl z ↦ let e' : none ≡ some k' = rw (user_image, z) at e in cc
    | inr z ↦
        let pg = (x.setupkvm k.mach).0 in
        let dir = (x.namei_root (x.inituvm pg (x.setupkvm k.mach).1)).0 in
        let h : Proc → Proc = λ p. record p {
          pgdir = pg;
          sz = x.pgsize;
          name = x.safestrcpy p.name x.initcode_name;
          cwd = dir;
          state = runnable;
        } in
        let same = some-inj (rw (user_image, z) at e) in
        (
          h,
          sym (ap (λ (l : Kernel M). l.ptable) same),
          (λ p. (refl, refl, refl)),
          sym (ap (λ (l : Kernel M). l.nextpid) same),
          sym (ap (λ (l : Kernel M). l.proc) same),
          sym (ap (λ (l : Kernel M). l.initproc) same),
        )
  ]

  module _ (f : IsFresh) (some_slot : n ≢ 0) where
    -- From slot 0 and its kernel stack on.
    image-Inv :
        (l : Kernel M) (g : Proc → Proc)
        → l.ptable ≡ modify k.ptable 0 g
        → l.nextpid ≡ 2
        → l.proc ≡ none
        → (g zero_proc).pid ≡ 1
        → (g zero_proc).parent ≡ none
        → user_image x 0 (record l { initproc = some 0 }) ≡ some k'
        → Inv x k'
    image-Inv l g table pids cpu pid orphan e =
        let (h, t, facts, n', p', i') = image-writes (record l { initproc = some 0 }) 0 e in
        let (ready, same, up) = facts (g zero_proc) in
        let whole : n ≡ suc (n - 1) = omega arith in
        record {
          valid =
              IsValid-eq
                (t
                  ∙ remodify k.ptable 0 g h table
                  ∙ ap (λ r. modify r 0 (λ p. h (g p)))
                      (f.table ∙ ap (λ c. replicate c zero_proc) whole))
                (n' ∙ pids) (p' ∙ cpu) i'
                (unfold first_table in
                  first_table-IsValid (n - 1) (λ p. h (g p)) ready (same ∙ pid) (up ∙ orphan));
          busy = λ i b. cc;
        }

    free_slot : find_unused k.ptable ≡ some 0
    unfolding find_unused
    free_slot =
        let whole : n ≡ suc (n - 1) = omega arith in
        ap find_unused (f.table ∙ ap (λ c. replicate c zero_proc) whole)

    -- If userinit succeeds on a fresh kernel with a slot, the invariant holds.
    pub userinit-Inv : userinit x k ≡ some k' → Inv x k'
    unfolding userinit claim lay_out_stack
    userinit-Inv e = elim (Bool-cases ((x.kalloc (claimed x k 0).mach).0 == 0)) [
      | inl a ↦
          let none_made =
            sym (
              ap (first_user x)
                (allocproc-some x k 0 free_slot ∙ give_stack-none x k 0 (claimed x k 0) a))
            ∙ e in
          cc
      | inr a ↦
          image-Inv
            (lay_out_stack x 0 (x.kalloc (claimed x k 0).mach).0
              (record (claimed x k 0) { mach = (x.kalloc (claimed x k 0).mach).1 }))
            _ (modify-modify k.ptable 0 _ _) (ground arith) f.cpu f.pids refl
            (sym (
                ap (first_user x)
                  (allocproc-some x k 0 free_slot ∙ give_stack-some x k 0 (claimed x k 0) a))
              ∙ e)
    ]

    -- The table after userinit: slot 0 has a process that is RUNNABLE and has no parent.
    abbrev pub HasFirst : Type 0
    HasFirst =
        (h : Proc → Proc) × (k'.ptable ≡ modify (replicate n zero_proc) 0 h)
        × ((h zero_proc).state ≡ runnable)
        × ((h zero_proc).parent ≡ none)

    image-HasFirst :
        (l : Kernel M) (g : Proc → Proc)
        → l.ptable ≡ modify k.ptable 0 g
        → (g zero_proc).parent ≡ none
        → user_image x 0 (record l { initproc = some 0 }) ≡ some k'
        → HasFirst
    image-HasFirst l g table orphan e =
        let (h, t, facts, n', p', i') = image-writes (record l { initproc = some 0 }) 0 e in
        let (ready, same, up) = facts (g zero_proc) in
        (
          λ p. h (g p),
          t ∙ remodify k.ptable 0 g h table ∙ ap (λ r. modify r 0 (λ p. h (g p))) f.table,
          ready,
          up ∙ orphan,
        )

    pub userinit-HasFirst : userinit x k ≡ some k' → HasFirst
    unfolding userinit claim lay_out_stack
    userinit-HasFirst e = elim (Bool-cases ((x.kalloc (claimed x k 0).mach).0 == 0)) [
      | inl a ↦
          let none_made =
            sym (
              ap (first_user x)
                (allocproc-some x k 0 free_slot ∙ give_stack-none x k 0 (claimed x k 0) a))
            ∙ e in
          cc
      | inr a ↦
          image-HasFirst
            (lay_out_stack x 0 (x.kalloc (claimed x k 0).mach).0
              (record (claimed x k 0) { mach = (x.kalloc (claimed x k 0).mach).1 }))
            _ (modify-modify k.ptable 0 _ _) refl
            (sym (
                ap (first_user x)
                  (allocproc-some x k 0 free_slot ∙ give_stack-some x k 0 (claimed x k 0) a))
              ∙ e)
    ]

    -- In every kernel that is reached from a successful userinit on a zeroed table, with pids from 1
    -- and no current process: used slots have different pids below nextpid, every parent is a
    -- process that can still wait, an unused slot has no parent, init is alive, no process but the
    -- CPU's is RUNNING, and the CPU's process is RUNNING.
    pub boot-Inv : {l : Kernel M} → userinit x k ≡ some k' → Reach x k' l → Inv x l
    boot-Inv e r = Reach-Inv x r (userinit-Inv e)
