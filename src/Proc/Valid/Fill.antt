-- ===== src/Proc/Valid/Fill.antt =====
-- allocproc and fork (hw3/proc.c) keep the invariant of the table.
use nyu_operating_systems.Base.{
  ℕ, zero, suc, ◌+◌, ◌^◌, ◌<◌, ◌≡◌, ◌≢◌, refl, true, false, List, [], ◌∷◌, Option, none, some,
  arith, get_elem?, modify, get_elem?-modify, modify-modify, Bool-cases, Option-cases, inl, inr,
  ◌⊎◌, ◌==◌, ap, ◌∙◌,
}
use nyu_operating_systems.Proc.State.{
  unused, is_unused, is_running, Proc, Kernel, Externals, write, ptable_lock,
}
use nyu_operating_systems.Proc.Alloc.{find_unused, claim, give_stack, lay_out_stack, allocproc}
use nyu_operating_systems.Proc.Valid.{IsValid, Valid, LiveAt}

module _ {t : List Proc} {n : ℕ} {proc init : Option ℕ} (i : ℕ) (f : Proc → Proc) (p : Proc)
    (v : IsValid t n proc init) (h : get_elem? t i ≡ some p) (u : is_unused p.state ≡ true) where
  LiveAt-modify : (j : ℕ) → LiveAt t j → LiveAt (modify t i f) j
  LiveAt-modify j (q, e, l) = (q, ground (arith, get_elem?-modify t i j f), l)

  -- Slot `j` of the new table, as one of the old table or the new process.
  slot_cases :
      (j : ℕ) (q : Proc)
      → get_elem? (modify t i f) j ≡ some q
      → ((j ≡ i) × (q ≡ f p)) ⊎ ((j ≢ i) × (get_elem? t j ≡ some q))
  slot_cases j q e = elim (Bool-cases (i == j)) [
    | inl s ↦ inl (ground arith, ground (arith, get_elem?-modify t i j f))
    | inr s ↦ inr (ground arith, ground (arith, get_elem?-modify t i j f))
  ]

  -- An unused slot is given a process with the next pid, or is left unused.
  fill-IsValid :
      is_running (f p).state ≡ false
      → (is_unused (f p).state ≡ true → (f p).parent ≡ none)
      → (is_unused (f p).state ≡ false → (f p).pid ≡ n)
      → ((j : ℕ) → (f p).parent ≡ some j → LiveAt t j)
      → IsValid (modify t i f) (n + 1) proc init
  fill-IsValid parked clean named live = record {
    fresh = λ j q e used. elim (slot_cases j q e) [
      | inl (s, d) ↦
          let w : is_unused (f p).state ≡ false = rw (← d) used in
          omega (arith, v.counts, named w, ap (λ (z : Proc). z.pid) d)
      | inr (s, d) ↦ omega (arith, v.fresh j q d used)
    ];
    unique = λ j l q r e e' used used' same. elim (slot_cases j q e) [
      | inl (s, d) ↦ elim (slot_cases l r e') [
        | inl (s', d') ↦ omega arith
        | inr (s', d') ↦ absurd (ground (arith, named, v.fresh l r d' used'))
      ]
      | inr (s, d) ↦ elim (slot_cases l r e') [
        | inl (s', d') ↦ absurd (ground (arith, named, v.fresh j q d used))
        | inr (s', d') ↦ v.unique j l q r d d' used used' same
      ]
    ];
    kept = λ j l q e up. elim (slot_cases j q e) [
      | inl (s, d) ↦ LiveAt-modify l (live l (rw (← d) up))
      | inr (s, d) ↦ LiveAt-modify l (v.kept j l q d up)
    ];
    clean = λ j q e un. elim (slot_cases j q e) [
      | inl (s, d) ↦ ground (arith, clean)
      | inr (s, d) ↦ v.clean j q d un
    ];
    sole = λ j q e run. elim (slot_cases j q e) [
      | inl (s, d) ↦ ground arith
      | inr (s, d) ↦ v.sole j q d run
    ];
    reaper = let (j, e, l) = v.reaper in (j, e, LiveAt-modify j l);
    counts = omega (arith, v.counts);
  }

pub find_unused_lem :
    (t : List Proc) (i : ℕ)
    → find_unused t ≡ some i
    → (p : Proc) × (get_elem? t i ≡ some p) × (is_unused p.state ≡ true)
unfolding find_unused
find_unused_lem [] i e = cc
find_unused_lem (p ∷ ps) zero e = (p, refl, ground arith)
find_unused_lem (p ∷ ps) (suc i) e = find_unused_lem ps i (ground arith)

-- Every process of `t` is in `t'` as it was.
abbrev pub Untouched : List Proc → List Proc → Type 0
Untouched t t' =
    (j : ℕ) (p : Proc)
    → get_elem? t j ≡ some p
    → is_unused p.state ≡ false
    → get_elem? t' j ≡ some p

-- The invariant of a kernel that has come from the table `t`, whose processes are untouched.
abbrev pub Grown : {M : Type 0} → List Proc → Kernel M → Type 0
Grown t k = Valid k × Untouched t k.ptable

pub IsValid-eq :
    {t t' : List Proc} {n n' : ℕ} {p p' i i' : Option ℕ}
    → t' ≡ t
    → n' ≡ n
    → p' ≡ p
    → i' ≡ i
    → IsValid t n p i
    → IsValid t' n' p' i'
IsValid-eq a b c d v = rw (a, b, c, d) v

module _ {M : Type 0} (x : Externals M) (k : Kernel M) where
  -- The kernel in which allocproc asks for a stack.
  abbrev pub claimed : ℕ → Kernel M
  claimed i = claim x i (record k { mach = x.acquire ptable_lock k.mach })

  pub give_stack-none :
      (i : ℕ) (k : Kernel M)
      → ((x.kalloc k.mach).0 == 0) ≡ true
      → give_stack x i k ≡ (
        none,
        write
            (record k { mach = (x.kalloc k.mach).1 })
            i
            (λ p. record p { kstack = 0; state = unused }),
      )
  unfolding give_stack
  give_stack-none i k a = rw (give_stack, a)

  pub give_stack-some :
      (i : ℕ) (k : Kernel M)
      → ((x.kalloc k.mach).0 == 0) ≡ false
      → give_stack x i k
        ≡ (some i, lay_out_stack x i (x.kalloc k.mach).0 (record k { mach = (x.kalloc k.mach).1 }))
  unfolding give_stack
  give_stack-some i k a = rw (give_stack, a)

  pub allocproc-none :
      find_unused k.ptable ≡ none
      → allocproc x k
        ≡ (none, record k { mach = x.release ptable_lock (x.acquire ptable_lock k.mach) })
  unfolding allocproc
  allocproc-none e = rw (allocproc, e)

  pub allocproc-some :
      (i : ℕ) → find_unused k.ptable ≡ some i → allocproc x k ≡ give_stack x i (claimed i)
  unfolding allocproc
  allocproc-some i e = rw (allocproc, e)

  module _ (i : ℕ) (v : Valid k) (room : k.nextpid + 1 < 2 ^ 32)
      (e : find_unused k.ptable ≡ some i) where
    -- Whatever becomes of the claimed slot, the invariant holds if its process is parked, and has
    -- a parent that lives.
    pub claimed-Valid :
        {t' : List Proc} {pids : ℕ} (f : Proc → Proc)
        → t' ≡ modify k.ptable i f
        → pids ≡ (claimed i).nextpid
        → ((p : Proc)
            → (is_running (f p).state ≡ false)
              × (is_unused (f p).state ≡ true → (f p).parent ≡ p.parent)
              × (is_unused (f p).state ≡ false → (f p).pid ≡ k.nextpid)
              × ((j : ℕ) → (f p).parent ≡ some j → (p.parent ≡ some j) ⊎ LiveAt k.ptable j))
        → IsValid t' pids k.proc k.initproc × Untouched k.ptable t'
    unfolding claim
    claimed-Valid {pids = pids} f table last facts =
        let (p, h, u) = find_unused_lem k.ptable i e in
        let (parked, clean, named, live) = facts p in
        let none_yet : p.parent ≡ none = v.clean i p h u in
        let next : pids ≡ k.nextpid + 1 = last ∙ omega arith in
        (
          IsValid-eq table next refl refl (
              fill-IsValid i f p v h u parked (λ w. clean w ∙ none_yet) named
                (λ j up. elim (live j up) [ inl old ↦ cc | inr l ↦ l ])),
          λ j q e used. rw table (ground (arith, get_elem?-modify k.ptable i j f)),
        )

  -- If pids have not run out, allocproc keeps the invariant, and changes no process that there is.
  allocproc-Valid : Valid k → k.nextpid + 1 < 2 ^ 32 → Grown k.ptable (allocproc x k).1
  unfolding claim lay_out_stack
  allocproc-Valid v room = elim (Option-cases (find_unused k.ptable)) [
    | inl n ↦ rw (allocproc-none n) (v, λ j p e used. e)
    | inr (i, e) ↦ elim (Bool-cases ((x.kalloc (claimed i).mach).0 == 0)) [
      | inl a ↦
          rw (allocproc-some i e, give_stack-none i (claimed i) a)
            (claimed-Valid i v room e _ (modify-modify k.ptable i _ _) refl
              (λ p. (refl, (λ w. refl), (λ w. cc), (λ j up. inl up))))
      | inr a ↦
          rw (allocproc-some i e, give_stack-some i (claimed i) a)
            (claimed-Valid i v room e _ (modify-modify k.ptable i _ _) refl
              (λ p. (refl, (λ w. refl), (λ w. refl), (λ j up. inl up))))
    ]
  ]
