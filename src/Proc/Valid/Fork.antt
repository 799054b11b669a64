-- ===== src/Proc/Valid/Fork.antt =====
-- fork of hw3/proc.c keeps the invariant of the table.
use nyu_operating_systems.Base.{
  ℕ, ◌+◌, ◌^◌, ◌<◌, ◌≡◌, refl, true, false, List, some, arith, modify, modify-modify, Bool-cases,
  Option-cases, inl, inr, ◌==◌, ap, subst, sym, ◌∙◌,
}
use nyu_operating_systems.Proc.State.{Proc, Kernel, Externals, deref}
use nyu_operating_systems.Proc.Alloc.{
  find_unused, claim, lay_out_stack, fork, fork_copy, fork_undo, fork_new, inherit, unmap,
  dup_files,
}
use nyu_operating_systems.Proc.Valid.{IsValid, Valid, LiveAt}
use nyu_operating_systems.Proc.Valid.Fill.{
  Grown, IsValid-eq, Untouched, allocproc-none, allocproc-some, claimed, claimed-Valid,
  give_stack-none, give_stack-some,
}

pub remodify :
    (t : List Proc) {t' : List Proc} (i : ℕ) (g h : Proc → Proc)
    → t' ≡ modify t i g
    → modify t' i h ≡ modify t i (λ p. h (g p))
remodify t i g h e = ap (λ s. modify s i h) e ∙ modify-modify t i g h

module _ {M : Type 0} (x : Externals M) (me : ℕ) where
  pub fork_new-fails :
      (i : ℕ) (k : Kernel M)
      → ((x.copyuvm (deref k me).pgdir (deref k me).sz k.mach).0 == 0) ≡ true
      → (fork_new x me (some i, k)).1
        ≡ fork_undo x i
            (record k { mach = (x.copyuvm (deref k me).pgdir (deref k me).sz k.mach).1 })
  unfolding fork_new
  fork_new-fails i k z = rw (fork_new, z)

  pub fork_new-copies :
      (i : ℕ) (k : Kernel M)
      → let (pg, m) = x.copyuvm (deref k me).pgdir (deref k me).sz k.mach in
        (pg == 0) ≡ false → fork_new x me (some i, k) ≡ fork_copy x me i pg (record k { mach = m })
  unfolding fork_new
  fork_new-copies i k z = rw (fork_new, z)

  module _ (k k' : Kernel M) (i : ℕ) (g : Proc → Proc) (v : Valid k) (l : LiveAt k.ptable me)
      (room : k.nextpid + 1 < 2 ^ 32) (e : find_unused k.ptable ≡ some i)
      (table : k'.ptable ≡ modify k.ptable i g) (pids : k'.nextpid ≡ (claimed x k i).nextpid)
      (procs : k'.proc ≡ k.proc) (inits : k'.initproc ≡ k.initproc)
      (facts : (p : Proc) → ((g p).pid ≡ k.nextpid) × ((g p).parent ≡ p.parent)) where
    Grown-eq :
        {t' : List Proc} {n : ℕ}
        → IsValid t' n k.proc k.initproc × Untouched k.ptable t'
        → IsValid t' n k'.proc k'.initproc × Untouched k.ptable t'
    Grown-eq (w, same) = (IsValid-eq refl refl procs inits w, same)

    fork_undo-Valid : (m : M) → Grown k.ptable (fork_undo x i (record k' { mach = m }))
    unfolding fork_undo
    fork_undo-Valid m = Grown-eq (
        claimed-Valid x k i v room e (λ p. unmap (g p)) (remodify k.ptable i g unmap table) pids
          (λ p. (refl, (λ w. (facts p).1), (λ w. cc), (λ j up. inl (sym (facts p).1 ∙ up)))))

    fork_copy-Valid :
        (pg : ℕ) (m : M) → Grown k.ptable (fork_copy x me i pg (record k' { mach = m })).1
    unfolding fork_copy
    fork_copy-Valid pg m =
        let p = deref k' me in
        let files = dup_files x p.ofile (deref k' i).ofile m in
        let h = inherit me pg p files.0 (x.idup p.cwd files.1).0 (λ n. x.safestrcpy n p.name) in
        Grown-eq (
          claimed-Valid x k i v room e (λ p. h (g p)) (remodify k.ptable i g h table) pids
            (λ p. (
              refl,
              (λ w. cc),
              (λ w. (facts p).0),
              (λ j up. inr (subst (λ z. LiveAt k.ptable z) (ground arith) l)),
            )))

    fork_new-Valid : Grown k.ptable (fork_new x me (some i, k')).1
    fork_new-Valid =
        elim (Bool-cases ((x.copyuvm (deref k' me).pgdir (deref k' me).sz k'.mach).0 == 0)) [
          | inl z ↦ rw (fork_new-fails i k' z) (fork_undo-Valid _)
          | inr z ↦ rw (fork_new-copies i k' z) (fork_copy-Valid _ _)
        ]

  -- If pids have not run out, fork by a process that lives keeps the invariant, and changes no
  -- process that there is.
  pub fork-Valid :
      (k : Kernel M)
      → Valid k
      → LiveAt k.ptable me
      → k.nextpid + 1 < 2 ^ 32
      → Grown k.ptable (fork x me k).1
  unfolding fork claim lay_out_stack
  fork-Valid k v l room = elim (Option-cases (find_unused k.ptable)) [
    | inl n ↦ rw (allocproc-none x k n) (v, λ j p e used. e)
    | inr (i, e) ↦ elim (Bool-cases ((x.kalloc (claimed x k i).mach).0 == 0)) [
      | inl a ↦
          rw (allocproc-some x k i e, give_stack-none x k i (claimed x k i) a)
            (claimed-Valid x k i v room e _ (modify-modify k.ptable i _ _) refl
              (λ p. (refl, (λ w. refl), (λ w. cc), (λ j up. inl up))))
      | inr a ↦
          rw (allocproc-some x k i e, give_stack-some x k i (claimed x k i) a)
            (fork_new-Valid k _ i _ v l room e (modify-modify k.ptable i _ _) refl refl refl
              (λ p. (refl, refl)))
    ]
  ]
