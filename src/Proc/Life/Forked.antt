-- ===== src/Proc/Life/Forked.antt =====
-- What fork of hw3/proc.c does to the table: nothing, or it fills an unused slot.
use nyu_operating_systems.Base.{
  ℕ, ◌≡◌, ◌⊎◌, refl, List, Option, some, modify, modify-modify, Bool-cases, Option-cases, inl, inr,
  ◌==◌,
}
use nyu_operating_systems.Base.Words.{add32}
use nyu_operating_systems.Proc.State.{unused, runnable, Proc, Kernel, Externals, deref}
use nyu_operating_systems.Proc.Alloc.{
  find_unused, claim, lay_out_stack, fork, fork_copy, fork_undo, fork_new, unmap, inherit,
  dup_files,
}
use nyu_operating_systems.Proc.Valid.Fill.{
  claimed, allocproc-none, allocproc-some, give_stack-none, give_stack-some,
}
use nyu_operating_systems.Proc.Valid.Fork.{remodify, fork_new-fails, fork_new-copies}

-- The slot p stays unused, or holds a child of `me` with the pid n.
abbrev pub Fills : ℕ → ℕ → Proc → Proc → Type 0
Fills me n p q =
    ((q.state ≡ unused) × (q.parent ≡ p.parent))
    ⊎ ((q.state ≡ runnable) × (q.pid ≡ n) × (q.parent ≡ some me))

-- The table and nextpid after fork by `me`; init stays.
abbrev pub Forked : {M : Type 0} → ℕ → Kernel M → List Proc → ℕ → Option ℕ → Type 0
Forked me k t n init =
    ((t ≡ k.ptable) × (n ≡ k.nextpid) × (init ≡ k.initproc))
    ⊎ ((i : ℕ) × (f : Proc → Proc) × (find_unused k.ptable ≡ some i)
        × (t ≡ modify k.ptable i f)
        × (n ≡ add32 k.nextpid 1)
        × (init ≡ k.initproc)
        × ((p : Proc) → Fills me k.nextpid p (f p)))

module _ {M : Type 0} (x : Externals M) (me : ℕ) where
  fork_new-Forked :
      (k l : Kernel M) (i : ℕ) (g : Proc → Proc)
      → find_unused k.ptable ≡ some i
      → l.ptable ≡ modify k.ptable i g
      → l.nextpid ≡ add32 k.nextpid 1
      → l.initproc ≡ k.initproc
      → ((p : Proc) → ((g p).pid ≡ k.nextpid) × ((g p).parent ≡ p.parent))
      → let r = (fork_new x me (some i, l)).1 in Forked me k r.ptable r.nextpid r.initproc
  unfolding fork_undo fork_copy
  fork_new-Forked k l i g e table pids inits facts =
      let pages = x.copyuvm (deref l me).pgdir (deref l me).sz l.mach in
      elim (Bool-cases (pages.0 == 0)) [
        | inl z ↦ rw (fork_new-fails x me i l z) (
            inr (
              i,
              λ p. unmap (g p),
              e,
              remodify k.ptable i g unmap table,
              pids,
              inits,
              λ p. inl (refl, (facts p).1),
            ))
        | inr z ↦
            let p = deref l me in
            let files = dup_files x p.ofile (deref l i).ofile pages.1 in
            let h =
              inherit me pages.0 p files.0 (x.idup p.cwd files.1).0 (λ n. x.safestrcpy n p.name) in
            rw (fork_new-copies x me i l z) (
              inr (
                i,
                λ q. h (g q),
                e,
                remodify k.ptable i g h table,
                pids,
                inits,
                λ q. inr (refl, (facts q).0, refl),
              ))
      ]

  pub fork-Forked :
      (k : Kernel M) → let r = (fork x me k).1 in Forked me k r.ptable r.nextpid r.initproc
  unfolding fork claim lay_out_stack
  fork-Forked k = elim (Option-cases (find_unused k.ptable)) [
    | inl n ↦ rw (allocproc-none x k n) (inl (refl, refl, refl))
    | inr (i, e) ↦ elim (Bool-cases ((x.kalloc (claimed x k i).mach).0 == 0)) [
      | inl a ↦
          rw (allocproc-some x k i e, give_stack-none x k i (claimed x k i) a)
            (inr (i, _, e, modify-modify k.ptable i _ _, refl, refl, λ p. inl (refl, refl)))
      | inr a ↦
          rw (allocproc-some x k i e, give_stack-some x k i (claimed x k i) a)
            (fork_new-Forked k _ i _ e (modify-modify k.ptable i _ _) refl refl (λ p. (refl, refl)))
    ]
  ]
