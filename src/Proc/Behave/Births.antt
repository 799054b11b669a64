-- ===== src/Proc/Behave/Births.antt =====
-- fork (hw3/proc.c) from the parent's side and the child's, and a kill of pid 0 before it.
use nyu_operating_systems.Base.{
  ℕ, ◌==◌, ◌≡◌, ◌≢◌, refl, false, some, List, arith, get_elem?, get_elem?-modify,
  get_elem?-modify_self, modify, get_or-get_elem?, ap, subst, ◌∙◌, ==_refl,
}
use nyu_operating_systems.Proc.State.{
  runnable, Proc, ptable_lock, Kernel, Externals, deref, zero_proc, store, write,
}
use nyu_operating_systems.Proc.Alloc.{
  magic_ticket_num, find_unused, claim, lay_out_stack, fork_copy, fork_new, fork,
}
use nyu_operating_systems.Proc.Sched.{find_pid, mark_killed, kill}
use nyu_operating_systems.Proc.Valid.Fill.{claimed, allocproc-some, give_stack-some}

pub modify-other :
    (t : List Proc) (i j : ℕ) (f : Proc → Proc) → j ≢ i → get_elem? (modify t i f) j ≡ get_elem? t j
modify-other t i j f apart = ground (arith, get_elem?-modify t i j f)

module _ {M : Type 0} (x : Externals M) (k : Kernel M) (me : ℕ) where
  -- The kernel with the slot i claimed and its stack laid out.
  abbrev pub staged : ℕ → Kernel M
  staged i =
      let c = claimed x k i in
      lay_out_stack x i (x.kalloc c.mach).0 (record c { mach = (x.kalloc c.mach).1 })

  -- allocproc has a slot and a stack, copyuvm a page directory.
  pub record HasRoom (i : ℕ) : Type 0 where
    pub slot : find_unused k.ptable ≡ some i
    pub stack : (x.kalloc (claimed x k i).mach).0 == 0 ≡ false
    pub pages :
        (x.copyuvm (deref (staged i) me).pgdir (deref (staged i) me).sz (staged i).mach).0 == 0
        ≡ false

  -- What fork makes of the slot i, which held `old`, for the parent p.
  pub record IsChild (p old q : Proc) : Type 0 where
    pub named : q.pid ≡ k.nextpid
    pub parent : q.parent ≡ some me
    pub ready : q.state ≡ runnable
    pub tickets : q.tickets ≡ magic_ticket_num
    pub size : q.sz ≡ p.sz
    pub killed : q.killed ≡ old.killed

  fork-copies :
      (i : ℕ)
      → HasRoom i
      → (pg : ℕ) × (m : M) × (fork x me k ≡ fork_copy x me i pg (record (staged i) { mach = m }))
  unfolding fork fork_new
  fork-copies i room =
      let c = x.copyuvm (deref (staged i) me).pgdir (deref (staged i) me).sz (staged i).mach in
      (
        c.0,
        c.1,
        rw
            (
              allocproc-some x k i room.slot,
              give_stack-some x k i (claimed x k i) room.stack,
              fork_new,
              room.pages,
            )
            refl,
      )

  -- The slot i before fork_copy.
  staged-slot :
      (i : ℕ) (old : Proc)
      → get_elem? k.ptable i ≡ some old
      → (q : Proc) × (get_elem? (staged i).ptable i ≡ some q)
        × (q.pid ≡ k.nextpid)
        × (q.tickets ≡ magic_ticket_num)
        × (q.killed ≡ old.killed)
  unfolding claim lay_out_stack
  staged-slot i old h =
      (_, get_elem?-modify_self _ i _ (get_elem?-modify_self k.ptable i _ h), refl, refl, refl)

  staged-other : (i j : ℕ) → j ≢ i → get_elem? (staged i).ptable j ≡ get_elem? k.ptable j
  unfolding claim lay_out_stack
  staged-other i j apart = modify-other _ i j _ apart ∙ modify-other k.ptable i j _ apart

  staged-frames : (i : ℕ) → (staged i).trapframes ≡ k.trapframes
  unfolding claim lay_out_stack
  staged-frames i = refl

  -- With a free slot i, a stack and a page directory, fork by the process p returns the pid that is
  -- next, which is the child's; the child in slot i is RUNNABLE with the parent's size, the
  -- initial tickets and whatever `killed` the slot had; it sees 0 in eax, all else of its trap
  -- frame is the parent's; the parent's slot is as it was.
  pub fork-IsChild :
      (i : ℕ) (p old : Proc)
      → get_elem? k.ptable me ≡ some p
      → me ≢ i
      → get_elem? k.ptable i ≡ some old
      → HasRoom i
      → (l : Kernel M) × (q : Proc) × (fork x me k ≡ (k.nextpid, l))
        × (get_elem? l.ptable i ≡ some q)
        × IsChild p old q
        × (l.trapframes q.tf ≡ record (k.trapframes p.tf) { eax = 0 })
        × (get_elem? l.ptable me ≡ some p)
  unfolding fork_copy
  fork-IsChild i p old here apart slot room =
      let (pg, m, e) = fork-copies i room in
      let (c, at, pid, tickets, killed) = staged-slot i old slot in
      let mine : get_elem? (staged i).ptable me ≡ some p = staged-other i me apart ∙ here in
      let parent : deref (staged i) me ≡ p = get_or-get_elem? _ me zero_proc p mine in
      let child : deref (staged i) i ≡ c = get_or-get_elem? _ i zero_proc c at in
      let frame : store (staged i).trapframes (deref (staged i) i).tf
            (record ((staged i).trapframes (deref (staged i) me).tf) { eax = 0 }) c.tf
          ≡ record (k.trapframes p.tf) { eax = 0 } =
        rw (child, parent, staged-frames i, ==_refl c.tf) refl in
      let (v, l) = fork_copy x me i pg (record (staged i) { mach = m }) in
      (
        l,
        _,
        e ∙ ap (λ d. (d.pid, l)) child ∙ ap (λ n. (n, l)) pid,
        get_elem?-modify_self (staged i).ptable i _ at,
        record {
          named = pid;
          parent = refl;
          ready = refl;
          tickets = tickets;
          size = ap (λ d. d.sz) parent;
          killed = killed;
        },
        frame,
        modify-other (staged i).ptable i me _ apart ∙ mine,
      )

module _ {M : Type 0} (x : Externals M) (k : Kernel M) (me : ℕ) where
  kill-finds :
      (pid i : ℕ)
      → find_pid pid k.ptable ≡ some i
      → (m : M) × (kill x pid k ≡ (0, write (record k { mach = m }) i mark_killed))
  unfolding kill
  kill-finds pid i e = (x.release ptable_lock (x.acquire ptable_lock k.mach), rw (kill, e) refl)

  -- kill does not look at the state. Where the first slot with pid 0 is the slot i that fork takes,
  -- not the caller's own, and fork has a stack and a page directory, kill of pid 0 succeeds, and
  -- the child of the next fork is killed from its birth.
  pub kill-zero_marks :
      (i : ℕ) (p old : Proc)
      → find_pid 0 k.ptable ≡ some i
      → get_elem? k.ptable i ≡ some old
      → get_elem? k.ptable me ≡ some p
      → me ≢ i
      → HasRoom x (kill x 0 k).1 me i
      → ((kill x 0 k).0 ≡ 0)
        × ((l : Kernel M) × (q : Proc) × (fork x me (kill x 0 k).1 ≡ (k.nextpid, l))
            × (get_elem? l.ptable i ≡ some q)
            × (q.state ≡ runnable)
            × (q.killed ≡ 1))
  unfolding mark_killed
  kill-zero_marks i p old first slot here apart room =
      let (m, e) = kill-finds 0 i first in
      let k1 : Kernel M = write (record k { mach = m }) i mark_killed in
      let after : (kill x 0 k).1 ≡ k1 = ap (λ r. r.1) e in
      let (l, q, forks, at, child, frame, mine) =
        fork-IsChild x k1 me i p (mark_killed old)
          (modify-other k.ptable i me mark_killed apart ∙ here) apart
          (get_elem?-modify_self k.ptable i mark_killed slot)
          (subst (λ z. HasRoom x z me i) after room) in
      (ap (λ r. r.0) e, (l, q, ap (λ z. fork x me z) after ∙ forks, at, child.ready, child.killed))
