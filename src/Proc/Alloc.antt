-- ===== src/Proc/Alloc.antt =====
-- hw3/proc.c: pinit, allocproc, userinit, growproc, fork. `me` is the slot of the current process,
-- the CPU's `proc`.
use nyu_operating_systems.Base.{
  ℕ, zero, suc, ◌==◌, ◌&&◌, ◌||◌, Option, none, some, List, [], ◌∷◌, if◌then◌else◌, on_some,
}
use nyu_operating_systems.Base.Words.{add32, sub32, int_lt, minus_one}
use nyu_operating_systems.Proc.State.{
  unused, embryo, runnable, is_unused, Context, Trapframe, Proc, ptable_lock, Kernel, Externals,
  deref, write, store,
}

-- MAGIC_TICKET_NUM
abbrev pub magic_ticket_num : ℕ
magic_ticket_num = 20

-- The scan of allocproc: the first slot that is UNUSED.
unfoldable pub find_unused : List Proc → Option ℕ
find_unused [] = none
find_unused (p ∷ ps) = if is_unused p.state then some zero else on_some suc (find_unused ps)

-- What fork writes to a child that it gives up, and to one that is complete: `p` is the parent, in
-- slot `me`, `files` and `dir` the duplicates of its open files and directory, `s` its name.
abbrev pub unmap : Proc → Proc
unmap q = record q { pgdir = 0; kstack = 0; state = unused }

abbrev pub inherit : ℕ → ℕ → Proc → List ℕ → ℕ → (List ℕ → List ℕ) → Proc → Proc
inherit me pg p files dir rename q = record q {
  pgdir = pg;
  sz = p.sz;
  parent = some me;
  ofile = files;
  cwd = dir;
  name = rename q.name;
  state = runnable;
}

abbrev zero_context : ℕ → Context
zero_context ip = record { edi = 0; esi = 0; ebx = 0; ebp = 0; eip = ip }

module _ {M : Type 0} (x : Externals M) where
  unfoldable pub pinit : Kernel M → Kernel M
  pinit k = let m = x.initlock ptable_lock k.mach in record k { mach = x.sgenrand (x.unixtime m) m }

  -- Under the label `found`, up to the release of the lock.
  unfoldable pub claim : ℕ → Kernel M → Kernel M
  claim i k =
      write (record k { nextpid = add32 k.nextpid 1; mach = x.release ptable_lock k.mach }) i
        (λ p. record p { state = embryo; pid = k.nextpid; tickets = magic_ticket_num })

  -- The kernel stack at `a`, with room for the trap frame and a context that starts at forkret.
  unfoldable pub lay_out_stack : ℕ → ℕ → Kernel M → Kernel M
  lay_out_stack i a k =
      let tf = sub32 (add32 a x.kstacksize) x.trapframe_size in
      let ret = sub32 tf 4 in
      let ctx = sub32 ret x.context_size in
      write
        (record k {
          words = store k.words ret x.trapret;
          contexts = store k.contexts ctx (zero_context x.forkret);
        })
        i (λ p. record p { kstack = a; tf = tf; context = ctx })

  -- From "Allocate kernel stack" on.
  unfoldable pub give_stack : ℕ → Kernel M → Option ℕ × Kernel M
  give_stack i k =
      let (a, m) = x.kalloc k.mach in
      let k' = record k { mach = m } in
      if a == 0
      then (none, write k' i (λ p. record p { kstack = 0; state = unused }))
      else (some i, lay_out_stack i a k')

  unfoldable pub allocproc : Kernel M → Option ℕ × Kernel M
  allocproc k =
      let locked = record k { mach = x.acquire ptable_lock k.mach } in
      elim (find_unused k.ptable) [
        | none ↦ (none, record k { mach = x.release ptable_lock locked.mach })
        | some i ↦ give_stack i (claim i locked)
      ]

  abbrev user_frame : Trapframe → Trapframe
  user_frame f = record f {
    cs = x.user_cs;
    ds = x.user_ds;
    es = x.user_ds;
    ss = x.user_ds;
    eflags = x.fl_if;
    esp = x.pgsize;
    eip = 0;
  }

  abbrev zero_frame : Trapframe
  zero_frame = record {
    eax = 0;
    esp = 0;
    eip = 0;
    cs = 0;
    ds = 0;
    es = 0;
    ss = 0;
    eflags = 0;
    others = 0;
  }

  -- The first user process in slot `i`; none is the panic "userinit: out of memory?".
  unfoldable pub user_image : ℕ → Kernel M → Option (Kernel M)
  user_image i k =
      let (pg, m) = x.setupkvm k.mach in
      let p = deref k i in
      let (dir, m') = x.namei_root (x.inituvm pg m) in
      if pg == 0
      then none
      else some (
          write
            (record k { trapframes = store k.trapframes p.tf (user_frame zero_frame); mach = m' }) i
            (λ p. record p {
              pgdir = pg;
              sz = x.pgsize;
              name = x.safestrcpy p.name x.initcode_name;
              cwd = dir;
              state = runnable;
            }))

  -- The code uses the result of allocproc unchecked: with a full table it writes through null,
  -- here none too.
  unfoldable pub first_user : Option ℕ × Kernel M → Option (Kernel M)
  first_user (none, k) = none
  first_user (some i, k) = user_image i (record k { initproc = some i })

  unfoldable pub userinit : Kernel M → Option (Kernel M)
  unfolding first_user
  userinit k = first_user (allocproc k)

  -- growproc's size and memory: `n` is a word read as int.
  unfoldable pub grow_memory : ℕ → ℕ → Kernel M → ℕ × M
  grow_memory me n k =
      let p = deref k me in
      if int_lt 0 n
      then x.allocuvm p.pgdir p.sz (add32 p.sz n) k.mach
      else (if int_lt n 0 then x.deallocuvm p.pgdir p.sz (add32 p.sz n) k.mach else (p.sz, k.mach))

  -- growproc's tests of the new size, and its end.
  unfoldable pub resize : ℕ → ℕ → Kernel M → ℕ × M → ℕ × Kernel M
  resize me n k (sz, m) =
      let k' = record (write k me (λ q. record q { sz = sz })) { mach = m } in
      if (int_lt 0 n || int_lt n 0) && sz == 0
      then (minus_one, record k { mach = m })
      else (0, record k' { mach = x.switchuvm (deref k' me) m })

  unfoldable pub growproc : ℕ → ℕ → Kernel M → ℕ × Kernel M
  unfolding grow_memory resize
  growproc me n k = resize me n k (grow_memory me n k)

  -- The loop of fork over the open files: `src` is the parent's array, `dst` the child's.
  unfoldable pub dup_files : List ℕ → List ℕ → M → List ℕ × M
  dup_files [] dst m = (dst, m)
  dup_files (s ∷ src) [] m = ([], m)
  dup_files (s ∷ src) (d ∷ dst) m =
      let (d', m') = if s == 0 then (d, m) else x.filedup s m in
      let (rest, m'') = dup_files src dst m' in (d' ∷ rest, m'')

  -- fork where copyuvm has failed: the slot `i` is given back.
  unfoldable pub fork_undo : ℕ → Kernel M → Kernel M
  fork_undo i k = write (record k { mach = x.kfree (deref k i).kstack k.mach }) i unmap

  -- fork from `np->sz = proc->sz` on: the child in slot `i` with page table `pg`.
  unfoldable pub fork_copy : ℕ → ℕ → ℕ → Kernel M → ℕ × Kernel M
  fork_copy me i pg k =
      let p = deref k me in
      let np = deref k i in
      let frame = record (k.trapframes p.tf) { eax = 0 } in
      let (files, m) = dup_files p.ofile np.ofile k.mach in
      let (dir, m') = x.idup p.cwd m in
      (
        np.pid,
        write
            (record k {
              trapframes = store k.trapframes np.tf frame;
              mach = x.release ptable_lock (x.acquire ptable_lock m');
            })
            i (inherit me pg p files dir (λ n. x.safestrcpy n p.name)),
      )

  -- fork from the result of allocproc on: `np` and the kernel.
  unfoldable pub fork_new : ℕ → Option ℕ × Kernel M → ℕ × Kernel M
  fork_new me (none, k) = (minus_one, k)
  fork_new me (some i, k) =
      let p = deref k me in
      let (pg, m) = x.copyuvm p.pgdir p.sz k.mach in
      let k' = record k { mach = m } in
      if pg == 0 then (minus_one, fork_undo i k') else fork_copy me i pg k'

  unfoldable pub fork : ℕ → Kernel M → ℕ × Kernel M
  unfolding fork_new
  fork me k = fork_new me (allocproc k)
