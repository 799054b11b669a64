-- ===== src/Proc/State.antt =====
-- hw3/proc.h and the globals of hw3/proc.c: the state that the process table's operations work on,
-- and the code of other kernel files that they call.
use nyu_operating_systems.Base.{
  ℕ, ◌==◌, Bool, true, false, Option, none, some, List, if◌then◌else◌, get_or, modify, replicate,
}

-- enum procstate
pub data Procstate : Type 0 where
  unused embryo sleeping runnable running zombie : Procstate

abbrev pub is_unused : Procstate → Bool
is_unused unused = true
is_unused _ = false

abbrev pub is_sleeping : Procstate → Bool
is_sleeping sleeping = true
is_sleeping _ = false

abbrev pub is_runnable : Procstate → Bool
is_runnable runnable = true
is_runnable _ = false

abbrev pub is_running : Procstate → Bool
is_running running = true
is_running _ = false

abbrev pub is_zombie : Procstate → Bool
is_zombie zombie = true
is_zombie _ = false

-- `p == q` on pointers into `ptable.proc`: a slot's number, or null.
abbrev pub same_proc : Option ℕ → Option ℕ → Bool
same_proc none none = true
same_proc none (some j) = false
same_proc (some i) none = false
same_proc (some i) (some j) = i == j

-- `void *chan`: null, a pointer to a slot of the table, or another kernel address.
pub data Chan : Type 0 where
  null : Chan
  slot : ℕ → Chan
  addr : ℕ → Chan

abbrev pub same_chan : Chan → Chan → Bool
same_chan null null = true
same_chan (slot i) (slot j) = i == j
same_chan (addr i) (addr j) = i == j
same_chan _ _ = false

-- A process pointer passed as a channel.
abbrev pub chan_of : Option ℕ → Chan
chan_of none = null
chan_of (some i) = slot i

-- struct context
pub record Context : Type 0 where
  pub edi : ℕ
  pub esi : ℕ
  pub ebx : ℕ
  pub ebp : ℕ
  pub eip : ℕ

-- The fields of struct trapframe (x86.h) that the code names, and the others as one value.
pub record Trapframe : Type 0 where
  pub eax : ℕ
  pub esp : ℕ
  pub eip : ℕ
  pub cs : ℕ
  pub ds : ℕ
  pub es : ℕ
  pub ss : ℕ
  pub eflags : ℕ
  pub others : ℕ

-- struct proc. Words are natural numbers below 2 ^ 32; `pgdir`, `kstack`, `tf`, `context`, `cwd`
-- and the entries of `ofile` are addresses, 0 for null.
pub record Proc : Type 0 where
  pub sz : ℕ
  pub pgdir : ℕ
  pub kstack : ℕ
  pub state : Procstate
  pub pid : ℕ
  pub parent : Option ℕ
  pub tf : ℕ
  pub context : ℕ
  pub chan : Chan
  pub killed : ℕ
  pub ofile : List ℕ
  pub cwd : ℕ
  pub name : List ℕ
  pub tickets : ℕ

-- A slot of the zeroed table, also what a read past the table gives.
abbrev pub zero_proc : Proc
zero_proc = record {
  sz = 0;
  pgdir = 0;
  kstack = 0;
  state = unused;
  pid = 0;
  parent = none;
  tf = 0;
  context = 0;
  chan = null;
  killed = 0;
  ofile = replicate 16 0;
  cwd = 0;
  name = replicate 16 0;
  tickets = 0;
}

-- The spinlocks that this code names: none, that of the table, or another one.
pub data Lock : Type 0 where
  null : Lock
  ptable_lock : Lock
  other : ℕ → Lock

abbrev pub is_ptable_lock : Lock → Bool
is_ptable_lock ptable_lock = true
is_ptable_lock _ = false

-- The table, the globals of proc.c and the CPU's `proc`. The objects on the kernel stacks, at their
-- addresses: trap frames, contexts, single words. `mach` is the rest of the machine: the memory
-- allocator, page tables, files, locks, interrupt flags, random numbers.
pub record Kernel (M : Type 0) : Type 0 where
  pub ptable : List Proc
  pub initproc : Option ℕ
  pub nextpid : ℕ
  pub proc : Option ℕ
  pub trapframes : ℕ → Trapframe
  pub contexts : ℕ → Context
  pub words : ℕ → ℕ
  pub mach : M

-- The functions and constants of the kernel files that are not in the repository.
pub record Externals (M : Type 0) : Type 0 where
  -- kalloc.c
  pub kalloc : M → ℕ × M
  pub kfree : ℕ → M → M
  -- vm.c: page directory, sizes
  pub setupkvm : M → ℕ × M
  pub inituvm : ℕ → M → M
  pub allocuvm : ℕ → ℕ → ℕ → M → ℕ × M
  pub deallocuvm : ℕ → ℕ → ℕ → M → ℕ × M
  pub copyuvm : ℕ → ℕ → M → ℕ × M
  pub freevm : ℕ → M → M
  pub switchuvm : Proc → M → M
  pub switchkvm : M → M
  -- file.c, fs.c, log.c
  pub filedup : ℕ → M → ℕ × M
  pub fileclose : ℕ → M → M
  pub idup : ℕ → M → ℕ × M
  pub iput : ℕ → M → M
  pub namei_root : M → ℕ × M
  pub begin_op : M → M
  pub end_op : M → M
  pub iinit : M → M
  pub initlog : M → M
  -- spinlock.c, and the fields `ncli` and `intena` of the CPU
  pub acquire : Lock → M → M
  pub release : Lock → M → M
  pub holding : Lock → M → Bool
  pub ncli : M → ℕ
  pub intena : M → ℕ
  pub set_intena : ℕ → M → M
  -- x86.h: sti, hlt, readeflags() & FL_IF
  pub sti : M → M
  pub hlt : M → M
  pub interruptible : M → Bool
  -- rand.h, lapic.c
  pub random_at_most : ℕ → M → ℕ × M
  pub sgenrand : ℕ → M → M
  pub unixtime : M → ℕ
  pub initlock : Lock → M → M
  -- string.c: safestrcpy(s, t, sizeof s), given s and t
  pub safestrcpy : List ℕ → List ℕ → List ℕ
  -- sizes and code addresses
  pub kstacksize : ℕ
  pub trapframe_size : ℕ
  pub context_size : ℕ
  pub trapret : ℕ
  pub forkret : ℕ
  pub pgsize : ℕ
  pub user_cs : ℕ
  pub user_ds : ℕ
  pub fl_if : ℕ
  pub initcode_name : List ℕ

-- `*p` of a pointer into the table.
abbrev pub deref : {M : Type 0} → Kernel M → ℕ → Proc
deref k i = get_or k.ptable i zero_proc

-- A write through a pointer into the table.
abbrev pub write : {M : Type 0} → Kernel M → ℕ → (Proc → Proc) → Kernel M
write k i f = record k { ptable = modify k.ptable i f }

-- `*a = v` on the objects of one kind.
abbrev pub store {ℓ} : {A : Type ℓ} → (ℕ → A) → ℕ → A → ℕ → A
store m a v b = if a == b then v else m b
