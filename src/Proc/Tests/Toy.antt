-- ===== src/Proc/Tests/Toy.antt =====
-- A machine for the runs: memory is handed out page by page, locks are the ptable lock's flag and
-- their count, a random number is the one that is set.
use nyu_operating_systems.Base.{
  ℕ, ◌+◌, ◌-◌, suc, refl, Bool, true, false, Option, none, some, List, [], ◌∷◌, if◌then◌else◌,
  replicate, min, arith,
}
use nyu_operating_systems.Proc.State.{
  runnable, running, zombie, Proc, is_ptable_lock, Kernel, Externals, zero_proc, Trapframe, Context,
}
use nyu_operating_systems.Proc.Behave.Switches.{LockLaws}
use nyu_operating_systems.Proc.Lottery.Elect.{RandomInRange}

pub record Toy : Type 0 where
  pub page : ℕ
  pub held : Bool
  pub depth : ℕ
  pub lottery : ℕ

abbrev pub fresh_page : Toy → ℕ × Toy
fresh_page m = (m.page, record m { page = m.page + 4096 })

abbrev pub toy : Externals Toy
toy = record {
  kalloc = fresh_page;
  kfree = λ a m. m;
  setupkvm = fresh_page;
  inituvm = λ pg m. m;
  allocuvm = λ pg old new m. (new, m);
  deallocuvm = λ pg old new m. (new, m);
  copyuvm = λ pg sz m. fresh_page m;
  freevm = λ pg m. m;
  switchuvm = λ p m. m;
  switchkvm = λ m. m;
  filedup = λ f m. (f, m);
  fileclose = λ f m. m;
  idup = λ d m. (d, m);
  iput = λ d m. m;
  namei_root = λ m. (1, m);
  begin_op = λ m. m;
  end_op = λ m. m;
  iinit = λ m. m;
  initlog = λ m. m;
  acquire =
      λ l m. record m { held = if is_ptable_lock l then true else m.held; depth = suc m.depth };
  release =
      λ l m. record m { held = if is_ptable_lock l then false else m.held; depth = m.depth - 1 };
  holding = λ l m. m.held;
  ncli = λ m. m.depth;
  intena = λ m. 1;
  set_intena = λ n m. m;
  sti = λ m. m;
  hlt = λ m. m;
  interruptible = λ m. false;
  random_at_most = λ max m. (min max m.lottery, m);
  sgenrand = λ s m. record m { lottery = s };
  unixtime = λ m. 7;
  initlock = λ l m. m;
  safestrcpy = λ s t. t;
  kstacksize = 4096;
  trapframe_size = 76;
  context_size = 20;
  trapret = 1000;
  forkret = 2000;
  pgsize = 4096;
  user_cs = 35;
  user_ds = 43;
  fl_if = 512;
  initcode_name = 105 ∷ 0 ∷ [];
}

pub toy_random : RandomInRange toy
toy_random max m h = omega arith

pub toy_locks : LockLaws toy
toy_locks = record {
  holds = λ m. refl;
  keeps = λ a m. refl;
  counts = λ l m. refl;
  uncounts = λ l m. refl;
  masks = λ m h. refl;
  closes = λ f m. refl;
  puts = λ d m. refl;
  begins = λ m. refl;
  ends = λ m. refl;
}

abbrev pub blank_frame : Trapframe
blank_frame = record {
  eax = 0;
  esp = 0;
  eip = 0;
  cs = 0;
  ds = 0;
  es = 0;
  ss = 0;
  eflags = 0;
  others = 0;
}

abbrev pub blank_context : Context
blank_context = record { edi = 0; esi = 0; ebx = 0; ebp = 0; eip = 0 }

-- A kernel with the table `t`, whose current process is `p`.
abbrev pub kernel : List Proc → Option ℕ → Kernel Toy
kernel t p = record {
  ptable = t;
  initproc = some 0;
  nextpid = 4;
  proc = p;
  trapframes = λ a. blank_frame;
  contexts = λ a. blank_context;
  words = λ a. 0;
  mach = record { page = 4096; held = false; depth = 0; lottery = 25 };
}

abbrev pub zeroed : Kernel Toy
zeroed = record (kernel (replicate 3 zero_proc) none) { initproc = none; nextpid = 1 }

-- init runs, a child waits for the CPU, another has ended.
abbrev pub init_proc : Proc
init_proc = record zero_proc { state = running; pid = 1; tickets = 20 }

abbrev pub child_proc : Proc
child_proc = record zero_proc { state = runnable; pid = 2; parent = some 0; tickets = 30 }

abbrev pub dead_proc : Proc
dead_proc = record zero_proc { state = zombie; pid = 3; parent = some 0; tickets = 20 }

abbrev pub small_table : List Proc
small_table = init_proc ∷ child_proc ∷ dead_proc ∷ []
