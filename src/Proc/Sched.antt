-- ===== src/Proc/Sched.antt =====
-- hw3/proc.c: sched, yield, forkret, sleep, wakeup1, wakeup, kill. A function that switches to the
-- scheduler is two: up to the switch, and from the return of swtch on.
use nyu_operating_systems.Base.{
  ℕ, zero, suc, ◌==◌, Bool, false, ◌&&◌, not, Option, none, some, List, [], ◌∷◌, map, if◌then◌else◌,
  on_some,
}
use nyu_operating_systems.Base.Words.{minus_one}
use nyu_operating_systems.Proc.State.{
  sleeping, runnable, is_sleeping, is_running, Chan, same_chan, Proc, Lock, ptable_lock,
  is_ptable_lock, Kernel, Externals, deref, write,
}

-- The calls of panic in this file.
pub data Panic : Type 0 where
  sched_ptable_lock sched_locks sched_running sched_interruptible : Panic
  sleep_without_proc sleep_without_lk init_exiting zombie_exit : Panic

-- `switched n k`: the CPU has switched to the scheduler in `k`, and sched's local `intena` is `n`.
pub data Outcome (M : Type 0) : Type 0 where
  switched : ℕ → Kernel M → Outcome M
  panic : Panic → Outcome M

-- wakeup1 at one slot.
unfoldable pub wake : Chan → Proc → Proc
wake c p = if is_sleeping p.state && same_chan p.chan c then record p { state = runnable } else p

unfoldable pub wakeup1 : Chan → List Proc → List Proc
unfolding wake
wakeup1 c = map (wake c)

-- The scan of kill.
unfoldable pub find_pid : ℕ → List Proc → Option ℕ
find_pid pid [] = none
find_pid pid (p ∷ ps) = if p.pid == pid then some zero else on_some suc (find_pid pid ps)

-- What kill does to the process that it finds.
unfoldable pub mark_killed : Proc → Proc
mark_killed p = record p { killed = 1; state = if is_sleeping p.state then runnable else p.state }

module _ {M : Type 0} (x : Externals M) where
  unfoldable pub sched : ℕ → Kernel M → Outcome M
  sched me k =
      if not (x.holding ptable_lock k.mach)
      then panic sched_ptable_lock
      else if not (x.ncli k.mach == 1)
      then panic sched_locks
      else if is_running (deref k me).state
      then panic sched_running
      else if x.interruptible k.mach
      then panic sched_interruptible
      else switched (x.intena k.mach) k

  -- The rest of sched, after the switch back.
  unfoldable pub sched_return : ℕ → Kernel M → Kernel M
  sched_return n k = record k { mach = x.set_intena n k.mach }

  unfoldable pub yield : ℕ → Kernel M → Outcome M
  unfolding sched
  yield me k = sched me (
      write (record k { mach = x.acquire ptable_lock k.mach }) me
        (λ p. record p { state = runnable }))

  unfoldable pub yield_return : ℕ → Kernel M → Kernel M
  unfolding sched_return
  yield_return n k = let k' = sched_return n k in record k' { mach = x.release ptable_lock k'.mach }

  -- The static `first` is an argument and a result.
  unfoldable pub forkret : Bool → Kernel M → Bool × Kernel M
  forkret first k =
      let m = x.release ptable_lock k.mach in
      (false, record k { mach = if first then x.initlog (x.iinit m) else m })

  -- sleep up to the switch, for a current process `me`.
  unfoldable pub sleep_on : ℕ → Chan → Lock → Kernel M → Outcome M
  unfolding sched
  sleep_on me c lk k =
      let m = if is_ptable_lock lk then k.mach else x.release lk (x.acquire ptable_lock k.mach) in
      sched me (write (record k { mach = m }) me (λ p. record p { chan = c; state = sleeping }))

  unfoldable pub sleep : Option ℕ → Chan → Lock → Kernel M → Outcome M
  unfolding sleep_on
  sleep none c lk k = panic sleep_without_proc
  sleep (some me) c Lock.null k = panic sleep_without_lk
  sleep (some me) c ptable_lock k = sleep_on me c ptable_lock k
  sleep (some me) c (Lock.other a) k = sleep_on me c (Lock.other a) k

  -- The rest of sleep, after the switch back.
  unfoldable pub sleep_return : ℕ → ℕ → Lock → Kernel M → Kernel M
  unfolding sched_return
  sleep_return n me lk k =
      let k' = write (sched_return n k) me (λ p. record p { chan = Chan.null }) in
      record k' {
        mach = if is_ptable_lock lk then k'.mach else x.acquire lk (x.release ptable_lock k'.mach);
      }

  unfoldable pub wakeup : Chan → Kernel M → Kernel M
  unfolding wakeup1
  wakeup c k = record k {
    ptable = wakeup1 c k.ptable;
    mach = x.release ptable_lock (x.acquire ptable_lock k.mach);
  }

  unfoldable pub kill : ℕ → Kernel M → ℕ × Kernel M
  unfolding find_pid mark_killed
  kill pid k =
      let m = x.release ptable_lock (x.acquire ptable_lock k.mach) in
      elim (find_pid pid k.ptable) [
        | none ↦ (minus_one, record k { mach = m })
        | some i ↦ (0, write (record k { mach = m }) i mark_killed)
      ]
