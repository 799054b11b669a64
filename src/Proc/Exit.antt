-- ===== src/Proc/Exit.antt =====
-- hw3/proc.c: exit and wait.
use nyu_operating_systems.Base.{
  ℕ, zero, suc, ◌==◌, Bool, true, false, ◌||◌, not, Option, none, some, List, [], ◌∷◌, length,
  get_elem?, set, if◌then◌else◌, modify,
}
use nyu_operating_systems.Base.Words.{minus_one}
use nyu_operating_systems.Proc.State.{
  unused, zombie, is_zombie, same_proc, Chan, chan_of, Proc, ptable_lock, Kernel, Externals, deref,
  write,
}
use nyu_operating_systems.Proc.Sched.{init_exiting, Outcome, panic, wakeup1, sched, sleep_on}

-- The scan of wait: the zombie child that it finds, or whether there are children.
pub data Scan : Type 0 where
  found : ℕ → Scan
  finished : Bool → Scan

abbrev next : Scan → Scan
next (found i) = found (suc i)
next (finished kids) = finished kids

unfoldable pub scan_children : ℕ → Bool → List Proc → Scan
scan_children me kids [] = finished kids
scan_children me kids (p ∷ ps) = elim (same_proc p.parent (some me)) [
  | false ↦ next (scan_children me kids ps)
  | true ↦ elim (is_zombie p.state) [ true ↦ found zero | false ↦ next (scan_children me true ps) ]
]

-- The fields that wait clears.
unfoldable pub clear_proc : Proc → Proc
clear_proc p = record p {
  kstack = 0;
  state = unused;
  pid = 0;
  parent = none;
  name = set p.name 0 0;
  killed = 0;
}

-- One round of exit's loop over the table: slot `i` is passed on to init if `me` is its parent.
unfoldable pub abandon : ℕ → Option ℕ → ℕ → List Proc → List Proc
unfolding wakeup1
abandon me init i t = elim (get_elem? t i) [
  | none ↦ t
  | some p ↦
      let t' = modify t i (λ q. record q { parent = init }) in
      if same_proc p.parent (some me)
      then (if is_zombie p.state then wakeup1 (chan_of init) t' else t')
      else t
]

-- `n` rounds from slot `i` on.
unfoldable pub abandon_children : ℕ → Option ℕ → ℕ → ℕ → List Proc → List Proc
unfolding abandon
abandon_children me init zero i t = t
abandon_children me init (suc n) i t = abandon_children me init n (suc i) (abandon me init i t)

-- wait returns a word, or the process sleeps on its own slot until it is woken, to go round again.
pub data Waited (M : Type 0) : Type 0 where
  returned : ℕ → Kernel M → Waited M
  waits : Outcome M → Waited M

module _ {M : Type 0} (x : Externals M) where
  -- The loop that closes the open files.
  unfoldable pub close_files : List ℕ → M → List ℕ × M
  close_files [] m = ([], m)
  close_files (f ∷ fs) m =
      let (rest, m') = close_files fs (if f == 0 then m else x.fileclose f m) in (0 ∷ rest, m')

  -- exit from the acquire on, without the call of sched.
  unfoldable pub exit_table : ℕ → Kernel M → Kernel M
  exit_table me k =
      let woken = wakeup1 (chan_of (deref k me).parent) k.ptable in
      let passed = abandon_children me k.initproc (length woken) 0 woken in
      record k {
        ptable = modify passed me (λ p. record p { state = zombie });
        mach = x.acquire ptable_lock k.mach;
      }

  -- exit up to the acquire.
  unfoldable pub exit_files : ℕ → Kernel M → Kernel M
  exit_files me k =
      let (files, m) = close_files (deref k me).ofile k.mach in
      write (record k { mach = x.end_op (x.iput (deref k me).cwd (x.begin_op m)) }) me
        (λ p. record p { ofile = files; cwd = 0 })

  -- sched does not return here: "zombie exit" would follow.
  unfoldable pub exit : ℕ → Kernel M → Outcome M
  exit me k =
      if same_proc (some me) k.initproc
      then panic init_exiting
      else sched x me (exit_table me (exit_files me k))

  -- What wait does with the zombie child in slot `i`.
  unfoldable pub reap : ℕ → Kernel M → ℕ × Kernel M
  reap i k =
      let p = deref k i in
      (
        p.pid,
        write
            (record k { mach = x.release ptable_lock (x.freevm p.pgdir (x.kfree p.kstack k.mach)) })
            i clear_proc,
      )

  -- One round of wait's loop, with the lock held.
  unfoldable pub wait_round : ℕ → Kernel M → Waited M
  wait_round me k = elim (scan_children me false k.ptable) [
    | found i ↦ let (pid, k') = reap i k in returned pid k'
    | finished kids ↦
        if not kids || not ((deref k me).killed == 0)
        then returned minus_one (record k { mach = x.release ptable_lock k.mach })
        else waits (sleep_on x me (Chan.slot me) ptable_lock k)
  ]

  unfoldable pub wait : ℕ → Kernel M → Waited M
  unfolding wait_round
  wait me k = wait_round me (record k { mach = x.acquire ptable_lock k.mach })
