-- ===== src/Proc/Behave/Waits.antt =====
-- wait (hw3/proc.c) on every table: a zombie child is reaped, no child or a kill is an error, and
-- otherwise the caller sleeps.
use nyu_operating_systems.Base.{
  ℕ, ◌==◌, ◌≡◌, ◌≢◌, ◌⊎◌, refl, Bool, true, false, none, some, set, modify, arith, get_elem?,
  get_elem?-modify, get_elem?-modify_self, Bool-cases, inl, inr, get_or-get_elem?, ap,
}
use nyu_operating_systems.Base.Words.{minus_one}
use nyu_operating_systems.Proc.State.{
  unused, sleeping, is_zombie, Chan, Proc, ptable_lock, Kernel, Externals, deref, zero_proc,
}
use nyu_operating_systems.Proc.Sched.{sched, sleep_on}
use nyu_operating_systems.Proc.Exit.{
  Waited, finished, scan_children, clear_proc, reap, returned, waits, wait_round, wait,
}
use nyu_operating_systems.Proc.Valid.Reap.{scan_children-found, Scan-cases}
use nyu_operating_systems.Proc.Behave.Scans.{
  ChildAt, NoZombie, Childless, finished-NoZombie, finished-child, scan_children-none,
  finished-some_child, finished-Childless,
}

-- A slot that is free again.
abbrev pub freed : Proc → Proc
freed q = record q {
  kstack = 0;
  state = unused;
  pid = 0;
  parent = none;
  name = set q.name 0 0;
  killed = 0;
}

module _ {M : Type 0} (x : Externals M) (k : Kernel M) (me : ℕ) where
  -- The kernel stack and the memory of a child are freed, with the lock held.
  abbrev pub freed_memory : Proc → M
  freed_memory q =
      x.release ptable_lock (x.freevm q.pgdir (x.kfree q.kstack (x.acquire ptable_lock k.mach)))

  -- The kernel with the lock held and `me` asleep on its own slot.
  abbrev pub asleep_here : Kernel M
  asleep_here = record k {
    ptable = modify k.ptable me (λ q. record q { chan = Chan.slot me; state = sleeping });
    mach = x.acquire ptable_lock k.mach;
  }

  -- With a zombie child, wait returns the pid of one and frees its slot; all other slots stay as
  -- they are.
  pub wait-reaps :
      (i : ℕ) (p : Proc)
      → ChildAt k.ptable me i p
      → is_zombie p.state ≡ true
      → (j : ℕ) × (q : Proc) × (l : Kernel M) × ChildAt k.ptable me j q
        × (is_zombie q.state ≡ true)
        × (wait x me k ≡ returned q.pid l)
        × (get_elem? l.ptable j ≡ some (freed q))
        × ((o : ℕ) → o ≢ j → get_elem? l.ptable o ≡ get_elem? k.ptable o)
        × (l.mach ≡ freed_memory q)
  unfolding wait wait_round reap clear_proc
  wait-reaps i p child zombie = elim (Scan-cases (scan_children me false k.ptable)) [
    | inl (j, s) ↦
        let (q, h, up, z) = scan_children-found me false k.ptable j s in
        let this = get_or-get_elem? k.ptable j zero_proc q h in
        let locked : Kernel M = record k { mach = x.acquire ptable_lock k.mach } in
        (
          j,
          q,
          (reap x j locked).1,
          (h, up),
          z,
          rw (wait, wait_round, s) (ap (λ d. returned d.pid (reap x j locked).1) this),
          get_elem?-modify_self k.ptable j clear_proc h,
          λ o apart. ground (arith, get_elem?-modify k.ptable j o clear_proc),
          ap freed_memory this,
        )
    | inr (b, s) ↦ let alive = finished-NoZombie me false b k.ptable s i p child in absurd (cc)
  ]

  scanned : NoZombie k.ptable me → (b : Bool) × (scan_children me false k.ptable ≡ finished b)
  scanned no_zombie = elim (Scan-cases (scan_children me false k.ptable)) [
    | inl (j, s) ↦
        let (q, h, up, z) = scan_children-found me false k.ptable j s in
        let alive = no_zombie j q (h, up) in absurd (cc)
    | inr found_none ↦ found_none
  ]

  -- Without a zombie child, wait returns -1 if there is no child at all or the caller is killed,
  -- and changes nothing but the lock.
  pub wait-fails :
      NoZombie k.ptable me
      → Childless k.ptable me ⊎ ((deref k me).killed == 0 ≡ false)
      → wait x me k
        ≡ returned minus_one
            (record k { mach = x.release ptable_lock (x.acquire ptable_lock k.mach) })
  unfolding wait wait_round
  wait-fails no_zombie (inl childless) =
      rw (wait, wait_round, scan_children-none me k.ptable childless) refl
  wait-fails no_zombie (inr killed) =
      let (b, s) = scanned no_zombie in
      elim (Bool-cases b) [
        | inl kids ↦ rw (wait, wait_round, s, kids, killed) refl
        | inr none_seen ↦ rw (wait, wait_round, s, none_seen) refl
      ]

  -- With a child but no zombie one, a caller that is not killed sleeps on its own slot, the channel
  -- that exit of a child wakes.
  pub wait-sleeps :
      (i : ℕ) (p : Proc)
      → NoZombie k.ptable me
      → ChildAt k.ptable me i p
      → (deref k me).killed == 0 ≡ true
      → wait x me k ≡ waits (sched x me asleep_here)
  unfolding wait wait_round sleep_on
  wait-sleeps i p no_zombie child lives =
      let (b, s) = scanned no_zombie in
      let kids = finished-child me false b k.ptable s i p child in
      rw (wait, wait_round, s, kids, lives) refl

  -- A zombie child q is in slot j, and wait has freed the slot.
  abbrev pub Reaps : Waited M → Type 0
  Reaps r =
      (j : ℕ) × (q : Proc) × (l : Kernel M) × ChildAt k.ptable me j q
      × (is_zombie q.state ≡ true)
      × (r ≡ returned q.pid l)
      × (get_elem? l.ptable j ≡ some (freed q))
      × ((o : ℕ) → o ≢ j → get_elem? l.ptable o ≡ get_elem? k.ptable o)
      × (l.mach ≡ freed_memory q)

  abbrev pub Fails : Waited M → Type 0
  Fails r =
      NoZombie k.ptable me
      × (Childless k.ptable me ⊎ ((deref k me).killed == 0 ≡ false))
      × (r
          ≡ returned minus_one
              (record k { mach = x.release ptable_lock (x.acquire ptable_lock k.mach) }))

  abbrev pub Sleeps : Waited M → Type 0
  Sleeps r =
      NoZombie k.ptable me
      × ((i : ℕ) × (p : Proc) × ChildAt k.ptable me i p)
      × ((deref k me).killed == 0 ≡ true)
      × (r ≡ waits (sched x me asleep_here))

  -- wait by any process in any table does one of three things. There is a zombie child: wait
  -- returns its pid, and its slot is UNUSED, without pid, parent, kernel stack, name and killed
  -- flag; its kernel stack and its memory are freed, and all other slots stay as they are. There is
  -- no zombie child, and no child at all or the caller is killed: wait returns -1 and changes nothing
  -- but the lock. There is a child but no zombie one, and the caller is not killed: it calls sched as
  -- SLEEPING on its own slot, the channel that exit of a child wakes, with the lock held.
  pub wait-branches : Reaps (wait x me k) ⊎ Fails (wait x me k) ⊎ Sleeps (wait x me k)
  wait-branches = elim (Scan-cases (scan_children me false k.ptable)) [
    | inl (j, s) ↦
        let (q, h, up, z) = scan_children-found me false k.ptable j s in
        inl (wait-reaps j q (h, up) z)
    | inr (b, s) ↦
        let alive = finished-NoZombie me false b k.ptable s in
        elim (Bool-cases b) [
          | inr none_seen ↦
              let alone = finished-Childless me k.ptable (rw none_seen at s) in
              inr (inl (alive, inl alone, wait-fails alive (inl alone)))
          | inl kids ↦
              let (i, p, child) = finished-some_child me k.ptable (rw kids at s) in
              elim (Bool-cases ((deref k me).killed == 0)) [
                | inr killed ↦ inr (inl (alive, inr killed, wait-fails alive (inr killed)))
                | inl lives ↦
                    inr (inr (alive, (i, p, child), lives, wait-sleeps i p alive child lives))
              ]
        ]
  ]
