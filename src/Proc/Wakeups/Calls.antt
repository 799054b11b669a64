-- ===== src/Proc/Wakeups/Calls.antt =====
-- No operation of hw3/proc.c gives a process that sleeps in wait a zombie child.
use nyu_operating_systems.Base.{
  ℕ, ◌≡◌, ◌≢◌, refl, false, List, Option, some, arith, get_elem?, modify, get_elem?-modify_self,
  get_or-get_elem?, Bool-cases, inl, inr, sym, ◌∙◌, ap, some-inj, Option-cases,
}
use nyu_operating_systems.Proc.State.{
  sleeping, runnable, is_zombie, same_proc, chan_of, Chan, Lock, Proc, Kernel, Externals, deref,
  zero_proc,
}
use nyu_operating_systems.Proc.Alloc.{fork}
use nyu_operating_systems.Proc.Sched.{
  switched, wake, wakeup1, wakeup, mark_killed, kill, find_pid, sched, yield, sleep, sleep_on,
}
use nyu_operating_systems.Proc.Exit.{
  clear_proc, returned, waits, wait, exit, exit_table, exit_files,
}
use nyu_operating_systems.Proc.Valid.{Valid}
use nyu_operating_systems.Proc.Valid.Wake.{RunsAt, sched-switched}
use nyu_operating_systems.Proc.Valid.Fill.{find_unused_lem}
use nyu_operating_systems.Proc.Valid.Leave.{slot_cases}
use nyu_operating_systems.Proc.Valid.Reap.{wait-sleep_on, wait-Returns}
use nyu_operating_systems.Proc.Behave.Scans.{NoZombie}
use nyu_operating_systems.Proc.Behave.Waits.{wait-branches}
use nyu_operating_systems.Proc.Life.Forked.{fork-Forked}
use nyu_operating_systems.Proc.Wakeups.{IsWaiting, Served, Calm-state, Served-modify, Served-map}
use nyu_operating_systems.Proc.Wakeups.Leave.{exit_table-Served}

abbrev pub IsServed : {M : Type 0} → Kernel M → Type 0
IsServed k = Served k.initproc k.ptable

-- The process `me` goes to sleep in wait, without a zombie child.
Served-waits :
    (init : Option ℕ) (t : List Proc) (me : ℕ)
    → Served init t
    → NoZombie t me
    → Served init (modify t me (λ p. record p { chan = Chan.slot me; state = sleeping }))
Served-waits init t me s none_dead =
    let f : Proc → Proc = λ p. record p { chan = Chan.slot me; state = sleeping } in
    record {
      apart = λ j q e. elim (slot_cases t me f j q e) [
        | inl (same, (o, h, d)) ↦
            λ own. s.apart me o h (ap (λ z. z.parent) (sym d) ∙ own ∙ ap some same)
        | inr (other, h) ↦ s.apart j q h
      ];
      orphan = λ j q is_init e. elim (slot_cases t me f j q e) [
        | inl (same, (o, h, d)) ↦ ap (λ z. z.parent) d ∙ s.orphan me o (is_init ∙ ap some same) h
        | inr (other, h) ↦ s.orphan j q is_init h
      ];
      heard = λ i j p q e w e' up. elim (slot_cases t me f j q e') [
        | inl (same, (o, h, d)) ↦ ground arith
        | inr (other, h) ↦ elim (slot_cases t me f i p e) [
          | inl (here, (o, ho, d)) ↦ none_dead j q (h, up ∙ ap some here)
          | inr (apart, hp) ↦ s.heard i j p q hp w h up
        ]
      ];
    }

module _ {M : Type 0} (x : Externals M) where
  pub fork-IsServed :
      (me : ℕ) (k : Kernel M) → Valid k → RunsAt k me → IsServed k → IsServed (fork x me k).1
  fork-IsServed me k v (pm, hm, rm) s = elim (fork-Forked x me k) [
    | inl (table, pids, inits) ↦ rw (table, inits) s
    | inr (i, f, e, table, pids, inits, facts) ↦
        let (p, h, u) = find_unused_lem k.ptable i e in
        let apart : me ≢ i =
          λ same. let both : pm ≡ p = some-inj (sym hm ∙ rw same h) in absurd (ground arith) in
        let (b, is_b, (pb, hb, alive)) = v.reaper in
        let other : k.initproc ≢ some i = λ same.
          let here : b ≡ i = some-inj (sym is_b ∙ same) in
          let both : pb ≡ p = some-inj (sym hb ∙ rw here h) in absurd (ground arith) in
        rw (table, inits)
          (Served-modify k.initproc k.ptable i f s (λ q at. elim (facts q) [
            | inl (none_made, up) ↦
                Calm-state k.initproc i q (f q) up (λ w. absurd (cc)) (λ z. absurd (ground arith))
            | inr (ready, named, up) ↦ record {
              own = λ own e'. apart (some-inj (sym up ∙ e'));
              orphan = λ is_init none_yet. absurd (other is_init);
              waits = λ w. absurd (cc);
              dead = λ z. absurd (ground arith);
            }
          ]))
  ]

  pub wait-IsServed :
      (me w : ℕ) (k l : Kernel M) → wait x me k ≡ returned w l → IsServed k → IsServed l
  unfolding clear_proc
  wait-IsServed me w k l e s = elim (wait-Returns x k me w l e) [
    | inl (none_found, same, pids, inits) ↦ rw (same, inits) s
    | inr (i, p, r) ↦
        rw (r.table, r.inits)
          (Served-modify k.initproc k.ptable i clear_proc s (λ q at. record {
            own = λ own e'. absurd (cc);
            orphan = λ is_init none_yet. refl;
            waits = λ (u, c). absurd (cc);
            dead = λ z. absurd (cc);
          }))
  ]

  wait-NoZombie :
      (me n : ℕ) (k l : Kernel M) → wait x me k ≡ waits (switched n l) → NoZombie k.ptable me
  wait-NoZombie me n k l e = elim (wait-branches x k me) [
    | inl (j, q, l', child, z, answer, clear, rest, memory) ↦ absurd (cc)
    | inr (inl (alive, why, answer)) ↦ absurd (cc)
    | inr (inr (alive, child, lives, answer)) ↦ alive
  ]

  pub wait_on-IsServed :
      (me n : ℕ) (k l : Kernel M) → wait x me k ≡ waits (switched n l) → IsServed k → IsServed l
  unfolding sleep_on
  wait_on-IsServed me n k l e s =
      rw (sched-switched x _ me n l (wait-sleep_on x k me n l e))
        (Served-waits k.initproc k.ptable me s (wait-NoZombie me n k l e))

  -- The CPU's process gives it up, and does not wait for a child.
  pub stop-Served :
      (init : Option ℕ) (t : List Proc) (me : ℕ) (f : Proc → Proc)
      → Served init t
      → ((p : Proc) → (f p).parent ≡ p.parent)
      → ((p : Proc) → IsWaiting me (f p) → ⊥)
      → ((p : Proc) → is_zombie (f p).state ≡ false)
      → Served init (modify t me f)
  stop-Served init t me f s up awake alive = Served-modify init t me f s (λ p at.
      Calm-state init me p (f p) (up p) (λ w. absurd (awake p w))
        (λ z. let lives = alive p in absurd (cc)))

  pub yield-IsServed :
      (me n : ℕ) (k l : Kernel M) → yield x me k ≡ switched n l → IsServed k → IsServed l
  unfolding yield
  yield-IsServed me n k l e s = rw (sched-switched x _ me n l e) (
      stop-Served k.initproc k.ptable me (λ p. record p { state = runnable }) s (λ p. refl)
        (λ p (asleep, c). cc) (λ p. refl))

  sleep_on-IsServed :
      (me n : ℕ) (c : Chan) (lk : Lock) (k l : Kernel M)
      → c ≢ Chan.slot me
      → sleep_on x me c lk k ≡ switched n l
      → IsServed k
      → IsServed l
  unfolding sleep_on
  sleep_on-IsServed me n c lk k l elsewhere e s = rw (sched-switched x _ me n l e) (
      stop-Served k.initproc k.ptable me (λ p. record p { chan = c; state = sleeping }) s
        (λ p. refl) (λ p (asleep, own). elsewhere own) (λ p. refl))

  pub sleep-IsServed :
      (me n : ℕ) (c : Chan) (lk : Lock) (k l : Kernel M)
      → c ≢ Chan.slot me
      → sleep x (some me) c lk k ≡ switched n l
      → IsServed k
      → IsServed l
  unfolding sleep
  sleep-IsServed me n c Lock.null k l elsewhere e s = cc
  sleep-IsServed me n c Lock.ptable_lock k l elsewhere e s =
      sleep_on-IsServed me n c Lock.ptable_lock k l elsewhere e s
  sleep-IsServed me n c (Lock.other a) k l elsewhere e s =
      sleep_on-IsServed me n c (Lock.other a) k l elsewhere e s

  pub kill-IsServed : (pid : ℕ) (k : Kernel M) → IsServed k → IsServed (kill x pid k).1
  unfolding kill mark_killed
  kill-IsServed pid k s = elim (Option-cases (find_pid pid k.ptable)) [
    | inl n ↦ rw (kill, n) s
    | inr (i, e) ↦
        rw (kill, e)
          (Served-modify k.initproc k.ptable i mark_killed s (λ p at.
            Calm-state k.initproc i p (mark_killed p) refl (λ (a, b). ground arith)
              (λ z. ground arith)))
  ]

  pub wakeup-IsServed : (c : Chan) (k : Kernel M) → IsServed k → IsServed (wakeup x c k)
  unfolding wakeup wakeup1 wake
  wakeup-IsServed c k s = Served-map k.initproc k.ptable (wake c) s (λ j p.
      Calm-state k.initproc j p (wake c p) (ground arith) (λ (a, b). ground arith)
        (λ z. ground arith))

  pub exit-IsServed :
      (me n : ℕ) (k l : Kernel M)
      → RunsAt k me
      → exit x me k ≡ switched n l
      → IsServed k
      → IsServed l
  unfolding exit exit_table exit_files
  exit-IsServed me n k l (p, h, r) e s = elim (Bool-cases (same_proc (some me) k.initproc)) [
    | inl i ↦ absurd (ground arith)
    | inr i ↦
        let files = exit_files x me k in
        let e' : sched x me (exit_table x me files) ≡ switched n l = rw (exit, i) at e in
        let before : get_elem? files.ptable me ≡ some _ = get_elem?-modify_self k.ptable me _ h in
        let start =
          Served-modify k.initproc k.ptable me _ s
            (λ q at. Calm-state k.initproc me q _ refl (λ w. w) (λ z. z)) in
        rw (sched-switched x _ me n l e') (
          exit_table-Served me k.initproc files.ptable _ (chan_of (deref files me).parent) start
            before
            (ap (λ (q : Proc). chan_of q.parent)
              (get_or-get_elem? files.ptable me zero_proc _ before)))
  ]
