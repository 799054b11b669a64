-- ===== src/Proc/Behave/Exits.antt =====
-- exit (hw3/proc.c) and the parent that waits for it.
use nyu_operating_systems.Base.{
  ℕ, zero, suc, ◌==◌, ◌≡◌, ◌≢◌, refl, true, Option, some, List, arith, get_elem?, get_elem?-modify,
  get_elem?-modify_self, get_elem?-map, modify, Bool-cases, Option-cases, inl, inr,
  get_or-get_elem?, length, ap, ◌∙◌, ==_refl,
}
use nyu_operating_systems.Proc.State.{
  sleeping, runnable, zombie, is_zombie, same_proc, same_chan, Chan, chan_of, Proc, Kernel,
  Externals, deref, zero_proc,
}
use nyu_operating_systems.Proc.Sched.{switched, wake, wakeup1, sched}
use nyu_operating_systems.Proc.Exit.{abandon, abandon_children, exit, exit_table, exit_files}
use nyu_operating_systems.Proc.Valid.Wake.{sched-switched}
use nyu_operating_systems.Proc.Valid.Leave.Pass.{
  Passed, wakeup1-Passed, abandon_children-Passed, Passed-trans,
}
use nyu_operating_systems.Proc.Behave.Births.{modify-other}

-- Slot j is RUNNABLE.
abbrev pub AwakeAt : List Proc → ℕ → Type 0
AwakeAt t j = (q : Proc) × (get_elem? t j ≡ some q) × (q.state ≡ runnable)

wakeup1-AwakeAt : (c : Chan) (t : List Proc) (j : ℕ) → AwakeAt t j → AwakeAt (wakeup1 c t) j
unfolding wakeup1 wake
wakeup1-AwakeAt c t j (q, h, r) =
    (wake c q, ground (arith, get_elem?-map (wake c) t j), ground arith)

-- A sleeper on the channel is woken.
wakeup1-wakes :
    (c : Chan) (t : List Proc) (j : ℕ) (q : Proc)
    → get_elem? t j ≡ some q
    → q.state ≡ sleeping
    → same_chan q.chan c ≡ true
    → AwakeAt (wakeup1 c t) j
unfolding wakeup1 wake
wakeup1-wakes c t j q h s same =
    (wake c q, ground (arith, get_elem?-map (wake c) t j), ground arith)

modify-AwakeAt :
    (t : List Proc) (i j : ℕ) (f : Proc → Proc)
    → ((p : Proc) → (f p).state ≡ p.state)
    → AwakeAt t j
    → AwakeAt (modify t i f) j
modify-AwakeAt t i j f keeps (q, h, r) = elim (Bool-cases (i == j)) [
  | inl s ↦ (f q, ground (arith, get_elem?-modify t i j f), keeps q ∙ r)
  | inr s ↦ (q, ground (arith, get_elem?-modify t i j f), r)
]

abandon-AwakeAt :
    (me : ℕ) (init : Option ℕ) (i : ℕ) (t : List Proc) (j : ℕ)
    → AwakeAt t j
    → AwakeAt (abandon me init i t) j
unfolding abandon
abandon-AwakeAt me init i t j awake = elim (Option-cases (get_elem? t i)) [
  | inl n ↦ rw (abandon, n) awake
  | inr (p, h) ↦ elim (Bool-cases (same_proc p.parent (some me))) [
    | inr s ↦ rw (abandon, h, s) awake
    | inl s ↦
        let adopt : Proc → Proc = λ q. record q { parent = init } in
        let passed = modify-AwakeAt t i j adopt (λ q. refl) awake in
        elim (Bool-cases (is_zombie p.state)) [
          | inl z ↦
              rw (abandon, h, s, z) (wakeup1-AwakeAt (chan_of init) (modify t i adopt) j passed)
          | inr z ↦ rw (abandon, h, s, z) passed
        ]
  ]
]

abandon_children-AwakeAt :
    (me : ℕ) (init : Option ℕ) (n i : ℕ) (t : List Proc) (j : ℕ)
    → AwakeAt t j
    → AwakeAt (abandon_children me init n i t) j
unfolding abandon_children
abandon_children-AwakeAt me init zero i t j awake = awake
abandon_children-AwakeAt me init (suc n) i t j awake =
    abandon_children-AwakeAt me init n (suc i) (abandon me init i t) j
      (abandon-AwakeAt me init i t j awake)

-- The ended process, once p in slot `me`, is a zombie child of slot r, and that parent is awake.
abbrev pub HandedOver : ℕ → ℕ → Proc → List Proc → Type 0
HandedOver me r p t =
    AwakeAt t r
    × ((q : Proc) × (get_elem? t me ≡ some q)
        × (is_zombie q.state ≡ true)
        × (q.parent ≡ some r)
        × (q.pid ≡ p.pid))

module _ {M : Type 0} (x : Externals M) (me r : ℕ) (p pr : Proc) where
  exit_table-HandedOver :
      (k : Kernel M)
      → get_elem? k.ptable me ≡ some p
      → p.parent ≡ some r
      → r ≢ me
      → get_elem? k.ptable r ≡ some pr
      → pr.state ≡ sleeping
      → pr.chan ≡ Chan.slot r
      → HandedOver me r p (exit_table x me k).ptable
  unfolding exit_table
  exit_table-HandedOver k here up apart there asleep chan =
      let c = chan_of (deref k me).parent in
      let woken = wakeup1 c k.ptable in
      let passed = abandon_children me k.initproc (length woken) 0 woken in
      let die : Proc → Proc = λ q. record q { state = zombie } in
      let its : c ≡ Chan.slot r =
        ap chan_of (ap (λ d. d.parent) (get_or-get_elem? k.ptable me zero_proc p here) ∙ up) in
      let same : same_chan pr.chan c ≡ true = rw (its, chan, ==_refl r) refl in
      let (a, ha, ra) =
        abandon_children-AwakeAt me k.initproc (length woken) 0 woken r
          (wakeup1-wakes c k.ptable r pr there asleep same) in
      let pass : Passed me k.initproc k.ptable passed =
        Passed-trans me k.initproc (wakeup1-Passed me k.initproc c k.ptable)
          (abandon_children-Passed me k.initproc (length woken) 0 woken) in
      let (q, hq, (pid, used, live, on, parent, wakes)) = pass.forth me p here in
      (
        (a, modify-other passed me r die apart ∙ ha, ra),
        (
          die q,
          get_elem?-modify_self passed me die hq,
          refl,
          elim parent [ inl kept ↦ kept ∙ up | inr (mine, to_init) ↦ absurd (ground arith) ],
          pid,
        ),
      )

module _ {M : Type 0} (x : Externals M) (me r : ℕ) (p pr : Proc) where
  -- If the process p in slot `me` exits while its parent pr sleeps on its own slot, as wait does,
  -- then at the switch the parent is RUNNABLE and has the ended process as a zombie child with its
  -- pid: the wakeup is not lost.
  pub exit-HandedOver :
      (k l : Kernel M) (n : ℕ)
      → get_elem? k.ptable me ≡ some p
      → p.parent ≡ some r
      → r ≢ me
      → get_elem? k.ptable r ≡ some pr
      → pr.state ≡ sleeping
      → pr.chan ≡ Chan.slot r
      → exit x me k ≡ switched n l
      → HandedOver me r p l.ptable
  unfolding exit exit_files
  exit-HandedOver k l n here up apart there asleep chan e =
      elim (Bool-cases (same_proc (some me) k.initproc)) [
        | inl i ↦ absurd (ground arith)
        | inr i ↦
            let k1 = exit_files x me k in
            let e' : sched x me (exit_table x me k1) ≡ switched n l = rw (exit, i) at e in
            rw (sched-switched x (exit_table x me k1) me n l e') (
              exit_table-HandedOver x me r _ pr k1 (get_elem?-modify_self k.ptable me _ here) up
                apart (modify-other k.ptable me r _ apart ∙ there) asleep chan)
      ]
