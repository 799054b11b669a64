-- ===== src/Proc/Valid/Leave/Pass.antt =====
-- The loop of exit (hw3/proc.c) that passes the children of a process on to init.
use nyu_operating_systems.Base.{
  ℕ, zero, suc, ◌+◌, ◌≤◌, ◌<◌, ◌≡◌, ◌≢◌, refl, List, Option, some, arith, get_elem?, modify,
  get_elem?-modify, get_elem?-map, Bool-cases, Option-cases, inl, inr, ◌⊎◌, ◌==◌, subst, sym,
}
use native.Mathlib.Decide.{ℕ_discrete}
use nyu_operating_systems.Proc.State.{
  sleeping, runnable, is_unused, is_running, is_zombie, same_proc, Chan, chan_of, Proc,
}
use nyu_operating_systems.Proc.Sched.{wake, wakeup1}
use nyu_operating_systems.Proc.Exit.{abandon, abandon_children}
use nyu_operating_systems.Proc.Valid.{is_live}

-- A process before and after: its state stays, or it wakes; its channel stays.
abbrev pub Wakes : Proc → Proc → Type 0
Wakes p q =
    ((q.state ≡ p.state) ⊎ ((p.state ≡ sleeping) × (q.state ≡ runnable))) × (q.chan ≡ p.chan)

-- A process before and after: only its parent changes, from `me` to init, or it wakes.
abbrev pub PassedOn : ℕ → Option ℕ → Proc → Proc → Type 0
PassedOn me init p q =
    (q.pid ≡ p.pid)
    × (is_unused q.state ≡ is_unused p.state)
    × (is_live q.state ≡ is_live p.state)
    × (is_running q.state ≡ is_running p.state)
    × ((q.parent ≡ p.parent) ⊎ ((p.parent ≡ some me) × (q.parent ≡ init)))
    × Wakes p q

pub record Passed (me : ℕ) (init : Option ℕ) (t t' : List Proc) : Type 0 where
  pub back :
      (j : ℕ) (q : Proc)
      → get_elem? t' j ≡ some q
      → (p : Proc) × (get_elem? t j ≡ some p) × PassedOn me init p q
  pub forth :
      (j : ℕ) (p : Proc)
      → get_elem? t j ≡ some p
      → (q : Proc) × (get_elem? t' j ≡ some q) × PassedOn me init p q

module _ (me : ℕ) (init : Option ℕ) where
  PassedOn-refl : (p : Proc) → PassedOn me init p p
  PassedOn-refl p = (refl, refl, refl, refl, inl refl, (inl refl, refl))

  PassedOn-trans :
      (p q r : Proc) → PassedOn me init p q → PassedOn me init q r → PassedOn me init p r
  PassedOn-trans p q r a b = ground arith

  Passed-refl : (t : List Proc) → Passed me init t t
  Passed-refl t = record {
    back = λ j q e. (q, e, PassedOn-refl q);
    forth = λ j p e. (p, e, PassedOn-refl p);
  }

  pub Passed-trans :
      {t t' t'' : List Proc} → Passed me init t t' → Passed me init t' t'' → Passed me init t t''
  Passed-trans a b = record {
    back = λ j r e.
        let (q, eq, pq) = b.back j r e in
        let (p, ep, pp) = a.back j q eq in (p, ep, PassedOn-trans p q r pp pq);
    forth = λ j p e.
        let (q, eq, pq) = a.forth j p e in
        let (r, er, pr) = b.forth j q eq in (r, er, PassedOn-trans p q r pq pr);
  }

  wake-PassedOn : (c : Chan) (p : Proc) → PassedOn me init p (wake c p)
  unfolding wake
  wake-PassedOn c p = ground arith

  pub wakeup1-Passed : (c : Chan) (t : List Proc) → Passed me init t (wakeup1 c t)
  unfolding wakeup1
  wakeup1-Passed c t = record {
    back = λ j q e. elim (Option-cases (get_elem? t j)) [
      | inl n ↦ absurd (ground (arith, get_elem?-map (wake c) t j))
      | inr (p, h) ↦ (p, h, ground (arith, get_elem?-map (wake c) t j, wake-PassedOn c p))
    ];
    forth = λ j p e. (wake c p, ground (arith, get_elem?-map (wake c) t j), wake-PassedOn c p);
  }

  pub modify-Passed :
      (t : List Proc) (i : ℕ) (f : Proc → Proc)
      → ((p : Proc) → get_elem? t i ≡ some p → PassedOn me init p (f p))
      → Passed me init t (modify t i f)
  modify-Passed t i f same = record {
    back = λ j q e. elim (Option-cases (get_elem? t j)) [
      | inl n ↦ absurd (ground (arith, get_elem?-modify t i j f))
      | inr (p, h) ↦ (
        p,
        h,
        elim (Bool-cases (i == j)) [
          | inl s ↦
              let ij : i ≡ j = ground arith in
              let hi : get_elem? t i ≡ some p = rw ij h in
              ground (arith, get_elem?-modify t i j f, same p)
          | inr s ↦ ground (arith, get_elem?-modify t i j f)
        ],
      )
    ];
    forth = λ j p e. elim (Bool-cases (i == j)) [
      | inl s ↦
          let ij : i ≡ j = ground arith in
          let hi : get_elem? t i ≡ some p = rw ij e in
          (f p, ground (arith, get_elem?-modify t i j f), same p hi)
      | inr s ↦ (p, ground (arith, get_elem?-modify t i j f), PassedOn-refl p)
    ];
  }

  adopt : Proc → Proc
  adopt q = record q { parent = init }

  abandon-Passed : (i : ℕ) (t : List Proc) → Passed me init t (abandon me init i t)
  unfolding abandon adopt
  abandon-Passed i t = elim (Option-cases (get_elem? t i)) [
    | inl n ↦ rw (abandon, n) (Passed-refl t)
    | inr (p, h) ↦ elim (Bool-cases (same_proc p.parent (some me))) [
      | inr s ↦ rw (abandon, h, s) (Passed-refl t)
      | inl s ↦
          let mine : p.parent ≡ some me = ground arith in
          let step : Passed me init t (modify t i adopt) =
            modify-Passed t i adopt (λ q e. ground arith) in
          elim (Bool-cases (is_zombie p.state)) [
            | inl z ↦ rw (abandon, h, s, z) (Passed-trans step (wakeup1-Passed (chan_of init) _))
            | inr z ↦ rw (abandon, h, s, z) step
          ]
    ]
  ]

  pub abandon_children-Passed :
      (n i : ℕ) (t : List Proc) → Passed me init t (abandon_children me init n i t)
  unfolding abandon_children
  abandon_children-Passed zero i t = Passed-refl t
  abandon_children-Passed (suc n) i t =
      Passed-trans (abandon-Passed i t) (abandon_children-Passed n (suc i) (abandon me init i t))

  -- A round leaves its slot without `me` as parent.
  abandon-parent :
      init ≢ some me
      → (i : ℕ) (t : List Proc) (q : Proc) → get_elem? (abandon me init i t) i ≡ some q
      → q.parent ≢ some me
  unfolding abandon adopt
  abandon-parent other i t q e = elim (Option-cases (get_elem? t i)) [
    | inl n ↦ let e' : get_elem? t i ≡ some q = rw (abandon, n) at e in cc
    | inr (p, h) ↦ elim (Bool-cases (same_proc p.parent (some me))) [
      | inr s ↦ let e' : get_elem? t i ≡ some q = rw (abandon, h, s) at e in ground arith
      | inl s ↦ elim (Bool-cases (is_zombie p.state)) [
        | inl z ↦
            let e' : get_elem? (wakeup1 (chan_of init) (modify t i adopt)) i ≡ some q =
              rw (abandon, h, s, z) at e in
            let (r, hr, a) = (wakeup1-Passed (chan_of init) (modify t i adopt)).back i q e' in
            ground (arith, get_elem?-modify t i i adopt)
        | inr z ↦
            let e' : get_elem? (modify t i adopt) i ≡ some q = rw (abandon, h, s, z) at e in
            ground (arith, get_elem?-modify t i i adopt)
      ]
    ]
  ]

  -- After the rounds no slot that they reach has `me` as parent.
  pub abandon_children-parent :
      init ≢ some me
      → (n i j : ℕ) (t : List Proc) (q : Proc) → i ≤ j
      → j < i + n
      → get_elem? (abandon_children me init n i t) j ≡ some q
      → q.parent ≢ some me
  unfolding abandon_children
  abandon_children-parent other zero i j t q lo hi e = absurd (omega arith)
  abandon_children-parent other (suc n) i j t q lo hi e = elim (ℕ_discrete i j) [
    | yes s ↦
        let (p, h, a) = (abandon_children-Passed n (suc i) (abandon me init i t)).back j q e in
        let here : get_elem? (abandon me init i t) i ≡ some p =
          subst (λ z. get_elem? (abandon me init i t) z ≡ some p) (sym s) h in
        let fine : p.parent ≢ some me = abandon-parent other i t p here in ground arith
    | no s ↦
        abandon_children-parent other n (suc i) j (abandon me init i t) q (omega arith)
          (omega arith) e
  ]
