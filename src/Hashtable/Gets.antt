-- ===== src/Hashtable/Gets.antt =====
-- The threads of get_phase in the programs of hw4, in any order, and main's joins of them.
use nyu_operating_systems.Base.{
  ℕ, ◌+◌, ◌-◌, ◌<◌, ◌≡◌, ◌==◌, refl, arith, Option, none, some, List, [], ◌∷◌, length, get_elem?,
  modify, ltb, if◌then◌else◌, ◌>>=◌, zero, suc, occurs, Bool-cases, inl, inr, get_elem?-modify,
  get_elem?-lt, Option-cases, some-inj, sym, subst, ap, ◌∙◌, ltb→lt,
}
use nyu_operating_systems.Hashtable.Table.{Table, retrieve}
use nyu_operating_systems.Hashtable.Threads.{Program, key_at}
use nyu_operating_systems.Hashtable.Phases.{count_lost, get_loop, get_phase, total_lost}

-- Where a thread of get_phase is: at the loop's test, with its key and lost; at pthread_exit, with
-- lost. The table does not change any more, so a round of the loop is one step.
pub data GetPc : Type 0 where
  looking : ℕ → ℕ → GetPc
  exited : ℕ → GetPc

unfoldable pub get_step : Program → Table → GetPc → GetPc
get_step p t (looking key lost) =
    if ltb key (length p.keys)
    then looking (key + p.num_threads) (count_lost (retrieve (key_at p key) t) lost)
    else exited lost
get_step p t (exited lost) = exited lost

-- A schedule: the threads in the order of their steps.
unfoldable pub get_turns : Program → Table → List ℕ → List GetPc → List GetPc
get_turns p t [] gs = gs
get_turns p t (tid ∷ ts) gs = get_turns p t ts (modify gs tid (get_step p t))

-- pthread_create of get_phase in main's loop from i on.
abbrev pub create_gets : ℕ → ℕ → List GetPc
create_gets i zero = []
create_gets i (suc n) = looking i 0 ∷ create_gets (suc i) n

-- total_lost after the loop of pthread_join; none while a thread has not come to its end.
unfoldable pub join_gets : List GetPc → Option ℕ
join_gets [] = some 0
join_gets (looking key lost ∷ gs) = none
join_gets (exited lost ∷ gs) = do rest ← join_gets gs; some (lost + rest)

abbrev repeat : Program → Table → ℕ → GetPc → GetPc
repeat p t zero g = g
repeat p t (suc m) g = repeat p t m (get_step p t g)

repeat-exited : (p : Program) (t : Table) (m lost : ℕ) → repeat p t m (exited lost) ≡ exited lost
unfolding get_step
repeat-exited p t zero lost = refl
repeat-exited p t (suc m) lost = repeat-exited p t m lost

-- Each thread is where its own turns bring it, whatever the order.
get_turns-repeat :
    (p : Program) (t : Table) (ts : List ℕ) (gs : List GetPc) (i : ℕ) (g : GetPc)
    → get_elem? gs i ≡ some g
    → get_elem? (get_turns p t ts gs) i ≡ some (repeat p t (occurs i ts) g)
unfolding get_turns
get_turns-repeat p t [] gs i g e = e
get_turns-repeat p t (tid ∷ ts) gs i g e = elim (Bool-cases (tid == i)) [
  | inl s ↦
      let own : get_elem? (modify gs tid (get_step p t)) i ≡ some (get_step p t g) =
        ground (arith, get_elem?-modify gs tid i (get_step p t)) in
      rw s (get_turns-repeat p t ts (modify gs tid (get_step p t)) i (get_step p t g) own)
  | inr s ↦
      let theirs : get_elem? (modify gs tid (get_step p t)) i ≡ some g =
        ground (arith, get_elem?-modify gs tid i (get_step p t)) in
      rw s (get_turns-repeat p t ts (modify gs tid (get_step p t)) i g theirs)
]

length-modify : (gs : List GetPc) (i : ℕ) (f : GetPc → GetPc) → length (modify gs i f) ≡ length gs
length-modify [] i f = refl
length-modify (g ∷ gs) zero f = refl
length-modify (g ∷ gs) (suc i) f = ap suc (length-modify gs i f)

length-get_turns :
    (p : Program) (t : Table) (ts : List ℕ) (gs : List GetPc)
    → length (get_turns p t ts gs) ≡ length gs
unfolding get_turns
length-get_turns p t [] gs = refl
length-get_turns p t (tid ∷ ts) gs =
    length-get_turns p t ts (modify gs tid (get_step p t)) ∙ length-modify gs tid (get_step p t)

length-create_gets : (i n : ℕ) → length (create_gets i n) ≡ n
length-create_gets i zero = refl
length-create_gets i (suc n) = ap suc (length-create_gets (suc i) n)

create_gets-looking : (i n j : ℕ) → j < n → get_elem? (create_gets i n) j ≡ some (looking (i + j) 0)
create_gets-looking i zero j h = absurd (omega arith)
create_gets-looking i (suc n) zero h =
    let same : i ≡ i + 0 = omega arith in ap (λ k. some (looking k 0)) same
create_gets-looking i (suc n) (suc j) h =
    let same : suc i + j ≡ i + suc j = omega arith in
    create_gets-looking (suc i) n j (omega arith) ∙ ap (λ k. some (looking k 0)) same

module _ (p : Program) (t : Table) (some_thread : 0 < p.num_threads) where
  -- A thread that has come to its end has the count of get_phase's loop.
  ended-get_loop :
      (m fuel key lost l : ℕ)
      → length p.keys - key < fuel
      → repeat p t m (looking key lost) ≡ exited l
      → get_loop p t fuel key lost ≡ some l
  unfolding get_step get_loop
  ended-get_loop zero fuel key lost l enough e = absurd (cc)
  ended-get_loop (suc m) zero key lost l enough e = absurd (omega arith)
  ended-get_loop (suc m) (suc fuel) key lost l enough e =
      elim (Bool-cases (ltb key (length p.keys))) [
        | inl more ↦ rw more (
            ended-get_loop m fuel (key + p.num_threads)
              (count_lost (retrieve (key_at p key) t) lost) l
              (omega (arith, ltb→lt key (length p.keys) more)) (rw more at e))
        | inr over ↦
            let last : repeat p t m (exited lost) ≡ exited l = rw over at e in
            let same : exited lost ≡ exited l = sym (repeat-exited p t m lost) ∙ last in
            rw over (cc)
      ]

  -- NUM_KEYS + 1 turns bring a thread to its end.
  comes_to_end :
      (m key lost : ℕ)
      → length p.keys - key < m
      → (l : ℕ) × (repeat p t m (looking key lost) ≡ exited l)
  unfolding get_step
  comes_to_end zero key lost enough = absurd (omega arith)
  comes_to_end (suc m) key lost enough = elim (Bool-cases (ltb key (length p.keys))) [
    | inl more ↦ rw more (
        comes_to_end m (key + p.num_threads) (count_lost (retrieve (key_at p key) t) lost)
          (omega (arith, ltb→lt key (length p.keys) more)))
    | inr over ↦ rw over (lost, repeat-exited p t m lost)
  ]

  -- The threads after a schedule, by their numbers.
  after : List ℕ → List GetPc
  after ts = get_turns p t ts (create_gets 0 p.num_threads)

  after-repeat :
      (ts : List ℕ) (j : ℕ)
      → j < length (after ts)
      → get_elem? (after ts) j ≡ some (repeat p t (occurs j ts) (looking (0 + j) 0))
  unfolding after
  after-repeat ts j h =
      let size =
        length-get_turns p t ts (create_gets 0 p.num_threads)
        ∙ length-create_gets 0 p.num_threads in
      get_turns-repeat p t ts (create_gets 0 p.num_threads) j (looking (0 + j) 0)
        (create_gets-looking 0 p.num_threads j (omega arith))

  -- Threads at their ends, with the counts of get_phase: main adds these up.
  joined-total_lost :
      (gs : List GetPc) (i m : ℕ)
      → ((j l : ℕ) → get_elem? gs j ≡ some (exited l) → get_phase p t (i + j) ≡ some l)
      → join_gets gs ≡ some m
      → total_lost p t i (length gs) ≡ some m
  unfolding join_gets total_lost
  joined-total_lost [] i m counts e = e
  joined-total_lost (looking key lost ∷ gs) i m counts e = absurd (cc)
  joined-total_lost (exited lost ∷ gs) i m counts e =
      let same : i + 0 ≡ i = omega arith in
      let first : get_phase p t i ≡ some lost =
        subst (λ k. get_phase p t k ≡ some lost) same (counts 0 lost refl) in
      elim (Option-cases (join_gets gs)) [
        | inl waits ↦ absurd (cc (rw (join_gets, waits) at e))
        | inr (rest, joined) ↦
            let others =
              joined-total_lost gs (suc i) rest
                (λ j l h.
                  let next : i + suc j ≡ suc i + j = omega arith in
                  subst (λ k. get_phase p t k ≡ some l) next (counts (suc j) l h))
                joined in
            rw (first, others) (rw (join_gets, joined) at e)
      ]

  join_gets-some :
      (gs : List GetPc)
      → ((j : ℕ) → j < length gs → (l : ℕ) × (get_elem? gs j ≡ some (exited l)))
      → (m : ℕ) × (join_gets gs ≡ some m)
  unfolding join_gets
  join_gets-some [] at_end = (0, refl)
  join_gets-some (g ∷ gs) at_end =
      let (l, here) = at_end 0 (omega arith) in
      let (rest, joined) = join_gets-some gs (λ j h. at_end (suc j) (omega arith)) in
      (l + rest, rw (some-inj here, join_gets, joined) refl)

  -- In whatever order the threads of get_phase take their turns, main's sum is the one of the
  -- counts of get_phase, if they have all come to their ends.
  pub get_turns-total_lost :
      (ts : List ℕ) (m : ℕ)
      → join_gets (get_turns p t ts (create_gets 0 p.num_threads)) ≡ some m
      → total_lost p t 0 p.num_threads ≡ some m
  unfolding after get_phase
  get_turns-total_lost ts m e =
      let size =
        length-get_turns p t ts (create_gets 0 p.num_threads)
        ∙ length-create_gets 0 p.num_threads in
      subst (λ n. total_lost p t 0 n ≡ some m) size
        (joined-total_lost (after ts) 0 m
          (λ j l h.
            let there = after-repeat ts j (get_elem?-lt (after ts) j h) in
            ended-get_loop (occurs j ts) (suc (length p.keys)) (0 + j) 0 l (omega arith)
              (some-inj (sym there ∙ h)))
          e)

  -- With NUM_KEYS + 1 turns for each thread they do, in whatever order.
  pub get_turns-ends :
      (ts : List ℕ)
      → ((j : ℕ) → j < p.num_threads → length p.keys < occurs j ts)
      → (m : ℕ) × (join_gets (get_turns p t ts (create_gets 0 p.num_threads)) ≡ some m)
  unfolding after
  get_turns-ends ts enough =
      let size =
        length-get_turns p t ts (create_gets 0 p.num_threads)
        ∙ length-create_gets 0 p.num_threads in
      join_gets-some (after ts) (λ j h.
        let turns_left = enough j (omega arith) in
        let (l, e) = comes_to_end (occurs j ts) (0 + j) 0 (omega arith) in
        (l, after-repeat ts j h ∙ ap some e))
