-- ===== src/Hashtable/Ends/Fair.antt =====
-- The put phase of hw4/parallel_spin.c and hw4/parallel_mutex.c under a fair scheduler: rounds, in
-- each of which every thread has a turn at least.
use mathlib.Core.List.{Memᴰ}
use nyu_operating_systems.Base.{
  ℕ, ◌+◌, ◌*◌, ◌<◌, ◌≤◌, none, some, List, length, get_elem?, ◌≡◌, ◌⊎◌, [], ◌∷◌, zero, suc, arith,
  refl, Bool-cases, inl, inr, Option-cases, ltb, ap, ◌∙◌, subst, sym, some-inj, ◌++◌,
}
use nyu_operating_systems.Hashtable.Table.{num_buckets}
use nyu_operating_systems.Hashtable.Threads.{
  Program, World, Pc, take_turn, Turn, Reach, start, begin, create,
}
use nyu_operating_systems.Hashtable.Safe.Free.{no_deadlock}
use nyu_operating_systems.Hashtable.Phases.Kept.{IsJoined}
use nyu_operating_systems.Hashtable.Race.{run_turns, run_turns-Reach, turns}
use nyu_operating_systems.Hashtable.Ends.{
  steps_left, none_left-finished, unfinished, steps_left-create,
}
use nyu_operating_systems.Hashtable.Ends.Progress.{turn-memory, AreStuck, turns-Progress}

-- Every thread has a turn.
abbrev pub IsRound : Program → List ℕ → Type 0
IsRound p ts = (t : ℕ) → t < p.num_threads → Memᴰ t ts

abbrev pub AreRounds : Program → List (List ℕ) → Type 0
AreRounds p [] = Unit
AreRounds p (ts ∷ rounds) = IsRound p ts × AreRounds p rounds

-- The rounds, one after the other.
abbrev pub in_order : List (List ℕ) → List Turn
in_order [] = []
in_order (ts ∷ rounds) = turns ts ++ in_order rounds

run_turns-append :
    (p : Program) (us vs : List Turn) (w w' : World)
    → run_turns p us w ≡ some w'
    → run_turns p (us ++ vs) w ≡ run_turns p vs w'
unfolding run_turns
run_turns-append p [] vs w w' e = ap (run_turns p vs) (some-inj e)
run_turns-append p (u ∷ us) vs w w' e = elim (Option-cases (take_turn p u w)) [
  | inl stop ↦ absurd (cc (rw (run_turns, stop) at e))
  | inr (w1, s) ↦ rw (run_turns, s) (run_turns-append p us vs w1 w' (rw (run_turns, s) at e))
]

beyond : (ts : List Pc) (t : ℕ) → length ts ≤ t → get_elem? ts t ≡ none
beyond [] t h = refl
beyond (pc ∷ ts) zero h = absurd (omega arith)
beyond (pc ∷ ts) (suc t) h = beyond ts t (omega arith)

module _ (p : Program) (some_thread : 0 < p.num_threads) where
  -- A turn that is in the round and would leave the world leaves the threads.
  stuck-stays :
      (ts : List ℕ) (u : Turn) (w w' : World)
      → length w.threads ≡ p.num_threads
      → IsRound p ts
      → AreStuck p ts w
      → take_turn p u w ≡ some w'
      → w'.threads ≡ w.threads
  unfolding take_turn
  stuck-stays ts u w w' size fair stuck e = elim (Bool-cases (ltb u.tid p.num_threads)) [
    | inl small ↦
        ap (λ z. z.threads)
          (some-inj (sym (turn-memory p u w w' e) ∙ stuck u.tid (fair u.tid (ground arith))))
    | inr large ↦
        let out : get_elem? w.threads u.tid ≡ none = beyond w.threads u.tid (ground arith) in
        ap (λ z. z.threads) (sym (some-inj (rw (take_turn, out) at e)))
  ]

  module _ (lock : ℕ → ℕ) (covers : (i : ℕ) → p.lock_of i ≡ some (lock i))
      (bounded : (i : ℕ) → i < num_buckets → lock i < num_buckets) where
    -- A round in which every turn leaves the world has no step left to take.
    AreStuck-none_left :
        (ts : List ℕ) (w : World)
        → Reach p (begin p) w
        → length w.threads ≡ p.num_threads
        → IsRound p ts
        → AreStuck p ts w
        → steps_left p w.threads ≡ 0
    AreStuck-none_left ts w r size fair stuck = elim (Bool-cases (ltb 0 (steps_left p w.threads))) [
      | inl more ↦
          let (t, pc, at, going) = unfinished p w.threads (ground arith) in
          let (u, w', e, moved) = no_deadlock p lock covers bounded w t pc r at going in
          absurd (moved (stuck-stays ts u w w' size fair stuck e))
      | inr over ↦ ground arith
    ]

    fair_round :
        (ts : List ℕ) (w : World)
        → Reach p (begin p) w
        → length w.threads ≡ p.num_threads
        → IsRound p ts
        → (w' : World) × (run_turns p (turns ts) w ≡ some w')
          × (length w'.threads ≡ p.num_threads)
          × ((steps_left p w'.threads ≡ 0) ⊎ (steps_left p w'.threads < steps_left p w.threads))
    fair_round ts w r size fair =
        let (w', e, kept, prog) = turns-Progress p some_thread ts w in
        (
          w',
          e,
          kept ∙ size,
          elim prog [
            | inl (same, stuck) ↦ inl (
                subst (λ z. steps_left p z.threads ≡ 0) (sym same)
                  (AreStuck-none_left ts w r size fair stuck))
            | inr less ↦ inr less
          ],
        )

    fair_rounds :
        (rounds : List (List ℕ)) (w : World)
        → Reach p (begin p) w
        → length w.threads ≡ p.num_threads
        → AreRounds p rounds
        → steps_left p w.threads ≤ length rounds
        → (w' : World) × (run_turns p (in_order rounds) w ≡ some w') × IsJoined p w'
    unfolding run_turns
    fair_rounds [] w r size fair enough =
        (w, refl, λ t h. none_left-finished p w.threads t (omega arith) (omega arith))
    fair_rounds (ts ∷ rounds) w r size (fair, fairs) enough =
        let (w1, e1, size1, o) = fair_round ts w r size fair in
        let fewer : steps_left p w1.threads ≤ length rounds = elim o [
          | inl over ↦ omega arith
          | inr less ↦ omega arith
        ] in
        let (w', e', joined) =
          fair_rounds rounds w1 (run_turns-Reach p (turns ts) (begin p) w w1 r e1) size1 fairs
            fewer in
        (w', run_turns-append p (turns ts) (in_order rounds) w w1 e1 ∙ e', joined)

    length-create : (i n : ℕ) → length (create i n) ≡ n
    length-create i zero = refl
    length-create i (suc n) = ap suc (length-create (suc i) n)

    -- If insert locks every bucket i with `lock i`, one of NUM_BUCKETS locks, and there is a thread at
    -- least, then from the start of the put phase every schedule of rounds in each of which every
    -- thread has a turn, with memory for malloc, joins all the threads, when there are at least
    -- num_threads * (5 * NUM_KEYS + 1) rounds.
    pub fair-IsJoined :
        (rounds : List (List ℕ))
        → AreRounds p rounds
        → p.num_threads * (5 * length p.keys + 1) ≤ length rounds
        → (w : World) × (run_turns p (in_order rounds) (begin p) ≡ some w) × IsJoined p w
    fair-IsJoined rounds fair enough =
        let bound = steps_left-create p 0 p.num_threads in
        fair_rounds rounds (begin p) start (length-create 0 p.num_threads) fair (omega arith)
