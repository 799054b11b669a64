-- ===== src/Disk/Schedule.antt =====
-- The threads of final_project/run_multithreaded.c after their turns of a schedule.
use Prim.Native.Nat.{bit_xor}
use nyu_operating_systems.Base.{
  occurs, ℕ, zero, suc, ◌+◌, ◌*◌, ◌<◌, ◌≤◌, ◌≡◌, ◌==◌, refl, arith, sym, ◌∙◌, ap, subst, ◌^◌,
  Bool-cases, inl, inr, some, List, [], ◌∷◌, length, get_elem?, modify, get_elem?-modify, some-inj,
}
use nyu_operating_systems.Disk.Bits.{bit_xor-IsSum, bit_xor-zero, bit_xor_assoc}
use nyu_operating_systems.Disk.Blocks.{File}
use nyu_operating_systems.Disk.Threads.{
  Thread, thread_step, new_thread, new_threads, run_threads, join_xor,
}
use nyu_operating_systems.Disk.Shares.{xor_below, InStep, thread_step-InStep}
use nyu_operating_systems.Base.Sums.{below-front}

length-modify :
    (ts : List Thread) (i : ℕ) (f : Thread → Thread) → length (modify ts i f) ≡ length ts
length-modify [] i f = refl
length-modify (t ∷ ts) zero f = refl
length-modify (t ∷ ts) (suc i) f = ap suc (length-modify ts i f)

pub length-new_threads :
    (fresh : ℕ → File) (block_size i n : ℕ) → length (new_threads fresh block_size i n) ≡ n
length-new_threads fresh block_size i zero = refl
length-new_threads fresh block_size i (suc n) =
    ap suc (length-new_threads fresh block_size (suc i) n)

pub get_elem?-new_threads :
    (fresh : ℕ → File) (block_size i n j : ℕ)
    → j < n
    → get_elem? (new_threads fresh block_size i n) j ≡ some (new_thread fresh block_size (i + j))
get_elem?-new_threads fresh block_size i zero j h = absurd (omega arith)
get_elem?-new_threads fresh block_size i (suc n) zero h =
    let same : i ≡ i + 0 = omega arith in ap (λ k. some (new_thread fresh block_size k)) same
get_elem?-new_threads fresh block_size i (suc n) (suc j) h =
    let same : suc i + j ≡ i + suc j = omega arith in
    get_elem?-new_threads fresh block_size (suc i) n j (omega arith)
    ∙ ap (λ k. some (new_thread fresh block_size k)) same

-- What the joins add up to, where g says what each thread holds.
pub join_xor-below :
    (ts : List Thread) (g : ℕ → ℕ) (xor : ℕ)
    → ((i : ℕ) → i < length ts → (t : Thread) × (get_elem? ts i ≡ some t) × (t.xor ≡ g i))
    → join_xor ts xor ≡ bit_xor xor (xor_below (length ts) g)
join_xor-below [] g xor all = sym (bit_xor-zero xor)
join_xor-below (t ∷ ts) g xor all =
    let (first, at, e) = all 0 (omega arith) in
    let same : t.xor ≡ g 0 = ap Thread.xor (some-inj at) ∙ e in
    let others = xor_below (length ts) (λ i. g (suc i)) in
    join_xor-below ts (λ i. g (suc i)) (bit_xor xor t.xor) (λ i h. all (suc i) (omega arith))
    ∙ bit_xor_assoc xor t.xor others
    ∙ ap (bit_xor xor)
        (ap (λ z. bit_xor z others) same ∙ sym (below-front bit_xor bit_xor-IsSum (length ts) g))

module _ (file : File) (num_threads block_size : ℕ) where
  pub length-run_threads :
      (schedule : List ℕ) (ts : List Thread)
      → length (run_threads file num_threads block_size schedule ts) ≡ length ts
  unfolding run_threads
  length-run_threads [] ts = refl
  length-run_threads (i ∷ schedule) ts =
      length-run_threads schedule (modify ts i (thread_step file num_threads block_size i))
      ∙ length-modify ts i (thread_step file num_threads block_size i)

  -- Thread i after the turns of the schedule, of which it has had n.
  abbrev LastAt : List ℕ → List Thread → ℕ → ℕ → Type 0
  LastAt schedule ts i n =
      (last : Thread) × (get_elem? (run_threads file num_threads block_size schedule ts) i
        ≡ some last)
      × InStep file num_threads block_size i n last

  module _ (positive : 0 < block_size) (some_thread : 0 < num_threads)
      (room : length file + num_threads * block_size ≤ 2 ^ 63)
      (few : length file ≤ 2147483647 * (num_threads * block_size)) where
    -- A turn of thread j, as thread i sees it.
    turn-InStep :
        (j i turns : ℕ) (ts : List Thread) (t : Thread)
        → get_elem? ts i ≡ some t
        → InStep file num_threads block_size i turns t
        → (next : Thread) × (get_elem? (modify ts j (thread_step file num_threads block_size j)) i
            ≡ some next)
          × InStep file num_threads block_size i (occurs i (j ∷ []) + turns) next
    turn-InStep j i turns ts t at v =
        let step = thread_step file num_threads block_size j in
        elim (Bool-cases (j == i)) [
          | inl on ↦
              let same : i ≡ j = ground arith in
              let one : suc turns ≡ occurs i (j ∷ []) + turns = ground arith in
              (
                step t,
                ground (arith, get_elem?-modify ts j i step),
                subst (λ n. InStep file num_threads block_size i n (step t)) one
                    (subst
                      (λ k.
                        InStep file num_threads block_size i (suc turns)
                          (thread_step file num_threads block_size k t))
                      same
                      (thread_step-InStep file num_threads block_size positive some_thread room few
                        i turns t v)),
              )
          | inr off ↦
              let none_more : turns ≡ occurs i (j ∷ []) + turns = ground arith in
              (
                t,
                ground (arith, get_elem?-modify ts j i step),
                subst (λ n. InStep file num_threads block_size i n t) none_more v,
              )
        ]

    occurs-cons :
        (i j turns : ℕ) (schedule : List ℕ)
        → occurs i (j ∷ []) + turns + occurs i schedule ≡ turns + occurs i (j ∷ schedule)
    occurs-cons i j turns schedule = elim (Bool-cases (j == i)) [
      | inl on ↦ rw on (omega arith)
      | inr off ↦ rw off (omega arith)
    ]

    pub run_threads-InStep :
        (schedule : List ℕ) (ts : List Thread) (i turns : ℕ) (t : Thread)
        → get_elem? ts i ≡ some t
        → InStep file num_threads block_size i turns t
        → LastAt schedule ts i (turns + occurs i schedule)
    unfolding run_threads
    run_threads-InStep [] ts i turns t at v =
        let same : turns ≡ turns + 0 = omega arith in
        (t, at, subst (λ n. InStep file num_threads block_size i n t) same v)
    run_threads-InStep (j ∷ schedule) ts i turns t at v =
        let moved = modify ts j (thread_step file num_threads block_size j) in
        let (next, there, w) = turn-InStep j i turns ts t at v in
        subst (LastAt schedule moved i) (occurs-cons i j turns schedule)
          (run_threads-InStep schedule moved i (occurs i (j ∷ []) + turns) next there w)
