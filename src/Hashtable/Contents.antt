-- ===== src/Hashtable/Contents.antt =====
-- What the table of hw4 holds after the put phase, whatever the order of the threads' steps.
use native.Mathlib.Nat.{mod-eq_of_lt, add-mul-mod_self_right}
use nyu_operating_systems.Base.{
  ℕ, ◌+◌, ◌-◌, ◌*◌, ◌%◌, ◌<◌, ◌≤◌, true, false, some, List, length, ◌≡◌, [], ◌∷◌, zero, suc, arith,
  refl, Bool-cases, inl, inr, ltb, ◌==◌, sym, subst, ap, ◌∙◌, occurs, occurs_self, occurs_other,
  if◌then◌else◌, mul-le-mul_right,
}
use nyu_operating_systems.Base.Sums.{IsSum, below, below-ext, below-bump, below-more, below-columns}
use nyu_operating_systems.Hashtable.Table.{
  Entry, Table, empty_table, bucket_of, num_buckets, chain, set_chain, insert, length-set_chain,
}
use nyu_operating_systems.Hashtable.Threads.{Program, World, finished, key_at, begin, Reach}
use nyu_operating_systems.Hashtable.Phases.Kept.{IsJoined}
use nyu_operating_systems.Hashtable.Atomic.{position, sequential, IsWithin, Reach-Shows}

add-IsSum : IsSum (λ a b. a + b)
add-IsSum = record {
  left_zero = λ a. omega arith;
  comm = λ a b. omega arith;
  assoc = λ a b c. omega arith;
}

-- f 0 + ... + f (n - 1)
abbrev pub sum_below : ℕ → (ℕ → ℕ) → ℕ
sum_below n f = below (λ a b. a + b) n f

-- The sum of a function over the entries of a table.
abbrev pub chain_sum : (Entry → ℕ) → List Entry → ℕ
chain_sum f [] = 0
chain_sum f (e ∷ c) = f e + chain_sum f c

abbrev pub entry_sum : (Entry → ℕ) → Table → ℕ
entry_sum f [] = 0
entry_sum f (c ∷ t) = chain_sum f c + entry_sum f t

entry_sum-set_chain :
    (f : Entry → ℕ) (t : Table) (i : ℕ) (e : Entry)
    → i < length t
    → entry_sum f (set_chain t i (e ∷ chain t i)) ≡ f e + entry_sum f t
entry_sum-set_chain f [] i e h = absurd (omega arith)
entry_sum-set_chain f (c ∷ t) zero e h = omega arith
entry_sum-set_chain f (c ∷ t) (suc i) e h = omega (arith, entry_sum-set_chain f t i e (omega arith))

module _ (p : Program) (f : Entry → ℕ) where
  -- What f says of the j-th key, as thread j % num_threads inserts it.
  abbrev pub of_key : ℕ → ℕ
  of_key j = f (record { key = key_at p j; val = j % p.num_threads })

  length-sequential : (log : List ℕ) → length (sequential p log) ≡ num_buckets
  unfolding insert
  length-sequential [] = refl
  length-sequential (t ∷ log) = length-set_chain (sequential p log) _ _ ∙ length-sequential log

  entry_sum-empty : entry_sum f empty_table ≡ 0
  entry_sum-empty = omega arith

  -- What threads put that have done n t inserts each.
  abbrev sum_done : (ℕ → ℕ) → ℕ
  sum_done n = sum_below p.num_threads (λ t. sum_below (n t) (λ c. of_key (position p t c)))

  of_key-position :
      (t c : ℕ)
      → t < p.num_threads
      → of_key (position p t c) ≡ f (record { key = key_at p (position p t c); val = t })
  of_key-position t c small =
      ap (λ v. f (record { key = key_at p (position p t c); val = v }))
        (add-mul-mod_self_right t c p.num_threads ∙ mod-eq_of_lt small)

  sum_none : (n : ℕ) → sum_below n (λ t. 0) ≡ 0
  sum_none zero = refl
  sum_none (suc n) = omega (arith, sum_none n)

  entry_sum-sequential :
      (log : List ℕ)
      → IsWithin p log
      → entry_sum f (sequential p log) ≡ sum_done (λ t. occurs t log)
  unfolding insert
  entry_sum-sequential [] h = entry_sum-empty ∙ sym (sum_none p.num_threads)
  entry_sum-sequential (t ∷ log) (small, there, h) =
      let key = key_at p (position p t (occurs t log)) in
      let e : Entry = record { key = key; val = t } in
      let add : ℕ → ℕ → ℕ = λ a b. a + b in
      let put : (ℕ → ℕ) → ℕ → ℕ = λ n u. sum_below (n u) (λ c. of_key (position p u c)) in
      let last = of_key-position t (occurs t log) small in
      entry_sum-set_chain f (sequential p log) (bucket_of key) e
        (omega (arith, length-sequential log))
      ∙ ap (λ z. f e + z) (entry_sum-sequential log h)
      ∙ sym (
          below-bump add add-IsSum p.num_threads t (f e) (put (λ u. occurs u log))
            (put (λ u. occurs u (t ∷ log))) small
            (ap (λ m. sum_below m (λ c. of_key (position p t c))) (occurs_self t log)
              ∙ omega (arith, last))
            (λ u apart.
              ap (λ m. sum_below m (λ c. of_key (position p u c))) (occurs_other u t log apart)))

  -- A key of the log has a number below the count of its thread, and conversely.
  IsWithin-position :
      (log : List ℕ) (t c : ℕ) → IsWithin p log → c < occurs t log → position p t c < length p.keys
  IsWithin-position [] t c h small = absurd (omega arith)
  IsWithin-position (u ∷ log) t c (thread, there, h) small = elim (Bool-cases (u == t)) [
    | inl mine ↦
        let same : u ≡ t = ground arith in
        let last : position p t (occurs t log) < length p.keys =
          subst (λ z. position p z (occurs z log) < length p.keys) same there in
        let at_most : c ≤ occurs t log = ground arith in
        let before : c * p.num_threads ≤ occurs t log * p.num_threads =
          mul-le-mul_right p.num_threads at_most in
        omega arith
    | inr other ↦ IsWithin-position log t c h (ground arith)
  ]

  -- A key of the array, or 0.
  abbrev within : ℕ → ℕ
  within j = if ltb j (length p.keys) then of_key j else 0

  within-position :
      (t c : ℕ)
      → position p t c < length p.keys
      → within (p.num_threads * c + t) ≡ of_key (position p t c)
  within-position t c inside =
      let same : p.num_threads * c + t ≡ position p t c = grind arith in
      let yes : ltb (position p t c) (length p.keys) ≡ true = ground arith in
      ap within same ∙ rw yes refl

  outside :
      (t c n : ℕ) → length p.keys ≤ position p t n → n ≤ c → within (p.num_threads * c + t) ≡ 0
  outside t c n past h =
      let same : p.num_threads * c + t ≡ position p t c = grind arith in
      let more : n * p.num_threads ≤ c * p.num_threads = mul-le-mul_right p.num_threads h in
      let no : ltb (position p t c) (length p.keys) ≡ false = ground arith in
      ap within same ∙ rw no refl

  all_before : (t : ℕ) → 0 < p.num_threads → length p.keys ≤ position p t (length p.keys)
  all_before t some_thread =
      let more : 1 * length p.keys ≤ p.num_threads * length p.keys =
        mul-le-mul_right {m = 1} {n = p.num_threads} (length p.keys) some_thread in
      grind arith

  -- A thread that has come to the end has put all its keys.
  sum-within :
      (t n : ℕ)
      → ((c : ℕ) → c < n → position p t c < length p.keys)
      → length p.keys ≤ position p t n
      → 0 < p.num_threads
      → sum_below n (λ c. of_key (position p t c))
        ≡ sum_below (length p.keys) (λ c. within (p.num_threads * c + t))
  sum-within t n inside past some_thread =
      let summand : ℕ → ℕ = λ c. within (p.num_threads * c + t) in
      let size = length p.keys in
      let swap : size + n ≡ n + size = omega arith in
      below-ext (λ a b. a + b) add-IsSum n (λ c. of_key (position p t c)) summand
        (λ c small. sym (within-position t c (inside c small)))
      ∙ sym (below-more (λ a b. a + b) add-IsSum n size summand (λ c h. outside t c n past h))
      ∙ ap (λ m. sum_below m summand) swap
      ∙ below-more (λ a b. a + b) add-IsSum size n summand
          (λ c h. outside t c size (all_before t some_thread) h)

  -- All threads together.
  sum_done-all :
      (n : ℕ → ℕ)
      → ((t c : ℕ) → c < n t → position p t c < length p.keys)
      → ((t : ℕ) → t < p.num_threads → length p.keys ≤ position p t (n t))
      → 0 < p.num_threads
      → sum_done n ≡ sum_below (length p.keys) of_key
  sum_done-all n inside past some_thread =
      let size = length p.keys in
      let add : ℕ → ℕ → ℕ = λ a b. a + b in
      let more : 1 * size ≤ p.num_threads * size =
        mul-le-mul_right {m = 1} {n = p.num_threads} size some_thread in
      let rows : size * p.num_threads ≡ (size * p.num_threads - size) + size = grind arith in
      below-ext add add-IsSum p.num_threads (λ t. sum_below (n t) (λ c. of_key (position p t c)))
        (λ t. sum_below size (λ c. within (p.num_threads * c + t)))
        (λ t small. sum-within t (n t) (inside t) (past t small) some_thread)
      ∙ below-columns add add-IsSum p.num_threads size within
      ∙ ap (λ m. sum_below m within) rows
      ∙ below-more add add-IsSum size (size * p.num_threads - size) within
          (λ j h. let no : ltb j size ≡ false = ground arith in rw no refl)
      ∙ below-ext add add-IsSum size within of_key
          (λ j h. let yes : ltb j size ≡ true = ground arith in rw yes refl)

module _ (p : Program) (lock : ℕ → ℕ) (covers : (i : ℕ) → p.lock_of i ≡ some (lock i)) where
  -- If insert locks every bucket, then in every world that the put phase can reach, once its
  -- num_threads > 0 threads are joined, the table holds each key once, with the number of the thread
  -- that inserts it, and nothing else: whatever a function says of an entry, its sum over the table
  -- is its sum over the keys. So the order of the threads' steps shows in no such sum.
  pub joined-entry_sum :
      (w : World) (f : Entry → ℕ)
      → 0 < p.num_threads
      → Reach p (begin p) w
      → IsJoined p w
      → entry_sum f w.table
        ≡ sum_below (length p.keys) (λ j. f (record { key = key_at p j; val = j % p.num_threads }))
  joined-entry_sum w f some_thread r joined =
      let (log, v) = Reach-Shows p lock covers w r in
      ap (entry_sum f) v.same
      ∙ entry_sum-sequential p f log v.within
      ∙ sum_done-all p f (λ t. occurs t log) (λ t c. IsWithin-position p f log t c v.within)
          (λ t small. (v.places t finished (joined t small)).0) some_thread
