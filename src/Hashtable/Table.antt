-- ===== src/Hashtable/Table.antt =====
-- The table and its two operations, the same in the three programs of hw4. A bucket's chain is a
-- list: an entry does not change once it can be reached from the table.
use nyu_operating_systems.Base.{
  ℕ, suc, ◌%◌, ◌<◌, ◌≡◌, refl, true, false, ◌==◌, Option, none, some, List, [], ◌∷◌, arith, length,
  get_or, modify, if◌then◌else◌, ap, inl, inr, Bool-cases, replicate,
}

-- NUM_BUCKETS
abbrev pub num_buckets : ℕ
num_buckets = 5

-- struct _bucket_entry, without its link
pub record Entry : Type 0 where
  pub key : ℕ
  pub val : ℕ

abbrev pub Table : Type 0
Table = List (List Entry)

-- The table before any insert: NUM_BUCKETS null pointers.
abbrev pub empty_table : Table
empty_table = replicate num_buckets []

abbrev pub bucket_of : ℕ → ℕ
bucket_of key = key % num_buckets

-- table[i] and table[i] = e
abbrev pub chain : Table → ℕ → List Entry
chain t i = get_or t i []

abbrev pub set_chain : Table → ℕ → List Entry → Table
set_chain t i c = modify t i (λ old. c)

unfoldable pub insert : ℕ → ℕ → Table → Table
insert key val t =
    let i = bucket_of key in set_chain t i (record { key = key; val = val } ∷ chain t i)

-- The loop of retrieve along a chain.
unfoldable pub search_chain : ℕ → List Entry → Option Entry
search_chain key [] = none
search_chain key (b ∷ next) = if b.key == key then some b else search_chain key next

unfoldable pub retrieve : ℕ → Table → Option Entry
unfolding search_chain
retrieve key t = search_chain key (chain t (bucket_of key))

pub chain-set_chain :
    (t : Table) (i j : ℕ) (c : List Entry)
    → i < length t
    → chain (set_chain t i c) j ≡ (if i == j then c else chain t j)
chain-set_chain [] i j c h = absurd (omega arith)
chain-set_chain (x ∷ t) ℕ.zero ℕ.zero c h = refl
chain-set_chain (x ∷ t) ℕ.zero (suc j) c h = ground arith
chain-set_chain (x ∷ t) (suc i) ℕ.zero c h = ground arith
chain-set_chain (x ∷ t) (suc i) (suc j) c h = ground (arith, chain-set_chain t i j c)

pub length-set_chain : (t : Table) (i : ℕ) (c : List Entry) → length (set_chain t i c) ≡ length t
length-set_chain [] i c = refl
length-set_chain (x ∷ t) ℕ.zero c = refl
length-set_chain (x ∷ t) (suc i) c = ap suc (length-set_chain t i c)

search_chain-cons :
    (key : ℕ) (b : Entry) (c : List Entry)
    → search_chain key (b ∷ c) ≡ (if b.key == key then some b else search_chain key c)
unfolding search_chain
search_chain-cons key b c = refl

retrieve-insert_far :
    (key val other : ℕ) (t : Table)
    → length t ≡ num_buckets
    → bucket_of key == bucket_of other ≡ false
    → retrieve other (insert key val t) ≡ retrieve other t
unfolding retrieve insert
retrieve-insert_far key val other t size far =
    rw (chain-set_chain t (bucket_of key) (bucket_of other) _ (omega arith), far) refl

retrieve-insert_near :
    (key val other : ℕ) (t : Table)
    → length t ≡ num_buckets
    → bucket_of key == bucket_of other ≡ true
    → retrieve other (insert key val t)
      ≡ (if key == other then some (record { key = key; val = val }) else retrieve other t)
unfolding retrieve insert
retrieve-insert_near key val other t size near =
    let same : bucket_of key ≡ bucket_of other = ground arith in
    rw
      (
        chain-set_chain t (bucket_of key) (bucket_of other) _ (omega arith),
        near,
        search_chain-cons,
        same,
      )
      refl

-- In a table of NUM_BUCKETS chains, retrieve after an insert finds the new entry under its key, and
-- what it found before under any other.
pub retrieve-insert :
    (key val other : ℕ) (t : Table)
    → length t ≡ num_buckets
    → retrieve other (insert key val t)
      ≡ (if key == other then some (record { key = key; val = val }) else retrieve other t)
retrieve-insert key val other t size = elim (Bool-cases (bucket_of key == bucket_of other)) [
  | inl near ↦ retrieve-insert_near key val other t size near
  | inr far ↦
      let differ : key == other ≡ false = ground arith in
      rw differ (retrieve-insert_far key val other t size far)
]
