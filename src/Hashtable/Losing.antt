-- ===== src/Hashtable/Losing.antt =====
-- What main of hw4/parallel_hashtable.c prints after the race.
use nyu_operating_systems.Base.{
  ℕ, ◌≡◌, ◌≢◌, ◌==◌, ◌<◌, refl, arith, true, some, List, [], ◌∷◌, length,
}
use nyu_operating_systems.Hashtable.Table.{
  bucket_of, chain, set_chain, retrieve, chain-set_chain, search_chain, empty_table,
  length-set_chain,
}
use nyu_operating_systems.Hashtable.Gets.{get_turns, get_step, join_gets, create_gets}
use nyu_operating_systems.Hashtable.Race.{
  race_order, racing, raced_table, raced-loses, race_order-runs,
}
use nyu_operating_systems.Hashtable.Main.{startup, join_puts, phases, main, hashtable_main, prints}

raced-keeps : (a b : ℕ) → retrieve b (raced_table a b) ≡ some (record { key = b; val = 1 })
unfolding retrieve search_chain
raced-keeps a b =
    let t1 =
      set_chain empty_table (bucket_of a)
        (record { key = a; val = 0 } ∷ chain empty_table (bucket_of a)) in
    let here : bucket_of b == bucket_of b ≡ true = ground arith in
    let small : bucket_of b < 5 = omega arith in
    let size : length t1 ≡ 5 = length-set_chain empty_table (bucket_of a) _ in
    let itself : b == b ≡ true = ground arith in
    rw
      (
        chain-set_chain t1 (bucket_of b) (bucket_of b)
            (record { key = b; val = 1 } ∷ chain empty_table (bucket_of b)) (omega arith),
        here,
        itself,
      )
      refl

-- Each thread of the get phase looks its key up and ends.
abbrev pub get_order : List ℕ
get_order = 0 ∷ 1 ∷ 0 ∷ 1 ∷ []

one_lost :
    (a b : ℕ)
    → a ≢ b
    → bucket_of a ≡ bucket_of b
    → join_gets (get_turns (racing a b) (raced_table a b) get_order (create_gets 0 2)) ≡ some 1
unfolding join_gets get_turns get_step
one_lost a b differ near = rw (raced-loses a b differ near, raced-keeps a b) refl

-- For any two different keys of the same bucket there is an order of the steps of two threads of
-- the put phase after which main of parallel_hashtable.c prints that one of two keys is retrieved.
pub main-loses :
    (a b : ℕ)
    → a ≢ b
    → bucket_of a ≡ bucket_of b
    → hashtable_main 2 2 (a ∷ b ∷ []) true race_order get_order ≡ prints 1
unfolding main startup join_puts
main-loses a b differ near =
    let ends : phases (racing a b) race_order get_order ≡ prints 1 =
      rw (phases, race_order-runs a b, one_lost a b differ near) refl in
    ends
