-- ===== src/Proc/Dump.antt =====
-- hw3/proc.c: procdump, as the lines that it prints.
use Prim.Native.String.{String}
use nyu_operating_systems.Base.{
  ℕ, zero, suc, ◌+◌, ◌≤◌, ◌≢◌, ◌==◌, arith, Bool-cases, inl, inr, List, [], ◌∷◌, length, All,
  if◌then◌else◌,
}
use nyu_operating_systems.Proc.State.{
  Procstate, unused, embryo, sleeping, runnable, running, zombie, is_unused, is_sleeping, Proc,
  Kernel,
}

-- states[p->state]; each of the states has a name.
abbrev pub state_name : Procstate → String
state_name unused = "unused"
state_name embryo = "embryo"
state_name sleeping = "sleep "
state_name runnable = "runble"
state_name running = "run   "
state_name zombie = "zombie"

-- "%d %s %s", and the addresses after it.
pub record Listing : Type 0 where
  pub pid : ℕ
  pub state : String
  pub name : List ℕ
  pub pcs : List ℕ

-- for(i=0; i<10 && pc[i] != 0; i++), with `left` rounds to go; getcallerpcs fills ten words.
unfoldable pub caller_pcs : ℕ → List ℕ → List ℕ
caller_pcs zero pcs = []
caller_pcs (suc left) [] = []
caller_pcs (suc left) (pc ∷ pcs) =
    let rest = caller_pcs left pcs in if pc == 0 then [] else pc ∷ rest

module _ {M : Type 0} (getcallerpcs : ℕ → M → List ℕ) (k : Kernel M) where
  abbrev pub listing : Proc → Listing
  listing p = record {
    pid = p.pid;
    state = state_name p.state;
    name = p.name;
    pcs =
        if is_sleeping p.state
        then caller_pcs 10 (getcallerpcs ((k.contexts p.context).ebp + 8) k.mach)
        else [];
  }

  abbrev pub list_procs : List Proc → List Listing
  list_procs [] = []
  list_procs (p ∷ ps) =
      let rest = list_procs ps in if is_unused p.state then rest else listing p ∷ rest

  unfoldable pub procdump : List Listing
  unfolding caller_pcs
  procdump = list_procs k.ptable

-- At most ten addresses are printed after a process, and none of them is null.
caller_pcs-bounded :
    (left : ℕ) (pcs : List ℕ)
    → (length (caller_pcs left pcs) ≤ left) × All (λ pc. pc ≢ 0) (caller_pcs left pcs)
unfolding caller_pcs
caller_pcs-bounded zero pcs = (omega arith, tt)
caller_pcs-bounded (suc left) [] = (omega arith, tt)
caller_pcs-bounded (suc left) (pc ∷ pcs) = elim (Bool-cases (pc == 0)) [
  | inl null ↦ rw null (omega arith, tt)
  | inr other ↦
      let (few, all) = caller_pcs-bounded left pcs in
      let not_null : pc ≢ 0 = ground arith in rw other (omega arith, (not_null, all))
]
