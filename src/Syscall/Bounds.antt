-- ===== src/Syscall/Bounds.antt =====
-- What the argument checks of hw3/syscall.c let through.
use nyu_operating_systems.Base.{
  ℕ, zero, suc, ◌+◌, ◌-◌, ◌^◌, ◌<◌, ◌≤◌, leb, ◌==◌, none, some, if◌then◌else◌, ◌≡◌, ◌≢◌, ◌↔◌, arith,
  false, Bool-cases, Option-cases, inl, inr, some-inj, subst,
}
use nyu_operating_systems.Syscall.Args.{word_at, fetchint, find_nul, fetchstr, argint, argptr}

module _ (byte : ℕ → ℕ) (sz : ℕ) where
  -- In a process of at most 2 ^ 31 bytes (user memory ends at KERNBASE) fetchint reads the word at
  -- a 32-bit address exactly when all four of its bytes are the process's, and fails otherwise: the
  -- wrap of addr + 4 does not show.
  pub fetchint-exact :
      (addr : ℕ)
      → sz ≤ 2 ^ 31
      → addr < 2 ^ 32
      → fetchint byte sz addr ≡ (if leb (addr + 4) sz then some (word_at byte addr) else none)
  unfolding fetchint
  fetchint-exact addr small word = ground arith

  -- The string found: no NUL before its end.
  pub IsString : ℕ → ℕ → Type 0
  IsString addr n =
      (addr + n < sz) × (byte (addr + n) ≡ 0) × ((j : ℕ) → j < n → byte (addr + j) ≢ 0)

  none_before :
      (s d : ℕ)
      → byte s ≢ 0
      → ((j : ℕ) → j < d → byte (suc s + j) ≢ 0)
      → (j : ℕ) → j < suc d
      → byte (s + j) ≢ 0
  none_before s d here before zero h = λ z. here (subst (λ y. byte y ≡ 0) (omega arith) z)
  none_before s d here before (suc j) h =
      λ z. before j (omega arith) (subst (λ y. byte y ≡ 0) (omega arith) z)

  find_nul_complete :
      (left s len d : ℕ)
      → d < left
      → byte (s + d) ≡ 0
      → ((j : ℕ) → j < d → byte (s + j) ≢ 0)
      → find_nul byte sz left s len ≡ some (len + d)
  unfolding find_nul
  find_nul_complete zero s len d inside nul before = absurd (omega arith)
  find_nul_complete (suc left) s len zero inside nul before =
      let here : byte s ≡ 0 = subst (λ y. byte y ≡ 0) (omega arith) nul in ground arith
  find_nul_complete (suc left) s len (suc d) inside nul before =
      let more : byte s ≢ 0 =
        λ z. before 0 (omega arith) (subst (λ y. byte y ≡ 0) (omega arith) z) in
      let rest =
        find_nul_complete left (suc s) (suc len) d (omega arith)
          (subst (λ y. byte y ≡ 0) (omega arith) nul)
          (λ j h z. before (suc j) (omega arith) (subst (λ y. byte y ≡ 0) (omega arith) z)) in
      ground arith

  find_nul_sound :
      (left s len n : ℕ)
      → find_nul byte sz left s len ≡ some n
      → (d : ℕ) × (n ≡ len + d)
        × (d < left)
        × (byte (s + d) ≡ 0)
        × ((j : ℕ) → j < d → byte (s + j) ≢ 0)
  unfolding find_nul
  find_nul_sound zero s len n e = absurd (cc)
  find_nul_sound (suc left) s len n e = elim (Bool-cases (byte s == 0)) [
    | inl nul ↦
        let here : len ≡ n = some-inj (rw nul at e) in
        (0, omega arith, omega arith, ground arith, λ j h. absurd (omega arith))
    | inr more ↦
        let (d, at, inside, zero_here, before) =
          find_nul_sound left (suc s) (suc len) n (rw more at e) in
        (
          suc d,
          omega arith,
          omega arith,
          subst (λ z. byte z ≡ 0) (omega arith) zero_here,
          none_before s d (λ z. absurd (ground arith)) before,
        )
  ]

  -- fetchstr returns n exactly when the bytes from addr hold a string of length n that ends, with
  -- its NUL, below sz; it fails when there is none.
  pub fetchstr-exact : (addr n : ℕ) → (fetchstr byte sz addr ≡ some n) ↔ IsString addr n
  unfolding fetchstr IsString
  fetchstr-exact addr n = (
    λ e. elim (Bool-cases (leb sz addr)) [
      | inl out ↦ absurd (ground arith)
      | inr ok ↦
          let (d, at, inside, nul, before) =
            find_nul_sound (sz - addr) addr 0 n (rw (fetchstr, ok) at e) in
          let same : d ≡ n = omega arith in
          (omega arith, subst (λ z. byte (addr + z) ≡ 0) same nul, λ j h. before j (omega arith))
    ],
    λ (inside, nul, before).
        let ok : leb sz addr ≡ false = ground arith in
        let none_first : 0 + n ≡ n = omega arith in
        rw ok (
          subst (λ z. find_nul byte sz (sz - addr) addr 0 ≡ some z) none_first
            (find_nul_complete (sz - addr) addr 0 n (omega arith) nul before)),
  )

  -- In a process of at most 2 ^ 31 bytes a block that argptr lets through, of a size that is not
  -- negative as an int, lies within the process.
  pub argptr-within :
      (esp n size i : ℕ)
      → sz ≤ 2 ^ 31
      → size < 2 ^ 31
      → argptr byte sz esp n size ≡ some i
      → (argint byte sz esp n ≡ some i) × (i < sz) × (i + size ≤ sz)
  unfolding argptr
  argptr-within esp n size i small positive e = elim (Option-cases (argint byte sz esp n)) [
    | inl out ↦ absurd (ground arith)
    | inr (j, got) ↦ ground arith
  ]

  -- A negative size is added modulo 2 ^ 32: it passes the check at any pointer within the process
  -- that is not below its absolute value d.
  pub argptr-negative :
      (esp n d i : ℕ)
      → argint byte sz esp n ≡ some i
      → i < sz
      → sz ≤ 2 ^ 31
      → 0 < d
      → d ≤ i
      → argptr byte sz esp n (2 ^ 32 - d) ≡ some i
  unfolding argptr
  argptr-negative esp n d i got inside small some_bytes back = ground arith
