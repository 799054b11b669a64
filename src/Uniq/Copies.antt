-- ===== src/Uniq/Copies.antt =====
-- What strcmp finds in the arrays of string_compare (hw1/uniq.c).
use nyu_operating_systems.Base.{
  ℕ, zero, suc, ◌+◌, ◌<◌, ◌≤◌, ◌≡◌, ◌⊎◌, inl, inr, refl, arith, true, false, [], ◌∷◌, length, ap,
  sym, ◌∙◌,
}
use nyu_operating_systems.Uniq.Reading.{Text, NoNul}
use nyu_operating_systems.Uniq.Compare.{
  same_string, Memory, upper, put, to_upper, strcpy, string_at, Stack, first_at, second_at,
  string_compare,
}

-- A text in upper case.
abbrev pub upper_text : Text → Text
upper_text [] = []
upper_text (c ∷ s) = upper c ∷ upper_text s

pub length-upper_text : (s : Text) → length (upper_text s) ≡ length s
length-upper_text [] = refl
length-upper_text (c ∷ s) = ap suc (length-upper_text s)

NoNul-upper_text : (s : Text) → NoNul s → NoNul (upper_text s)
NoNul-upper_text [] h = tt
NoNul-upper_text (c ∷ s) (some_char, h) = (ground arith, NoNul-upper_text s h)

-- The bytes of a text, without its NUL, are at this address.
abbrev Holds : Memory → ℕ → Text → Type 0
Holds m a [] = Unit
Holds m a (c ∷ s) = (m a ≡ c) × Holds m (a + 1) s

string_at-Holds :
    (bytes : ℕ) (m : Memory) (a : ℕ) (s : Text)
    → Holds m a s
    → m (a + length s) ≡ 0
    → NoNul s
    → length s < bytes
    → string_at bytes m a ≡ s
string_at-Holds zero m a s holds end plain small = absurd (omega arith)
string_at-Holds (suc bytes) m a [] holds end plain small =
    let here : a ≡ a + 0 = omega arith in
    let none_left : m a ≡ 0 = ap m here ∙ end in rw none_left refl
string_at-Holds (suc bytes) m a (c ∷ s) (here, holds) end (some_char, plain) small =
    let next : a + 1 + length s ≡ a + suc (length s) = omega arith in
    rw
      (
        here,
        some_char,
        string_at-Holds bytes m (a + 1) s holds (ap m next ∙ end) plain (omega arith),
      )
      refl

-- An address outside n bytes.
abbrev Outside : ℕ → ℕ → ℕ → Type 0
Outside a n b = (b < a) ⊎ (a + n ≤ b)

Holds-keep :
    (m m' : Memory) (a : ℕ) (s : Text)
    → ((i : ℕ) → i < length s → m' (a + i) ≡ m (a + i))
    → Holds m a s
    → Holds m' a s
Holds-keep m m' a [] same holds = tt
Holds-keep m m' a (c ∷ s) same (here, holds) =
    let first : a ≡ a + 0 = omega arith in
    (
      ap m' first ∙ same 0 (omega arith) ∙ ap m (sym first) ∙ here,
      Holds-keep m m' (a + 1) s
          (λ i h.
            let next : a + 1 + i ≡ a + suc i = omega arith in
            ap m' next ∙ same (suc i) (omega arith) ∙ ap m (sym next))
          holds,
    )

strcpy-Outside :
    (m : Memory) (s : Text) (a b : ℕ) → Outside a (suc (length s)) b → strcpy m s a b ≡ m b
strcpy-Outside m [] a b out = ground arith
strcpy-Outside m (c ∷ s) a b out =
    let later : Outside (a + 1) (suc (length s)) b = ground arith in
    strcpy-Outside (put m a c) s (a + 1) b later ∙ ground arith

strcpy-Holds : (m : Memory) (s : Text) (a : ℕ) → Holds (strcpy m s a) a s
strcpy-Holds m [] a = tt
strcpy-Holds m (c ∷ s) a =
    let before : Outside (a + 1) (suc (length s)) a = inl (omega arith) in
    (
      strcpy-Outside (put m a c) s (a + 1) a before ∙ ground arith,
      strcpy-Holds (put m a c) s (a + 1),
    )

strcpy-end : (m : Memory) (s : Text) (a : ℕ) → strcpy m s a (a + length s) ≡ 0
strcpy-end m [] a = ground arith
strcpy-end m (c ∷ s) a =
    let next : a + suc (length s) ≡ a + 1 + length s = omega arith in
    ap (strcpy (put m a c) s (a + 1)) next ∙ strcpy-end (put m a c) s (a + 1)

to_upper-Outside :
    (m : Memory) (s : Text) (a b : ℕ) → Outside a (length s) b → to_upper m s a b ≡ m b
to_upper-Outside m [] a b out = refl
to_upper-Outside m (c ∷ s) a b out =
    let later : Outside (a + 1) (length s) b = ground arith in
    to_upper-Outside (put m a (upper c)) s (a + 1) b later ∙ ground arith

to_upper-Holds : (m : Memory) (s : Text) (a : ℕ) → Holds (to_upper m s a) a (upper_text s)
to_upper-Holds m [] a = tt
to_upper-Holds m (c ∷ s) a =
    let before : Outside (a + 1) (length s) a = inl (omega arith) in
    (
      to_upper-Outside (put m a (upper c)) s (a + 1) a before ∙ ground arith,
      to_upper-Holds (put m a (upper c)) s (a + 1),
    )

-- The arrays for s and t, each with the byte behind it, do not overlap.
abbrev pub Apart : Stack → Text → Text → Type 0
Apart stack s t =
    (second_at stack s t + length t < first_at stack s t)
    ⊎ (first_at stack s t + length s < second_at stack s t)

-- Nothing but a NUL is behind the arrays.
abbrev pub Ended : Stack → Text → Text → Type 0
Ended stack s t =
    (stack.memory s t (first_at stack s t + length s) ≡ 0)
    × (stack.memory s t (second_at stack s t + length t) ≡ 0)

-- A string that strcmp can read.
abbrev pub Readable : Stack → Text → Type 0
Readable stack s = NoNul s × (length s < stack.bytes)

module _ (stack : Stack) (s t : Text) (of_s : Readable stack s) (of_t : Readable stack t) where
  pub string_compare-copied : Apart stack s t → string_compare false stack s t ≡ same_string s t
  unfolding string_compare
  string_compare-copied apart =
      let (plain_s, small_s) = of_s in
      let (plain_t, small_t) = of_t in
      let a = first_at stack s t in
      let b = second_at stack s t in
      let one = strcpy (stack.memory s t) s a in
      let both = strcpy one t b in
      let kept : (i : ℕ) → i ≤ length s → both (a + i) ≡ one (a + i) = λ i h.
        strcpy-Outside one t b (a + i)
          (elim apart [ inl below ↦ inr (omega arith) | inr above ↦ inl (omega arith) ]) in
      let first : string_at stack.bytes both a ≡ s =
        string_at-Holds stack.bytes both a s
          (Holds-keep one both a s (λ i h. kept i (omega arith))
            (strcpy-Holds (stack.memory s t) s a))
          (kept (length s) (omega arith) ∙ strcpy-end (stack.memory s t) s a) plain_s small_s in
      let second : string_at stack.bytes both b ≡ t =
        string_at-Holds stack.bytes both b t (strcpy-Holds one t b) (strcpy-end one t b) plain_t
          small_t in
      ap (λ z. same_string z (string_at stack.bytes both b)) first ∙ ap (same_string s) second

  pub string_compare-upper :
      Apart stack s t
      → Ended stack s t
      → string_compare true stack s t ≡ same_string (upper_text s) (upper_text t)
  unfolding string_compare
  string_compare-upper apart (end_s, end_t) =
      let (plain_s, small_s) = of_s in
      let (plain_t, small_t) = of_t in
      let a = first_at stack s t in
      let b = second_at stack s t in
      let m = stack.memory s t in
      let one = to_upper m s a in
      let both = to_upper one t b in
      let size_s = length-upper_text s in
      let size_t = length-upper_text t in
      let kept : (i : ℕ) → i ≤ length s → both (a + i) ≡ one (a + i) = λ i h.
        to_upper-Outside one t b (a + i)
          (elim apart [ inl below ↦ inr (omega arith) | inr above ↦ inl (omega arith) ]) in
      let first : string_at stack.bytes both a ≡ upper_text s =
        string_at-Holds stack.bytes both a (upper_text s)
          (Holds-keep one both a (upper_text s) (λ i h. kept i (omega arith))
            (to_upper-Holds m s a))
          (ap (λ n. both (a + n)) size_s
            ∙ kept (length s) (omega arith)
            ∙ to_upper-Outside m s a (a + length s) (inr (omega arith))
            ∙ end_s)
          (NoNul-upper_text s plain_s) (omega arith) in
      let untouched : one (b + length t) ≡ m (b + length t) =
        to_upper-Outside m s a (b + length t)
          (elim apart [ inl below ↦ inl (omega arith) | inr above ↦ inr (omega arith) ]) in
      let second : string_at stack.bytes both b ≡ upper_text t =
        string_at-Holds stack.bytes both b (upper_text t) (to_upper-Holds one t b)
          (ap (λ n. both (b + n)) size_t
            ∙ to_upper-Outside one t b (b + length t) (inr (omega arith))
            ∙ untouched
            ∙ end_t)
          (NoNul-upper_text t plain_t) (omega arith) in
      ap (λ z. same_string z (string_at stack.bytes both b)) first
      ∙ ap (same_string (upper_text s)) second

-- The array for t ends where the one for s begins.
abbrev pub Meets : Stack → Text → Text → Type 0
Meets stack s t = second_at stack s t + length t ≡ first_at stack s t

string_at-end : (bytes : ℕ) (m : Memory) (a : ℕ) → m a ≡ 0 → string_at bytes m a ≡ []
string_at-end zero m a here = refl
string_at-end (suc bytes) m a here = rw here refl

-- Then the NUL of the second copy is the first byte of the first one.
pub string_compare-Meets :
    (stack : Stack) (s t : Text) (c : ℕ)
    → Readable stack (c ∷ t)
    → Meets stack s (c ∷ t)
    → string_compare false stack s (c ∷ t) ≡ false
unfolding string_compare same_string
string_compare-Meets stack s t c (plain, small) meets =
    let a = first_at stack s (c ∷ t) in
    let b = second_at stack s (c ∷ t) in
    let one = strcpy (stack.memory s (c ∷ t)) s a in
    let both = strcpy one (c ∷ t) b in
    let first : string_at stack.bytes both a ≡ [] =
      string_at-end stack.bytes both a (ap both (sym meets) ∙ strcpy-end one (c ∷ t) b) in
    let second : string_at stack.bytes both b ≡ c ∷ t =
      string_at-Holds stack.bytes both b (c ∷ t) (strcpy-Holds one (c ∷ t) b)
        (strcpy-end one (c ∷ t) b) plain small in
    ap (λ z. same_string z (string_at stack.bytes both b)) first ∙ ap (same_string []) second
