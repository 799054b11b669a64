-- ===== src/Disk/Blocks.antt =====
-- The buffer and xorbuf of the programs of final_project. A file is the list of its bytes.
use Prim.Native.Nat.{bit_xor}
use nyu_operating_systems.Base.{
  ℕ, zero, suc, ◌+◌, ◌*◌, ◌/◌, ◌≤◌, ◌≡◌, refl, arith, sym, ◌∙◌, ap, subst, List, [], ◌∷◌, ◌++◌,
  length, ◌-◌, min,
}
use nyu_operating_systems.Base.Words.{le_word}
use nyu_operating_systems.Disk.Bits.{zero-bit_xor, bit_xor-zero, bit_xor_assoc}

abbrev pub File : Type 0
File = List ℕ

abbrev pub take : ℕ → File → File
take zero xs = []
take (suc n) [] = []
take (suc n) (x ∷ xs) = x ∷ take n xs

abbrev pub drop : ℕ → File → File
drop zero xs = xs
drop (suc n) [] = []
drop (suc n) (x ∷ xs) = drop n xs

-- The bytes of a buffer as unsigned ints, on a little-endian machine.
abbrev pub word_list : File → List ℕ
word_list [] = []
word_list (a ∷ []) = []
word_list (a ∷ b ∷ []) = []
word_list (a ∷ b ∷ c ∷ []) = []
word_list (a ∷ b ∷ c ∷ d ∷ xs) = le_word a b c d ∷ word_list xs

-- The buffer after a read of `data_read` into its beginning.
abbrev pub fill : File → File → File
fill data_read buf = data_read ++ drop (length data_read) buf

-- The loop of xorbuf, with `size` rounds left. A round past the buffer does not happen.
unfoldable pub xor_loop : List ℕ → ℕ → ℕ → ℕ
xor_loop buffer zero result = result
xor_loop [] (suc size) result = result
xor_loop (w ∷ buffer) (suc size) result = xor_loop buffer size (bit_xor result w)

unfoldable pub xorbuf : List ℕ → ℕ → ℕ
unfolding xor_loop
xorbuf buffer size = xor_loop buffer size 0

-- What one successful read of r bytes adds: xor ^= xorbuf(buf, r / sizeof(unsigned int)).
unfoldable pub add_block : File → File → ℕ → ℕ
unfolding xorbuf
add_block data_read buf xor =
    bit_xor xor (xorbuf (word_list (fill data_read buf)) (length data_read / 4))

-- The exclusive or of a list of words.
abbrev pub xor_all : List ℕ → ℕ
xor_all [] = 0
xor_all (w ∷ ws) = bit_xor w (xor_all ws)

xor_loop-words :
    (xs rest : File) (r : ℕ)
    → xor_loop (word_list (xs ++ rest)) (length xs / 4) r ≡ bit_xor r (xor_all (word_list xs))
unfolding xor_loop
xor_loop-words [] rest r = sym (bit_xor-zero r)
xor_loop-words (a ∷ []) rest r = sym (bit_xor-zero r)
xor_loop-words (a ∷ b ∷ []) rest r = sym (bit_xor-zero r)
xor_loop-words (a ∷ b ∷ c ∷ []) rest r = sym (bit_xor-zero r)
xor_loop-words (a ∷ b ∷ c ∷ d ∷ xs) rest r =
    let more : suc (suc (suc (suc (length xs)))) / 4 ≡ suc (length xs / 4) = omega arith in
    rw more (
      xor_loop-words xs rest (bit_xor r (le_word a b c d))
      ∙ bit_xor_assoc r (le_word a b c d) (xor_all (word_list xs)))

-- Only the words that were read count, whatever the buffer held.
pub add_block_lem :
    (xs buf : File) (xor : ℕ) → add_block xs buf xor ≡ bit_xor xor (xor_all (word_list xs))
unfolding add_block xorbuf
add_block_lem xs buf xor =
    ap (bit_xor xor)
      (xor_loop-words xs (drop (length xs) buf) 0 ∙ zero-bit_xor (xor_all (word_list xs)))

xor_all-append : (us vs : List ℕ) → xor_all (us ++ vs) ≡ bit_xor (xor_all us) (xor_all vs)
xor_all-append [] vs = sym (zero-bit_xor (xor_all vs))
xor_all-append (u ∷ us) vs =
    ap (bit_xor u) (xor_all-append us vs) ∙ sym (bit_xor_assoc u (xor_all us) (xor_all vs))

-- A block of whole words splits the words of the file.
word_list-split :
    (k : ℕ) (xs : File) → word_list (take (k * 4) xs) ++ word_list (drop (k * 4) xs) ≡ word_list xs
word_list-split zero xs = refl
word_list-split (suc k) xs =
    let four : suc (suc (suc (suc (k * 4)))) ≡ suc k * 4 = omega arith in
    subst (λ n. word_list (take n xs) ++ word_list (drop n xs) ≡ word_list xs) four
      (by_four (word_list-split k) xs)
  where
    by_four :
        ((ys : File) → word_list (take (k * 4) ys) ++ word_list (drop (k * 4) ys) ≡ word_list ys)
        → (ys : File)
        → word_list (take (suc (suc (suc (suc (k * 4))))) ys)
            ++ word_list (drop (suc (suc (suc (suc (k * 4))))) ys)
          ≡ word_list ys
    by_four ih [] = refl
    by_four ih (a ∷ []) = refl
    by_four ih (a ∷ b ∷ []) = refl
    by_four ih (a ∷ b ∷ c ∷ []) = refl
    by_four ih (a ∷ b ∷ c ∷ d ∷ ys) = ap (λ ws. le_word a b c d ∷ ws) (ih ys)

pub xor-split :
    (k : ℕ) (xs : File)
    → bit_xor (xor_all (word_list (take (k * 4) xs))) (xor_all (word_list (drop (k * 4) xs)))
      ≡ xor_all (word_list xs)
xor-split k xs =
    sym (xor_all-append (word_list (take (k * 4) xs)) (word_list (drop (k * 4) xs)))
    ∙ ap xor_all (word_list-split k xs)

pub length-drop : (n : ℕ) (xs : File) → length (drop n xs) ≡ length xs - n
length-drop zero xs = omega arith
length-drop (suc n) [] = omega arith
length-drop (suc n) (x ∷ xs) = omega (arith, length-drop n xs)

pub length-take : (n : ℕ) (xs : File) → length (take n xs) ≡ min n (length xs)
length-take zero xs = omega arith
length-take (suc n) [] = omega arith
length-take (suc n) (x ∷ xs) = omega (arith, length-take n xs)

pub drop-nil : (n : ℕ) → drop n [] ≡ []
drop-nil zero = refl
drop-nil (suc n) = refl

pub drop-drop : (m n : ℕ) (xs : File) → drop m (drop n xs) ≡ drop (n + m) xs
drop-drop m zero xs = let same : m ≡ 0 + m = omega arith in ap (λ k. drop k xs) same
drop-drop m (suc n) [] = drop-nil m ∙ sym (drop-nil (suc n + m))
drop-drop m (suc n) (x ∷ xs) =
    let same : suc (n + m) ≡ suc n + m = omega arith in
    drop-drop m n xs ∙ ap (λ k. drop k (x ∷ xs)) same

pub take-take : (m n : ℕ) (xs : File) → m ≤ n → take m (take n xs) ≡ take m xs
take-take zero n xs h = refl
take-take (suc m) zero xs h = absurd (omega arith)
take-take (suc m) (suc n) [] h = refl
take-take (suc m) (suc n) (x ∷ xs) h = ap (λ z. x ∷ z) (take-take m n xs (omega arith))

take-nil : (n : ℕ) → take n [] ≡ []
take-nil zero = refl
take-nil (suc n) = refl

pub drop-take : (m n : ℕ) (xs : File) → drop m (take (m + n) xs) ≡ take n (drop m xs)
drop-take zero n xs = let same : 0 + n ≡ n = omega arith in ap (λ k. take k xs) same
drop-take (suc m) n [] = ap (drop (suc m)) (take-nil (suc m + n)) ∙ sym (take-nil n)
drop-take (suc m) n (x ∷ xs) =
    let same : suc m + n ≡ suc (m + n) = omega arith in
    ap (λ k. drop (suc m) (take k (x ∷ xs))) same ∙ drop-take m n xs
