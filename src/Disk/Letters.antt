-- ===== src/Disk/Letters.antt =====
-- What disk_write of final_project leaves in a file.
use Prim.Native.Nat.{bit_xor}
use nyu_operating_systems.Base.{
  ℕ, zero, suc, ◌+◌, ◌*◌, ◌/◌, ◌%◌, ◌≡◌, ◌==◌, not, Bool, true, false, refl, arith, sym, ◌∙◌, ap,
  Option, none, some, [], ◌∷◌, ◌++◌, length, if◌then◌else◌, replicate, set, append-nil, Bool-cases,
  inl, inr, ◌⊎◌,
}
use nyu_operating_systems.Disk.Blocks.{File, take, drop, word_list, xor_all, drop-drop, drop-nil}
use nyu_operating_systems.Disk.Sequential.{fast_read}
use nyu_operating_systems.Disk.Whole.{fast_read-xor}
use nyu_operating_systems.Disk.Write.{
  DirEntry, owner_reads, open_write, write_letter, fill_letter, write_at, write_loop, write_blocks,
  disk_write,
}

replicate-append : (m n a : ℕ) → replicate m a ++ replicate n a ≡ replicate (m + n) a
replicate-append zero n a = let same : n ≡ 0 + n = omega arith in ap (λ k. replicate k a) same
replicate-append (suc m) n a =
    let same : suc (m + n) ≡ suc m + n = omega arith in
    ap (λ xs. a ∷ xs) (replicate-append m n a) ∙ ap (λ k. replicate k a) same

pub length-replicate : (n a : ℕ) → length (replicate n a) ≡ n
length-replicate zero a = refl
length-replicate (suc n) a = ap suc (length-replicate n a)

take-letters :
    (n : ℕ) (xs : File) → take n (replicate n write_letter ++ xs) ≡ replicate n write_letter
take-letters zero xs = refl
take-letters (suc n) xs = ap (λ ys. write_letter ∷ ys) (take-letters n xs)

drop-letters : (n k : ℕ) (xs : File) → drop (n + k) (replicate n write_letter ++ xs) ≡ drop k xs
drop-letters zero k xs = let same : 0 + k ≡ k = omega arith in ap (λ m. drop m xs) same
drop-letters (suc n) k xs =
    let same : suc n + k ≡ suc (n + k) = omega arith in
    ap (λ m. drop m (replicate (suc n) write_letter ++ xs)) same ∙ drop-letters n k xs

set-letters :
    (n x : ℕ) (xs : File)
    → set (replicate n write_letter ++ x ∷ xs) n write_letter ≡ replicate (suc n) write_letter ++ xs
set-letters zero x xs = refl
set-letters (suc n) x xs = ap (λ ys. write_letter ∷ ys) (set-letters n x xs)

-- After the inner loop the buffer is full of the letter.
fill_letter-filled :
    (done : ℕ) (buf : File)
    → fill_letter (length buf) done (replicate done write_letter ++ buf)
      ≡ replicate (done + length buf) write_letter
fill_letter-filled done [] = replicate-append done 0 write_letter
fill_letter-filled done (x ∷ buf) =
    let same : suc done + length buf ≡ done + suc (length buf) = omega arith in
    ap (fill_letter (length buf) (suc done)) (set-letters done x buf)
    ∙ fill_letter-filled (suc done) buf
    ∙ ap (λ n. replicate n write_letter) same

-- A write after n letters.
write_at-letters :
    (n m : ℕ) (old : File)
    → write_at n (replicate m write_letter) (replicate n write_letter ++ drop n old)
      ≡ replicate (n + m) write_letter ++ drop (n + m) old
write_at-letters n m old =
    let letters = replicate m write_letter in
    ap (λ xs. xs ++ letters ++ drop (n + length letters) (replicate n write_letter ++ drop n old))
      (take-letters n (drop n old))
    ∙ ap (λ xs. replicate n write_letter ++ letters ++ xs)
        (drop-letters n (length letters) (drop n old)
          ∙ ap (λ k. drop k (drop n old)) (length-replicate m write_letter)
          ∙ drop-drop m n old)
    ∙ ap (λ xs. xs ++ drop (n + m) old) (replicate-append n m write_letter)

write_loop-letters :
    (block_size left n : ℕ) (buf old : File)
    → length buf ≡ block_size
    → write_loop block_size left n buf (replicate n write_letter ++ drop n old)
      ≡ replicate (n + left * block_size) write_letter ++ drop (n + left * block_size) old
unfolding write_loop
write_loop-letters block_size zero n buf old size =
    let same : n ≡ n + 0 * block_size = omega arith in
    ap (λ k. replicate k write_letter ++ drop k old) same
write_loop-letters block_size (suc left) n buf old size =
    let none : 0 + length buf ≡ block_size = omega arith in
    let same : n + block_size + left * block_size ≡ n + suc left * block_size = grind arith in
    let filled : fill_letter block_size 0 buf ≡ replicate block_size write_letter =
      ap (λ k. fill_letter k 0 buf) (sym size)
      ∙ fill_letter-filled 0 buf
      ∙ ap (λ k. replicate k write_letter) none in
    let start = replicate n write_letter ++ drop n old in
    ap (λ ys. write_loop block_size left (n + block_size) ys (write_at n ys start)) filled
    ∙ ap (write_loop block_size left (n + block_size) (replicate block_size write_letter))
        (write_at-letters n block_size old)
    ∙ write_loop-letters block_size left (n + block_size) (replicate block_size write_letter) old
        (length-replicate block_size write_letter)
    ∙ ap (λ k. replicate k write_letter ++ drop k old) same

-- The entry with its first n bytes written, as the file system lets the user.
abbrev pub entry_after : ℕ → ℕ → Option DirEntry → Option DirEntry
entry_after umask n none = some (record {
  bytes = replicate n write_letter;
  readable = not (owner_reads umask);
  writable = false;
})
entry_after umask n (some e) =
    if e.writable
    then some (record e { bytes = replicate n write_letter ++ drop n e.bytes })
    else some e

write_all :
    (block_count : ℕ) (buf old : File)
    → write_loop (length buf) block_count 0 buf old
      ≡ replicate (length buf * block_count) write_letter ++ drop (length buf * block_count) old
write_all block_count buf old =
    let same : 0 + block_count * length buf ≡ length buf * block_count = grind arith in
    write_loop-letters (length buf) block_count 0 buf old refl
    ∙ ap (λ k. replicate k write_letter ++ drop k old) same

-- disk_write sets the first block_size * block_count bytes of the file to the letter and leaves what
-- an older, longer file has beyond them; it leaves a file alone that its owner may not write, and
-- the file it creates is such a file, whatever the umask, which says if its owner may read it.
pub disk_write-entry_after :
    (umask : ℕ) (old : Option DirEntry) (buf : File) (block_count : ℕ)
    → disk_write umask old buf (length buf) block_count
      ≡ entry_after umask (length buf * block_count) old
unfolding disk_write open_write write_blocks
disk_write-entry_after umask none buf block_count =
    let n = length buf * block_count in
    ap
      (λ bytes.
        some (record { bytes = bytes; readable = not (owner_reads umask); writable = false }))
      (write_all block_count buf []
        ∙ ap (λ xs. replicate n write_letter ++ xs) (drop-nil n)
        ∙ append-nil (replicate n write_letter))
disk_write-entry_after umask (some old) buf block_count = both old.writable
  where
    both :
        (may : Bool)
        → write_blocks (some old) (if may then some old else none) buf (length buf) block_count ≡ (
            if may
            then some (record old {
              bytes =
                  replicate (length buf * block_count) write_letter
                  ++ drop (length buf * block_count) old.bytes;
            })
            else some old)
    both true =
        ap (λ bytes. some (record old { bytes = bytes })) (write_all block_count buf old.bytes)
    both false = refl

-- A second disk_write changes nothing of a file that a first one created.
pub disk_write-again :
    (umask : ℕ) (buf next_buf : File) (block_count next_count : ℕ)
    → disk_write umask
        (disk_write umask none buf (length buf) block_count)
        next_buf
        (length next_buf)
        next_count
      ≡ disk_write umask none buf (length buf) block_count
disk_write-again umask buf next_buf block_count next_count =
    rw (disk_write-entry_after umask none buf block_count) (
      disk_write-entry_after umask (entry_after umask (length buf * block_count) none) next_buf
        next_count)

letters-xor :
    (n : ℕ)
    → xor_all (word_list (replicate n write_letter)) ≡ (if n / 4 % 2 == 1 then 0x74747474 else 0)
letters-xor n = by_four n
  where
    by_four :
        (k : ℕ)
        → xor_all (word_list (replicate k write_letter))
          ≡ (if k / 4 % 2 == 1 then 0x74747474 else 0)
    by_four zero = refl
    by_four (suc zero) = refl
    by_four (suc (suc zero)) = refl
    by_four (suc (suc (suc zero))) = refl
    by_four (suc (suc (suc (suc k)))) =
        let more : suc (suc (suc (suc k))) / 4 ≡ suc (k / 4) = omega arith in
        rw (more, by_four k) (flip (k / 4) (Bool-cases (k / 4 % 2 == 1)))
      where
        flip :
            (w : ℕ)
            → ((w % 2 == 1) ≡ true) ⊎ ((w % 2 == 1) ≡ false)
            → bit_xor 0x74747474 (if w % 2 == 1 then 0x74747474 else 0)
              ≡ (if suc w % 2 == 1 then 0x74747474 else 0)
        flip w (inl odd) = ground arith
        flip w (inr even) = ground arith

-- fast.c on n letters.
pub fast_read-letters :
    (n : ℕ) (buf : File)
    → fast_read (replicate n write_letter) buf ≡ some (if n / 4 % 2 == 1 then 0x74747474 else 0)
fast_read-letters n buf = fast_read-xor (replicate n write_letter) buf ∙ ap some (letters-xor n)
