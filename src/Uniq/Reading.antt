-- ===== src/Uniq/Reading.antt =====
-- hw1/uniq.c: myreadline. A file is the list of its bytes, none of them NUL.
use nyu_operating_systems.Base.{
  ℕ, ◌==◌, ◌<◌, ◌≡◌, ltb, refl, arith, false, List, [], ◌∷◌, ◌++◌, length, if◌then◌else◌, All,
}

abbrev pub Text : Type 0
Text = List ℕ

-- '\n'
abbrev pub newline : ℕ
newline = 10

-- The loop of myreadline: the bytes up to a newline or the end, and the file after it.
unfoldable pub read_bytes : Text → Text × Text
read_bytes [] = ([], [])
read_bytes (c ∷ s) = let (w, rest) = read_bytes s in if c == newline then ([], s) else (c ∷ w, rest)

-- The result 0, or 1 with the line in the buffer and the rest of the file. A line that leaves no
-- room for its newline and a NUL in the 1024 bytes of the buffer is overrun.
pub data Read : Type 0 where
  end_of_file overrun : Read
  line : Text → Text → Read

abbrev pub keep_line : Text × Text → Read
keep_line (w, rest) = if ltb (length w) 1023 then line (w ++ newline ∷ []) rest else overrun

unfoldable pub myreadline : Text → Read
unfolding read_bytes
myreadline [] = end_of_file
myreadline (c ∷ s) = keep_line (read_bytes (c ∷ s))

-- A line without its newline: no newline and no NUL in it, and it fits.
abbrev pub NoNewline : Text → Type 0
NoNewline [] = Unit
NoNewline (c ∷ s) = (c == newline ≡ false) × NoNewline s

abbrev pub NoNul : Text → Type 0
NoNul = All (λ c. c == 0 ≡ false)

abbrev pub IsLine : Text → Type 0
IsLine w = NoNewline w × NoNul w × (length w < 1023)

read_bytes-line : (w s : Text) → NoNewline w → read_bytes (w ++ newline ∷ s) ≡ (w, s)
unfolding read_bytes
read_bytes-line [] s h = refl
read_bytes-line (c ∷ w) s (other, h) = rw (other, read_bytes-line w s h) refl

-- myreadline takes one line with its newline.
pub myreadline-line :
    (w s : Text) → IsLine w → myreadline (w ++ newline ∷ s) ≡ line (w ++ newline ∷ []) s
unfolding myreadline
myreadline-line [] s (h, nul, fits) = refl
myreadline-line (c ∷ w) s (h, nul, fits) = rw (read_bytes-line (c ∷ w) s h) (ground arith)
