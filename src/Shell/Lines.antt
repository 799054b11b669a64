-- ===== src/Shell/Lines.antt =====
-- How the shell of hw2/shell.c reads its input, and that it answers each line.
use nyu_operating_systems.Base.{ℕ, suc, ◌≡◌, ◌≢◌, ◌<◌, ◌⊎◌, some, List, [], ◌∷◌, ◌++◌, length, All}
use nyu_operating_systems.Shell.Token.{Text}
use nyu_operating_systems.Shell.Ends.{Ends}
use nyu_operating_systems.Shell.Main.{
  Answers, Event, changed, cannot_cd, no_child, child, refused, unparsed, run_line, main_loop,
}

abbrev pub Answered : Event → Type 0
Answered unparsed = ⊥
Answered (changed path) = Unit
Answered (cannot_cd path) = Unit
Answered no_child = Unit
Answered (child fates) = Unit
Answered (refused complaint) = Unit

-- What fits n characters of `buf ++ rest`: a line with its newline; or characters without one, as
-- many as fit or the last of the input.
abbrev pub IsRead : ℕ → Text → Text → Type 0
IsRead n buf rest =
    ((l : Text) × (buf ≡ l ++ 10 ∷ []) × All (λ c. c ≢ 10) l × (length l < n))
    ⊎ (All (λ c. c ≢ 10) buf × ((length buf ≡ n) ⊎ ((rest ≡ []) × (length buf < n))))

-- The input, cut into what the buffer of getcmd takes at a time.
abbrev pub Cut : List Text → Text → Type 0
Cut [] input = input ≡ []
Cut (buf ∷ bufs) input =
    (rest : Text) × (input ≡ buf ++ rest) × (0 < length buf) × IsRead 99 buf rest × Cut bufs rest

-- The contents of the buffer, run one after the other from the i-th on.
abbrev pub run_buffers : (ℕ → Answers) → ℕ → List Text → List Event
run_buffers kernels i [] = []
run_buffers kernels i (buf ∷ bufs) = run_line (kernels i) buf ∷ run_buffers kernels (suc i) bufs

abbrev Session : (ℕ → Answers) → ℕ → ℕ → Text → Type 0
Session kernels fuel i input =
    (bufs : List Text) × Cut bufs input
    × (main_loop kernels fuel i input ≡ some (run_buffers kernels i bufs))
    × All Answered (run_buffers kernels i bufs)
