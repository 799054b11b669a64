-- ===== src/Shell/Table.antt =====
-- The descriptors of a process of hw2/shell.c, and the calls of the kernel that runcmd makes.
use nyu_operating_systems.Base.{
  ℕ, zero, suc, Bool, Option, none, some, List, [], ◌∷◌, if◌then◌else◌, get_elem?, set,
}
use nyu_operating_systems.Shell.Token.{Text}
use nyu_operating_systems.Shell.Parser.{Direction, from_file, to_file}

-- What a descriptor stands for: one of the shell's own, an open file, an end of the pipe with a
-- number.
pub data Desc : Type 0 where
  own : ℕ → Desc
  file : Direction → Text → Desc
  pipe_read pipe_write : ℕ → Desc

-- From descriptor 0 on; none is closed.
abbrev pub Descriptors : Type 0
Descriptors = List (Option Desc)

-- The lowest descriptor that is closed. The table has no limit.
unfoldable pub lowest : Descriptors → ℕ
lowest [] = zero
lowest (none ∷ t) = zero
lowest (some d ∷ t) = suc (lowest t)

unfoldable pub install : Desc → Descriptors → Descriptors
install d [] = some d ∷ []
install d (none ∷ t) = some d ∷ t
install d (some e ∷ t) = some e ∷ install d t

abbrev pub close : ℕ → Descriptors → Descriptors
close fd t = set t fd none

abbrev pub copy : Option (Option Desc) → Descriptors → Descriptors
copy (some (some d)) t = install d t
copy (some none) t = t
copy none t = t

-- dup into the lowest descriptor that is closed.
abbrev pub dup : ℕ → Descriptors → Descriptors
dup fd t = copy (get_elem? t fd) t

-- The process that runs a command: its descriptors, and the files it opened, the last one first.
pub record Process : Type 0 where
  pub fds : Descriptors
  pub opened : List (Direction × Text)

-- What the kernel answers: whether a file opens, a program is found, and the fork of the pipe with a
-- number succeeds.
pub record System : Type 0 where
  pub opens : Direction → Text → Bool
  pub found : Text → Bool
  pub forks : ℕ → Bool

-- rcmd->fd
abbrev pub fd_of : Direction → ℕ
fd_of from_file = 0
fd_of to_file = 1

-- open(rcmd->file, ...): O_CREAT comes with both directions, and O_TRUNC with to_file.
abbrev pub open_file : System → Direction → Text → Process → Process
open_file sys d name p =
    if sys.opens d name
    then record p { fds = install (file d name) p.fds; opened = (d, name) ∷ p.opened }
    else p
