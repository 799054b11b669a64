-- ===== src/Syscall/Args.antt =====
-- hw3/syscall.c: the arguments of a system call, from the process's memory. `byte` is what the
-- memory holds, `sz` the process's size, addresses are words.
use nyu_operating_systems.Base.{
  ℕ, zero, suc, ◌+◌, ◌-◌, ◌*◌, ◌^◌, ltb, leb, ◌==◌, ◌||◌, Option, none, some, if◌then◌else◌, ◌>>=◌,
}
use nyu_operating_systems.Base.Words.{u32, add32}

-- *(int*)a on a little-endian machine
abbrev pub word_at : (ℕ → ℕ) → ℕ → ℕ
word_at byte a = byte a + 2 ^ 8 * byte (a + 1) + 2 ^ 16 * byte (a + 2) + 2 ^ 24 * byte (a + 3)

module _ (byte : ℕ → ℕ) (sz : ℕ) where
  -- none for the result -1, some for *ip
  unfoldable pub fetchint : ℕ → Option ℕ
  fetchint addr = if leb sz addr || ltb sz (add32 addr 4) then none else some (word_at byte addr)

  -- The loop of fetchstr: `left` is ep - s, `len` is s - *pp.
  unfoldable pub find_nul : ℕ → ℕ → ℕ → Option ℕ
  find_nul zero s len = none
  find_nul (suc left) s len =
      let rest = find_nul left (suc s) (suc len) in if byte s == 0 then some len else rest

  -- The length; *pp is addr.
  unfoldable pub fetchstr : ℕ → Option ℕ
  fetchstr addr = if leb sz addr then none else find_nul (sz - addr) addr 0

  -- `esp` is proc->tf->esp.
  unfoldable pub argint : ℕ → ℕ → Option ℕ
  argint esp n = fetchint (u32 (esp + 4 + 4 * n))

  -- The pointer; `size` is the word of an int.
  unfoldable pub argptr : ℕ → ℕ → ℕ → Option ℕ
  argptr esp n size = do
    i ← argint esp n
    if leb sz i || ltb sz (add32 i size) then none else some i

  unfoldable pub argstr : ℕ → ℕ → Option ℕ
  argstr esp n = do addr ← argint esp n; fetchstr addr
