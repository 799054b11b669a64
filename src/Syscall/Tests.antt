-- ===== src/Syscall/Tests.antt =====
-- System calls on a small machine.
use nyu_operating_systems.Base.{
  ℕ, ◌+◌, ◌^◌, ◌≡◌, ◌↔◌, refl, some, true, inl, arith, some-inj, sym, ◌∙◌, ◌<◌, ◌≤◌, ◌-◌,
  if◌then◌else◌, ◌==◌,
}
use nyu_operating_systems.Proc.State.{Kernel}
use nyu_operating_systems.Proc.Tests.Toy.{Toy, toy, zeroed}
use nyu_operating_systems.Proc.Tests.Boot.{
  elected, elected_proc, elected-Inv, booted, booted_lem, booted_proc, elected_lem, zeroed-IsFresh,
}
use nyu_operating_systems.Proc.Lottery.{scheduler_round, draw, sum_tickets, dispatch}
use nyu_operating_systems.Syscall.Args.{fetchint, fetchstr, argint, argptr}
use nyu_operating_systems.Syscall.Bounds.{argptr-within, argptr-negative, fetchstr-exact, IsString}
use nyu_operating_systems.Syscall.Handlers.{System, returns}
use nyu_operating_systems.Syscall.Dispatch.{syscall, set_eax}
use nyu_operating_systems.Syscall.Handled.{Calls}
use nyu_operating_systems.Syscall.Replies.{syscall-unknown}
use nyu_operating_systems.Syscall.Session.{FileLaws, start, later, steps, answers, boot-session_Inv}
use nyu_operating_systems.Proc.Valid.Steps.{Inv, elects}
use nyu_operating_systems.Base.Words.{minus_one}

-- A memory that holds 7 at address 12 and 9 at address 16, and zeros.
abbrev memory : ℕ → ℕ
memory a = if a == 12 then 7 else (if a == 16 then 9 else 0)

abbrev small_system : System Toy
small_system = record {
  byte = λ m. memory;
  ticks = λ m. 5;
  ticks_addr = 100;
  tickslock = 200;
  cmostime = λ a m. m;
  rtcdate_size = 24;
  sysfile = λ n k. returns 0 k;
}

fetchstr-exact_example : (fetchstr memory 20 12 ≡ some 1) ↔ IsString memory 20 12 1
fetchstr-exact_example = fetchstr-exact memory 20 12 1

-- The pointer 7 and 8 bytes from it.
argptr-within_example : (argint memory 20 8 0 ≡ some 7) × (7 < 20) × (7 + 8 ≤ 20)
unfolding argptr argint fetchint
argptr-within_example = argptr-within memory 20 8 0 8 7 (omega arith) (omega arith) refl

argptr-negative_example : argptr memory 20 8 0 (2 ^ 32 - 1) ≡ some 7
unfolding argint fetchint
argptr-negative_example =
    argptr-negative memory 20 8 0 1 7 refl (omega arith) (omega arith) (omega arith) (omega arith)

elected-Calls : Calls toy small_system 0 elected
elected-Calls = record {
  inv = elected-Inv;
  runs = elected_proc.0;
  room = omega (arith, elected_proc.1);
}

small-FileLaws : FileLaws toy small_system
small-FileLaws me n k c = record {
  table = record {
    back = λ j q e. (q, e, (refl, refl, refl, refl));
    forth = λ j p e. (p, e, (refl, refl, refl, refl));
  };
  pids = refl;
  cpu = refl;
  init = refl;
  alone = λ i p e on. some-inj (sym (c.inv.valid.sole i p e on) ∙ c.runs);
  caller = c.inv.busy me c.runs;
}

-- From boot: init is elected and calls with the number 0, which is unknown.
answered : Kernel Toy
answered = set_eax toy small_system 0 minus_one elected

answered_lem : syscall toy small_system 0 elected ≡ returns minus_one answered
unfolding answered elected scheduler_round draw sum_tickets dispatch
answered_lem = syscall-unknown toy small_system 0 elected 0 refl (inl refl) (omega arith)

boot-session_Inv_example : Inv toy answered
boot-session_Inv_example =
    boot-session_Inv toy small_system zeroed booted answered 3 small-FileLaws zeroed-IsFresh
      (omega arith) booted_lem
      (later (later start (steps (elects true 0 booted_proc elected_lem)))
        (answers 0 minus_one elected_proc.0 (omega (arith, elected_proc.1)) answered_lem))
