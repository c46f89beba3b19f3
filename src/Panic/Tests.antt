-- ===== src/Panic/Tests.antt =====
-- A fault, for the theorem on the screen of src/src/classes/panic.class.h.
use shiro.Panic.{Registers, draws, trigger, panic_attr, int2char, exception_name}
use shiro.Panic.Draws.{Shown}
use shiro.Panic.Shown.{trigger-Shown}
use shiro.Text.Numbers.{collect}
use shiro.Base.{ℕ, ◌≤◌, ◌≡◌, refl, [], codes, arith}

-- A read of a page that is not present.
abbrev fault : Registers
fault = record {
  eax = 1;
  ebx = 2;
  ecx = 3;
  edx = 4;
  esi = 5;
  edi = 6;
  ebp = 7;
  esp = 0x8000;
  eip = 0x101234;
  eflags = 0x202;
  int_no = 14;
  err_code = 0;
}

-- The number of a division by zero is not shown.
no_number : int2char 0 ≡ []
unfolding int2char collect
no_number = refl

default_name : exception_name 31 ≡ codes "Reserved Exception"
unfolding exception_name
default_name = refl

trigger-Shown_example :
    Shown panic_attr (trigger fault 0xDEAD (λ i. i) (λ j. 0)) (draws fault 0xDEAD (λ i. i))
    × ((j : ℕ) → 2000 ≤ j → trigger fault 0xDEAD (λ i. i) (λ j. 0) j ≡ 0)
trigger-Shown_example = trigger-Shown fault 0xDEAD (λ i. i) (λ j. 0) (omega arith)
