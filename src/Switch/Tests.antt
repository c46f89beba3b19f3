-- ===== src/Switch/Tests.antt =====
-- Concrete stacks for the theorems on src/src/boot/asm/switch.asm.
use shiro.Tags.{Words}
use shiro.Base.{◌≡◌, refl, ◌==◌, if◌then◌else◌, arith, inl, inr}
use shiro.Switch.{Cpu, switch_task}
use shiro.Switch.Frame.{Call, switch_task_round_trip}

-- A stack at 0x9000 with the arguments of a call, and a fresh task's frame at 0xA000.
abbrev stacks : Words
stacks a =
    if a == 0x9000
    then 0x1234
    else if a == 0x9004
    then 0x500
    else if a == 0x9008
    then 0xA000
    else if a == 0xA010
    then 0x7777
    else 0

abbrev first_cpu : Cpu
first_cpu = record {
  eax = 1;
  ebx = 2;
  esi = 3;
  edi = 4;
  ebp = 5;
  esp = 0x9000;
  eip = 0;
  mem = stacks;
}

first_cpu-Call : Call first_cpu 0x500 0xA000
first_cpu-Call = record {
  room = omega arith;
  top = omega arith;
  arg_slot = refl;
  arg_sp = refl;
  apart = inl (omega arith);
}

-- The fresh task calls `switch_task` to go back.
abbrev second_cpu : Cpu
second_cpu = record (switch_task first_cpu) {
  esp = 0xA000;
  mem = λ a.
      if a == 0xA004 then 0x504 else if a == 0xA008 then 0x8FF0 else (switch_task first_cpu).mem a;
}

switch_task_round_trip_example :
    ((switch_task second_cpu).edi ≡ 4)
    × ((switch_task second_cpu).esi ≡ 3)
    × ((switch_task second_cpu).ebx ≡ 2)
    × ((switch_task second_cpu).ebp ≡ 5)
    × ((switch_task second_cpu).eip ≡ 0x1234)
    × ((switch_task second_cpu).esp ≡ 0x9004)
switch_task_round_trip_example =
    switch_task_round_trip first_cpu second_cpu 0x500 0x504 0xA000 first_cpu-Call
      (record {
        room = omega arith;
        top = omega arith;
        arg_slot = refl;
        arg_sp = refl;
        apart = inl (omega arith);
      })
      (record { small = omega arith; stack = inl (omega arith); off_slot = inr (omega arith) })
      (λ a lo hi. ground arith)
