-- ===== src/Switch.antt =====
-- src/src/boot/asm/switch.asm: `switch_task`, the change of stacks. Memory is read and written by
-- 32-bit words.
pub mod Frame
mod Tests
use shiro.Tags.{Words}
use shiro.Base.{ℕ, ◌+◌, ◌==◌, Bool, true, false, if◌then◌else◌, add32, sub32}

-- The registers that the routine uses and the memory.
pub record Cpu : Type 0 where
  pub eax : ℕ
  pub ebx : ℕ
  pub esi : ℕ
  pub edi : ℕ
  pub ebp : ℕ
  pub esp : ℕ
  pub eip : ℕ
  pub mem : Words

abbrev pub poke : Words → ℕ → ℕ → Words
poke w a v j = if j == a then v else w j

abbrev pub push : Cpu → ℕ → Cpu
push c v = record c { esp = sub32 c.esp 4; mem = poke c.mem (sub32 c.esp 4) v }

abbrev pub save_regs : Cpu → Cpu
save_regs c =
    let c1 = push c c.ebp in let c2 = push c1 c1.ebx in let c3 = push c2 c2.esi in push c3 c3.edi

-- `mov eax, [esp + 20]`, `mov [eax], esp`, `mov esp, [esp + 24]`.
abbrev pub swap_stacks : Cpu → Cpu
swap_stacks c =
    let slot = c.mem (add32 c.esp 20) in
    let mem' = poke c.mem slot c.esp in
    record c { eax = slot; mem = mem'; esp = mem' (add32 c.esp 24) }

abbrev pub restore_regs : Cpu → Cpu
restore_regs c = record c {
  edi = c.mem c.esp;
  esi = c.mem (add32 c.esp 4);
  ebx = c.mem (add32 c.esp 8);
  ebp = c.mem (add32 c.esp 12);
  eip = c.mem (add32 c.esp 16);
  esp = add32 c.esp 20;
}

pub switch_task : Cpu → Cpu
switch_task c = restore_regs (swap_stacks (save_regs c))
