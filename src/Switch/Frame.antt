-- ===== src/Switch/Frame.antt =====
-- What src/src/boot/asm/switch.asm keeps for a task and gives back to it.
use shiro.Tags.{Words}
use shiro.Base.{
  ℕ, ◌+◌, ◌-◌, ◌≤◌, ◌<◌, ◌≡◌, ◌⊎◌, refl, ◌==◌, if◌then◌else◌, add32, sub32, arith, u32_mod, ◌∙◌,
}
use shiro.Switch.{Cpu, save_regs, swap_stacks, restore_regs, switch_task}

-- The frame that a suspended task has at `sp`.
pub record Frame (w : Words) (sp edi esi ebx ebp eip : ℕ) : Type 0 where
  pub at_edi : w sp ≡ edi
  pub at_esi : w (sp + 4) ≡ esi
  pub at_ebx : w (sp + 8) ≡ ebx
  pub at_ebp : w (sp + 12) ≡ ebp
  pub at_eip : w (sp + 16) ≡ eip

-- A call `switch_task(slot, sp)`: the stack has room, and the slot is off it.
pub record Call (c : Cpu) (slot sp : ℕ) : Type 0 where
  pub room : 16 ≤ c.esp
  pub top : c.esp + 12 < u32_mod
  pub arg_slot : c.mem (c.esp + 4) ≡ slot
  pub arg_sp : c.mem (c.esp + 8) ≡ sp
  pub apart : (slot + 4 ≤ c.esp - 16) ⊎ (c.esp + 12 ≤ slot)

-- The frame at `sp` overlaps neither the caller's stack nor the slot.
pub record Clear (c : Cpu) (slot sp : ℕ) : Type 0 where
  pub small : sp + 20 < u32_mod
  pub stack : (sp + 20 ≤ c.esp - 16) ⊎ (c.esp ≤ sp)
  pub off_slot : (sp + 20 ≤ slot) ⊎ (slot + 4 ≤ sp)

restored :
    {sp edi esi ebx ebp eip : ℕ} (d : Cpu)
    → sp + 20 < u32_mod
    → d.esp ≡ sp
    → Frame d.mem sp edi esi ebx ebp eip
    → ((restore_regs d).edi ≡ edi)
      × ((restore_regs d).esi ≡ esi)
      × ((restore_regs d).ebx ≡ ebx)
      × ((restore_regs d).ebp ≡ ebp)
      × ((restore_regs d).eip ≡ eip)
      × ((restore_regs d).esp ≡ sp + 20)
restored {sp} d small e f =
    let a1 : add32 sp 4 ≡ sp + 4 = omega (arith, small) in
    let a2 : add32 sp 8 ≡ sp + 8 = omega (arith, small) in
    let a3 : add32 sp 12 ≡ sp + 12 = omega (arith, small) in
    let a4 : add32 sp 16 ≡ sp + 16 = omega (arith, small) in
    let a5 : add32 sp 20 ≡ sp + 20 = omega (arith, small) in
    rw (e, a1, a2, a3, a4, a5) (f.at_edi, f.at_esi, f.at_ebx, f.at_ebp, f.at_eip, refl)

module _ (c : Cpu) (slot sp : ℕ) (call : Call c slot sp) where
  -- The memory after the call: the slot, then the four registers, then what was there.
  after : ℕ → ℕ
  after a =
      if a == slot
      then c.esp - 16
      else if a == c.esp - 16
      then c.edi
      else if a == c.esp - 12
      then c.esi
      else if a == c.esp - 8
      then c.ebx
      else if a == c.esp - 4
      then c.ebp
      else c.mem a

  switch_task-after :
      (a : ℕ) → ((switch_task c).mem a ≡ after a) × (swap_stacks (save_regs c)).esp ≡ sp
  unfolding switch_task after
  switch_task-after a =
      let d1 : sub32 c.esp 4 ≡ c.esp - 4 = omega (arith, call.room, call.top) in
      let d2 : sub32 (c.esp - 4) 4 ≡ c.esp - 8 = omega (arith, call.room, call.top) in
      let d3 : sub32 (c.esp - 8) 4 ≡ c.esp - 12 = omega (arith, call.room, call.top) in
      let d4 : sub32 (c.esp - 12) 4 ≡ c.esp - 16 = omega (arith, call.room, call.top) in
      let s1 : add32 (c.esp - 16) 20 ≡ c.esp + 4 = omega (arith, call.room, call.top) in
      let s2 : add32 (c.esp - 16) 24 ≡ c.esp + 8 = omega (arith, call.room, call.top) in
      rw (d1, d2, d3, d4, s1, s2)
        (
          ground (arith, call.room, call.arg_slot, call.apart),
          ground (arith, call.room, call.arg_slot, call.arg_sp, call.apart),
        )

  -- A call of `switch_task` with room on the stack and a slot off it stores in the slot the address
  -- of a frame that holds the caller's four registers and its return address.
  pub switch_task-saves :
      ((switch_task c).mem slot ≡ c.esp - 16)
      × Frame (switch_task c).mem (c.esp - 16) c.edi c.esi c.ebx c.ebp (c.mem c.esp)
  unfolding after
  switch_task-saves = (
    ground (arith, (switch_task-after slot).0),
    record {
      at_edi = ground (arith, (switch_task-after (c.esp - 16)).0, call.apart, call.room);
      at_esi = ground (arith, (switch_task-after (c.esp - 16 + 4)).0, call.apart, call.room);
      at_ebx = ground (arith, (switch_task-after (c.esp - 16 + 8)).0, call.apart, call.room);
      at_ebp = ground (arith, (switch_task-after (c.esp - 16 + 12)).0, call.apart, call.room);
      at_eip = ground (arith, (switch_task-after (c.esp - 16 + 16)).0, call.apart, call.room);
    },
  )

  -- A frame clear of the caller's stack and of the slot stays in memory.
  pub switch_task-keeps :
      {edi esi ebx ebp eip : ℕ} (at : ℕ)
      → Clear c slot at
      → Frame c.mem at edi esi ebx ebp eip
      → Frame (switch_task c).mem at edi esi ebx ebp eip
  unfolding after
  switch_task-keeps at k f = record {
    at_edi = ground (arith, f.at_edi, (switch_task-after at).0, k.stack, k.off_slot, call.room);
    at_esi =
        ground (arith, f.at_esi, (switch_task-after (at + 4)).0, k.stack, k.off_slot, call.room);
    at_ebx =
        ground (arith, f.at_ebx, (switch_task-after (at + 8)).0, k.stack, k.off_slot, call.room);
    at_ebp =
        ground (arith, f.at_ebp, (switch_task-after (at + 12)).0, k.stack, k.off_slot, call.room);
    at_eip =
        ground (arith, f.at_eip, (switch_task-after (at + 16)).0, k.stack, k.off_slot, call.room);
  }

  -- A call of `switch_task` that is given a frame's address loads the four registers of the frame,
  -- goes on at its return address and leaves the stack pointer just above the frame.
  pub switch_task-resumes :
      {edi esi ebx ebp eip : ℕ}
      → Clear c slot sp
      → Frame c.mem sp edi esi ebx ebp eip
      → ((switch_task c).edi ≡ edi)
        × ((switch_task c).esi ≡ esi)
        × ((switch_task c).ebx ≡ ebx)
        × ((switch_task c).ebp ≡ ebp)
        × ((switch_task c).eip ≡ eip)
        × ((switch_task c).esp ≡ sp + 20)
  unfolding switch_task
  switch_task-resumes k f =
      restored (swap_stacks (save_regs c)) k.small (switch_task-after 0).1
        (switch_task-keeps sp k f)

-- A task that calls `switch_task` and is later switched back to, its frame untouched meanwhile, has
-- its four registers again, goes on after its call and has the stack pointer of after the return.
pub switch_task_round_trip :
    (c c' : Cpu) (slot slot' sp : ℕ)
    → Call c slot sp
    → Call c' slot' (c.esp - 16)
    → Clear c' slot' (c.esp - 16)
    → ((a : ℕ) → c.esp - 16 ≤ a → a ≤ c.esp → c'.mem a ≡ (switch_task c).mem a)
    → ((switch_task c').edi ≡ c.edi)
      × ((switch_task c').esi ≡ c.esi)
      × ((switch_task c').ebx ≡ c.ebx)
      × ((switch_task c').ebp ≡ c.ebp)
      × ((switch_task c').eip ≡ c.mem c.esp)
      × ((switch_task c').esp ≡ c.esp + 4)
switch_task_round_trip c c' slot slot' sp call call' clear same =
    let f = (switch_task-saves c slot sp call).1 in
    let room = call.room in
    let keep : (k : ℕ) → k ≤ 16 → c'.mem (c.esp - 16 + k) ≡ (switch_task c).mem (c.esp - 16 + k) =
      λ k h. same (c.esp - 16 + k) (omega arith) (omega arith) in
    let r = switch_task-resumes c' slot' (c.esp - 16) call' clear (record {
      at_edi = same (c.esp - 16) (omega arith) (omega arith) ∙ f.at_edi;
      at_esi = keep 4 (omega arith) ∙ f.at_esi;
      at_ebx = keep 8 (omega arith) ∙ f.at_ebx;
      at_ebp = keep 12 (omega arith) ∙ f.at_ebp;
      at_eip = keep 16 (omega arith) ∙ f.at_eip;
    }) in
    (r.0, r.1, r.2, r.3, r.4, omega (arith, r.5))
