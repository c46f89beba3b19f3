-- ===== src/Devices/Bios.antt =====
-- src/src/classes/bios.class.h: `System::Bios`, the registers that are handed to a BIOS interrupt.
use shiro.Base.{ℕ, Bool, true, false, ◌≡◌, refl, if◌then◌else◌}

-- `regs16_t`.
pub record Regs16 : Type 0 where
  pub ah : ℕ
  pub bh : ℕ
  pub ch : ℕ
  pub dh : ℕ
  pub al : ℕ
  pub bl : ℕ
  pub cl : ℕ
  pub dl : ℕ
  pub di : ℕ
  pub si : ℕ
  pub bp : ℕ
  pub sp : ℕ
  pub bx : ℕ
  pub dx : ℕ
  pub cx : ℕ
  pub ax : ℕ
  pub gs : ℕ
  pub fs : ℕ
  pub es : ℕ
  pub ds : ℕ
  pub eflags : ℕ

-- `Bios::Clean`.
unfoldable pub clean : Regs16 → Regs16
clean regs = record regs {
  ah = 0;
  bh = 0;
  ch = 0;
  dh = 0;
  al = 0;
  bl = 0;
  cl = 0;
  dl = 0;
  di = 0;
  si = 0;
  bp = 0;
  sp = 0;
  bx = 0;
  dx = 0;
  cx = 0;
  ax = 0;
  gs = 0;
  fs = 0;
  es = 0;
  ds = 0;
  eflags = 0;
}

-- The registers, and whether interrupts are enabled.
pub record Bios : Type 0 where
  pub regs : Regs16
  pub interrupts : Bool

-- `int32` of the assembly, which stands for the firmware, is an argument.
module _ (int32 : ℕ → Bios → Bios) where
  -- `Bios::Send2Interrupt(intnum)`, between `cli` and `sti`.
  unfoldable pub send_2_interrupt : ℕ → Bios → Bios
  send_2_interrupt intnum b =
      let called = int32 intnum (record b { interrupts = false }) in
      record called { interrupts = true }

  -- `Bios::Send2Interrupt(intnum, clean_after)`.
  unfoldable pub send_2_interrupt_clean : ℕ → Bool → Bios → Bios
  send_2_interrupt_clean intnum clean_after b =
      let called = int32 intnum b in
      if clean_after then record called { regs = clean called.regs } else called

  -- After a call that cleans, nothing of what the firmware or an earlier call has left in the
  -- registers is seen by the next one.
  pub send_2_interrupt_clean-regs :
      (n m : ℕ) (b c : Bios)
      → (send_2_interrupt_clean n true b).regs ≡ (send_2_interrupt_clean m true c).regs
  unfolding send_2_interrupt_clean clean
  send_2_interrupt_clean-regs n m b c = refl
