-- ===== src/Devices/Pic.antt =====
-- src/src/classes/pic.class.h: `System::PIC`, the two interrupt controllers.
use Prim.Native.Nat.{bit_and, bit_or}
use shiro.Base.{
  ℕ, ◌-◌, ◌^◌, ◌<◌, ◌≡◌, Bool, not, ◌&&◌, ◌||◌, List, [], ◌∷◌, ◌++◌, ltb, leb, ◌==◌, if◌then◌else◌,
  arith,
}
use shiro.Base.Bytes.{bit, or-bit, clear-bit}

abbrev pub Writes : Type 0
Writes = List (ℕ × ℕ)

abbrev pub pic1_cmd : ℕ
pic1_cmd = 0x20

abbrev pub pic1_data : ℕ
pic1_data = 0x21

abbrev pub pic2_cmd : ℕ
pic2_cmd = 0xA0

abbrev pub pic2_data : ℕ
pic2_data = 0xA1

abbrev pub pic_eoi : ℕ
pic_eoi = 0x20

-- `PIC::Remap`. ICW1 is 0x11, ICW4 is 0x01.
unfoldable pub remap : (ℕ → ℕ) → ℕ → ℕ → Writes
remap inb master_offset slave_offset =
    (pic1_cmd, 0x11)
    ∷ (pic2_cmd, 0x11)
    ∷ (pic1_data, master_offset)
    ∷ (pic2_data, slave_offset)
    ∷ (pic1_data, 0x04)
    ∷ (pic2_data, 0x02)
    ∷ (pic1_data, 0x01)
    ∷ (pic2_data, 0x01)
    ∷ (pic1_data, inb pic1_data)
    ∷ (pic2_data, inb pic2_data)
    ∷ []

-- `PIC::Start`.
unfoldable pub start : (ℕ → ℕ) → Writes
start inb = remap inb 0x20 0x28 ++ (pic1_data, 0xFF) ∷ (pic2_data, 0xFF) ∷ []

-- The port of the chip that has the line, and the line's number there.
abbrev pub data_port : ℕ → ℕ
data_port irq = if ltb irq 8 then pic1_data else pic2_data

abbrev pub line : ℕ → ℕ
line irq = if ltb irq 8 then irq else irq - 8

-- `PIC::Unmask` and `PIC::Mask`. `~(1 << bit)` on a byte is 255 less the bit.
unfoldable pub unmask : (ℕ → ℕ) → ℕ → Writes
unmask inb irq = (data_port irq, bit_and (inb (data_port irq)) (255 - 2 ^ line irq)) ∷ []

unfoldable pub mask : (ℕ → ℕ) → ℕ → Writes
mask inb irq = (data_port irq, bit_or (inb (data_port irq)) (2 ^ line irq)) ∷ []

-- `PIC::EndOfInterrupt`.
unfoldable pub end_of_interrupt : ℕ → Writes
end_of_interrupt irq =
    if leb 8 irq then (pic2_cmd, pic_eoi) ∷ (pic1_cmd, pic_eoi) ∷ [] else (pic1_cmd, pic_eoi) ∷ []

-- Whether a line is masked, by the mask that a read of its chip's port gives.
abbrev pub masked : (ℕ → ℕ) → ℕ → Bool
masked inb irq = bit (inb (data_port irq)) (line irq)

-- The ports after a write to the mask registers: a data port reads back what was written to it.
abbrev pub read_back : (ℕ → ℕ) → Writes → ℕ → ℕ
read_back inb [] p = inb p
read_back inb (w ∷ ws) p = read_back (λ q. if q == w.0 then w.1 else inb q) ws p

module _ (inb : ℕ → ℕ) (bytes : (p : ℕ) → inb p < 256) (irq other : ℕ) (low : irq < 16)
    (low' : other < 16) where
  -- `Unmask` clears the mask of its line, and no other of the sixteen lines changes.
  pub unmask-masked :
      masked (read_back inb (unmask inb irq)) other ≡ (not (other == irq) && masked inb other)
  unfolding unmask
  unmask-masked =
      ground
        (arith, clear-bit (inb (data_port irq)) (line irq) (line other) (bytes (data_port irq)))

  -- `Mask` sets the mask of its line, and no other of the sixteen lines changes.
  pub mask-masked :
      masked (read_back inb (mask inb irq)) other ≡ ((other == irq) || masked inb other)
  unfolding mask
  mask-masked =
      ground (arith, or-bit (inb (data_port irq)) (line irq) (line other) (bytes (data_port irq)))
