-- ===== src/Boot/Masks.antt =====
-- The interrupt lines after `Shiro::Start` of src/src/classes/shiro.class.h.
use shiro.Devices.Pic
use shiro.Devices.Pic.{masked, read_back, remap, unmask, Writes, data_port, line, end_of_interrupt}
use shiro.Timer
use shiro.Boot.{
  start_ports, keyboard_start, shiro_start, BootStep, ports, enable_interrupts, load_gdt, load_idt,
  enable_paging, register_preempt,
}
use shiro.Base.{ℕ, ◌<◌, ◌≡◌, refl, Bool, true, false, not, ◌||◌, List, [], ◌∷◌, ◌++◌, ◌==◌, arith}
use shiro.Base.Table.{rows, rows-pass}

abbrev same : Bool → Bool → Bool
same true b = b
same false b = not b

same-eq : (a b : Bool) → same a b ≡ true → a ≡ b
same-eq true true h = refl
same-eq true false h = absurd (ground (arith, h))
same-eq false true h = absurd (ground (arith, h))
same-eq false false h = refl

abbrev mask_row : (ℕ → ℕ) → ℕ → Bool
mask_row inb irq =
    same (masked (read_back inb (start_ports inb)) irq) (not ((irq == 0) || (irq == 1)))

mask_table : (inb : ℕ → ℕ) → rows (mask_row inb) 16 ≡ true
unfolding rows start_ports keyboard_start Pic.start remap unmask Timer.start
mask_table inb = refl

-- The writes to ports among the steps, and whether interrupts are enabled before the last of them.
abbrev pub all_ports : List BootStep → Writes
all_ports [] = []
all_ports (ports ws ∷ steps) = ws ++ all_ports steps
all_ports (step ∷ steps) = all_ports steps

abbrev pub enables : List BootStep → Bool
enables [] = false
enables (enable_interrupts ∷ steps) = true
enables (step ∷ steps) = enables steps

-- The steps before interrupts are enabled.
abbrev prepared : (ℕ → ℕ) → List BootStep
prepared inb =
    let pic = Pic.start inb in
    let timer = Timer.start (read_back inb pic) in
    load_gdt
    ∷ ports pic
    ∷ load_idt
    ∷ enable_paging
    ∷ ports timer
    ∷ ports (keyboard_start (read_back (read_back inb pic) timer))
    ∷ register_preempt
    ∷ []

-- Whatever the ports read before: when `Shiro::Start` enables interrupts, which is the last thing it
-- does, every line is masked but the timer's and the keyboard's, if the mask registers read back what
-- was written to them.
pub shiro_start-masked :
    (inb : ℕ → ℕ) (irq : ℕ)
    → irq < 16
    → (steps : List BootStep) × (shiro_start inb ≡ steps ++ enable_interrupts ∷ [])
      × (enables steps ≡ false)
      × (masked (read_back inb (all_ports steps)) irq ≡ not ((irq == 0) || (irq == 1)))
unfolding shiro_start start_ports keyboard_start Pic.start remap unmask Timer.start
shiro_start-masked inb irq low = (
  prepared inb,
  refl,
  refl,
  same-eq _ _ (rows-pass (mask_row inb) {n = 16} irq low (mask_table inb)),
)
