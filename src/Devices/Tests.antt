-- ===== src/Devices/Tests.antt =====
-- Concrete inputs to the theorems on the drivers and tables of src/src/classes.
use shiro.Base.{
  ℕ, ◌+◌, ◌*◌, ◌/◌, ◌%◌, ◌^◌, ◌≡◌, refl, ◌≢◌, true, false, some, replicate, get_or, arith, inr,
}
use shiro.Devices.Gdt
use shiro.Devices.Gdt.{null_entry, base_of, limit_of, flags_of, set_gate-decodes}
use shiro.Devices.Paging
use shiro.Devices.Paging.{Mmu, directory, physical, is_enabled, start-physical}

abbrev all_masked : ℕ → ℕ
all_masked p = 0xFF

set_gate-decodes_example :
    let entries = replicate 5 null_entry in
    let entries' = Gdt.set_gate entries 1 0x12345678 0xFFFFFFFF 0x9A 0xCF in
    let e = get_or entries' 1 null_entry in
    (base_of e ≡ 0x12345678)
    × (limit_of e ≡ 0xFFFFF)
    × (e.access ≡ 0x9A)
    × (flags_of e ≡ 0xC)
    × ((other : ℕ) → 1 ≢ other → get_or entries' other null_entry ≡ get_or entries other null_entry)
set_gate-decodes_example =
    set_gate-decodes (replicate 5 null_entry) 1 0x12345678 0xFFFFFFFF 0x9A 0xCF (omega arith)
      (omega arith) (omega arith)

abbrev stub : ℕ → ℕ
stub v = 0x100000 + v * 16

-- The registers that GRUB leaves; the directory is at 0x110000.
abbrev grub : Mmu
grub = record { ready = false; cr0 = 0x11; cr3 = 0; cr4 = 0x200 }

abbrev no_words : ℕ → ℕ
no_words a = 7

start-physical_example :
    let (v, w) = Paging.start 0x110000 (grub, no_words) in
    (physical v w 0xC0123456 ≡ some 0xC0123456)
    × (is_enabled v ≡ true)
    × (v.cr0 % 2 ^ 31 ≡ 0x11)
    × (v.cr4 % 2 ^ 4 ≡ 0)
    × (v.cr4 / 2 ^ 5 ≡ 0x10)
    × (w 0x111000 ≡ 7)
start-physical_example =
    start-physical grub 0x110000 0xC0123456 0x111000 no_words (omega arith) (omega arith) refl
      (inr (omega arith))
