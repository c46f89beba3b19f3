-- ===== src/Boot.antt =====
-- `shiro_main` of src/src/kernel.cpp and `Shiro::Start` of src/src/classes/shiro.class.h: the order in
-- which the parts are started.
pub mod Regions
pub mod Masks
pub mod Tasks
mod Tests
use shiro.Heap
use shiro.Heap.{Heap, Memory, alloc}
use shiro.Pmm
use shiro.Pmm.{Pmm}
use shiro.BootInfo.Modules.{scan_modules}
use shiro.BootInfo.Initrd
use shiro.BootInfo.Initrd.{Initrd}
use shiro.BootInfo.Multiboot
use shiro.BootInfo.Multiboot.{Multiboot}
use shiro.Devices.Pic
use shiro.Devices.Pic.{Writes, unmask, read_back}
use shiro.Timer
use shiro.Tags.{Words}
use shiro.Base.{ℕ, List, [], ◌∷◌, ◌++◌, Option, none, some, ◌>>=◌, ◌==◌, if◌then◌else◌}

-- What the boot information is turned into.
pub record Booted : Type 0 where
  pub heap : Heap
  pub pmm : Pmm
  pub initrd : Initrd
  pub multiboot : Multiboot

-- `GetInstance` of a class whose objects have `size` bytes. The outer `none` is the allocator's.
unfoldable pub get_instance : ℕ → ℕ → Heap → Option (ℕ × Heap)
get_instance size instance h = if instance == 0 then alloc h size else some (instance, h)

-- Steps 1a to 3 of `shiro_main`, up to `Multiboot::Start`, with the first `GetInstance` of `Shiro`. The
-- words are the memory that the loader has left, which the heap does not overlap. `none`: a walk of the
-- tags or of the heap ran out of its rounds, or a memory map has entries of size 0.
unfoldable pub boot : ℕ → Words → Memory → ℕ → ℕ → ℕ → ℕ → ℕ → Option Booted
unfolding get_instance
boot fuel w m kernel_start kernel_end shiro_bytes magic mbi = do
  initrd_end ← scan_modules fuel w mbi
  let heap = Heap.start m kernel_end initrd_end
  pmm ← Pmm.start fuel w mbi kernel_start heap.end
  initrd ← Initrd.start fuel w mbi
  shiro_object ← get_instance shiro_bytes 0 heap
  multiboot ← Multiboot.start fuel w magic mbi
  some (record { heap = shiro_object.1; pmm = pmm; initrd = initrd; multiboot = multiboot })

-- `Keyboard::Start`.
unfoldable pub keyboard_start : (ℕ → ℕ) → Writes
keyboard_start inb = unmask inb 1

-- The port writes of `Shiro::Start`, from what the ports read before: PIC, timer, keyboard.
unfoldable pub start_ports : (ℕ → ℕ) → Writes
start_ports inb =
    let pic = Pic.start inb in
    let timer = Timer.start (read_back inb pic) in
    let keyboard = keyboard_start (read_back (read_back inb pic) timer) in
    pic ++ (timer ++ keyboard)

-- What `Shiro::Start` does, in order.
pub data BootStep : Type 0 where
  load_gdt : BootStep
  ports : Writes → BootStep
  load_idt : BootStep
  enable_paging : BootStep
  register_preempt : BootStep
  enable_interrupts : BootStep

unfoldable pub shiro_start : (ℕ → ℕ) → List BootStep
shiro_start inb =
    let pic = Pic.start inb in
    let timer = Timer.start (read_back inb pic) in
    load_gdt
    ∷ ports pic
    ∷ load_idt
    ∷ enable_paging
    ∷ ports timer
    ∷ ports (keyboard_start (read_back (read_back inb pic) timer))
    ∷ register_preempt
    ∷ enable_interrupts
    ∷ []
