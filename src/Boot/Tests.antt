-- ===== src/Boot/Tests.antt =====
-- A boot, for the theorems on src/src/kernel.cpp and src/src/classes/shiro.class.h.
use shiro.Heap
use shiro.Heap.{Heap, Memory, heap_size, round}
use shiro.Heap.Fill.{filled}
use shiro.Scheduler
use shiro.Scheduler.{Scheduler, System, blank_task, stack_size}
use shiro.Scheduler.Stacks.{Stacked}
use shiro.Timer.{Timer}
use shiro.Preempt.Switch.{IsSound}
use shiro.Boot.Tasks.{Functions, get_instances, spawn_tasks, slots, idle, spawn_tasks-Stacked}
use shiro.Pmm.{is_used, max_pages, page_size}
use shiro.BootInfo.Initrd.{first_initrd, loaded, no_initrd}
use shiro.BootInfo.Modules.{EndBefore, IsEnd}
use shiro.BootInfo.Multiboot.{bootloader_magic}
use shiro.BootInfo.Totals.{available}
use shiro.Devices.Pic.{masked, read_back}
use shiro.Boot.{Booted, boot, shiro_start, BootStep, enable_interrupts}
use shiro.Boot.Regions.{ModulesUsed, boot-Regions}
use shiro.Boot.Masks.{enables, all_ports, shiro_start-masked}
use shiro.Tags.{Words}
use shiro.Base.{
  ℕ, ◌+◌, ◌*◌, ◌^◌, ◌<◌, ◌≤◌, ◌≡◌, ◌⊎◌, inl, inr, refl, true, false, not, ◌||◌, List, [], ◌∷◌, ◌++◌,
  none, some, ◌==◌, if◌then◌else◌, arith, replicate,
}

-- A module from 0x300000 to 0x301000 with a ramdisk, a memory map of 2 MiB, and the end.
abbrev info : Words
info a =
    if a == 0x1008
    then 3
    else if a == 0x100C
    then 20
    else if a == 0x1010
    then 0x300000
    else if a == 0x1014
    then 0x301000
    else if a == 0x1020
    then 6
    else if a == 0x1024
    then 40
    else if a == 0x1028
    then 24
    else if a == 0x1038
    then 0x200000
    else if a == 0x1040
    then 1
    else if a == 0x300000
    then 0x53484952
    else 0

abbrev tags : List ℕ
tags = 0x1008 ∷ 0x1020 ∷ []

abbrev no_memory : Memory
no_memory x = record { magic = 0; size = 0; used = 0; next = 0 }

low : (r : ℕ) → (r ≡ 0) ⊎ IsEnd info tags r → r + 0x1000 + heap_size < 2 ^ 32
low r (inl z) = omega (arith, z)
low r (inr (inl (y, e))) = omega (arith, e)
low r (inr (inr (inl (y, e)))) = omega (arith, e)
low r (inr (inr (inr x))) = elim x [ ]

boot-Regions_example :
    (b : Booted) × (boot 5 info no_memory 0x100000 0x200000 40 bootloader_magic 0x1000 ≡ some b)
    × (0x200000 ≤ b.heap.base)
    × EndBefore info tags b.heap.base
    × ((q : ℕ)
        → q < max_pages
        → 0x100000 < (q + 1) * page_size
        → q * page_size < b.heap.end
        → is_used b.pmm.bitmap q ≡ true)
    × ModulesUsed info tags 0x100000 b.pmm
    × (b.initrd ≡ elim (first_initrd info tags) [ none ↦ no_initrd | some t ↦ loaded info t ])
    × (b.multiboot.mmap_total_available ≡ available info tags)
boot-Regions_example =
    boot-Regions 5 info no_memory 0x100000 0x200000 40 0x1000 tags (omega arith)
      (refl, omega arith, (refl, omega arith, refl)) (omega arith)
      ((λ e. absurd (omega (arith, e))), ((λ e. (omega arith, (omega arith, tt))), tt))
      ((λ e. absurd (omega (arith, e))), ((λ e. omega arith), tt)) (omega arith) (omega arith)
      (omega arith) (omega arith) (omega arith) low

shiro_start-masked_example :
    (steps : List BootStep) × (shiro_start (λ p. 0) ≡ steps ++ enable_interrupts ∷ [])
    × (enables steps ≡ false)
    × (masked (read_back (λ p. 0) (all_ports steps)) 1 ≡ not ((1 == 0) || (1 == 1)))
shiro_start-masked_example = shiro_start-masked (λ p. 0) 1 (omega arith)

abbrev functions : Functions
functions = record {
  spinner = 0x101000;
  heartbeat = 0x102000;
  clock = 0x103000;
  statusbar = 0x104000;
}

-- The static members before `Scheduler::Start`.
abbrev no_tasks : Scheduler
no_tasks = record {
  tasks = replicate 8 blank_task;
  current = 0;
  spawned_count = 0;
  ready = false;
  in_preempt = false;
}

-- Objects of 40 bytes and of 24 KiB.
spawn_tasks-Stacked_example :
    (g : Heap) × (get_instances 40 0x6000 (Heap.start no_memory 0x200000 0x301000) ≡ some g)
    × (y : System) × (spawn_tasks functions
          (record { scheduler = Scheduler.start no_tasks; heap = g; mem = λ a. 7 })
        ≡ some y)
    × Stacked
        (filled (round 40 ∷ round 0x6000 ∷ stack_size ∷ stack_size ∷ stack_size ∷ stack_size ∷ []))
        y
        (slots functions)
    × ((t : Timer) → IsSound (idle y.scheduler t))
spawn_tasks-Stacked_example =
    spawn_tasks-Stacked functions no_tasks no_memory (λ a. 7) 0x200000 0x301000 40 0x6000
      (omega arith) (omega arith) (omega arith) (omega arith) (omega arith) refl
