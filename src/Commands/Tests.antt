-- ===== src/Commands/Tests.antt =====
-- Runs of the commands of src/src/classes/commands.class.h, and concrete inputs to the theorems.
use shiro.Commands.Lines.{build, add, hex_digits}
use shiro.Commands.Kernel.{
  cmd_help, cmd_tasks, cmd_uptime, cmd_date, cmd_ticks, cmd_cpuid, Cpuid, task_line,
}
use shiro.Commands.Memory.{cmd_mem, cmd_pmm, cmd_paging, cmd_peek, cmd_dumpmem}
use shiro.Commands.Files.{cmd_ls, cmd_cat, contents, bytes_at}
use shiro.Commands.Wrap.{unlines, cmd_cat-lines}
use shiro.Commands.Width.{Short, commands-Short}
use shiro.Commands.Readings.{Shows, cmd_dumpmem-Shows}
use shiro.BootInfo.Initrd.{Initrd, find, search_files, same_name, data_of}
use shiro.BootInfo.Multiboot.{reset}
use shiro.Text.Dispatch.{append_str}
use shiro.Text.Numbers.{int_to_str, collect}
use shiro.Scheduler.{Scheduler, task_ready}
use shiro.Heap.{Heap}
use shiro.Pmm.{reserved}
use shiro.Tags.{Words}
use shiro.Devices.Paging.{Mmu}
use shiro.Base.{
  ℕ, ◌-◌, ◌%◌, ◌≡◌, refl, true, false, List, [], ◌∷◌, get_or, some, leb, ◌==◌, if◌then◌else◌, codes,
  add32, arith,
}

-- A ramdisk of one file of 15 bytes with a name; its data is at 0x300030.
abbrev ramdisk : Initrd
ramdisk = record {
  base = 0x300000;
  length = 0x3F;
  file_count = 1;
  entries = 0x300008;
  ready = true;
}

abbrev words : Words
words a = if a == 0x300028 then 15 else if a == 0x30002C then 0x30 else 0

abbrev script : List ℕ
script = codes "# hi\n\nls\nmem x\n"

abbrev bytes : List ℕ → ℕ → ℕ
bytes name a =
    if leb 0x300030 a then get_or script (a - 0x300030) 0 else get_or name (a - 0x300008) 0

abbrev lines : List (List ℕ)
lines = codes "# hi" ∷ [] ∷ codes "ls" ∷ codes "mem x" ∷ []

-- A current task's row: the identifier stands where the second `>` and the blank would.
task_row :
    task_line 3 (record {
      esp = 0;
      stack_base = 0;
      stack_top = 0;
      sleep_until = 0;
      state = task_ready;
      id = 3;
      name = codes "clock";
      yields = 12;
    })
    ≡ codes ">>3 READY     clock              12"
unfolding task_line build add append_str int_to_str collect
task_row = refl

file_words : contents words (bytes (codes "a")) ramdisk 0x300008 ≡ unlines false lines
unfolding bytes_at data_of
file_words = refl

file_found : find (bytes (codes "a")) ramdisk (codes "a") ≡ some 0x300008
unfolding find search_files same_name
file_found = refl

file_data : data_of words ramdisk 0x300008 ≡ 0x300030
unfolding data_of
file_data = refl

cmd_cat-lines_example : cmd_cat words (bytes (codes "a")) ramdisk (codes "a") ≡ lines
cmd_cat-lines_example =
    cmd_cat-lines words (bytes (codes "a")) ramdisk 0x300008 false lines file_words refl (codes "a")
      (λ e. absurd (ground (arith, e))) refl file_found (λ e. absurd (omega (arith, e, file_data)))

abbrev no_tasks : Scheduler
no_tasks = record { tasks = []; current = 0; spawned_count = 0; ready = false; in_preempt = false }

abbrev no_heap : Heap
no_heap = record {
  first = 0;
  base = 0;
  end = 0;
  bytes_used = 0;
  bytes_free = 0;
  alloc_count = 0;
  free_count = 0;
  ready = false;
  mem = λ a. record { magic = 0; size = 0; used = 0; next = 0 };
}

abbrev mmu : Mmu
mmu = record { ready = true; cr0 = 0x80000011; cr3 = 0x110000; cr4 = 0x10 }

abbrev genuine : Cpuid
genuine = record { eax = 0x16; ebx = 0x756E6547; ecx = 0x6C65746E; edx = 0x49656E69 }

commands-Short_example :
    Short cmd_help
    × Short (cmd_tasks no_tasks)
    × Short (cmd_ls words (bytes (codes "a")) ramdisk)
    × Short (cmd_cat words (bytes (codes "a")) ramdisk (codes "a"))
    × Short (cmd_peek words (codes "a"))
    × Short (cmd_dumpmem (bytes (codes "a")) (codes "a"))
    × Short (cmd_mem no_heap reset)
    × Short (cmd_pmm reserved)
    × Short (cmd_paging mmu)
    × Short (cmd_uptime 4711)
    × Short (cmd_date 4711)
    × Short (cmd_ticks 4711)
    × Short (cmd_cpuid genuine genuine)
commands-Short_example =
    commands-Short words (bytes (codes "a")) ramdisk no_tasks no_heap reset reserved mmu genuine
      genuine 4711 (codes "a")

cmd_dumpmem-Shows_example :
    (l0 : List ℕ) × (l1 : List ℕ) × (l2 : List ℕ) × (l3 : List ℕ) × (cmd_dumpmem
        (λ a. a % 256)
        (hex_digits 0x123)
      ≡ l0 ∷ l1 ∷ l2 ∷ l3 ∷ [])
    × Shows (λ a. a % 256) (add32 (0x123 - 0x123 % 16) 0) l0
    × Shows (λ a. a % 256) (add32 (0x123 - 0x123 % 16) 16) l1
    × Shows (λ a. a % 256) (add32 (0x123 - 0x123 % 16) 32) l2
    × Shows (λ a. a % 256) (add32 (0x123 - 0x123 % 16) 48) l3
cmd_dumpmem-Shows_example = cmd_dumpmem-Shows (λ a. a % 256) 0x123 (λ i. omega arith) (omega arith)
