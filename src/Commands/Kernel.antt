-- ===== src/Commands/Kernel.antt =====
-- The commands of src/src/classes/commands.class.h on the kernel itself: help, ver, tasks, uptime,
-- ticks, date, echo and cpuid.
use shiro.Text.Box.{box_top, box_line, box_bottom}
use shiro.Text.Dispatch.{command_table}
use shiro.Commands.Lines.{str, dec, hex, pad, back, build, line}
use shiro.CString.{c_string}
use shiro.Timer.{tick_hz}
use shiro.Scheduler.{
  Scheduler, Task, TaskState, task_unused, task_ready, task_sleeping, task_done, task_at, is_unused,
}
use shiro.Base.{ℕ, ◌-◌, ◌/◌, ◌%◌, ◌^◌, List, [], ◌∷◌, ◌++◌, ◌==◌, if◌then◌else◌, codes}

-- The descriptions of `Table`, in order.
abbrev pub descriptions : List (List ℕ)
descriptions =
    codes "List all commands"
    ∷ codes "Kernel version & build info"
    ∷ codes "Kernel heap stats"
    ∷ codes "Physical memory bitmap stats"
    ∷ codes "MMU / page directory state"
    ∷ codes "List kernel tasks (scheduler)"
    ∷ codes "List files in the initrd ramdisk"
    ∷ codes "Print a file from the ramdisk"
    ∷ codes "Read a 32-bit value: peek <hex-addr>"
    ∷ codes "Hexdump 64 bytes: dumpmem <hex-addr>"
    ∷ codes "Time since boot"
    ∷ codes "Raw timer tick count"
    ∷ codes "Approximate timestamp (uptime-based)"
    ∷ codes "Clear current terminal"
    ∷ codes "Print arguments"
    ∷ codes "CPU vendor & feature flags"
    ∷ codes "Halt the CPU forever"
    ∷ codes "Reboot via triple-fault"
    ∷ codes "Trigger an intentional kernel panic"
    ∷ []

-- The loop of `cmd_help` over the rows of the table.
unfoldable pub help_lines : List (List ℕ) → List (List ℕ) → List (List ℕ)
help_lines (name ∷ names) (desc ∷ descs) =
    line (str (codes "  ") ∷ str name ∷ pad 12 ∷ str (codes "- ") ∷ str desc ∷ [])
    ∷ help_lines names descs
help_lines names descs = []

-- `cmd_help`.
unfoldable pub cmd_help : List (List ℕ)
cmd_help = codes "Available commands:" ∷ help_lines command_table descriptions

-- `cmd_ver`. The compiler puts in the date and the time of the build.
unfoldable pub cmd_ver : List ℕ → List ℕ → List (List ℕ)
cmd_ver date time =
    codes "Shiro - Operating System"
    ∷ codes "  Version: 0.5 (development)"
    ∷ codes "  Compiler: i686-elf-g++ 13.2.0"
    ∷ codes "  Boot:     Multiboot2 / GRUB"
    ∷ (codes "  Build:    " ++ date ++ codes " " ++ time)
    ∷ []

abbrev pub state_text : TaskState → List ℕ
state_text task_ready = codes "READY   "
state_text task_sleeping = codes "SLEEPING"
state_text task_done = codes "DONE    "
state_text task_unused = codes "?"

-- `Scheduler::CurrentId` as an unsigned number, and `Scheduler::CurrentName`.
abbrev pub current_id : Scheduler → ℕ
current_id s = if s.ready then (task_at s s.current).id else 2 ^ 32 - 1

abbrev pub current_name : Scheduler → List ℕ
current_name s = if s.ready then (task_at s s.current).name else codes "?"

-- The row of a task that is in use.
unfoldable pub task_line : ℕ → Task → List ℕ
task_line current t = line (
    str (if t.id == current then codes ">> " else codes "   ")
    ∷ back
    ∷ dec t.id
    ∷ pad 4
    ∷ str (state_text t.state)
    ∷ str (codes "  ")
    ∷ str t.name
    ∷ pad 33
    ∷ dec t.yields
    ∷ [])

-- The loop of `cmd_tasks`.
unfoldable pub task_lines : ℕ → List Task → List (List ℕ)
task_lines current [] = []
task_lines current (t ∷ ts) =
    let rest = task_lines current ts in
    if is_unused t.state then rest else box_line (task_line current t) ∷ rest

-- `cmd_tasks`.
unfoldable pub cmd_tasks : Scheduler → List (List ℕ)
cmd_tasks s =
    box_top (codes "Kernel Scheduler (preemptive @ 50ms)")
    ∷ box_line (codes "id  state     name             yields")
    ∷ (task_lines (current_id s) s.tasks
        ++ box_line (line (str (codes "running: ") ∷ str (current_name s) ∷ [])) ∷ box_bottom ∷ [])

-- `cmd_uptime`, and `cmd_date`, which calls it.
unfoldable pub cmd_uptime : ℕ → List (List ℕ)
cmd_uptime ticks =
    let total_s = ticks / tick_hz in
    line (
      str (codes "uptime: ")
      ∷ dec (total_s / 3600)
      ∷ str (codes "h ")
      ∷ dec (total_s % 3600 / 60)
      ∷ str (codes "m ")
      ∷ dec (total_s % 60)
      ∷ str (codes "s  (")
      ∷ dec ticks
      ∷ str (codes " ticks @ ")
      ∷ dec tick_hz
      ∷ str (codes " Hz)")
      ∷ [])
    ∷ []

unfoldable pub cmd_date : ℕ → List (List ℕ)
cmd_date ticks = cmd_uptime ticks

-- `cmd_ticks`: its buffer has 64 bytes.
unfoldable pub cmd_ticks : ℕ → List (List ℕ)
cmd_ticks ticks = build 64 (str (codes "ticks = ") ∷ dec ticks ∷ []) [] ∷ []

-- `cmd_echo`.
unfoldable pub cmd_echo : List ℕ → List (List ℕ)
cmd_echo args = args ∷ []

-- The registers after `cpuid`.
pub record Cpuid : Type 0 where
  pub eax : ℕ
  pub ebx : ℕ
  pub ecx : ℕ
  pub edx : ℕ

-- The bytes of a register in memory.
abbrev pub bytes32 : ℕ → List ℕ
bytes32 v = v % 256 ∷ v / 2 ^ 8 % 256 ∷ v / 2 ^ 16 % 256 ∷ v / 2 ^ 24 % 256 ∷ []

-- `cmd_cpuid`, with what the instruction answers for leaf 0 and leaf 1.
unfoldable pub cmd_cpuid : Cpuid → Cpuid → List (List ℕ)
cmd_cpuid zeroth first =
    let vendor = c_string (bytes32 zeroth.ebx ++ bytes32 zeroth.edx ++ bytes32 zeroth.ecx) in
    line (str (codes "vendor: ") ∷ str vendor ∷ [])
    ∷ line (
        str (codes "family/model = ")
        ∷ dec (first.eax / 2 ^ 8 % 16)
        ∷ str (codes "/")
        ∷ dec (first.eax / 2 ^ 4 % 16)
        ∷ str (codes "  stepping = ")
        ∷ dec (first.eax % 16)
        ∷ [])
    ∷ line (str (codes "features (EDX) = ") ∷ hex first.edx ∷ [])
    ∷ line (
        str (codes "  fpu=")
        ∷ dec (first.edx % 2)
        ∷ str (codes " pse=")
        ∷ dec (first.edx / 2 ^ 3 % 2)
        ∷ str (codes " tsc=")
        ∷ dec (first.edx / 2 ^ 4 % 2)
        ∷ str (codes " msr=")
        ∷ dec (first.edx / 2 ^ 5 % 2)
        ∷ str (codes " pae=")
        ∷ dec (first.edx / 2 ^ 6 % 2)
        ∷ str (codes " apic=")
        ∷ dec (first.edx / 2 ^ 9 % 2)
        ∷ str (codes " sse=")
        ∷ dec (first.edx / 2 ^ 25 % 2)
        ∷ [])
    ∷ []
