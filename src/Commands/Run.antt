-- ===== src/Commands/Run.antt =====
-- `Table` and `Dispatch` of src/src/classes/commands.class.h with what each command does: the lines
-- that it prints, the terminal that it clears, or the end of the system.
use shiro.Commands.Kernel.{
  cmd_help, cmd_ver, cmd_tasks, cmd_uptime, cmd_date, cmd_ticks, cmd_echo, cmd_cpuid, Cpuid,
}
use shiro.Commands.Memory.{cmd_mem, cmd_pmm, cmd_paging, cmd_peek, cmd_dumpmem}
use shiro.Commands.Files.{cmd_ls, cmd_cat}
use shiro.BootInfo.Initrd.{Initrd}
use shiro.BootInfo.Multiboot.{Multiboot}
use shiro.Devices.Pic.{Writes}
use shiro.Text.Dispatch.{nothing, run, print, command_table, same_str, dispatch}
use shiro.Scheduler.{Scheduler}
use shiro.Heap.{Heap}
use shiro.Pmm.{Pmm}
use shiro.Screen.{clear_terminal}
use shiro.Shell.{Shell, on_current, write_content}
use shiro.Tags.{Words}
use shiro.Devices.Paging.{Mmu}
use shiro.Base.{
  ℕ, zero, suc, ◌/◌, ◌%◌, List, [], ◌∷◌, Option, none, some, ◌==◌, if◌then◌else◌, codes,
}

-- What the commands read, and the date and time that the compiler has put in.
pub record World : Type 0 where
  pub words : Words
  pub bytes : ℕ → ℕ
  pub initrd : Initrd
  pub scheduler : Scheduler
  pub heap : Heap
  pub multiboot : Multiboot
  pub pmm : Pmm
  pub mmu : Mmu
  pub leaf0 : Cpuid
  pub leaf1 : Cpuid
  pub ticks : ℕ
  pub build_date : List ℕ
  pub build_time : List ℕ

-- How a command ends that does not return: `hlt` for ever, a reset, or a breakpoint, vector 3.
pub data Ending : Type 0 where
  halted : Ending
  restarted : Ending
  breakpoint : Ending

pub data Effect : Type 0 where
  prints : List (List ℕ) → Effect
  clears : Effect
  stops : List ℕ → Ending → Effect

abbrev halt_text : List ℕ
halt_text = codes "Halting CPU. Reset the machine to continue."

abbrev reboot_text : List ℕ
reboot_text = codes "Rebooting..."

abbrev panic_text : List ℕ
panic_text = codes "Triggering test panic via INT3 (breakpoint)..."

-- The functions of `Table`, in its order, on their arguments.
unfoldable pub effects : World → List ℕ → List Effect
effects w args =
    prints cmd_help
    ∷ prints (cmd_ver w.build_date w.build_time)
    ∷ prints (cmd_mem w.heap w.multiboot)
    ∷ prints (cmd_pmm w.pmm)
    ∷ prints (cmd_paging w.mmu)
    ∷ prints (cmd_tasks w.scheduler)
    ∷ prints (cmd_ls w.words w.bytes w.initrd)
    ∷ prints (cmd_cat w.words w.bytes w.initrd args)
    ∷ prints (cmd_peek w.words args)
    ∷ prints (cmd_dumpmem w.bytes args)
    ∷ prints (cmd_uptime w.ticks)
    ∷ prints (cmd_ticks w.ticks)
    ∷ prints (cmd_date w.ticks)
    ∷ clears
    ∷ prints (cmd_echo args)
    ∷ prints (cmd_cpuid w.leaf0 w.leaf1)
    ∷ stops halt_text halted
    ∷ stops reboot_text restarted
    ∷ stops panic_text breakpoint
    ∷ []

-- The function of the first entry that has the name.
unfoldable pub effect_of : List (List ℕ) → List Effect → List ℕ → Effect
effect_of (n ∷ names) (e ∷ es) name =
    let rest = effect_of names es name in if same_str name n then e else rest
effect_of [] es name = prints []
effect_of (n ∷ names) [] name = prints []

-- What a line does.
unfoldable pub effect : World → List ℕ → Effect
effect w line = elim (dispatch line) [
  | nothing ↦ prints []
  | run name args ↦ effect_of command_table (effects w args) name
  | print l ↦ prints (l ∷ [])
]

-- `Commands::Print`, one line after the other.
unfoldable pub print_all : List (List ℕ) → Shell → Shell
print_all [] s = s
print_all (l ∷ ls) s = print_all ls (write_content l s)

-- The effect on the shell. A command that stops the system has printed its line before.
unfoldable pub apply : Effect → Shell → Shell
apply (prints ls) s = print_all ls s
apply clears s = on_current clear_terminal s
apply (stops l e) s = print_all (l ∷ []) s

-- `Commands::Dispatch`.
unfoldable pub dispatch_on : World → List ℕ → Shell → Shell
dispatch_on w line s = apply (effect w line) s

-- The loop of `cmd_reboot` that waits for the keyboard controller, with what port 0x64 reads at the
-- `n`-th time, and the write that resets.
unfoldable pub reboot : ℕ → (ℕ → ℕ) → ℕ → Option Writes
reboot zero inb n = none
reboot (suc fuel) inb n =
    let rest = reboot fuel inb (suc n) in
    if inb n / 2 % 2 == 1 then rest else some ((0x64, 0xFE) ∷ [])
