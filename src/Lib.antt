-- ===== src/Lib.antt =====
-- Verification of the kernel of shiro (src/src/classes, src/src/libs, src/src/kernel.cpp and
-- src/src/boot/asm/switch.asm).
--
-- The kernel boots from GRUB: `shiro_main` of src/src/kernel.cpp scans the boot information for
-- modules, starts the heap behind them, hands the memory map to the page allocator, loads the ramdisk,
-- then sets up the descriptor tables, the interrupt controllers, paging, the drivers, the scheduler and
-- the shell. Interrupts go through `ISR::Handler` to the timer, which may switch tasks, and to the
-- keyboard, whose line the shell hands to the command dispatcher.
--
-- The files, and the code that each is about:
--   Base.antt and its children: lists, Boolean tests, 32-bit words, and laws of the bits of a byte. A
--     `uint32_t` is a natural number below 2^32; `add32`, `sub32` and `mul32` write the wrap out.
--   Heap.antt (src/src/classes/heap.class.h): `Start`, `Round`, `Alloc`, `Free`. A header is read and
--     written at its address in an explicit memory; the statics of the class are the record `Heap`. The
--     children relate the linked headers to a list of blocks: Blocks (the list and what the operations
--     mean on it), Seg (headers linked in memory), Carve, Replace (writes to a chain), Valid (the
--     invariant), Alloc, Merge, Free, Coalesce (the two operations), Payloads, Contract (the client's
--     view), InUse and Fill (payloads that stay, a heap that fills up).
--   Tags.antt (src/src/libs/multiboot2.h): the chain of boot tags and the loop that walks it. The loop
--     runs on fuel; `walk-run_tags` shows that more rounds than tags treat each tag once.
--   Pmm.antt (src/src/classes/pmm.class.h): the page bitmap, `Start`, `AllocPage`, `FreePage`. Children:
--     Bitmap (one bit), Ranges (the marking of ranges), Boot (`Start`), Pages (the scan), Alloc (the
--     operations).
--   BootInfo.antt: Modules (the scan of src/src/kernel.cpp), Initrd and Files
--     (src/src/classes/initrd.class.h), Multiboot and Totals (src/src/classes/multiboot.class.h).
--   Keyboard.antt (src/src/classes/keyboard.class.h): `Handler` and the line buffer. Children: Layout
--     (the tables), Typing (the line). CString.antt has `concat` (src/src/libs/common.h) and `strcpy`
--     (src/src/libs/string.h); a write past the end of an array is `none`. Its child Memory has the other
--     functions of src/src/libs/string.h and src/src/libs/stdlib.h on a memory of bytes, Laws and Compare
--     what they do.
--   Scheduler.antt (src/src/classes/scheduler.class.h): `Start`, `Spawn`, `PickNext`, `Yield`,
--     `PreemptiveYield`, `Sleep`. A yield returns the slots that it switches from and to. Children: Pick,
--     Turns, Sleeping, Yields, Spawn, Owners and Stacks (whose memory the stacks are). Timer.antt is
--     src/src/classes/timer.class.h; its child Sleep shows that the busy wait ends.
--   Preempt.antt (`Handler` of src/src/classes/isr.class.h and src/src/classes/timer.class.h,
--     `PreemptiveYield`, `Yield` and `Sleep` of src/src/classes/scheduler.class.h,
--     src/src/boot/asm/isr.asm, `loop` of src/src/kernel.cpp): the timer's interrupt, the calls of the
--     tasks and `hlt` as steps of one processor. Children: Switch and Flow (the invariant), Recovery (the
--     kernel's task, preempted, runs again), Hang (a preemption that returns to the kernel's task).
--   Switch.antt (src/src/boot/asm/switch.asm): `switch_task` on registers and a memory of words; its
--     child Frame has the frame of a suspended task.
--   Devices.antt: Pic, Gdt, Idt, Paging, Vga (with the cursor), Isr and Bios, each of the class of
--     that name in src/src/classes. A driver's port writes are a list, in order; what a port reads is an argument.
--   Text.antt (src/src/classes/commands.class.h): Box (`BoxTop`, `BoxLine`, `BoxBottom`), Numbers
--     (`IntToStr`, `HexToStr`, `ParseHex`), Dispatch (`Table`, `Dispatch`).
--   Commands.antt (src/src/classes/commands.class.h): the lines that the commands print, as functions of
--     the state that they read. Lines has the line buffers (one `Piece` for each `AppendStr`, `IntToStr`,
--     `HexToStr` or loop of blanks), Kernel, Memory and Files the commands, with the run of `init.sh` in
--     src/src/kernel.cpp; Wrap is about cutting a file into lines, Width about the width of all lines,
--     Readings about what uptime, peek and dumpmem show. Run puts them behind `Table` and `Dispatch`.
--   Screen.antt (src/src/classes/shell.class.h): the content rows of the current terminal,
--     `ClearTerminal`, `Scroll`, `WriteC`, `WriteCEcho`; its children say where the cells go: Scroll for one
--     line, Lines for several.
--   Shell.antt (src/src/classes/shell.class.h): the header, the status bar, the prompt, the terminals and
--     the screen. Its children Bars, Setup (`Start`, `Finish`) and Editor (`Update`) have the rest of the
--     class; what the dispatcher does to the shell is an argument of `Update`. The theorems are in View
--     (`UpdateScreen`), Rows and Tabs (the three bars), Prompt and Edits (`Update`) and Steps (keys and rounds of the
--     shell in any order).
--   Console.antt: the keyboard, the shell and the commands together, as bytes and rounds in any order.
--     Children: Rows and Session (a line that is run), Typing (a line that is typed), Lines (both).
--   Serial.antt (src/src/classes/debug.class.h): the log on the serial port; its child Messages reads it.
--   DemoTasks.antt (src/src/classes/tasks.class.h): one round of each background task; its child Clock
--     has what they show.
--   Panic.antt (src/src/classes/panic.class.h, `int2char` of src/src/libs/stdlib.h): the screen of a fault,
--     as a list of texts and where they are written. Children: Draws
--     (texts one behind the other), Shown (the screen of `Trigger`), Digits.
--   Stdio.antt (src/src/libs/stdio.h): `printf`. Children: Rounds (its loop ends), Format
--     (what it prints).
--   Boot.antt (src/src/kernel.cpp, src/src/classes/shiro.class.h): the boot up to the multiboot facts, and
--     the steps of `Shiro::Start`. Children: Regions (which memory is whose), Masks (interrupt lines),
--     Tasks (the singletons of src/src/classes/shiro.class.h and src/src/classes/shell.class.h, and the
--     background tasks).
--   The Tests modules run the code and apply the theorems at concrete inputs.
--
-- Bounds and fuel: a walk of the heap has one round more than headers fit in the region, and every
-- well-formed list is shorter; `BITMAP_BYTES`, eight bits, eight task slots and the digits of a 32-bit
-- number bound the other loops as in the source. `Timer::Sleep` gets as many rounds as its ticks need when
-- every `gap` wake-ups hold a tick. Ranges of the memory map are read exactly below 16
-- TiB, where a page number fits in 32 bits.
--
-- Taken as arguments: the memory that GRUB leaves, the end of the kernel's image, the addresses of
-- the assembly stubs, what ports read, the tick count when a task yields, the sizes of the two
-- singletons and the addresses of the tasks' functions. The memory of headers, of stacks and of boot
-- tags are three memories: a write to one does not change another, so the boot information is taken to lie
-- outside the heap, which the source does not see to. `Yield` inside `Sleep` reads the
-- same tick as `Sleep`.
--
-- Not modelled: the boot stubs in assembly, `delay`, the firmware behind the BIOS calls, and the modes,
-- which only log: they are firmware, single instructions or text around the parts above. The calls
-- of the log are left out of the operations that make them. The instructions that end the commands
-- halt, reboot and panic are names.
-- The timer's interrupt is a step of its own: it may come between the calls of the tasks and between the
-- mark of `Sleep` and its `Yield`, and not inside `Yield`, which the source does not guard against it; in
-- the other models it comes between the operations.
pub mod Base
pub mod Boot
pub mod BootInfo
pub mod CString
pub mod Commands
pub mod Console
pub mod DemoTasks
pub mod Devices
pub mod Heap
pub mod Keyboard
pub mod Panic
pub mod Pmm
pub mod Preempt
pub mod Scheduler
pub mod Screen
pub mod Serial
pub mod Shell
pub mod Stdio
pub mod Switch
pub mod Tags
pub mod Text
pub mod Timer
