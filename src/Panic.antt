-- ===== src/Panic.antt =====
-- src/src/classes/panic.class.h: `System::Panic`, the screen of a fault.
pub mod Draws
pub mod Shown
pub mod Digits
mod Tests
use Prim.Native.Nat.{bit_or}
use shiro.Screen.{Cells, put, fill}
use shiro.Text.Numbers.{collect}
use shiro.Base.{
  ℕ, zero, suc, ◌+◌, ◌-◌, ◌*◌, ◌/◌, ◌%◌, ◌^◌, Bool, true, false, List, [], ◌∷◌, ◌++◌, length,
  get_or, ltb, ◌==◌, if◌then◌else◌, codes,
}

-- The names of the vectors from 0 to 21.
abbrev pub exception_names : List (List ℕ)
exception_names =
    codes "Division by Zero"
    ∷ codes "Debug"
    ∷ codes "Non-Maskable Interrupt"
    ∷ codes "Breakpoint"
    ∷ codes "Overflow"
    ∷ codes "Bound Range Exceeded"
    ∷ codes "Invalid Opcode"
    ∷ codes "Device Not Available"
    ∷ codes "Double Fault"
    ∷ codes "Coprocessor Segment Overrun"
    ∷ codes "Invalid TSS"
    ∷ codes "Segment Not Present"
    ∷ codes "Stack-Segment Fault"
    ∷ codes "General Protection Fault"
    ∷ codes "Page Fault"
    ∷ codes "Reserved"
    ∷ codes "x87 Floating-Point Exception"
    ∷ codes "Alignment Check"
    ∷ codes "Machine Check"
    ∷ codes "SIMD Floating-Point Exception"
    ∷ codes "Virtualization Exception"
    ∷ codes "Control Protection Exception"
    ∷ []

-- `Panic::ExceptionName`.
unfoldable pub exception_name : ℕ → List ℕ
exception_name int_no = get_or exception_names int_no (codes "Reserved Exception")

-- `int2char` of src/src/libs/stdlib.h, of a number that is not negative: at most 30 digits.
unfoldable pub int2char : ℕ → List ℕ
int2char val = collect 10 30 val []

-- The cell of a character on the panic screen.
abbrev pub cell : ℕ → ℕ → ℕ
cell attr c = bit_or c (attr * 2 ^ 8)

-- `Panic::WriteAt`. The cells that it returns are as many as the text has characters.
unfoldable pub write_at : ℕ → ℕ → List ℕ → Cells → Cells
write_at attr offset [] screen = screen
write_at attr offset (c ∷ s) screen = write_at attr (offset + 1) s (put screen offset (cell attr c))

-- `hex[nib]`, for the string "0123456789ABCDEF".
abbrev pub upper_hex : ℕ → ℕ
upper_hex nib = if ltb nib 10 then 48 + nib else 55 + nib

-- The `n` lowest digits of a number, from the highest on.
unfoldable pub nibbles : ℕ → ℕ → List ℕ
nibbles zero v = []
nibbles (suc n) v = upper_hex (v / 16 ^ n % 16) ∷ nibbles n v

-- What `Panic::HexAt` writes.
unfoldable pub hex_chars : ℕ → List ℕ
hex_chars v = 48 ∷ 120 ∷ nibbles 8 v

-- A text or a number, and where it is written.
abbrev pub Draw : Type 0
Draw = ℕ × List ℕ

abbrev pub hex_at : ℕ → ℕ → ℕ → Draw
hex_at row col v = (row * 80 + col, hex_chars v)

-- `registers_t`, as the handler gets it.
pub record Registers : Type 0 where
  pub eax : ℕ
  pub ebx : ℕ
  pub ecx : ℕ
  pub edx : ℕ
  pub esi : ℕ
  pub edi : ℕ
  pub ebp : ℕ
  pub esp : ℕ
  pub eip : ℕ
  pub eflags : ℕ
  pub int_no : ℕ
  pub err_code : ℕ

-- Writes one after the other: `off += WriteAt(screen, off, s, attr)`.
unfoldable pub chain : ℕ → List (List ℕ) → List Draw
chain off [] = []
chain off (s ∷ ss) = (off, s) ∷ chain (off + length s) ss

-- The title, and the exception's number and name.
unfoldable pub exception_draws : ℕ → List Draw
exception_draws int_no =
    (28, codes "*** KERNEL PANIC ***")
    ∷ chain (80 * 2)
        (codes "  Exception #" ∷ int2char int_no ∷ codes ": " ∷ exception_name int_no ∷ [])

-- The registers.
unfoldable pub register_draws : Registers → ℕ → List Draw
register_draws regs cr2 =
    (80 * 4 + 2, codes "EAX=")
    ∷ hex_at 4 6 regs.eax
    ∷ (80 * 4 + 22, codes "EBX=")
    ∷ hex_at 4 26 regs.ebx
    ∷ (80 * 4 + 42, codes "ECX=")
    ∷ hex_at 4 46 regs.ecx
    ∷ (80 * 4 + 62, codes "EDX=")
    ∷ hex_at 4 66 regs.edx
    ∷ (80 * 5 + 2, codes "ESI=")
    ∷ hex_at 5 6 regs.esi
    ∷ (80 * 5 + 22, codes "EDI=")
    ∷ hex_at 5 26 regs.edi
    ∷ (80 * 5 + 42, codes "EBP=")
    ∷ hex_at 5 46 regs.ebp
    ∷ (80 * 5 + 62, codes "ESP=")
    ∷ hex_at 5 66 regs.esp
    ∷ (80 * 7 + 2, codes "EIP=")
    ∷ hex_at 7 6 regs.eip
    ∷ (80 * 7 + 22, codes "EFLAGS=")
    ∷ hex_at 7 29 regs.eflags
    ∷ (80 * 7 + 45, codes "ERR=")
    ∷ hex_at 7 49 regs.err_code
    ∷ (80 * 9 + 2, codes "CR2 (faulting linear addr)= ")
    ∷ hex_at 9 30 cr2
    ∷ []

-- The cause of a page fault, by the bits of its error code.
unfoldable pub cause_draws : ℕ → ℕ → List Draw
cause_draws int_no e =
    if int_no == 14
    then (80 * 10 + 2, codes "Cause: ")
      ∷ chain (80 * 10 + 9) (
          (if e % 2 == 1 then codes "protection-fault" else codes "page-not-present")
          ∷ codes " on "
          ∷ (if e / 2 % 2 == 1 then codes "write" else codes "read")
          ∷ codes " in "
          ∷ (if e / 4 % 2 == 1 then codes "user-mode" else codes "kernel-mode")
          ∷ [])
    else []

-- The loop over the top of the stack, with `n` words left; `sp` are the words from `esp` on.
unfoldable pub stack_draws : ℕ → ℕ → (ℕ → ℕ) → List Draw
stack_draws zero i sp = []
stack_draws (suc n) i sp =
    (80 * (13 + i) + 4, codes "[esp+")
    ∷ hex_at (13 + i) 9 (i * 4)
    ∷ (80 * (13 + i) + 19, codes "] = ")
    ∷ hex_at (13 + i) 23 (sp i)
    ∷ stack_draws n (i + 1) sp

-- All that `Panic::Trigger` writes on the screen, in order.
unfoldable pub draws : Registers → ℕ → (ℕ → ℕ) → List Draw
draws regs cr2 sp =
    exception_draws regs.int_no
    ++ (register_draws regs cr2
        ++ (cause_draws regs.int_no regs.err_code
            ++ ((80 * 12 + 2, codes "Top of stack:")
                ∷ (stack_draws 8 0 sp
                    ++ (80 * 23 + 2, codes "System halted. Reboot to recover.") ∷ []))))

unfoldable pub draw_all : ℕ → List Draw → Cells → Cells
draw_all attr [] screen = screen
draw_all attr (d ∷ ds) screen = draw_all attr ds (write_at attr d.0 d.1 screen)

abbrev pub panic_attr : ℕ
panic_attr = 0x4F

-- The screen that `Panic::Trigger` leaves.
unfoldable pub trigger : Registers → ℕ → (ℕ → ℕ) → Cells → Cells
trigger regs cr2 sp screen =
    draw_all panic_attr (draws regs cr2 sp) (fill (80 * 25) 0 (cell panic_attr 32) screen)
