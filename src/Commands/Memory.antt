-- ===== src/Commands/Memory.antt =====
-- The commands of src/src/classes/commands.class.h on memory: mem, pmm, paging, peek and dumpmem.
use shiro.Text.Box.{box_top, box_line, box_bottom}
use shiro.Text.Numbers.{parse_hex}
use shiro.Commands.Lines.{str, dec, hex, line}
use shiro.Heap.{Heap}
use shiro.Pmm.{Pmm}
use shiro.BootInfo.Multiboot.{Multiboot}
use shiro.Tags.{Words}
use shiro.Devices.Paging.{Mmu, is_enabled}
use shiro.Base.{
  ℕ, zero, suc, ◌+◌, ◌*◌, ◌/◌, ◌%◌, ◌^◌, ◌&&◌, List, [], ◌∷◌, ◌++◌, none, some, leb, ltb, ◌==◌,
  if◌then◌else◌, add32, mul32, u32_mod, clear_low, codes,
}

-- `cmd_mem`.
unfoldable pub cmd_mem : Heap → Multiboot → List (List ℕ)
cmd_mem h mb =
    box_top (codes "Kernel Heap (System::Heap)")
    ∷ box_line (
        line (str (codes "base       = ") ∷ hex h.base ∷ str (codes "    end = ") ∷ hex h.end ∷ []))
    ∷ box_line (
        line (
          str (codes "used       = ")
          ∷ dec h.bytes_used
          ∷ str (codes " bytes    free = ")
          ∷ dec h.bytes_free
          ∷ str (codes " bytes")
          ∷ []))
    ∷ box_line (
        line (
          str (codes "allocs     = ")
          ∷ dec h.alloc_count
          ∷ str (codes "    frees = ")
          ∷ dec h.free_count
          ∷ []))
    ∷ box_bottom
    ∷ box_top (codes "Multiboot Info")
    ∷ box_line (
        line (
          str (codes "mem_lower  = ")
          ∷ dec mb.mem_lower
          ∷ str (codes " KiB    mem_upper = ")
          ∷ dec mb.mem_upper
          ∷ str (codes " KiB")
          ∷ []))
    ∷ box_line (
        line (
          str (codes "mmap avail = ")
          ∷ dec (mb.mmap_total_available / (1024 * 1024) % u32_mod)
          ∷ str (codes " MiB across ")
          ∷ dec mb.mmap_count
          ∷ str (codes " regions")
          ∷ []))
    ∷ box_bottom
    ∷ []

-- A line of `cmd_pmm`: a number of pages, and what it comes to.
abbrev pub pages_line : List ℕ → ℕ → ℕ → List ℕ → List ℕ
pages_line label pages amount unit =
    line (str label ∷ dec pages ∷ str (codes " pages (") ∷ dec amount ∷ str unit ∷ [])

-- `cmd_pmm`.
unfoldable pub cmd_pmm : Pmm → List (List ℕ)
cmd_pmm s =
    box_top (codes "Physical Memory Manager")
    ∷ box_line (codes "page size = 4 KiB")
    ∷ box_line
        (pages_line (codes "total = ") s.total_pages (s.total_pages / 256) (codes " MiB tracked)"))
    ∷ box_line (pages_line (codes "used  = ") s.used_pages (mul32 s.used_pages 4) (codes " KiB)"))
    ∷ box_line (pages_line (codes "free  = ") s.free_pages (s.free_pages / 256) (codes " MiB)"))
    ∷ box_bottom
    ∷ []

-- `cmd_paging`.
unfoldable pub cmd_paging : Mmu → List (List ℕ)
cmd_paging u =
    box_top (codes "Paging / MMU")
    ∷ box_line (
        line (
          str (codes "enabled    = ")
          ∷ str (if is_enabled u then codes "yes (CR0.PG=1)" else codes "no")
          ∷ []))
    ∷ box_line (line (str (codes "CR0        = ") ∷ hex u.cr0 ∷ []))
    ∷ box_line
        (line (str (codes "CR3        = ") ∷ hex u.cr3 ∷ str (codes "  (page directory)") ∷ []))
    ∷ box_line (
        line (
          str (codes "CR4        = ")
          ∷ hex u.cr4
          ∷ str (codes "  (PSE bit ")
          ∷ str (if u.cr4 / 2 ^ 4 % 2 == 1 then codes "on)" else codes "off)")
          ∷ []))
    ∷ box_line (codes "page size  = 4 MiB (PSE)")
    ∷ box_line (codes "mapped     = 4 GiB identity (1024 x 4 MiB)")
    ∷ box_bottom
    ∷ []

-- `cmd_peek`, with the words of the memory.
unfoldable pub cmd_peek : Words → List ℕ → List (List ℕ)
cmd_peek w args = elim (parse_hex args) [
  | none ↦ codes "usage: peek <hex-address>" ∷ codes "example: peek 0xB8000" ∷ []
  | some a ↦
      let addr = clear_low 4 a in
      line (str (codes "[") ∷ hex addr ∷ str (codes "] = ") ∷ hex (w addr) ∷ []) ∷ []
]

-- `hex[d]`, for the string "0123456789abcdef".
abbrev pub hex_char : ℕ → ℕ
hex_char d = if ltb d 10 then 48 + d else 87 + d

-- The loop over the columns of bytes, from column `col` on.
unfoldable pub byte_columns : ℕ → ℕ → (ℕ → ℕ) → ℕ → List ℕ
byte_columns zero col p row = []
byte_columns (suc n) col p row =
    let b = p (row * 16 + col) in
    hex_char (b / 16)
    ∷ hex_char (b % 16)
    ∷ 32
    ∷ ((if col == 7 then 32 ∷ [] else []) ++ byte_columns n (col + 1) p row)

-- The loop over the characters.
unfoldable pub char_columns : ℕ → ℕ → (ℕ → ℕ) → ℕ → List ℕ
char_columns zero col p row = []
char_columns (suc n) col p row =
    let b = p (row * 16 + col) in
    (if leb 0x20 b && ltb b 0x7F then b else 46) ∷ char_columns n (col + 1) p row

-- One row of `cmd_dumpmem`. The bytes are written without a test of the buffer's end.
unfoldable pub dump_row : (ℕ → ℕ) → ℕ → ℕ → List ℕ
dump_row p addr row =
    line (hex (add32 addr (row * 16)) ∷ str (codes ":  ") ∷ [])
    ++ (byte_columns 16 0 p row ++ 32 ∷ char_columns 16 0 p row)

-- `cmd_dumpmem`, with the bytes of the memory.
unfoldable pub cmd_dumpmem : (ℕ → ℕ) → List ℕ → List (List ℕ)
cmd_dumpmem m args = elim (parse_hex args) [
  | none ↦ codes "usage: dumpmem <hex-address>" ∷ []
  | some a ↦
      let addr = clear_low 16 a in
      let p = λ (i : ℕ). m (add32 addr i) in
      dump_row p addr 0 ∷ dump_row p addr 1 ∷ dump_row p addr 2 ∷ dump_row p addr 3 ∷ []
]
