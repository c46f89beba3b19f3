-- ===== src/BootInfo/Multiboot.antt =====
-- src/src/classes/multiboot.class.h: `System::Multiboot`, the facts that the kernel keeps.
use shiro.Tags.{
  Words, tag_type, tag_cmdline, tag_basic_meminfo, tag_mmap, tag_framebuffer, word64, entry_size,
  entry_count, entry_at, entry_length, entry_type, memory_available, Next, next, fault, walk,
}
use shiro.Base.{
  ℕ, zero, suc, ◌+◌, ◌/◌, ◌%◌, ◌^◌, Bool, true, false, not, ◌||◌, Option, some, ◌==◌, if◌then◌else◌,
}

abbrev pub bootloader_magic : ℕ
bootloader_magic = 0x36D76289

abbrev pub u64_mod : ℕ
u64_mod = 2 ^ 64

-- The members of `Multiboot`; `cmdline` is the address of the string, 0 if there is none.
pub record Multiboot : Type 0 where
  pub valid : Bool
  pub mem_lower : ℕ
  pub mem_upper : ℕ
  pub cmdline : ℕ
  pub mmap_count : ℕ
  pub mmap_total_available : ℕ
  pub fb_addr : ℕ
  pub fb_width : ℕ
  pub fb_height : ℕ
  pub fb_bpp : ℕ
  pub fb_type : ℕ

-- `Multiboot::Reset`.
abbrev pub reset : Multiboot
reset = record {
  valid = false;
  mem_lower = 0;
  mem_upper = 0;
  cmdline = 0;
  mmap_count = 0;
  mmap_total_available = 0;
  fb_addr = 0;
  fb_width = 0;
  fb_height = 0;
  fb_bpp = 0;
  fb_type = 0;
}

-- The loop over the entries of a memory map.
unfoldable pub add_entries : Words → ℕ → ℕ → ℕ → ℕ → ℕ
add_entries w tag zero i total = total
add_entries w tag (suc n) i total =
    let e = entry_at w tag i in
    add_entries w tag n (i + 1)
      (if entry_type w e == memory_available then (total + entry_length w e) % u64_mod else total)

abbrev pub framebuffer : Words → ℕ → Multiboot → Multiboot
framebuffer w tag s = record s {
  fb_addr = word64 w (tag + 8);
  fb_width = w (tag + 20);
  fb_height = w (tag + 24);
  fb_bpp = w (tag + 28) % 2 ^ 8;
  fb_type = w (tag + 28) / 2 ^ 8 % 2 ^ 8;
}

-- The body of the loop of `Multiboot::Start`.
unfoldable pub read_tag : Words → ℕ → Multiboot → Next Multiboot
read_tag w tag s =
    if tag_type w tag == tag_cmdline
    then next (record s { cmdline = tag + 8 })
    else if tag_type w tag == tag_basic_meminfo
    then next (record s { mem_lower = w (tag + 8); mem_upper = w (tag + 12) })
    else if tag_type w tag == tag_mmap
    then (if entry_size w tag == 0
        then fault
        else next (record s {
          mmap_count = entry_count w tag;
          mmap_total_available = add_entries w tag (entry_count w tag) 0 s.mmap_total_available;
        }))
    else if tag_type w tag == tag_framebuffer
    then next (framebuffer w tag s)
    else next s

-- `Multiboot::Start`.
unfoldable pub start : ℕ → Words → ℕ → ℕ → Option Multiboot
start fuel w magic mbi =
    if not (magic == bootloader_magic) || (mbi == 0)
    then some reset
    else walk w (read_tag w) fuel (mbi + 8) (record reset { valid = true })
