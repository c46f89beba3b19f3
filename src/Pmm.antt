-- ===== src/Pmm.antt =====
-- src/src/classes/pmm.class.h: `System::PMM`, the bitmap of physical pages.
-- The bitmap is an array of bytes, here a function from the index; `SetUsed` and `SetFree` are the
-- bit operations of the source.
pub mod Bitmap
pub mod Ranges
pub mod Boot
pub mod Pages
pub mod Alloc
mod Tests
use Prim.Native.Nat.{bit_and, bit_or}
use shiro.Tags.{
  Words, tag_type, tag_mmap, entry_size, entry_count, entry_at, entry_base, entry_length,
  entry_type, memory_available, Next, next, fault, walk,
}
use shiro.Base.{
  Option, none, some, ℕ, zero, suc, ◌+◌, ◌-◌, ◌*◌, ◌/◌, ◌%◌, ◌^◌, Bool, true, false, not, ◌||◌,
  List, [], ◌∷◌, ltb, leb, ◌==◌, if◌then◌else◌, add32, sub32, mul32, clear_low, u32_mod,
}

abbrev pub page_size : ℕ
page_size = 4096

abbrev pub max_pages : ℕ
max_pages = 2 ^ 20

abbrev pub bitmap_bytes : ℕ
bitmap_bytes = max_pages / 8

abbrev pub u64_mod : ℕ
u64_mod = 2 ^ 64

abbrev pub Bytes : Type 0
Bytes = ℕ → ℕ

-- The static members of `PMM`.
pub record Pmm : Type 0 where
  pub bitmap : Bytes
  pub total_pages : ℕ
  pub free_pages : ℕ
  pub used_pages : ℕ
  pub reserved_pages : ℕ
  pub ready : Bool

abbrev pub update : Bytes → ℕ → ℕ → Bytes
update m i v j = if j == i then v else m j

pub set_used : Bytes → ℕ → Bytes
set_used m page = update m (page / 8) (bit_or (m (page / 8)) (2 ^ (page % 8)))

-- `~(1u << k)` cut to a byte is 255 less the bit.
pub set_free : Bytes → ℕ → Bytes
set_free m page = update m (page / 8) (bit_and (m (page / 8)) (255 - 2 ^ (page % 8)))

pub is_used : Bytes → ℕ → Bool
is_used m page = m (page / 8) / 2 ^ (page % 8) % 2 == 1

-- The body of the loop of `PMM::MarkRangeFree`.
pub free_one : Pmm → ℕ → Pmm
free_one s p =
    if is_used s.bitmap p
    then record s {
      bitmap = set_free s.bitmap p;
      free_pages = add32 s.free_pages 1;
      reserved_pages = if ltb 0 s.reserved_pages then s.reserved_pages - 1 else s.reserved_pages;
    }
    else s

-- The body of the loop of `PMM::MarkRangeUsed`.
pub use_one : Pmm → ℕ → Pmm
use_one s p = if is_used s.bitmap p then s else record s {
  bitmap = set_used s.bitmap p;
  free_pages = if ltb 0 s.free_pages then s.free_pages - 1 else s.free_pages;
  used_pages = add32 s.used_pages 1;
}

-- `for (p = first; p < first + n; p++)`
pub each_page : ℕ → (Pmm → ℕ → Pmm) → ℕ → Pmm → Pmm
each_page zero body p s = s
each_page (suc n) body p s = each_page n body (p + 1) (body s p)

-- The pages from `start` to `end`, both byte addresses, cut to the tracked ones.
pub for_pages : (Pmm → ℕ → Pmm) → ℕ → ℕ → Pmm → Pmm
for_pages body start end s =
    if leb end start
    then s
    else let first = start / page_size % u32_mod in
      let last = end / page_size % u32_mod in
      let last' = if ltb max_pages last then max_pages else last in
      each_page (last' - first) body first s

-- `PMM::MarkRangeFree`: rounded inwards.
pub mark_range_free : Pmm → ℕ → ℕ → Pmm
mark_range_free s addr size =
    for_pages free_one (clear_low page_size ((addr + page_size - 1) % u64_mod))
      (clear_low page_size ((addr + size) % u64_mod)) s

-- `PMM::MarkRangeUsed`: rounded outwards.
pub mark_range_used : Pmm → ℕ → ℕ → Pmm
mark_range_used s addr size =
    for_pages use_one (clear_low page_size addr)
      (clear_low page_size ((addr + size + page_size - 1) % u64_mod)) s

-- Step 1 of `PMM::Start`: every page is reserved. `ready` has still its initial value.
abbrev pub reserved : Pmm
reserved = record {
  bitmap = λ i. 0xFF;
  total_pages = max_pages;
  free_pages = 0;
  used_pages = 0;
  reserved_pages = max_pages;
  ready = false;
}

-- One entry of the memory map.
pub free_entry : Words → ℕ → Pmm → Pmm
free_entry w e s =
    if entry_type w e == memory_available
    then mark_range_free s (entry_base w e) (entry_length w e)
    else s

-- `for (uint32_t i = 0; i < count; i++)`
pub free_entries : Words → ℕ → ℕ → ℕ → Pmm → Pmm
free_entries w tag zero i s = s
free_entries w tag (suc n) i s = free_entries w tag n (i + 1) (free_entry w (entry_at w tag i) s)

-- Step 2, for one tag. An entry size of 0 is a division by zero.
pub free_tag : Words → ℕ → Pmm → Next Pmm
free_tag w tag s =
    if tag_type w tag == tag_mmap
    then if entry_size w tag == 0 then fault else next (free_entries w tag (entry_count w tag) 0 s)
    else next s

-- Steps 3 and 4.
pub reserve_kernel : Pmm → ℕ → ℕ → Pmm
reserve_kernel s kernel_start heap_end =
    record (mark_range_used (mark_range_used s kernel_start (sub32 heap_end kernel_start)) 0
      0x100000) { ready = true }

-- `PMM::Start`, with the rounds that the walk of the tags is given.
pub start : ℕ → Words → ℕ → ℕ → ℕ → Option Pmm
start fuel w mbi kernel_start heap_end =
    if mbi == 0 then some reserved else elim (walk w (free_tag w) fuel (mbi + 8) reserved) [
      | none ↦ none
      | some s ↦ some (reserve_kernel s kernel_start heap_end)
    ]

-- The inner loop of `PMM::AllocPage`: the first clear bit of a byte.
pub find_bit : ℕ → ℕ → ℕ → Option ℕ
find_bit zero byte bit = none
find_bit (suc n) byte bit = elim (bit_and byte (2 ^ bit) == 0) [
  | true ↦ some bit
  | false ↦ find_bit n byte (bit + 1)
]

-- The outer loop: full bytes are skipped.
pub find_page : ℕ → Bytes → ℕ → Option ℕ
find_page zero m i = none
find_page (suc n) m i = elim (m i == 0xFF) [
  | true ↦ find_page n m (i + 1)
  | false ↦ elim (find_bit 8 (m i) 0) [
    | some bit ↦ some (i * 8 + bit)
    | none ↦ find_page n m (i + 1)
  ]
]

-- `PMM::AllocPage`: the address of the page, 0 if there is none.
pub alloc_page : Pmm → ℕ × Pmm
alloc_page s =
    if s.ready
    then elim (find_page bitmap_bytes s.bitmap 0) [
      | none ↦ (0, s)
      | some page ↦ (
        mul32 page page_size,
        record s {
          bitmap = set_used s.bitmap page;
          free_pages = sub32 s.free_pages 1;
          used_pages = add32 s.used_pages 1;
        },
      )
    ]
    else (0, s)

-- `PMM::FreePage`.
pub free_page : Pmm → ℕ → Pmm
free_page s addr =
    let page = addr / page_size in
    if not s.ready || leb max_pages page
    then s
    else if is_used s.bitmap page
    then record s {
      bitmap = set_free s.bitmap page;
      free_pages = add32 s.free_pages 1;
      used_pages = sub32 s.used_pages 1;
    }
    else s
