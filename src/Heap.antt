-- ===== src/Heap.antt =====
-- src/src/classes/heap.class.h: `System::Heap`, the first-fit allocator with coalescing.
-- The heap keeps its headers inside the managed memory, linked by `next`; `Memory` gives the
-- header that is read at an address, and every walk follows the pointers.
pub mod Blocks
pub mod Seg
pub mod Valid
mod Carve
mod Replace
mod Merge
pub mod Alloc
pub mod Free
pub mod Coalesce
pub mod Payloads
pub mod InUse
pub mod Fill
pub mod Contract
mod Tests
use shiro.Base.{
  ℕ, zero, suc, ◌+◌, ◌/◌, Bool, true, false, not, ◌||◌, Option, none, some, ltb, ◌==◌,
  if◌then◌else◌, add32, sub32, clear_low, ◌%◌,
}

-- `block_header_t`.
pub record Header : Type 0 where
  pub magic : ℕ
  pub size : ℕ
  pub used : ℕ
  pub next : ℕ

abbrev pub Memory : Type 0
Memory = ℕ → Header

abbrev pub store : Memory → ℕ → Header → Memory
store m a h x = if x == a then h else m x

abbrev pub heap_magic : ℕ
heap_magic = 0x5481B07E

abbrev pub heap_size : ℕ
heap_size = 0x400000

-- `sizeof(block_header_t)`
abbrev pub header_size : ℕ
header_size = 16

-- The static members of `Heap`, and the memory.
pub record Heap : Type 0 where
  pub first : ℕ
  pub base : ℕ
  pub end : ℕ
  pub bytes_used : ℕ
  pub bytes_free : ℕ
  pub alloc_count : ℕ
  pub free_count : ℕ
  pub ready : Bool
  pub mem : Memory

-- `Heap::Start`: one free block over the whole region.
unfoldable pub start_base : ℕ → ℕ → ℕ
start_base kernel_end hint =
    let base = if ltb kernel_end hint then hint else kernel_end in
    if base % 0x1000 == 0 then base else clear_low 0x1000 (add32 base 0xFFF)

unfoldable pub start : Memory → ℕ → ℕ → Heap
start m kernel_end hint =
    let base = start_base kernel_end hint in
    record {
      first = base;
      base = base;
      end = add32 base heap_size;
      bytes_used = 0;
      bytes_free = sub32 heap_size header_size;
      alloc_count = 0;
      free_count = 0;
      ready = true;
      mem =
          store m base
            (record { magic = heap_magic; size = sub32 heap_size header_size; used = 0; next = 0 });
    }

-- `Heap::Round`.
unfoldable pub round : ℕ → ℕ
round n = clear_low 8 (add32 (if ltb n 8 then 8 else n) 7)

-- The rounds that a walk of the list is given: more than there can be headers in the heap.
pub fuel : ℕ
fuel = heap_size / header_size + 1

-- The loop of `Heap::Alloc`: the first free block of at least `size` bytes, 0 at the end of the
-- list. `none`: the rounds ran out.
pub find_fit : ℕ → Memory → ℕ → ℕ → Option ℕ
find_fit zero m size b = none
find_fit (suc f) m size b = elim (b == 0) [
  | true ↦ some 0
  | false ↦ elim (not ((m b).used == 0) || ltb (m b).size size) [
    | true ↦ find_fit f m size (m b).next
    | false ↦ some b
  ]
]

-- The body of the loop at the block that fits: the split, if the rest can host a block.
pub split : Heap → ℕ → ℕ → Heap
split h b size =
    let hb = h.mem b in
    let leftover = sub32 hb.size size in
    let tail = add32 (add32 b header_size) size in
    if ltb (header_size + 16) leftover
    then record h {
      mem =
          store
            (store h.mem tail (record {
              magic = heap_magic;
              size = sub32 leftover header_size;
              used = 0;
              next = hb.next;
            }))
            b (record hb { size = size; next = tail });
      bytes_free = sub32 h.bytes_free header_size;
    }
    else h

-- Then the block is marked and counted.
pub mark_used : Heap → ℕ → Heap
mark_used h b =
    let hb = h.mem b in
    record h {
      mem = store h.mem b (record hb { used = 1 });
      bytes_used = add32 h.bytes_used hb.size;
      bytes_free = sub32 h.bytes_free hb.size;
      alloc_count = add32 h.alloc_count 1;
    }

-- `Heap::Alloc`: the address of the payload, or 0.
pub alloc : Heap → ℕ → Option (ℕ × Heap)
alloc h n = if not h.ready then some (0, h) else elim (find_fit fuel h.mem (round n) h.first) [
  | none ↦ none
  | some b ↦
      if b == 0 then some (0, h) else some (add32 b header_size, mark_used (split h b (round n)) b)
]

-- `Heap::Free`, first part: the block is marked and counted.
pub mark_free : Heap → ℕ → Heap
mark_free h b =
    let hb = h.mem b in
    record h {
      mem = store h.mem b (record hb { used = 0 });
      bytes_used = sub32 h.bytes_used hb.size;
      bytes_free = add32 h.bytes_free hb.size;
      free_count = add32 h.free_count 1;
    }

-- The block at `b` takes in the block at `n`, which follows it.
pub absorb : Heap → ℕ → ℕ → Heap
absorb h b n =
    let hb = h.mem b in
    let hn = h.mem n in
    record h {
      mem =
          store h.mem b
            (record hb { size = add32 hb.size (add32 header_size hn.size); next = hn.next });
      bytes_free = add32 h.bytes_free header_size;
    }

-- The forward coalesce.
pub merge_next : Heap → ℕ → Heap
merge_next h b =
    let n = (h.mem b).next in if n == 0 then h else if (h.mem n).used == 0 then absorb h b n else h

-- The walk for the predecessor of `b`; 0 if `b` is the first block.
pub find_prev : ℕ → Memory → ℕ → ℕ → ℕ → Option ℕ
find_prev zero m b prev cur = none
find_prev (suc f) m b prev cur = elim ((cur == 0) || (cur == b)) [
  | true ↦ some prev
  | false ↦ find_prev f m b cur (m cur).next
]

-- The backward coalesce.
pub merge_prev : Heap → ℕ → ℕ → Heap
merge_prev h prev b = if prev == 0 then h else if (h.mem prev).used == 0 then absorb h prev b else h

-- `Heap::Free` of a block that passed the checks.
pub release : Heap → ℕ → Option Heap
release h b =
    let h' = merge_next (mark_free h b) b in
    elim (find_prev fuel h'.mem b 0 h'.first) [
      | none ↦ none
      | some prev ↦ some (merge_prev h' prev b)
    ]

-- `Heap::Free`.
pub free : Heap → ℕ → Option Heap
free h p =
    let b = sub32 p header_size in
    if not h.ready || (p == 0)
    then some h
    else if not ((h.mem b).magic == heap_magic)
    then some h
    else if (h.mem b).used == 0
    then some h
    else release h b
