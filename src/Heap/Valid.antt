-- ===== src/Heap/Valid.antt =====
-- What it means that the state of `System::Heap` (src/src/classes/heap.class.h) is well formed, and
-- that `Heap::Start` makes it so.
use shiro.Base.{
  ℕ, ◌+◌, ◌-◌, ◌*◌, ◌%◌, ◌≤◌, ◌<◌, ◌≡◌, refl, true, false, List, [], ◌∷◌, arith, length, u32_mod,
}
use shiro.Heap.{Heap, Memory, heap_size, header_size, start, start_base, fuel}
use shiro.Heap.Blocks.{Block, span, used_bytes, free_bytes, span-eq-bytes}
use shiro.Heap.Seg.{Seg, next_of}

-- The memory holds exactly the blocks `bs`, which fill the region, and the counters agree.
pub record Represents (h : Heap) (bs : List Block) : Type 0 where
  pub ready : h.ready ≡ true
  pub first : h.first ≡ h.base
  pub pos : 0 < h.base
  pub end : h.end ≡ h.base + heap_size
  pub fits : h.base + heap_size < u32_mod
  pub chain : Seg h.mem h.base 0 bs
  pub whole : span bs ≡ heap_size
  pub used : h.bytes_used ≡ used_bytes bs
  pub free : h.bytes_free ≡ free_bytes bs

-- A walk of the whole list needs fewer rounds than `fuel`.
pub length-lt-fuel : {h : Heap} (bs : List Block) → Represents h bs → length bs < fuel
unfolding fuel
length-lt-fuel bs r = omega (arith, span-eq-bytes bs)

pub next_of-first : {h : Heap} (bs : List Block) → Represents h bs → next_of h.base 0 bs ≡ h.first
next_of-first [] r = absurd (omega arith)
next_of-first (b ∷ bs) r = omega arith

-- Headers and payloads account for every byte of the heap, at any time.
pub bytes_conserved :
    {h : Heap} (bs : List Block)
    → Represents h bs
    → h.bytes_used + h.bytes_free + header_size * length bs ≡ heap_size
bytes_conserved bs r = omega (arith, span-eq-bytes bs)

pub start_base_lem :
    (kernel_end hint : ℕ)
    → 0 < kernel_end
    → kernel_end < u32_mod - heap_size - 0x1000
    → hint < u32_mod - heap_size - 0x1000
    → (start_base kernel_end hint % 0x1000 ≡ 0)
      × (kernel_end ≤ start_base kernel_end hint)
      × (hint ≤ start_base kernel_end hint)
      × (start_base kernel_end hint + heap_size < u32_mod)
unfolding start_base
start_base_lem kernel_end hint pos hk hh = ground arith

-- `Heap::Start` leaves one free block that fills a page-aligned region behind the kernel and
-- behind the hint, if the region ends below 4 GiB.
pub start-Represents :
    (m : Memory) (kernel_end hint : ℕ)
    → 0 < kernel_end
    → kernel_end < u32_mod - heap_size - 0x1000
    → hint < u32_mod - heap_size - 0x1000
    → let h = start m kernel_end hint in
      Represents h (record { size = heap_size - header_size; used = false } ∷ [])
      × (h.base % 0x1000 ≡ 0)
      × (kernel_end ≤ h.base)
      × (hint ≤ h.base)
unfolding start
start-Represents m kernel_end hint pos hk hh =
    let b = start_base_lem kernel_end hint pos hk hh in
    (
      record {
        ready = refl;
        first = refl;
        pos = omega (arith, b);
        end = omega (arith, b);
        fits = b.3;
        chain = (ground arith, tt);
        whole = refl;
        used = refl;
        free = refl;
      },
      b.0,
      b.1,
      b.2,
    )
