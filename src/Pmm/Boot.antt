-- ===== src/Pmm/Boot.antt =====
-- `PMM::Start` of src/src/classes/pmm.class.h: which pages are free after the boot.
use shiro.Tags.{
  Words, TagsAt, tag_type, tag_mmap, entry_size, entry_count, entry_at, entry_base, entry_length,
  entry_type, memory_available, run_tags, walk-run_tags, next,
}
use shiro.Base.{
  ℕ, zero, suc, ◌+◌, ◌-◌, ◌*◌, ◌%◌, ◌≤◌, ◌<◌, ◌≡◌, ◌≢◌, refl, sym, Bool, true, false, not, ◌&&◌,
  ◌||◌, List, [], ◌∷◌, length, some, ltb, leb, ◌==◌, arith, sub32, u32_mod, Bool-cases, inl, inr,
}
use shiro.Pmm.{
  Pmm, page_size, max_pages, is_used, free_one, use_one, mark_range_free, mark_range_used, reserved,
  free_entry, free_entries, free_tag, reserve_kernel, start,
}
use shiro.Pmm.Bitmap.{count_free}
use shiro.Base.Bytes.{full-bit}
use shiro.Pmm.Ranges.{
  Counts, Booting, free_one-Booting, use_one-Counts, for_pages-inv, tracked, mark_range_free-bit,
  mark_range_used-bit,
}

mark_range_free-Booting :
    (s : Pmm) (addr size : ℕ) → Booting s → Booting (mark_range_free s addr size)
unfolding mark_range_free
mark_range_free-Booting s addr size b = for_pages-inv Booting free_one free_one-Booting _ _ s b

mark_range_used-Counts : (s : Pmm) (addr size : ℕ) → Counts s → Counts (mark_range_used s addr size)
unfolding mark_range_used
mark_range_used-Counts s addr size c = for_pages-inv Counts use_one use_one-Counts _ _ s c

pub all_used : (q : ℕ) → is_used (λ i. 0xFF) q ≡ true
unfolding is_used
all_used q = full-bit (q % 8) (omega arith)

pub none_free : (n : ℕ) → count_free (λ i. 0xFF) n ≡ 0
unfolding count_free
none_free zero = refl
none_free (suc n) = rw (all_used n) (omega (arith, none_free n))

reserved-Booting : Booting reserved
reserved-Booting = record {
  counts = record { bytes = λ i. omega arith; free = sym (none_free max_pages); total = refl };
  unused = refl;
}

-- The entry is of memory that may be used, and the page lies wholly in it.
abbrev pub entry_covers : Words → ℕ → ℕ → Bool
entry_covers w e q =
    (entry_type w e == memory_available)
    && leb (entry_base w e) (q * page_size)
    && leb ((q + 1) * page_size) (entry_base w e + entry_length w e)

abbrev pub entries_cover : Words → ℕ → ℕ → ℕ → ℕ → Bool
entries_cover w tag zero i q = false
entries_cover w tag (suc n) i q =
    entry_covers w (entry_at w tag i) q || entries_cover w tag n (i + 1) q

abbrev pub tags_cover : Words → List ℕ → ℕ → Bool
tags_cover w [] q = false
tags_cover w (t ∷ ts) q =
    ((tag_type w t == tag_mmap) && entries_cover w t (entry_count w t) 0 q) || tags_cover w ts q

-- What firmware leaves: usable memory ends below 16 TiB, and entries have a size.
abbrev pub EntriesBelow : Words → ℕ → ℕ → ℕ → Type 0
EntriesBelow w tag zero i = Unit
EntriesBelow w tag (suc n) i =
    (entry_base w (entry_at w tag i) + entry_length w (entry_at w tag i) < tracked)
    × EntriesBelow w tag n (i + 1)

abbrev pub MapsBelow : Words → List ℕ → Type 0
MapsBelow w [] = Unit
MapsBelow w (t ∷ ts) =
    (tag_type w t ≡ tag_mmap → (entry_size w t ≢ 0) × EntriesBelow w t (entry_count w t) 0)
    × MapsBelow w ts

-- While the map is read: the free pages are those of `c`.
record Reads (c : ℕ → Bool) (s : Pmm) : Type 0 where
  pub booting : Booting s
  pub bits : (q : ℕ) → q < max_pages → is_used s.bitmap q ≡ not (c q)

free_entry-Reads :
    {c : ℕ → Bool} {s : Pmm} (w : Words) (e : ℕ)
    → entry_base w e + entry_length w e < tracked
    → Reads c s
    → Reads (λ q. entry_covers w e q || c q) (free_entry w e s)
unfolding free_entry
free_entry-Reads {c} {s} w e low r = elim (Bool-cases (entry_type w e == memory_available)) [
  | inl y ↦ rw y (record {
    booting = mark_range_free-Booting s (entry_base w e) (entry_length w e) r.booting;
    bits = λ q lq. ground (
      arith,
      mark_range_free-bit s (entry_base w e) (entry_length w e) q r.booting.counts.bytes low lq,
      r.bits q lq,
    );
  })
  | inr n ↦ rw n r
]

free_entries-Reads :
    (w : Words) (tag n i : ℕ) {c : ℕ → Bool} {s : Pmm}
    → EntriesBelow w tag n i
    → Reads c s
    → Reads (λ q. entries_cover w tag n i q || c q) (free_entries w tag n i s)
unfolding free_entries
free_entries-Reads w tag zero i low r = r
free_entries-Reads w tag (suc n) i {c} {s} low r =
    let e = entry_at w tag i in
    let r' =
      free_entries-Reads w tag n (i + 1) {c = λ q. entry_covers w e q || c q} {s = free_entry w e s}
        low.1 (free_entry-Reads w e low.0 r) in
    record { booting = r'.booting; bits = λ q lq. ground (arith, r'.bits q lq) }

-- A tag never ends the walk, and frees the pages of its entries.
free_tag-Reads :
    (w : Words) (tag : ℕ) {c : ℕ → Bool} {s : Pmm}
    → (tag_type w tag ≡ tag_mmap
        → (entry_size w tag ≢ 0) × EntriesBelow w tag (entry_count w tag) 0)
    → Reads c s
    → (s' : Pmm) × (free_tag w tag s ≡ next s')
      × Reads
          (λ q.
            ((tag_type w tag == tag_mmap) && entries_cover w tag (entry_count w tag) 0 q) || c q)
          s'
unfolding free_tag
free_tag-Reads w tag {c} {s} low r = elim (Bool-cases (tag_type w tag == tag_mmap)) [
  | inl y ↦
      let l = low (ground arith) in
      let z : (entry_size w tag == 0) ≡ false = ground (arith, l.0) in
      rw (y, z) (_, refl, free_entries-Reads w tag (entry_count w tag) 0 l.1 r)
  | inr n ↦ rw n (s, refl, r)
]

run_tags-Reads :
    (w : Words) (ts : List ℕ) {c : ℕ → Bool} {s : Pmm}
    → MapsBelow w ts
    → Reads c s
    → (s' : Pmm) × (run_tags w (free_tag w) ts s ≡ some s')
      × Reads (λ q. tags_cover w ts q || c q) s'
unfolding run_tags
run_tags-Reads w [] {c} {s} low r = (s, refl, r)
run_tags-Reads w (t ∷ ts) {c} {s} low r =
    let (s', e, r') = free_tag-Reads w t low.0 r in
    let (f, e', r'') = run_tags-Reads w ts low.1 r' in
    (
      f,
      rw (e, run_tags) e',
      record { booting = r''.booting; bits = λ q lq. ground (arith, r''.bits q lq) },
    )

-- The kernel's image with its heap, and the first MiB.
abbrev pub kept : ℕ → ℕ → ℕ → Bool
kept kernel_start heap_end q =
    ltb (q * page_size) 0x100000
    || (ltb kernel_start ((q + 1) * page_size) && ltb (q * page_size) heap_end)

-- What the boot leaves.
pub record Booted (w : Words) (ts : List ℕ) (kernel_start heap_end : ℕ) (s : Pmm) : Type 0 where
  pub counts : Counts s
  pub ready : s.ready ≡ true
  pub bits :
      (q : ℕ)
      → q < max_pages
      → is_used s.bitmap q ≡ (kept kernel_start heap_end q || not (tags_cover w ts q))

reserve_kernel-Booted :
    (w : Words) (ts : List ℕ) (kernel_start heap_end : ℕ) (s : Pmm)
    → kernel_start ≤ heap_end
    → heap_end < u32_mod
    → Reads (λ q. tags_cover w ts q || false) s
    → Booted w ts kernel_start heap_end (reserve_kernel s kernel_start heap_end)
unfolding reserve_kernel
reserve_kernel-Booted w ts ks he s le small r =
    let d : sub32 he ks ≡ he - ks = omega arith in
    let c = mark_range_used-Counts s ks (sub32 he ks) r.booting.counts in
    let a = mark_range_used s ks (sub32 he ks) in
    let c' = mark_range_used-Counts a 0 0x100000 c in
    record {
      counts = record { bytes = c'.bytes; free = c'.free; total = c'.total };
      ready = refl;
      bits = λ q lq. ground (
        arith,
        d,
        mark_range_used-bit a 0 0x100000 q c.bytes (omega arith) lq,
        mark_range_used-bit s ks (sub32 he ks) q r.booting.counts.bytes (omega arith) lq,
        r.bits q lq,
      );
    }

-- `PMM::Start` on a chain of tags returns, with more rounds than tags. Its counters agree with
-- the bitmap, and a tracked page is free exactly if it lies wholly in an available entry of a
-- memory map and neither in the first MiB nor in a page of the kernel's range.
pub start-Booted :
    (fuel : ℕ) (w : Words) (mbi kernel_start heap_end : ℕ) (ts : List ℕ)
    → mbi ≢ 0
    → TagsAt w (mbi + 8) ts
    → length ts < fuel
    → MapsBelow w ts
    → kernel_start ≤ heap_end
    → heap_end < u32_mod
    → (s : Pmm) × (start fuel w mbi kernel_start heap_end ≡ some s)
      × Booted w ts kernel_start heap_end s
unfolding start
start-Booted fuel w mbi ks he ts ne at enough low le small =
    let z : (mbi == 0) ≡ false = ground (arith, ne) in
    let (s, e, r) =
      run_tags-Reads w ts low (record { booting = reserved-Booting; bits = λ q lq. all_used q }) in
    rw (z, walk-run_tags w (free_tag w) fuel (mbi + 8) ts reserved at enough, e)
      (_, refl, reserve_kernel-Booted w ts ks he s le small r)
