-- ===== src/Boot/Regions.antt =====
-- Where `shiro_main` of src/src/kernel.cpp puts the heap, and which pages it leaves to the allocator.
use mathlib.Core.Path.{subst}
use shiro.Heap
use shiro.Heap.{Heap, heap_size, header_size}
use shiro.Heap.Blocks.{span}
use shiro.Heap.Contract.{round_up}
use shiro.Heap.Fill.{used_blocks, alloc-filled}
use shiro.Heap.Valid.{start_base_lem, start-Represents}
use shiro.Pmm.{Pmm, is_used, max_pages, page_size}
use shiro.Pmm.Boot
use shiro.Pmm.Boot.{start-Booted, MapsBelow, kept}
use shiro.BootInfo.Modules.{scan_modules-EndBefore, EndBefore, IsEnd, mod_end, widen_bound}
use shiro.BootInfo.Initrd.{Initrd, mod_start, first_initrd, loaded, no_initrd, start-first_initrd}
use shiro.BootInfo.Multiboot.{bootloader_magic, u64_mod}
use shiro.BootInfo.Totals.{start-available, available, EntriesSized}
use shiro.Boot.{Booted, boot, get_instance}
use shiro.Tags.{Words, TagsAt, tag_type, tag_module}
use shiro.Base.{
  ℕ, ◌+◌, ◌*◌, ◌<◌, ◌≤◌, ◌≡◌, ◌≢◌, ◌⊎◌, refl, sym, ap, ◌∙◌, inr, true, List, [], ◌∷◌, length, none,
  some, u32_mod, arith,
}

-- No page that holds a byte of a module is free. Modules below the kernel are left aside: the loader
-- puts them behind it.
abbrev pub ModulesUsed : Words → List ℕ → ℕ → Pmm → Type 0
ModulesUsed w [] kernel_start s = Unit
ModulesUsed w (t ∷ ts) kernel_start s =
    (tag_type w t ≡ tag_module
      → kernel_start ≤ mod_start w t
      → (q : ℕ) → q < max_pages
      → mod_start w t < (q + 1) * page_size
      → q * page_size < mod_end w t
      → is_used s.bitmap q ≡ true)
    × ModulesUsed w ts kernel_start s

kept-used :
    (ks he a b q : ℕ)
    → ks ≤ a
    → b ≤ he
    → a < (q + 1) * page_size
    → q * page_size < b
    → kept ks he q ≡ true
kept-used ks he a b q le le' lo hi = ground (arith, le, le', lo, hi)

-- The kernel's range, heap included, keeps the modules' pages.
modules-used :
    (w : Words) (ts all : List ℕ) (ks he base : ℕ) (s : Pmm)
    → Boot.Booted w all ks he s
    → base ≤ he
    → EndBefore w ts base
    → ModulesUsed w ts ks s
modules-used w [] all ks he base s b le e = tt
modules-used w (t ∷ ts) all ks he base s b le (e, es) = (
  λ m lo q tracked from to.
      b.bits q tracked
      ∙ rw (kept-used ks he (mod_start w t) (mod_end w t) q lo (omega (arith, e m, le)) from to)
          refl,
  modules-used w ts all ks he base s b le es,
)

heap_end :
    (m : Heap.Memory) (k hint : ℕ)
    → 0 < k
    → k + 0x1000 + heap_size < u32_mod
    → hint + 0x1000 + heap_size < u32_mod
    → ((Heap.start m k hint).end ≡ (Heap.start m k hint).base + heap_size)
      × ((Heap.start m k hint).end < u32_mod)
      × (k ≤ (Heap.start m k hint).base)
      × (hint ≤ (Heap.start m k hint).base)
unfolding Heap.start
heap_end m k hint pos small small' =
    let b = start_base_lem k hint pos (omega arith) (omega arith) in
    (omega (arith, b), omega (arith, b), omega (arith, b), omega (arith, b))

-- The heap after the allocation of the first singleton.
singleton :
    (m : Heap.Memory) (k hint n : ℕ)
    → 0 < k
    → k + 0x1000 + heap_size < u32_mod
    → hint + 0x1000 + heap_size < u32_mod
    → n ≤ 0x100000
    → (q : ℕ) × (g : Heap) × (get_instance n 0 (Heap.start m k hint) ≡ some (q, g))
      × (g.base ≡ (Heap.start m k hint).base)
      × (g.end ≡ (Heap.start m k hint).end)
unfolding get_instance
singleton m k hint n pos small small' le =
    let start = (start-Represents m k hint pos (omega arith) (omega arith)).0 in
    let up = round_up n (omega arith) in
    let (g, ran, rep, co, base) = alloc-filled [] n start (inr tt, tt) (omega (arith, up)) in
    (
      (Heap.start m k hint).base + span (used_blocks []) + header_size,
      g,
      ran,
      base,
      rep.end ∙ ap (λ x. x + heap_size) base ∙ sym start.end,
    )

module _ (fuel : ℕ) (w : Words) (m : Heap.Memory) (kernel_start kernel_end shiro_bytes mbi : ℕ)
    (ts : List ℕ) (there : mbi ≢ 0) (chain : TagsAt w (mbi + 8) ts) (enough : length ts < fuel)
    (maps : MapsBelow w ts) (sized : EntriesSized w ts) (total : available w ts < u64_mod)
    (pos : 0 < kernel_end) (object : shiro_bytes ≤ 0x100000) (image : kernel_start ≤ kernel_end)
    (small : kernel_end + 0x1000 + heap_size < u32_mod)
    (low : (r : ℕ) → (r ≡ 0) ⊎ IsEnd w ts r → r + 0x1000 + heap_size < u32_mod) where
  -- On a chain of boot tags whose maps and modules lie below their bounds, in memory that the heap does
  -- not overlap, and with at most 1 MiB for the first singleton, the boot returns. The heap starts behind
  -- the kernel and behind every module; no page of the kernel, of the heap or of a module that starts at
  -- or behind the kernel's start is free to the page allocator; the ramdisk is the first module with the
  -- magic, if there is one; and the memory total is the sum of the maps.
  pub boot-Regions :
      (b : Booted) × (boot fuel w m kernel_start kernel_end shiro_bytes bootloader_magic mbi
        ≡ some b)
      × (kernel_end ≤ b.heap.base)
      × EndBefore w ts b.heap.base
      × ((q : ℕ)
          → q < max_pages
          → kernel_start < (q + 1) * page_size
          → q * page_size < b.heap.end
          → is_used b.pmm.bitmap q ≡ true)
      × ModulesUsed w ts kernel_start b.pmm
      × (b.initrd ≡ elim (first_initrd w ts) [ none ↦ no_initrd | some t ↦ loaded w t ])
      × (b.multiboot.mmap_total_available ≡ available w ts)
  unfolding boot
  boot-Regions =
      let (r, q, before, met) = scan_modules-EndBefore fuel w mbi ts there chain enough in
      let h = Heap.start m kernel_end r in
      let e = heap_end m kernel_end r pos small (low r met) in
      let (p, pq, pb) =
        start-Booted fuel w mbi kernel_start h.end ts there chain enough maps (omega (arith, e))
          e.1 in
      let i : Initrd = elim (first_initrd w ts) [ none ↦ no_initrd | some t ↦ loaded w t ] in
      let iq = start-first_initrd fuel w mbi ts there chain enough in
      let (o, g, gq, gb, ge) = singleton m kernel_end r shiro_bytes pos small (low r met) object in
      let (mb, mq, valid, sum) = start-available fuel w mbi ts there chain enough sized total in
      let behind : EndBefore w ts h.base = widen_bound w ts r h.base e.3 before in
      (
        record { heap = g; pmm = p; initrd = i; multiboot = mb },
        rw (q, pq, iq, gq, mq) refl,
        omega (arith, e, gb),
        subst (EndBefore w ts) (sym gb) behind,
        λ page tracked from to.
            pb.bits page tracked
            ∙ rw
                (kept-used kernel_start h.end kernel_start h.end page (omega arith) (omega arith)
                  from (omega (arith, to, ge)))
                refl,
        modules-used w ts ts kernel_start h.end h.base p pb (omega (arith, e)) behind,
        refl,
        sum,
      )
