-- ===== src/BootInfo/Totals.antt =====
-- What `System::Multiboot` of src/src/classes/multiboot.class.h reads out of the boot tags.
use shiro.BootInfo.Multiboot
use shiro.BootInfo.Multiboot.{
  Multiboot, reset, framebuffer, add_entries, read_tag, bootloader_magic, u64_mod,
}
use shiro.Tags.{
  Words, TagsAt, tag_type, tag_cmdline, tag_basic_meminfo, tag_mmap, tag_framebuffer, entry_size,
  entry_count, entry_at, entry_length, entry_type, memory_available, next, run_tags, walk-run_tags,
}
use shiro.Base.{
  ℕ, zero, suc, ◌+◌, ◌%◌, ◌<◌, ◌≡◌, ◌≢◌, ◌⊎◌, inl, inr, refl, ◌∙◌, true, false, List, [], ◌∷◌,
  length, some, ◌==◌, if◌then◌else◌, arith, Bool-cases,
}

-- The bytes of usable memory in the entries of a map from `i` on, and in the maps of a chain.
abbrev pub entries_total : Words → ℕ → ℕ → ℕ → ℕ
entries_total w tag zero i = 0
entries_total w tag (suc n) i =
    let rest = entries_total w tag n (i + 1) in
    (if entry_type w (entry_at w tag i) == memory_available
      then entry_length w (entry_at w tag i)
      else 0)
    + rest

abbrev pub available : Words → List ℕ → ℕ
available w [] = 0
available w (t ∷ ts) =
    (if tag_type w t == tag_mmap then entries_total w t (entry_count w t) 0 else 0) + available w ts

-- Every map of the chain has entries of a size.
abbrev pub EntriesSized : Words → List ℕ → Type 0
EntriesSized w [] = Unit
EntriesSized w (t ∷ ts) = (tag_type w t ≡ tag_mmap → entry_size w t ≢ 0) × EntriesSized w ts

add_entries-total :
    (w : Words) (tag n i total : ℕ)
    → total + entries_total w tag n i < u64_mod
    → add_entries w tag n i total ≡ total + entries_total w tag n i
unfolding add_entries
add_entries-total w tag zero i total h = omega arith
add_entries-total w tag (suc n) i total h =
    elim (Bool-cases (entry_type w (entry_at w tag i) == memory_available)) [
      | inl y ↦
          let len = entry_length w (entry_at w tag i) in
          let h' : total + len + entries_total w tag n (i + 1) < u64_mod = ground (arith, h, y) in
          let e : (total + len) % u64_mod ≡ total + len = omega arith in
          rw (y, e) (omega (arith, add_entries-total w tag n (i + 1) (total + len) h'))
      | inr b ↦
          let h' : total + entries_total w tag n (i + 1) < u64_mod = ground (arith, h, b) in
          rw b (omega (arith, add_entries-total w tag n (i + 1) total h'))
    ]

other_tag :
    (w : Words) (tag : ℕ) (s : Multiboot)
    → (tag_type w tag == tag_mmap) ≡ false
    → (s' : Multiboot) × (read_tag w tag s ≡ next s')
      × (s'.valid ≡ s.valid)
      × (s'.mmap_total_available
          ≡ s.mmap_total_available
            + (if tag_type w tag == tag_mmap then entries_total w tag (entry_count w tag) 0 else 0))
unfolding read_tag
other_tag w tag s n = elim (Bool-cases (tag_type w tag == tag_cmdline)) [
  | inl c ↦ (record s { cmdline = tag + 8 }, rw c refl, refl, rw n (omega arith))
  | inr c ↦ elim (Bool-cases (tag_type w tag == tag_basic_meminfo)) [
    | inl b ↦ (
      record s { mem_lower = w (tag + 8); mem_upper = w (tag + 12) },
      rw (c, b) refl,
      refl,
      rw n (omega arith),
    )
    | inr b ↦ elim (Bool-cases (tag_type w tag == tag_framebuffer)) [
      | inl f ↦ (framebuffer w tag s, rw (c, b, n, f) refl, refl, rw n (omega arith))
      | inr f ↦ (s, rw (c, b, n, f) refl, refl, rw n (omega arith))
    ]
  ]
]

-- One tag: it is read without a fault, and adds the usable bytes of a map.
read_tag-next :
    (w : Words) (tag : ℕ) (s : Multiboot)
    → (tag_type w tag ≡ tag_mmap → entry_size w tag ≢ 0)
    → let more =
        if tag_type w tag == tag_mmap then entries_total w tag (entry_count w tag) 0 else 0 in
      s.mmap_total_available + more < u64_mod
      → (s' : Multiboot) × (read_tag w tag s ≡ next s')
        × (s'.valid ≡ s.valid)
        × (s'.mmap_total_available
            ≡ s.mmap_total_available
              + (if tag_type w tag == tag_mmap
                  then entries_total w tag (entry_count w tag) 0
                  else 0))
unfolding read_tag
read_tag-next w tag s sized h = elim (Bool-cases (tag_type w tag == tag_mmap)) [
  | inl y ↦
      let total = s.mmap_total_available in
      let c : (tag_type w tag == tag_cmdline) ≡ false = ground arith in
      let b : (tag_type w tag == tag_basic_meminfo) ≡ false = ground arith in
      let z : (entry_size w tag == 0) ≡ false = ground (arith, sized) in
      let h' : total + entries_total w tag (entry_count w tag) 0 < u64_mod = ground (arith, h, y) in
      let t = add_entries-total w tag (entry_count w tag) 0 total h' in
      (
        record s {
          mmap_count = entry_count w tag;
          mmap_total_available = add_entries w tag (entry_count w tag) 0 total;
        },
        rw (c, b, y, z) refl,
        refl,
        rw y t,
      )
  | inr n ↦ other_tag w tag s n
]

read_tags :
    (w : Words) (ts : List ℕ) (s : Multiboot)
    → EntriesSized w ts
    → s.mmap_total_available + available w ts < u64_mod
    → (s' : Multiboot) × (run_tags w (read_tag w) ts s ≡ some s')
      × (s'.valid ≡ s.valid)
      × (s'.mmap_total_available ≡ s.mmap_total_available + available w ts)
unfolding run_tags
read_tags w [] s sized h = (s, refl, refl, omega arith)
read_tags w (t ∷ ts) s sized h =
    let (a, e, v, total) = read_tag-next w t s sized.0 (omega (arith, h)) in
    let (b, e', v', total') = read_tags w ts a sized.1 (omega (arith, h, total)) in
    (b, rw (e, run_tags) e', v' ∙ v, omega (arith, total, total'))

-- `Start` with the loader's magic, on a chain of tags whose maps have entries of a size, returns: the
-- information is valid, and the available memory is the sum of the usable entries of all the maps,
-- if that is below 2^64.
pub start-available :
    (fuel : ℕ) (w : Words) (mbi : ℕ) (ts : List ℕ)
    → mbi ≢ 0
    → TagsAt w (mbi + 8) ts
    → length ts < fuel
    → EntriesSized w ts
    → available w ts < u64_mod
    → (s : Multiboot) × (Multiboot.start fuel w bootloader_magic mbi ≡ some s)
      × (s.valid ≡ true)
      × (s.mmap_total_available ≡ available w ts)
unfolding Multiboot.start
start-available fuel w mbi ts ne at enough sized h =
    let z : (mbi == 0) ≡ false = ground (arith, ne) in
    let s0 = record reset { valid = true } in
    let (s, e, v, total) = read_tags w ts s0 sized (omega (arith, h)) in
    (
      s,
      rw z (walk-run_tags w (read_tag w) fuel (mbi + 8) ts s0 at enough ∙ e),
      v,
      omega (arith, total),
    )

-- Another magic number or a null pointer leaves everything reset.
pub start_refused :
    (fuel : ℕ) (w : Words) (magic mbi : ℕ)
    → (magic ≢ bootloader_magic) ⊎ (mbi ≡ 0)
    → Multiboot.start fuel w magic mbi ≡ some reset
unfolding Multiboot.start
start_refused fuel w magic mbi (inl ne) = ground (arith, ne)
start_refused fuel w magic mbi (inr z) = ground (arith, z)
