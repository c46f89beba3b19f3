-- ===== src/Pmm/Ranges.antt =====
-- `PMM::MarkRangeFree` and `PMM::MarkRangeUsed` of src/src/classes/pmm.class.h: which pages they write,
-- and that the counters follow the bitmap.
use shiro.Base.{
  ℕ, zero, suc, ◌+◌, ◌-◌, ◌*◌, ◌/◌, ◌%◌, ◌^◌, ◌≤◌, ◌<◌, ◌≡◌, refl, Bool, not, ◌&&◌, ◌||◌, ltb, leb,
  ◌==◌, arith, if◌then◌else◌, u32_mod, Bool-cases, inl, inr, sym,
}
use mathlib.Core.Path.{subst}
use shiro.Pmm.{
  Pmm, page_size, max_pages, u64_mod, is_used, free_one, use_one, each_page, for_pages,
  mark_range_free, mark_range_used,
}
use shiro.Pmm.Bitmap.{
  IsBytes, set_used-IsBytes, set_free-IsBytes, is_used-set_used, is_used-set_free, count_free,
  count_free-lt, count_free-pos, count_free-set_free, count_free-set_used,
}

-- The counters agree with the bitmap, and every page is counted once.
pub record Counts (s : Pmm) : Type 0 where
  pub bytes : IsBytes s.bitmap
  pub free : s.free_pages ≡ count_free s.bitmap max_pages
  pub total : s.free_pages + s.used_pages + s.reserved_pages ≡ max_pages

-- While the memory map is read no page is counted as used.
pub record Booting (s : Pmm) : Type 0 where
  pub counts : Counts s
  pub unused : s.used_pages ≡ 0

pub free_one-Booting : (s : Pmm) (p : ℕ) → p < max_pages → Booting s → Booting (free_one s p)
unfolding free_one
free_one-Booting s p low b = elim (Bool-cases (is_used s.bitmap p)) [
  | inl u ↦
      let m = count_free-lt s.bitmap max_pages p low u in
      let c = count_free-set_free s.bitmap b.counts.bytes p max_pages u in
      rw u (record {
        counts = record {
          bytes = set_free-IsBytes s.bitmap b.counts.bytes p;
          free = ground arith;
          total = ground arith;
        };
        unused = b.unused;
      })
  | inr u ↦ rw u b
]

pub use_one-Counts : (s : Pmm) (p : ℕ) → p < max_pages → Counts s → Counts (use_one s p)
unfolding use_one
use_one-Counts s p low b = elim (Bool-cases (is_used s.bitmap p)) [
  | inl u ↦ rw u b
  | inr u ↦
      let m = count_free-pos s.bitmap max_pages p low u in
      let c = count_free-set_used s.bitmap b.bytes p max_pages u in
      rw u (record {
        bytes = set_used-IsBytes s.bitmap b.bytes p;
        free = ground arith;
        total = ground arith;
      })
]

module _ {ℓ} (P : Pmm → Type ℓ) (body : Pmm → ℕ → Pmm)
    (keep : (s : Pmm) (p : ℕ) → p < max_pages → P s → P (body s p)) where
  each_page-inv : (n p : ℕ) (s : Pmm) → p + n ≤ max_pages → P s → P (each_page n body p s)
  unfolding each_page
  each_page-inv zero p s le h = h
  each_page-inv (suc n) p s le h =
      each_page-inv n (p + 1) (body s p) (omega arith) (keep s p (omega arith) h)

  -- What a loop's body keeps, the marking of a range keeps.
  pub for_pages-inv : (start end : ℕ) (s : Pmm) → P s → P (for_pages body start end s)
  unfolding for_pages each_page
  for_pages-inv start end s h =
      let first = start / page_size % u32_mod in
      let last = end / page_size % u32_mod in
      let last' = if ltb max_pages last then max_pages else last in
      let low : last' ≤ max_pages = ground arith in
      elim (Bool-cases (leb end start)) [
        | inl e ↦ rw e h
        | inr e ↦ rw e (elim (Bool-cases (leb first last')) [
          | inl o ↦ each_page-inv (last' - first) first s (ground arith) h
          | inr o ↦
              let z : last' - first ≡ 0 = ground arith in
              subst (λ n. P (each_page n body first s)) (sym z) h
        ])
      ]

-- One page's bit after a body.
free_one-bit :
    (s : Pmm) (p q : ℕ)
    → IsBytes s.bitmap
    → is_used (free_one s p).bitmap q ≡ (not (q == p) && is_used s.bitmap q)
unfolding free_one
free_one-bit s p q v = elim (Bool-cases (is_used s.bitmap p)) [
  | inl u ↦ rw u (is_used-set_free s.bitmap v p q)
  | inr u ↦ ground (arith, u)
]

use_one-bit :
    (s : Pmm) (p q : ℕ)
    → IsBytes s.bitmap
    → is_used (use_one s p).bitmap q ≡ ((q == p) || is_used s.bitmap q)
unfolding use_one
use_one-bit s p q v = elim (Bool-cases (is_used s.bitmap p)) [
  | inl u ↦ ground (arith, u)
  | inr u ↦ rw u (is_used-set_used s.bitmap v p q)
]

free_one-IsBytes : (s : Pmm) (p : ℕ) → IsBytes s.bitmap → IsBytes (free_one s p).bitmap
unfolding free_one
free_one-IsBytes s p v = elim (Bool-cases (is_used s.bitmap p)) [
  | inl u ↦ rw u (set_free-IsBytes s.bitmap v p)
  | inr u ↦ rw u v
]

use_one-IsBytes : (s : Pmm) (p : ℕ) → IsBytes s.bitmap → IsBytes (use_one s p).bitmap
unfolding use_one
use_one-IsBytes s p v = elim (Bool-cases (is_used s.bitmap p)) [
  | inl u ↦ rw u v
  | inr u ↦ rw u (set_used-IsBytes s.bitmap v p)
]

-- Page `q` is one of the `n` pages from `p`.
abbrev within : ℕ → ℕ → ℕ → Bool
within p n q = leb p q && ltb q (p + n)

each_page-free :
    (n p q : ℕ) (s : Pmm)
    → IsBytes s.bitmap
    → is_used (each_page n free_one p s).bitmap q ≡ (not (within p n q) && is_used s.bitmap q)
unfolding each_page
each_page-free zero p q s v = ground arith
each_page-free (suc n) p q s v = ground (
  arith,
  each_page-free n (p + 1) q (free_one s p) (free_one-IsBytes s p v),
  free_one-bit s p q v,
)

each_page-use :
    (n p q : ℕ) (s : Pmm)
    → IsBytes s.bitmap
    → is_used (each_page n use_one p s).bitmap q ≡ (within p n q || is_used s.bitmap q)
unfolding each_page
each_page-use zero p q s v = ground arith
each_page-use (suc n) p q s v =
    ground
      (arith, each_page-use n (p + 1) q (use_one s p) (use_one-IsBytes s p v), use_one-bit s p q v)

-- Below 16 TiB an address's page number fits in 32 bits.
abbrev pub tracked : ℕ
tracked = 2 ^ 44 - 4096

-- The pages of a range are those from `a` to `b`, cut to the tracked ones.
abbrev pages_to : ℕ → ℕ
pages_to b = if ltb max_pages b then max_pages else b

for_pages_lem :
    (body : Pmm → ℕ → Pmm) (a b : ℕ) (s : Pmm)
    → a < u32_mod
    → b < u32_mod
    → for_pages body (a * page_size) (b * page_size) s ≡ each_page (pages_to b - a) body a s
unfolding for_pages each_page
for_pages_lem body a b s ha hb =
    let f : a * page_size / page_size % u32_mod ≡ a = omega arith in
    let g : b * page_size / page_size % u32_mod ≡ b = omega arith in
    elim (Bool-cases (leb (b * page_size) (a * page_size))) [
      | inl e ↦ let z : pages_to b - a ≡ 0 = ground arith in rw (e, z) refl
      | inr e ↦ rw (e, f, g) refl
    ]

module _ (s : Pmm) (addr size q : ℕ) (v : IsBytes s.bitmap) (low : addr + size < tracked)
    (lq : q < max_pages) where
  -- A range that ends below 16 TiB: exactly the pages that lie wholly inside become free.
  pub mark_range_free-bit : is_used (mark_range_free s addr size).bitmap q ≡ (
      not (leb addr (q * page_size) && leb ((q + 1) * page_size) (addr + size))
      && is_used s.bitmap q)
  unfolding mark_range_free
  mark_range_free-bit =
      let a = (addr + page_size - 1) / page_size in
      let b = (addr + size) / page_size in
      let f : (addr + page_size - 1) % u64_mod ≡ addr + page_size - 1 = omega arith in
      let g : (addr + size) % u64_mod ≡ addr + size = omega arith in
      let w : within a (pages_to b - a) q
          ≡ (leb addr (q * page_size) && leb ((q + 1) * page_size) (addr + size)) =
        ground arith in
      rw
        (
          f,
          g,
          for_pages_lem free_one a b s (omega arith) (omega arith),
          each_page-free (pages_to b - a) a q s v,
          w,
        )
        refl

  -- Every page that the range touches becomes used.
  pub mark_range_used-bit : is_used (mark_range_used s addr size).bitmap q ≡ (
      (ltb addr ((q + 1) * page_size) && ltb (q * page_size) (addr + size)) || is_used s.bitmap q)
  unfolding mark_range_used
  mark_range_used-bit =
      let a = addr / page_size in
      let b = (addr + size + page_size - 1) / page_size in
      let g : (addr + size + page_size - 1) % u64_mod ≡ addr + size + page_size - 1 = omega arith in
      let w : within a (pages_to b - a) q
          ≡ (ltb addr ((q + 1) * page_size) && ltb (q * page_size) (addr + size)) =
        ground arith in
      rw
        (
          g,
          for_pages_lem use_one a b s (omega arith) (omega arith),
          each_page-use (pages_to b - a) a q s v,
          w,
        )
        refl
