-- ===== src/Pmm/Alloc.antt =====
-- `PMM::AllocPage` and `PMM::FreePage` of src/src/classes/pmm.class.h as operations on the set of pages.
use shiro.Base.{
  ℕ, ◌+◌, ◌-◌, ◌*◌, ◌/◌, ◌≤◌, ◌<◌, ◌≡◌, ◌≢◌, refl, ap, sym, true, false, not, ◌&&◌, ◌||◌, none,
  some, leb, ◌==◌, arith, add32, sub32, mul32, inl, inr, ◌∙◌, ◌⊎◌, Option-cases,
}
use mathlib.Core.Path.{subst}
use shiro.Pmm.{
  Pmm, page_size, max_pages, bitmap_bytes, is_used, set_used, set_free, find_page, alloc_page,
  free_page,
}
use shiro.Pmm.Bitmap.{
  set_used-IsBytes, set_free-IsBytes, is_used-set_used, is_used-set_free, count_free-lt,
  count_free-set_used, count_free-set_free, count_free-pos,
}
use shiro.Pmm.Ranges.{Counts}
use shiro.Pmm.Pages.{Lowest, find_page-Lowest}

-- The state after page `p` is given out.
abbrev pub given : Pmm → ℕ → Pmm
given s p = record s {
  bitmap = set_used s.bitmap p;
  free_pages = s.free_pages - 1;
  used_pages = s.used_pages + 1;
}

-- The state after page `p` is given back.
abbrev pub returned : Pmm → ℕ → Pmm
returned s p = record s {
  bitmap = set_free s.bitmap p;
  free_pages = s.free_pages + 1;
  used_pages = s.used_pages - 1;
}

given-Counts :
    (s : Pmm) (p : ℕ) → Counts s → p < max_pages → is_used s.bitmap p ≡ false → Counts (given s p)
given-Counts s p c low u =
    let m = count_free-pos s.bitmap max_pages p low u in
    let k = count_free-set_used s.bitmap c.bytes p max_pages u in
    record {
      bytes = set_used-IsBytes s.bitmap c.bytes p;
      free = ground (arith, c.free);
      total = ground (arith, c.free, c.total);
    }

pub returned-Counts :
    (s : Pmm) (p : ℕ)
    → Counts s
    → p < max_pages
    → is_used s.bitmap p ≡ true
    → 0 < s.used_pages
    → Counts (returned s p)
returned-Counts s p c low u some_used =
    let k = count_free-set_free s.bitmap c.bytes p max_pages u in
    record {
      bytes = set_free-IsBytes s.bitmap c.bytes p;
      free = ground (arith, c.free);
      total = ground (arith, c.free, c.total);
    }

-- `AllocPage` on a started allocator whose counters agree with its bitmap: either every tracked
-- page is used and it returns 0 and changes nothing, or it returns the address of the lowest free
-- page, exactly that page becomes used, one page moves from the free count to the used count, and
-- the counters still agree.
pub alloc_page_lowest :
    (s : Pmm)
    → s.ready ≡ true
    → Counts s
    → (((q : ℕ) → q < max_pages → is_used s.bitmap q ≡ true) × (alloc_page s ≡ (0, s)))
      ⊎ ((p : ℕ) × (p < max_pages)
          × (is_used s.bitmap p ≡ false)
          × ((q : ℕ) → q < p → is_used s.bitmap q ≡ true)
          × (alloc_page s ≡ (p * page_size, given s p))
          × ((q : ℕ) → is_used (given s p).bitmap q ≡ ((q == p) || is_used s.bitmap q))
          × Counts (given s p))
unfolding alloc_page
alloc_page_lowest s r c =
    let l = find_page-Lowest bitmap_bytes s.bitmap 0 c.bytes in
    elim (Option-cases (find_page bitmap_bytes s.bitmap 0)) [
      | inl o ↦
          let g : Lowest s.bitmap 0 max_pages none = subst (Lowest s.bitmap 0 max_pages) o l in
          inl (λ q lt. g q (omega arith) lt, ground (arith, r, o))
      | inr (p, o) ↦
          let g : Lowest s.bitmap 0 max_pages (some p) = subst (Lowest s.bitmap 0 max_pages) o l in
          let pos = count_free-pos s.bitmap max_pages p g.1 g.2 in
          let a : mul32 p page_size ≡ p * page_size = omega (arith, g.1) in
          let f : sub32 s.free_pages 1 ≡ s.free_pages - 1 = omega (arith, c.free, c.total) in
          let u : add32 s.used_pages 1 ≡ s.used_pages + 1 = omega (arith, c.total) in
          inr (
            p,
            g.1,
            g.2,
            λ q lt. g.3 q (omega arith) lt,
            ground (arith, r, o, a, f, u),
            is_used-set_used s.bitmap c.bytes p,
            given-Counts s p c g.1 g.2,
          )
    ]

-- `FreePage` of the address of a used tracked page, with some page counted as used: exactly that
-- page becomes free, one page moves from the used count to the free count, and the counters still
-- agree with the bitmap.
pub free_page_used :
    (s : Pmm) (addr : ℕ)
    → s.ready ≡ true
    → Counts s
    → addr / page_size < max_pages
    → is_used s.bitmap (addr / page_size) ≡ true
    → 0 < s.used_pages
    → (free_page s addr ≡ returned s (addr / page_size))
      × ((q : ℕ)
          → is_used (returned s (addr / page_size)).bitmap q
            ≡ (not (q == addr / page_size) && is_used s.bitmap q))
      × Counts (returned s (addr / page_size))
unfolding free_page
free_page_used s addr r c low u some_used =
    let m = count_free-lt s.bitmap max_pages (addr / page_size) low u in
    let l : leb max_pages (addr / page_size) ≡ false = ground arith in
    let f : add32 s.free_pages 1 ≡ s.free_pages + 1 = omega (arith, c.free, c.total) in
    let d : sub32 s.used_pages 1 ≡ s.used_pages - 1 = omega (arith, c.total) in
    (
      rw (r, l, u, f, d) refl,
      is_used-set_free s.bitmap c.bytes (addr / page_size),
      returned-Counts s (addr / page_size) c low u some_used,
    )

-- `FreePage` before `Start`, of an address that is not tracked, or of a page that is free already
-- changes nothing.
pub free_page_refused :
    (s : Pmm) (addr : ℕ)
    → (s.ready ≡ false)
      ⊎ ((max_pages ≤ addr / page_size) ⊎ (is_used s.bitmap (addr / page_size) ≡ false))
    → free_page s addr ≡ s
unfolding free_page
free_page_refused s addr (inl r) = rw r refl
free_page_refused s addr (inr (inl h)) =
    let l : leb max_pages (addr / page_size) ≡ true = ground arith in ground (arith, l)
free_page_refused s addr (inr (inr u)) = ground (arith, u)

-- Freeing page `p` just after it is given out.
abbrev pub AsBefore : Pmm → Pmm → Type 0
AsBefore s s' =
    (s'.free_pages ≡ s.free_pages)
    × (s'.used_pages ≡ s.used_pages)
    × ((q : ℕ) → is_used s'.bitmap q ≡ is_used s.bitmap q)

take_back :
    (s : Pmm) (p : ℕ)
    → s.ready ≡ true
    → Counts s
    → p < max_pages
    → is_used s.bitmap p ≡ false
    → AsBefore s (free_page (given s p) (p * page_size))
take_back s p r c low u =
    let pos = count_free-pos s.bitmap max_pages p low u in
    let d : p * page_size / page_size ≡ p = omega arith in
    let b = is_used-set_used s.bitmap c.bytes p in
    let h : is_used (given s p).bitmap p ≡ true = ground (arith, b p) in
    let f =
      free_page_used (given s p) (p * page_size) r (given-Counts s p c low u) (omega arith) (rw d h)
        (omega arith) in
    subst (AsBefore s) (sym f.0)
      (ground (arith, c.free), omega arith, λ q. ground (arith, d, f.1 q, b q, u))

-- What `AllocPage` returns, unless it is 0, `FreePage` takes back: the counters and every page are
-- as before.
pub free_page-alloc_page :
    (s s' : Pmm) (addr : ℕ)
    → s.ready ≡ true
    → Counts s
    → alloc_page s ≡ (addr, s')
    → addr ≢ 0
    → AsBefore s (free_page s' addr)
free_page-alloc_page s s' addr r c run ne = elim (alloc_page_lowest s r c) [
  | inl (_, e) ↦ absurd (ne (ap (λ x. x.0) (sym run ∙ e)))
  | inr (p, low, u, _, e, _, _) ↦
      let eq = sym e ∙ run in
      subst (λ x. AsBefore s (free_page x.1 x.0)) eq (take_back s p r c low u)
]
