-- ===== src/Heap/Fill.antt =====
-- A heap of src/src/classes/heap.class.h from which memory has only been taken: blocks in use and one
-- free block behind them.
use mathlib.Core.Path.{subst}
use shiro.Base.{
  ℕ, ◌+◌, ◌-◌, ◌<◌, ◌≤◌, ◌≡◌, refl, ap, true, false, List, [], ◌∷◌, ◌++◌, some, arith, ltb,
}
use shiro.Heap.{Heap, heap_size, header_size, round, alloc}
use shiro.Heap.Blocks.{Block, Place, Coalesced, span, first_fit, carve}
use shiro.Heap.Valid.{Represents}
use shiro.Heap.Contract.{AllocSpec, alloc_refines}

abbrev pub used_blocks : List ℕ → List Block
used_blocks [] = []
used_blocks (n ∷ ns) = record { size = n; used = true } ∷ used_blocks ns

-- The bytes that blocks of these sizes take up.
abbrev pub total : List ℕ → ℕ
total [] = 0
total (n ∷ ns) = header_size + n + total ns

-- The bytes of the free block behind them.
abbrev pub left : List ℕ → ℕ
left ns = heap_size - header_size - total ns

abbrev pub hole : List ℕ → Place
hole ns = record {
  before = used_blocks ns;
  here = record { size = left ns; used = false };
  behind = [];
}

abbrev pub filled : List ℕ → List Block
filled ns = used_blocks ns ++ (record { size = left ns; used = false } ∷ [])

first_fit-behind :
    (ns : List ℕ) (n size : ℕ)
    → n ≤ size
    → first_fit n (used_blocks ns ++ (record { size = size; used = false } ∷ []))
      ≡ some (record {
        before = used_blocks ns;
        here = record { size = size; used = false };
        behind = [];
      })
unfolding first_fit
first_fit-behind [] n size fits = ground arith
first_fit-behind (m ∷ ns) n size fits = ground (arith, first_fit-behind ns n size fits)

pub first_fit-filled :
    (ns : List ℕ) (n : ℕ) → n ≤ left ns → first_fit n (filled ns) ≡ some (hole ns)
first_fit-filled ns n fits = first_fit-behind ns n (left ns) fits

total-snoc : (ns : List ℕ) (n : ℕ) → total (ns ++ (n ∷ [])) ≡ total ns + header_size + n
total-snoc [] n = omega arith
total-snoc (m ∷ ns) n = omega (arith, total-snoc ns n)

used_blocks-snoc :
    (ns : List ℕ) (n : ℕ) (bs : List Block)
    → used_blocks ns ++ (record { size = n; used = true } ∷ bs) ≡ used_blocks (ns ++ (n ∷ [])) ++ bs
used_blocks-snoc [] n bs = refl
used_blocks-snoc (m ∷ ns) n bs =
    ap (λ x. record { size = m; used = true } ∷ x) (used_blocks-snoc ns n bs)

-- What a block that leaves a rest for another is given out of.
pub carve-filled :
    (ns : List ℕ) (n : ℕ)
    → header_size + 16 + n < left ns
    → used_blocks ns ++ (carve n (record { size = left ns; used = false }) ++ [])
      ≡ filled (ns ++ (n ∷ []))
carve-filled ns n wide =
    let w : ltb (header_size + 16) (left ns - n) ≡ true = ground arith in
    let e : left ns - n - header_size ≡ left (ns ++ (n ∷ [])) = omega (arith, total-snoc ns n) in
    rw (w, e) (used_blocks-snoc ns n (record { size = left (ns ++ (n ∷ [])); used = false } ∷ []))

-- `Heap::Alloc` with more room than it needs.
pub alloc-filled :
    {h : Heap} (ns : List ℕ) (n : ℕ)
    → Represents h (filled ns)
    → Coalesced (filled ns)
    → header_size + 16 + round n < left ns
    → (g : Heap) × (alloc h n ≡ some (h.base + span (used_blocks ns) + header_size, g))
      × Represents g (filled (ns ++ (round n ∷ [])))
      × Coalesced (filled (ns ++ (round n ∷ [])))
      × (g.base ≡ h.base)
alloc-filled {h} ns n r c wide =
    let found = first_fit-filled ns (round n) (omega arith) in
    let spec = subst (AllocSpec h (filled ns) n) found (alloc_refines (filled ns) n r c) in
    let e = carve-filled ns (round n) wide in
    (spec.0, spec.1, subst (Represents spec.0) e spec.2, subst Coalesced e spec.3, spec.4)
