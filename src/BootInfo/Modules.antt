-- ===== src/BootInfo/Modules.antt =====
-- The scan for modules in src/src/kernel.cpp, before the heap is started behind them.
use shiro.Tags.{Words, TagsAt, tag_type, tag_module, Next, next, walk, run_tags, walk-run_tags}
use shiro.Heap
use shiro.Heap.{Heap, Memory, heap_size}
use shiro.Heap.Valid.{start-Represents}
use shiro.Base.{
  ℕ, ◌+◌, ◌<◌, ◌≤◌, ◌≡◌, ◌≢◌, ◌⊎◌, inl, inr, refl, ◌∙◌, false, List, [], ◌∷◌, length, Option, some,
  ltb, ◌==◌, if◌then◌else◌, arith, u32_mod, Bool-cases,
}

abbrev pub mod_end : Words → ℕ → ℕ
mod_end w tag = w (tag + 12)

-- The body of the loop.
unfoldable pub widen : Words → ℕ → ℕ → Next ℕ
widen w tag initrd_end =
    if tag_type w tag == tag_module
    then next (if ltb initrd_end (mod_end w tag) then mod_end w tag else initrd_end)
    else next initrd_end

-- Step 1a of `shiro_main`: the end of the last module, or 0.
unfoldable pub scan_modules : ℕ → Words → ℕ → Option ℕ
scan_modules fuel w mbi = if mbi == 0 then some 0 else walk w (widen w) fuel (mbi + 8) 0

-- Every module of the tags ends at or before `e`.
abbrev pub EndBefore : Words → List ℕ → ℕ → Type 0
EndBefore w [] e = Unit
EndBefore w (t ∷ ts) e = (tag_type w t ≡ tag_module → mod_end w t ≤ e) × EndBefore w ts e

-- The bound is met by some module.
abbrev pub IsEnd : Words → List ℕ → ℕ → Type 0
IsEnd w [] e = ⊥
IsEnd w (t ∷ ts) e = ((tag_type w t ≡ tag_module) × (mod_end w t ≡ e)) ⊎ IsEnd w ts e

scan-run :
    (w : Words) (ts : List ℕ) (e : ℕ)
    → (r : ℕ) × (run_tags w (widen w) ts e ≡ some r)
      × (e ≤ r)
      × EndBefore w ts r
      × ((r ≡ e) ⊎ IsEnd w ts r)
unfolding run_tags widen
scan-run w [] e = (e, refl, omega arith, tt, inl refl)
scan-run w (t ∷ ts) e = elim (Bool-cases (tag_type w t == tag_module)) [
  | inl y ↦
      let e' = if ltb e (mod_end w t) then mod_end w t else e in
      let (r, q, le, before, met) = scan-run w ts e' in
      (
        r,
        rw (y, run_tags) q,
        ground (arith, le),
        ((λ m. ground (arith, le)), before),
        elim met [
          | inr i ↦ inr (inr i)
          | inl s ↦ elim (Bool-cases (ltb e (mod_end w t))) [
            | inl b ↦ inr (inl (ground arith, ground (arith, s, b)))
            | inr b ↦ inl (ground (arith, s, b))
          ]
        ],
      )
  | inr n ↦
      let (r, q, le, before, met) = scan-run w ts e in
      (
        r,
        rw (n, run_tags) q,
        le,
        ((λ m. absurd (ground (arith, m, n))), before),
        elim met [ inr i ↦ inr (inr i) | inl s ↦ inl s ],
      )
]

-- The scan of a chain of tags returns; the result is at or behind the end of every module, and is
-- the end of one of them, or 0.
pub scan_modules-EndBefore :
    (fuel : ℕ) (w : Words) (mbi : ℕ) (ts : List ℕ)
    → mbi ≢ 0
    → TagsAt w (mbi + 8) ts
    → length ts < fuel
    → (r : ℕ) × (scan_modules fuel w mbi ≡ some r) × EndBefore w ts r × ((r ≡ 0) ⊎ IsEnd w ts r)
unfolding scan_modules
scan_modules-EndBefore fuel w mbi ts ne at enough =
    let z : (mbi == 0) ≡ false = ground (arith, ne) in
    let (r, q, le, before, met) = scan-run w ts 0 in
    (r, rw z (walk-run_tags w (widen w) fuel (mbi + 8) ts 0 at enough ∙ q), before, met)

-- A later address is behind the modules too.
pub widen_bound : (w : Words) (ts : List ℕ) (a b : ℕ) → a ≤ b → EndBefore w ts a → EndBefore w ts b
widen_bound w [] a b le h = tt
widen_bound w (t ∷ ts) a b le h = ((λ m. ground (arith, h.0 m)), widen_bound w ts a b le h.1)

-- The heap that `shiro_main` starts with the scan's result, in the space below 4 GiB, begins behind
-- the kernel and behind every module that the loader left: it overlaps none of them.
pub scan_modules-heap :
    (fuel : ℕ) (w : Words) (mbi kernel_end : ℕ) (m : Memory) (ts : List ℕ)
    → mbi ≢ 0
    → TagsAt w (mbi + 8) ts
    → length ts < fuel
    → ((r : ℕ) → (r ≡ 0) ⊎ IsEnd w ts r → r + 0x1000 + heap_size < u32_mod)
    → 0 < kernel_end
    → kernel_end + 0x1000 + heap_size < u32_mod
    → (r : ℕ) × (scan_modules fuel w mbi ≡ some r)
      × (kernel_end ≤ (Heap.start m kernel_end r).base)
      × EndBefore w ts (Heap.start m kernel_end r).base
scan_modules-heap fuel w mbi k m ts ne at enough small pos small' =
    let (r, q, before, met) = scan_modules-EndBefore fuel w mbi ts ne at enough in
    let s = small r met in
    let (_, _, le, le') = start-Represents m k r pos (omega arith) (omega arith) in
    (r, q, le, widen_bound w ts r (Heap.start m k r).base le' before)
