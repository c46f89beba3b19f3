-- ===== src/Heap/Alloc.antt =====
-- `Heap::Alloc` of src/src/classes/heap.class.h against the list of blocks.
use shiro.Base.{
  ℕ, ◌+◌, ◌-◌, ◌≤◌, ◌<◌, ◌≡◌, refl, sym, ap, true, false, none, some, List, [], ◌∷◌, ◌++◌, arith,
  u32_mod, ltb, Option-cases, ◌||◌, Bool-cases, inl, inr, ◌∙◌, ◌⊎◌,
}
use mathlib.Core.Path.{subst}
use shiro.Heap.{Heap, heap_size, header_size, fuel, round, split, mark_used, alloc}
use shiro.Heap.Blocks.{
  Block, Place, span, used_bytes, free_bytes, first_fit, span-eq-bytes, carve, span-append,
  used_bytes-append, free_bytes-append,
}
use shiro.Heap.Seg.{next_of, Seg, Seg-append, Seg-split, find_fit-first_fit}
use shiro.Heap.Carve.{carve_at, spare_before, counters, kept}
use shiro.Heap.Valid.{Represents, length-lt-fuel, next_of-first}

-- None of the blocks could be given out for `n` bytes.
abbrev pub Skipped : ℕ → List Block → Type 0
Skipped n [] = Unit
Skipped n (b ∷ bs) = ((b.used ≡ true) ⊎ (b.size < n)) × Skipped n bs

pub first_fit-place :
    (n : ℕ) (bs : List Block) (p : Place)
    → first_fit n bs ≡ some p
    → (bs ≡ p.before ++ (p.here ∷ p.behind))
      × (p.here.used ≡ false)
      × (n ≤ p.here.size)
      × Skipped n p.before
unfolding first_fit
first_fit-place n [] p e = cc
first_fit-place n (b ∷ bs) p e = elim (Bool-cases (b.used || ltb b.size n)) [
  | inl skip ↦ elim (Option-cases (first_fit n bs)) [
    | inl none' ↦ ground arith
    | inr (q, found) ↦ ground (arith, first_fit-place n bs q found)
  ]
  | inr fits ↦ ground arith
]

pub span-carve : (n : ℕ) (b : Block) → n ≤ b.size → span (carve n b) ≡ header_size + b.size
span-carve n b fits = ground arith

next_of-carve : (n a : ℕ) (b : Block) (behind : List Block) → next_of a 0 (carve n b ++ behind) ≡ a
next_of-carve n a b behind = elim (Bool-cases (ltb (header_size + 16) (b.size - n))) [
  | inl wide ↦ rw wide
  | inr tight ↦ rw tight
]

-- The heap after `Heap::Alloc` gave out the block at `p`.
abbrev pub given : Heap → ℕ → Place → Heap
given h n p = let a = h.base + span p.before in mark_used (split h a n) a

module _ {h : Heap} (n : ℕ) (p : Place) (r : Represents h (p.before ++ (p.here ∷ p.behind))) where
  room :
      (span p.before + (header_size + p.here.size + span p.behind) ≡ heap_size)
      × (used_bytes p.before
            + used_bytes p.behind
            + (free_bytes p.before + free_bytes p.behind)
            + p.here.size
          ≤ heap_size)
  room = ground (
    arith,
    span-append p.before (p.here ∷ p.behind),
    span-eq-bytes p.before,
    span-eq-bytes p.behind,
  )

  pub given-Represents :
      p.here.used ≡ false
      → n ≤ p.here.size
      → Represents (given h n p) (p.before ++ (carve n p.here ++ p.behind))
  given-Represents free fits =
      let a = h.base + span p.before in
      let (front, back) = Seg-split h.mem h.base 0 p.before (p.here ∷ p.behind) r.chain in
      let pos : 0 < a = omega (arith, r.pos) in
      let low : a + header_size + p.here.size < u32_mod = omega (arith, r.fits, room) in
      let keep = kept h n a p.here p.behind back free fits pos low in
      let count =
        counters h n a p.here p.behind back free fits pos low
          (used_bytes p.before + used_bytes p.behind) (free_bytes p.before + free_bytes p.behind)
          (ground (arith, used_bytes-append p.before (p.here ∷ p.behind)))
          (ground (arith, free_bytes-append p.before (p.here ∷ p.behind))) (room).1 in
      record {
        ready = keep.0 ∙ r.ready;
        first = keep.1 ∙ r.first ∙ sym keep.2;
        pos = rw keep.2 r.pos;
        end = keep.3 ∙ r.end ∙ ap (λ x. x + heap_size) (sym keep.2);
        fits = rw keep.2 r.fits;
        chain =
            subst (λ x. Seg (given h n p).mem x 0 (p.before ++ (carve n p.here ++ p.behind)))
              (sym keep.2)
              (Seg-append (given h n p).mem h.base 0 p.before (carve n p.here ++ p.behind)
                (rw (next_of-carve n a p.here p.behind) (
                  spare_before h n a p.here p.behind back free fits pos low h.base p.before refl
                    front))
                (carve_at h n a p.here p.behind back free fits pos low));
        whole = omega (
          arith,
          room,
          span-append p.before (carve n p.here ++ p.behind),
          span-append (carve n p.here) p.behind,
          span-carve n p.here fits,
        );
        used =
            count.0
            ∙ omega (
              arith,
              used_bytes-append p.before (carve n p.here ++ p.behind),
              used_bytes-append (carve n p.here) p.behind,
            );
        free =
            count.1
            ∙ omega (
              arith,
              free_bytes-append p.before (carve n p.here ++ p.behind),
              free_bytes-append (carve n p.here) p.behind,
            );
      }

  pub base-given : p.here.used ≡ false → n ≤ p.here.size → (given h n p).base ≡ h.base
  base-given free fits =
      let back = (Seg-split h.mem h.base 0 p.before (p.here ∷ p.behind) r.chain).1 in
      (kept h n (h.base + span p.before) p.here p.behind back free fits (omega (arith, r.pos))
        (omega (arith, r.fits, room))).2

pub alloc-given :
    {h : Heap} (n : ℕ) (bs : List Block)
    → Represents h bs
    → alloc h n ≡ elim (first_fit (round n) bs) [
      | none ↦ some (0, h)
      | some p ↦ some (h.base + span p.before + header_size, given h (round n) p)
    ]
unfolding alloc
alloc-given {h} n bs r =
    let found =
      find_fit-first_fit h.mem fuel (round n) h.base bs r.chain r.pos (length-lt-fuel bs r) in
    rw (r.ready, ← next_of-first bs r, found)
      (elim (Option-cases (first_fit (round n) bs)) [
        | inl e ↦ rw e
        | inr (p, e) ↦ rw e (
            ground
              (arith, first_fit-place (round n) bs p e, span-append p.before (p.here ∷ p.behind)))
      ])
