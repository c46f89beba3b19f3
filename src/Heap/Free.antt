-- ===== src/Heap/Free.antt =====
-- `Heap::Free` of src/src/classes/heap.class.h against the list of blocks.
use shiro.Base.{
  ℕ, ◌+◌, ◌<◌, ◌≡◌, ◌≢◌, refl, ◌∙◌, true, false, some, List, ◌∷◌, ◌++◌, arith, u32_mod, ◌==◌, sub32,
  ◌⊎◌,
}
use mathlib.Core.Path.{subst}
use shiro.Heap.{Heap, heap_magic, header_size, mark_free, merge_next, merge_prev, release, free}
use shiro.Heap.Blocks.{Block, freed, span, join, rejoin, span-append}
use shiro.Heap.Seg.{Seg-split, last_of}
use shiro.Heap.Valid.{Represents}
use shiro.Heap.Replace.{mark_free-Represents}
use shiro.Heap.Merge.{
  merge_next-Represents, join-cons, relist, backward, base-merge_next, base-mark_free,
  base-merge_prev,
}

module _ {h : Heap} (before : List Block) (b : Block) (behind : List Block)
    (r : Represents h (before ++ (b ∷ behind))) (used : b.used ≡ true) where
  -- After the mark and the forward coalesce.
  forward :
      Represents
        (merge_next (mark_free h (h.base + span before)) (h.base + span before))
        (before ++ join (freed b) behind)
  forward =
      let r' = mark_free-Represents before b behind r used in
      subst
        (λ x.
          Represents (merge_next (mark_free h (h.base + span before)) (x + span before))
            (before ++ join (freed b) behind))
        (base-mark_free h (h.base + span before))
        (merge_next-Represents before (freed b) behind r' refl)

  -- `Heap::Free` of a block that is in use runs to its end, and merges it with its neighbours.
  pub release-rejoin :
      (g : Heap) × (release h (h.base + span before) ≡ some g)
      × Represents g (rejoin before (join (freed b) behind))
      × (g.base ≡ h.base)
  unfolding release
  release-rejoin =
      let a = h.base + span before in
      let m = merge_next (mark_free h a) a in
      let mb : m.base ≡ h.base = base-merge_next (mark_free h a) a ∙ base-mark_free h a in
      let (x, rest, e, fx) = join-cons (freed b) behind refl in
      let (found, done) = backward before x rest (relist before e forward) fx mb in
      let prev = last_of h.base 0 before in
      (merge_prev m prev a, rw (found, release), rw e done, base-merge_prev m prev a ∙ mb)

  -- `Heap::Free` of the pointer to its payload.
  pub free-release : free h (h.base + span before + header_size) ≡ release h (h.base + span before)
  unfolding free
  free-release =
      let s = (Seg-split h.mem h.base 0 before (b ∷ behind) r.chain).1.0 in
      let small : h.base + span before + header_size < u32_mod =
        omega (arith, r.whole, r.fits, span-append before (b ∷ behind)) in
      let e : sub32 (h.base + span before + header_size) header_size ≡ h.base + span before =
        omega arith in
      let ne : (h.base + span before + header_size == 0) ≡ false = ground arith in
      let m : ((h.mem (h.base + span before)).magic == heap_magic) ≡ true = ground arith in
      let u : ((h.mem (h.base + span before)).used == 0) ≡ false = ground arith in
      rw (r.ready, ne, e, m, u)

-- `Heap::Free` before `Start`, of NULL, of a pointer whose header lacks the magic number, or of a
-- block that is free already changes nothing.
pub free_refused :
    (h : Heap) (p : ℕ)
    → (h.ready ≡ false)
      ⊎ (p ≡ 0)
      ⊎ ((h.mem (sub32 p header_size)).magic ≢ heap_magic)
      ⊎ ((h.mem (sub32 p header_size)).used ≡ 0)
    → free h p ≡ some h
unfolding free
free_refused h p why = ground arith
