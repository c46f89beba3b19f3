-- ===== src/Heap/Carve.antt =====
-- The split of a block in `Heap::Alloc` of src/src/classes/heap.class.h, seen in memory.
use shiro.Base.{
  ℕ, ◌+◌, ◌-◌, ◌≤◌, ◌<◌, ◌≡◌, refl, sym, ap, true, false, List, ◌∷◌, ◌++◌, arith, u32_mod, ltb,
  Bool-cases, inl, inr, sub32, ◌∙◌, ltb→lt,
}
use mathlib.Core.Path.{subst}
use shiro.Heap.{Heap, Memory, store, heap_size, header_size, split, mark_used}
use shiro.Heap.Blocks.{Block, span, used_bytes, free_bytes, carve}
use shiro.Heap.Seg.{header, next_of, Seg, Seg-at, store-before, store-behind}

-- The memory after a block at `a` is given out for `n` bytes.
module _ (h : Heap) (n a : ℕ) (b : Block) (behind : List Block) where
  module _ (s : Seg h.mem a 0 (b ∷ behind)) (free : b.used ≡ false) (fits : n ≤ b.size)
      (pos : 0 < a) (low : a + header_size + b.size < u32_mod) where
    abbrev tail : ℕ
    tail = a + header_size + n

    abbrev rest : Block
    rest = record { size = b.size - n - header_size; used = false }

    split_wide :
        ltb (header_size + 16) (b.size - n) ≡ true
        → split h a n ≡ record h {
          mem =
              store
                (store h.mem tail (header rest (next_of (a + header_size + b.size) 0 behind)))
                a
                (header (record { size = n; used = false }) tail);
          bytes_free = sub32 h.bytes_free header_size;
        }
    unfolding split
    split_wide wide = ground arith

    split_tight : ltb (header_size + 16) (b.size - n) ≡ false → split h a n ≡ h
    unfolding split
    split_tight tight = ground arith

    -- The headers that are written: of the block itself, and of what is left behind it.
    abbrev wide_mem : Memory
    wide_mem =
        store
          (store (store h.mem tail (header rest (next_of (a + header_size + b.size) 0 behind))) a
            (header (record { size = n; used = false }) tail))
          a (header (record { size = n; used = true }) tail)

    abbrev tight_mem : Memory
    tight_mem = store h.mem a (
        header (record { size = b.size; used = true })
          (next_of (a + header_size + b.size) 0 behind))

    mem-wide :
        ltb (header_size + 16) (b.size - n) ≡ true → (mark_used (split h a n) a).mem ≡ wide_mem
    unfolding mark_used
    mem-wide wide = rw (split_wide wide) (ground arith)

    mem-tight :
        ltb (header_size + 16) (b.size - n) ≡ false → (mark_used (split h a n) a).mem ≡ tight_mem
    unfolding mark_used
    mem-tight tight = rw (split_tight tight) (ground arith)

    Seg-wide :
        header_size + 16 < b.size - n
        → Seg wide_mem a 0 (record { size = n; used = true } ∷ rest ∷ behind)
    Seg-wide wide =
        let e : a + header_size + b.size ≡ tail + header_size + rest.size = omega arith in
        let there : Seg h.mem (tail + header_size + rest.size) 0 behind =
          Seg-at h.mem 0 behind e s.1 in
        (
          ground arith,
          (
            rw (← e) (ground arith),
            store-before _ a _ _ 0 behind (omega arith) (
                store-before _ a _ _ 0 behind (omega arith)
                  (store-before h.mem tail _ _ 0 behind (omega arith) there)),
          ),
        )

    Seg-tight : Seg tight_mem a 0 (record { size = b.size; used = true } ∷ behind)
    Seg-tight = (ground arith, store-before h.mem a _ _ 0 behind (omega arith) s.1)

    pub carve_at : Seg (mark_used (split h a n) a).mem a 0 (carve n b ++ behind)
    carve_at = elim (Bool-cases (ltb (header_size + 16) (b.size - n))) [
      | inl wide ↦ rw wide (
          subst (λ m. Seg m a 0 (record { size = n; used = true } ∷ rest ∷ behind))
            (sym (mem-wide wide)) (Seg-wide (ltb→lt _ _ wide)))
      | inr tight ↦ rw tight (
          subst (λ m. Seg m a 0 (record { size = b.size; used = true } ∷ behind))
            (sym (mem-tight tight)) Seg-tight)
    ]

    -- What stands in front of the block is left as it was.
    pub spare_before :
        (a' : ℕ) (before : List Block)
        → a' + span before ≡ a
        → Seg h.mem a' a before
        → Seg (mark_used (split h a n) a).mem a' a before
    spare_before a' before e t = elim (Bool-cases (ltb (header_size + 16) (b.size - n))) [
      | inl wide ↦
          subst (λ m. Seg m a' a before) (sym (mem-wide wide))
            (store-behind _ a _ _ a before (omega arith) (
              store-behind _ a _ _ a before (omega arith)
                (store-behind h.mem tail _ _ a before (omega arith) t)))
      | inr tight ↦
          subst (λ m. Seg m a' a before) (sym (mem-tight tight))
            (store-behind h.mem a _ _ a before (omega arith) t)
    ]

    -- The counters after the block is given out.
    pub counters :
        (u f : ℕ)
        → h.bytes_used ≡ u
        → h.bytes_free ≡ f + b.size
        → u + f + b.size ≤ heap_size
        → ((mark_used (split h a n) a).bytes_used ≡ u + used_bytes (carve n b))
          × ((mark_used (split h a n) a).bytes_free ≡ f + free_bytes (carve n b))
    unfolding mark_used
    counters u f eu ef le = elim (Bool-cases (ltb (header_size + 16) (b.size - n))) [
      | inl wide ↦ rw (split_wide wide) (ground arith)
      | inr tight ↦ rw (split_tight tight) (ground arith)
    ]

    -- The other members keep their values.
    pub kept :
        ((mark_used (split h a n) a).ready ≡ h.ready)
        × ((mark_used (split h a n) a).first ≡ h.first)
        × ((mark_used (split h a n) a).base ≡ h.base)
        × ((mark_used (split h a n) a).end ≡ h.end)
    unfolding mark_used
    kept = elim (Bool-cases (ltb (header_size + 16) (b.size - n))) [
      | inl wide ↦ rw (split_wide wide) (refl, refl, refl, refl)
      | inr tight ↦ rw (split_tight tight) (refl, refl, refl, refl)
    ]

    pub mem_away : (x : ℕ) → x < a → (mark_used (split h a n) a).mem x ≡ h.mem x
    mem_away x lt = elim (Bool-cases (ltb (header_size + 16) (b.size - n))) [
      | inl wide ↦ ap (λ m. m x) (mem-wide wide) ∙ ground arith
      | inr tight ↦ ap (λ m. m x) (mem-tight tight) ∙ ground arith
    ]
