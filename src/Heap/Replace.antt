-- ===== src/Heap/Replace.antt =====
-- The writes of `Heap::Free` (src/src/classes/heap.class.h): one header is written anew, which marks a
-- block or lets it take in the block behind it.
use shiro.Base.{ℕ, ◌+◌, ◌*◌, ◌≡◌, ap, true, false, List, [], ◌∷◌, ◌++◌, arith, length, add32, sub32}
use shiro.Heap.{Heap, Memory, store, heap_size, header_size, mark_free, absorb}
use shiro.Heap.Blocks.{
  Block, freed, span, used_bytes, free_bytes, span-append, used_bytes-append, free_bytes-append,
  span-eq-bytes,
}
use shiro.Heap.Seg.{header, next_of, Seg, Seg-at, Seg-append, Seg-split, store-before, store-behind}
use shiro.Heap.Valid.{Represents}

-- One header is written: it takes the place of the block `o` and of the blocks `os` behind it.
module _ {h : Heap} (before : List Block) (o : Block) (os : List Block) (nb : Block)
    (behind : List Block) (r : Represents h (before ++ (o ∷ (os ++ behind))))
    (same : span (o ∷ os) ≡ header_size + nb.size) where
  abbrev at : ℕ
  at = h.base + span before

  abbrev new_mem : Memory
  new_mem = store h.mem at (header nb (next_of (at + header_size + nb.size) 0 behind))

  old-Seg : Seg h.mem h.base at before × Seg h.mem at 0 (o ∷ (os ++ behind))
  old-Seg = Seg-split h.mem h.base 0 before (o ∷ (os ++ behind)) r.chain

  rest-Seg : Seg h.mem (at + header_size + nb.size) 0 behind
  rest-Seg =
      Seg-at h.mem 0 behind (omega (arith, same))
        (Seg-split h.mem at 0 (o ∷ os) behind (old-Seg).1).1

  new-Seg : Seg new_mem h.base 0 (before ++ (nb ∷ behind))
  new-Seg =
      Seg-append new_mem h.base 0 before (nb ∷ behind)
        (store-behind h.mem at _ h.base at before (omega arith) (old-Seg).0)
        (
          ground arith,
          store-before h.mem at _ (at + header_size + nb.size) 0 behind (omega arith) rest-Seg,
        )

  replace-Represents :
      (u f c : ℕ)
      → u ≡ used_bytes (before ++ (nb ∷ behind))
      → f ≡ free_bytes (before ++ (nb ∷ behind))
      → Represents
          (record h { mem = new_mem; bytes_used = u; bytes_free = f; free_count = c })
          (before ++ (nb ∷ behind))
  replace-Represents u f c eu ef = record {
    ready = r.ready;
    first = r.first;
    pos = r.pos;
    end = r.end;
    fits = r.fits;
    chain = new-Seg;
    whole = omega (
      arith,
      r.whole,
      same,
      span-append before (nb ∷ behind),
      span-append before (o ∷ (os ++ behind)),
      span-append os behind,
    );
    used = eu;
    free = ef;
  }

-- The bytes of the payloads fit the region.
bytes_le :
    {h : Heap} (bs : List Block)
    → Represents h bs
    → used_bytes bs + free_bytes bs + header_size * length bs ≡ heap_size
bytes_le bs r = omega (arith, r.whole, span-eq-bytes bs)

one : (b : Block) → span (b ∷ []) ≡ header_size + b.size
one b = omega arith

module _ {h : Heap} (before : List Block) (b : Block) (behind : List Block)
    (r : Represents h (before ++ (b ∷ behind))) where
  pub mark_free-Represents :
      b.used ≡ true → Represents (mark_free h (h.base + span before)) (before ++ (freed b ∷ behind))
  unfolding mark_free
  mark_free-Represents used =
      let here = (old-Seg before b [] (freed b) behind r (one b)).1.0 in
      let e : mark_free h (h.base + span before) ≡ record h {
        mem = new_mem before b [] (freed b) behind r (one b);
        bytes_used = sub32 h.bytes_used b.size;
        bytes_free = add32 h.bytes_free b.size;
        free_count = add32 h.free_count 1;
      } =
        ground arith in
      rw e (
        replace-Represents before b [] (freed b) behind r (one b) _ _ _
          (ground (
            arith,
            bytes_le (before ++ (b ∷ behind)) r,
            used_bytes-append before (b ∷ behind),
            used_bytes-append before (freed b ∷ behind),
          ))
          (ground (
            arith,
            bytes_le (before ++ (b ∷ behind)) r,
            used_bytes-append before (b ∷ behind),
            free_bytes-append before (b ∷ behind),
            free_bytes-append before (freed b ∷ behind),
          )))

abbrev pub joined : Block → Block → Block
joined b c = record { size = b.size + header_size + c.size; used = false }

two : (b c : Block) → span (b ∷ c ∷ []) ≡ header_size + (joined b c).size
two b c = omega arith

module _ {h : Heap} (before : List Block) (b c : Block) (behind : List Block)
    (r : Represents h (before ++ (b ∷ c ∷ behind))) (free_b : b.used ≡ false)
    (free_c : c.used ≡ false) where
  pub absorb-Represents :
      Represents
        (absorb h (h.base + span before) (h.base + span before + header_size + b.size))
        (before ++ (joined b c ∷ behind))
  unfolding absorb
  absorb-Represents =
      let s = (old-Seg before b (c ∷ []) (joined b c) behind r (two b c)).1 in
      let room = bytes_le (before ++ (b ∷ c ∷ behind)) r in
      let u = used_bytes-append before (b ∷ c ∷ behind) in
      let f = free_bytes-append before (b ∷ c ∷ behind) in
      let move : next_of (h.base + span before + header_size + b.size + header_size + c.size) 0
            behind
          ≡ next_of (h.base + span before + header_size + (joined b c).size) 0 behind =
        ap (λ x. next_of x 0 behind) (omega arith) in
      let e : absorb h (h.base + span before) (h.base + span before + header_size + b.size)
          ≡ record h {
            mem = new_mem before b (c ∷ []) (joined b c) behind r (two b c);
            bytes_used = h.bytes_used;
            bytes_free = add32 h.bytes_free header_size;
            free_count = h.free_count;
          } =
        ground (arith, s.0, s.1.0, room, u, f, move) in
      rw e (
        replace-Represents before b (c ∷ []) (joined b c) behind r (two b c) _ _ _
          (ground (arith, u, used_bytes-append before (joined b c ∷ behind)))
          (ground (arith, room, u, f, free_bytes-append before (joined b c ∷ behind))))
