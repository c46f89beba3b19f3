-- ===== src/Heap/Tests.antt =====
-- The theorems about src/src/classes/heap.class.h at concrete heaps, and runs of the code.
use shiro.Base.{
  ℕ, ◌+◌, ◌-◌, ◌≤◌, ◌<◌, ◌≡◌, refl, true, false, Option, none, some, List, [], ◌∷◌, ◌++◌, arith,
  inl, inr,
}
use shiro.Heap.{
  Heap, Memory, store, heap_size, header_size, start, start_base, round, alloc, free, fuel,
  find_fit, split, mark_used, mark_free, merge_next, merge_prev, absorb, find_prev, release,
}
use shiro.Heap.Blocks.{Block, Place, Coalesced, first_fit, rejoin, join, freed}
use shiro.Heap.Seg.{header}
use shiro.Heap.Valid.{Represents}
use shiro.Heap.Alloc.{given, alloc-given}
use shiro.Heap.Payloads.{Each, Apart}
use shiro.Heap.Contract.{
  AllocSpec, alloc_refines, alloc_fresh, alloc_huge, free_refines, free-alloc,
}

abbrev blank : Memory
blank x = record { magic = 0; size = 0; used = 0; next = 0 }

-- The kernel ends at 2 MiB.
abbrev kernel_end : ℕ
kernel_end = 0x200000

-- Two blocks: 104 bytes in use, and the rest.
abbrev small : Block
small = record { size = 104; used = true }

abbrev large : Block
large = record { size = heap_size - 136; used = false }

abbrev blocks : List Block
blocks = small ∷ large ∷ []

abbrev heap : Heap
heap = record {
  first = kernel_end;
  base = kernel_end;
  end = kernel_end + heap_size;
  bytes_used = 104;
  bytes_free = heap_size - 136;
  alloc_count = 1;
  free_count = 0;
  ready = true;
  mem =
      store (store blank kernel_end (header small (kernel_end + 120))) (kernel_end + 120)
        (header large 0);
}

heap-Represents : Represents heap blocks
heap-Represents = record {
  ready = refl;
  first = refl;
  pos = omega arith;
  end = refl;
  fits = omega arith;
  chain = (refl, (refl, tt));
  whole = refl;
  used = refl;
  free = refl;
}

-- A boot, an allocation, a second one and the free of the first.
session : ℕ → Option (ℕ × ℕ × ℕ × ℕ)
unfolding start start_base round alloc free fuel find_fit split mark_used mark_free merge_next
    merge_prev absorb find_prev release
session n = elim (alloc (start blank kernel_end 0) n) [
  | none ↦ none
  | some (p, h) ↦ elim (alloc h 8) [
    | none ↦ none
    | some (q, h') ↦ elim (free h' p) [
      | none ↦ none
      | some h'' ↦ some (p, q, h''.bytes_used, h''.bytes_free)
    ]
  ]
]

session_runs : session 100 ≡ some (0x200010, 0x200088, 8, heap_size - 56)
unfolding session
session_runs = refl

alloc_refines_example : AllocSpec heap blocks 100 (first_fit (round 100) blocks)
alloc_refines_example = alloc_refines blocks 100 heap-Represents (inl refl, (inr tt, tt))

free_refines_example :
    (g : Heap) × (free heap (kernel_end + 0 + header_size) ≡ some g)
    × Represents g (rejoin [] (join (freed small) (large ∷ [])))
    × Coalesced (rejoin [] (join (freed small) (large ∷ [])))
free_refines_example =
    free_refines [] small (large ∷ []) heap-Represents (inl refl, (inr tt, tt)) refl

alloc_huge_example :
    (round 0xFFFFFFFF ≡ 0)
    × (q : ℕ) × (g : Heap) × (alloc heap 0xFFFFFFFF ≡ some (q, g))
    × (q ≡ 0x200088)
    × (0 < q)
    × Represents g (
        (small ∷ [])
        ++ (record { size = 0; used = true }
            ∷ record { size = heap_size - 136 - 16; used = false }
            ∷ []))
unfolding first_fit
alloc_huge_example =
    alloc_huge blocks 0xFFFFFFFF (record { before = small ∷ []; here = large; behind = [] })
      heap-Represents (omega arith) (omega arith) refl (omega arith)

abbrev place : Place
place = record { before = small ∷ []; here = large; behind = [] }

alloc_runs : alloc heap 100 ≡ some (0x200088, given heap 104 place)
unfolding first_fit round
alloc_runs = alloc-given 100 blocks heap-Represents

alloc_fresh_example :
    (kernel_end + header_size ≤ 0x200088)
    × (0x200088 + 100 ≤ kernel_end + heap_size)
    × Each (Apart 0x200088 100) ((0x200010, 104) ∷ [])
alloc_fresh_example =
    alloc_fresh blocks 100 0x200088 heap-Represents (omega arith) alloc_runs (omega arith)

free-alloc_example :
    (f : Heap) × (free (given heap 104 place) 0x200088 ≡ some f) × Represents f blocks
free-alloc_example =
    free-alloc blocks 100 0x200088 heap-Represents (inl refl, (inr tt, tt)) alloc_runs (omega arith)
