-- ===== src/Pmm/Tests.antt =====
-- Runs of the allocator of src/src/classes/pmm.class.h, and concrete inputs to its theorems.
use shiro.Base.{
  ℕ, ◌≡◌, refl, sym, true, false, ◌||◌, ◌⊎◌, ◌*◌, ◌-◌, ◌<◌, [], ◌∷◌, some, ◌==◌, if◌then◌else◌,
  arith,
}
use shiro.Tags.{Words}
use shiro.Pmm.{
  Pmm, max_pages, page_size, is_used, set_used, set_free, find_bit, find_page, alloc_page,
  free_page, start,
}
use shiro.Pmm.Ranges.{Counts}
use shiro.Pmm.Boot.{none_free, all_used, Booted, start-Booted}
use shiro.Pmm.Alloc.{
  AsBefore, given, returned, returned-Counts, alloc_page_lowest, free_page-alloc_page,
}

-- A chain of a memory map with one usable entry of 2 MiB from 1 MiB on, and an end tag.
abbrev info : Words
info a =
    if a == 0x1008
    then 6
    else if a == 0x100C
    then 40
    else if a == 0x1010
    then 24
    else if a == 0x1018
    then 0x100000
    else if a == 0x1020
    then 0x200000
    else if a == 0x1028
    then 1
    else 0

start-Booted_example :
    (s : Pmm) × (start 5 info 0x1000 0x100000 0x180000 ≡ some s)
    × Booted info (0x1008 ∷ []) 0x100000 0x180000 s
start-Booted_example =
    start-Booted 5 info 0x1000 0x100000 0x180000 (0x1008 ∷ []) (omega arith)
      (refl, omega arith, refl) (omega arith) ((λ e. (omega arith, (omega arith, tt))), tt)
      (omega arith) (omega arith)

-- Every page is used, one of them by `AllocPage`.
abbrev all_taken : Pmm
all_taken = record {
  bitmap = λ i. 0xFF;
  total_pages = max_pages;
  free_pages = 0;
  used_pages = 1;
  reserved_pages = max_pages - 1;
  ready = true;
}

all_taken-Counts : Counts all_taken
all_taken-Counts = record {
  bytes = λ i. omega arith;
  free = sym (none_free max_pages);
  total = refl;
}

abbrev one_free : Pmm
one_free = returned all_taken 300

one_free-Counts : Counts one_free
one_free-Counts =
    returned-Counts all_taken 300 all_taken-Counts (omega arith) (all_used 300) (omega arith)

one_free-given : alloc_page one_free ≡ (300 * page_size, given one_free 300)
unfolding alloc_page find_page find_bit set_free set_used is_used
one_free-given = refl

alloc_page_lowest_example :
    (((q : ℕ) → q < max_pages → is_used one_free.bitmap q ≡ true)
      × (alloc_page one_free ≡ (0, one_free)))
    ⊎ ((p : ℕ) × (p < max_pages)
        × (is_used one_free.bitmap p ≡ false)
        × ((q : ℕ) → q < p → is_used one_free.bitmap q ≡ true)
        × (alloc_page one_free ≡ (p * page_size, given one_free p))
        × ((q : ℕ) → is_used (given one_free p).bitmap q ≡ ((q == p) || is_used one_free.bitmap q))
        × Counts (given one_free p))
alloc_page_lowest_example = alloc_page_lowest one_free refl one_free-Counts

free_page-alloc_page_example : AsBefore one_free (free_page (given one_free 300) (300 * page_size))
free_page-alloc_page_example =
    free_page-alloc_page one_free (given one_free 300) (300 * page_size) refl one_free-Counts
      one_free-given (omega arith)
