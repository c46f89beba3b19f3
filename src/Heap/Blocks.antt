-- ===== src/Heap/Blocks.antt =====
-- The abstract view of the heap of src/src/classes/heap.class.h: the blocks in physical order.
use shiro.Base.{
  ℕ, ◌+◌, ◌-◌, ◌*◌, ◌≡◌, Bool, true, false, Option, none, some, List, [], ◌∷◌, ◌++◌, ◌||◌, ltb,
  if◌then◌else◌, arith, length, ◌⊎◌,
}
use shiro.Heap.{header_size}

pub record Block : Type 0 where
  pub size : ℕ
  pub used : Bool

-- The bytes that the blocks take up, headers included.
abbrev pub span : List Block → ℕ
span [] = 0
span (b ∷ bs) = header_size + b.size + span bs

abbrev pub used_bytes : List Block → ℕ
used_bytes [] = 0
used_bytes (b ∷ bs) = (if b.used then b.size else 0) + used_bytes bs

abbrev pub free_bytes : List Block → ℕ
free_bytes [] = 0
free_bytes (b ∷ bs) = (if b.used then 0 else b.size) + free_bytes bs

-- The address and size of the payload of each used block, the first header at `a`.
abbrev pub payloads : ℕ → List Block → List (ℕ × ℕ)
payloads a [] = []
payloads a (b ∷ bs) =
    let rest = payloads (a + header_size + b.size) bs in
    if b.used then (a + header_size, b.size) ∷ rest else rest

abbrev pub HeadUsed : List Block → Type 0
HeadUsed [] = Unit
HeadUsed (b ∷ bs) = b.used ≡ true

-- No two neighbours are both free.
abbrev pub Coalesced : List Block → Type 0
Coalesced [] = Unit
Coalesced (b ∷ bs) = ((b.used ≡ true) ⊎ HeadUsed bs) × Coalesced bs

-- A block with what stands before and behind it.
pub record Place : Type 0 where
  pub before : List Block
  pub here : Block
  pub behind : List Block

-- The first free block of at least `n` bytes.
unfoldable pub first_fit : ℕ → List Block → Option Place
first_fit n [] = none
first_fit n (b ∷ bs) =
    if b.used || ltb b.size n
    then elim (first_fit n bs) [ none ↦ none | some p ↦ some (record p { before = b ∷ p.before }) ]
    else some (record { before = []; here = b; behind = bs })

-- What becomes of a free block that is given out for `n` bytes.
abbrev pub carve : ℕ → Block → List Block
carve n b =
    if ltb (header_size + 16) (b.size - n)
    then record { size = n; used = true }
      ∷ record { size = b.size - n - header_size; used = false }
      ∷ []
    else record { size = b.size; used = true } ∷ []

-- `cons` for a block that may be free: a free block takes in a free neighbour behind it.
abbrev pub join : Block → List Block → List Block
join b [] = b ∷ []
join b (c ∷ bs) =
    if b.used || c.used
    then b ∷ c ∷ bs
    else record { size = b.size + header_size + c.size; used = false } ∷ bs

-- The blocks `before` and then `bs`, of which the first is free: the last of `before` takes it in
-- if it is free too.
abbrev pub rejoin : List Block → List Block → List Block
rejoin [] bs = bs
rejoin (b ∷ []) bs = join b bs
rejoin (b ∷ c ∷ before) bs = b ∷ rejoin (c ∷ before) bs

abbrev pub freed : Block → Block
freed b = record { size = b.size; used = false }

pub span-append : (xs ys : List Block) → span (xs ++ ys) ≡ span xs + span ys
span-append [] ys = omega arith
span-append (x ∷ xs) ys = omega (arith, span-append xs ys)

pub used_bytes-append : (xs ys : List Block) → used_bytes (xs ++ ys) ≡ used_bytes xs + used_bytes ys
used_bytes-append [] ys = omega arith
used_bytes-append (x ∷ xs) ys = omega (arith, used_bytes-append xs ys)

pub free_bytes-append : (xs ys : List Block) → free_bytes (xs ++ ys) ≡ free_bytes xs + free_bytes ys
free_bytes-append [] ys = omega arith
free_bytes-append (x ∷ xs) ys = omega (arith, free_bytes-append xs ys)

-- Every byte of the region is a header's, a used payload's or a free payload's.
pub span-eq-bytes :
    (bs : List Block) → span bs ≡ header_size * length bs + used_bytes bs + free_bytes bs
span-eq-bytes [] = omega arith
span-eq-bytes (b ∷ bs) = ground (arith, span-eq-bytes bs)
