-- ===== src/Heap/Coalesce.antt =====
-- `Heap::Alloc` and `Heap::Free` (src/src/classes/heap.class.h) leave no two free neighbours.
use shiro.Base.{
  ℕ, ◌+◌, ◌-◌, ◌≤◌, ◌≡◌, refl, ap, ◌∙◌, true, false, List, [], ◌∷◌, ◌++◌, arith, ltb, if◌then◌else◌,
  Bool-cases, inl, inr,
}
use shiro.Heap.{header_size}
use shiro.Heap.Blocks.{Block, HeadUsed, Coalesced, carve, join, rejoin, freed}

pub Coalesced-carve :
    (n : ℕ) (before : List Block) (b : Block) (behind : List Block)
    → b.used ≡ false
    → Coalesced (before ++ (b ∷ behind))
    → Coalesced (before ++ (carve n b ++ behind))
Coalesced-carve n [] b behind free c = elim (Bool-cases (ltb (header_size + 16) (b.size - n))) [
  | inl wide ↦ rw wide (ground arith)
  | inr tight ↦ rw tight (ground arith)
]
Coalesced-carve n (x ∷ []) b behind free c = (ground arith, Coalesced-carve n [] b behind free c.1)
Coalesced-carve n (x ∷ y ∷ before) b behind free c =
    (c.0, Coalesced-carve n (y ∷ before) b behind free c.1)

Coalesced-join : (b : Block) (bs : List Block) → Coalesced bs → Coalesced (join b bs)
Coalesced-join b [] c = ground arith
Coalesced-join b (x ∷ bs) c = ground arith

HeadUsed-join : (b : Block) (bs : List Block) → b.used ≡ true → HeadUsed (join b bs)
HeadUsed-join b [] used = used
HeadUsed-join b (c ∷ bs) used = ground arith

-- A list whose first block may be free stands behind used blocks only, or the last one joins it.
pub Coalesced-rejoin :
    (before : List Block) (b : Block) (behind : List Block)
    → b.used ≡ true
    → Coalesced (before ++ (b ∷ behind))
    → Coalesced (rejoin before (join (freed b) behind))
Coalesced-rejoin [] b behind used c = Coalesced-join (freed b) behind c.1
Coalesced-rejoin (x ∷ []) b behind used c =
    Coalesced-join x (join (freed b) behind) (Coalesced-join (freed b) behind c.1.1)
Coalesced-rejoin (x ∷ y ∷ []) b behind used c =
    let rest = Coalesced-rejoin (y ∷ []) b behind used c.1 in
    elim c.0 [
      | inl busy ↦ (inl busy, rest)
      | inr busy ↦ (inr (HeadUsed-join y (join (freed b) behind) busy), rest)
    ]
Coalesced-rejoin (x ∷ y ∷ z ∷ before) b behind used c =
    (c.0, Coalesced-rejoin (y ∷ z ∷ before) b behind used c.1)

rejoin_used :
    (before : List Block) (b : Block) (behind : List Block)
    → b.used ≡ false
    → Coalesced (before ++ (b ∷ behind))
    → rejoin before (b ∷ behind) ≡ before ++ (b ∷ behind)
rejoin_used [] b behind free c = refl
rejoin_used (x ∷ []) b behind free c = ground arith
rejoin_used (x ∷ y ∷ before) b behind free c =
    ap (λ l. x ∷ l) (rejoin_used (y ∷ before) b behind free c.1)

Coalesced-behind :
    (before : List Block) (b : Block) (behind : List Block)
    → b.used ≡ false
    → Coalesced (before ++ (b ∷ behind))
    → HeadUsed behind
Coalesced-behind [] b behind free c = ground arith
Coalesced-behind (x ∷ before) b behind free c = Coalesced-behind before b behind free c.1

join_used : (b : Block) (bs : List Block) → HeadUsed bs → join b bs ≡ b ∷ bs
join_used b [] h = refl
join_used b (c ∷ bs) h = ground arith

-- The block that is given out, and what is left of the old one behind it.
abbrev pub part : ℕ → Block → Block
part n b =
    if ltb (header_size + 16) (b.size - n)
    then record { size = n; used = true }
    else record { size = b.size; used = true }

abbrev pub rest : ℕ → Block → List Block
rest n b =
    if ltb (header_size + 16) (b.size - n)
    then record { size = b.size - n - header_size; used = false } ∷ []
    else []

pub carve-eq-part : (n : ℕ) (b : Block) → carve n b ≡ part n b ∷ rest n b
carve-eq-part n b = elim (Bool-cases (ltb (header_size + 16) (b.size - n))) [
  | inl wide ↦ rw wide
  | inr tight ↦ rw tight
]

join-part :
    (n : ℕ) (b : Block) (behind : List Block)
    → b.used ≡ false
    → n ≤ b.size
    → HeadUsed behind
    → join (freed (part n b)) (rest n b ++ behind) ≡ b ∷ behind
join-part n b behind free fits h = elim (Bool-cases (ltb (header_size + 16) (b.size - n))) [
  | inl wide ↦ rw wide (ground arith)
  | inr tight ↦ rw tight (join_used (freed b) behind h ∙ ground arith)
]

-- Giving a block out and freeing it at once restores the blocks.
pub rejoin-part :
    (n : ℕ) (before : List Block) (b : Block) (behind : List Block)
    → b.used ≡ false
    → n ≤ b.size
    → Coalesced (before ++ (b ∷ behind))
    → rejoin before (join (freed (part n b)) (rest n b ++ behind)) ≡ before ++ (b ∷ behind)
rejoin-part n before b behind free fits c =
    rw (join-part n b behind free fits (Coalesced-behind before b behind free c))
      (rejoin_used before b behind free c)
