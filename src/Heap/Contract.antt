-- ===== src/Heap/Contract.antt =====
-- What `System::Heap` (src/src/classes/heap.class.h) promises its clients.
use shiro.Base.{
  ℕ, ◌+◌, ◌-◌, ◌%◌, ◌≤◌, ◌<◌, ◌≡◌, ◌≢◌, refl, sym, ap, ◌∙◌, true, false, Option, none, some, List,
  [], ◌∷◌, ◌++◌, arith, u32_mod, Option-cases, inl, inr,
}
use mathlib.Core.Path.{subst}
use shiro.Heap.{Heap, header_size, round, alloc, free}
use shiro.Heap.Blocks.{
  Block, Place, Coalesced, first_fit, carve, span, payloads, rejoin, join, freed, span-append,
}
use shiro.Heap.Valid.{Represents}
use shiro.Heap.Alloc.{given, base-given, given-Represents, alloc-given, first_fit-place}
use shiro.Heap.Free.{release-rejoin, free-release}
use shiro.Heap.Coalesce.{Coalesced-carve, Coalesced-rejoin, carve-eq-part, part, rest, rejoin-part}
use shiro.Heap.Payloads.{Each, Apart, Each-append, payloads-append, Each-before, Each-behind}

-- `Heap::Round` gives the next multiple of 8, at least 8, up to 7 bytes below 4 GiB.
pub round_up :
    (n : ℕ)
    → n ≤ u32_mod - 8
    → (n ≤ round n) × (8 ≤ round n) × (round n ≤ n + 8) × (round n % 8 ≡ 0)
unfolding round
round_up n h = ground arith

-- For the last 7 sizes below 4 GiB the sum wraps, and `Heap::Round` gives 0.
pub round_wraps : (n : ℕ) → u32_mod - 8 < n → n < u32_mod → round n ≡ 0
unfolding round
round_wraps n lo hi = ground arith

-- The contract of `Heap::Alloc` for what the first-fit search over the blocks finds.
abbrev pub AllocSpec : Heap → List Block → ℕ → Option Place → Type 0
AllocSpec h bs n none = alloc h n ≡ some (0, h)
AllocSpec h bs n (some p) =
    (g : Heap) × (alloc h n ≡ some (h.base + span p.before + header_size, g))
    × Represents g (p.before ++ (carve (round n) p.here ++ p.behind))
    × Coalesced (p.before ++ (carve (round n) p.here ++ p.behind))
    × (g.base ≡ h.base)

alloc_refines_at :
    {h : Heap} (bs : List Block) (n : ℕ) (o : Option Place)
    → Represents h bs
    → Coalesced bs
    → first_fit (round n) bs ≡ o
    → AllocSpec h bs n o
alloc_refines_at bs n none r c e = alloc-given n bs r ∙ rw e
alloc_refines_at {h} bs n (some p) r c e =
    let (list, free, fits, skipped) = first_fit-place (round n) bs p e in
    let r' : Represents h (p.before ++ (p.here ∷ p.behind)) = subst (Represents h) list r in
    (
      given h (round n) p,
      alloc-given n bs r ∙ rw e,
      given-Represents (round n) p r' free fits,
      Coalesced-carve (round n) p.before p.here p.behind free (subst Coalesced list c),
      base-given (round n) p r' free fits,
    )

-- On a well-formed heap without two free neighbours `Heap::Alloc` runs to its end. It gives out
-- the first free block of at least the rounded size, split if the rest can hold a block, and the
-- heap stays well formed with no two free neighbours; where no block fits it returns NULL and
-- changes nothing.
pub alloc_refines :
    {h : Heap} (bs : List Block) (n : ℕ)
    → Represents h bs
    → Coalesced bs
    → AllocSpec h bs n (first_fit (round n) bs)
alloc_refines bs n r c = alloc_refines_at bs n (first_fit (round n) bs) r c refl

-- For each of the seven sizes above 2^32 - 8 `Heap::Round` gives 0. If the first free block of a
-- well-formed heap has more than 32 bytes, `Heap::Alloc` succeeds and gives out a block of no bytes,
-- split off that block.
pub alloc_huge :
    {h : Heap} (bs : List Block) (n : ℕ) (p : Place)
    → Represents h bs
    → u32_mod - 8 < n
    → n < u32_mod
    → first_fit 0 bs ≡ some p
    → header_size + 16 < p.here.size
    → (round n ≡ 0)
      × (q : ℕ) × (g : Heap) × (alloc h n ≡ some (q, g))
      × (q ≡ h.base + span p.before + header_size)
      × (0 < q)
      × Represents g (
          p.before
          ++ (record { size = 0; used = true }
              ∷ record { size = p.here.size - header_size; used = false }
              ∷ p.behind))
alloc_huge {h} bs n p r lo hi found wide =
    let zero_size = round_wraps n lo hi in
    let (list, free, fits, skipped) = first_fit-place 0 bs p found in
    let split : carve 0 p.here
        ≡ record { size = 0; used = true }
          ∷ record { size = p.here.size - header_size; used = false }
          ∷ [] =
      ground (arith, wide) in
    (
      zero_size,
      h.base + span p.before + header_size,
      given h 0 p,
      alloc-given n bs r ∙ ground (arith, zero_size, found),
      refl,
      omega (arith, r.pos),
      subst (λ x. Represents (given h 0 p) (p.before ++ (x ++ p.behind))) split
          (given-Represents 0 p (subst (Represents h) list r) free fits),
    )

fresh_at :
    (a n : ℕ) (before : List Block) (b : Block) (behind : List Block)
    → b.used ≡ false
    → n ≤ b.size
    → Each (Apart (a + span before + header_size) n) (payloads a (before ++ (b ∷ behind)))
fresh_at a n before b behind free fits =
    let q = a + span before + header_size in
    rw (payloads-append a before (b ∷ behind), free)
      (Each-append (Apart q n) (payloads a before)
        (payloads (a + span before + header_size + b.size) behind)
        (
          Each-before q n a before (omega arith),
          Each-behind q n (a + span before + header_size + b.size) behind (omega arith),
        ))

-- On a well-formed heap and for a size of at most 2^32 - 8, the bytes at a pointer other than 0
-- that `Heap::Alloc` returns lie in the heap and meet no payload that is in use.
pub alloc_fresh :
    {h g : Heap} (bs : List Block) (n q : ℕ)
    → Represents h bs
    → n ≤ u32_mod - 8
    → alloc h n ≡ some (q, g)
    → q ≢ 0
    → (h.base + header_size ≤ q) × (q + n ≤ h.end) × Each (Apart q n) (payloads h.base bs)
alloc_fresh {h} bs n q r small e ne = elim (Option-cases (first_fit (round n) bs)) [
  | inl full ↦ let null : alloc h n ≡ some (0, h) = alloc-given n bs r ∙ rw full in absurd (ne (cc))
  | inr (p, found) ↦
      let got = alloc-given n bs r in
      let at : q ≡ h.base + span p.before + header_size = ground (arith, got, found, e) in
      let (list, free, fits, skipped) = first_fit-place (round n) bs p found in
      let up = round_up n small in
      (
        omega arith,
        ground (arith, r.whole, list, span-append p.before (p.here ∷ p.behind), ap span list),
        rw (at, list) (fresh_at h.base n p.before p.here p.behind free (omega arith)),
      )
]

-- On a well-formed heap without two free neighbours `Heap::Free` of a payload in use runs to its
-- end, marks the block free and merges it with free neighbours on both sides; the heap stays well
-- formed with no two free neighbours.
pub free_refines :
    {h : Heap} (before : List Block) (b : Block) (behind : List Block)
    → Represents h (before ++ (b ∷ behind))
    → Coalesced (before ++ (b ∷ behind))
    → b.used ≡ true
    → (g : Heap) × (free h (h.base + span before + header_size) ≡ some g)
      × Represents g (rejoin before (join (freed b) behind))
      × Coalesced (rejoin before (join (freed b) behind))
free_refines before b behind r c used =
    let (g, ran, rep, base) = release-rejoin before b behind r used in
    (g, free-release before b behind r used ∙ ran, rep, Coalesced-rejoin before b behind used c)

part_used : (n : ℕ) (b : Block) → (part n b).used ≡ true
part_used n b = ground arith

-- On a well-formed heap without two free neighbours, freeing a pointer other than 0 that
-- `Heap::Alloc` has just returned restores the blocks as they were.
pub free-alloc :
    {h g : Heap} (bs : List Block) (n q : ℕ)
    → Represents h bs
    → Coalesced bs
    → alloc h n ≡ some (q, g)
    → q ≢ 0
    → (f : Heap) × (free g q ≡ some f) × Represents f bs
free-alloc {h} {g} bs n q r c e ne = elim (Option-cases (first_fit (round n) bs)) [
  | inl full ↦ let null : alloc h n ≡ some (0, h) = alloc-given n bs r ∙ rw full in absurd (ne (cc))
  | inr (p, found) ↦
      let (list, free_here, fits, skipped) = first_fit-place (round n) bs p found in
      let (g', got, rep, coal, base) = alloc_refines_at bs n (some p) r c found in
      let same : g' ≡ g = cc in
      let at : q ≡ g'.base + span p.before + header_size =
        let at' : q ≡ h.base + span p.before + header_size = cc in
        at' ∙ ap (λ x. x + span p.before + header_size) (sym base) in
      let rep' : Represents g'
          (p.before ++ (part (round n) p.here ∷ (rest (round n) p.here ++ p.behind))) =
        subst (λ l. Represents g' (p.before ++ (l ++ p.behind))) (carve-eq-part (round n) p.here)
          rep in
      let freeing =
        free-release p.before (part (round n) p.here) (rest (round n) p.here ++ p.behind) rep'
          (part_used (round n) p.here) in
      let (f, ran, done, base') =
        release-rejoin p.before (part (round n) p.here) (rest (round n) p.here ++ p.behind) rep'
          (part_used (round n) p.here) in
      (
        f,
        cc (same, at, freeing, ran),
        subst (Represents f)
            (rejoin-part (round n) p.before p.here p.behind free_here fits (subst Coalesced list c)
              ∙ sym list)
            done,
      )
]
