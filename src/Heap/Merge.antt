-- ===== src/Heap/Merge.antt =====
-- The two coalescing steps of `Heap::Free` (src/src/classes/heap.class.h) against the list of blocks.
use shiro.Base.{
  ℕ, ◌+◌, ◌<◌, ◌≡◌, refl, sym, ap, ◌∙◌, true, false, some, List, [], ◌∷◌, ◌++◌, arith, length,
  length-append, ◌==◌, Bool-cases, inl, inr, ◌⊎◌, append_assoc,
}
use mathlib.Core.Path.{subst}
use shiro.Heap.{Heap, header_size, fuel, find_prev, mark_free, absorb, merge_next, merge_prev, free}
use shiro.Heap.Blocks.{Block, span, join, rejoin, span-append}
use shiro.Heap.Seg.{next_of, Seg-split, last_of, find_prev-last_of}
use shiro.Heap.Valid.{Represents, length-lt-fuel}
use shiro.Heap.Replace.{joined, absorb-Represents}

pub join-apart :
    (b c : Block) (bs : List Block)
    → (b.used ≡ true) ⊎ (c.used ≡ true)
    → join b (c ∷ bs) ≡ b ∷ c ∷ bs
join-apart b c bs (inl busy) = rw busy
join-apart b c bs (inr busy) = ground arith

pub join-both :
    (b c : Block) (bs : List Block)
    → b.used ≡ false
    → c.used ≡ false
    → join b (c ∷ bs) ≡ joined b c ∷ bs
join-both b c bs p q = rw (p, q)

pub relist :
    {h : Heap} (before : List Block) {l l' : List Block}
    → l ≡ l'
    → Represents h (before ++ l)
    → Represents h (before ++ l')
relist {h} before e r = subst (λ x. Represents h (before ++ x)) e r

-- The forward coalesce joins a free block to the one behind it.
pub merge_next-Represents :
    {h : Heap} (before : List Block) (b : Block) (behind : List Block)
    → Represents h (before ++ (b ∷ behind))
    → b.used ≡ false
    → Represents (merge_next h (h.base + span before)) (before ++ join b behind)
unfolding merge_next
merge_next-Represents {h} before b [] r free =
    let s = (Seg-split h.mem h.base 0 before (b ∷ []) r.chain).1 in rw (ap (λ x. x.next) s.0) r
merge_next-Represents {h} before b (c ∷ behind) r free =
    let s = (Seg-split h.mem h.base 0 before (b ∷ c ∷ behind) r.chain).1 in
    let ne : (h.base + span before + header_size + b.size == 0) ≡ false = ground (arith, r.pos) in
    elim (Bool-cases c.used) [
      | inl busy ↦
          let u : ((h.mem (h.base + span before + header_size + b.size)).used == 0) ≡ false =
            ground (arith, s.1.0) in
          relist before (sym (join-apart b c behind (inr busy)))
            (rw (merge_next, ap (λ x. x.next) s.0, ne, u) r)
      | inr idle ↦
          let u : ((h.mem (h.base + span before + header_size + b.size)).used == 0) ≡ true =
            ground (arith, s.1.0) in
          relist before (sym (join-both b c behind free idle)) (
            rw (merge_next, ap (λ x. x.next) s.0, ne, u)
              (absorb-Represents before b c behind r free idle))
    ]

-- The backward coalesce joins the block in front to a free block.
merge_prev-Represents :
    {h : Heap} (before : List Block) (c b : Block) (behind : List Block)
    → Represents h (before ++ (c ∷ b ∷ behind))
    → b.used ≡ false
    → Represents
        (merge_prev h (h.base + span before) (h.base + span before + header_size + c.size))
        (before ++ join c (b ∷ behind))
unfolding merge_prev
merge_prev-Represents {h} before c b behind r free =
    let s = (Seg-split h.mem h.base 0 before (c ∷ b ∷ behind) r.chain).1 in
    let ne : (h.base + span before == 0) ≡ false = ground (arith, r.pos) in
    elim (Bool-cases c.used) [
      | inl busy ↦
          let u : ((h.mem (h.base + span before)).used == 0) ≡ false = ground (arith, s.0) in
          relist before (sym (join-apart c b behind (inl busy))) (rw (merge_prev, ne, u) r)
      | inr idle ↦
          let u : ((h.mem (h.base + span before)).used == 0) ≡ true = ground (arith, s.0) in
          relist before (sym (join-both c b behind idle free))
            (rw (merge_prev, ne, u) (absorb-Represents before c b behind r idle free))
    ]

pub join-cons :
    (b : Block) (bs : List Block)
    → b.used ≡ false
    → (x : Block) × (rest : List Block) × (join b bs ≡ x ∷ rest) × (x.used ≡ false)
join-cons b [] free = (b, [], refl, free)
join-cons b (c ∷ bs) free = elim (Bool-cases c.used) [
  | inl busy ↦ (b, c ∷ bs, join-apart b c bs (inr busy), free)
  | inr idle ↦ (joined b c, bs, join-both b c bs free idle, refl)
]

last_block :
    (before : List Block)
    → (before ≡ []) ⊎ ((init : List Block) × (c : Block) × (before ≡ init ++ (c ∷ [])))
last_block [] = inl refl
last_block (b ∷ bs) = elim (last_block bs) [
  | inl e ↦ inr ([], b, ap (λ l. b ∷ l) e)
  | inr (init, c, e) ↦ inr (b ∷ init, c, ap (λ l. b ∷ l) e)
]

last_of-snoc :
    (a prev : ℕ) (init : List Block) (c : Block) → last_of a prev (init ++ (c ∷ [])) ≡ a + span init
last_of-snoc a prev [] c = omega arith
last_of-snoc a prev (b ∷ init) c = last_of-snoc (a + header_size + b.size) a init c ∙ omega arith

rejoin-snoc :
    (init : List Block) (c : Block) (bs : List Block)
    → rejoin (init ++ (c ∷ [])) bs ≡ init ++ join c bs
rejoin-snoc [] c bs = refl
rejoin-snoc (b ∷ []) c bs = refl
rejoin-snoc (b ∷ d ∷ init) c bs = ap (λ l. b ∷ l) (rejoin-snoc (d ∷ init) c bs)

next_of-behind : (a : ℕ) (bs : List Block) → next_of a (a + span bs) bs ≡ a
next_of-behind a [] = omega arith
next_of-behind a (b ∷ bs) = refl

-- The walk for the predecessor of the block behind `before`.
find_prev-before :
    {h : Heap} (before : List Block) (x : Block) (rest : List Block)
    → Represents h (before ++ (x ∷ rest))
    → find_prev fuel h.mem (h.base + span before) 0 h.first ≡ some (last_of h.base 0 before)
find_prev-before {h} before x rest r =
    let s = (Seg-split h.mem h.base 0 before (x ∷ rest) r.chain).0 in
    let short : length before < fuel =
      omega (arith, length-lt-fuel (before ++ (x ∷ rest)) r, length-append before (x ∷ rest)) in
    ap (find_prev fuel h.mem (h.base + span before) 0)
      (r.first ∙ sym (next_of-behind h.base before))
    ∙ find_prev-last_of h.mem fuel (h.base + span before) 0 h.base before s r.pos refl short

back_first :
    {h : Heap} (x : Block) (rest : List Block)
    → Represents h (x ∷ rest)
    → Represents (merge_prev h 0 (h.base + 0)) (x ∷ rest)
unfolding merge_prev
back_first x rest r = r

back_snoc :
    {h : Heap} (init : List Block) (c x : Block) (rest : List Block)
    → Represents h ((init ++ (c ∷ [])) ++ (x ∷ rest))
    → x.used ≡ false
    → Represents
        (merge_prev h (last_of h.base 0 (init ++ (c ∷ []))) (h.base + span (init ++ (c ∷ []))))
        (rejoin (init ++ (c ∷ [])) (x ∷ rest))
back_snoc {h} init c x rest r free =
    let e : h.base + span (init ++ (c ∷ [])) ≡ h.base + span init + header_size + c.size =
      omega (arith, span-append init (c ∷ [])) in
    let r' : Represents h (init ++ (c ∷ x ∷ rest)) =
      subst (λ l. Represents h l) (append_assoc init (c ∷ []) (x ∷ rest)) r in
    rw (rejoin-snoc init c (x ∷ rest), last_of-snoc h.base 0 init c, e)
      (merge_prev-Represents init c x rest r' free)

-- The backward coalesce after the walk.
back :
    {h : Heap} (before : List Block) (x : Block) (rest : List Block)
    → Represents h (before ++ (x ∷ rest))
    → x.used ≡ false
    → Represents
        (merge_prev h (last_of h.base 0 before) (h.base + span before))
        (rejoin before (x ∷ rest))
back {h} before x rest r free = elim (last_block before) [
  | inl e ↦ subst P (sym e) (back_first x rest) r
  | inr (init, c, e) ↦ subst P (sym e) (λ r'. back_snoc init c x rest r' free) r
]
  where
    P : List Block → Type 0
    P l =
        Represents h (l ++ (x ∷ rest))
        → Represents (merge_prev h (last_of h.base 0 l) (h.base + span l)) (rejoin l (x ∷ rest))

pub base-merge_next : (h : Heap) (b : ℕ) → (merge_next h b).base ≡ h.base
unfolding merge_next absorb
base-merge_next h b = ground arith

pub base-mark_free : (h : Heap) (b : ℕ) → (mark_free h b).base ≡ h.base
unfolding mark_free
base-mark_free h b = refl

pub base-merge_prev : (h : Heap) (prev b : ℕ) → (merge_prev h prev b).base ≡ h.base
unfolding merge_prev absorb
base-merge_prev h prev b = ground arith

pub backward :
    {m : Heap} {base : ℕ} (before : List Block) (x : Block) (rest : List Block)
    → Represents m (before ++ (x ∷ rest))
    → x.used ≡ false
    → m.base ≡ base
    → (find_prev fuel m.mem (base + span before) 0 m.first ≡ some (last_of base 0 before))
      × Represents
          (merge_prev m (last_of base 0 before) (base + span before))
          (rejoin before (x ∷ rest))
backward {m} before x rest r free e =
    subst
      (λ z.
        (find_prev fuel m.mem (z + span before) 0 m.first ≡ some (last_of z 0 before))
        × Represents (merge_prev m (last_of z 0 before) (z + span before))
            (rejoin before (x ∷ rest)))
      e (find_prev-before before x rest r, back before x rest r free)
