-- ===== src/Heap/Seg.antt =====
-- The headers of src/src/classes/heap.class.h as they lie in memory: from an address on, each block's
-- header, linked to the next one.
use shiro.Base.{
  ℕ, zero, suc, ◌+◌, ◌≤◌, ◌<◌, ◌≡◌, refl, sym, ap, Option, none, some, List, [], ◌∷◌, ◌++◌,
  if◌then◌else◌, arith, length,
}
use mathlib.Core.Path.{subst}
use shiro.Heap.{Header, Memory, store, heap_magic, header_size, find_fit, find_prev}
use shiro.Heap.Blocks.{Block, Place, span, first_fit}

-- The header of a block, and what a header's `next` holds in front of the blocks `bs` at `a`.
abbrev pub header : Block → ℕ → Header
header b next = record {
  magic = heap_magic;
  size = b.size;
  used = if b.used then 1 else 0;
  next = next;
}

abbrev pub next_of : ℕ → ℕ → List Block → ℕ
next_of a z [] = z
next_of a z (b ∷ bs) = a

-- The blocks `bs` lie from `a` on; behind the last one `next` is `z`.
abbrev pub Seg : Memory → ℕ → ℕ → List Block → Type 0
Seg m a z [] = Unit
Seg m a z (b ∷ bs) =
    (m a ≡ header b (next_of (a + header_size + b.size) z bs))
    × Seg m (a + header_size + b.size) z bs

pub next_of-append :
    (a z : ℕ) (xs ys : List Block)
    → next_of a z (xs ++ ys) ≡ next_of a (next_of (a + span xs) z ys) xs
next_of-append a z [] ys = ap (λ x. next_of x z ys) (omega arith)
next_of-append a z (x ∷ xs) ys = refl

shift :
    (a : ℕ) (x : Block) (xs : List Block)
    → a + (header_size + x.size + span xs) ≡ a + header_size + x.size + span xs
shift a x xs = omega arith

module _ (m : Memory) where
  pub Seg-at : {a a' : ℕ} (z : ℕ) (bs : List Block) → a ≡ a' → Seg m a z bs → Seg m a' z bs
  Seg-at z bs e s = subst (λ x. Seg m x z bs) e s

  pub Seg-append :
      (a z : ℕ) (xs ys : List Block)
      → Seg m a (next_of (a + span xs) z ys) xs
      → Seg m (a + span xs) z ys
      → Seg m a z (xs ++ ys)
  Seg-append a z [] ys s t = Seg-at z ys (omega arith) t
  Seg-append a z (x ∷ xs) ys s t =
      let e = shift a x xs in
      (
        rw (next_of-append (a + header_size + x.size) z xs ys, ← e) s.0,
        Seg-append (a + header_size + x.size) z xs ys (rw (← e) s.1) (Seg-at z ys e t),
      )

  pub Seg-split :
      (a z : ℕ) (xs ys : List Block)
      → Seg m a z (xs ++ ys)
      → Seg m a (next_of (a + span xs) z ys) xs × Seg m (a + span xs) z ys
  Seg-split a z [] ys s = (tt, Seg-at z ys (omega arith) s)
  Seg-split a z (x ∷ xs) ys s =
      let e = shift a x xs in
      let (l, r) = Seg-split (a + header_size + x.size) z xs ys s.1 in
      (
        (rw e (rw (next_of-append (a + header_size + x.size) z xs ys) at s.0), rw e l),
        Seg-at z ys (sym e) r,
      )

  -- A write in front of the blocks or behind them leaves them as they are.
  pub store-before :
      (x : ℕ) (h : Header) (a z : ℕ) (bs : List Block)
      → x < a
      → Seg m a z bs
      → Seg (store m x h) a z bs
  store-before x h a z [] lt s = tt
  store-before x h a z (b ∷ bs) lt s =
      (ground arith, store-before x h (a + header_size + b.size) z bs (omega arith) s.1)

  pub store-behind :
      (x : ℕ) (h : Header) (a z : ℕ) (bs : List Block)
      → a + span bs ≤ x
      → Seg m a z bs
      → Seg (store m x h) a z bs
  store-behind x h a z [] le s = tt
  store-behind x h a z (b ∷ bs) le s =
      (ground arith, store-behind x h (a + header_size + b.size) z bs (omega arith) s.1)

-- What the loop of `Heap::Alloc` returns for the place of the block that it finds.
abbrev pub address : ℕ → Option Place → ℕ
address a none = 0
address a (some p) = a + span p.before

address-cons :
    (a : ℕ) (b : Block) (o : Option Place)
    → address a (elim o [ none ↦ none | some p ↦ some (record p { before = b ∷ p.before }) ])
      ≡ address (a + header_size + b.size) o
address-cons a b none = refl
address-cons a b (some p) = omega arith

pub find_fit-first_fit :
    (m : Memory) (f n a : ℕ) (bs : List Block)
    → Seg m a 0 bs
    → 0 < a
    → length bs < f
    → find_fit f m n (next_of a 0 bs) ≡ some (address a (first_fit n bs))
unfolding find_fit first_fit
find_fit-first_fit m zero n a bs s pos enough = absurd (omega arith)
find_fit-first_fit m (suc f) n a [] s pos enough = refl
find_fit-first_fit m (suc f) n a (b ∷ bs) s pos enough = ground (
  arith,
  find_fit-first_fit m f n (a + header_size + b.size) bs s.1,
  address-cons a b (first_fit n bs),
)

-- The last header in front of the place behind `bs`, and `prev` if there is none.
abbrev pub last_of : ℕ → ℕ → List Block → ℕ
last_of a prev [] = prev
last_of a prev (b ∷ bs) = last_of (a + header_size + b.size) a bs

pub find_prev-last_of :
    (m : Memory) (f target prev a : ℕ) (bs : List Block)
    → Seg m a target bs
    → 0 < a
    → a + span bs ≡ target
    → length bs < f
    → find_prev f m target prev (next_of a target bs) ≡ some (last_of a prev bs)
unfolding find_prev
find_prev-last_of m zero target prev a bs s pos e enough = absurd (omega arith)
find_prev-last_of m (suc f) target prev a [] s pos e enough = ground arith
find_prev-last_of m (suc f) target prev a (b ∷ bs) s pos e enough =
    ground (arith, find_prev-last_of m f target a (a + header_size + b.size) bs s.1)
