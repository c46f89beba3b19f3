-- ===== src/Heap/Payloads.antt =====
-- The payloads that src/src/classes/heap.class.h hands out: where they lie, and that they are apart.
use shiro.Base.{ℕ, ◌+◌, ◌≤◌, ◌≡◌, ap, List, [], ◌∷◌, ◌++◌, arith, Bool-cases, inl, inr, ◌⊎◌}
use shiro.Heap.{header_size}
use shiro.Heap.Blocks.{Block, span, payloads}

abbrev pub Each : (ℕ × ℕ → Type 0) → List (ℕ × ℕ) → Type 0
Each P [] = Unit
Each P (x ∷ xs) = P x × Each P xs

-- The `n` bytes from `q` on and those of a payload have none in common.
abbrev pub Apart : ℕ → ℕ → ℕ × ℕ → Type 0
Apart q n (a, s) = (q + n ≤ a) ⊎ (a + s ≤ q)

-- A property of two ranges of payloads, put together.
pub Each-append :
    (P : ℕ × ℕ → Type 0) (front back : List (ℕ × ℕ))
    → Each P front × Each P back
    → Each P (front ++ back)
Each-append P [] back both = both.1
Each-append P (x ∷ front) back both = (both.0.0, Each-append P front back (both.0.1, both.1))

pub payloads-append :
    (a : ℕ) (xs ys : List Block)
    → payloads a (xs ++ ys) ≡ payloads a xs ++ payloads (a + span xs) ys
payloads-append a [] ys = ap (λ x. payloads x ys) (omega arith)
payloads-append a (x ∷ xs) ys = ground (
  arith,
  payloads-append (a + header_size + x.size) xs ys,
  ap (λ z. payloads z ys) (shift a x xs),
)
  where
    shift :
        (a : ℕ) (x : Block) (xs : List Block)
        → a + (header_size + x.size + span xs) ≡ a + header_size + x.size + span xs
    shift a x xs = omega arith

-- Payloads in front of an address, and behind one.
pub Each-before : (q n a : ℕ) (bs : List Block) → a + span bs ≤ q → Each (Apart q n) (payloads a bs)
Each-before q n a [] le = tt
Each-before q n a (b ∷ bs) le =
    let tail = Each-before q n (a + header_size + b.size) bs (omega arith) in
    elim (Bool-cases b.used) [
      | inl busy ↦ rw busy (inr (omega arith), tail)
      | inr idle ↦ rw idle tail
    ]

pub Each-behind : (q n a : ℕ) (bs : List Block) → q + n ≤ a → Each (Apart q n) (payloads a bs)
Each-behind q n a [] le = tt
Each-behind q n a (b ∷ bs) le =
    let tail = Each-behind q n (a + header_size + b.size) bs (omega arith) in
    elim (Bool-cases b.used) [
      | inl busy ↦ rw busy (inl (omega arith), tail)
      | inr idle ↦ rw idle tail
    ]
