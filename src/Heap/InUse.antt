-- ===== src/Heap/InUse.antt =====
-- Payloads of src/src/classes/heap.class.h that stay in use while others are given out.
use mathlib.Core.Path.{subst}
use shiro.Base.{
  ℕ, ◌+◌, ◌-◌, ◌≤◌, refl, ◌≡◌, true, false, List, [], ◌∷◌, ◌++◌, arith, Bool-cases, inl, inr, ◌⊎◌,
  ltb,
}
use shiro.Heap.{header_size}
use shiro.Heap.Blocks.{Block, span, payloads, carve}
use shiro.Heap.Alloc.{span-carve}
use shiro.Heap.Payloads.{Each, Apart}

-- A payload in use starts at `q` and has at least `n` bytes.
abbrev pub InUse : ℕ → List Block → ℕ → ℕ → Type 0
InUse a [] q n = ⊥
InUse a (b ∷ bs) q n =
    ((b.used ≡ true) × (q ≡ a + header_size) × (n ≤ b.size))
    ⊎ InUse (a + header_size + b.size) bs q n

pub InUse-append :
    (a : ℕ) (xs ys : List Block) (q n : ℕ) → InUse (a + span xs) ys q n → InUse a (xs ++ ys) q n
InUse-append a [] ys q n u = subst (λ x. InUse x ys q n) (omega arith) u
InUse-append a (x ∷ xs) ys q n u = inr (
    InUse-append (a + header_size + x.size) xs ys q n (subst (λ x. InUse x ys q n) (omega arith) u))

-- Giving out a free block keeps what is in use, and the block given out is in use.
pub InUse-carve :
    (a n : ℕ) (before : List Block) (b : Block) (behind : List Block) (q m : ℕ)
    → b.used ≡ false
    → n ≤ b.size
    → InUse a (before ++ (b ∷ behind)) q m
    → InUse a (before ++ (carve n b ++ behind)) q m
InUse-carve a n [] b behind q m free fits (inl u) = absurd (ground (arith, free, u))
InUse-carve a n [] b behind q m free fits (inr u) =
    InUse-append a (carve n b) behind q m
      (subst (λ x. InUse x behind q m) (omega (arith, span-carve n b fits)) u)
InUse-carve a n (x ∷ before) b behind q m free fits (inl u) = inl u
InUse-carve a n (x ∷ before) b behind q m free fits (inr u) =
    inr (InUse-carve (a + header_size + x.size) n before b behind q m free fits u)

carve-InUse :
    (a n : ℕ) (b : Block) (behind : List Block)
    → n ≤ b.size
    → InUse a (carve n b ++ behind) (a + header_size) n
carve-InUse a n b behind fits = elim (Bool-cases (ltb (header_size + 16) (b.size - n))) [
  | inl wide ↦ rw wide (inl (refl, refl, omega arith))
  | inr tight ↦ rw tight (inl (refl, refl, fits))
]

pub carved-InUse :
    (a n : ℕ) (before : List Block) (b : Block) (behind : List Block)
    → n ≤ b.size
    → InUse a (before ++ (carve n b ++ behind)) (a + span before + header_size) n
carved-InUse a n before b behind fits =
    InUse-append a before (carve n b ++ behind) (a + span before + header_size) n
      (carve-InUse (a + span before) n b behind fits)

payloads-used :
    (a : ℕ) (b : Block) (bs : List Block)
    → b.used ≡ true
    → payloads a (b ∷ bs) ≡ (a + header_size, b.size) ∷ payloads (a + header_size + b.size) bs
payloads-used a b bs used = rw used refl

payloads-idle :
    (a : ℕ) (b : Block) (bs : List Block)
    → b.used ≡ false
    → payloads a (b ∷ bs) ≡ payloads (a + header_size + b.size) bs
payloads-idle a b bs idle = rw idle refl

-- A range that meets no payload does not meet one that is in use.
pub InUse-Apart :
    (a : ℕ) (bs : List Block) (q n p m : ℕ)
    → Each (Apart q n) (payloads a bs)
    → InUse a bs p m
    → (q + n ≤ p) ⊎ (p + m ≤ q)
InUse-Apart a [] q n p m each u = elim u [ ]
InUse-Apart a (b ∷ bs) q n p m each (inl (used, at, le)) =
    elim (subst (Each (Apart q n)) (payloads-used a b bs used) each).0 [
      | inl lo ↦ inl (omega arith)
      | inr hi ↦ inr (omega arith)
    ]
InUse-Apart a (b ∷ bs) q n p m each (inr u) = elim (Bool-cases b.used) [
  | inl used ↦
      InUse-Apart (a + header_size + b.size) bs q n p m
        (subst (Each (Apart q n)) (payloads-used a b bs used) each).1 u
  | inr idle ↦
      InUse-Apart (a + header_size + b.size) bs q n p m
        (subst (Each (Apart q n)) (payloads-idle a b bs idle) each) u
]
