-- ===== src/Pmm/Pages.antt =====
-- `PMM::AllocPage` and `PMM::FreePage` of src/src/classes/pmm.class.h.
use Prim.Native.Nat.{bit_and}
use mathlib.Core.Path.{subst}
use shiro.Base.{
  ℕ, zero, suc, ◌+◌, ◌-◌, ◌*◌, ◌/◌, ◌%◌, ◌^◌, ◌≤◌, ◌<◌, ◌≡◌, refl, sym, true, false, Option, none,
  some, ltb, ◌==◌, arith, Bool-cases, inl, inr, ◌∙◌, Option-cases, ==_iff,
}
use shiro.Pmm.{Bytes, is_used, find_bit, find_page}
use shiro.Pmm.Bitmap.{IsBytes}
use shiro.Base.Bytes.{full-bit, and-bit}

-- What a scan finds: the first page from `a` up to `b` that is free.
abbrev pub Lowest : Bytes → ℕ → ℕ → Option ℕ → Type 0
Lowest m a b none = (q : ℕ) → a ≤ q → q < b → is_used m q ≡ true
Lowest m a b (some p) =
    (a ≤ p) × (p < b) × (is_used m p ≡ false) × ((q : ℕ) → a ≤ q → q < p → is_used m q ≡ true)

-- The same of the bits of a byte.
abbrev FirstClear : ℕ → ℕ → Option ℕ → Type 0
FirstClear byte from none = (j : ℕ) → from ≤ j → j < 8 → (byte / 2 ^ j % 2 == 1) ≡ true
FirstClear byte from (some k) =
    (k < 8)
    × ((byte / 2 ^ k % 2 == 1) ≡ false)
    × ((j : ℕ) → from ≤ j → j < k → (byte / 2 ^ j % 2 == 1) ≡ true)

FirstClear-later :
    (byte from : ℕ) (o : Option ℕ)
    → (byte / 2 ^ from % 2 == 1) ≡ true
    → FirstClear byte (from + 1) o
    → FirstClear byte from o
FirstClear-later byte from none u h = λ j le lt. elim (Bool-cases (j == from)) [
  | inl e ↦ subst (λ x. (byte / 2 ^ x % 2 == 1) ≡ true) (sym ((==_iff _ _).0 e)) u
  | inr n ↦ h j (ground arith) lt
]
FirstClear-later byte from (some k) u h = (
  h.0,
  h.1,
  λ j le lt. elim (Bool-cases (j == from)) [
    | inl e ↦ subst (λ x. (byte / 2 ^ x % 2 == 1) ≡ true) (sym ((==_iff _ _).0 e)) u
    | inr n ↦ h.2 j (ground arith) lt
  ],
)

find_bit-FirstClear :
    (n byte bit : ℕ) → byte < 256 → bit + n ≡ 8 → FirstClear byte bit (find_bit n byte bit)
unfolding find_bit
find_bit-FirstClear zero byte bit hb e = λ j le lt. absurd (omega arith)
find_bit-FirstClear (suc n) byte bit hb e = elim (Bool-cases (bit_and byte (2 ^ bit) == 0)) [
  | inl c ↦
      rw (c, FirstClear)
        (
          omega arith,
          ground (arith, and-bit byte bit 0 hb (omega arith)),
          λ j le lt. absurd (omega arith),
        )
  | inr u ↦
      rw (u, FirstClear)
        (FirstClear-later byte bit (find_bit n byte (bit + 1))
          (ground (arith, and-bit byte bit 0 hb (omega arith)))
          (find_bit-FirstClear n byte (bit + 1) hb (omega arith)))
]

-- A full byte has no free page.
full : (m : Bytes) (i q : ℕ) → m i ≡ 255 → q / 8 ≡ i → is_used m q ≡ true
unfolding is_used
full m i q e d = rw (d, e) (full-bit (q % 8) (omega arith))

later-Lowest :
    (m : Bytes) (a c b : ℕ) (o : Option ℕ)
    → a ≤ c
    → ((q : ℕ) → a ≤ q → q < c → is_used m q ≡ true)
    → Lowest m c b o
    → Lowest m a b o
later-Lowest m a c b none le early h = λ q lo hi. elim (Bool-cases (ltb q c)) [
  | inl e ↦ early q lo (ground arith)
  | inr e ↦ h q (ground arith) hi
]
later-Lowest m a c b (some p) le early h = (
  omega (arith, h.0),
  h.1,
  h.2,
  λ q lo hi. elim (Bool-cases (ltb q c)) [
    | inl e ↦ early q lo (ground arith)
    | inr e ↦ h.3 q (ground arith) hi
  ],
)

clear-page : (m : Bytes) (i j : ℕ) → j < 8 → is_used m (i * 8 + j) ≡ (m i / 2 ^ j % 2 == 1)
unfolding is_used
clear-page m i j h =
    let d : (i * 8 + j) / 8 ≡ i = omega arith in
    let e : (i * 8 + j) % 8 ≡ j = omega arith in rw (d, e) refl

byte_page :
    (m : Bytes) (i q : ℕ)
    → i * 8 ≤ q
    → q < (i + 1) * 8
    → is_used m q ≡ (m i / 2 ^ (q - i * 8) % 2 == 1)
unfolding is_used
byte_page m i q lo hi =
    let d : q / 8 ≡ i = omega arith in let e : q % 8 ≡ q - i * 8 = omega arith in rw (d, e) refl

-- A byte without a free page is passed over.
pass_byte :
    (n : ℕ) (m : Bytes) (i : ℕ)
    → ((q : ℕ) → i * 8 ≤ q → q < (i + 1) * 8 → is_used m q ≡ true)
    → find_page (suc n) m i ≡ find_page n m (i + 1)
    → Lowest m ((i + 1) * 8) ((i + 1 + n) * 8) (find_page n m (i + 1))
    → Lowest m (i * 8) ((i + suc n) * 8) (find_page (suc n) m i)
pass_byte n m i early e rest =
    let b : i + 1 + n ≡ i + suc n = omega arith in
    subst (Lowest m (i * 8) ((i + suc n) * 8)) (sym e) (
      later-Lowest m (i * 8) ((i + 1) * 8) ((i + suc n) * 8) (find_page n m (i + 1)) (omega arith)
        early (subst (λ x. Lowest m ((i + 1) * 8) (x * 8) (find_page n m (i + 1))) b rest))

-- The scan of `n` bytes from byte `i`.
pub find_page-Lowest :
    (n : ℕ) (m : Bytes) (i : ℕ) → IsBytes m → Lowest m (i * 8) ((i + n) * 8) (find_page n m i)
unfolding find_page
find_page-Lowest zero m i v = λ q lo hi. absurd (omega arith)
find_page-Lowest (suc n) m i v =
    let rest = find_page-Lowest n m (i + 1) v in
    let f = find_bit-FirstClear 8 (m i) 0 (v i) refl in
    elim (Bool-cases (m i == 0xFF)) [
      | inl e ↦
          pass_byte n m i (λ q lo hi. full m i q ((==_iff _ _).0 e) (omega arith))
            (rw (e, find_page) refl) rest
      | inr e ↦ elim (Option-cases (find_bit 8 (m i) 0)) [
        | inl o ↦
            let g : FirstClear (m i) 0 none = subst (FirstClear (m i) 0) o f in
            pass_byte n m i
              (λ q lo hi. byte_page m i q lo hi ∙ g (q - i * 8) (omega arith) (omega arith))
              (rw (e, o, find_page) refl) rest
        | inr (k, o) ↦
            let g : FirstClear (m i) 0 (some k) = subst (FirstClear (m i) 0) o f in
            let eq : find_page (suc n) m i ≡ some (i * 8 + k) = rw (e, o, find_page) refl in
            subst (Lowest m (i * 8) ((i + suc n) * 8)) (sym eq) (
              omega arith,
              omega (arith, g.0),
              clear-page m i k g.0 ∙ g.1,
              λ q lo hi.
                  byte_page m i q lo (omega (arith, g.0))
                  ∙ g.2 (q - i * 8) (omega arith) (omega arith),
            )
      ]
    ]
