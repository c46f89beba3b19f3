-- ===== src/CString/Compare.antt =====
-- `strcmp` of src/src/libs/string.h.
use shiro.CString.Memory.{Bytes, strcmp}
use shiro.CString.Laws.{Holds}
use shiro.Base.{
  ℕ, zero, suc, ◌+◌, ◌^◌, ◌<◌, ◌≡◌, refl, ◌∙◌, Bool, true, false, not, ◌&&◌, ◌||◌, inl, inr, ◌↔◌,
  List, [], ◌∷◌, length, some, ltb, leb, ◌==◌, arith, Bool-cases, sub32,
}

-- The order of a dictionary on strings.
pub precedes : List ℕ → List ℕ → Bool
precedes x [] = false
precedes [] (d ∷ y) = true
precedes (c ∷ x) (d ∷ y) = ltb c d || ((c == d) && precedes x y)

abbrev pub AllBytes : List ℕ → Type 0
AllBytes [] = Unit
AllBytes (c ∷ x) = (c < 256) × AllBytes x

-- What the result says of the two strings.
abbrev pub Compares : List ℕ → List ℕ → ℕ → Type 0
Compares x y r = ((r ≡ 0) ↔ (x ≡ y)) × (leb (2 ^ 31) r ≡ precedes x y)

cons-head : {c d : ℕ} {x y : List ℕ} → c ∷ x ≡ d ∷ y → c ≡ d
cons-head w = cc

cons-tail : {c d : ℕ} {x y : List ℕ} → c ∷ x ≡ d ∷ y → x ≡ y
cons-tail w = cc

-- `strcmp` of two strings of bytes ends; its result is 0 exactly if they are equal, and negative, as a
-- 32-bit integer, exactly if the first comes before the second in a dictionary.
pub strcmp-Compares :
    (fuel a b : ℕ) (m : Bytes) (x y : List ℕ)
    → Holds m a x
    → Holds m b y
    → AllBytes x
    → AllBytes y
    → length x < fuel
    → (r : ℕ) × (strcmp fuel m a b ≡ some r) × Compares x y r
unfolding strcmp Holds precedes
strcmp-Compares zero a b m x y hx hy ax ay f = absurd (omega arith)
strcmp-Compares (suc fuel) a b m [] [] hx hy ax ay f =
    (0, ground (arith, hx, hy), (((λ q. refl), (λ q. refl)), refl))
strcmp-Compares (suc fuel) a b m [] (d ∷ y) hx (hb, n, hy) ax ay f = (
  sub32 0 d,
  ground (arith, hx, hb),
  (
    ((λ q. absurd (omega (arith, q, n, ay))), (λ q. absurd (ground (arith, q)))),
    ground (arith, n, ay),
  ),
)
strcmp-Compares (suc fuel) a b m (c ∷ x) [] (ha, n, hx) hy ax ay f = (
  sub32 c 0,
  ground (arith, ha, hy, n),
  (
    ((λ q. absurd (omega (arith, q, n, ax))), (λ q. absurd (ground (arith, q)))),
    ground (arith, n, ax),
  ),
)
strcmp-Compares (suc fuel) a b m (c ∷ x) (d ∷ y) (ha, n, hx) (hb, k, hy) ax ay f =
    elim (Bool-cases (c == d)) [
      | inl q ↦
          let (r, e, ((to, from), o)) =
            strcmp-Compares fuel (a + 1) (b + 1) m x y hx hy ax.1 ay.1 (omega (arith, f)) in
          let z : not (m a == 0) && (m a == m b) ≡ true = ground (arith, ha, hb, n, q) in
          let c' : c ≡ d = ground arith in
          (r, rw z e, (((λ w. cc (c', to w)), (λ w. from (cons-tail w))), o ∙ ground (arith, q)))
      | inr q ↦
          let z : not (m a == 0) && (m a == m b) ≡ false = ground (arith, ha, hb, q) in
          (
            sub32 c d,
            rw (z, ha, hb) refl,
            (
              (
                (λ w. absurd (ground (arith, w, q, ax, ay))),
                (λ w. absurd (ground (arith, q, cons-head w))),
              ),
              ground (arith, q, ax, ay),
            ),
          )
    ]
