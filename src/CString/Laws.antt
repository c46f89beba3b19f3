-- ===== src/CString/Laws.antt =====
-- What the functions of src/src/libs/string.h and src/src/libs/stdlib.h leave in memory.
use mathlib.Core.Path.{subst}
use shiro.CString.Memory.{
  Bytes, store, memset, memcpy_from, memcpy, copy_string, string_end, strcat, rand,
}
use shiro.Base.{
  ℕ, zero, suc, ◌+◌, ◌-◌, ◌%◌, ◌<◌, ◌≤◌, ◌≡◌, ◌≢◌, refl, ap, ◌∙◌, false, ◌&&◌, ◌⊎◌, inl, inr, List,
  [], ◌∷◌, ◌++◌, length, get_or, some, ltb, leb, ◌==◌, if◌then◌else◌, arith, Bool-cases, ◌>>=◌,
}

-- The memory holds a string at `p`, with its NUL.
unfoldable pub Holds : Bytes → ℕ → List ℕ → Type 0
Holds m p [] = m p ≡ 0
Holds m p (c ∷ l) = (m p ≡ c) × (c ≢ 0) × Holds m (p + 1) l

-- Memory that is the same where the string stands holds it too.
pub Holds-same :
    (m m' : Bytes) (p : ℕ) (l : List ℕ)
    → ((j : ℕ) → p ≤ j → j ≤ p + length l → m' j ≡ m j)
    → Holds m p l
    → Holds m' p l
unfolding Holds
Holds-same m m' p [] e h = e p (omega arith) (omega arith) ∙ h
Holds-same m m' p (c ∷ l) e (a, n, h) = (
  e p (omega arith) (omega arith) ∙ a,
  n,
  Holds-same m m' (p + 1) l (λ j lo hi. e j (omega arith) (omega arith)) h,
)

-- The ranges of a string of `n` characters at `s` and of the same string at `d` do not meet.
abbrev pub Apart : ℕ → ℕ → ℕ → Type 0
Apart d s n = (d + n < s) ⊎ (s + n < d)

other : (m : Bytes) (p v j : ℕ) → j ≢ p → store m p v j ≡ m j
other m p v j h = ground (arith, h)

copy_string-Holds :
    (fuel d s : ℕ) (m : Bytes) (l : List ℕ)
    → Holds m s l
    → length l < fuel
    → Apart d s (length l)
    → (m' : Bytes) × (copy_string fuel d s m ≡ some m')
      × Holds m' d l
      × ((j : ℕ) → (j < d) ⊎ (d + length l < j) → m' j ≡ m j)
unfolding copy_string Holds
copy_string-Holds zero d s m l h f apart = absurd (omega arith)
copy_string-Holds (suc fuel) d s m [] h f apart =
    (store m d (m s), ground (arith, h), ground (arith, h), λ j out. ground (arith, out))
copy_string-Holds (suc fuel) d s m (c ∷ l) (a, n, h) f apart =
    let m1 = store m d (m s) in
    let h1 = Holds-same m m1 (s + 1) l (λ j lo hi. ground (arith, apart)) h in
    let (m', e, g, same) =
      copy_string-Holds fuel (d + 1) (s + 1) m1 l h1 (omega (arith, f)) (omega (arith, apart)) in
    let z : (m s == 0) ≡ false = ground (arith, a, n) in
    let first : m1 d ≡ c = ground (arith, a) in
    (
      m',
      rw z e,
      (same d (inl (omega arith)) ∙ first, n, g),
      λ j out. same j (omega (arith, out)) ∙ other m d (m s) j (omega (arith, out)),
    )

string_end-Holds :
    (fuel d : ℕ) (m : Bytes) (l : List ℕ)
    → Holds m d l
    → length l < fuel
    → string_end fuel m d ≡ some (d + length l)
unfolding string_end Holds
string_end-Holds zero d m l h f = absurd (omega arith)
string_end-Holds (suc fuel) d m [] h f = ground (arith, h)
string_end-Holds (suc fuel) d m (c ∷ l) (a, n, h) f =
    ground (arith, a, n, string_end-Holds fuel (d + 1) m l h (omega (arith, f)))

-- Two strings one behind the other, where the first has lost its NUL.
Holds-append :
    (m : Bytes) (p : ℕ) (l r : List ℕ)
    → ((j : ℕ) → j < length l → (m (p + j) ≡ get_or l j 0) × (get_or l j 0 ≢ 0))
    → Holds m (p + length l) r
    → Holds m p (l ++ r)
unfolding Holds
Holds-append m p [] r e h = subst (λ q. Holds m q r) (omega arith) h
Holds-append m p (c ∷ l) r e h =
    let (a, n) = e 0 (omega arith) in
    (
      ap m (omega arith) ∙ a,
      n,
      Holds-append m (p + 1) l r
          (λ j low. let (b, k) = e (suc j) (omega arith) in (ap m (omega arith) ∙ b, k))
          (subst (λ q. Holds m q r) (omega arith) h),
    )

Holds-at :
    (m : Bytes) (p : ℕ) (l : List ℕ) (j : ℕ)
    → Holds m p l
    → j < length l
    → (m (p + j) ≡ get_or l j 0) × (get_or l j 0 ≢ 0)
unfolding Holds
Holds-at m p [] j h low = absurd (omega arith)
Holds-at m p (c ∷ l) zero (a, n, h) low = (ap m (omega arith) ∙ a, n)
Holds-at m p (c ∷ l) (suc j) (a, n, h) low =
    let (b, k) = Holds-at m (p + 1) l j h (omega arith) in (ap m (omega arith) ∙ b, k)

-- `strcat` ends and leaves the first string with the second behind it, and nothing else is changed, if
-- the second does not meet the place it is copied to.
pub strcat-Holds :
    (fuel d s : ℕ) (m : Bytes) (l r : List ℕ)
    → Holds m d l
    → Holds m s r
    → length l < fuel
    → length r < fuel
    → Apart (d + length l) s (length r)
    → (m' : Bytes) × (strcat fuel d s m ≡ some m')
      × Holds m' d (l ++ r)
      × ((j : ℕ) → (j < d + length l) ⊎ (d + length l + length r < j) → m' j ≡ m j)
unfolding strcat
strcat-Holds fuel d s m l r hl hr fl fr apart =
    let e = string_end-Holds fuel d m l hl fl in
    let (m', q, g, same) = copy_string-Holds fuel (d + length l) s m r hr fr apart in
    (
      m',
      ap (λ o. o >>= λ x. copy_string fuel x s m) e ∙ q,
      Holds-append m' d l r
          (λ j low.
            let (a, n) = Holds-at m d l j hl low in (same (d + j) (inl (omega arith)) ∙ a, n))
          g,
      same,
    )

memcpy_from-cell :
    (n i dst src : ℕ) (m : Bytes) (j : ℕ)
    → (dst ≤ src) ⊎ (src + i + n ≤ dst)
    → memcpy_from n i dst src m j
      ≡ (if leb (dst + i) j && ltb j (dst + i + n) then m (src + j - dst) else m j)
unfolding memcpy_from
memcpy_from-cell zero i dst src m j h = ground arith
memcpy_from-cell (suc n) i dst src m j h =
    let m1 = store m (dst + i) (m (src + i)) in
    let ih = memcpy_from-cell n (i + 1) dst src m1 j (omega (arith, h)) in
    elim (Bool-cases (j == dst + i)) [
      | inl q ↦ let e : src + j - dst ≡ src + i = ground arith in ih ∙ rw e (ground (arith, q))
      | inr q ↦ elim (Bool-cases (leb (dst + i) j && ltb j (dst + i + suc n))) [
        | inl inside ↦
            let away : (src + j - dst == dst + i) ≡ false = ground (arith, h, inside, q) in
            ih ∙ ground (arith, q, inside, away)
        | inr outside ↦ ih ∙ ground (arith, q, outside)
      ]
    ]

-- `memcpy` copies every byte of the source as it was, and changes no other, if the destination is not
-- inside the source behind its start.
pub memcpy-cell :
    (dst src size : ℕ) (m : Bytes) (j : ℕ)
    → (dst ≤ src) ⊎ (src + size ≤ dst)
    → memcpy dst src size m j ≡ (if leb dst j && ltb j (dst + size) then m (src + j - dst) else m j)
unfolding memcpy
memcpy-cell dst src size m j h =
    let e : dst + 0 ≡ dst = omega arith in
    memcpy_from-cell size 0 dst src m j (omega (arith, h)) ∙ rw e refl

-- `memset` writes the value, cut to a byte, to exactly its range.
pub memset-cell :
    (n s c : ℕ) (m : Bytes) (j : ℕ)
    → memset n s c m j ≡ (if leb s j && ltb j (s + n) then c % 256 else m j)
unfolding memset
memset-cell zero s c m j = ground arith
memset-cell (suc n) s c m j = ground (arith, memset-cell n (s + 1) c (store m s (c % 256)) j)

-- `rand` returns a number from 1 to 32767, never 0.
pub rand-range : (next : ℕ) → (1 ≤ (rand next).1) × ((rand next).1 ≤ 32767)
unfolding rand
rand-range next = omega arith
