-- ===== src/Pmm/Bitmap.antt =====
-- The bit operations of src/src/classes/pmm.class.h: one page's bit is written, the others stay.
use shiro.Base.{
  ℕ, zero, suc, ◌≤◌, ◌+◌, ◌/◌, ◌%◌, ◌<◌, ◌≡◌, true, false, not, ◌&&◌, ◌||◌, ltb, ◌==◌, ==_iff,
  Bool-cases, inl, inr, arith, if◌then◌else◌,
}
use shiro.Base.Bytes.{or-lt, and-lt, or-bit, clear-bit}
use shiro.Pmm.{Bytes, set_used, set_free, is_used}

abbrev pub IsBytes : Bytes → Type 0
IsBytes m = (i : ℕ) → m i < 256

module _ (m : Bytes) (v : IsBytes m) (p : ℕ) where
  pub set_used-IsBytes : IsBytes (set_used m p)
  unfolding set_used
  set_used-IsBytes i = ground (arith, v i, or-lt (m (p / 8)) (p % 8) 0 (v (p / 8)))

  pub set_free-IsBytes : IsBytes (set_free m p)
  unfolding set_free
  set_free-IsBytes i = ground (arith, v i, and-lt (m (p / 8)) (p % 8) 0 (v (p / 8)))

  split_page : (q : ℕ) → q / 8 ≡ p / 8 → (q == p) ≡ (q % 8 == p % 8)
  split_page q e = ground arith

  pub is_used-set_used : (q : ℕ) → is_used (set_used m p) q ≡ ((q == p) || is_used m q)
  unfolding set_used is_used
  is_used-set_used q = elim (Bool-cases (q / 8 == p / 8)) [
    | inl e ↦
        let e' : q / 8 ≡ p / 8 = (==_iff _ _).0 e in
        rw (e, split_page q e', e')
          (or-bit (m (p / 8)) (p % 8) (q % 8) (v (p / 8)) (omega arith) (omega arith))
    | inr e ↦ let ne : (q == p) ≡ false = ground arith in rw (e, ne)
  ]

  pub is_used-set_free : (q : ℕ) → is_used (set_free m p) q ≡ (not (q == p) && is_used m q)
  unfolding set_free is_used
  is_used-set_free q = elim (Bool-cases (q / 8 == p / 8)) [
    | inl e ↦
        let e' : q / 8 ≡ p / 8 = (==_iff _ _).0 e in
        rw (e, split_page q e', e')
          (clear-bit (m (p / 8)) (p % 8) (q % 8) (v (p / 8)) (omega arith) (omega arith))
    | inr e ↦ let ne : (q == p) ≡ false = ground arith in rw (e, ne)
  ]

-- How many of the first `n` pages are free.
unfoldable pub count_free : Bytes → ℕ → ℕ
count_free m zero = 0
count_free m (suc n) = (if is_used m n then 0 else 1) + count_free m n

pub count_free-le : (m : Bytes) (n : ℕ) → count_free m n ≤ n
unfolding count_free
count_free-le m zero = omega arith
count_free-le m (suc n) = ground (arith, count_free-le m n)

pub count_free-lt : (m : Bytes) (n p : ℕ) → p < n → is_used m p ≡ true → count_free m n < n
unfolding count_free
count_free-lt m zero p lt u = absurd (omega arith)
count_free-lt m (suc n) p lt u = ground (arith, count_free-lt m n p, count_free-le m n)

pub count_free-pos : (m : Bytes) (n p : ℕ) → p < n → is_used m p ≡ false → 0 < count_free m n
unfolding count_free
count_free-pos m zero p lt u = absurd (omega arith)
count_free-pos m (suc n) p lt u = ground (arith, count_free-pos m n p)

module _ (m : Bytes) (v : IsBytes m) (p : ℕ) where
  pub count_free-set_free :
      (n : ℕ)
      → is_used m p ≡ true
      → count_free (set_free m p) n ≡ (if ltb p n then 1 else 0) + count_free m n
  unfolding count_free
  count_free-set_free zero u = ground arith
  count_free-set_free (suc n) u = ground (arith, count_free-set_free n, is_used-set_free m v p n)

  pub count_free-set_used :
      (n : ℕ)
      → is_used m p ≡ false
      → count_free m n ≡ (if ltb p n then 1 else 0) + count_free (set_used m p) n
  unfolding count_free
  count_free-set_used zero u = ground arith
  count_free-set_used (suc n) u = ground (arith, count_free-set_used n, is_used-set_used m v p n)
