-- ===== src/Panic/Draws.antt =====
-- Texts written one behind the other on the screen of src/src/classes/panic.class.h.
use shiro.Screen.{Cells, put}
use shiro.Panic.{Draw, cell, write_at, draw_all}
use shiro.Base.{
  ℕ, zero, suc, ◌+◌, ◌<◌, ◌≤◌, ◌≡◌, refl, ◌∙◌, true, false, ◌&&◌, List, [], ◌∷◌, ◌++◌, length,
  get_or, leb, ltb, ◌==◌, arith,
}

-- The pieces lie one behind the other, from `lo` to `hi`.
abbrev pub Within : ℕ → ℕ → List Draw → Type 0
Within lo hi [] = lo ≤ hi
Within lo hi (d ∷ ds) = (lo ≤ d.0) × Within (d.0 + length d.1) hi ds

-- The screen has every character of every piece at its place.
abbrev pub Shown : ℕ → Cells → List Draw → Type 0
Shown attr screen [] = Unit
Shown attr screen (d ∷ ds) =
    ((k : ℕ) → k < length d.1 → screen (d.0 + k) ≡ cell attr (get_or d.1 k 0))
    × Shown attr screen ds

pub Within-low : (ds : List Draw) (lo lo' hi : ℕ) → lo' ≤ lo → Within lo hi ds → Within lo' hi ds
Within-low [] lo lo' hi h w = omega arith
Within-low (d ∷ ds) lo lo' hi h (a, w) = (omega arith, w)

Within-le : (ds : List Draw) (lo hi : ℕ) → Within lo hi ds → lo ≤ hi
Within-le [] lo hi w = w
Within-le (d ∷ ds) lo hi (h, w) = omega (arith, h, Within-le ds (d.0 + length d.1) hi w)

pub Within-append :
    (ds es : List Draw) (lo mid hi : ℕ)
    → Within lo mid ds
    → Within mid hi es
    → Within lo hi (ds ++ es)
Within-append [] es lo mid hi a b = Within-low es mid lo hi a b
Within-append (d ∷ ds) es lo mid hi (h, a) b =
    (h, Within-append ds es (d.0 + length d.1) mid hi a b)

-- Cells that a text does not reach.
write_at-outside :
    (attr off : ℕ) (s : List ℕ) (m : Cells) (j : ℕ)
    → (leb off j && ltb j (off + length s)) ≡ false
    → write_at attr off s m j ≡ m j
unfolding write_at
write_at-outside attr off [] m j h = refl
write_at-outside attr off (c ∷ s) m j h =
    ground (arith, h, write_at-outside attr (off + 1) s (put m off (cell attr c)) j)

write_at-inside :
    (attr off : ℕ) (s : List ℕ) (m : Cells) (k : ℕ)
    → k < length s
    → write_at attr off s m (off + k) ≡ cell attr (get_or s k 0)
unfolding write_at
write_at-inside attr off [] m k h = absurd (omega arith)
write_at-inside attr off (c ∷ s) m zero h =
    let q : (off + 0 == off) ≡ true = ground arith in
    let o = write_at-outside attr (off + 1) s (put m off (cell attr c)) (off + 0) (ground arith) in
    o ∙ rw q refl
write_at-inside attr off (c ∷ s) m (suc k) h =
    let e : off + suc k ≡ off + 1 + k = omega arith in
    rw e (write_at-inside attr (off + 1) s (put m off (cell attr c)) k (omega arith))

pub draw_all-outside :
    (attr : ℕ) (ds : List Draw) (lo hi : ℕ) (m : Cells) (j : ℕ)
    → Within lo hi ds
    → (leb lo j && ltb j hi) ≡ false
    → draw_all attr ds m j ≡ m j
unfolding draw_all
draw_all-outside attr [] lo hi m j w h = refl
draw_all-outside attr (d ∷ ds) lo hi m j (le, w) h =
    let hi' = Within-le ds (d.0 + length d.1) hi w in
    draw_all-outside attr ds (d.0 + length d.1) hi (write_at attr d.0 d.1 m) j w
      (ground (arith, h, hi'))
    ∙ write_at-outside attr d.0 d.1 m j (ground (arith, h, hi'))

-- Pieces one behind the other are all shown: none is written over.
pub draw_all-Shown :
    (attr : ℕ) (ds : List Draw) (lo hi : ℕ) (m : Cells)
    → Within lo hi ds
    → Shown attr (draw_all attr ds m) ds
unfolding draw_all
draw_all-Shown attr [] lo hi m w = tt
draw_all-Shown attr (d ∷ ds) lo hi m (le, w) = (
  λ k h.
      draw_all-outside attr ds (d.0 + length d.1) hi (write_at attr d.0 d.1 m) (d.0 + k) w
        (ground (arith, h))
      ∙ write_at-inside attr d.0 d.1 m k h,
  draw_all-Shown attr ds (d.0 + length d.1) hi (write_at attr d.0 d.1 m) w,
)
