-- ===== src/Screen/Scroll.antt =====
-- `Scroll` and `WriteC` of src/src/classes/shell.class.h: where the cells go.
use shiro.Devices.Vga.{set_color}
use shiro.Base.{
  ℕ, zero, suc, ◌+◌, ◌-◌, ◌*◌, ◌<◌, ◌≤◌, ◌≡◌, refl, ap, ◌∙◌, Bool, true, false, not, ◌&&◌, List, [],
  ◌∷◌, length, get_or, leb, ltb, ◌==◌, if◌then◌else◌, arith, Bool-cases, inl, inr,
}
use shiro.Screen.{
  Screen, Cells, put, blank, fill, copy_cells, copy_rows, scroll, write_chars, write_c,
  screen_width, content_starting_point, footer_starting_point, content_size, last_line,
}

pub fill-cell :
    (n pos v : ℕ) (m : Cells) (j : ℕ)
    → fill n pos v m j ≡ (if leb pos j && ltb j (pos + n) then v else m j)
unfolding fill
fill-cell zero pos v m j = ground arith
fill-cell (suc n) pos v m j = ground (arith, fill-cell n (pos + 1) v (put m pos v) j)

copy_cells-cell :
    (n row col : ℕ) (m : Cells) (j : ℕ)
    → col + n ≤ screen_width
    → copy_cells n row col m j ≡ (
        if leb (row * screen_width + col) j && ltb j (row * screen_width + col + n)
        then m (j + screen_width)
        else m j)
unfolding copy_cells
copy_cells-cell zero row col m j h = ground arith
copy_cells-cell (suc n) row col m j h =
    let ih =
      copy_cells-cell n row (col + 1)
        (put m (row * screen_width + col) (m ((row + 1) * screen_width + col))) j (omega arith) in
    let e : (row + 1) * screen_width + col ≡ row * screen_width + col + screen_width =
      omega arith in
    elim (Bool-cases (j == row * screen_width + col)) [
      | inl q ↦ let q' : j ≡ row * screen_width + col = ground arith in ground (arith, ih, e, q', q)
      | inr q ↦ ground (arith, ih, q)
    ]

copy_rows-cell :
    (n row : ℕ) (m : Cells) (j : ℕ)
    → copy_rows n row m j ≡ (
        if leb (row * screen_width) j && ltb j ((row + n) * screen_width)
        then m (j + screen_width)
        else m j)
unfolding copy_rows
copy_rows-cell zero row m j = ground arith
copy_rows-cell (suc n) row m j = ground (
  arith,
  copy_rows-cell n (row + 1) (copy_cells screen_width row 0 m) j,
  copy_cells-cell screen_width row 0 m j,
  copy_cells-cell screen_width row 0 m (j + screen_width),
)

-- `Scroll` moves every content row up by one, blanks the last, and leaves the cells outside of the
-- content rows alone.
pub scroll-cell :
    (s : Screen) (j : ℕ)
    → (scroll s).cells j ≡ (
        if leb content_starting_point j && ltb j last_line
        then s.cells (j + screen_width)
        else if leb last_line j && ltb j footer_starting_point
        then blank s
        else s.cells j)
unfolding scroll
scroll-cell s j = ground (
  arith,
  fill-cell screen_width last_line (blank s) (copy_rows 21 2 s.cells) j,
  copy_rows-cell 21 2 s.cells j,
)

-- A text without a line break.
abbrev pub no_newline : List ℕ → Bool
no_newline [] = true
no_newline (c ∷ text) = not (c == 10) && no_newline text

-- The first character and the others, as one text.
char_at :
    (text : List ℕ) (color x c : ℕ) (s : Screen) (j : ℕ)
    → (if leb (last_line + (x + 1)) j && ltb j (last_line + (x + 1) + length text)
        then set_color (get_or text (j - (last_line + (x + 1))) 0) color
        else put s.cells (last_line + x) (set_color c color) j)
      ≡ (if leb (last_line + x) j && ltb j (last_line + x + length (c ∷ text))
          then set_color (get_or (c ∷ text) (j - (last_line + x)) 0) color
          else s.cells j)
char_at text color x c s j = elim (Bool-cases (j == last_line + x)) [
  | inl q ↦ let z : j - (last_line + x) ≡ zero = ground arith in rw z (ground (arith, q))
  | inr q ↦ elim (Bool-cases (leb (last_line + x) j)) [
    | inl le ↦
        let z : j - (last_line + x) ≡ suc (j - (last_line + (x + 1))) = ground arith in
        rw z (ground (arith, q, le))
    | inr gt ↦ ground (arith, q, gt)
  ]
]

-- A text that ends before the last cell is written from the cursor on.
write_chars-cell :
    (text : List ℕ) (color gi x : ℕ) (s : Screen) (j : ℕ)
    → no_newline text ≡ true
    → s.content_current_x ≡ x
    → gi + length text < content_size - 1
    → last_line + x + length text ≤ content_size - 1
    → ((write_chars text color gi s).cells j ≡ (
        if leb (last_line + x) j && ltb j (last_line + x + length text)
        then set_color (get_or text (j - (last_line + x)) 0) color
        else s.cells j))
      × ((write_chars text color gi s).terminal_color ≡ s.terminal_color)
unfolding write_chars
write_chars-cell [] color gi x s j plain at low fits = (ground arith, refl)
write_chars-cell (c ∷ text) color gi x s j plain at low fits =
    let n : (c == 10) ≡ false = ground (arith, plain) in
    let l : leb (content_size - 2) gi ≡ false = ground arith in
    let s' = record s {
      cells = put s.cells (last_line + x) (set_color c color);
      content_current_x = x + 1;
    } in
    let step : write_chars (c ∷ text) color gi s ≡ write_chars text color (last_line + x) s' =
      rw (n, l, at) refl in
    let ih =
      write_chars-cell text color (last_line + x) (x + 1) s' j (ground (arith, plain)) refl
        (omega (arith, fits)) (omega (arith, fits)) in
    (
      ap (λ r. r.cells j) step ∙ ih.0 ∙ char_at text color x c s j,
      ap (λ r. r.terminal_color) step ∙ ih.1,
    )

-- `WriteC` of a text without a line break, of at most 79 characters, with the cursor at the left: the
-- text stands in the row above the last, in its colour, and every row above has moved up by one. The
-- last row is blank.
pub write_c-cell :
    (text : List ℕ) (color : ℕ) (s : Screen) (j : ℕ)
    → no_newline text ≡ true
    → s.content_current_x ≡ 0
    → length text ≤ 79
    → content_starting_point ≤ j
    → j < footer_starting_point
    → (write_c text color s).cells j ≡ (
        if ltb j (last_line - screen_width)
        then s.cells (j + screen_width)
        else if ltb j last_line
        then (if ltb (j + screen_width) (last_line + length text)
            then set_color (get_or text (j + screen_width - last_line) 0) color
            else s.cells (j + screen_width))
        else blank s)
unfolding write_c
write_c-cell text color s j plain at short lo hi =
    let w =
      write_chars-cell text color 0 0 s (j + screen_width) plain at (omega arith) (omega arith) in
    let c = scroll-cell (write_chars text color 0 s) j in
    let b = ap (set_color 32) w.1 in ground (arith, w.0, c, b)
