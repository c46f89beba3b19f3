-- ===== src/Screen/Lines.antt =====
-- Lines that a command of src/src/classes/commands.class.h prints, on the content rows of
-- src/src/classes/shell.class.h.
use shiro.Devices.Vga.{set_color}
use shiro.Screen.{
  Screen, blank, scroll, write_c, write_chars, screen_width, content_starting_point, last_line,
}
use shiro.Screen.Scroll.{no_newline, write_c-cell, scroll-cell}
use shiro.Base.{
  ℕ, suc, ◌+◌, ◌-◌, ◌*◌, ◌<◌, ◌≤◌, ◌≡◌, refl, ap, ◌∙◌, Bool, true, false, ◌&&◌, List, [], ◌∷◌, ◌++◌,
  ◌==◌, Bool-cases, inl, inr, length, get_or, leb, ltb, if◌then◌else◌, arith,
}

-- `Commands::Print` of one line after the other.
unfoldable pub print_lines : List (List ℕ) → Screen → Screen
print_lines [] s = s
print_lines (l ∷ ls) s = print_lines ls (write_c l s.terminal_color s)

-- Lines of at most 79 characters without a line break.
abbrev pub fit : List (List ℕ) → Bool
fit [] = true
fit (l ∷ ls) = no_newline l && leb (length l) 79 && fit ls

-- Writing characters changes neither the row nor the colour of the terminal.
write_chars-kept :
    (text : List ℕ) (color gi : ℕ) (s : Screen)
    → ((write_chars text color gi s).content_current_y ≡ s.content_current_y)
      × ((write_chars text color gi s).terminal_color ≡ s.terminal_color)
unfolding write_chars scroll
write_chars-kept [] color gi s = (refl, refl)
write_chars-kept (c ∷ text) color gi s = elim (Bool-cases (c == 10)) [
  | inl q ↦ rw q (write_chars-kept text color gi (scroll s))
  | inr q ↦ rw q (write_chars-kept text color _ _)
]

pub write_c-kept :
    (text : List ℕ) (color : ℕ) (s : Screen)
    → ((write_c text color s).content_current_y ≡ s.content_current_y)
      × ((write_c text color s).terminal_color ≡ s.terminal_color)
unfolding write_c scroll
write_c-kept text color s = write_chars-kept text color 0 s

-- The last row is blank, and the cursor at its left: so it is after every print.
pub record IsFresh (s : Screen) : Type 0 where
  pub left : s.content_current_x ≡ 0
  pub row : (k : ℕ) → k < 80 → s.cells (last_line + k) ≡ blank s

pub write_c-IsFresh : (text : List ℕ) (color : ℕ) (s : Screen) → IsFresh (write_c text color s)
unfolding write_c scroll
write_c-IsFresh text color s =
    let t = write_chars text color 0 s in
    record { left = refl; row = λ k h. scroll-cell t (last_line + k) ∙ ground (arith, h) }

-- What is on the rows goes up by one row for each line that is printed after it.
pub print_lines-up :
    (ls : List (List ℕ)) (s : Screen) (j : ℕ)
    → fit ls ≡ true
    → s.content_current_x ≡ 0
    → content_starting_point ≤ j
    → j + screen_width * length ls < last_line
    → (print_lines ls s).cells j ≡ s.cells (j + screen_width * length ls)
unfolding print_lines
print_lines-up [] s j h left lo hi = let e : j + 80 * 0 ≡ j = omega arith in rw e refl
print_lines-up (l ∷ ls) s j h left lo hi =
    let s' = write_c l s.terminal_color s in
    let f = write_c-IsFresh l s.terminal_color s in
    let ih = print_lines-up ls s' j (ground (arith, h)) f.left lo (omega (arith, hi)) in
    let c =
      write_c-cell l s.terminal_color s (j + 80 * length ls) (ground (arith, h)) left
        (ground (arith, h)) (omega (arith, lo)) (omega (arith, hi)) in
    let up : ltb (j + 80 * length ls) (last_line - screen_width) ≡ true = ground (arith, hi) in
    let e : j + 80 * length ls + 80 ≡ j + 80 * suc (length ls) = omega arith in
    ih ∙ c ∙ rw (up, e) refl

-- A row that shows a line from the left, and blanks behind it.
abbrev pub row_cell : List ℕ → ℕ → ℕ → ℕ → ℕ
row_cell l color empty k = if ltb k (length l) then set_color (get_or l k 0) color else empty

-- The row above the last after a print.
pub write_c-row :
    (text : List ℕ) (color : ℕ) (s : Screen) (k : ℕ)
    → no_newline text ≡ true
    → length text ≤ 79
    → IsFresh s
    → k < screen_width
    → (write_c text color s).cells (1760 + k) ≡ row_cell text color (blank s) k
write_c-row text color s k plain short f low =
    let c =
      write_c-cell text color s (1760 + k) plain f.left short (omega arith) (omega (arith, low)) in
    let a : ltb (1760 + k) 1760 ≡ false = ground arith in
    let b : ltb (1760 + k) 1840 ≡ true = ground (arith, low) in
    let e : 1760 + k + 80 ≡ 1840 + k = omega arith in
    let d : ltb (1840 + k) (1840 + length text) ≡ ltb k (length text) = ground arith in
    let g : 1840 + k - 1840 ≡ k = omega arith in
    let r = f.row k low in c ∙ rw (a, b, e, d, g, r) refl

print_lines-append :
    (ls ms : List (List ℕ)) (s : Screen)
    → print_lines (ls ++ ms) s ≡ print_lines ms (print_lines ls s)
unfolding print_lines
print_lines-append [] ms s = refl
print_lines-append (l ∷ ls) ms s = print_lines-append ls ms (write_c l s.terminal_color s)

pub print_lines-IsFresh : (ls : List (List ℕ)) (s : Screen) → IsFresh s → IsFresh (print_lines ls s)
unfolding print_lines
print_lines-IsFresh [] s f = f
print_lines-IsFresh (l ∷ ls) s f =
    print_lines-IsFresh ls (write_c l s.terminal_color s) (write_c-IsFresh l s.terminal_color s)

fit-append : (ls ms : List (List ℕ)) → fit (ls ++ ms) ≡ true → (fit ls ≡ true) × (fit ms ≡ true)
fit-append [] ms h = (refl, h)
fit-append (l ∷ ls) ms h =
    let r = fit-append ls ms (ground (arith, h)) in (ground (arith, h, r.0), r.1)

-- Lines of at most 79 characters that are printed one after the other stand on the screen in their
-- order: a line with at most 20 after it is shown whole, from the left, on a row of its own, as many
-- rows above the last as there are lines from it on, and the rest of its row is blank.
pub print_lines-rows :
    (before : List (List ℕ)) (l : List ℕ) (behind : List (List ℕ)) (s : Screen) (k : ℕ)
    → fit (before ++ l ∷ behind) ≡ true
    → IsFresh s
    → length behind ≤ 20
    → k < screen_width
    → let t = print_lines before s in
      (print_lines (before ++ l ∷ behind) s).cells
        (last_line - screen_width * suc (length behind) + k)
      ≡ row_cell l t.terminal_color (blank t) k
unfolding print_lines
print_lines-rows before l behind s k h fresh few low =
    let t = print_lines before s in
    let f = print_lines-IsFresh before s fresh in
    let p = fit-append before (l ∷ behind) h in
    let u = write_c l t.terminal_color t in
    let j = last_line - 80 * suc (length behind) + k in
    let e : j + 80 * length behind ≡ 1760 + k = omega (arith, few) in
    let up =
      print_lines-up behind u j (ground (arith, p.1)) (write_c-IsFresh l t.terminal_color t).left
        (omega (arith, few)) (omega (arith, few, low)) in
    let c = write_c-row l t.terminal_color t k (ground (arith, p.1)) (ground (arith, p.1)) f low in
    ap (λ r. r.cells j) (print_lines-append before (l ∷ behind) s) ∙ up ∙ rw e c
