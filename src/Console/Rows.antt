-- ===== src/Console/Rows.antt =====
-- The content rows after an echo and the lines of a command (src/src/classes/shell.class.h,
-- src/src/classes/commands.class.h).
use shiro.Screen.{Screen, Cells, screen_width, last_line, write_c}
use shiro.Screen.Scroll.{no_newline}
use shiro.Screen.Lines.{
  print_lines, fit, IsFresh, row_cell, print_lines-rows, print_lines-up, write_c-row,
  write_c-IsFresh, write_c-kept,
}
use shiro.Devices.Vga.{set_color}
use shiro.Shell.{
  Shell, current, on_current, content_color, terminal_color_echo, write_content, update_screen,
}
use shiro.Shell.Bars.{prompt, start_terminal_footer}
use shiro.Shell.View.{update_screen-view}
use shiro.Shell.Prompt.{footer-same}
use shiro.Commands.Run.{print_all}
use shiro.Base.{
  ℕ, suc, ◌+◌, ◌-◌, ◌*◌, ◌<◌, ◌≤◌, ◌≡◌, refl, ap, ◌∙◌, true, false, List, [], ◌∷◌, ◌++◌, length,
  ltb, ◌==◌, arith,
}

-- The current terminal after a line, and after the lines of a command.
pub current-write :
    (text : List ℕ) (color : ℕ) (s : Shell)
    → current (on_current (write_c text color) s) ≡ write_c text color (current s)
current-write text color s =
    let same : (s.current_terminal == s.current_terminal) ≡ true = ground arith in
    let k = write_c-kept text color (current s) in ground (arith, same, k.0, k.1)

pub print_all-current :
    (ls : List (List ℕ)) (s : Shell)
    → (current (print_all ls s) ≡ print_lines ls (current s))
      × ((print_all ls s).current_terminal ≡ s.current_terminal)
unfolding print_all print_lines write_content
print_all-current [] s = (refl, refl)
print_all-current (l ∷ ls) s =
    let ih = print_all-current ls (write_content l s) in
    (ih.0 ∙ ap (print_lines ls) (current-write l content_color s), ih.1)

abbrev blank_cell : ℕ
blank_cell = set_color 32 content_color

-- A line alone on the row that has `n` rows between it and the last.
abbrev pub OnRow : Cells → ℕ → List ℕ → ℕ → Type 0
OnRow m color l n =
    (k : ℕ)
    → k < screen_width
    → m (last_line - screen_width * suc n + k) ≡ row_cell l color blank_cell k

-- The lines one below the other, the last of them above the last row.
pub Stand : Cells → List (List ℕ) → Type 0
Stand m [] = Unit
Stand m (l ∷ ls) = OnRow m content_color l (length ls) × Stand m ls

print_lines-Stand :
    (ls : List (List ℕ)) (x : Screen)
    → fit ls ≡ true
    → IsFresh x
    → x.terminal_color ≡ content_color
    → length ls ≤ 21
    → Stand (print_lines ls x).cells ls
unfolding Stand print_lines
print_lines-Stand [] x h f c few = tt
print_lines-Stand (l ∷ ls) x h f c few = (
  λ k low.
      print_lines-rows [] l ls x k h f (omega (arith, few)) low
      ∙ ap (λ z. row_cell l z (set_color 32 z) k) c,
  print_lines-Stand ls (write_c l x.terminal_color x) (ground (arith, h))
      (write_c-IsFresh l x.terminal_color x) ((write_c-kept l x.terminal_color x).1 ∙ c)
      (omega (arith, few)),
)

-- A cell of the content rows, when the screen is refreshed after a line has run.
pub refreshed :
    (p : Shell) (j : ℕ)
    → 160 ≤ j
    → j < 1920
    → (update_screen 0 (start_terminal_footer 0 p)).screen j ≡ (current p).cells j
refreshed p j lo hi =
    let u = start_terminal_footer 0 p in
    let f = footer-same 0 p in
    let low : ltb j 2000 ≡ true = ground arith in
    let a : ltb j 80 ≡ false = ground arith in
    let b : ltb j 160 ≡ false = ground arith in
    let c : ltb j 1920 ≡ true = ground arith in
    update_screen-view 0 u j
    ∙ rw (low, a, b, c)
        (ap (λ g. g u.current_terminal j) f.0 ∙ ap (λ i. p.terminal_screens i j) f.1)

no_newline-prompt : (l : List ℕ) → no_newline l ≡ true → no_newline (prompt ++ l) ≡ true
no_newline-prompt l h = h

-- What the echo and the lines of a command leave on the content rows.
pub rows_after :
    (ls : List (List ℕ)) (text : List ℕ) (x : Screen)
    → fit ls ≡ true
    → no_newline text ≡ true
    → length text ≤ 79
    → IsFresh x
    → x.terminal_color ≡ content_color
    → length ls ≤ 20
    → let y = print_lines ls (write_c text terminal_color_echo x) in
      OnRow y.cells terminal_color_echo text (length ls) × Stand y.cells ls
rows_after ls text x h plain short f c few =
    let u = write_c text terminal_color_echo x in
    let fu = write_c-IsFresh text terminal_color_echo x in
    (
      λ k low.
          let j = last_line - screen_width * suc (length ls) + k in
          let e : j + screen_width * length ls ≡ 1760 + k = omega (arith, few) in
          print_lines-up ls u j h fu.left (omega (arith, few)) (omega (arith, few, low))
          ∙ ap u.cells e
          ∙ write_c-row text terminal_color_echo x k plain short f low
          ∙ ap (λ z. row_cell text terminal_color_echo (set_color 32 z) k) c,
      print_lines-Stand ls u h fu ((write_c-kept text terminal_color_echo x).1 ∙ c)
          (omega (arith, few)),
    )

-- Two memories that agree on the content rows show the same.
pub OnRow-same :
    (m m' : Cells) (color : ℕ) (l : List ℕ) (n : ℕ)
    → ((j : ℕ) → 160 ≤ j → j < 1920 → m' j ≡ m j)
    → n ≤ 20
    → OnRow m color l n
    → OnRow m' color l n
OnRow-same m m' color l n e few h k low =
    e (last_line - screen_width * suc n + k) (omega (arith, few)) (omega (arith, few, low))
    ∙ h k low

pub Stand-same :
    (m m' : Cells) (ls : List (List ℕ))
    → ((j : ℕ) → 160 ≤ j → j < 1920 → m' j ≡ m j)
    → length ls ≤ 20
    → Stand m ls
    → Stand m' ls
unfolding Stand
Stand-same m m' [] e few h = tt
Stand-same m m' (l ∷ ls) e few (a, b) = (
  OnRow-same m m' content_color l (length ls) e (omega (arith, few)) a,
  Stand-same m m' ls e (omega (arith, few)) b,
)
