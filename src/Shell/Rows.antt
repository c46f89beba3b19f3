-- ===== src/Shell/Rows.antt =====
-- The bars of src/src/classes/shell.class.h: the prompt row, the status bar and the header.
use shiro.Devices.Vga.{set_color}
use shiro.Screen.{Cells, put, fill}
use shiro.Screen.Scroll.{fill-cell}
use shiro.Shell.{Shell, put_text, footer_chars, write_f, update_screen, footer_color, status_color}
use shiro.Shell.Bars.{start_terminal_footer, prompt, render_status}
use shiro.Shell.View.{put_text-cell}
use shiro.Base.{
  ℕ, zero, suc, ◌+◌, ◌-◌, ◌<◌, ◌≤◌, ◌≡◌, refl, ap, ◌∙◌, Bool, true, false, ◌&&◌, List, [], ◌∷◌,
  length, take, length-take, get_or, min, leb, ltb, if◌then◌else◌, arith, Bool-cases, inl, inr,
}

-- The shell after a text that fits in the prompt's row: it stands at the row's column, which moves
-- behind it.
abbrev footer_at : Shell → ℕ → List ℕ → Cells → ℕ → Shell
footer_at s pos text m x = record s {
  terminal_screen_footer = put_text footer_color pos text m;
  footer_current_x = x;
}

footer_chars-fits :
    (text : List ℕ) (gi : ℕ) (s : Shell)
    → s.footer_current_x + length text ≤ 80
    → gi + length text < 2000
    → footer_chars text gi s
      ≡ footer_at s
          (1920 + s.footer_current_x)
          text
          s.terminal_screen_footer
          (s.footer_current_x + length text)
unfolding footer_chars put_text
footer_chars-fits [] gi s fits low =
    let e : s.footer_current_x ≡ s.footer_current_x + 0 = omega arith in
    ap (λ v. record s { footer_current_x = v }) e
footer_chars-fits (c ∷ text) gi s fits low =
    let l : leb 1999 gi ≡ false = ground arith in
    let x = s.footer_current_x in
    let m = put s.terminal_screen_footer (1920 + x) (set_color c footer_color) in
    let ih =
      footer_chars-fits text (1920 + x)
        (record s { terminal_screen_footer = m; footer_current_x = x + 1 }) (omega (arith, fits))
        (omega (arith, fits)) in
    let e1 : 1920 + (x + 1) ≡ 1920 + x + 1 = omega arith in
    let e2 : x + 1 + length text ≡ x + suc (length text) = omega arith in
    rw l (
      ih
      ∙ ap (λ p. footer_at s p text m (x + 1 + length text)) e1
      ∙ ap (footer_at s (1920 + x + 1) text m) e2)

-- The prompt's row with a line of the keyboard: `Shiro> `, the line, and blanks.
abbrev pub footer_row : List ℕ → ℕ → ℕ
footer_row line x =
    if ltb x 7
    then set_color (get_or prompt x 0) footer_color
    else if ltb x (7 + length line)
    then set_color (get_or line (x - 7) 0) footer_color
    else set_color 32 footer_color

-- What `StartTerminalFooter` leaves: the cells and the column.
prompt_only :
    (size : ℕ) (s : Shell)
    → ((start_terminal_footer size s).terminal_screen_footer
        ≡ put_text footer_color 1920 prompt
            (fill 80 1920 (set_color 32 footer_color) s.terminal_screen_footer))
      × ((start_terminal_footer size s).footer_current_x ≡ 7)
unfolding write_f start_terminal_footer update_screen
prompt_only size s =
    let m = fill 80 1920 (set_color 32 footer_color) s.terminal_screen_footer in
    let cleared = record s { terminal_screen_footer = m; footer_current_x = 0 } in
    let e = footer_chars-fits prompt 0 cleared (omega arith) (omega arith) in
    (ap (λ t. t.terminal_screen_footer) e, ap (λ t. t.footer_current_x) e)

prompt_cell :
    (size : ℕ) (s : Shell) (x : ℕ)
    → x < 80
    → (start_terminal_footer size s).terminal_screen_footer (1920 + x) ≡ footer_row [] x
prompt_cell size s x low =
    let m = fill 80 1920 (set_color 32 footer_color) s.terminal_screen_footer in
    let d : 1920 + x - 1920 ≡ x = omega arith in
    ap (λ f. f (1920 + x)) (prompt_only size s).0
    ∙ put_text-cell footer_color 1920 prompt m (1920 + x)
    ∙ rw d (
        ground (
          arith,
          low,
          fill-cell 80 1920 (set_color 32 footer_color) s.terminal_screen_footer (1920 + x),
        ))

-- `StartTerminalFooter` and then `WriteF` of a line of at most 73 characters show it behind the prompt,
-- on a row that is otherwise blank; without a line the prompt stands alone.
pub write_f-row :
    (size size' : ℕ) (line : List ℕ) (s : Shell) (x : ℕ)
    → length line ≤ 73
    → x < 80
    → ((write_f size line (start_terminal_footer size' s)).terminal_screen_footer (1920 + x)
        ≡ footer_row line x)
      × ((start_terminal_footer size' s).terminal_screen_footer (1920 + x) ≡ footer_row [] x)
unfolding write_f update_screen
write_f-row size size' line s x fits low =
    let t = start_terminal_footer size' s in
    let p = prompt_only size' s in
    let e = footer_chars-fits line 0 t (omega (arith, p.1)) (omega arith) in
    let c =
      put_text-cell footer_color (1920 + t.footer_current_x) line t.terminal_screen_footer
        (1920 + x) in
    let d : 1920 + x - (1920 + t.footer_current_x) ≡ x - 7 = omega (arith, p.1) in
    let q = prompt_cell size' s x low in
    (ap (λ r. r.terminal_screen_footer (1920 + x)) e ∙ c ∙ rw d (ground (arith, q, p.1)), q)

get_or-take : (n : ℕ) (text : List ℕ) (i d : ℕ) → i < n → get_or (take n text) i d ≡ get_or text i d
get_or-take zero text i d h = absurd (omega arith)
get_or-take (suc n) [] i d h = refl
get_or-take (suc n) (c ∷ text) zero d h = refl
get_or-take (suc n) (c ∷ text) (suc i) d h = get_or-take n text i d (omega arith)

and_assoc : (a b c : Bool) → (a && (b && c)) ≡ (a && b && c)
and_assoc true b c = refl
and_assoc false b c = refl

status_range :
    (x l n : ℕ)
    → n ≡ min 78 l
    → (leb 81 (80 + x) && ltb (80 + x) (81 + n)) ≡ (ltb 0 x && ltb x 79 && ltb x (1 + l))
status_range x l n h =
    let a : leb 81 (80 + x) ≡ ltb 0 x = ground arith in
    let b : ltb (80 + x) (81 + n) ≡ ltb x (1 + n) = ground arith in
    let c : ltb x (1 + n) ≡ (ltb x 79 && ltb x (1 + l)) = ground (arith, h) in
    let d : (ltb 0 x && (ltb x 79 && ltb x (1 + l))) ≡ (ltb 0 x && ltb x 79 && ltb x (1 + l)) =
      and_assoc (ltb 0 x) (ltb x 79) (ltb x (1 + l)) in
    rw (a, b, c) d

-- The status bar with a text: a blank, at most 78 characters of the text, and blanks.
abbrev pub status_row : List ℕ → ℕ → ℕ
status_row text x =
    if ltb 0 x && ltb x 79 && ltb x (1 + length text)
    then set_color (get_or text (x - 1) 0) status_color
    else set_color 32 status_color

-- `RenderStatus` shows at most the first 78 characters of the text, with a blank on either side, and
-- blanks the rest of the row, whatever was there.
pub render_status-row :
    (text : List ℕ) (s : Shell) (x : ℕ)
    → x < 80
    → (render_status text s).terminal_screen_status (80 + x) ≡ status_row text x
unfolding render_status
render_status-row text s x low =
    let blank = set_color 32 status_color in
    let m = fill 80 80 blank s.terminal_screen_status in
    let d : 80 + x - 81 ≡ x - 1 = omega arith in
    let e : (leb 81 (80 + x) && ltb (80 + x) (81 + length (take 78 text)))
        ≡ (ltb 0 x && ltb x 79 && ltb x (1 + length text)) =
      status_range x (length text) (length (take 78 text)) (length-take 78 text) in
    let inside : (leb 80 (80 + x) && ltb (80 + x) 160) ≡ true = ground (arith, low) in
    let f : m (80 + x) ≡ blank =
      fill-cell 80 80 blank s.terminal_screen_status (80 + x) ∙ rw inside refl in
    put_text-cell status_color 81 (take 78 text) m (80 + x)
    ∙ rw (d, e)
        (elim (Bool-cases (ltb 0 x && ltb x 79 && ltb x (1 + length text))) [
          | inl y ↦ let g = get_or-take 78 text (x - 1) 0 (ground (arith, y)) in rw (y, g) refl
          | inr n ↦ rw n f
        ])
