-- ===== src/Console/Session.antt =====
-- From a line at the prompt to the rows on the screen: `Update` of src/src/classes/shell.class.h with
-- `Dispatch` of src/src/classes/commands.class.h.
use mathlib.Core.Path.{subst}
use shiro.Screen.{Screen, last_line, write_c}
use shiro.Screen.Scroll.{no_newline}
use shiro.Screen.Lines.{print_lines, fit, IsFresh, write_c-IsFresh, print_lines-IsFresh}
use shiro.Devices.Vga.{set_color}
use shiro.Keyboard.{Keyboard}
use shiro.Shell.{Shell, current, terminal_color_echo, write_c_echo, update_screen}
use shiro.Shell.Bars.{prompt, start_terminal_footer}
use shiro.Shell.Editor.{update}
use shiro.Shell.Prompt.{chosen, footer-same, update-runs}
use shiro.Commands.Run.{World, prints, effect, apply, dispatch_on, print_all}
use shiro.Console.Rows.{
  OnRow, Stand, current-write, print_all-current, refreshed, rows_after, OnRow-same, Stand-same,
}
use shiro.Base.{
  ℕ, ◌+◌, ◌<◌, ◌≤◌, ◌≡◌, ◌≢◌, refl, sym, ap, ◌∙◌, true, List, [], ◌∷◌, ◌++◌, length, arith,
}

-- The terminal that is current after the function key, as a screen.
abbrev pub shown_terminal : Keyboard → Shell → Screen
shown_terminal kb s =
    current (record s { current_terminal = chosen kb.function_key s.current_terminal })

-- A shell that has run a line: the echo and the lines of the command on the screen.
pub record Ran (s : Shell) (l : List ℕ) (ls : List (List ℕ)) : Type 0 where
  pub echo : OnRow s.screen terminal_color_echo (prompt ++ l) (length ls)
  pub lines : Stand s.screen ls
  pub fresh : IsFresh (current s)

Ran-typed :
    (t : Shell) (l : List ℕ) (ls : List (List ℕ))
    → no_newline l ≡ true
    → length l ≤ 48
    → fit ls ≡ true
    → length ls ≤ 20
    → IsFresh (current t)
    → Ran
        (update_screen 0 (start_terminal_footer 0 (print_all ls (write_c_echo (prompt ++ l) t))))
        l
        ls
unfolding write_c_echo update_screen
Ran-typed t l ls plain short h few f =
    let text = prompt ++ l in
    let e = write_c_echo text t in
    let p = print_all ls e in
    let s = start_terminal_footer 0 p in
    let u = write_c text terminal_color_echo (current t) in
    let pc =
      (print_all-current ls e).0 ∙ ap (print_lines ls) (current-write text terminal_color_echo t) in
    let rows = rows_after ls text (current t) h plain (omega (arith, short)) f refl few in
    let same : (j : ℕ)
        → 160 ≤ j
        → j < 1920
        → (update_screen 0 s).screen j ≡ (print_lines ls u).cells j =
      λ j lo hi. refreshed p j lo hi ∙ ap (λ x. x.cells j) pc in
    let g = print_lines-IsFresh ls u (write_c-IsFresh text terminal_color_echo (current t)) in
    let b = footer-same 0 p in
    record {
      echo =
          OnRow-same (print_lines ls u).cells (update_screen 0 s).screen terminal_color_echo text
            (length ls) same few rows.0;
      lines = Stand-same (print_lines ls u).cells (update_screen 0 s).screen ls same few rows.1;
      fresh = record {
        left = b.2 ∙ ap (λ x. x.content_current_x) pc ∙ g.left;
        row = λ k low.
            ap (λ m. m s.current_terminal (last_line + k)) b.0
            ∙ ap (λ i. p.terminal_screens i (last_line + k)) b.1
            ∙ ap (λ x. x.cells (last_line + k)) pc
            ∙ g.row k low
            ∙ ap (λ x. set_color 32 x.terminal_color) (sym pc);
      };
    }

ran_terminal :
    (t : Shell) (text : List ℕ) (ls : List (List ℕ))
    → (update_screen 0
        (start_terminal_footer 0 (print_all ls (write_c_echo text t)))).current_terminal
      ≡ t.current_terminal
unfolding write_c_echo update_screen
ran_terminal t text ls =
    let e = write_c_echo text t in (footer-same 0 (print_all ls e)).1 ∙ (print_all-current ls e).1

dispatch_on-prints :
    (w : World) (l : List ℕ) (ls : List (List ℕ)) (s : Shell)
    → effect w l ≡ prints ls
    → dispatch_on w l s ≡ print_all ls s
unfolding dispatch_on apply
dispatch_on-prints w l ls s does = ap (λ e. apply e s) does

same_terminal-IsFresh :
    (kb : Keyboard) (s t : Shell)
    → IsFresh (shown_terminal kb s)
    → t.terminal_screens ≡ s.terminal_screens
    → t.current_terminal ≡ chosen kb.function_key s.current_terminal
    → t.content_current_x ≡ s.content_current_x
    → IsFresh (current t)
same_terminal-IsFresh kb s t f screens terminal left = record {
  left = left ∙ f.left;
  row = λ k low.
      ap (λ i. t.terminal_screens i (last_line + k)) terminal
      ∙ ap (λ m. m (chosen kb.function_key s.current_terminal) (last_line + k)) screens
      ∙ f.row k low;
}

-- A line of 1 to 48 characters that is ended and whose command prints at most 20 lines that fit: the
-- screen shows the echo of the line behind the prompt and below it the command's lines, each whole on
-- its own row, in order, down to the row above the last. The terminal is then as it was required to be
-- before, it is the one that the function key has chosen, and the keyboard's line is empty.
pub update-Ran :
    (w : World) (kb : Keyboard) (s : Shell) (l : List ℕ) (ls : List (List ℕ))
    → kb.was_updated ≡ true
    → kb.buffer ≡ l ++ 10 ∷ []
    → l ≢ []
    → length l ≤ 48
    → no_newline l ≡ true
    → effect w l ≡ prints ls
    → fit ls ≡ true
    → length ls ≤ 20
    → IsFresh (shown_terminal kb s)
    → Ran (update (dispatch_on w) kb s).0 l ls
      × ((update (dispatch_on w) kb s).0.current_terminal
          ≡ chosen kb.function_key s.current_terminal)
      × ((update (dispatch_on w) kb s).1.buffer ≡ [])
update-Ran w kb s l ls on line ne short plain does h few f =
    let (t, screens, terminal, left, out, empty) =
      update-runs (dispatch_on w) kb s l on line ne short in
    let g = same_terminal-IsFresh kb s t f screens terminal left in
    let d = dispatch_on-prints w l ls (write_c_echo (prompt ++ l) t) does in
    let e = out ∙ ap (λ x. update_screen 0 (start_terminal_footer 0 x)) d in
    (
      subst (λ x. Ran x l ls) (sym e) (Ran-typed t l ls plain short h few g),
      ap (λ x. x.current_terminal) e ∙ ran_terminal t (prompt ++ l) ls ∙ terminal,
      empty,
    )
