-- ===== src/Shell/Edits.antt =====
-- The line editor of `Update` in src/src/classes/shell.class.h, while no line is ended.
use shiro.Keyboard.{Keyboard, was_updated_read, get_function_key}
use shiro.Shell.{Shell, update_screen}
use shiro.Shell.Bars.{start_terminal_footer, render_header}
use shiro.Shell.Editor.{update, switch_terminal, has_newline}
use shiro.Shell.View.{Coherent, view}
use shiro.Shell.Rows.{footer_row, write_f-row}
use shiro.Base.{
  ℕ, ◌+◌, ◌<◌, ◌≡◌, refl, sym, ap, ◌∙◌, Bool, false, List, length, ltb, if◌then◌else◌, arith,
  Bool-cases, inl, inr,
}
use shiro.Shell.Prompt.{
  read_flag, chosen, switched-terminals, footer-same, write_f-same, update-Coherent,
}

view-footer : (s : Shell) (x : ℕ) → view s (1920 + x) ≡ s.terminal_screen_footer (1920 + x)
view-footer s x = ground arith

module _ (dispatch : List ℕ → Shell → Shell) where
  switched-footer :
      (size key : ℕ) (s : Shell) (j : ℕ)
      → (switch_terminal dispatch size key s).terminal_screen_footer j ≡ s.terminal_screen_footer j
  unfolding switch_terminal update_screen render_header
  switched-footer size key s j = elim (Bool-cases (ltb 0 key)) [
    | inl y ↦ rw y refl
    | inr n ↦ rw n refl
  ]

  module _ (kb : Keyboard) (s : Shell) where
    abbrev before : Shell
    before =
        switch_terminal dispatch (length kb.buffer) (get_function_key (was_updated_read kb).1).0 s

    -- A cell of the last row, by whether the line was changed.
    abbrev pub shown_footer : Bool → ℕ → ℕ
    shown_footer changed x =
        if changed then footer_row kb.buffer x else s.terminal_screen_footer (1920 + x)

    -- The footer's buffer, and the rest, after an `Update` with no line that is ended.
    edited :
        has_newline kb.buffer ≡ false
        → length kb.buffer < 50
        → ((x : ℕ)
            → x < 80
            → (update dispatch kb s).0.terminal_screen_footer (1920 + x)
              ≡ shown_footer kb.was_updated x)
          × ((update dispatch kb s).0.terminal_screens ≡ s.terminal_screens)
          × ((update dispatch kb s).0.current_terminal ≡ chosen kb.function_key s.current_terminal)
          × ((update dispatch kb s).1.buffer ≡ kb.buffer)
          × ((update dispatch kb s).1.function_key ≡ 0)
    unfolding update
    edited plain short =
        let r = read_flag kb in
        let size = length kb.buffer in
        let t = start_terminal_footer size before in
        let f = footer-same size before in
        let w = write_f-same size kb.buffer t in
        let key = (get_function_key (was_updated_read kb).1).0 in
        let b = switched-terminals dispatch size key s in
        elim (Bool-cases kb.was_updated) [
          | inl on ↦
              let y = r.0 ∙ on in
              rw (y, plain)
                (
                  (λ x h.
                      (write_f-row size size kb.buffer before x (omega arith) h).0
                      ∙ sym (ap (λ b. shown_footer b x) on)),
                  w.0 ∙ f.0 ∙ b.0,
                  w.1 ∙ f.1 ∙ b.1 ∙ ap (λ k. chosen k s.current_terminal) r.1,
                  r.2,
                  r.3,
                )
          | inr off ↦
              let n = r.0 ∙ off in
              rw n (
                (λ x h.
                    switched-footer size key s (1920 + x) ∙ sym (ap (λ b. shown_footer b x) off)),
                b.0,
                b.1 ∙ ap (λ k. chosen k s.current_terminal) r.1,
                r.2,
                r.3,
              )
        ]

    -- While no line is ended, and the screen shows the buffers before, after `Update` its last row shows
    -- the line behind the prompt if the line was changed, and else what it showed of the footer. Nothing
    -- is run and every terminal is left as it was; a function key, with or without a change of the line,
    -- chooses the terminal that is current, and the line is kept.
    pub update-edits :
        Coherent s
        → has_newline kb.buffer ≡ false
        → length kb.buffer < 50
        → ((x : ℕ)
            → x < 80
            → (update dispatch kb s).0.screen (1920 + x) ≡ shown_footer kb.was_updated x)
          × ((update dispatch kb s).0.terminal_screens ≡ s.terminal_screens)
          × ((update dispatch kb s).0.current_terminal ≡ chosen kb.function_key s.current_terminal)
          × ((update dispatch kb s).1.buffer ≡ kb.buffer)
          × ((update dispatch kb s).1.function_key ≡ 0)
    update-edits c plain short =
        let (footer, screens, terminal, line, key) = edited plain short in
        let shown = update-Coherent dispatch kb s c in
        (
          λ x h.
              shown (1920 + x) (omega arith) ∙ view-footer (update dispatch kb s).0 x ∙ footer x h,
          screens,
          terminal,
          line,
          key,
        )
