-- ===== src/Shell/Prompt.antt =====
-- `Update` of src/src/classes/shell.class.h: the line editor and the switch of terminals.
use shiro.CString.{concat, concat-fits}
use shiro.Keyboard.{Keyboard, was_updated_read, get_function_key, buffer_reset}
use shiro.Keyboard.Typing.{IsLine}
use shiro.Shell.{Shell, write_c_echo, write_f, update_screen, footer_chars}
use shiro.Shell.Bars.{start_terminal_footer, render_header, prompt}
use shiro.Shell.Editor.{update, run_line, switch_terminal, execute, has_newline, strip}
use shiro.Shell.View.{Coherent, update_screen-Coherent}
use shiro.Base.{
  ℕ, suc, ◌≤◌, ◌≡◌, ◌≢◌, refl, ap, ◌∙◌, true, false, ◌&&◌, List, [], ◌∷◌, ◌++◌, length,
  length-append, take, take_all, ltb, ◌==◌, if◌then◌else◌, arith, Bool-cases, inl, inr,
}

-- What the shell reads of the driver.
pub read_flag :
    (kb : Keyboard)
    → ((was_updated_read kb).0 ≡ kb.was_updated)
      × ((get_function_key (was_updated_read kb).1).0 ≡ kb.function_key)
      × ((get_function_key (was_updated_read kb).1).1.buffer ≡ kb.buffer)
      × ((get_function_key (was_updated_read kb).1).1.function_key ≡ 0)
unfolding was_updated_read get_function_key
read_flag kb = elim (Bool-cases kb.was_updated) [
  | inl y ↦ rw y (refl, refl, refl, refl)
  | inr n ↦ rw n (refl, refl, refl, refl)
]

-- A text that only touches the prompt's row leaves the rest of the shell.
abbrev pub SameTerminals : Shell → Shell → Type 0
SameTerminals s t =
    (t.terminal_screens ≡ s.terminal_screens)
    × (t.current_terminal ≡ s.current_terminal)
    × (t.content_current_x ≡ s.content_current_x)

footer_chars-same : (text : List ℕ) (gi : ℕ) (s : Shell) → SameTerminals s (footer_chars text gi s)
unfolding footer_chars
footer_chars-same [] gi s = (refl, refl, refl)
footer_chars-same (c ∷ text) gi s = footer_chars-same text _ _

pub footer-same : (size : ℕ) (s : Shell) → SameTerminals s (start_terminal_footer size s)
unfolding start_terminal_footer write_f update_screen
footer-same size s = footer_chars-same prompt 0 _

pub write_f-same : (size : ℕ) (text : List ℕ) (s : Shell) → SameTerminals s (write_f size text s)
unfolding write_f update_screen
write_f-same size text s = footer_chars-same text 0 s

strip-end : (l : List ℕ) → strip (l ++ 10 ∷ []) ≡ l
strip-end [] = refl
strip-end (c ∷ []) = refl
strip-end (c ∷ d ∷ l) = ap (λ r. c ∷ r) (strip-end (d ∷ l))

has_newline-end : (l : List ℕ) → has_newline (l ++ 10 ∷ []) ≡ true
has_newline-end [] = refl
has_newline-end (c ∷ l) = ground (arith, has_newline-end l)

not_zero : (n : ℕ) → (suc n == 0) ≡ false
not_zero n = ground arith

two-end : (l : List ℕ) → ltb 1 (suc (length (l ++ 10 ∷ []))) ≡ true
two-end l = let e = length-append l (10 ∷ []) in ground (arith, e)

-- Which terminal is shown after a function key.
abbrev pub chosen : ℕ → ℕ → ℕ
chosen key old = if ltb 0 key then key else old

module _ (dispatch : List ℕ → Shell → Shell) where
  pub switched-terminals :
      (size key : ℕ) (s : Shell)
      → ((switch_terminal dispatch size key s).terminal_screens ≡ s.terminal_screens)
        × ((switch_terminal dispatch size key s).current_terminal ≡ chosen key s.current_terminal)
        × ((switch_terminal dispatch size key s).content_current_x ≡ s.content_current_x)
  unfolding switch_terminal update_screen render_header
  switched-terminals size key s = elim (Bool-cases (ltb 0 key)) [
    | inl y ↦ rw y (refl, refl, refl)
    | inr n ↦ rw n (refl, refl, refl)
  ]

  -- Whatever the dispatcher does to the shell, the screen after `Update` shows the buffers if it did
  -- before: no change is left unshown.
  pub update-Coherent : (kb : Keyboard) (s : Shell) → Coherent s → Coherent (update dispatch kb s).0
  unfolding update run_line switch_terminal write_f
  update-Coherent kb s c =
      let key = (get_function_key (was_updated_read kb).1).0 in
      elim (Bool-cases (was_updated_read kb).0) [
        | inr n ↦ elim (Bool-cases (ltb 0 key)) [
          | inl k ↦ rw (n, k) (update_screen-Coherent (length kb.buffer) _)
          | inr k ↦ rw (n, k) c
        ]
        | inl y ↦ elim (Bool-cases (has_newline kb.buffer && ltb 1 (length kb.buffer))) [
          | inl e ↦ rw (y, e) (update_screen-Coherent 0 _)
          | inr e ↦ rw (y, e) (update_screen-Coherent (length kb.buffer) _)
        ]
      ]

  -- Which terminal `Update` leaves current, if the dispatcher does not switch.
  pub update-current :
      (kb : Keyboard) (s : Shell)
      → ((l : List ℕ) (t : Shell) → (dispatch l t).current_terminal ≡ t.current_terminal)
      → (update dispatch kb s).0.current_terminal ≡ chosen kb.function_key s.current_terminal
  unfolding update run_line execute write_c_echo update_screen
  update-current kb s keeps =
      let r = read_flag kb in
      let size = length kb.buffer in
      let key = (get_function_key (was_updated_read kb).1).0 in
      let b = (switched-terminals size key s).1 ∙ ap (λ k. chosen k s.current_terminal) r.1 in
      let cleared = start_terminal_footer size (switch_terminal dispatch size key s) in
      let f = (footer-same size (switch_terminal dispatch size key s)).1 in
      elim (Bool-cases (was_updated_read kb).0) [
        | inr n ↦ rw n b
        | inl y ↦ elim (Bool-cases (has_newline kb.buffer && ltb 1 (length kb.buffer))) [
          | inr e ↦ rw (y, e) ((write_f-same size kb.buffer cleared).1 ∙ f ∙ b)
          | inl e ↦
              let command = take 50 (strip (get_function_key (was_updated_read kb).1).1.buffer) in
              let echoed = write_c_echo (concat prompt command) cleared in
              elim (Bool-cases (length command == 0)) [
                | inl z ↦ rw (y, e, z) ((footer-same 0 echoed).1 ∙ f ∙ b)
                | inr z ↦
                    rw (y, e, z)
                      ((footer-same 0 (dispatch command echoed)).1 ∙ keeps command echoed ∙ f ∙ b)
              ]
        ]
      ]

  -- What `Update` leaves of the driver: the line, or nothing of it, and no function key.
  pub update-IsLine : (kb : Keyboard) (s : Shell) → IsLine kb → IsLine (update dispatch kb s).1
  unfolding update run_line buffer_reset
  update-IsLine kb s l =
      let r = read_flag kb in
      let kept : IsLine (get_function_key (was_updated_read kb).1).1 = record {
        short = omega (arith, ap length r.2, l.short);
        key = omega (arith, r.3);
      } in
      elim (Bool-cases (was_updated_read kb).0) [
        | inr n ↦ rw n kept
        | inl y ↦ elim (Bool-cases (has_newline kb.buffer && ltb 1 (length kb.buffer))) [
          | inr e ↦ rw (y, e) kept
          | inl e ↦ rw (y, e) (record { short = omega arith; key = omega (arith, r.3) })
        ]
      ]

  module _ (kb : Keyboard) (s : Shell) where
    abbrev before : Shell
    before =
        switch_terminal dispatch (length kb.buffer) (get_function_key (was_updated_read kb).1).0 s

    -- When a line of 1 to 48 characters is ended, `Update` echoes it behind the prompt, empties the
    -- keyboard's buffer, hands the dispatcher exactly the line, and shows an empty prompt.
    pub update-runs :
        (l : List ℕ)
        → kb.was_updated ≡ true
        → kb.buffer ≡ l ++ 10 ∷ []
        → l ≢ []
        → length l ≤ 48
        → (t : Shell) × (t.terminal_screens ≡ s.terminal_screens)
          × (t.current_terminal ≡ chosen kb.function_key s.current_terminal)
          × (t.content_current_x ≡ s.content_current_x)
          × ((update dispatch kb s).0
              ≡ update_screen 0
                  (start_terminal_footer 0 (dispatch l (write_c_echo (prompt ++ l) t))))
          × ((update dispatch kb s).1.buffer ≡ [])
    unfolding update run_line execute buffer_reset
    update-runs [] on line ne short = absurd (ne refl)
    update-runs (c ∷ l) on line ne short =
        let r = read_flag kb in
        let y = r.0 ∙ on in
        let size = length kb.buffer in
        let t = start_terminal_footer size before in
        let f = footer-same size before in
        let b = switched-terminals size (get_function_key (was_updated_read kb).1).0 s in
        let ended : has_newline kb.buffer ≡ true = ap has_newline line ∙ has_newline-end (c ∷ l) in
        let long : ltb 1 (length kb.buffer) ≡ true = ap (λ x. ltb 1 (length x)) line ∙ two-end l in
        let command : take 50 (strip (get_function_key (was_updated_read kb).1).1.buffer) ≡ c ∷ l =
          ap (λ x. take 50 (strip x)) (r.2 ∙ line)
          ∙ ap (take 50) (strip-end (c ∷ l))
          ∙ take_all 50 (c ∷ l) (omega (arith, short)) in
        let whole = concat-fits prompt (c ∷ l) (omega (arith, short)) in
        let z = not_zero (length l) in
        (
          t,
          f.0 ∙ b.0,
          f.1 ∙ b.1 ∙ ap (λ k. chosen k s.current_terminal) r.1,
          f.2 ∙ b.2,
          rw (y, ended, long, command, whole, z) refl,
          rw (y, ended, long) refl,
        )
