-- ===== src/Console/Lines.antt =====
-- A line that is typed and ended: from the bytes of the keyboard to the rows of the screen.
use shiro.Console.{Event, byte, round, run}
use shiro.Console.Typing.{
  all_plain, is_quiet, shift_after, caps_after, typed, typed-quiet, typed-key, all_plain-key,
  run-Typed, run-byte,
}
use shiro.Console.Session.{Ran, shown_terminal, update-Ran}
use shiro.Screen.{last_line}
use shiro.Screen.Scroll.{no_newline}
use shiro.Screen.Lines.{fit, IsFresh}
use shiro.Keyboard.{Keyboard, handler, enter}
use shiro.Keyboard.Typing.{type_enter, with_char}
use shiro.Shell.{Shell, current}
use shiro.Shell.Editor.{update, has_newline}
use shiro.Shell.Prompt.{SameTerminals, chosen}
use shiro.Commands.Run.{World, effect, prints, dispatch_on}
use shiro.Base.{
  ℕ, ◌+◌, ◌<◌, ◌≤◌, ◌≡◌, refl, ap, ◌∙◌, Bool, Bool-cases, inl, inr, true, false, List, [], ◌∷◌,
  ◌++◌, length, none, some, ◌>>=◌, arith,
}

run-append :
    (es fs : List Event) (s : Shell) (kb : Keyboard)
    → run (es ++ fs) s kb ≡ (run es s kb >>= λ x. run fs x.0 x.1)
unfolding run
run-append [] fs s kb = refl
run-append (byte sc ∷ es) fs s kb =
    elim (handler 1 sc kb)
      as (λ o.
        elim o [ none ↦ none | some kb' ↦ run (es ++ fs) s kb' ]
        ≡ (elim o [ none ↦ none | some kb' ↦ run es s kb' ] >>= λ x. run fs x.0 x.1)) [
          | none ↦ refl
          | some kb' ↦ run-append es fs s kb'
        ]
run-append (round w ∷ es) fs s kb =
    run-append es fs (update (dispatch_on w) kb s).0 (update (dispatch_on w) kb s).1

typed-no_newline :
    (shift caps : Bool) (es : List Event)
    → all_plain shift caps es ≡ true
    → no_newline (typed shift caps es) ≡ true
typed-no_newline shift caps [] h = refl
typed-no_newline shift caps (byte sc ∷ es) h = elim (Bool-cases (is_quiet sc)) [
  | inl q ↦
      ap no_newline (typed-quiet shift caps sc es q)
      ∙ typed-no_newline (shift_after sc shift) (caps_after sc caps) es (ground (arith, h))
  | inr q ↦
      let (k, rest) = all_plain-key shift caps sc es q h in
      ap no_newline (typed-key shift caps sc es q)
      ∙ ground (arith, k, typed-no_newline shift caps es rest)
]
typed-no_newline shift caps (round w ∷ es) h = typed-no_newline shift caps es h

kept-IsFresh :
    (s s' : Shell) (kb : Keyboard)
    → SameTerminals s s'
    → kb.function_key ≡ 0
    → IsFresh (current s)
    → IsFresh (shown_terminal kb s')
kept-IsFresh s s' kb (a, b, c) key f =
    let e : chosen kb.function_key s'.current_terminal ≡ s.current_terminal =
      ground (arith, key, b) in
    record {
      left = c ∙ f.left;
      row = λ k low.
          ap (λ i. s'.terminal_screens i (last_line + k)) e
          ∙ ap (λ m. m s.current_terminal (last_line + k)) a
          ∙ f.row k low;
    }

chosen-none :
    (kb : Keyboard) (s : Shell)
    → kb.function_key ≡ 0
    → chosen kb.function_key s.current_terminal ≡ s.current_terminal
chosen-none kb s key = ground (arith, key)

run-round :
    (w : World) (s : Shell) (kb : Keyboard)
    → run (round w ∷ []) s kb ≡ some (update (dispatch_on w) kb s)
unfolding run
run-round w s kb = refl

-- From an empty line with no function key and no prefix, and a terminal whose last row is blank with the
-- cursor at its left: the bytes of keys that type characters, of Shift, Ctrl, Alt and Caps Lock and of releases, that type a line
-- of 1 to 48 characters, without Backspace, Enter, function keys or the prefix 0xE0 among them, then Enter
-- and a round of the shell, with rounds of the shell anywhere between the bytes. If the command of the
-- line does nothing but print at most 20 lines of at most 79 characters, none of this writes past a buffer, the screen
-- shows the echo of exactly the line that was typed, with Shift and Caps Lock as they were at each key,
-- and the command's lines in order, the current terminal is the same, and the keyboard's line is empty.
pub typed_line-Ran :
    (es : List Event) (w : World) (s : Shell) (kb : Keyboard) (ls : List (List ℕ))
    → kb.buffer ≡ []
    → kb.function_key ≡ 0
    → kb.extended_prefix ≡ false
    → all_plain kb.shift_pressed kb.caps_lock es ≡ true
    → 0 < length (typed kb.shift_pressed kb.caps_lock es)
    → length (typed kb.shift_pressed kb.caps_lock es) ≤ 48
    → effect w (typed kb.shift_pressed kb.caps_lock es) ≡ prints ls
    → fit ls ≡ true
    → length ls ≤ 20
    → IsFresh (current s)
    → (s' : Shell) × (kb' : Keyboard) × (run (es ++ byte 0x1C ∷ round w ∷ []) s kb ≡ some (s', kb'))
      × Ran s' (typed kb.shift_pressed kb.caps_lock es) ls
      × (s'.current_terminal ≡ s.current_terminal)
      × (kb'.buffer ≡ [])
typed_line-Ran es w s kb ls empty key p h some_char short does f few fresh =
    let l = typed kb.shift_pressed kb.caps_lock es in
    let z = ap length empty in
    let (s1, kb1, e, t) =
      run-Typed es s kb (ap has_newline empty) key p h (omega (arith, z, short)) in
    let line : kb1.buffer ≡ l = t.buffer ∙ ap (λ b. b ++ l) empty in
    let n = ap length line in
    let kb2 = with_char kb1 enter in
    let typed_enter =
      type_enter kb1 t.prefix (omega (arith, n, some_char)) (omega (arith, n, short)) in
    let u = update (dispatch_on w) kb2 s1 in
    let (ran, current_one, gone) =
      update-Ran w kb2 s1 l ls refl (ap (λ b. b ++ enter ∷ []) line)
        (λ q. omega (arith, some_char, ap length q)) short
        (typed-no_newline kb.shift_pressed kb.caps_lock es h) does f few
        (kept-IsFresh s s1 kb2 t.terminals t.key fresh) in
    (
      u.0,
      u.1,
      run-append es (byte 0x1C ∷ round w ∷ []) s kb
          ∙ ap (λ o. o >>= λ x. run (byte 0x1C ∷ round w ∷ []) x.0 x.1) e
          ∙ run-byte (round w ∷ []) s1 kb1 kb2 0x1C typed_enter
          ∙ run-round w s1 kb2,
      ran,
      current_one ∙ chosen-none kb2 s1 t.key ∙ t.terminals.1,
      gone,
    )
