-- ===== src/Keyboard/Typing.antt =====
-- `Keyboard::Handler` of src/src/classes/keyboard.class.h: what a scancode does to the line.
use shiro.CString.{concat, strcpy, concat-fits}
use shiro.Base.{
  ℕ, ◌+◌, ◌-◌, ◌%◌, ◌<◌, ◌≤◌, ◌≡◌, ◌≢◌, refl, ap, ◌∙◌, Bool, true, false, not, ◌&&◌, inl, inr, ◌↔◌,
  none, some, List, [], ◌∷◌, ◌++◌, length, length-append, length-take, take, ltb, leb, ◌==◌,
  if◌then◌else◌, arith, Bool-cases,
}
use shiro.Keyboard.Layout.{special, special-silent}
use shiro.Keyboard.{
  Keyboard, buffer_bytes, backspace, enter, key_char, buffer_remove_one, buffer_add, shifted,
  unshifted, put_char, press, handler,
}

-- The line and its NUL are inside the buffer, and the function key is one of F1 to F5 or none.
pub record IsLine (s : Keyboard) : Type 0 where
  pub short : length s.buffer < buffer_bytes
  pub key : s.function_key ≤ 5

joined :
    (b : List ℕ) (c : ℕ)
    → length b < buffer_bytes
    → (if ltb 0 (length b) then concat b (c ∷ []) else c ∷ []) ≡ b ++ (c ∷ [])
joined [] c h = refl
joined (x ∷ xs) c h =
    let t : ltb 0 (length (x ∷ xs)) ≡ true = ground arith in
    rw t (concat-fits (x ∷ xs) (c ∷ []) (omega arith))

-- A string of one character is appended, unless it does not fit.
pub buffer_add_one :
    (s : Keyboard) (c : ℕ)
    → length s.buffer < buffer_bytes
    → buffer_add s (c ∷ []) ≡ (
        if length s.buffer == 49
        then none
        else some (record s { buffer = s.buffer ++ (c ∷ []); was_updated = true }))
unfolding buffer_add strcpy
buffer_add_one s c h =
    let small : leb 50 (length s.buffer) ≡ false = ground arith in
    let l : length (s.buffer ++ (c ∷ [])) ≡ length s.buffer + 1 = length-append s.buffer (c ∷ []) in
    rw (small, joined s.buffer c h, l) (ground (arith, h))

pub put_char-IsLine : (s s' : Keyboard) (c : ℕ) → IsLine s → put_char s c ≡ some s' → IsLine s'
unfolding put_char buffer_remove_one
put_char-IsLine s s' c l e = ground (
  arith,
  l.short,
  l.key,
  e,
  buffer_add_one s c,
  length-take (length s.buffer - 1) s.buffer,
  length-append s.buffer (c ∷ []),
)

press-IsLine :
    (s s' : Keyboard) (released : Bool) (code : ℕ)
    → IsLine s
    → press s released code ≡ some s'
    → IsLine s'
unfolding press
press-IsLine s s' r code l e =
    ground
      (arith, l.short, l.key, e, put_char-IsLine s s' (key_char s.shift_pressed s.caps_lock code) l)

pub handler-IsLine :
    (s s' : Keyboard) (status sc : ℕ) → IsLine s → handler status sc s ≡ some s' → IsLine s'
unfolding handler
handler-IsLine s s' status sc l e =
    ground (arith, l, e, press-IsLine s s' (leb 0x80 sc) (sc % 0x80) l)

abbrev pub printable : Keyboard → ℕ → Bool
printable s c = not (c == 0) && not (c == backspace) && not ((c == enter) && (length s.buffer == 0))

-- The key types a character, other than Enter on an empty line.
unfoldable pub types : Keyboard → ℕ → ℕ → Bool
types s status sc =
    (status % 2 == 1)
    && not (sc == 0xE0)
    && not s.extended_prefix
    && ltb sc 0x80
    && printable s (key_char s.shift_pressed s.caps_lock sc)

put_char-none :
    (s : Keyboard) (c : ℕ)
    → length s.buffer < buffer_bytes
    → (put_char s c ≡ none) ↔ ((printable s c ≡ true) × (length s.buffer ≡ 49))
unfolding put_char
put_char-none s c h = ground (arith, buffer_add_one s c)

press-none :
    (s : Keyboard) (released : Bool) (code : ℕ)
    → length s.buffer < buffer_bytes
    → code < 128
    → (press s released code ≡ none) ↔ (
        (not released && printable s (key_char s.shift_pressed s.caps_lock code) ≡ true)
        × (length s.buffer ≡ 49))
unfolding press
press-none s released code l h = elim (Bool-cases (special code)) [
  | inl p ↦ let z = special-silent s.shift_pressed s.caps_lock code h p in ground (arith, z)
  | inr p ↦ ground (arith, put_char-none s (key_char s.shift_pressed s.caps_lock code) l)
]

-- A scancode runs past the end of the buffer exactly if it types a character when the line has 49.
pub handler-none :
    (s : Keyboard) (status sc : ℕ)
    → IsLine s
    → sc < 256
    → (handler status sc s ≡ none) ↔ ((types s status sc ≡ true) × (length s.buffer ≡ 49))
unfolding handler types
handler-none s status sc l h = ground (arith, press-none s (leb 0x80 sc) (sc % 0x80) l.short)

-- What a typed character leaves.
abbrev pub with_char : Keyboard → ℕ → Keyboard
with_char s c = record s { buffer = s.buffer ++ (c ∷ []); was_updated = true }

press_char :
    (s : Keyboard) (code : ℕ)
    → length s.buffer < 49
    → code < 128
    → printable s (key_char s.shift_pressed s.caps_lock code) ≡ true
    → press s false code ≡ some (with_char s (key_char s.shift_pressed s.caps_lock code))
unfolding press put_char
press_char s code l h t = elim (Bool-cases (special code)) [
  | inl p ↦ let z = special-silent s.shift_pressed s.caps_lock code h p in ground (arith, z, t)
  | inr p ↦
      let a = buffer_add_one s (key_char s.shift_pressed s.caps_lock code) (omega (arith, l)) in
      ground (arith, a, p, t, l)
]

pub type_char :
    (s : Keyboard) (status sc : ℕ)
    → length s.buffer < 49
    → types s status sc ≡ true
    → handler status sc s ≡ some (with_char s (key_char s.shift_pressed s.caps_lock sc))
unfolding handler types
type_char s status sc l t =
    let low : sc < 0x80 = ground (arith, t) in
    let m : sc % 0x80 ≡ sc = omega arith in
    let d : leb 0x80 sc ≡ false = ground arith in ground (arith, t, m, d, press_char s sc l low)

enter_key : (shift caps : Bool) → key_char shift caps 0x1C ≡ enter
unfolding key_char shifted unshifted
enter_key true true = refl
enter_key true false = refl
enter_key false true = refl
enter_key false false = refl

enter-types :
    (s : Keyboard)
    → s.extended_prefix ≡ false
    → (length s.buffer == 0) ≡ false
    → types s 1 0x1C ≡ true
unfolding types
enter-types s p l = rw (enter_key s.shift_pressed s.caps_lock, p, l) refl

-- Enter ends a line of 1 to 48 characters.
pub type_enter :
    (s : Keyboard)
    → s.extended_prefix ≡ false
    → 0 < length s.buffer
    → length s.buffer < 49
    → handler 1 0x1C s ≡ some (with_char s enter)
type_enter s p some_char l =
    type_char s 1 0x1C l (enter-types s p (ground (arith, some_char)))
    ∙ ap (λ c. some (with_char s c)) (enter_key s.shift_pressed s.caps_lock)

take_append : (b cs : List ℕ) → take (length b) (b ++ cs) ≡ b
take_append [] cs = refl
take_append (x ∷ b) cs = ap (λ l. x ∷ l) (take_append b cs)

erase_key : (shift caps : Bool) → key_char shift caps 0x0E ≡ backspace
unfolding key_char shifted unshifted
erase_key true true = refl
erase_key true false = refl
erase_key false true = refl
erase_key false false = refl

erase_char :
    (s : Keyboard) (c : ℕ)
    → s.extended_prefix ≡ false
    → handler 1 0x0E (with_char s c) ≡ some (record s { was_updated = true })
unfolding handler press put_char buffer_remove_one
erase_char s c p =
    let k = erase_key s.shift_pressed s.caps_lock in
    let n : length (s.buffer ++ (c ∷ [])) - 1 ≡ length s.buffer =
      omega (arith, length-append s.buffer (c ∷ [])) in
    let o : ltb 0 (length (s.buffer ++ (c ∷ []))) ≡ true =
      ground (arith, length-append s.buffer (c ∷ [])) in
    rw (p, k, o, n, take_append s.buffer (c ∷ [])) refl

prefix_off : (s : Keyboard) (status sc : ℕ) → types s status sc ≡ true → s.extended_prefix ≡ false
unfolding types
prefix_off s status sc t = ground arith

-- A character typed on a line of fewer than 49 is appended, and the Backspace key takes it back: but
-- for the flag of the update the state is as before.
pub handler_backspace :
    (s : Keyboard) (status sc : ℕ)
    → length s.buffer < 49
    → types s status sc ≡ true
    → (s' : Keyboard) × (handler status sc s ≡ some s')
      × (s'.buffer ≡ s.buffer ++ (key_char s.shift_pressed s.caps_lock sc ∷ []))
      × (handler 1 0x0E s' ≡ some (record s { was_updated = true }))
handler_backspace s status sc l t =
    let c = key_char s.shift_pressed s.caps_lock sc in
    (with_char s c, type_char s status sc l t, refl, erase_char s c (prefix_off s status sc t))

-- After the prefix 0xE0 one byte is dropped, whatever it is, a second prefix apart: the state is as
-- without the two bytes.
pub handler_prefix :
    (s : Keyboard) (sc : ℕ)
    → s.extended_prefix ≡ false
    → sc ≢ 0xE0
    → (s' : Keyboard) × (handler 1 0xE0 s ≡ some s') × (handler 1 sc s' ≡ some s)
unfolding handler
handler_prefix s sc p n = (record s { extended_prefix = true }, refl, ground (arith, p, n))
