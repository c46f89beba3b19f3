-- ===== src/Console/Typing.antt =====
-- A line that is typed while the shell shows it: bytes and rounds in any order.
use mathlib.Core.Path.{subst}
use shiro.Console.{Event, byte, round, run}
use shiro.Keyboard.{Keyboard, key_char, handler, press, was_updated_read, get_function_key}
use shiro.Keyboard.Typing.{types, type_char}
use shiro.Shell.{Shell}
use shiro.Shell.Bars.{start_terminal_footer}
use shiro.Shell.Editor.{update, has_newline, switch_terminal}
use shiro.Shell.Prompt.{SameTerminals, footer-same, write_f-same}
use shiro.Commands.Run.{dispatch_on}
use shiro.Base.{
  ℕ, ◌+◌, ◌%◌, ◌||◌, leb, if◌then◌else◌, ◌≤◌, ◌≡◌, refl, sym, ap, ◌∙◌, Bool, true, false, not, ◌&&◌,
  List, [], ◌∷◌, ◌++◌, append_assoc, append-nil, length, length-append, ltb, ◌==◌, Bool-cases, inl,
  inr, some, arith,
}

-- The key types a character that neither edits nor ends the line.
abbrev pub is_plain : Bool → Bool → ℕ → Bool
is_plain shift caps sc =
    ltb sc 0x80
    && not (key_char shift caps sc == 0)
    && not (key_char shift caps sc == 8)
    && not (key_char shift caps sc == 10)

-- A release, or a press of Shift, Ctrl, Alt or Caps Lock.
abbrev pub is_quiet : ℕ → Bool
is_quiet sc =
    leb 0x80 sc || (sc == 0x2A) || (sc == 0x36) || (sc == 0x1D) || (sc == 0x38) || (sc == 0x3A)

-- Whether Shift is down, and Caps Lock on, after a byte.
abbrev pub shift_after : ℕ → Bool → Bool
shift_after sc shift =
    if (sc % 0x80 == 0x2A) || (sc % 0x80 == 0x36) then not (leb 0x80 sc) else shift

abbrev pub caps_after : ℕ → Bool → Bool
caps_after sc caps = if sc == 0x3A then not caps else caps

-- Keys that type characters, modifiers and releases, without the prefix of the extended keys.
abbrev pub all_plain : Bool → Bool → List Event → Bool
all_plain shift caps [] = true
all_plain shift caps (byte sc ∷ es) =
    not (sc == 0xE0)
    && (is_quiet sc || is_plain shift caps sc)
    && all_plain (shift_after sc shift) (caps_after sc caps) es
all_plain shift caps (round w ∷ es) = all_plain shift caps es

-- The characters that the keys type, by Shift and Caps Lock as they are when each is pressed.
abbrev pub typed : Bool → Bool → List Event → List ℕ
typed shift caps [] = []
typed shift caps (byte sc ∷ es) =
    let rest = typed (shift_after sc shift) (caps_after sc caps) es in
    if is_quiet sc then rest else key_char shift caps sc ∷ rest
typed shift caps (round w ∷ es) = typed shift caps es

-- A byte that types nothing: what it does to the driver.
abbrev pressed : ℕ → Keyboard → Keyboard
pressed sc kb = record kb {
  shift_pressed = shift_after sc kb.shift_pressed;
  ctrl_pressed = if sc % 0x80 == 0x1D then not (leb 0x80 sc) else kb.ctrl_pressed;
  alt_pressed = if sc % 0x80 == 0x38 then not (leb 0x80 sc) else kb.alt_pressed;
  caps_lock = caps_after sc kb.caps_lock;
}

quiet-handler :
    (kb : Keyboard) (sc : ℕ)
    → kb.extended_prefix ≡ false
    → (sc == 0xE0) ≡ false
    → is_quiet sc ≡ true
    → handler 1 sc kb ≡ some (pressed sc kb)
unfolding handler press
quiet-handler kb sc p n q = ground (arith, p, n, q)

-- What a round keeps while no line is ended and no function key is pressed.
round-keeps :
    (dispatch : List ℕ → Shell → Shell) (kb : Keyboard) (s : Shell)
    → has_newline kb.buffer ≡ false
    → kb.function_key ≡ 0
    → SameTerminals s (update dispatch kb s).0
      × ((update dispatch kb s).1 ≡ record kb { was_updated = false; function_key = 0 })
unfolding update was_updated_read get_function_key switch_terminal
round-keeps dispatch kb s plain key =
    let size = length kb.buffer in
    let k : ltb 0 kb.function_key ≡ false = ground (arith, key) in
    let a = footer-same size s in
    let b = write_f-same size kb.buffer (start_terminal_footer size s) in
    elim (Bool-cases kb.was_updated) [
      | inl y ↦ ground (arith, y, k, plain, a, b, key)
      | inr n ↦ ground (arith, n, k, key)
    ]

-- The driver before and after, and what the terminals keep.
pub record Typed (s : Shell) (kb : Keyboard) (cs : List ℕ) (s' : Shell) (kb' : Keyboard)
    : Type 0 where
  pub buffer : kb'.buffer ≡ kb.buffer ++ cs
  pub terminals : SameTerminals s s'
  pub key : kb'.function_key ≡ 0
  pub prefix : kb'.extended_prefix ≡ false

plain-types :
    (kb : Keyboard) (sc : ℕ)
    → kb.extended_prefix ≡ false
    → is_plain kb.shift_pressed kb.caps_lock sc ≡ true
    → types kb 1 sc ≡ true
unfolding types
plain-types kb sc p h = ground (arith, p, h)

has_newline-append :
    (b : List ℕ) (c : ℕ)
    → has_newline b ≡ false
    → (c == 10) ≡ false
    → has_newline (b ++ c ∷ []) ≡ false
has_newline-append [] c h n = ground (arith, n)
has_newline-append (x ∷ b) c h n = ground (arith, h, has_newline-append b c (ground (arith, h)) n)

pub run-byte :
    (es : List Event) (s : Shell) (kb kb' : Keyboard) (sc : ℕ)
    → handler 1 sc kb ≡ some kb'
    → run (byte sc ∷ es) s kb ≡ run es s kb'
unfolding run
run-byte es s kb kb' sc e = rw (e, run) refl

byte-Typed :
    (s : Shell) (kb : Keyboard) (c : ℕ) (cs : List ℕ) (s' : Shell) (kb' : Keyboard)
    → Typed s (record kb { buffer = kb.buffer ++ c ∷ []; was_updated = true }) cs s' kb'
    → Typed s kb (c ∷ cs) s' kb'
byte-Typed s kb c cs s' kb' t = record {
  buffer = t.buffer ∙ append_assoc kb.buffer (c ∷ []) cs;
  terminals = t.terminals;
  key = t.key;
  prefix = t.prefix;
}

quiet-Typed :
    (s : Shell) (kb : Keyboard) (sc : ℕ) (cs : List ℕ) (s' : Shell) (kb' : Keyboard)
    → Typed s (pressed sc kb) cs s' kb'
    → Typed s kb cs s' kb'
quiet-Typed s kb sc cs s' kb' t = record {
  buffer = t.buffer;
  terminals = t.terminals;
  key = t.key;
  prefix = t.prefix;
}

and-right : (a b c : Bool) → a && b && c ≡ true → c ≡ true
and-right a b c h = ground (arith, h)

and-middle : (a q b c : Bool) → q ≡ false → a && (q || b) && c ≡ true → b ≡ true
and-middle a q b c e h = ground (arith, e, h)

pub typed-quiet :
    (shift caps : Bool) (sc : ℕ) (es : List Event)
    → is_quiet sc ≡ true
    → typed shift caps (byte sc ∷ es) ≡ typed (shift_after sc shift) (caps_after sc caps) es
typed-quiet shift caps sc es q =
    ap
      (λ b.
        if b
        then typed (shift_after sc shift) (caps_after sc caps) es
        else key_char shift caps sc ∷ typed (shift_after sc shift) (caps_after sc caps) es)
      q

-- A key that types changes neither Shift nor Caps Lock.
shift-same : (sc : ℕ) (shift : Bool) → is_quiet sc ≡ false → shift_after sc shift ≡ shift
shift-same sc shift q = ground (arith, q)

caps-same : (sc : ℕ) (caps : Bool) → is_quiet sc ≡ false → caps_after sc caps ≡ caps
caps-same sc caps q = ground (arith, q)

pub typed-key :
    (shift caps : Bool) (sc : ℕ) (es : List Event)
    → is_quiet sc ≡ false
    → typed shift caps (byte sc ∷ es) ≡ key_char shift caps sc ∷ typed shift caps es
typed-key shift caps sc es q =
    ap
      (λ b.
        if b
        then typed (shift_after sc shift) (caps_after sc caps) es
        else key_char shift caps sc ∷ typed (shift_after sc shift) (caps_after sc caps) es)
      q
    ∙ ap (λ x. key_char shift caps sc ∷ typed x (caps_after sc caps) es) (shift-same sc shift q)
    ∙ ap (λ x. key_char shift caps sc ∷ typed shift x es) (caps-same sc caps q)

pub all_plain-key :
    (shift caps : Bool) (sc : ℕ) (es : List Event)
    → is_quiet sc ≡ false
    → all_plain shift caps (byte sc ∷ es) ≡ true
    → (is_plain shift caps sc ≡ true) × (all_plain shift caps es ≡ true)
all_plain-key shift caps sc es q h =
    let rest : all_plain (shift_after sc shift) (caps_after sc caps) es ≡ true =
      and-right (not (sc == 0xE0)) _ _ h in
    (
      and-middle (not (sc == 0xE0)) (is_quiet sc) (is_plain shift caps sc) _ q h,
      ap (λ x. all_plain x caps es) (sym (shift-same sc shift q))
          ∙ ap (λ x. all_plain (shift_after sc shift) x es) (sym (caps-same sc caps q))
          ∙ rest,
    )

-- In whatever order the bytes of plain keys, modifiers, releases and rounds of the shell come, the
-- characters are appended to the line and the terminals stay as they are.
pub run-Typed :
    (es : List Event) (s : Shell) (kb : Keyboard)
    → has_newline kb.buffer ≡ false
    → kb.function_key ≡ 0
    → kb.extended_prefix ≡ false
    → all_plain kb.shift_pressed kb.caps_lock es ≡ true
    → length kb.buffer + length (typed kb.shift_pressed kb.caps_lock es) ≤ 48
    → (s' : Shell) × (kb' : Keyboard) × (run es s kb ≡ some (s', kb'))
      × Typed s kb (typed kb.shift_pressed kb.caps_lock es) s' kb'
unfolding run
run-Typed [] s kb plain key p h short = (
  s,
  kb,
  refl,
  record {
    buffer = sym (append-nil kb.buffer);
    terminals = (refl, refl, refl);
    key = key;
    prefix = p;
  },
)
run-Typed (byte sc ∷ es) s kb plain key p h short = elim (Bool-cases (is_quiet sc)) [
  | inl q ↦
      let n : (sc == 0xE0) ≡ false = ground (arith, h) in
      let t = typed-quiet kb.shift_pressed kb.caps_lock sc es q in
      let (s', kb', e, d) =
        run-Typed es s (pressed sc kb) plain key p (ground (arith, h))
          (omega (arith, short, ap length t)) in
      (
        s',
        kb',
        run-byte es s kb (pressed sc kb) sc (quiet-handler kb sc p n q) ∙ e,
        subst (λ l. Typed s kb l s' kb') (sym t) (quiet-Typed s kb sc _ s' kb' d),
      )
  | inr q ↦
      let c = key_char kb.shift_pressed kb.caps_lock sc in
      let kb1 = record kb { buffer = kb.buffer ++ c ∷ []; was_updated = true } in
      let (k, rest) = all_plain-key kb.shift_pressed kb.caps_lock sc es q h in
      let t = typed-key kb.shift_pressed kb.caps_lock sc es q in
      let l = length-append kb.buffer (c ∷ []) in
      let e = type_char kb 1 sc (omega (arith, short, ap length t)) (plain-types kb sc p k) in
      let (s', kb', r, d) =
        run-Typed es s kb1 (has_newline-append kb.buffer c plain (ground (arith, k))) key p rest
          (omega (arith, l, short, ap length t)) in
      (
        s',
        kb',
        run-byte es s kb kb1 sc e ∙ r,
        subst (λ l. Typed s kb l s' kb') (sym t)
            (byte-Typed s kb c (typed kb.shift_pressed kb.caps_lock es) s' kb' d),
      )
]
run-Typed (round w ∷ es) s kb plain key p h short =
    let (a, q) = round-keeps (dispatch_on w) kb s plain key in
    let u = (update (dispatch_on w) kb s).0 in
    let (s', kb', e, t) =
      run-Typed es u (record kb { was_updated = false; function_key = 0 }) plain refl p h short in
    (
      s',
      kb',
      ap (run es u) q ∙ e,
      record {
        buffer = t.buffer;
        terminals = (t.terminals.0 ∙ a.0, t.terminals.1 ∙ a.1, t.terminals.2 ∙ a.2);
        key = t.key;
        prefix = t.prefix;
      },
    )
