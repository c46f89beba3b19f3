-- ===== src/Serial/Messages.antt =====
-- What a terminal on the serial port gets from the log of src/src/classes/debug.class.h.
use mathlib.Core.Path.{subst}
use shiro.Serial.{serial_port, Value, text, number, negative, prepare, send, log}
use shiro.Panic.{int2char}
use shiro.Panic.Digits.{int2char-decimal}
use shiro.Text.Numbers.{collect, decimal, digit_char}
use shiro.Devices.Pic.{Writes}
use shiro.Base.{
  ℕ, zero, suc, ◌/◌, ◌%◌, ◌^◌, ◌↔◌, leb, ltb, Option, some, ◌>>=◌, ◌≡◌, refl, sym, ap, ◌∙◌, Bool,
  true, false, not, ◌&&◌, List, [], ◌∷◌, ◌++◌, append-nil, append_assoc, ◌==◌, if◌then◌else◌, arith,
}

-- The bytes that are written to the serial port.
pub received : Writes → List ℕ
received [] = []
received ((port, v) ∷ ws) = if port == serial_port then v ∷ received ws else received ws

-- The terminal's lines: each ends at a carriage return, and line feeds show nothing. The line so far is
-- the first argument.
pub split_lines : List ℕ → List ℕ → List (List ℕ)
split_lines acc [] = []
split_lines acc (c ∷ s) =
    let rest = split_lines acc s in
    let ended = acc ∷ split_lines [] s in
    let longer = split_lines (acc ++ c ∷ []) s in
    if c == 13 then ended else if c == 10 then rest else longer

-- A text without the two characters that end a line.
abbrev pub one_line : List ℕ → Bool
one_line [] = true
one_line (c ∷ s) = not (c == 13) && not (c == 10) && one_line s

abbrev pub all_digits : List ℕ → Bool
all_digits [] = true
all_digits (c ∷ s) = leb 48 c && leb c 57 && all_digits s

-- The decimal digits of a number, none of 0.
pub record IsDecimal (n : ℕ) (t : List ℕ) : Type 0 where
  pub digits : all_digits t ≡ true
  pub value : decimal 0 t ≡ n
  pub zero_only : (n ≡ 0) ↔ (t ≡ [])

-- What is shown of a value, and of the values of a message, one behind the other.
abbrev pub Shows : Value → List ℕ → Type 0
Shows (text s) t = t ≡ s
Shows (number n) t = IsDecimal n t
Shows (negative n) t = ⊥

abbrev pub LineShows : Value → List Value → List ℕ → Type 0
LineShows v [] t = Shows v t
LineShows v (x ∷ rest) t =
    (a : List ℕ) × (b : List ℕ) × (t ≡ a ++ b) × Shows v a × LineShows x rest b

-- Each message on a line of its own, in order.
abbrev pub LinesShow : List (Value × List Value) → List (List ℕ) → Type 0
LinesShow [] [] = Unit
LinesShow [] (t ∷ ts) = ⊥
LinesShow (m ∷ ms) [] = ⊥
LinesShow (m ∷ ms) (t ∷ ts) = LineShows m.0 m.1 t × LinesShow ms ts

-- Texts without ends of lines, and numbers that an `int` holds.
abbrev pub is_sendable : Value → Bool
is_sendable (text s) = one_line s
is_sendable (number n) = ltb n (2 ^ 31)
is_sendable (negative n) = false

abbrev pub all_sendable : Value → List Value → Bool
all_sendable v [] = is_sendable v
all_sendable v (x ∷ rest) = is_sendable v && all_sendable x rest

abbrev pub sendable : List (Value × List Value) → Bool
sendable [] = true
sendable (m ∷ ms) = all_sendable m.0 m.1 && sendable ms

-- A log of several messages, one after the other.
pub log_all : List (Value × List Value) → Option Writes
log_all [] = some []
log_all (m ∷ ms) = do writes ← log m.0 m.1; rest ← log_all ms; some (writes ++ rest)

received-append : (a b : Writes) → received (a ++ b) ≡ received a ++ received b
unfolding received
received-append [] b = refl
received-append ((port, v) ∷ a) b = ground (arith, received-append a b)

received-send : (s : List ℕ) → received (send s) ≡ s
unfolding received send
received-send [] = refl
received-send (c ∷ s) = ap (λ r. c ∷ r) (received-send s)

received_end : received ((serial_port, 13) ∷ (serial_port, 10) ∷ []) ≡ 13 ∷ 10 ∷ []
unfolding received
received_end = refl

digits-one_line : (t : List ℕ) → all_digits t ≡ true → one_line t ≡ true
digits-one_line [] h = refl
digits-one_line (c ∷ t) h = ground (arith, h, digits-one_line t (ground (arith, h)))

one_line-append : (a b : List ℕ) → one_line a ≡ true → one_line b ≡ true → one_line (a ++ b) ≡ true
one_line-append [] b h k = k
one_line-append (c ∷ a) b h k = ground (arith, h, one_line-append a b (ground (arith, h)) k)

collect-digits :
    (n v : ℕ) (acc : List ℕ) → all_digits acc ≡ true → all_digits (collect 10 n v acc) ≡ true
unfolding collect
collect-digits zero v acc h = h
collect-digits (suc n) v acc h =
    let ih = collect-digits n (v / 10) (digit_char (v % 10) ∷ acc) (ground (arith, h)) in
    ground (arith, h, ih)

int2char-digits : (n : ℕ) → all_digits (int2char n) ≡ true
unfolding int2char
int2char-digits n = collect-digits 30 n [] refl

-- A value that is sent: its text, which shows it.
prepare-Shows :
    (v : Value)
    → is_sendable v ≡ true
    → (t : List ℕ) × (prepare v ≡ some t) × Shows v t × (one_line t ≡ true)
unfolding prepare
prepare-Shows (text s) h = (s, refl, refl, h)
prepare-Shows (number n) h =
    let d = int2char-decimal n (ground (arith, h)) in
    let digits = int2char-digits n in
    (
      int2char n,
      refl,
      record { digits = digits; value = d.0; zero_only = d.1 },
      digits-one_line (int2char n) digits,
    )
prepare-Shows (negative n) h = absurd (ground (arith, h))

-- A message that is sent: what the terminal receives, a line that shows it.
log-LineShows :
    (v : Value) (rest : List Value)
    → all_sendable v rest ≡ true
    → (ws : Writes) × (t : List ℕ) × (log v rest ≡ some ws)
      × (received ws ≡ t ++ 13 ∷ 10 ∷ [])
      × LineShows v rest t
      × (one_line t ≡ true)
unfolding log
log-LineShows v [] h =
    let (t, e, shows, plain) = prepare-Shows v h in
    (
      send t ++ (serial_port, 13) ∷ (serial_port, 10) ∷ [],
      t,
      rw e refl,
      received-append (send t) _ ∙ rw (received-send t, received_end) refl,
      shows,
      plain,
    )
log-LineShows v (x ∷ rest) h =
    let (t, e, shows, plain) = prepare-Shows v (ground (arith, h)) in
    let (ws, u, q, r, others, plain') = log-LineShows x rest (ground (arith, h)) in
    (
      send t ++ ws,
      t ++ u,
      rw (e, q) refl,
      received-append (send t) ws ∙ rw (received-send t, r) (sym (append_assoc t u (13 ∷ 10 ∷ []))),
      (t, u, refl, shows, others),
      one_line-append t u plain plain',
    )

split_lines-line :
    (acc s rest : List ℕ)
    → one_line s ≡ true
    → split_lines acc (s ++ 13 ∷ 10 ∷ rest) ≡ (acc ++ s) ∷ split_lines [] rest
unfolding split_lines
split_lines-line acc [] rest h = ap (λ l. l ∷ split_lines [] rest) (sym (append-nil acc))
split_lines-line acc (c ∷ s) rest h =
    let a : (c == 13) ≡ false = ground (arith, h) in
    let b : (c == 10) ≡ false = ground (arith, h) in
    rw (a, b)
      (split_lines-line (acc ++ c ∷ []) s rest (ground (arith, h))
        ∙ ap (λ l. l ∷ split_lines [] rest) (append_assoc acc (c ∷ []) s))

-- If the texts hold no ends of lines and the numbers are those that an `int` holds and not negative, the
-- log of any messages ends, and a terminal on the serial port shows each message on a line of its own, in
-- order: its texts as they are and its numbers by their decimal digits, of which 0 has none.
pub split_lines-log_all :
    (ms : List (Value × List Value))
    → sendable ms ≡ true
    → (ws : Writes) × (log_all ms ≡ some ws) × LinesShow ms (split_lines [] (received ws))
unfolding log_all received split_lines
split_lines-log_all [] h = ([], refl, tt)
split_lines-log_all (m ∷ ms) h =
    let (ws, t, e, r, shows, plain) = log-LineShows m.0 m.1 (ground (arith, h)) in
    let (rest, q, lines) = split_lines-log_all ms (ground (arith, h)) in
    let cut : split_lines [] (received (ws ++ rest)) ≡ t ∷ split_lines [] (received rest) =
      ap (split_lines []) (
        received-append ws rest
        ∙ ap (λ l. l ++ received rest) r
        ∙ append_assoc t (13 ∷ 10 ∷ []) (received rest))
      ∙ split_lines-line [] t (received rest) plain in
    (ws ++ rest, rw (e, q) refl, subst (LinesShow (m ∷ ms)) (sym cut) (shows, lines))
