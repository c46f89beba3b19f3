-- ===== src/Commands/Readings.antt =====
-- What uptime, peek and dumpmem of src/src/classes/commands.class.h show.
use shiro.Text.Numbers.{hex_value, parse_hex-hex_to_str}
use shiro.Commands.Lines.{Piece, str, dec, hex, build-whole, hex_digits, whole}
use shiro.Commands.Kernel.{cmd_uptime}
use shiro.Commands.Memory.{cmd_peek, cmd_dumpmem, dump_row, byte_columns, char_columns, hex_char}
use shiro.Tags.{Words}
use shiro.Base.{
  ℕ, zero, suc, ◌+◌, ◌*◌, ◌-◌, ◌/◌, ◌%◌, ◌<◌, ◌≡◌, refl, ap, ◌∙◌, List, [], ◌∷◌, ◌++◌, append-nil,
  append_assoc, drop, none, some, ◌==◌, if◌then◌else◌, add32, u32_mod, codes, arith, Bool-cases,
  inl, inr,
}

-- What `uptime` is to show of the time and the ticks.
abbrev pub uptime_pieces : ℕ → ℕ → ℕ → ℕ → List Piece
uptime_pieces hours mins secs ticks =
    str (codes "uptime: ")
    ∷ dec hours
    ∷ str (codes "h ")
    ∷ dec mins
    ∷ str (codes "m ")
    ∷ dec secs
    ∷ str (codes "s  (")
    ∷ dec ticks
    ∷ str (codes " ticks @ ")
    ∷ dec 100
    ∷ str (codes " Hz)")
    ∷ []

-- `uptime` prints one line that is not cut off, with hours, minutes below 60 and seconds below 60 that
-- make up the whole seconds of the ticks.
pub cmd_uptime-time :
    (ticks : ℕ)
    → ticks < u32_mod
    → (hours : ℕ) × (mins : ℕ) × (secs : ℕ) × (cmd_uptime ticks
        ≡ whole (uptime_pieces hours mins secs ticks) ∷ [])
      × (mins < 60)
      × (secs < 60)
      × (hours * 3600 + mins * 60 + secs ≡ ticks / 100)
unfolding cmd_uptime
cmd_uptime-time ticks small =
    let t = ticks / 100 in
    let ps = uptime_pieces (t / 3600) (t % 3600 / 60) (t % 60) ticks in
    let e =
      build-whole ps 0 [] (omega arith) refl
        (omega arith, (omega arith, (omega arith, (small, (omega arith, tt))))) in
    (t / 3600, t % 3600 / 60, t % 60, ap (λ l. l ∷ []) e, omega arith, omega arith, omega arith)

-- `peek` of a 32-bit address, written as the kernel writes it, shows the word at the address that is
-- aligned down to 4, and both numbers whole.
pub cmd_peek-hex_digits :
    (w : Words) (a : ℕ)
    → a < u32_mod
    → cmd_peek w (hex_digits a)
      ≡ (codes "[" ++ (hex_digits (a - a % 4) ++ (codes "] = " ++ hex_digits (w (a - a % 4))))) ∷ []
unfolding cmd_peek
cmd_peek-hex_digits w a small =
    let p = parse_hex-hex_to_str a 11 small (omega arith) in
    let c : a / 4 * 4 ≡ a - a % 4 = omega arith in
    let ps = str (codes "[") ∷ hex (a - a % 4) ∷ str (codes "] = ") ∷ hex (w (a - a % 4)) ∷ [] in
    let e = build-whole ps 0 [] (omega arith) refl tt in
    let n = append-nil (hex_digits (w (a - a % 4))) in rw (p, c, e, n, cmd_peek) refl

-- The value of a digit, and the bytes that columns of two digits and blanks show.
abbrev pub nibble : ℕ → ℕ
nibble c = elim (hex_value c) [ none ↦ 0 | some d ↦ d ]

abbrev pub read_columns : ℕ → ℕ → List ℕ → List ℕ
read_columns zero col s = []
read_columns (suc n) col (a ∷ b ∷ x ∷ s) =
    (nibble a * 16 + nibble b) ∷ read_columns n (col + 1) (if col == 7 then drop 1 s else s)
read_columns (suc n) col s = []

-- The bytes from `col` to `col + n` behind an address, which wraps.
abbrev pub bytes_from : ℕ → ℕ → (ℕ → ℕ) → List ℕ
bytes_from zero col p = []
bytes_from (suc n) col p = p col ∷ bytes_from n (col + 1) p

nibble-hex_char : (d : ℕ) → d < 16 → nibble (hex_char d) ≡ d
nibble-hex_char d h = ground (arith, h)

bytes_from-ext :
    (n col : ℕ) (f g : ℕ → ℕ) → ((i : ℕ) → f i ≡ g i) → bytes_from n col f ≡ bytes_from n col g
bytes_from-ext zero col f g h = refl
bytes_from-ext (suc n) col f g h =
    let e = h col in let ih = bytes_from-ext n (col + 1) f g h in cc (e, ih)

read_columns-byte_columns :
    (n col : ℕ) (p : ℕ → ℕ) (row : ℕ) (after : List ℕ)
    → ((i : ℕ) → p i < 256)
    → read_columns n col (byte_columns n col p row ++ after)
      ≡ bytes_from n col (λ c. p (row * 16 + c))
unfolding byte_columns
read_columns-byte_columns zero col p row after low = refl
read_columns-byte_columns (suc n) col p row after low =
    let b = p (row * 16 + col) in
    let lb = low (row * 16 + col) in
    let h = nibble-hex_char (b / 16) (omega (arith, lb)) in
    let l = nibble-hex_char (b % 16) (omega arith) in
    let e : nibble (hex_char (b / 16)) * 16 + nibble (hex_char (b % 16)) ≡ b =
      omega (arith, h, l) in
    let ih = read_columns-byte_columns n (col + 1) p row after low in
    elim (Bool-cases (col == 7)) [ inl y ↦ rw y (cc (e, ih)) | inr y ↦ rw y (cc (e, ih)) ]

-- A row of a dump, with the address whole.
dump_row-columns :
    (p : ℕ → ℕ) (addr row : ℕ)
    → dump_row p addr row
      ≡ hex_digits (add32 addr (row * 16))
        ++ (codes ":  " ++ (byte_columns 16 0 p row ++ 32 ∷ char_columns 16 0 p row))
unfolding dump_row
dump_row-columns p addr row =
    let a = add32 addr (row * 16) in
    let rest = byte_columns 16 0 p row ++ 32 ∷ char_columns 16 0 p row in
    let e = build-whole (hex a ∷ str (codes ":  ") ∷ []) 0 [] (omega arith) refl tt in
    ap (λ t. t ++ rest) e ∙ append_assoc (hex_digits a) (codes ":  ") rest

-- Row `row` shows an address and a text after it whose columns are the bytes there.
abbrev pub Shows : (ℕ → ℕ) → ℕ → List ℕ → Type 0
Shows m a l =
    (columns : List ℕ) × (l ≡ hex_digits a ++ (codes ":  " ++ columns))
    × (read_columns 16 0 columns ≡ bytes_from 16 0 (λ c. m (add32 a c)))

dump_row-Shows :
    (m : ℕ → ℕ) (addr row : ℕ)
    → ((i : ℕ) → m i < 256)
    → Shows m (add32 addr (row * 16)) (dump_row (λ i. m (add32 addr i)) addr row)
dump_row-Shows m addr row low =
    let p : ℕ → ℕ = λ i. m (add32 addr i) in
    let after = 32 ∷ char_columns 16 0 p row in
    (
      byte_columns 16 0 p row ++ after,
      dump_row-columns p addr row,
      read_columns-byte_columns 16 0 p row after (λ i. low (add32 addr i))
          ∙ bytes_from-ext 16 0 (λ c. p (row * 16 + c)) (λ c. m (add32 (add32 addr (row * 16)) c))
              (λ c. ap m (omega arith)),
    )

-- `dumpmem` of a 32-bit address, written as the kernel writes it, on a memory of bytes, prints four
-- rows: from the address aligned down to 16, each row shows its address and the 16 bytes there, which
-- can be read back from its columns.
pub cmd_dumpmem-Shows :
    (m : ℕ → ℕ) (a : ℕ)
    → ((i : ℕ) → m i < 256)
    → a < u32_mod
    → (l0 : List ℕ) × (l1 : List ℕ) × (l2 : List ℕ) × (l3 : List ℕ) × (cmd_dumpmem m (hex_digits a)
        ≡ l0 ∷ l1 ∷ l2 ∷ l3 ∷ [])
      × Shows m (add32 (a - a % 16) 0) l0
      × Shows m (add32 (a - a % 16) 16) l1
      × Shows m (add32 (a - a % 16) 32) l2
      × Shows m (add32 (a - a % 16) 48) l3
unfolding cmd_dumpmem
cmd_dumpmem-Shows m a low small =
    let p = parse_hex-hex_to_str a 11 small (omega arith) in
    let c : a / 16 * 16 ≡ a - a % 16 = omega arith in
    let addr = a - a % 16 in
    let row : ℕ → List ℕ = λ r. dump_row (λ i. m (add32 addr i)) addr r in
    let shown = λ (r : ℕ). dump_row-Shows m addr r low in
    (row 0, row 1, row 2, row 3, rw (p, c, cmd_dumpmem) refl, shown 0, shown 1, shown 2, shown 3)
