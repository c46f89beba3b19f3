-- ===== src/Commands/Lines.antt =====
-- The line buffers of the commands of src/src/classes/commands.class.h: `j = AppendStr(buf, j, 80, s)`,
-- `j += IntToStr(v, buf + j, 80 - j)` and the like, one after the other.
use shiro.Text.Box.{fill_until, space}
use shiro.Text.Numbers.{
  int_to_str, hex_to_str, collect, length-collect, length-collect_small, length-int_to_str,
  length-hex_to_str,
}
use shiro.Text.Dispatch.{append_str}
use shiro.Base.{
  ℕ, ◌+◌, ◌-◌, ◌<◌, ◌≤◌, ◌≡◌, refl, sym, ◌∙◌, Bool, true, false, ◌&&◌, List, [], ◌∷◌, ◌++◌,
  append_assoc, append-nil, length, length-append, length-take, length-replicate, take, take_all,
  replicate, min, ltb, leb, ◌==◌, if◌then◌else◌, u32_mod, arith,
}

-- One addition to the buffer: a text, a number in decimal or in hexadecimal, blanks up to a column,
-- or `j -= 1`.
pub data Piece : Type 0 where
  str : List ℕ → Piece
  dec : ℕ → Piece
  hex : ℕ → Piece
  pad : ℕ → Piece
  back : Piece

-- The buffer of `cap` bytes after the addition.
unfoldable pub add : ℕ → List ℕ → Piece → List ℕ
add cap buf (str s) = append_str cap buf s
add cap buf (dec v) = buf ++ int_to_str v (cap - length buf)
add cap buf (hex v) = buf ++ hex_to_str v (cap - length buf)
add cap buf (pad column) = fill_until (min column (cap - 1)) space buf
add cap buf back = take (length buf - 1) buf

unfoldable pub build : ℕ → List Piece → List ℕ → List ℕ
build cap [] buf = buf
build cap (p ∷ ps) buf = build cap ps (add cap buf p)

-- A line in a buffer of 80 bytes.
abbrev pub line : List Piece → List ℕ
line ps = build 80 ps []

length-add : (cap : ℕ) (buf : List ℕ) (p : Piece) → length buf < cap → length (add cap buf p) < cap
unfolding add append_str
length-add cap buf (str s) h =
    omega (
      arith,
      length-append buf (take (cap - 1 - length buf) s),
      length-take (cap - 1 - length buf) s,
    )
length-add cap buf (dec v) h = omega (
  arith,
  length-append buf (int_to_str v (cap - length buf)),
  length-int_to_str v (cap - length buf),
)
length-add cap buf (hex v) h = omega (
  arith,
  length-append buf (hex_to_str v (cap - length buf)),
  length-hex_to_str v (cap - length buf),
)
length-add cap buf (pad column) h = omega (
  arith,
  length-append buf (replicate (min column (cap - 1) - length buf) space),
  length-replicate (min column (cap - 1) - length buf) space,
)
length-add cap buf back h = omega (arith, length-take (length buf - 1) buf)

-- The buffer never holds more than its size less the NUL.
pub length-build :
    (cap : ℕ) (ps : List Piece) (buf : List ℕ) → length buf < cap → length (build cap ps buf) < cap
unfolding build
length-build cap [] buf h = h
length-build cap (p ∷ ps) buf h = length-build cap ps (add cap buf p) (length-add cap buf p h)

pub length-line : (ps : List Piece) → length (line ps) ≤ 79
length-line ps = omega (arith, length-build 80 ps [] (omega arith))

-- The digits of a 32-bit number, none cut off.
abbrev pub digits : ℕ → List ℕ
digits v = int_to_str v 16

abbrev pub hex_digits : ℕ → List ℕ
hex_digits v = hex_to_str v 11

pub length-digits : (v cap : ℕ) → v < u32_mod → length (int_to_str v cap) ≤ 10
unfolding int_to_str
length-digits v cap small =
    ground (arith, length-take (cap - 1) (collect 10 15 v []), length-collect_small 15 v [] small)

pub length-hex_digits : (v cap : ℕ) → length (hex_to_str v cap) ≤ 10
unfolding hex_to_str
length-hex_digits v cap = ground (
  arith,
  length-take (cap - 1 - 2) (if v == 0 then 48 ∷ [] else collect 16 8 v []),
  length-collect 16 8 v [],
)

-- Eleven bytes are enough for any number.
int_to_str-digits : (v cap : ℕ) → v < u32_mod → 11 ≤ cap → int_to_str v cap ≡ digits v
unfolding int_to_str
int_to_str-digits v cap small room =
    let l = length-collect_small 15 v [] small in
    let t = take_all (cap - 1) (collect 10 15 v []) (omega arith) in
    let t' = take_all 15 (collect 10 15 v []) (omega arith) in
    let c : ltb cap 2 ≡ false = ground arith in rw (c, t, t') refl

hex_to_str-digits : (v cap : ℕ) → 11 ≤ cap → hex_to_str v cap ≡ hex_digits v
unfolding hex_to_str
hex_to_str-digits v cap room =
    let d = if v == 0 then 48 ∷ [] else collect 16 8 v [] in
    let l : length d ≤ 8 = ground (arith, length-collect 16 8 v []) in
    let t = take_all (cap - 1 - 2) d (omega arith) in
    let t' = take_all 8 d l in let c : ltb cap 4 ≡ false = ground arith in rw (c, t, t') refl

-- What the pieces are to print, nothing cut off.
abbrev pub whole : List Piece → List ℕ
whole [] = []
whole (str s ∷ ps) = s ++ whole ps
whole (dec v ∷ ps) = digits v ++ whole ps
whole (hex v ∷ ps) = hex_digits v ++ whole ps
whole (p ∷ ps) = whole ps

-- From a buffer of at most `w` characters, the pieces stay within `stop`, whatever the numbers.
abbrev pub fits : ℕ → ℕ → List Piece → Bool
fits stop w [] = true
fits stop w (str s ∷ ps) = leb (w + length s) stop && fits stop (w + length s) ps
fits stop w (dec v ∷ ps) = leb (w + 10) stop && fits stop (w + 10) ps
fits stop w (hex v ∷ ps) = leb (w + 10) stop && fits stop (w + 10) ps
fits stop w (p ∷ ps) = false

abbrev pub Small : List Piece → Type 0
Small [] = Unit
Small (dec v ∷ ps) = (v < u32_mod) × Small ps
Small (p ∷ ps) = Small ps

-- Pieces that fit in the buffer are printed whole.
pub build-whole :
    (ps : List Piece) (w : ℕ) (buf : List ℕ)
    → length buf ≤ w
    → fits 79 w ps ≡ true
    → Small ps
    → build 80 ps buf ≡ buf ++ whole ps
unfolding build add append_str
build-whole [] w buf le f sm = sym (append-nil buf)
build-whole (str s ∷ ps) w buf le f sm =
    let t = take_all (79 - length buf) s (ground (arith, f, le)) in
    let ih =
      build-whole ps (w + length s) (buf ++ s) (omega (arith, length-append buf s))
        (ground (arith, f)) sm in
    rw t (ih ∙ append_assoc buf s (whole ps))
build-whole (dec v ∷ ps) w buf le f (low, sm) =
    let t = int_to_str-digits v (80 - length buf) low (ground (arith, f, le)) in
    let ih =
      build-whole ps (w + 10) (buf ++ digits v)
        (omega (arith, length-append buf (digits v), length-digits v 16 low)) (ground (arith, f))
        sm in
    rw t (ih ∙ append_assoc buf (digits v) (whole ps))
build-whole (hex v ∷ ps) w buf le f sm =
    let t = hex_to_str-digits v (80 - length buf) (ground (arith, f, le)) in
    let ih =
      build-whole ps (w + 10) (buf ++ hex_digits v)
        (omega (arith, length-append buf (hex_digits v), length-hex_digits v 11))
        (ground (arith, f)) sm in
    rw t (ih ∙ append_assoc buf (hex_digits v) (whole ps))
build-whole (pad c ∷ ps) w buf le f sm = absurd (ground (arith, f))
build-whole (back ∷ ps) w buf le f sm = absurd (ground (arith, f))
