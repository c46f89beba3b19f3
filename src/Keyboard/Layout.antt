-- ===== src/Keyboard/Layout.antt =====
-- The tables of src/src/classes/keyboard.class.h and what Caps Lock does to them.
use shiro.Base.{
  ℕ, ◌-◌, ◌<◌, ◌≡◌, refl, Bool, true, false, not, ◌&&◌, ◌||◌, leb, ◌==◌, if◌then◌else◌, arith,
}
use shiro.Base.Table.{rows, rows-pass}
use shiro.Keyboard.{unshifted, shifted, key_char}

abbrev pub is_letter : ℕ → Bool
is_letter c = leb 97 c && leb c 122

-- Shift or Caps Lock, not both.
abbrev pub either_one : Bool → Bool → Bool
either_one true b = not b
either_one false b = b

-- What a US keyboard types.
abbrev pub typed : Bool → Bool → ℕ → ℕ
typed shift caps code =
    if is_letter (unshifted code)
    then (if either_one shift caps then unshifted code - 32 else unshifted code)
    else if shift
    then shifted code
    else unshifted code

abbrev row : ℕ → Bool
row code =
    (key_char true true code == typed true true code)
    && (key_char true false code == typed true false code)
    && (key_char false true code == typed false true code)
    && (key_char false false code == typed false false code)

table : rows row 128 ≡ true
unfolding rows key_char shifted unshifted
table = refl

-- Every key of the seven-bit codes types, under each state of Shift and Caps Lock: a letter in
-- capitals exactly if one of the two is on, and any other key by its table, Caps Lock ignored.
pub key_char-typed :
    (shift caps : Bool) (code : ℕ) → code < 128 → key_char shift caps code ≡ typed shift caps code
key_char-typed true true code h = ground (arith, rows-pass row {n = 128} code h table)
key_char-typed true false code h = ground (arith, rows-pass row {n = 128} code h table)
key_char-typed false true code h = ground (arith, rows-pass row {n = 128} code h table)
key_char-typed false false code h = ground (arith, rows-pass row {n = 128} code h table)

-- The keys that `Handler` treats before it looks for a character.
abbrev pub special : ℕ → Bool
special code =
    (code == 0x2A)
    || (code == 0x36)
    || (code == 0x1D)
    || (code == 0x38)
    || (leb 0x3A code && leb code 0x3F)

abbrev silent_row : ℕ → Bool
silent_row code =
    not (special code)
    || (key_char true true code == 0)
      && (key_char true false code == 0)
      && (key_char false true code == 0)
      && (key_char false false code == 0)

silent_table : rows silent_row 128 ≡ true
unfolding rows key_char shifted unshifted
silent_table = refl

pub special-silent :
    (shift caps : Bool) (code : ℕ) → code < 128 → special code ≡ true → key_char shift caps code ≡ 0
special-silent true true code h p =
    ground (arith, p, rows-pass silent_row {n = 128} code h silent_table)
special-silent true false code h p =
    ground (arith, p, rows-pass silent_row {n = 128} code h silent_table)
special-silent false true code h p =
    ground (arith, p, rows-pass silent_row {n = 128} code h silent_table)
special-silent false false code h p =
    ground (arith, p, rows-pass silent_row {n = 128} code h silent_table)
