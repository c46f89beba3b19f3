-- ===== src/Panic/Digits.antt =====
-- The numbers of the panic screen of src/src/classes/panic.class.h.
use shiro.Text.Numbers.{parse_hex, parse_loop, hex_value, decimal, decimal-collect, collect}
use shiro.Panic.{hex_chars, nibbles, upper_hex, int2char}
use shiro.Base.{
  ℕ, suc, ◌+◌, ◌*◌, ◌/◌, ◌%◌, ◌^◌, ◌<◌, ◌≡◌, refl, sym, ap, ◌∙◌, ◌↔◌, Bool, true, false, List, [],
  ◌∷◌, length, ◌==◌, some, u32_mod, arith,
}

hex_value-upper_hex : (d : ℕ) → d < 16 → hex_value (upper_hex d) ≡ some d
hex_value-upper_hex d h = ground (arith, h)

-- One more digit of `v`, after those above it.
parse_digit :
    (v p : ℕ) (any : Bool) (s : List ℕ)
    → v / (16 * p) * 16 % u32_mod + v / p % 16 ≡ v / p
    → parse_loop (v / (16 * p)) any (upper_hex (v / p % 16) ∷ s) ≡ parse_loop (v / p) true s
unfolding parse_loop
parse_digit v p any s e =
    let d = hex_value-upper_hex (v / p % 16) (omega arith) in rw (d, e, parse_loop) refl

parse_end : (v : ℕ) → parse_loop v true [] ≡ (v, true)
unfolding parse_loop
parse_end v = refl

parse_nibbles : (v : ℕ) → v < u32_mod → parse_loop 0 false (nibbles 8 v) ≡ (v, true)
unfolding nibbles
parse_nibbles v small =
    let z : v / 4294967296 ≡ 0 = omega (arith, small) in
    let o : v / 1 ≡ v = omega arith in
    ap (λ x. parse_loop x false (nibbles 8 v)) (sym z)
    ∙ parse_digit v 268435456 false (nibbles 7 v) (omega (arith, small))
    ∙ parse_digit v 16777216 true (nibbles 6 v) (omega (arith, small))
    ∙ parse_digit v 1048576 true (nibbles 5 v) (omega (arith, small))
    ∙ parse_digit v 65536 true (nibbles 4 v) (omega (arith, small))
    ∙ parse_digit v 4096 true (nibbles 3 v) (omega (arith, small))
    ∙ parse_digit v 256 true (nibbles 2 v) (omega (arith, small))
    ∙ parse_digit v 16 true (nibbles 1 v) (omega (arith, small))
    ∙ parse_digit v 1 true [] (omega (arith, small))
    ∙ ap (λ x. parse_loop x true []) o
    ∙ parse_end v

-- The eight digits that the panic screen shows of a 32-bit number are read back as the number by the
-- commands: what it shows can be typed after `peek`.
pub parse_hex-hex_chars : (v : ℕ) → v < u32_mod → parse_hex (hex_chars v) ≡ some v
unfolding parse_hex hex_chars
parse_hex-hex_chars v small =
    let z : (suc (suc (length (nibbles 8 v))) == 0) ≡ false = ground arith in
    let e = parse_nibbles v small in rw (e, z) refl

-- `int2char` writes the digits of a number up to 2^31 - 1 and nothing else, so of 0 it writes nothing.
pub int2char-decimal :
    (v : ℕ) → v < 2 ^ 31 → (decimal 0 (int2char v) ≡ v) × ((v ≡ 0) ↔ (int2char v ≡ []))
unfolding int2char collect
int2char-decimal v small = (
  decimal-collect 30 v [] (omega arith),
  (
    λ z. ap (λ x. collect 10 30 x []) z,
    λ e. sym (decimal-collect 30 v [] (omega arith)) ∙ ap (decimal 0) e,
  ),
)
