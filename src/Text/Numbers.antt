-- ===== src/Text/Numbers.antt =====
-- `IntToStr`, `HexToStr` and `ParseHex` of src/src/classes/commands.class.h.
use shiro.Base.{
  ℕ, zero, suc, ◌+◌, ◌-◌, ◌*◌, ◌/◌, ◌%◌, ◌<◌, ◌≤◌, ◌≡◌, refl, ap, ◌∙◌, Bool, true, false, not, ◌||◌,
  ◌&&◌, List, [], ◌∷◌, length, length-take, take, take_all, Option, none, some, ltb, leb, ◌==◌,
  if◌then◌else◌, arith, u32_mod, Bool-cases, inl, inr,
}

-- The character of a digit, as in the string "0123456789abcdef".
abbrev pub digit_char : ℕ → ℕ
digit_char d = if ltb d 10 then 48 + d else 87 + d

-- `while (v && n < rounds) tmp[n++] = digit(v % b), v /= b;`, and `tmp` read backwards.
unfoldable pub collect : ℕ → ℕ → ℕ → List ℕ → List ℕ
collect b zero v acc = acc
collect b (suc n) v acc =
    let rest = collect b n (v / b) (digit_char (v % b) ∷ acc) in if v == 0 then acc else rest

-- `Commands::IntToStr`.
unfoldable pub int_to_str : ℕ → ℕ → List ℕ
int_to_str v cap =
    if ltb cap 2 then [] else if v == 0 then 48 ∷ [] else take (cap - 1) (collect 10 15 v [])

-- `Commands::HexToStr`.
unfoldable pub hex_to_str : ℕ → ℕ → List ℕ
hex_to_str v cap =
    if ltb cap 4
    then []
    else 48 ∷ 120 ∷ take (cap - 1 - 2) (if v == 0 then 48 ∷ [] else collect 16 8 v [])

-- The value of a digit's character.
abbrev pub hex_value : ℕ → Option ℕ
hex_value c =
    if leb 48 c && leb c 57
    then some (c - 48)
    else if leb 97 c && leb c 102
    then some (c - 97 + 10)
    else if leb 65 c && leb c 70
    then some (c - 65 + 10)
    else none

-- The loop of `ParseHex`. The low four bits of `v << 4` are 0, so `| d` is `+ d`.
unfoldable pub parse_loop : ℕ → Bool → List ℕ → ℕ × Bool
parse_loop v any [] = (v, any)
parse_loop v any (c ∷ s) = elim (hex_value c) [
  | none ↦ (v, any)
  | some d ↦ parse_loop (v * 16 % u32_mod + d) true s
]

abbrev pub skip_prefix : List ℕ → List ℕ
skip_prefix [] = []
skip_prefix (c ∷ []) = c ∷ []
skip_prefix (c ∷ x ∷ s) = if (c == 48) && ((x == 120) || (x == 88)) then s else c ∷ x ∷ s

-- `ParseHex`.
unfoldable pub parse_hex : List ℕ → Option ℕ
parse_hex s =
    if length s == 0
    then none
    else let r = parse_loop 0 false (skip_prefix s) in if r.1 then some r.0 else none

pub length-collect : (b n v : ℕ) (acc : List ℕ) → length (collect b n v acc) ≤ n + length acc
unfolding collect
length-collect b zero v acc = omega arith
length-collect b (suc n) v acc =
    ground (arith, length-collect b n (v / b) (digit_char (v % b) ∷ acc))

abbrev pub power : ℕ → ℕ → ℕ
power b zero = 1
power b (suc n) = b * power b n

-- A number below 10^n has at most n digits.
length-collect_digits :
    (m n v : ℕ) (acc : List ℕ) → v < power 10 n → length (collect 10 m v acc) ≤ n + length acc
unfolding collect
length-collect_digits zero n v acc h = omega arith
length-collect_digits (suc m) zero v acc h = let z : v ≡ 0 = omega (arith, h) in rw z (ground arith)
length-collect_digits (suc m) (suc n) v acc h =
    ground
      (arith, length-collect_digits m n (v / 10) (digit_char (v % 10) ∷ acc) (omega (arith, h)))

-- A 32-bit number has at most ten digits.
pub length-collect_small :
    (m v : ℕ) (acc : List ℕ) → v < u32_mod → length (collect 10 m v acc) ≤ 10 + length acc
length-collect_small m v acc h = length-collect_digits m 10 v acc (omega (arith, h))

-- A number below 10^n, for n of at least 1, prints at most n characters.
pub length-int_to_str_digits :
    (n v cap : ℕ) → v < power 10 n → 1 ≤ n → length (int_to_str v cap) ≤ n
unfolding int_to_str
length-int_to_str_digits n v cap h one =
    ground
      (arith, one, length-take (cap - 1) (collect 10 15 v []), length-collect_digits 15 n v [] h)

pub length-int_to_str : (v cap : ℕ) → length (int_to_str v cap) ≤ cap - 1
unfolding int_to_str
length-int_to_str v cap = ground (arith, length-take (cap - 1) (collect 10 15 v []))

pub length-hex_to_str : (v cap : ℕ) → length (hex_to_str v cap) ≤ cap - 1
unfolding hex_to_str
length-hex_to_str v cap =
    ground (arith, length-take (cap - 1 - 2) (if v == 0 then 48 ∷ [] else collect 16 8 v []))

hex_value-digit_char : (d : ℕ) → d < 16 → hex_value (digit_char d) ≡ some d
hex_value-digit_char d h = ground (arith, h)

-- Reading the digits of `v` and then the rest is reading the rest after `v`.
parse_loop-collect :
    (n v : ℕ) (any : Bool) (acc : List ℕ)
    → v < power 16 n
    → v < u32_mod
    → parse_loop 0 any (collect 16 n v acc) ≡ parse_loop v (any || not (v == 0)) acc
unfolding parse_loop collect
parse_loop-collect zero v any acc small low =
    let z : v ≡ 0 = omega arith in let o : (any || false) ≡ any = ground arith in rw (z, o) refl
parse_loop-collect (suc n) v any acc small low = elim (Bool-cases (v == 0)) [
  | inl z ↦
      let z' : v ≡ 0 = ground arith in
      let o : (any || false) ≡ any = ground arith in rw (z', o) refl
  | inr z ↦
      let ih =
        parse_loop-collect n (v / 16) any (digit_char (v % 16) ∷ acc) (omega arith) (omega arith) in
      let d = hex_value-digit_char (v % 16) (omega arith) in
      let e : v / 16 * 16 % u32_mod + v % 16 ≡ v = omega (arith, low) in
      let o : (any || true) ≡ true = ground arith in
      let step : parse_loop (v / 16) (any || not (v / 16 == 0)) (digit_char (v % 16) ∷ acc)
          ≡ parse_loop v true acc =
        rw (d, e, parse_loop) refl in
      rw (z, o) (ih ∙ step)
]

-- What `HexToStr` prints of a 32-bit number, in a buffer of at least eleven bytes, `ParseHex` reads
-- back.
pub parse_hex-hex_to_str :
    (v cap : ℕ) → v < u32_mod → 11 ≤ cap → parse_hex (hex_to_str v cap) ≡ some v
unfolding parse_hex hex_to_str parse_loop
parse_hex-hex_to_str v cap small room =
    let c : ltb cap 4 ≡ false = ground arith in
    elim (Bool-cases (v == 0)) [
      | inl z ↦
          let z' : v ≡ 0 = ground arith in
          let t = take_all {A = ℕ} (cap - 1 - 2) (48 ∷ []) (omega arith) in rw (c, z', t) refl
      | inr z ↦
          let t =
            take_all (cap - 1 - 2) (collect 16 8 v []) (omega (arith, length-collect 16 8 v [])) in
          let r = parse_loop-collect 8 v false [] (omega arith) small in
          rw (c, z, t, r) (ground (arith, z))
    ]

-- The number that a string of decimal digits stands for, after `v`.
abbrev pub decimal : ℕ → List ℕ → ℕ
decimal v [] = v
decimal v (c ∷ s) = decimal (v * 10 + (c - 48)) s

pub decimal-collect :
    (n v : ℕ) (acc : List ℕ) → v < power 10 n → decimal 0 (collect 10 n v acc) ≡ decimal v acc
unfolding collect
decimal-collect zero v acc small = let z : v ≡ 0 = omega arith in rw z refl
decimal-collect (suc n) v acc small = elim (Bool-cases (v == 0)) [
  | inl z ↦ let z' : v ≡ 0 = ground arith in rw z' refl
  | inr z ↦
      let ih = decimal-collect n (v / 10) (digit_char (v % 10) ∷ acc) (omega arith) in
      let e : v / 10 * 10 + (digit_char (v % 10) - 48) ≡ v = ground arith in
      rw z (ih ∙ ap (λ x. decimal x acc) e)
]

-- What `IntToStr` prints of a 32-bit number, in a buffer of at least sixteen bytes, stands for the
-- number.
pub decimal-int_to_str : (v cap : ℕ) → v < u32_mod → 16 ≤ cap → decimal 0 (int_to_str v cap) ≡ v
unfolding int_to_str
decimal-int_to_str v cap small room =
    let c : ltb cap 2 ≡ false = ground arith in
    elim (Bool-cases (v == 0)) [
      | inl z ↦ let z' : v ≡ 0 = ground arith in rw (c, z') refl
      | inr z ↦
          let t =
            take_all (cap - 1) (collect 10 15 v []) (omega (arith, length-collect 10 15 v [])) in
          rw (c, z, t) (decimal-collect 15 v [] (omega arith))
    ]
