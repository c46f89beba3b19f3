-- ===== src/CString.antt =====
-- src/src/libs/common.h and src/src/libs/string.h: C strings. A string is the list of its characters
-- before the NUL; a write into an array of a known size is `none` if it goes past the end.
pub mod Memory
pub mod Laws
pub mod Compare
mod Tests
use shiro.Base.{
  ℕ, ◌+◌, ◌-◌, ◌≤◌, ◌≡◌, refl, Option, none, some, List, [], ◌∷◌, ◌++◌, ◌==◌, length, take, ltb,
  if◌then◌else◌, arith, take_all,
}

-- `concat`: the static buffer holds 255 characters and a NUL.
unfoldable pub concat : List ℕ → List ℕ → List ℕ
concat first second = let got = take 255 first in got ++ take (255 - length got) second

-- `strcpy` into an array of `room` bytes.
unfoldable pub strcpy : ℕ → List ℕ → Option (List ℕ)
strcpy room s = if ltb (length s) room then some s else none

-- The string that an array of characters holds: up to the first NUL.
unfoldable pub c_string : List ℕ → List ℕ
c_string [] = []
c_string (c ∷ s) = let rest = c_string s in if c == 0 then [] else c ∷ rest

-- Strings that fit are joined whole.
pub concat-fits :
    (first second : List ℕ)
    → length first + length second ≤ 255
    → concat first second ≡ first ++ second
unfolding concat
concat-fits first second h =
    let e = take_all 255 first (omega arith) in
    let f = take_all (255 - length first) second (omega arith) in rw (e, f) refl
