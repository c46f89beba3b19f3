-- ===== src/CString/Memory.antt =====
-- The functions of src/src/libs/string.h and src/src/libs/stdlib.h that work on memory. A byte stands at
-- its address; addresses do not wrap. A loop that waits for a NUL gets rounds, and is `none` when it has
-- used them up.
use shiro.Base.{
  ℕ, zero, suc, ◌+◌, ◌*◌, ◌/◌, ◌%◌, not, ◌&&◌, Option, none, some, ◌==◌, if◌then◌else◌, sub32,
  u32_mod, ◌>>=◌,
}

abbrev pub Bytes : Type 0
Bytes = ℕ → ℕ

abbrev pub store : Bytes → ℕ → ℕ → Bytes
store m p v j = if j == p then v else m j

-- `memset`: the value is cut to a character.
unfoldable pub memset : ℕ → ℕ → ℕ → Bytes → Bytes
memset zero s c m = m
memset (suc n) s c m = memset n (s + 1) c (store m s (c % 256))

-- `memcpy`, with `n` bytes left from byte `i` on.
unfoldable pub memcpy_from : ℕ → ℕ → ℕ → ℕ → Bytes → Bytes
memcpy_from zero i dst src m = m
memcpy_from (suc n) i dst src m = memcpy_from n (i + 1) dst src (store m (dst + i) (m (src + i)))

unfoldable pub memcpy : ℕ → ℕ → ℕ → Bytes → Bytes
memcpy dst src size m = memcpy_from size 0 dst src m

-- `strlen`, from `len` on.
unfoldable pub strlen_from : ℕ → Bytes → ℕ → ℕ → Option ℕ
strlen_from zero m str len = none
strlen_from (suc fuel) m str len =
    let rest = strlen_from fuel m str (len + 1) in if m (str + len) == 0 then some len else rest

-- `while ((*d++ = *s++) != 0);`
unfoldable pub copy_string : ℕ → ℕ → ℕ → Bytes → Option Bytes
copy_string zero d s m = none
copy_string (suc fuel) d s m =
    let m' = store m d (m s) in
    let rest = copy_string fuel (d + 1) (s + 1) m' in if m s == 0 then some m' else rest

-- `while (*d) d++;`
unfoldable pub string_end : ℕ → Bytes → ℕ → Option ℕ
string_end zero m d = none
string_end (suc fuel) m d =
    let rest = string_end fuel m (d + 1) in if m d == 0 then some d else rest

-- `strcat`.
unfoldable pub strcat : ℕ → ℕ → ℕ → Bytes → Option Bytes
strcat fuel d s m = string_end fuel m d >>= λ e. copy_string fuel e s m

-- `strcmp`: the difference of two bytes, as a 32-bit word.
unfoldable pub strcmp : ℕ → Bytes → ℕ → ℕ → Option ℕ
strcmp zero m a b = none
strcmp (suc fuel) m a b =
    let rest = strcmp fuel m (a + 1) (b + 1) in
    if not (m a == 0) && (m a == m b) then rest else some (sub32 (m a) (m b))

-- `rand`: the new state, a 32-bit word, and the number.
unfoldable pub rand : ℕ → ℕ × ℕ
rand next = let next' = (next * 1103515245 + 12345) % u32_mod in (next', next' / 65536 % 32767 + 1)
