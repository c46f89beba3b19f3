-- ===== src/CString/Tests.antt =====
-- Runs of the functions of src/src/libs/string.h and src/src/libs/stdlib.h, and concrete inputs to the
-- theorems.
use shiro.CString.Memory.{Bytes, strlen_from, strcat, strcmp, rand}
use shiro.CString.Laws.{Holds, strcat-Holds}
use shiro.CString.Compare.{Compares, strcmp-Compares}
use shiro.Base.{
  ℕ, ◌-◌, ◌<◌, ◌≡◌, refl, ◌⊎◌, inl, ◌++◌, get_or, some, leb, ltb, ◌&&◌, if◌then◌else◌, codes, arith,
}

-- The string `shi` at 10, and `ro` at 20.
abbrev memory : Bytes
memory j =
    if leb 10 j && ltb j 20 then get_or (codes "shi") (j - 10) 0 else get_or (codes "ro") (j - 20) 0

at_10 : Holds memory 10 (codes "shi")
unfolding Holds
at_10 = omega arith

at_20 : Holds memory 20 (codes "ro")
unfolding Holds
at_20 = omega arith

strcat-Holds_example :
    (m' : Bytes) × (strcat 9 10 20 memory ≡ some m')
    × Holds m' 10 (codes "shi" ++ codes "ro")
    × ((j : ℕ) → (j < 13) ⊎ (15 < j) → m' j ≡ memory j)
strcat-Holds_example =
    strcat-Holds 9 10 20 memory (codes "shi") (codes "ro") at_10 at_20 (omega arith) (omega arith)
      (inl (omega arith))

strcmp-Compares_example :
    (r : ℕ) × (strcmp 9 memory 10 20 ≡ some r) × Compares (codes "shi") (codes "ro") r
strcmp-Compares_example =
    strcmp-Compares 9 10 20 memory (codes "shi") (codes "ro") at_10 at_20 (omega arith)
      (omega arith) (omega arith)

length_shi : strlen_from 9 memory 10 0 ≡ some 3
unfolding strlen_from
length_shi = refl

first_rand : (rand 1).1 ≡ 16839
unfolding rand
first_rand = refl
