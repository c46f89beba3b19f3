-- ===== src/BootInfo/Tests.antt =====
-- A chain of tags, and the theorems on the boot information applied to it.
use shiro.Tags.{Words}
use shiro.Heap.{Memory, heap_size}
use shiro.BootInfo.Initrd.{loaded, find}
use shiro.BootInfo.Files.{FirstNamed, find-FirstNamed}
use shiro.BootInfo.Modules.{IsEnd}
use shiro.Base.{
  ℕ, ◌+◌, ◌^◌, ◌<◌, ◌≡◌, ◌⊎◌, inl, inr, refl, List, [], ◌∷◌, ◌==◌, if◌then◌else◌, arith,
}

-- A module from 0x300000 to 0x301000 with a ramdisk of one file, then a memory map, then the end.
abbrev info : Words
info a =
    if a == 0x1008
    then 3
    else if a == 0x100C
    then 20
    else if a == 0x1010
    then 0x300000
    else if a == 0x1014
    then 0x301000
    else if a == 0x1020
    then 6
    else if a == 0x1024
    then 40
    else if a == 0x1028
    then 24
    else if a == 0x1038
    then 0x200000
    else if a == 0x1040
    then 1
    else if a == 0x300000
    then 0x53484952
    else if a == 0x300004
    then 1
    else 0

abbrev tags : List ℕ
tags = 0x1008 ∷ 0x1020 ∷ []

-- The file is called `a`.
abbrev bytes : ℕ → ℕ
bytes a = if a == 0x300008 then 97 else 0

find-FirstNamed_example :
    FirstNamed bytes (loaded info 0x1008) (97 ∷ []) (find bytes (loaded info 0x1008) (97 ∷ []))
find-FirstNamed_example =
    find-FirstNamed bytes (loaded info 0x1008) (97 ∷ []) refl ((λ e. absurd (omega (arith, e))), tt)

abbrev no_memory : Memory
no_memory x = record { magic = 0; size = 0; used = 0; next = 0 }

small : (r : ℕ) → (r ≡ 0) ⊎ IsEnd info tags r → r + 0x1000 + heap_size < 2 ^ 32
small r (inl z) = omega (arith, z)
small r (inr (inl (y, e))) = omega (arith, e)
small r (inr (inr (inl (y, e)))) = omega (arith, e)
small r (inr (inr (inr x))) = elim x [ ]
