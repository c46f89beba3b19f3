-- ===== src/Devices/Paging.antt =====
-- src/src/classes/paging.class.h: `System::Paging`, the identity map of 4 MiB pages.
use Prim.Native.Nat.{bit_or}
use shiro.Base.{
  ℕ, zero, suc, ◌+◌, ◌≤◌, ◌≢◌, ◌⊎◌, inl, inr, ◌∙◌, Bool-cases, ◌*◌, ◌/◌, ◌%◌, ◌^◌, ◌<◌, ◌≡◌, refl,
  Bool, true, ◌&&◌, Option, none, some, ◌==◌, if◌then◌else◌, mul32, arith,
}
use mathlib.Core.Path.{subst}
use shiro.Switch.{poke}
use shiro.Base.Table.{rows, rows-pass}

abbrev pub pde_present : ℕ
pde_present = 0x001

abbrev pub pde_rw : ℕ
pde_rw = 0x002

abbrev pub pde_user : ℕ
pde_user = 0x004

abbrev pub pde_ps : ℕ
pde_ps = 0x080

-- What the loop of `Paging::Start` writes to `directory[i]`.
unfoldable pub directory : ℕ → ℕ
directory i = bit_or (bit_or (bit_or (mul32 i 0x00400000) pde_present) pde_rw) pde_ps

-- The control registers, and `Paging::ready`.
pub record Mmu : Type 0 where
  pub ready : Bool
  pub cr0 : ℕ
  pub cr3 : ℕ
  pub cr4 : ℕ

-- `Paging::IsEnabled`.
abbrev pub is_enabled : Mmu → Bool
is_enabled u = u.ready && (u.cr0 / 2 ^ 31 % 2 == 1)

-- `v |= 1 << k` on a register.
abbrev pub set_bit : ℕ → ℕ → ℕ
set_bit k v = if v / 2 ^ k % 2 == 1 then v else v + 2 ^ k

-- The loop of `Paging::Start` from entry `i` on, in a memory of words: the array is at `address`.
unfoldable pub fill : ℕ → ℕ → ℕ → (ℕ → ℕ) → ℕ → ℕ
fill zero i address w = w
fill (suc n) i address w = fill n (i + 1) address (poke w (address + 4 * i) (directory i))

-- `Paging::Start`: the registers, and the memory.
unfoldable pub start : ℕ → Mmu × (ℕ → ℕ) → Mmu × (ℕ → ℕ)
start address (u, w) = (
  record { ready = true; cr0 = set_bit 31 u.cr0; cr3 = address; cr4 = set_bit 4 u.cr4 },
  fill 1024 0 address w,
)

-- The processor: while CR0.PG is set and CR4.PAE is not, an address goes through the entry of the
-- directory at CR3 that its upper ten bits choose. An entry that is not present faults; so does here an
-- entry of a table of small pages, and any other mode of paging.
abbrev pub physical : Mmu → (ℕ → ℕ) → ℕ → Option ℕ
physical u w a =
    let e = w (u.cr3 + 4 * (a / 2 ^ 22)) in
    if u.cr0 / 2 ^ 31 % 2 == 1
    then (if (u.cr4 / 2 ^ 5 % 2 == 0)
          && (e % 2 == 1)
          && (u.cr4 / 2 ^ 4 % 2 == 1)
          && (e / pde_ps % 2 == 1)
        then some (e / 2 ^ 22 * 2 ^ 22 + a % 2 ^ 22)
        else none)
    else some a

-- The physical address that an entry of a 4 MiB page gives to a virtual one.
abbrev pub translate : (ℕ → ℕ) → ℕ → ℕ
translate dir a = dir (a / 2 ^ 22) / 2 ^ 22 * 2 ^ 22 + a % 2 ^ 22

abbrev row : ℕ → Bool
row i =
    (directory i / 2 ^ 22 == i)
    && (directory i % 2 == 1)
    && (directory i / pde_rw % 2 == 1)
    && (directory i / pde_user % 2 == 0)
    && (directory i / pde_ps % 2 == 1)

table : rows row 1024 ≡ true
unfolding rows directory
table = refl

-- Every 32-bit address is mapped to itself, by an entry that is present, writable, for the kernel
-- alone and of a 4 MiB page.
pub directory-translate :
    (a : ℕ)
    → a < 2 ^ 32
    → (translate directory a ≡ a)
      × (directory (a / 2 ^ 22) % 2 ≡ 1)
      × (directory (a / 2 ^ 22) / pde_rw % 2 ≡ 1)
      × (directory (a / 2 ^ 22) / pde_user % 2 ≡ 0)
      × (directory (a / 2 ^ 22) / pde_ps % 2 ≡ 1)
directory-translate a h =
    let r = rows-pass row {n = 1024} (a / 2 ^ 22) (omega arith) table in ground (arith, r)

fill-cell :
    (n i address x : ℕ) (w : ℕ → ℕ)
    → (((k : ℕ) → i ≤ k → k < i + n → x ≢ address + 4 * k) → fill n i address w x ≡ w x)
      × ((k : ℕ) → i ≤ k → k < i + n → x ≡ address + 4 * k → fill n i address w x ≡ directory k)
unfolding fill
fill-cell zero i address x w = ((λ out. refl), λ k lo hi e. absurd (omega arith))
fill-cell (suc n) i address x w =
    let w' = poke w (address + 4 * i) (directory i) in
    let ih = fill-cell n (i + 1) address x w' in
    (
      λ out.
          let ne = out i (omega arith) (omega arith) in
          ih.0 (λ k lo hi. out k (omega arith) (omega arith)) ∙ ground (arith, ne),
      λ k lo hi e. elim (Bool-cases (i == k)) [
        | inl q ↦
            let same : i ≡ k = ground arith in
            ih.0 (λ j lo' hi' e'. omega (arith, same))
            ∙ subst (λ j. poke w (address + 4 * i) (directory i) x ≡ directory j) same
                (ground (arith, same, e))
        | inr q ↦ ih.1 k (ground arith) (omega arith) e
      ],
    )

-- `Paging::Start` fills the directory and touches no other memory. From registers in which CR4.PAE is
-- clear, paging is on behind it, every 32-bit address still leads to itself, and no other bit of CR0 and
-- CR4 has changed.
pub start-physical :
    (u : Mmu) (address a x : ℕ) (w : ℕ → ℕ)
    → a < 2 ^ 32
    → u.cr0 < 2 ^ 32
    → u.cr4 / 2 ^ 5 % 2 ≡ 0
    → (x < address) ⊎ (address + 4096 ≤ x)
    → let (v, w') = start address (u, w) in
      (physical v w' a ≡ some a)
      × (is_enabled v ≡ true)
      × (v.cr0 % 2 ^ 31 ≡ u.cr0 % 2 ^ 31)
      × (v.cr4 % 2 ^ 4 ≡ u.cr4 % 2 ^ 4)
      × (v.cr4 / 2 ^ 5 ≡ u.cr4 / 2 ^ 5)
      × (w' x ≡ w x)
unfolding start
start-physical u address a x w ha small pae out =
    let d = directory-translate a ha in
    let e =
      (fill-cell 1024 0 address (address + 4 * (a / 2 ^ 22)) w).1 (a / 2 ^ 22) (omega arith)
        (omega arith) refl in
    let other =
      (fill-cell 1024 0 address x w).0
        (λ k lo hi q. elim out [ inl lo' ↦ omega arith | inr hi' ↦ omega arith ]) in
    (rw e (ground (arith, d, pae)), ground arith, ground arith, ground arith, ground arith, other)
