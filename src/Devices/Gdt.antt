-- ===== src/Devices/Gdt.antt =====
-- src/src/classes/gdt.class.h: `System::GDT`, the table of segment descriptors.
use Prim.Native.Nat.{bit_and, bit_or}
use shiro.Base.{
  ℕ, ◌+◌, ◌*◌, ◌/◌, ◌%◌, ◌^◌, ◌<◌, ◌≡◌, ◌≢◌, refl, Bool, true, ◌&&◌, List, length, set, get_or,
  get_or-set_self, get_or-set_ne, ◌==◌, arith,
}
use shiro.Base.Table.{rows, rows-pass}

-- `gdt_entry_t`.
pub record Entry : Type 0 where
  pub limit : ℕ
  pub low : ℕ
  pub middle : ℕ
  pub access : ℕ
  pub granularity : ℕ
  pub high : ℕ

abbrev pub null_entry : Entry
null_entry = record { limit = 0; low = 0; middle = 0; access = 0; granularity = 0; high = 0 }

-- `GDT::SetGate`.
unfoldable pub entry_of : ℕ → ℕ → ℕ → ℕ → Entry
entry_of base limit access gran = record {
  limit = limit % 2 ^ 16;
  low = base % 2 ^ 16;
  middle = base / 2 ^ 16 % 2 ^ 8;
  access = access;
  granularity = bit_or (limit / 2 ^ 16 % 2 ^ 4) (bit_and gran 0xF0);
  high = base / 2 ^ 24 % 2 ^ 8;
}

unfoldable pub set_gate : List Entry → ℕ → ℕ → ℕ → ℕ → ℕ → List Entry
set_gate entries gate base limit access gran = set entries gate (entry_of base limit access gran)

-- `GDT::Start`: the five gates.
unfoldable pub start : List Entry → List Entry
start e =
    set_gate
      (set_gate
        (set_gate (set_gate (set_gate e 0 0 0 0 0) 1 0 0xFFFFFFFF 0x9A 0xCF) 2 0 0xFFFFFFFF 0x92
          0xCF)
        3 0 0xFFFFFFFF 0xFA 0xCF)
      4 0 0xFFFFFFFF 0xF2 0xCF

-- What the processor reads from an entry.
abbrev pub base_of : Entry → ℕ
base_of e = e.low + 2 ^ 16 * e.middle + 2 ^ 24 * e.high

abbrev pub limit_of : Entry → ℕ
limit_of e = e.limit + 2 ^ 16 * (e.granularity % 2 ^ 4)

abbrev pub flags_of : Entry → ℕ
flags_of e = e.granularity / 2 ^ 4

abbrev row : ℕ → ℕ → Bool
row l g = (bit_or l (bit_and g 0xF0) % 16 == l) && (bit_or l (bit_and g 0xF0) / 16 == g / 16)

table : rows (λ l. rows (λ g. row l g) 256) 16 ≡ true
unfolding rows
table = refl

row-pass : (l g : ℕ) → l < 16 → g < 256 → row l g ≡ true
row-pass l g hl hg =
    rows-pass (λ g'. row l g') {n = 256} g hg
      (rows-pass (λ l'. rows (λ g'. row l' g') 256) {n = 16} l hl table)

-- A gate that is set reads back the base, the low twenty bits of the limit, the access byte and the
-- high four bits of the granularity; the other gates stay.
pub set_gate-decodes :
    (entries : List Entry) (gate base limit access gran : ℕ)
    → gate < length entries
    → base < 2 ^ 32
    → gran < 2 ^ 8
    → let entries' = set_gate entries gate base limit access gran in
      let e = get_or entries' gate null_entry in
      (base_of e ≡ base)
      × (limit_of e ≡ limit % 2 ^ 20)
      × (e.access ≡ access)
      × (flags_of e ≡ gran / 2 ^ 4)
      × ((other : ℕ)
          → gate ≢ other
          → get_or entries' other null_entry ≡ get_or entries other null_entry)
unfolding set_gate entry_of
set_gate-decodes entries gate base limit access gran inside small byte =
    let r = row-pass (limit / 2 ^ 16 % 2 ^ 4) gran (omega arith) byte in
    let self = get_or-set_self entries gate (entry_of base limit access gran) null_entry inside in
    (
      rw self (omega arith),
      rw self (ground (arith, r)),
      rw self refl,
      rw self (ground (arith, r)),
      λ other n. get_or-set_ne entries gate other (entry_of base limit access gran) null_entry n,
    )
