-- ===== src/BootInfo/Initrd.antt =====
-- src/src/classes/initrd.class.h: `System::Initrd`, the ramdisk. The memory is read by words (`w`)
-- for numbers and by bytes (`m`) for names.
use shiro.Tags.{
  Words, TagsAt, tag_type, tag_module, Next, next, done, walk, run_tags, walk-run_tags,
}
use shiro.BootInfo.Modules.{mod_end}
use shiro.Base.{
  ℕ, zero, suc, ◌+◌, ◌*◌, ◌<◌, ◌≤◌, ◌≡◌, ◌≢◌, inl, inr, refl, ◌∙◌, Bool, true, false, not, ◌||◌,
  ◌&&◌, List, [], ◌∷◌, length, Option, none, some, leb, ◌==◌, if◌then◌else◌, add32, sub32, arith,
  Bool-cases,
}

abbrev pub magic : ℕ
magic = 0x53484952

abbrev pub name_len : ℕ
name_len = 32

-- The static members of `Initrd`; a null pointer is 0.
pub record Initrd : Type 0 where
  pub base : ℕ
  pub length : ℕ
  pub file_count : ℕ
  pub entries : ℕ
  pub ready : Bool

abbrev pub no_initrd : Initrd
no_initrd = record { base = 0; length = 0; file_count = 0; entries = 0; ready = false }

abbrev pub mod_start : Words → ℕ → ℕ
mod_start w tag = w (tag + 8)

-- What is remembered of the module of a tag.
abbrev pub loaded : Words → ℕ → Initrd
loaded w tag = record {
  base = mod_start w tag;
  length = sub32 (mod_end w tag) (mod_start w tag);
  file_count = w (mod_start w tag + 4);
  entries = mod_start w tag + 8;
  ready = true;
}

-- The body of the loop of `Initrd::Start`: the first module with the magic ends it.
unfoldable pub load : Words → ℕ → Initrd → Next Initrd
load w tag s =
    if tag_type w tag == tag_module
    then if w (mod_start w tag) == magic then done (loaded w tag) else next s
    else next s

-- `Initrd::Start`.
unfoldable pub start : ℕ → Words → ℕ → Option Initrd
start fuel w mbi = if mbi == 0 then some no_initrd else walk w (load w) fuel (mbi + 8) no_initrd

-- `strncmp_(a, b, n) == 0`, of the bytes at `a` and a string.
unfoldable pub same_name : ℕ → (ℕ → ℕ) → ℕ → List ℕ → Bool
same_name zero m a name = true
same_name (suc n) m a [] = m a == 0
same_name (suc n) m a (c ∷ name) =
    let rest = same_name n m (a + 1) name in (m a == c) && ((m a == 0) || rest)

abbrev pub entry_addr : Initrd → ℕ → ℕ
entry_addr s i = s.entries + 40 * i

-- The loop of `Initrd::Find`.
unfoldable pub search_files : ℕ → ℕ → (ℕ → ℕ) → Initrd → List ℕ → Option ℕ
search_files zero i m s name = none
search_files (suc n) i m s name = elim (same_name name_len m (entry_addr s i) name) [
  | true ↦ some (entry_addr s i)
  | false ↦ search_files n (i + 1) m s name
]

-- `Initrd::Find`.
unfoldable pub find : (ℕ → ℕ) → Initrd → List ℕ → Option ℕ
find m s name = if s.ready then search_files s.file_count 0 m s name else none

-- `Initrd::Data` and `Initrd::EntryAt`, of an entry that is not null.
unfoldable pub data_of : Words → Initrd → ℕ → ℕ
data_of w s e = if not s.ready || (e == 0) then 0 else add32 s.base (w (e + 36))

unfoldable pub entry_at : Initrd → ℕ → Option ℕ
entry_at s i = if not s.ready || leb s.file_count i then none else some (entry_addr s i)

-- The first tag of a module with the magic.
abbrev pub first_initrd : Words → List ℕ → Option ℕ
first_initrd w [] = none
first_initrd w (t ∷ ts) = elim ((tag_type w t == tag_module) && (w (mod_start w t) == magic)) [
  | true ↦ some t
  | false ↦ first_initrd w ts
]

load-run :
    (w : Words) (ts : List ℕ) (s : Initrd)
    → run_tags w (load w) ts s ≡ some (elim (first_initrd w ts) [ none ↦ s | some t ↦ loaded w t ])
unfolding run_tags load
load-run w [] s = refl
load-run w (t ∷ ts) s = elim (Bool-cases (tag_type w t == tag_module)) [
  | inr n ↦ rw (n, run_tags) (load-run w ts s)
  | inl y ↦ elim (Bool-cases (w (mod_start w t) == magic)) [
    | inl g ↦ rw (y, g, run_tags) refl
    | inr b ↦ rw (y, b, run_tags) (load-run w ts s)
  ]
]

-- `Start` on a chain of tags returns: it loads the first module that has the magic, modules without
-- it passed over, and without one leaves the ramdisk off.
pub start-first_initrd :
    (fuel : ℕ) (w : Words) (mbi : ℕ) (ts : List ℕ)
    → mbi ≢ 0
    → TagsAt w (mbi + 8) ts
    → length ts < fuel
    → start fuel w mbi ≡ some (elim (first_initrd w ts) [ none ↦ no_initrd | some t ↦ loaded w t ])
unfolding start
start-first_initrd fuel w mbi ts ne at enough =
    let z : (mbi == 0) ≡ false = ground (arith, ne) in
    rw z (walk-run_tags w (load w) fuel (mbi + 8) ts no_initrd at enough ∙ load-run w ts no_initrd)

-- The name that is stored at `a`: up to a NUL, at most `n` characters.
abbrev pub name_at : ℕ → (ℕ → ℕ) → ℕ → List ℕ
name_at zero m a = []
name_at (suc n) m a = elim (m a == 0) [ true ↦ [] | false ↦ m a ∷ name_at n m (a + 1) ]

-- A search of the files from `i`: the first that has the name.
abbrev pub Found : (ℕ → ℕ) → Initrd → List ℕ → ℕ → ℕ → Option ℕ → Type 0
Found m s name i n none =
    (j : ℕ) → i ≤ j → j < i + n → same_name name_len m (entry_addr s j) name ≡ false
Found m s name i n (some e) =
    (k : ℕ) × (i ≤ k)
    × (k < i + n)
    × (e ≡ entry_addr s k)
    × (same_name name_len m e name ≡ true)
    × ((j : ℕ) → i ≤ j → j < k → same_name name_len m (entry_addr s j) name ≡ false)
