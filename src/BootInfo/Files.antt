-- ===== src/BootInfo/Files.antt =====
-- `Initrd::Find` of src/src/classes/initrd.class.h: which file it finds.
use mathlib.Core.Path.{subst}
use shiro.BootInfo.Initrd.{
  Initrd, same_name, search_files, find, entry_addr, name_len, name_at, Found,
}
use shiro.Base.{
  ℕ, zero, suc, ◌+◌, ◌<◌, ◌≤◌, ◌≡◌, ◌≢◌, inl, inr, refl, sym, Bool, true, false, ◌↔◌, List, [], ◌∷◌,
  take, Option, none, some, ◌==◌, arith, Bool-cases, ==_iff,
}

here_or_later :
    (P : ℕ → Bool) (i : ℕ) → P i ≡ false → (j : ℕ) → i ≤ j → (i + 1 ≤ j → P j ≡ false) → P j ≡ false
here_or_later P i b j lo h = elim (Bool-cases (i == j)) [
  | inl q ↦ subst (λ x. P x ≡ false) ((==_iff _ _).0 q) b
  | inr q ↦ h (ground arith)
]

later :
    (m : ℕ → ℕ) (s : Initrd) (name : List ℕ) (i n : ℕ) (o : Option ℕ)
    → same_name name_len m (entry_addr s i) name ≡ false
    → Found m s name (i + 1) n o
    → Found m s name i (suc n) o
later m s name i n none b f = λ j lo hi.
    here_or_later (λ x. same_name name_len m (entry_addr s x) name) i b j lo
      (λ le. f j le (omega arith))
later m s name i n (some e) b (k, lo, hi, q, y, before) = (
  k,
  omega arith,
  omega arith,
  q,
  y,
  λ j lo' hi'.
      here_or_later (λ x. same_name name_len m (entry_addr s x) name) i b j lo'
        (λ le. before j le hi'),
)

search-Found :
    (n i : ℕ) (m : ℕ → ℕ) (s : Initrd) (name : List ℕ)
    → Found m s name i n (search_files n i m s name)
unfolding search_files
search-Found zero i m s name = λ j lo hi. absurd (omega arith)
search-Found (suc n) i m s name = elim (Bool-cases (same_name name_len m (entry_addr s i) name)) [
  | inl y ↦
      let e : search_files (suc n) i m s name ≡ some (entry_addr s i) = rw (y, search_files) refl in
      subst (Found m s name i (suc n)) (sym e)
        (i, omega arith, omega arith, refl, y, λ j lo hi. absurd (omega arith))
  | inr b ↦
      let e : search_files (suc n) i m s name ≡ search_files n (i + 1) m s name =
        rw (b, search_files) refl in
      subst (Found m s name i (suc n)) (sym e)
        (later m s name i n (search_files n (i + 1) m s name) b (search-Found n (i + 1) m s name))
]

-- The characters of a string: no NUL.
abbrev pub NoNul : List ℕ → Type 0
NoNul [] = Unit
NoNul (c ∷ cs) = (c ≢ 0) × NoNul cs

-- The comparison of a stored name with a string succeeds exactly if the name that is stored is the
-- string, cut to the length of the field.
pub same_name-name_at :
    (n : ℕ) (m : ℕ → ℕ) (a : ℕ) (name : List ℕ)
    → NoNul name
    → (same_name n m a name ≡ true) ↔ (name_at n m a ≡ take n name)
unfolding same_name
same_name-name_at zero m a name h = ((λ e. refl), (λ e. refl))
same_name-name_at (suc n) m a [] h = elim (Bool-cases (m a == 0)) [
  | inl z ↦ rw (z, name_at) ((λ e. refl), (λ e. refl))
  | inr z ↦ rw (z, name_at) ((λ e. absurd (ground (arith, e))), (λ e. absurd (ground (arith, e))))
]
same_name-name_at (suc n) m a (c ∷ name) h =
    let ih = same_name-name_at n m (a + 1) name h.1 in
    elim (Bool-cases (m a == 0)) [
      | inl z ↦
          let k : (m a == c) ≡ false = ground (arith, h.0) in
          rw (z, k, name_at) ((λ e. absurd (ground (arith, e))), (λ e. absurd (ground (arith, e))))
      | inr z ↦ rw (z, name_at) ((λ e. ground (arith, e, ih)), (λ e. ground (arith, e, ih)))
    ]

-- The name that is stored for file `i` is the string, cut to the 32 bytes of the field.
abbrev pub HasName : (ℕ → ℕ) → Initrd → List ℕ → ℕ → Type 0
HasName m s name i = name_at name_len m (entry_addr s i) ≡ take name_len name

-- The first of the files with the name, or nothing if none has it.
abbrev pub FirstNamed : (ℕ → ℕ) → Initrd → List ℕ → Option ℕ → Type 0
FirstNamed m s name none = (j : ℕ) → j < s.file_count → ¬ HasName m s name j
FirstNamed m s name (some e) =
    (k : ℕ) × (k < s.file_count)
    × (e ≡ entry_addr s k)
    × HasName m s name k
    × ((j : ℕ) → j < k → ¬ HasName m s name j)

not_named :
    (m : ℕ → ℕ) (s : Initrd) (name : List ℕ) (j : ℕ)
    → NoNul name
    → same_name name_len m (entry_addr s j) name ≡ false
    → ¬ HasName m s name j
not_named m s name j h f q =
    let y = (same_name-name_at name_len m (entry_addr s j) name h).1 q in ground (arith, y, f)

Found-FirstNamed :
    (m : ℕ → ℕ) (s : Initrd) (name : List ℕ) (o : Option ℕ)
    → NoNul name
    → Found m s name 0 s.file_count o
    → FirstNamed m s name o
Found-FirstNamed m s name none h f =
    λ j lt. not_named m s name j h (f j (omega arith) (omega arith))
Found-FirstNamed m s name (some e) h (k, lo, hi, q, y, before) = (
  k,
  omega arith,
  q,
  (same_name-name_at name_len m (entry_addr s k) name h).0
      (subst (λ x. same_name name_len m x name ≡ true) q y),
  λ j lt. not_named m s name j h (before j (omega arith) lt),
)

-- `Find` of a string without a NUL, in a ready ramdisk, returns the first of its files whose stored name
-- is the string, and nothing if no file has it. Of a string of more than 32 characters the first 32 are
-- compared.
pub find-FirstNamed :
    (m : ℕ → ℕ) (s : Initrd) (name : List ℕ)
    → s.ready ≡ true
    → NoNul name
    → FirstNamed m s name (find m s name)
unfolding find
find-FirstNamed m s name on h =
    let e : find m s name ≡ search_files s.file_count 0 m s name = ground (arith, on) in
    subst (FirstNamed m s name) (sym e) (
      Found-FirstNamed m s name (search_files s.file_count 0 m s name) h
        (search-Found s.file_count 0 m s name))
