-- ===== src/Commands/Wrap.antt =====
-- The loop of `cmd_cat` (src/src/classes/commands.class.h) and of `init.sh` (src/src/kernel.cpp) that
-- cuts a file into lines.
use shiro.CString.{c_string}
use shiro.Text.Dispatch.{Outcome, dispatch}
use shiro.BootInfo.Initrd.{Initrd, find, data_of}
use shiro.Tags.{Words}
use shiro.Commands.Files.{cut_step, cut_lines, emit, contents, cmd_cat, is_directive}
use shiro.Base.{
  ℕ, ◌+◌, ◌≤◌, ◌≡◌, ◌≢◌, refl, sym, ap, ◌∙◌, Bool, true, false, not, ◌&&◌, ◌||◌, List, [], ◌∷◌,
  ◌++◌, append-nil, append_assoc, length, length-append, map, some, leb, ◌==◌, if◌then◌else◌, arith,
  Bool-cases, inl, inr,
}

-- Neither a line end nor a NUL.
abbrev pub is_plain : ℕ → Bool
is_plain b = not (b == 10) && not (b == 13) && not (b == 0)

abbrev pub all_plain : List ℕ → Bool
all_plain [] = true
all_plain (b ∷ bs) = is_plain b && all_plain bs

-- Lines that can be shown as they are: at most 79 characters, none a line end or a NUL.
abbrev pub all_lines : List (List ℕ) → Bool
all_lines [] = true
all_lines (l ∷ ls) = all_plain l && leb (length l) 79 && all_lines ls

-- The end of a line, with or without a carriage return.
abbrev pub eol : Bool → List ℕ
eol true = 13 ∷ 10 ∷ []
eol false = 10 ∷ []

-- A text file of some lines.
abbrev pub unlines : Bool → List (List ℕ) → List ℕ
unlines cr [] = []
unlines cr (l ∷ ls) = l ++ (eol cr ++ unlines cr ls)

-- The characters of a file, its line ends left out.
abbrev pub characters : List ℕ → List ℕ
characters [] = []
characters (b ∷ bs) = let rest = characters bs in if (b == 10) || (b == 13) then rest else b ∷ rest

abbrev pub joined : List (List ℕ) → List ℕ
joined [] = []
joined (l ∷ ls) = l ++ joined ls

abbrev pub all_short : ℕ → List (List ℕ) → Bool
all_short n [] = true
all_short n (l ∷ ls) = leb (length l) n && all_short n ls

cut_line :
    (l bs acc : List ℕ)
    → all_plain l ≡ true
    → length acc + length l ≤ 79
    → cut_lines 80 (l ++ bs) acc ≡ cut_lines 80 bs (acc ++ l)
unfolding cut_lines cut_step
cut_line [] bs acc h le = ap (cut_lines 80 bs) (sym (append-nil acc))
cut_line (b ∷ l) bs acc h le =
    let r : (b == 13) ≡ false = ground (arith, h) in
    let n : ((b == 10) || leb 79 (length acc)) ≡ false = ground (arith, h, le) in
    let ih =
      cut_line l bs (acc ++ b ∷ []) (ground (arith, h))
        (omega (arith, le, length-append acc (b ∷ []))) in
    rw (r, n) (ih ∙ ap (cut_lines 80 bs) (append_assoc acc (b ∷ []) l))

cut_eol : (cr : Bool) (bs acc : List ℕ) → cut_lines 80 (eol cr ++ bs) acc ≡ acc ∷ cut_lines 80 bs []
unfolding cut_lines cut_step
cut_eol true bs acc = refl
cut_eol false bs acc = refl

-- A text file is cut into its lines.
cut_lines-unlines :
    (cr : Bool) (ls : List (List ℕ)) → all_lines ls ≡ true → cut_lines 80 (unlines cr ls) [] ≡ ls
unfolding cut_lines
cut_lines-unlines cr [] h = refl
cut_lines-unlines cr (l ∷ ls) h =
    cut_line l (eol cr ++ unlines cr ls) [] (ground (arith, h)) (ground (arith, h))
    ∙ cut_eol cr (unlines cr ls) l
    ∙ ap (λ r. l ∷ r) (cut_lines-unlines cr ls (ground (arith, h)))

c_string-plain : (l : List ℕ) → all_plain l ≡ true → c_string l ≡ l
unfolding c_string
c_string-plain [] h = refl
c_string-plain (b ∷ l) h =
    let z : (b == 0) ≡ false = ground (arith, h) in
    rw z (ap (λ r. b ∷ r) (c_string-plain l (ground (arith, h))))

map-c_string : (ls : List (List ℕ)) → all_lines ls ≡ true → map c_string ls ≡ ls
map-c_string [] h = refl
map-c_string (l ∷ ls) h =
    let e = c_string-plain l (ground (arith, h)) in
    let ih = map-c_string ls (ground (arith, h)) in cc (e, ih)

module _ (w : Words) (m : ℕ → ℕ) (s : Initrd) (e : ℕ) (cr : Bool) (ls : List (List ℕ))
    (file : contents w m s e ≡ unlines cr ls) (plain : all_lines ls ≡ true) where
  -- `cat` of a text file of the ramdisk whose lines have at most 79 characters, none a NUL, prints
  -- exactly its lines, whether they end in a line feed or in a carriage return and a line feed.
  pub cmd_cat-lines :
      (args : List ℕ)
      → args ≢ []
      → s.ready ≡ true
      → find m s args ≡ some e
      → data_of w s e ≢ 0
      → cmd_cat w m s args ≡ ls
  unfolding cmd_cat
  cmd_cat-lines [] ne on at there = absurd (ne refl)
  cmd_cat-lines (c ∷ args) ne on at there =
      let z : (length (c ∷ args) == 0) ≡ false = ground arith in
      let d : (data_of w s e == 0) ≡ false = ground (arith, there) in
      let o : not s.ready ≡ false = ground (arith, on) in
      let cut : map c_string (cut_lines 80 (contents w m s e) []) ≡ ls =
        ap (λ f. map c_string (cut_lines 80 f [])) file
        ∙ ap (map c_string) (cut_lines-unlines cr ls plain)
        ∙ map-c_string ls plain in
      rw (z, o, at, d) cut

-- The directives of a script, each with what it leads to.
abbrev pub directives : List (List ℕ) → List Outcome
directives [] = []
directives (l ∷ ls) = let rest = directives ls in if is_directive l then dispatch l ∷ rest else rest

-- A round neither loses nor adds a character.
joined-emit :
    (b : ℕ) (acc bs : List ℕ) (rest : List (List ℕ))
    → joined rest ≡ (cut_step 80 acc b).1 ++ characters bs
    → joined (emit (cut_step 80 acc b).0 rest) ≡ acc ++ characters (b ∷ bs)
unfolding cut_step
joined-emit b acc bs rest h = elim (Bool-cases (b == 13)) [
  | inl r ↦
      let o : ((b == 10) || true) ≡ true = ground arith in
      let k : joined rest ≡ acc ++ characters bs = h ∙ rw r refl in rw (r, o) k
  | inr r ↦ elim (Bool-cases (b == 10)) [
    | inl n ↦
        let k : joined rest ≡ characters bs = h ∙ rw (r, n) refl in rw (r, n) (ap (λ t. acc ++ t) k)
    | inr n ↦ elim (Bool-cases (leb 79 (length acc))) [
      | inl f ↦
          let k : joined rest ≡ b ∷ characters bs = h ∙ rw (r, n, f) refl in
          rw (r, n, f) (ap (λ t. acc ++ t) k)
      | inr f ↦
          let k : joined rest ≡ (acc ++ b ∷ []) ++ characters bs = h ∙ rw (r, n, f) refl in
          rw (r, n, f) (k ∙ append_assoc acc (b ∷ []) (characters bs))
    ]
  ]
]

cut_lines-joined : (bs acc : List ℕ) → joined (cut_lines 80 bs acc) ≡ acc ++ characters bs
unfolding cut_lines
cut_lines-joined [] [] = refl
cut_lines-joined [] (c ∷ acc) = let z : (length (c ∷ acc) == 0) ≡ false = ground arith in rw z refl
cut_lines-joined (b ∷ bs) acc =
    joined-emit b acc bs (cut_lines 80 bs (cut_step 80 acc b).1)
      (cut_lines-joined bs (cut_step 80 acc b).1)

cut_lines-short : (bs acc : List ℕ) → length acc ≤ 79 → all_short 79 (cut_lines 80 bs acc) ≡ true
unfolding cut_lines cut_step
cut_lines-short [] acc h = ground (arith, h)
cut_lines-short (b ∷ bs) acc h = ground (
  arith,
  h,
  cut_lines-short bs acc,
  cut_lines-short bs [],
  cut_lines-short bs (b ∷ []),
  cut_lines-short bs (acc ++ b ∷ []),
  length-append acc (b ∷ []),
)

-- Any file at all: the lines that it is cut into are at most 79 characters, so none writes past the
-- buffer of 80 bytes, and together they hold its characters but the line ends, in order.
pub cut_lines-characters :
    (bs : List ℕ)
    → (joined (cut_lines 80 bs []) ≡ characters bs) × (all_short 79 (cut_lines 80 bs []) ≡ true)
cut_lines-characters bs = (cut_lines-joined bs [], cut_lines-short bs [] (omega arith))
