-- ===== src/Text/Dispatch.antt =====
-- `Table` and `Dispatch` of src/src/classes/commands.class.h: which command a line runs.
use mathlib.Core.Path.{subst}
use shiro.Base.{
  ℕ, zero, suc, ◌+◌, ◌<◌, ◌⊎◌, inl, inr, ap, ◌∙◌, Bool-cases, take_all, ◌-◌, ◌≤◌, ◌≡◌, refl, Bool,
  true, false, not, ◌||◌, ◌&&◌, List, [], ◌∷◌, ◌++◌, length, take, Option, none, some, ◌==◌,
  if◌then◌else◌, arith,
}

-- The names of `Table`, in order: help, ver, mem, pmm, paging, tasks, ls, cat, peek, dumpmem, uptime,
-- ticks, date, clear, echo, cpuid, halt, reboot, panic.
abbrev pub command_table : List (List ℕ)
command_table =
    (104 ∷ 101 ∷ 108 ∷ 112 ∷ [])
    ∷ (118 ∷ 101 ∷ 114 ∷ [])
    ∷ (109 ∷ 101 ∷ 109 ∷ [])
    ∷ (112 ∷ 109 ∷ 109 ∷ [])
    ∷ (112 ∷ 97 ∷ 103 ∷ 105 ∷ 110 ∷ 103 ∷ [])
    ∷ (116 ∷ 97 ∷ 115 ∷ 107 ∷ 115 ∷ [])
    ∷ (108 ∷ 115 ∷ [])
    ∷ (99 ∷ 97 ∷ 116 ∷ [])
    ∷ (112 ∷ 101 ∷ 101 ∷ 107 ∷ [])
    ∷ (100 ∷ 117 ∷ 109 ∷ 112 ∷ 109 ∷ 101 ∷ 109 ∷ [])
    ∷ (117 ∷ 112 ∷ 116 ∷ 105 ∷ 109 ∷ 101 ∷ [])
    ∷ (116 ∷ 105 ∷ 99 ∷ 107 ∷ 115 ∷ [])
    ∷ (100 ∷ 97 ∷ 116 ∷ 101 ∷ [])
    ∷ (99 ∷ 108 ∷ 101 ∷ 97 ∷ 114 ∷ [])
    ∷ (101 ∷ 99 ∷ 104 ∷ 111 ∷ [])
    ∷ (99 ∷ 112 ∷ 117 ∷ 105 ∷ 100 ∷ [])
    ∷ (104 ∷ 97 ∷ 108 ∷ 116 ∷ [])
    ∷ (114 ∷ 101 ∷ 98 ∷ 111 ∷ 111 ∷ 116 ∷ [])
    ∷ (112 ∷ 97 ∷ 110 ∷ 105 ∷ 99 ∷ [])
    ∷ []

-- The text `shiro: command not found: `.
abbrev pub unknown_text : List ℕ
unknown_text =
    115 ∷ 104 ∷ 105 ∷ 114 ∷ 111 ∷ 58 ∷ 32 ∷ 99 ∷ 111 ∷ 109 ∷ 109 ∷ 97 ∷ 110 ∷ 100 ∷ 32 ∷ 110 ∷ 111
    ∷ 116 ∷ 32 ∷ 102 ∷ 111 ∷ 117 ∷ 110 ∷ 100 ∷ 58 ∷ 32 ∷ []

-- What a line leads to: nothing, a command of the table with its arguments, or a printed line.
pub data Outcome : Type 0 where
  nothing : Outcome
  run : List ℕ → List ℕ → Outcome
  print : List ℕ → Outcome

abbrev pub is_blank : ℕ → Bool
is_blank c = (c == 32) || (c == 9)

-- `while (*s == ' ' || *s == '\t') s++;`
unfoldable pub skip_blanks : List ℕ → List ℕ
skip_blanks [] = []
skip_blanks (c ∷ s) = let rest = skip_blanks s in if is_blank c then rest else c ∷ s

abbrev pub in_word : ℕ → Bool
in_word c = not (is_blank c) && not (c == 10)

-- The command's name, at most `n` characters, and what follows it.
unfoldable pub split_word : ℕ → List ℕ → List ℕ × List ℕ
split_word zero s = ([], s)
split_word (suc n) [] = ([], [])
split_word (suc n) (c ∷ s) =
    let rest = split_word n s in if in_word c then (c ∷ rest.0, rest.1) else ([], c ∷ s)

-- `Strcmp(a, b) == 0`.
unfoldable pub same_str : List ℕ → List ℕ → Bool
same_str [] [] = true
same_str [] (c ∷ b) = false
same_str (c ∷ a) [] = false
same_str (c ∷ a) (d ∷ b) = let rest = same_str a b in (c == d) && rest

-- `Commands::AppendStr`, into a buffer of `cap` bytes.
unfoldable pub append_str : ℕ → List ℕ → List ℕ → List ℕ
append_str cap dst s = dst ++ take (cap - 1 - length dst) s

unfoldable pub find_command : List (List ℕ) → List ℕ → Option (List ℕ)
find_command [] name = none
find_command (e ∷ es) name = elim (same_str name e) [ true ↦ some e | false ↦ find_command es name ]

-- The end of `Commands::Dispatch`, with the name and what follows it.
unfoldable pub run_command : List ℕ → List ℕ → Outcome
run_command name after = elim (find_command command_table name) [
  | some e ↦ run e (skip_blanks after)
  | none ↦ print (append_str 80 (append_str 80 [] unknown_text) name)
]

-- `Commands::Dispatch`.
unfoldable pub dispatch_from : List ℕ → Outcome
dispatch_from [] = nothing
dispatch_from (c ∷ s) =
    if c == 10 then nothing else run_command (split_word 31 (c ∷ s)).0 (split_word 31 (c ∷ s)).1

unfoldable pub dispatch : List ℕ → Outcome
dispatch line = dispatch_from (skip_blanks line)

-- All the characters belong to a word.
abbrev pub all_in_word : List ℕ → Bool
all_in_word [] = true
all_in_word (c ∷ s) = in_word c && all_in_word s

split_word-append :
    (n : ℕ) (word after : List ℕ)
    → all_in_word word ≡ true
    → length word ≤ n
    → split_word n (word ++ 32 ∷ after) ≡ (word, 32 ∷ after)
unfolding split_word
split_word-append zero [] after h le = refl
split_word-append zero (c ∷ word) after h le = absurd (omega arith)
split_word-append (suc n) [] after h le = refl
split_word-append (suc n) (c ∷ word) after h le =
    let w : in_word c ≡ true = ground (arith, h) in
    let r = split_word-append n word after (ground (arith, h)) (omega arith) in rw (w, r) refl

-- A name is in a table.
abbrev pub Listed : List ℕ → List (List ℕ) → Type 0
Listed name [] = ⊥
Listed name (e ∷ es) = (name ≡ e) ⊎ Listed name es

same_str-eq : (a b : List ℕ) → same_str a b ≡ true → a ≡ b
unfolding same_str
same_str-eq [] [] h = refl
same_str-eq [] (c ∷ b) h = absurd (ground (arith, h))
same_str-eq (c ∷ a) [] h = absurd (ground (arith, h))
same_str-eq (c ∷ a) (d ∷ b) h =
    let e : c ≡ d = ground (arith, h) in
    let r = same_str-eq a b (ground (arith, h)) in ap (λ x. x ∷ a) e ∙ ap (λ x. d ∷ x) r

same_str_refl : (a : List ℕ) → same_str a a ≡ true
unfolding same_str
same_str_refl [] = refl
same_str_refl (c ∷ a) = ground (arith, same_str_refl a)

-- What the search finds is the name itself, if the table has it.
find_command-found :
    (es : List (List ℕ)) (name : List ℕ) → Listed name es → find_command es name ≡ some name
unfolding find_command
find_command-found [] name l = elim l [ ]
find_command-found (e ∷ es) name l = elim (Bool-cases (same_str name e)) [
  | inl y ↦ let q = same_str-eq name e y in ground (arith, y, q)
  | inr f ↦ elim l [
    | inl q ↦
        let y = subst (λ x. same_str name x ≡ true) q (same_str_refl name) in
        absurd (ground (arith, y, f))
    | inr later ↦ let ih = find_command-found es name later in ground (arith, f, ih)
  ]
]

find_command-none :
    (es : List (List ℕ)) (name : List ℕ) → ¬ Listed name es → find_command es name ≡ none
unfolding find_command
find_command-none [] name n = refl
find_command-none (e ∷ es) name n = elim (Bool-cases (same_str name e)) [
  | inl y ↦ absurd (n (inl (same_str-eq name e y)))
  | inr f ↦ let ih = find_command-none es name (λ l. n (inr l)) in ground (arith, f, ih)
]

append_str-fits :
    (cap : ℕ) (dst s : List ℕ) → length dst + length s < cap → append_str cap dst s ≡ dst ++ s
unfolding append_str
append_str-fits cap dst s h = ap (λ x. dst ++ x) (take_all (cap - 1 - length dst) s (omega arith))

run_command-found :
    (name after : List ℕ)
    → Listed name command_table
    → run_command name (32 ∷ after) ≡ run name (skip_blanks after)
unfolding run_command skip_blanks
run_command-found name after l =
    let e = find_command-found command_table name l in ground (arith, e)

run_command-unknown :
    (name after : List ℕ)
    → length name ≤ 31
    → ¬ Listed name command_table
    → run_command name after ≡ print (unknown_text ++ name)
unfolding run_command
run_command-unknown name after le n =
    let e = find_command-none command_table name n in
    let start = append_str-fits 80 [] unknown_text (omega arith) in
    let text = append_str-fits 80 unknown_text name (omega arith) in
    let shape : run_command name after
        ≡ print (append_str 80 (append_str 80 [] unknown_text) name) =
      ground (arith, e) in
    shape ∙ ap print (ap (λ b. append_str 80 b name) start ∙ text)

-- A line that starts with a word of 1 to 31 characters, without blanks or ends of lines, and a blank: if
-- the word is a name of the table, that command runs, on what follows the blanks; if not, the line that
-- is printed says that the word was not found.
pub dispatch-word :
    (c : ℕ) (word after : List ℕ)
    → all_in_word (c ∷ word) ≡ true
    → length word ≤ 30
    → (Listed (c ∷ word) command_table
        → dispatch ((c ∷ word) ++ 32 ∷ after) ≡ run (c ∷ word) (skip_blanks after))
      × (¬ Listed (c ∷ word) command_table
          → dispatch ((c ∷ word) ++ 32 ∷ after) ≡ print (unknown_text ++ (c ∷ word)))
unfolding dispatch skip_blanks dispatch_from
dispatch-word c word after h le =
    let b : is_blank c ≡ false = ground (arith, h) in
    let n : (c == 10) ≡ false = ground (arith, h) in
    let r = split_word-append 31 (c ∷ word) after h (omega arith) in
    let runs : dispatch ((c ∷ word) ++ 32 ∷ after) ≡ run_command (c ∷ word) (32 ∷ after) =
      rw (b, n, r) refl in
    (
      λ l. runs ∙ run_command-found (c ∷ word) after l,
      λ l. runs ∙ run_command-unknown (c ∷ word) (32 ∷ after) (omega arith) l,
    )

-- A line of the name, a blank and anything runs the command of that name.
abbrev pub RunsItself : List ℕ → Type 0
RunsItself name = (after : List ℕ) → dispatch (name ++ 32 ∷ after) ≡ run name (skip_blanks after)

abbrev pub AllRun : List (List ℕ) → Type 0
AllRun [] = Unit
AllRun (name ∷ names) = RunsItself name × AllRun names

-- Every command of the table can be reached by its own name: none is hidden by an earlier one, cut
-- or split.
pub command_table-RunsItself : AllRun command_table
unfolding dispatch skip_blanks dispatch_from split_word run_command find_command same_str
command_table-RunsItself = (
  (λ after. refl),
  (
    (λ after. refl),
    (
      (λ after. refl),
      (
        (λ after. refl),
        (
          (λ after. refl),
          (
            (λ after. refl),
            (
              (λ after. refl),
              (
                (λ after. refl),
                (
                  (λ after. refl),
                  (
                    (λ after. refl),
                    (
                      (λ after. refl),
                      (
                        (λ after. refl),
                        (
                          (λ after. refl),
                          (
                            (λ after. refl),
                            (
                              (λ after. refl),
                              (
                                (λ after. refl),
                                ((λ after. refl), ((λ after. refl), ((λ after. refl), tt))),
                              ),
                            ),
                          ),
                        ),
                      ),
                    ),
                  ),
                ),
              ),
            ),
          ),
        ),
      ),
    ),
  ),
)
