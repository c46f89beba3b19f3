-- ===== src/Stdio.antt =====
-- `printf` of src/src/libs/stdio.h, and its `print`, which puts nothing out: the call in the body of its
-- loop is commented out.
pub mod Rounds
pub mod Format
mod Tests
use shiro.Base.{
  ℕ, zero, suc, ◌+◌, ◌-◌, ◌^◌, Bool, true, false, not, ◌&&◌, ◌||◌, List, [], ◌∷◌, ◌++◌, length,
  Option, none, some, ltb, ◌==◌, if◌then◌else◌,
}

abbrev pub int_max : ℕ
int_max = 2 ^ 31 - 1

-- An argument: a character or a string.
pub data Arg : Type 0 where
  char_arg : ℕ → Arg
  string_arg : List ℕ → Arg

-- How a call ends: with the number that it returns; with -1; or undefined, when it reads an argument
-- that is missing or of another kind, or `print` is undefined.
pub data Result : Type 0 where
  returned : ℕ → Result
  failed : Result
  undefined : Result

-- `while (format[amount] && format[amount] != '%') amount++;`: the characters, and what follows.
unfoldable pub until_percent : List ℕ → List ℕ × List ℕ
until_percent [] = ([], [])
until_percent (c ∷ s) =
    let rest = until_percent s in if c == 37 then ([], c ∷ s) else (c ∷ rest.0, rest.1)

-- What a round of the loop prints, and the rest of the format and of the arguments. `none`: the
-- argument is not there.
abbrev pub Taken : Type 0
Taken = Option (List ℕ × List ℕ × List Arg)

-- A round at a `%` that is not doubled, with what follows it.
unfoldable pub directive : List ℕ → List Arg → Taken
directive [] args = some (37 ∷ [], [], args)
directive (c ∷ s) [] = if (c == 99) || (c == 115) then none else some (37 ∷ c ∷ s, [], [])
directive (c ∷ s) (char_arg v ∷ args) =
    if c == 99
    then some (v ∷ [], s, args)
    else if c == 115
    then none
    else some (37 ∷ c ∷ s, [], char_arg v ∷ args)
directive (c ∷ s) (string_arg v ∷ args) =
    if c == 99
    then none
    else if c == 115
    then some (v, s, args)
    else some (37 ∷ c ∷ s, [], string_arg v ∷ args)

-- A round of the loop, at a format that begins with `c`.
unfoldable pub piece : ℕ → List ℕ → List Arg → Taken
piece c [] args = if c == 37 then directive [] args else some (c ∷ [], [], args)
piece c (d ∷ s) args =
    if not (c == 37)
    then some (c ∷ (until_percent (d ∷ s)).0, (until_percent (d ∷ s)).1, args)
    else if d == 37
    then some (d ∷ (until_percent s).0, (until_percent s).1, args)
    else directive (d ∷ s) args

-- `print`: `return true` is the body of the loop, so of no bytes nothing is returned, which is undefined.
unfoldable pub print : List ℕ → Option Bool
print [] = none
print (c ∷ s) = some true

-- The loop of `printf`, with `written`. `none`: the rounds ran out.
unfoldable pub printf_loop : ℕ → List ℕ → List Arg → ℕ → Option Result
printf_loop zero format args written = none
printf_loop (suc fuel) [] args written = some (returned written)
printf_loop (suc fuel) (c ∷ s) args written = elim (piece c s args) [
  | none ↦ some undefined
  | some p ↦ elim (ltb (int_max - written) (length p.0)) [
    | true ↦ some failed
    | false ↦ elim (print p.0) [
      | none ↦ some undefined
      | some false ↦ some failed
      | some true ↦ printf_loop fuel p.1 p.2 (written + length p.0)
    ]
  ]
]

-- `printf`.
unfoldable pub printf : ℕ → List ℕ → List Arg → Option Result
printf fuel format args = printf_loop fuel format args 0
