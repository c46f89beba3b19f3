-- ===== src/Stdio/Tests.antt =====
-- Calls of `printf` of src/src/libs/stdio.h.
use shiro.Stdio.{
  printf, printf_loop, print, piece, directive, until_percent, char_arg, string_arg, returned,
}
use shiro.Stdio.Format.{Part, plain, percent, char_part, string_part}
use shiro.Base.{◌≡◌, refl, [], ◌∷◌, List, some, codes}

a_call :
    printf 20 (codes "100%% %s=%c.") (string_arg (codes "x") ∷ char_arg 65 ∷ []) ≡ some (returned 9)
unfolding printf printf_loop print piece directive until_percent
a_call = refl

-- An unknown directive takes the rest of the format as it is.
an_unknown : printf 20 (codes "a%d%s") [] ≡ some (returned 5)
unfolding printf printf_loop print piece directive until_percent
an_unknown = refl

abbrev parts : List Part
parts = plain 97 ∷ percent ∷ plain 98 ∷ string_part (codes "xyz") ∷ char_part 65 ∷ []
