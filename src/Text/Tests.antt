-- ===== src/Text/Tests.antt =====
-- Runs of the text routines of src/src/classes/commands.class.h, and concrete inputs to the theorems.
use shiro.Base.{codes, ◌≡◌, refl, [], ◌∷◌, ◌++◌, some, arith}
use shiro.Text.Numbers.{parse_hex, parse_loop}
use shiro.Text.Dispatch.{
  dispatch, run, print, skip_blanks, unknown_text, command_table, Listed, dispatch-word,
}

-- 0xBEEF, and a trailing character that is not read.
hex_runs : parse_hex (48 ∷ 120 ∷ 98 ∷ 101 ∷ 69 ∷ 102 ∷ 32 ∷ []) ≡ some 0xBEEF
unfolding parse_hex parse_loop
hex_runs = refl

-- The line `ls  x`.
dispatch-word_example :
    (Listed (codes "ls") command_table
      → dispatch (codes "ls" ++ 32 ∷ 32 ∷ 120 ∷ [])
        ≡ run (codes "ls") (skip_blanks (32 ∷ 120 ∷ [])))
    × (¬ Listed (codes "ls") command_table
        → dispatch (codes "ls" ++ 32 ∷ 32 ∷ 120 ∷ []) ≡ print (unknown_text ++ codes "ls"))
dispatch-word_example = dispatch-word 108 (115 ∷ []) (32 ∷ 120 ∷ []) refl (omega arith)
