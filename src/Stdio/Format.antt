-- ===== src/Stdio/Format.antt =====
-- What `printf` of src/src/libs/stdio.h returns.
use shiro.Stdio.{Arg, char_arg, string_arg, until_percent}
use shiro.Base.{ℕ, ◌≤◌, ◌≡◌, Bool, true, not, ◌&&◌, List, [], ◌∷◌, ◌++◌, length, ◌==◌}

-- A format by its parts: a character other than `%`, `%%`, `%c` with its argument, `%s` with its own.
pub data Part : Type 0 where
  plain : ℕ → Part
  percent : Part
  char_part : ℕ → Part
  string_part : List ℕ → Part

abbrev pub render : List Part → List ℕ
render [] = []
render (plain c ∷ ps) = c ∷ render ps
render (percent ∷ ps) = 37 ∷ 37 ∷ render ps
render (char_part v ∷ ps) = 37 ∷ 99 ∷ render ps
render (string_part v ∷ ps) = 37 ∷ 115 ∷ render ps

abbrev pub arguments : List Part → List Arg
arguments [] = []
arguments (plain c ∷ ps) = arguments ps
arguments (percent ∷ ps) = arguments ps
arguments (char_part v ∷ ps) = char_arg v ∷ arguments ps
arguments (string_part v ∷ ps) = string_arg v ∷ arguments ps

abbrev pub expand : List Part → List ℕ
expand [] = []
expand (plain c ∷ ps) = c ∷ expand ps
expand (percent ∷ ps) = 37 ∷ expand ps
expand (char_part v ∷ ps) = v ∷ expand ps
expand (string_part v ∷ ps) = v ++ expand ps

abbrev pub well_formed : List Part → Bool
well_formed [] = true
well_formed (plain c ∷ ps) = not (c == 37) && well_formed ps
well_formed (string_part v ∷ ps) = not (length v == 0) && well_formed ps
well_formed (p ∷ ps) = well_formed ps

-- The plain characters at the front, and the parts after them.
lead : List Part → List ℕ
lead (plain c ∷ ps) = c ∷ lead ps
lead ps = []

after : List Part → List Part
after (plain c ∷ ps) = after ps
after ps = ps

-- The front of a format is what the scan for `%` takes.
record IsFront (ps : List Part) : Type 0 where
  scan : until_percent (render ps) ≡ (lead ps, render (after ps))
  output : expand ps ≡ lead ps ++ expand (after ps)
  args : arguments (after ps) ≡ arguments ps
  formed : well_formed (after ps) ≡ true
  shorter : length (render (after ps)) ≤ length (render ps)
