-- ===== src/Text/Box.antt =====
-- The boxes of src/src/classes/commands.class.h.
use shiro.Base.{
  ℕ, ◌-◌, ◌≤◌, ◌≡◌, refl, List, [], ◌∷◌, ◌++◌, length, length-append, length-take, length-replicate,
  take, replicate, arith,
}

abbrev pub box_horizontal : ℕ
box_horizontal = 0xC4

abbrev pub box_vertical : ℕ
box_vertical = 0xB3

abbrev pub box_width : ℕ
box_width = 78

abbrev pub space : ℕ
space = 32

-- `for (i = 0; s[i] && j < stop; i++) buf[j++] = s[i];`
abbrev pub copy_until : ℕ → List ℕ → List ℕ → List ℕ
copy_until stop buf s = buf ++ take (stop - length buf) s

-- `while (j < stop) buf[j++] = c;`
abbrev pub fill_until : ℕ → ℕ → List ℕ → List ℕ
fill_until stop c buf = buf ++ replicate (stop - length buf) c

-- `Commands::BoxTop`.
unfoldable pub box_top : List ℕ → List ℕ
box_top title =
    fill_until (box_width - 1) box_horizontal
      (copy_until (box_width - 2) (0xDA ∷ box_horizontal ∷ space ∷ []) title ++ space ∷ [])
    ++ 0xBF ∷ []

-- `Commands::BoxLine`.
unfoldable pub box_line : List ℕ → List ℕ
box_line content =
    fill_until (box_width - 1) space
      (copy_until (box_width - 1) (box_vertical ∷ space ∷ space ∷ []) content)
    ++ box_vertical ∷ []

-- `Commands::BoxBottom`.
unfoldable pub box_bottom : List ℕ
box_bottom = fill_until (box_width - 1) box_horizontal (0xC0 ∷ []) ++ 0xD9 ∷ []

length-copy_until :
    (stop : ℕ) (buf s : List ℕ) → length buf ≤ stop → length (copy_until stop buf s) ≤ stop
length-copy_until stop buf s h =
    omega (arith, length-append buf (take (stop - length buf) s), length-take (stop - length buf) s)

length-fill_until :
    (stop c : ℕ) (buf : List ℕ) → length buf ≤ stop → length (fill_until stop c buf) ≡ stop
length-fill_until stop c buf h = omega (
  arith,
  length-append buf (replicate (stop - length buf) c),
  length-replicate (stop - length buf) c,
)

-- Whatever the title and the content, the three kinds of lines are 78 characters wide, so the boxes
-- close on the same column and, with the NUL, fit in their buffers of 82 bytes.
pub box-width :
    (title content : List ℕ)
    → (length (box_top title) ≡ box_width)
      × (length (box_line content) ≡ box_width)
      × (length box_bottom ≡ box_width)
unfolding box_top box_line box_bottom
box-width title content =
    let a = copy_until (box_width - 2) (0xDA ∷ box_horizontal ∷ space ∷ []) title in
    let la =
      length-copy_until (box_width - 2) (0xDA ∷ box_horizontal ∷ space ∷ []) title (omega arith) in
    let a' = a ++ space ∷ [] in
    let la' : length a' ≤ 77 = omega (arith, length-append a (space ∷ []), la) in
    let c = copy_until (box_width - 1) (box_vertical ∷ space ∷ space ∷ []) content in
    let lc =
      length-copy_until (box_width - 1) (box_vertical ∷ space ∷ space ∷ []) content (omega arith) in
    (
      omega (
        arith,
        length-append (fill_until 77 box_horizontal a') (0xBF ∷ []),
        length-fill_until 77 box_horizontal a' la',
      ),
      omega (
        arith,
        length-append (fill_until 77 space c) (box_vertical ∷ []),
        length-fill_until 77 space c lc,
      ),
      refl,
    )
