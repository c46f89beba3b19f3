-- ===== src/Devices/Vga.antt =====
-- src/src/classes/vga.class.h and src/src/classes/cursor.class.h: colours, cells and the cursor.
use Prim.Native.Nat.{bit_and, bit_or}
use shiro.Base.{ℕ, ◌+◌, ◌*◌, ◌/◌, ◌%◌, ◌^◌, ◌<◌, ◌≡◌, refl, Bool, true, ◌&&◌, ◌==◌, [], ◌∷◌, arith}
use shiro.Base.Table.{rows, rows-pass}
use shiro.Devices.Pic.{Writes}

-- `VGA::selectColors`, on the numbers of the enumeration.
unfoldable pub select_colors : ℕ → ℕ → ℕ
select_colors foreground background = bit_or foreground (background * 2 ^ 4) % 2 ^ 8

-- `VGA::setColor`: a cell of the screen.
unfoldable pub set_color : ℕ → ℕ → ℕ
set_color content color = bit_or content (color * 2 ^ 8 % 2 ^ 16)

color_row : ℕ → ℕ → Bool
color_row f b = (select_colors f b % 16 == f) && (select_colors f b / 16 == b)

cell_row : ℕ → ℕ → Bool
cell_row c k = set_color c k == c + k * 256

color_table : rows (λ f. rows (color_row f) 16) 16 ≡ true
unfolding rows select_colors color_row
color_table = refl

cell_table : rows (λ c. rows (cell_row c) 256) 256 ≡ true
unfolding rows set_color cell_row
cell_table = refl

-- A cell holds its character and its two colours: all three can be read back.
pub set_color-select_colors :
    (content foreground background : ℕ)
    → content < 256
    → foreground < 16
    → background < 16
    → let cell = set_color content (select_colors foreground background) in
      (cell % 256 ≡ content) × (cell / 256 % 16 ≡ foreground) × (cell / 4096 ≡ background)
unfolding color_row cell_row
set_color-select_colors c f b hc hf hb =
    let r =
      rows-pass (color_row f) {n = 16} b hb
        (rows-pass (λ x. rows (color_row x) 16) {n = 16} f hf color_table) in
    let small : select_colors f b < 256 = ground (arith, r) in
    let q =
      rows-pass (cell_row c) {n = 256} (select_colors f b) small
        (rows-pass (λ x. rows (cell_row x) 256) {n = 256} c hc cell_table) in
    ground (arith, r, q)

-- `Cursor::moveTo`.
unfoldable pub move_to : ℕ → ℕ → Writes
move_to x y =
    let pos = (y * 80 + x) % 2 ^ 16 in
    (0x3D4, 0x0F) ∷ (0x3D5, pos % 2 ^ 8) ∷ (0x3D4, 0x0E) ∷ (0x3D5, pos / 2 ^ 8 % 2 ^ 8) ∷ []

-- The register of the controller that a pair of writes selects and sets.
abbrev pub register : Writes → ℕ → ℕ → ℕ
register [] r old = old
register (w ∷ []) r old = old
register (w ∷ v ∷ ws) r old = elim ((w.0 == 0x3D4) && (w.1 == r) && (v.0 == 0x3D5)) [
  | true ↦ register ws r v.1
  | _ ↦ register ws r old
]

-- On a screen of 80 by 25, the two location registers together give the index of the cell.
pub move_to-register :
    (x y old : ℕ)
    → x < 80
    → y < 25
    → register (move_to x y) 0x0F old + 2 ^ 8 * register (move_to x y) 0x0E old ≡ y * 80 + x
unfolding move_to
move_to-register x y old hx hy = omega arith

-- `Cursor::enable`, where `crtc` has what the controller's registers hold.
unfoldable pub enable : (ℕ → ℕ) → Writes
enable crtc =
    (0x3D4, 0x0A)
    ∷ (0x3D5, bit_or (bit_and (crtc 0x0A) 0xC0) 0)
    ∷ (0x3D4, 0x0B)
    ∷ (0x3D5, bit_or (bit_and (crtc 0x0B) 0xE0) 15)
    ∷ []

shape_row : ℕ → Bool
shape_row v =
    (bit_or (bit_and v 0xC0) 0 == v / 64 * 64) && (bit_or (bit_and v 0xE0) 15 == v / 32 * 32 + 15)

shape_table : rows shape_row 256 ≡ true
unfolding rows shape_row
shape_table = refl

-- The cursor is shown, from line 0 to line 15 of its cell: the bit that hides it is cleared, and the
-- bits beside the two line numbers are as they were.
pub enable-register :
    (crtc : ℕ → ℕ)
    → crtc 0x0A < 256
    → crtc 0x0B < 256
    → (register (enable crtc) 0x0A (crtc 0x0A) ≡ crtc 0x0A / 64 * 64)
      × (register (enable crtc) 0x0B (crtc 0x0B) ≡ crtc 0x0B / 32 * 32 + 15)
unfolding enable shape_row
enable-register crtc a b =
    let r = rows-pass shape_row {n = 256} (crtc 0x0A) a shape_table in
    let q = rows-pass shape_row {n = 256} (crtc 0x0B) b shape_table in
    (ground (arith, r), ground (arith, q))
