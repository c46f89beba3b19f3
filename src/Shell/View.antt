-- ===== src/Shell/View.antt =====
-- `UpdateScreen` of src/src/classes/shell.class.h: what the screen shows.
use shiro.Devices.Vga.{set_color}
use shiro.Screen.{Cells, put}
use shiro.Shell.{Shell, copy_range, update_screen, put_text}
use shiro.Base.{
  ℕ, zero, suc, ◌+◌, ◌-◌, ◌<◌, ◌≡◌, refl, ◌∙◌, true, ◌&&◌, List, [], ◌∷◌, length, get_or, leb, ltb,
  ◌==◌, if◌then◌else◌, arith, Bool-cases, inl, inr,
}

copy_range-cell :
    (n pos : ℕ) (src dst : Cells) (j : ℕ)
    → copy_range n pos src dst j ≡ (if leb pos j && ltb j (pos + n) then src j else dst j)
unfolding copy_range
copy_range-cell zero pos src dst j = ground arith
copy_range-cell (suc n) pos src dst j = elim (Bool-cases (j == pos)) [
  | inl q ↦
      let q' : j ≡ pos = ground arith in
      ground (arith, q, q', copy_range-cell n (pos + 1) src (put dst pos (src pos)) j)
  | inr q ↦ ground (arith, q, copy_range-cell n (pos + 1) src (put dst pos (src pos)) j)
]

-- A text is written from `pos` on, and the other cells stay.
pub put_text-cell :
    (color pos : ℕ) (text : List ℕ) (m : Cells) (j : ℕ)
    → put_text color pos text m j ≡ (
        if leb pos j && ltb j (pos + length text)
        then set_color (get_or text (j - pos) 0) color
        else m j)
unfolding put_text
put_text-cell color pos [] m j = ground arith
put_text-cell color pos (c ∷ text) m j =
    let ih = put_text-cell color (pos + 1) text (put m pos (set_color c color)) j in
    elim (Bool-cases (j == pos)) [
      | inl q ↦ let z : j - pos ≡ zero = ground (arith, q) in ih ∙ rw z (ground (arith, q))
      | inr q ↦ elim (Bool-cases (leb pos j)) [
        | inl le ↦
            let z : j - pos ≡ suc (j - (pos + 1)) = ground (arith, le, q) in
            ih ∙ rw z (ground (arith, q, le))
        | inr gt ↦ ih ∙ ground (arith, q, gt)
      ]
    ]

-- The four buffers as one screen: row 0 is the header, row 1 the status bar, rows 2 to 23 the content of
-- the current terminal, and row 24 the prompt.
abbrev pub view : Shell → Cells
view s j =
    if ltb j 80
    then s.terminal_screen_header j
    else if ltb j 160
    then s.terminal_screen_status j
    else if ltb j 1920
    then s.terminal_screens s.current_terminal j
    else s.terminal_screen_footer j

-- `UpdateScreen` shows each of the 2000 cells from the buffer that owns its row, and touches no other
-- memory.
pub update_screen-view :
    (size : ℕ) (s : Shell) (j : ℕ)
    → (update_screen size s).screen j ≡ (if ltb j 2000 then view s j else s.screen j)
unfolding update_screen
update_screen-view size s j = ground (
  arith,
  copy_range-cell 80 1920 s.terminal_screen_footer
      (copy_range 1760 160 (s.terminal_screens s.current_terminal) (
        copy_range 80 80 s.terminal_screen_status
          (copy_range 80 0 s.terminal_screen_header s.screen)))
      j,
  copy_range-cell 1760 160 (s.terminal_screens s.current_terminal)
      (copy_range 80 80 s.terminal_screen_status
        (copy_range 80 0 s.terminal_screen_header s.screen))
      j,
  copy_range-cell 80 80 s.terminal_screen_status (copy_range 80 0 s.terminal_screen_header s.screen)
      j,
  copy_range-cell 80 0 s.terminal_screen_header s.screen j,
)

-- The screen is what the buffers say.
abbrev pub Coherent : Shell → Type 0
Coherent s = (j : ℕ) → j < 2000 → s.screen j ≡ view s j

pub update_screen-Coherent : (size : ℕ) (s : Shell) → Coherent (update_screen size s)
unfolding update_screen
update_screen-Coherent size s j low =
    let l : ltb j 2000 ≡ true = ground arith in update_screen-view size s j ∙ rw l refl
