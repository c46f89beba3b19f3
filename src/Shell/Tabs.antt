-- ===== src/Shell/Tabs.antt =====
-- The tabs in the header of src/src/classes/shell.class.h.
use shiro.Devices.Vga.{set_color}
use shiro.Screen.{Cells, put, fill}
use shiro.Screen.Scroll.{fill-cell}
use shiro.Shell.{Shell, put_text, header_color}
use shiro.Shell.Bars.{render_header, render_tabs, tab_text, tab_color}
use shiro.Shell.View.{put_text-cell}
use shiro.Base.{
  ℕ, zero, suc, ◌+◌, ◌-◌, ◌*◌, ◌<◌, ◌≤◌, ◌≡◌, refl, sym, ap, ◌∙◌, true, false, ◌&&◌, length, get_or,
  leb, ltb, ◌==◌, codes, arith, Bool-cases, inl, inr,
}

length-tab_text : (tab : ℕ) → tab ≤ 4 → length (tab_text tab) ≡ 8
length-tab_text tab h = let q : (tab == 5) ≡ false = ground arith in rw q refl

tab_text-short : (tab : ℕ) → length (tab_text tab) ≤ 8
tab_text-short tab = elim (Bool-cases (tab == 5)) [
  | inl q ↦ rw q (omega arith)
  | inr q ↦ rw q (omega arith)
]

-- The columns before the tabs, and those behind, stay.
render_tabs-outside :
    (n tab col cur : ℕ) (m : Cells) (j : ℕ)
    → (leb col j && ltb j (col + 9 * n)) ≡ false
    → render_tabs n tab col cur m j ≡ m j
unfolding render_tabs
render_tabs-outside zero tab col cur m j h = refl
render_tabs-outside (suc n) tab col cur m j h =
    let l = tab_text-short tab in
    let next = col + length (tab_text tab) in
    let t = put_text-cell (tab_color cur tab) col (tab_text tab) m j in
    let m' =
      put (put_text (tab_color cur tab) col (tab_text tab) m) next (set_color 32 header_color) in
    let ih = render_tabs-outside n (tab + 1) (next + 1) cur m' j (ground (arith, h, l)) in
    ih ∙ ground (arith, h, l, t)

render_tabs-tab :
    (n tab col cur : ℕ) (m : Cells) (i k t : ℕ)
    → t ≡ tab + i
    → tab + n ≤ 6
    → i < n
    → k < length (tab_text t)
    → render_tabs n tab col cur m (col + 9 * i + k)
      ≡ set_color (get_or (tab_text t) k 0) (tab_color cur t)
unfolding render_tabs
render_tabs-tab zero tab col cur m i k t at h hi hk = absurd (omega arith)
render_tabs-tab (suc n) tab col cur m zero k t at h hi hk =
    let z : t ≡ tab = omega (arith, at) in
    let c : col + 9 * 0 + k ≡ col + k = omega arith in
    let d : col + k - col ≡ k = omega arith in
    let kk : k < length (tab_text tab) = rw (sym z) hk in
    let next = col + length (tab_text tab) in
    let m' =
      put (put_text (tab_color cur tab) col (tab_text tab) m) next (set_color 32 header_color) in
    let o = render_tabs-outside n (tab + 1) (next + 1) cur m' (col + k) (ground (arith, kk)) in
    let p : (col + k == next) ≡ false = ground (arith, kk) in
    let inside : (leb col (col + k) && ltb (col + k) next) ≡ true = ground (arith, kk) in
    rw c (
      o
      ∙ rw p
          (put_text-cell (tab_color cur tab) col (tab_text tab) m (col + k) ∙ rw (d, inside) refl)
      ∙ ap (λ u. set_color (get_or (tab_text u) k 0) (tab_color cur u)) (sym z))
render_tabs-tab (suc n) tab col cur m (suc i) k t at h hi hk =
    let l = length-tab_text tab (omega arith) in
    let next = col + length (tab_text tab) in
    let c : col + 9 * suc i + k ≡ next + 1 + 9 * i + k = omega (arith, l) in
    let m' =
      put (put_text (tab_color cur tab) col (tab_text tab) m) next (set_color 32 header_color) in
    rw c (
      render_tabs-tab n (tab + 1) (next + 1) cur m' i k t (omega (arith, at)) (omega arith)
        (omega arith) hk)

-- `RenderHeader` paints the five tabs from column 14 on, nine columns apart, each with its number, the
-- current terminal's and no other in the active colour; the columns from 64 on, which the background
-- tasks own, stay as they were.
pub render_header-tab :
    (s : Shell) (tab k : ℕ)
    → 1 ≤ tab
    → tab ≤ 5
    → k < length (tab_text tab)
    → ((render_header s).terminal_screen_header (14 + 9 * (tab - 1) + k)
        ≡ set_color (get_or (tab_text tab) k 0) (tab_color s.current_terminal tab))
      × ((j : ℕ) → 64 ≤ j → (render_header s).terminal_screen_header j ≡ s.terminal_screen_header j)
unfolding render_header
render_header-tab s tab k lo hi low =
    let m = fill 64 0 (set_color 32 header_color) s.terminal_screen_header in
    let title = put_text header_color 0 (codes " Shiro 0.5  ") m in
    let m' = put title 12 (set_color 0xB3 header_color) in
    (
      render_tabs-tab 5 1 14 s.current_terminal m' (tab - 1) k tab (omega arith) (omega arith)
          (omega arith) low,
      λ j h.
          render_tabs-outside 5 1 14 s.current_terminal m' j (ground (arith, h))
          ∙ ground (
            arith,
            h,
            put_text-cell header_color 0 (codes " Shiro 0.5  ") m j,
            fill-cell 64 0 (set_color 32 header_color) s.terminal_screen_header j,
          ),
    )
