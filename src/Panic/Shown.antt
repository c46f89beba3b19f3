-- ===== src/Panic/Shown.antt =====
-- What the panic screen of src/src/classes/panic.class.h shows.
use shiro.Text.Numbers.{length-collect}
use shiro.Screen.{Cells, fill}
use shiro.Screen.Scroll.{fill-cell}
use shiro.Panic.{
  Draw, Registers, cell, draws, chain, exception_draws, register_draws, cause_draws, stack_draws,
  exception_name, exception_names, int2char, hex_chars, nibbles, trigger, panic_attr,
}
use shiro.Base.{
  ℕ, zero, suc, ◌+◌, ◌*◌, ◌%◌, ◌/◌, ◌<◌, ◌≤◌, ◌≡◌, refl, ◌∙◌, Bool, true, false, ◌&&◌, List, [],
  ◌∷◌, ◌++◌, length, get_or, leb, ◌==◌, if◌then◌else◌, codes, arith, Bool-cases, inl, inr,
}
use shiro.Panic.Draws.{Within, Shown, Within-low, Within-append, draw_all-outside, draw_all-Shown}

all_within : ℕ → List (List ℕ) → Bool
all_within n [] = true
all_within n (l ∷ ls) = leb (length l) n && all_within n ls

get_or-all_within :
    (n : ℕ) (ls : List (List ℕ)) (i : ℕ) (d : List ℕ)
    → all_within n ls ≡ true
    → length d ≤ n
    → length (get_or ls i d) ≤ n
unfolding all_within
get_or-all_within n [] i d h le = le
get_or-all_within n (l ∷ ls) zero d h le = ground (arith, h)
get_or-all_within n (l ∷ ls) (suc i) d h le = get_or-all_within n ls i d (ground (arith, h)) le

length-exception_name : (int_no : ℕ) → length (exception_name int_no) ≤ 29
unfolding exception_name all_within
length-exception_name int_no =
    get_or-all_within 29 exception_names int_no (codes "Reserved Exception") refl (omega arith)

length-int2char : (v : ℕ) → length (int2char v) ≤ 30
unfolding int2char
length-int2char v = omega (arith, length-collect 10 30 v [])

exception_draws-Within : (int_no : ℕ) → Within 0 240 (exception_draws int_no)
unfolding exception_draws chain
exception_draws-Within int_no =
    let n = length-int2char int_no in
    let e = length-exception_name int_no in
    (omega arith, (omega arith, (omega arith, (omega arith, (omega arith, omega (arith, n, e))))))

register_draws-Within : (regs : Registers) (cr2 : ℕ) → Within 240 800 (register_draws regs cr2)
unfolding register_draws hex_chars nibbles
register_draws-Within regs cr2 = (
  omega arith,
  (
    omega arith,
    (
      omega arith,
      (
        omega arith,
        (
          omega arith,
          (
            omega arith,
            (
              omega arith,
              (
                omega arith,
                (
                  omega arith,
                  (
                    omega arith,
                    (
                      omega arith,
                      (
                        omega arith,
                        (
                          omega arith,
                          (
                            omega arith,
                            (
                              omega arith,
                              (
                                omega arith,
                                (
                                  omega arith,
                                  (
                                    omega arith,
                                    (
                                      omega arith,
                                      (
                                        omega arith,
                                        (
                                          omega arith,
                                          (omega arith, (omega arith, (omega arith, omega arith))),
                                        ),
                                      ),
                                    ),
                                  ),
                                ),
                              ),
                            ),
                          ),
                        ),
                      ),
                    ),
                  ),
                ),
              ),
            ),
          ),
        ),
      ),
    ),
  ),
)

length-choice :
    (b : Bool) (x y : List ℕ) (n : ℕ)
    → length x ≤ n
    → length y ≤ n
    → length (if b then x else y) ≤ n
length-choice true x y n hx hy = hx
length-choice false x y n hx hy = hy

cause_draws-Within : (int_no e : ℕ) → Within 800 960 (cause_draws int_no e)
unfolding cause_draws chain
cause_draws-Within int_no e =
    let p =
      length-choice (e % 2 == 1) (codes "protection-fault") (codes "page-not-present") 16
        (omega arith) (omega arith) in
    let w =
      length-choice (e / 2 % 2 == 1) (codes "write") (codes "read") 5 (omega arith) (omega arith) in
    let u =
      length-choice (e / 4 % 2 == 1) (codes "user-mode") (codes "kernel-mode") 11 (omega arith)
        (omega arith) in
    elim (Bool-cases (int_no == 14)) [
      | inr n ↦ rw (n, Within) (omega arith)
      | inl y ↦
          rw (y, Within)
            (
              omega arith,
              (
                omega arith,
                (omega arith, (omega arith, (omega arith, (omega arith, omega (arith, p, w, u))))),
              ),
            )
    ]

stack_draws-Within :
    (n i : ℕ) (sp : ℕ → ℕ) → Within (80 * (13 + i)) (80 * (13 + (i + n))) (stack_draws n i sp)
unfolding stack_draws hex_chars nibbles
stack_draws-Within zero i sp = omega arith
stack_draws-Within (suc n) i sp =
    let e : i + suc n ≡ i + 1 + n = omega arith in
    let ih =
      Within-low (stack_draws n (i + 1) sp) (80 * (13 + (i + 1))) ((13 + i) * 80 + 23 + 10)
        (80 * (13 + (i + suc n))) (omega arith) (rw e (stack_draws-Within n (i + 1) sp)) in
    (omega arith, (omega arith, (omega arith, (omega arith, ih))))

-- All the pieces of the panic screen, one behind the other.
draws-Within : (regs : Registers) (cr2 : ℕ) (sp : ℕ → ℕ) → Within 0 2000 (draws regs cr2 sp)
unfolding draws
draws-Within regs cr2 sp =
    let last : List Draw = (80 * 23 + 2, codes "System halted. Reboot to recover.") ∷ [] in
    let stack =
      Within-append (stack_draws 8 0 sp) last 1040 1680 2000 (stack_draws-Within 8 0 sp)
        (omega arith, omega arith) in
    let top = Within-low (stack_draws 8 0 sp ++ last) 1040 975 2000 (omega arith) stack in
    let below =
      Within-append (cause_draws regs.int_no regs.err_code) _ 800 960 2000
        (cause_draws-Within regs.int_no regs.err_code) (omega arith, top) in
    Within-append (exception_draws regs.int_no) _ 0 240 2000 (exception_draws-Within regs.int_no) (
      Within-append (register_draws regs cr2) _ 240 800 2000 (register_draws-Within regs cr2) below)

-- For a vector below 32 and whatever the registers, the stack and the screen before: everything that
-- `Trigger` writes, the exception, the registers, the cause of a page fault and the top of the stack,
-- stands on the screen that it leaves, nothing written over by another piece, and no cell behind the
-- 80 by 25 of the screen is touched.
pub trigger-Shown :
    (regs : Registers) (cr2 : ℕ) (sp : ℕ → ℕ) (screen : Cells)
    → regs.int_no < 32
    → Shown panic_attr (trigger regs cr2 sp screen) (draws regs cr2 sp)
      × ((j : ℕ) → 2000 ≤ j → trigger regs cr2 sp screen j ≡ screen j)
unfolding trigger
trigger-Shown regs cr2 sp screen vector =
    let m = fill (80 * 25) 0 (cell panic_attr 32) screen in
    let w = draws-Within regs cr2 sp in
    (
      draw_all-Shown panic_attr (draws regs cr2 sp) 0 2000 m w,
      λ j h.
          draw_all-outside panic_attr (draws regs cr2 sp) 0 2000 m j w (ground (arith, h))
          ∙ fill-cell 2000 0 (cell panic_attr 32) screen j
          ∙ ground (arith, h),
    )
