-- ===== src/Stdio/Rounds.antt =====
-- The loop of `printf` of src/src/libs/stdio.h ends.
use shiro.Stdio.{
  Arg, char_arg, string_arg, Result, returned, failed, print, undefined, until_percent, directive,
  piece, printf_loop, int_max,
}
use shiro.Base.{
  ℕ, zero, suc, false, ◌+◌, ◌-◌, ◌<◌, ◌≤◌, ◌≡◌, refl, List, [], ◌∷◌, length, some, ltb, arith,
  Bool-cases, Option-cases, inl, inr,
}

length-until_percent : (s : List ℕ) → length (until_percent s).1 ≤ length s
unfolding until_percent
length-until_percent [] = omega arith
length-until_percent (c ∷ s) = ground (arith, length-until_percent s)

length-directive :
    (s : List ℕ) (args : List Arg) (out rest : List ℕ) (args' : List Arg)
    → directive s args ≡ some (out, rest, args')
    → length rest ≤ length s
unfolding directive
length-directive [] args out rest args' e = ground (arith, e)
length-directive (c ∷ s) [] out rest args' e = ground (arith, e)
length-directive (c ∷ s) (char_arg v ∷ args) out rest args' e = ground (arith, e)
length-directive (c ∷ s) (string_arg v ∷ args) out rest args' e = ground (arith, e)

-- Every round uses up a character of the format.
length-piece :
    (c : ℕ) (s : List ℕ) (args : List Arg) (out rest : List ℕ) (args' : List Arg)
    → piece c s args ≡ some (out, rest, args')
    → length rest ≤ length s
unfolding piece
length-piece c [] args out rest args' e = ground (arith, e, length-directive [] args out rest args')
length-piece c (d ∷ s) args out rest args' e = ground (
  arith,
  e,
  length-directive (d ∷ s) args out rest args',
  length-until_percent (d ∷ s),
  length-until_percent s,
)

pub printf_loop-returns :
    (fuel : ℕ) (format : List ℕ) (args : List Arg) (written : ℕ)
    → length format < fuel
    → (r : Result) × (printf_loop fuel format args written ≡ some r)
unfolding printf_loop print
printf_loop-returns zero format args written h = absurd (omega arith)
printf_loop-returns (suc fuel) [] args written h = (returned written, refl)
printf_loop-returns (suc fuel) (c ∷ s) args written h = elim (Option-cases (piece c s args)) [
  | inl n ↦ (undefined, rw (n, printf_loop) refl)
  | inr (([], rest, args'), e) ↦
      let o : ltb (int_max - written) (length {A = ℕ} []) ≡ false = ground arith in
      (undefined, rw (e, o, printf_loop) refl)
  | inr ((x ∷ p, rest, args'), e) ↦ elim (Bool-cases (ltb (int_max - written) (length (x ∷ p)))) [
    | inl o ↦ (failed, rw (e, o, printf_loop) refl)
    | inr o ↦
        let (r, q) =
          printf_loop-returns fuel rest args' (written + length (x ∷ p))
            (omega (arith, h, length-piece c s args (x ∷ p) rest args' e)) in
        (r, rw (e, o, printf_loop) q)
  ]
]
