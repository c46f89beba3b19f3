-- ===== src/Timer/Sleep.antt =====
-- `Timer::Sleep` of src/src/classes/timer.class.h ends, and not early.
use mathlib.Core.Path.{subst}
use shiro.Timer.{wait, sleep, ticks_of_ms}
use shiro.Base.{
  ℕ, zero, suc, ◌+◌, ◌%◌, sym, leb, ◌<◌, ◌≤◌, ◌≡◌, refl, false, some, ltb, add32, u32_mod, arith,
  ◌==◌, ==_iff, ltb→lt, Bool-cases, inl, inr,
}

-- The wake-ups that the loop needs if every `gap` of them hold a tick.
abbrev pub rounds : ℕ → ℕ → ℕ
rounds gap zero = 0
rounds gap (suc k) = rounds gap k + gap

-- After the rounds of `k` ticks, `k` ticks have passed.
rounds-ticks :
    (gap k : ℕ) (now : ℕ → ℕ)
    → ((n : ℕ) → now n + 1 ≤ now (n + gap))
    → now 0 + k ≤ now (rounds gap k)
rounds-ticks gap zero now h = omega arith
rounds-ticks gap (suc k) now h = omega (arith, rounds-ticks gap k now h, h (rounds gap k))

plus_zero : (n : ℕ) → n + 0 ≡ n
plus_zero n = omega arith

zero_plus : (n : ℕ) → 0 + n ≡ n
zero_plus n = omega arith

plus_suc : (n f : ℕ) → suc n + f ≡ n + suc f
plus_suc n f = omega arith

-- A count that is reached in steps of at most one is met.
met :
    (n goal : ℕ) (count : ℕ → ℕ)
    → ((m : ℕ) → count (m + 1) ≤ count m + 1)
    → count 0 ≤ goal
    → goal ≤ count n
    → (k : ℕ) × (k ≤ n) × (count k ≡ goal)
met zero goal count one lo hi = (0, omega arith, omega arith)
met (suc n) goal count one lo hi = elim (Bool-cases (leb goal (count n))) [
  | inl y ↦ let (k, le, e) = met n goal count one lo (ground arith) in (k, omega (arith, le), e)
  | inr y ↦ (suc n, omega arith, ground (arith, one n, y))
]

-- What `ticks` holds when the processor has woken up `n` times.
abbrev pub read : (ℕ → ℕ) → ℕ → ℕ
read count n = count n % u32_mod

-- The loop ends at the first wake-up that finds the target reached.
wait-first :
    (f n target : ℕ) (count : ℕ → ℕ)
    → target ≤ read count (n + f)
    → (k : ℕ) × (wait (suc f) count target n ≡ some k)
      × (k ≤ n + f)
      × (target ≤ read count k)
      × ((m : ℕ) → n ≤ m → m < k → read count m < target)
unfolding wait
wait-first zero n target count h =
    let h' = subst (λ x. target ≤ read count x) (plus_zero n) h in
    let e : ltb (read count n) target ≡ false = ground (arith, h') in
    (n, rw e refl, omega arith, h', λ m lo hi. absurd (omega arith))
wait-first (suc f) n target count h = elim (Bool-cases (ltb (read count n) target)) [
  | inr e ↦ (n, rw e refl, omega arith, ground arith, λ m lo hi. absurd (omega arith))
  | inl e ↦
      let (k, q, le, at, early) =
        wait-first f (suc n) target count
          (subst (λ x. target ≤ read count x) (sym (plus_suc n f)) h) in
      (
        k,
        rw e q,
        omega arith,
        at,
        λ m lo hi. elim (Bool-cases (n == m)) [
          | inl q ↦
              subst (λ x. read count x < target) ((==_iff n m).0 q) (ltb→lt (read count n) target e)
          | inr q ↦ early m (ground arith) hi
        ],
      )
]

-- More rounds do not change where it ends.
wait-more :
    (f f' n target k : ℕ) (count : ℕ → ℕ)
    → f ≤ f'
    → wait f count target n ≡ some k
    → wait f' count target n ≡ some k
unfolding wait
wait-more zero f' n target k count le e = absurd (ground (arith, e))
wait-more (suc f) zero n target k count le e = absurd (omega arith)
wait-more (suc f) (suc f') n target k count le e = elim (Bool-cases (ltb (read count n) target)) [
  | inl y ↦ rw y (wait-more f f' (suc n) target k count (omega arith) (ground (arith, y, e)))
  | inr y ↦ rw y (ground (arith, y, e))
]

-- `Sleep` returns, if at most one tick is counted between two wake-ups, every `gap` wake-ups hold one,
-- and the target does not wrap: at the first wake-up that finds it reached, after at most `gap` wake-ups
-- for each tick that it waits for, and not before they have passed. The counter itself may wrap later.
pub sleep-returns :
    (gap ms : ℕ) (count : ℕ → ℕ)
    → ((n : ℕ) → count (n + 1) ≤ count n + 1)
    → ((n : ℕ) → count n + 1 ≤ count (n + gap))
    → read count 0 + ticks_of_ms ms < u32_mod
    → (k : ℕ) × (sleep (suc (rounds gap (ticks_of_ms ms))) count ms ≡ some k)
      × (k ≤ rounds gap (ticks_of_ms ms))
      × (read count 0 + ticks_of_ms ms ≤ read count k)
      × ((m : ℕ) → m < k → read count m < read count 0 + ticks_of_ms ms)
unfolding sleep
sleep-returns gap ms count one h small =
    let t = ticks_of_ms ms in
    let target = read count 0 + t in
    let e : add32 (read count 0) t ≡ target = omega (arith, small) in
    let passed = rounds-ticks gap t count h in
    let (n, le, at) = met (rounds gap t) (count 0 + t) count one (omega arith) passed in
    let reached : target ≤ read count (0 + n) =
      subst (λ x. target ≤ read count x) (sym (zero_plus n)) (omega (arith, at, small)) in
    let (k, q, le', there, early) = wait-first n 0 target count reached in
    let q' = wait-more (suc n) (suc (rounds gap t)) 0 target k count (omega (arith, le)) q in
    (
      k,
      subst (λ x. wait (suc (rounds gap t)) count x 0 ≡ some k) (sym e) q',
      omega (arith, le, le'),
      there,
      λ m hi. early m (omega arith) hi,
    )
