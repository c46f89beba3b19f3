-- ===== src/Timer/Tests.antt =====
-- A sleep, for the theorem on `Timer::Sleep` of src/src/classes/timer.class.h.
use shiro.Timer.{sleep, ticks_of_ms}
use shiro.Timer.Sleep.{rounds, read, sleep-returns}
use shiro.Base.{ℕ, suc, ◌+◌, ◌-◌, ◌^◌, ◌/◌, ◌<◌, ◌≤◌, ◌≡◌, refl, some, arith}

half_second : ticks_of_ms 500 ≡ 50
unfolding ticks_of_ms
half_second = refl

-- Every other wake-up is a tick; the counter stands shortly before its end.
abbrev late : ℕ → ℕ
late n = 2 ^ 32 - 100 + n / 2

sleep-returns_example :
    (k : ℕ) × (sleep (suc (rounds 2 (ticks_of_ms 500))) late 500 ≡ some k)
    × (k ≤ rounds 2 (ticks_of_ms 500))
    × (read late 0 + ticks_of_ms 500 ≤ read late k)
    × ((m : ℕ) → m < k → read late m < read late 0 + ticks_of_ms 500)
sleep-returns_example =
    sleep-returns 2 500 late (λ n. omega arith) (λ n. omega arith) (omega (arith, half_second))
