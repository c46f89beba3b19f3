-- ===== src/Timer.antt =====
-- src/src/classes/timer.class.h: `System::Drivers::Timer`, the tick counter.
pub mod Sleep
mod Tests
use shiro.Devices.Pic.{Writes, unmask}
use shiro.Base.{
  ℕ, zero, suc, ◌+◌, ◌/◌, ◌%◌, ◌^◌, Bool, ◌&&◌, ◌==◌, List, [], ◌∷◌, ◌++◌, Option, none, some, ltb,
  if◌then◌else◌, add32, mul32,
}

abbrev pub tick_hz : ℕ
tick_hz = 100

abbrev pub preempt_every : ℕ
preempt_every = 5

-- The static members of `Timer`; `preempt` is whether a callback is registered.
pub record Timer : Type 0 where
  pub ticks : ℕ
  pub preempt : Bool

-- `Timer::Handler`: the new state, and whether it calls the callback.
unfoldable pub tick : Timer → Timer × Bool
tick t =
    let t' = record t { ticks = add32 t.ticks 1 } in
    (t', t'.preempt && (t'.ticks % preempt_every == 0))

-- The ticks that `Timer::Sleep` and `Scheduler::Sleep` wait for: at least one.
unfoldable pub ticks_of_ms : ℕ → ℕ
ticks_of_ms ms = let ticks = mul32 ms tick_hz / 1000 in if ticks == 0 then 1 else ticks

abbrev pub pit_channel0 : ℕ
pit_channel0 = 0x40

abbrev pub pit_command : ℕ
pit_command = 0x43

abbrev pub pit_frequency : ℕ
pit_frequency = 1193182

-- `Timer::Start`, with what the ports read.
unfoldable pub start : (ℕ → ℕ) → Writes
start inb =
    let divisor = pit_frequency / tick_hz in
    (pit_command, 0x36)
    ∷ (pit_channel0, divisor % 256)
    ∷ (pit_channel0, divisor / 2 ^ 8 % 256)
    ∷ unmask inb 0

-- The loop of `Timer::Sleep`: `count n` ticks have been counted when the processor has woken up `n` times,
-- of which `ticks` holds the last 32 bits. The result is how often it has when the loop ends.
unfoldable pub wait : ℕ → (ℕ → ℕ) → ℕ → ℕ → Option ℕ
wait zero count target n = none
wait (suc fuel) count target n =
    let rest = wait fuel count target (suc n) in
    if ltb (count n % 2 ^ 32) target then rest else some n

-- `Timer::Sleep`.
unfoldable pub sleep : ℕ → (ℕ → ℕ) → ℕ → Option ℕ
sleep fuel count ms = wait fuel count (add32 (count 0 % 2 ^ 32) (ticks_of_ms ms)) 0
