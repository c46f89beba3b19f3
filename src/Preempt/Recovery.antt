-- ===== src/Preempt/Recovery.antt =====
-- The kernel's task runs again when the timer has preempted it (src/src/classes/scheduler.class.h,
-- src/src/classes/timer.class.h). Interrupts are off until then, so that nothing divides a call.
use shiro.Scheduler.{Scheduler, yield_to, sleep}
use shiro.Scheduler.Turns.{distance, yield_to-nearer}
use shiro.Scheduler.Yields.{sleep-Sleeps}
use shiro.Preempt.{Processor, update, leave, resume, switch_to, Call, yields, sleeps, call}
use shiro.Preempt.Switch.{IsSound}
use shiro.Preempt.Flow.{call-IsSound}
use shiro.Base.{
  ℕ, ◌+◌, ◌<◌, ◌≤◌, ◌≡◌, ◌≢◌, refl, sym, ap, ◌∙◌, true, false, not, ◌⊎◌, inl, inr, List, [], ◌∷◌,
  length, arith, Bool-cases, Option, some, none,
}

-- Interrupts are enabled before one of the calls, each made by the task that runs, or after them; until
-- then the kernel's task does not run.
pub Recovers : List Call → Processor → Type 0
Recovers [] m = m.interrupts ≡ true
Recovers (c ∷ cs) m = (m.interrupts ≡ true) ⊎ ((m.scheduler.current ≢ 0) × Recovers cs (call c m))

-- A call of a task suspends no slot in the handler.
switch_to-inside :
    (m : Processor) (r : Scheduler × Option (ℕ × ℕ))
    → ((switch_to false r m).scheduler.current ≡ r.0.current)
      × ((j : ℕ) → (switch_to false r m).in_handler j ≡ true → m.in_handler j ≡ true)
unfolding switch_to resume leave
switch_to-inside m (s, none) = (refl, λ j h. h)
switch_to-inside m (s, some (prev, next)) =
    elim (Bool-cases (update prev false m.in_handler next)) [
      | inl q ↦ rw q (refl, λ j h. ground (arith, h))
      | inr q ↦ rw q (refl, λ j h. ground (arith, h))
    ]

-- The slot of the kernel's task comes nearer with each call of another.
call-nearer :
    (c : Call) (m : Processor)
    → IsSound m
    → 0 ≢ m.scheduler.current
    → (distance (call c m).scheduler 0 < distance m.scheduler 0)
      × ((j : ℕ) → (call c m).in_handler j ≡ true → m.in_handler j ≡ true)
unfolding call
call-nearer yields m i away =
    let out = yield_to m.timer.ticks m.scheduler in
    let near =
      (yield_to-nearer m.timer.ticks m.scheduler 0 i.table i.on (omega arith) away i.kernel).3 in
    let e = switch_to-inside m out in (omega (arith, near, e.0), e.1)
call-nearer (sleeps ms) m i away =
    let out = sleep m.timer.ticks ms m.scheduler in
    let near =
      (sleep-Sleeps m.timer.ticks ms m.scheduler 0 i.table i.on (omega arith) away i.kernel).near in
    let e = switch_to-inside m out in (omega (arith, near, e.0), e.1)

-- How far the kernel's task is, if it is the one that is suspended in the handler.
abbrev Within : ℕ → Processor → Type 0
Within n m = (m.interrupts ≡ true) ⊎ ((m.in_handler 0 ≡ true) × (distance m.scheduler 0 ≤ n))

-- While the kernel's task is suspended in the handler it does not run, and no other is there.
suspended :
    (m : Processor)
    → IsSound m
    → m.in_handler 0 ≡ true
    → (0 ≢ m.scheduler.current) × ((j : ℕ) → m.in_handler j ≡ true → j ≡ 0)
suspended m i inside = elim i.preempted [
  | inl (off, all) ↦ absurd (ground (arith, inside, all 0))
  | inr (u, set, low, away, all) ↦
      let e : u ≡ 0 = ground (arith, inside, all 0) in
      ((λ q. away (e ∙ q)), λ j h. ground (arith, e, h, all j))
]

call-Within :
    (n : ℕ) (c : Call) (m : Processor)
    → IsSound m
    → m.in_handler 0 ≡ true
    → distance m.scheduler 0 ≤ n + 1
    → Within n (call c m)
call-Within n c m i inside near =
    let (away, only) = suspended m i inside in
    let s = call-nearer c m i away in
    let k = call-IsSound c m i (λ e. away (sym e)) in
    elim k.preempted [
      | inl (off, all) ↦ inl (k.enabled ∙ ap not off)
      | inr (u, set, lt, ne, all) ↦
          let e : u ≡ 0 = only u (s.1 u (ground (arith, all u))) in
          inr (ground (arith, all u, e), omega (arith, s.0, near))
    ]

recovers : (cs : List Call) (m : Processor) → IsSound m → Within (length cs) m → Recovers cs m
unfolding Recovers
recovers [] m i (inl on) = on
recovers (c ∷ cs) m i (inl on) = inl on
recovers [] m i (inr (inside, near)) =
    let (away, only) = suspended m i inside in
    let low = i.table.inside in absurd (away (omega (arith, near, low)))
recovers (c ∷ cs) m i (inr (inside, near)) =
    let away = (suspended m i inside).0 in
    inr (
      (λ e. away (sym e)),
      recovers cs (call c m) (call-IsSound c m i (λ e. away (sym e)))
          (call-Within (length cs) c m i inside (omega (arith, near))),
    )

-- When the timer has preempted the kernel's task, interrupts are enabled again within seven calls of
-- `Yield` or `Sleep` by the background tasks that run meanwhile: until then the kernel's task does not
-- run, and when its turn comes its handler ends.
pub calls-Recovers :
    (cs : List Call) (m : Processor)
    → IsSound m
    → m.in_handler 0 ≡ true
    → 7 ≤ length cs
    → Recovers cs m
calls-Recovers cs m i inside h = recovers cs m i (inr (inside, omega (arith, h)))
