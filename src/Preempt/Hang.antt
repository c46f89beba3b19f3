-- ===== src/Preempt/Hang.antt =====
-- A preemption that returns to the kernel's task, and the `hlt` of its loop in src/src/kernel.cpp.
use mathlib.Core.Path.{subst}
use shiro.Scheduler.{Scheduler, preemptive_yield}
use shiro.Scheduler.Yields.{Preempts, preemptive_yield-Preempts}
use shiro.Timer.{tick}
use shiro.Preempt.{
  Processor, update, enter, switch_to, timer_interrupt, hlt, Step, interrupt, gives_way, lies_down,
  halts,
}
use shiro.Preempt.Switch.{IsSound, none_inside, resume-out}
use shiro.Preempt.Flow.{not-true, same_timer}
use shiro.Base.{ℕ, ◌≡◌, ◌≢◌, refl, sym, ◌∙◌, true, false, arith, Option, some, none}

-- A handler that has switched leaves the next task with interrupts off.
switched-off :
    (m : Processor) (r : Scheduler × Option (ℕ × ℕ))
    → IsSound m
    → m.scheduler.in_preempt ≡ false
    → Preempts m.scheduler r
    → r.0.current ≢ m.scheduler.current
    → let n = switch_to true r (enter m) in
      (n.scheduler.current ≡ r.0.current) × (n.interrupts ≡ false) × (n.halted ≡ false)
unfolding switch_to enter
switched-off m (s, none) i off k ne = absurd (ne k.chosen)
switched-off m (s, some (prev, next)) i off k ne =
    let (same, at, other, r) = k.chosen in
    let e = record (enter m) { scheduler = s; in_handler = update prev true m.in_handler } in
    let out : e.in_handler next ≡ false = ground (arith, other, same, none_inside m i off next) in
    subst (λ n. (n.scheduler.current ≡ s.current) × (n.interrupts ≡ false) × (n.halted ≡ false))
      (sym (resume-out next e out)) (refl, refl, refl)

handler_called :
    (m : Processor)
    → (tick m.timer).1 ≡ true
    → timer_interrupt m
      ≡ switch_to true
          (preemptive_yield (tick m.timer).0.ticks m.scheduler)
          (enter (record m { timer = (tick m.timer).0 }))
unfolding timer_interrupt enter
handler_called m due = rw due refl

-- Nothing can happen in `hlt` while interrupts are off.
hlt_stuck : (m x : Processor) → m.interrupts ≡ false → ¬ Step (hlt m) x
unfolding hlt
hlt_stuck m x off (interrupt on ack) = cc
hlt_stuck m x off (gives_way awake) = cc
hlt_stuck m x off (lies_down ms awake away) = cc
hlt_stuck m x off (halts awake at) = cc

-- When the timer preempts a background task and the next task is the kernel's, which was suspended in
-- its own `Yield`, the kernel's task goes on with interrupts off: its loop can execute `hlt`, and after
-- that nothing can ever happen.
pub timer_interrupt-hangs :
    (m : Processor)
    → IsSound m
    → m.interrupts ≡ true
    → (tick m.timer).1 ≡ true
    → m.scheduler.current ≢ 0
    → (preemptive_yield (tick m.timer).0.ticks m.scheduler).0.current ≡ 0
    → let n = timer_interrupt m in
      (n.scheduler.current ≡ 0) × Step n (hlt n) × ((x : Processor) → ¬ Step (hlt n) x)
timer_interrupt-hangs m i on due away kernel =
    let off = not-true m.scheduler.in_preempt (sym i.enabled ∙ on) in
    let m1 = record m { timer = (tick m.timer).0 } in
    let now = (tick m.timer).0.ticks in
    let (at, dark, awake) =
      switched-off m1 (preemptive_yield now m.scheduler) (same_timer m (tick m.timer).0 i) off
        (preemptive_yield-Preempts now m.scheduler i.table i.on off) (λ e. away (sym e ∙ kernel)) in
    subst (λ n. (n.scheduler.current ≡ 0) × Step n (hlt n) × ((x : Processor) → ¬ Step (hlt n) x))
      (sym (handler_called m due)) (at ∙ kernel, halts awake (at ∙ kernel), λ x. hlt_stuck _ x dark)
