-- ===== src/Preempt/Flow.antt =====
-- The invariant of the timer's interrupt and the switch of tasks (src/src/classes/scheduler.class.h,
-- src/src/classes/timer.class.h, src/src/classes/isr.class.h).
use mathlib.Core.Path.{subst}
use shiro.Scheduler.{Scheduler, is_ready, blank_task, preemptive_yield, yield_to}
use shiro.Scheduler.Sleeping.{laid_down, asleep}
use shiro.Scheduler.Yields.{
  Keeps, yield_to-Keeps, sleep-laid_down, Preempts, preemptive_yield-Preempts,
}
use shiro.Timer.{Timer, tick}
use shiro.Preempt.{
  Processor, enter, leave, switch_to, timer_interrupt, Call, yields, sleeps, call, lie_down, hlt,
  Step, interrupt, gives_way, lies_down, halts, Reach, here, later,
}
use shiro.Preempt.Switch.{
  IsSound, Switches, none_inside, switch_to-IsSound, preempt-IsSound, stay-IsSound,
}
use shiro.Base.{
  ℕ, ◌≡◌, ◌≢◌, refl, sym, ap, ◌∙◌, Bool, true, false, not, inl, inr, arith, Bool-cases, Option,
  some, none, length-set, get_or-set_ne, if◌then◌else◌,
}

-- What the handler finds when the scheduler has returned or has switched.
handled-IsSound :
    (m : Processor) (r : Scheduler × Option (ℕ × ℕ))
    → IsSound m
    → m.scheduler.in_preempt ≡ false
    → Preempts m.scheduler r
    → IsSound (switch_to true r (enter m))
unfolding switch_to enter leave
handled-IsSound m (s, none) i off k = record {
  table = k.table;
  on = k.on;
  kernel = k.still 0 (omega arith) i.kernel;
  enabled = ap not (sym (k.flag ∙ off));
  pending = sym (k.flag ∙ off);
  preempted = inl (k.flag ∙ off, none_inside m i off);
}
handled-IsSound m (s, some (prev, next)) i off k =
    let (same, at, other, r) = k.chosen in
    let w : Switches m s next = record {
      table = k.table;
      on = k.on;
      kernel = k.still 0 (omega arith) i.kernel;
      at = at;
      other = other;
    } in
    subst (λ p. IsSound (switch_to true (s, some (p, next)) (enter m))) (sym same)
      (preempt-IsSound m s next i w (enter m) off k.flag refl refl refl)

pub same_timer : (m : Processor) (t : Timer) → IsSound m → IsSound (record m { timer = t })
same_timer m t i = record {
  table = i.table;
  on = i.on;
  kernel = i.kernel;
  enabled = i.enabled;
  pending = i.pending;
  preempted = i.preempted;
}

leave-IsSound :
    (m : Processor) → IsSound m → m.scheduler.in_preempt ≡ false → IsSound (leave (enter m))
unfolding leave enter
leave-IsSound m i off = record {
  table = i.table;
  on = i.on;
  kernel = i.kernel;
  enabled = ap not (sym off);
  pending = sym off;
  preempted = i.preempted;
}

pub not-true : (b : Bool) → not b ≡ true → b ≡ false
not-true b h = ground (arith, h)

timer_interrupt-IsSound :
    (m : Processor) → IsSound m → m.interrupts ≡ true → IsSound (timer_interrupt m)
unfolding timer_interrupt enter
timer_interrupt-IsSound m i on =
    let m1 = record m { timer = (tick m.timer).0 } in
    let i1 = same_timer m (tick m.timer).0 i in
    let off : m.scheduler.in_preempt ≡ false =
      not-true m.scheduler.in_preempt (sym i.enabled ∙ on) in
    let r = preemptive_yield (tick m.timer).0.ticks m.scheduler in
    elim (Bool-cases (tick m.timer).1) [
      | inl q ↦ rw q (
          handled-IsSound m1 r i1 off
            (preemptive_yield-Preempts (tick m.timer).0.ticks m.scheduler i.table i.on off))
      | inr q ↦ rw q (leave-IsSound m1 i1 off)
    ]

yielded-IsSound :
    (m : Processor) (r : Scheduler × Option (ℕ × ℕ))
    → IsSound m
    → Keeps m.scheduler r
    → IsSound (switch_to false r m)
yielded-IsSound m (s, none) i k = stay-IsSound m s i k
yielded-IsSound m (s, some (prev, next)) i k =
    let (same, at, other, r) = k.chosen in
    let w : Switches m s next = record {
      table = k.table;
      on = k.on;
      kernel = k.still 0 (omega arith) i.kernel;
      at = at;
      other = other;
    } in
    subst (λ p. IsSound (switch_to false (s, some (p, next)) m)) (sym same)
      (switch_to-IsSound m s next i w k.flag)

yields-IsSound : (m : Processor) → IsSound m → IsSound (call yields m)
unfolding call
yields-IsSound m i =
    yielded-IsSound m (yield_to m.timer.ticks m.scheduler) i
      (yield_to-Keeps m.timer.ticks m.scheduler i.table i.on)

laid_down-IsSound :
    (ms : ℕ) (m : Processor)
    → IsSound m
    → m.scheduler.current ≢ 0
    → IsSound (record m { scheduler = laid_down m.timer.ticks ms m.scheduler })
laid_down-IsSound ms m i away =
    let s = m.scheduler in
    let t = asleep m.timer.ticks ms s in
    record {
      table = record {
        slots = length-set s.tasks s.current t ∙ i.table.slots;
        inside = i.table.inside;
      };
      on = i.on;
      kernel =
          ap (λ x. is_ready x.state) (get_or-set_ne s.tasks s.current 0 t blank_task away)
          ∙ i.kernel;
      enabled = i.enabled;
      pending = i.pending;
      preempted = i.preempted;
    }

lie_down-on :
    (ms : ℕ) (m : Processor)
    → m.scheduler.ready ≡ true
    → lie_down ms m ≡ record m { scheduler = laid_down m.timer.ticks ms m.scheduler }
unfolding lie_down
lie_down-on ms m on =
    ap (λ b. if b then record m { scheduler = laid_down m.timer.ticks ms m.scheduler } else m) on

lie_down-IsSound :
    (ms : ℕ) (m : Processor) → IsSound m → m.scheduler.current ≢ 0 → IsSound (lie_down ms m)
lie_down-IsSound ms m i away =
    subst IsSound (sym (lie_down-on ms m i.on)) (laid_down-IsSound ms m i away)

-- A switch goes by the scheduler that it is given.
switch_to-scheduler :
    (r : Scheduler × Option (ℕ × ℕ)) (s : Scheduler) (m : Processor)
    → switch_to false r (record m { scheduler = s }) ≡ switch_to false r m
unfolding switch_to
switch_to-scheduler (t, none) s m = refl
switch_to-scheduler (t, some (prev, next)) s m = refl

-- A `Sleep` that nothing interrupts is its two steps.
sleeps-steps :
    (ms : ℕ) (m : Processor)
    → m.scheduler.ready ≡ true
    → call (sleeps ms) m ≡ call yields (lie_down ms m)
unfolding call
sleeps-steps ms m on =
    let now = m.timer.ticks in
    let s1 = laid_down now ms m.scheduler in
    ap (λ r. switch_to false r m) (sleep-laid_down now ms m.scheduler on)
    ∙ sym (switch_to-scheduler (yield_to now s1) s1 m)
    ∙ ap (λ x. call yields x) (sym (lie_down-on ms m on))

pub call-IsSound :
    (c : Call) (m : Processor) → IsSound m → m.scheduler.current ≢ 0 → IsSound (call c m)
call-IsSound yields m i away = yields-IsSound m i
call-IsSound (sleeps ms) m i away =
    subst IsSound (sym (sleeps-steps ms m i.on))
      (yields-IsSound (lie_down ms m) (lie_down-IsSound ms m i away))

hlt-IsSound : (m : Processor) → IsSound m → IsSound (hlt m)
unfolding hlt
hlt-IsSound m i = record {
  table = i.table;
  on = i.on;
  kernel = i.kernel;
  enabled = i.enabled;
  pending = i.pending;
  preempted = i.preempted;
}

Step-IsSound : {m n : Processor} → Step m n → IsSound m → IsSound n
Step-IsSound (interrupt on ack) i = timer_interrupt-IsSound _ i on
Step-IsSound (gives_way awake) i = yields-IsSound _ i
Step-IsSound (lies_down ms awake away) i = lie_down-IsSound ms _ i away
Step-IsSound {m} (halts awake at) i = hlt-IsSound m i

-- In any order of interrupts of the timer, calls of `Yield`, beginnings of `Sleep` by tasks other than
-- the kernel's, and `hlt`, where no interrupt comes inside `Yield`: interrupts are disabled, and the
-- timer's stays unacknowledged, exactly while the flag of `PreemptiveYield` is set; then exactly one
-- task, and not the running one, is suspended inside the handler, and while it is clear none is.
pub Reach-IsSound : {m n : Processor} → IsSound m → Reach m n → IsSound n
Reach-IsSound i here = i
Reach-IsSound i (later r st) = Step-IsSound st (Reach-IsSound i r)
