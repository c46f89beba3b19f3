-- ===== src/Scheduler/Sleeping.antt =====
-- `Scheduler::Sleep` and `Scheduler::PreemptiveYield` of src/src/classes/scheduler.class.h.
use shiro.Base.{
  ℕ, zero, suc, ◌+◌, ◌%◌, ◌<◌, ◌≤◌, ◌≡◌, refl, ap, ◌∙◌, true, false, not, ◌||◌, inl, inr,
  length-set, set, get_or-set_self, get_or-set_ne, leb, ◌==◌, arith, Bool-cases, Option-cases,
  add32, some, none, u32_mod,
}
use shiro.Timer.{ticks_of_ms}
use shiro.Scheduler.{
  Scheduler, Task, task_sleeping, is_ready, blank_task, task_at, max_tasks, runnable, wake, pick,
  pick_next, yield_to, preemptive_yield, sleep,
}
use shiro.Scheduler.Pick.{slot_after, can_run, pick_next_round_robin}
use shiro.Scheduler.Turns.{IsTable}

-- The running task, asleep.
abbrev pub asleep : ℕ → ℕ → Scheduler → Task
asleep now ms s = record (task_at s s.current) {
  sleep_until = add32 now (ticks_of_ms ms);
  state = task_sleeping;
}

abbrev pub laid_down : ℕ → ℕ → Scheduler → Scheduler
laid_down now ms s = record s { tasks = set s.tasks s.current (asleep now ms s) }

ticks-positive : (ms : ℕ) → 0 < ticks_of_ms ms
unfolding ticks_of_ms
ticks-positive ms = ground arith

pub yield_to-stays :
    (now : ℕ) (s : Scheduler)
    → s.ready ≡ true
    → pick_next now s ≡ (s.current, s)
    → yield_to now s ≡ (s, none)
unfolding yield_to
yield_to-stays now s on e =
    let n : (s.current == s.current) ≡ true = ground arith in ground (arith, e, n, on)

-- `Sleep` of the only task that can run does not wait: in a full table, when no other task is ready
-- or due and the deadline does not wrap, it returns without a switch, the task still marked as
-- sleeping.
pub sleep_alone :
    (now ms : ℕ) (s : Scheduler)
    → IsTable s
    → s.ready ≡ true
    → now + ticks_of_ms ms < u32_mod
    → ((k : ℕ) → 1 ≤ k → k < max_tasks → can_run now s k ≡ false)
    → (sleep now ms s ≡ (laid_down now ms s, none))
      × (task_at (laid_down now ms s) s.current ≡ asleep now ms s)
unfolding sleep
sleep_alone now ms s v on small others =
    let s1 = laid_down now ms s in
    let self =
      get_or-set_self s.tasks s.current (asleep now ms s) blank_task
        (omega (arith, v.slots, v.inside)) in
    let late : leb (add32 now (ticks_of_ms ms)) now ≡ false = ground (arith, ticks-positive ms) in
    let idle : (k : ℕ) → 1 ≤ k → k < max_tasks + 1 → can_run now s1 k ≡ false = λ k lo hi.
      elim (Bool-cases (k == max_tasks)) [
        | inl q ↦
            let at : slot_after s k ≡ s.current = ground (arith, v.inside) in
            ap (runnable now) (ap (λ i. task_at s1 i) at ∙ self) ∙ late
        | inr q ↦
            ap (runnable now) (
              get_or-set_ne s.tasks s.current (slot_after s k) (asleep now ms s) blank_task
                (λ e. ground (arith, v.inside)))
            ∙ others k lo (ground arith)
      ] in
    let stays : pick_next now s1 ≡ (s.current, s1) =
      elim (pick_next_round_robin now s1
        (length-set s.tasks s.current (asleep now ms s) ∙ v.slots)) [
          | inl (k, lo, hi, y, before, e) ↦
              let stop = idle k lo hi in absurd (ground (arith, stop, y))
          | inr (none_before, e) ↦ e
        ] in
    (ground (arith, on, yield_to-stays now s1 on stays), self)

pick-flag : (n step now : ℕ) (s : Scheduler) → (pick n step now s).1.in_preempt ≡ s.in_preempt
unfolding pick
pick-flag zero step now s = refl
pick-flag (suc n) step now s =
    let idx = (s.current + step) % max_tasks in
    let s' = record s { tasks = set s.tasks idx (wake now (task_at s idx)) } in
    elim (Bool-cases (is_ready (task_at s' idx).state)) [
      | inl y ↦ rw y refl
      | inr y ↦ rw y (pick-flag n (step + 1) now s')
    ]

pub yield_to-flag : (now : ℕ) (s : Scheduler) → (yield_to now s).0.in_preempt ≡ s.in_preempt
unfolding yield_to pick_next
yield_to-flag now s = ground (arith, pick-flag max_tasks 1 now s)

preemptive_yield-refused :
    (now : ℕ) (s : Scheduler) → s.in_preempt ≡ true → preemptive_yield now s ≡ (s, none)
unfolding preemptive_yield
preemptive_yield-refused now s h = ground (arith, h)

-- Once a preemption has switched tasks, further ones are refused until the preempted task runs
-- again: the flag stays set.
pub preemptive_yield_once :
    (now now' : ℕ) (s s' : Scheduler) (prev next : ℕ)
    → preemptive_yield now s ≡ (s', some (prev, next))
    → preemptive_yield now' s' ≡ (s', none)
unfolding preemptive_yield
preemptive_yield_once now now' s s' prev next e =
    preemptive_yield-refused now' s' (elim (Bool-cases (not s.ready || s.in_preempt)) [
      | inl q ↦ ground (arith, q, e)
      | inr q ↦
          let f = yield_to-flag now (record s { in_preempt = true }) in
          elim (Option-cases (yield_to now (record s { in_preempt = true })).1) [
            | inl o ↦ ground (arith, q, e, o)
            | inr (x, o) ↦ ground (arith, q, e, o, f)
          ]
    ])
