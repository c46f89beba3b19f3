-- ===== src/Scheduler/Yields.antt =====
-- `Yield` and `Sleep` of src/src/classes/scheduler.class.h: what a switch keeps.
use mathlib.Core.Path.{subst}
use shiro.Base.{
  ℕ, ◌<◌, ◌≡◌, ◌≢◌, refl, sym, ap, ◌∙◌, true, false, inl, inr, length-set, get_or-set_self,
  get_or-set_ne, ◌==◌, arith, Bool-cases, ==_iff, add32, Option, some, none,
}
use shiro.Scheduler.{
  Scheduler, is_ready, blank_task, task_at, max_tasks, wake, pick_next, yield_to, preemptive_yield,
  sleep,
}
use shiro.Scheduler.Pick.{slot_after, woken, wake-ready, pick_next_round_robin}
use shiro.Scheduler.Turns.{
  IsTable, distance, set-ready, woken-ready, yield_to-switched, yield_to-nearer,
}
use shiro.Scheduler.Sleeping.{laid_down, asleep}

abbrev pub Ready : Scheduler → ℕ → Type 0
Ready s i = is_ready (task_at s i).state ≡ true

-- Which task runs after a call that may have switched.
abbrev pub Switched : Scheduler → Scheduler × Option (ℕ × ℕ) → Type 0
Switched s (s', none) = s'.current ≡ s.current
Switched s (s', some (prev, next)) =
    (prev ≡ s.current) × (s'.current ≡ next) × (next ≢ s.current) × Ready s' next

-- A call keeps the table, its flags and every ready task, and switches to a ready task or not at all.
pub record Keeps (s : Scheduler) (r : Scheduler × Option (ℕ × ℕ)) : Type 0 where
  pub table : IsTable r.0
  pub on : r.0.ready ≡ true
  pub flag : r.0.in_preempt ≡ s.in_preempt
  pub still : (i : ℕ) → i < max_tasks → Ready s i → Ready r.0 i
  pub chosen : Switched s r

-- The state in which `PickNext` has looked at a slot.
looked :
    (now : ℕ) (s : Scheduler) (idx : ℕ)
    → IsTable s
    → idx < max_tasks
    → IsTable (woken now s idx) × ((i : ℕ) → i < max_tasks → Ready s i → Ready (woken now s idx) i)
looked now s idx v low = (
  record { slots = length-set s.tasks idx (wake now (task_at s idx)) ∙ v.slots; inside = v.inside },
  λ i lt r. woken-ready now s idx i (omega (arith, v.slots)) r,
)

-- `Yield` when `PickNext` finds the running task.
same-Keeps :
    (now : ℕ) (s s1 : Scheduler)
    → IsTable s1
    → s.ready ≡ true
    → s1.ready ≡ s.ready
    → s1.in_preempt ≡ s.in_preempt
    → s1.current ≡ s.current
    → ((i : ℕ) → i < max_tasks → Ready s i → Ready s1 i)
    → pick_next now s ≡ (s.current, s1)
    → Keeps s (yield_to now s)
unfolding yield_to
same-Keeps now s s1 v on on1 flag cur still e =
    let n : (s.current == s1.current) ≡ true = ground (arith, cur) in
    rw (e, n, on) (record { table = v; on = on1 ∙ on; flag = flag; still = still; chosen = cur })

-- `Yield` when it switches.
other-Keeps :
    (now : ℕ) (s : Scheduler) (idx : ℕ)
    → IsTable s
    → s.ready ≡ true
    → idx < max_tasks
    → idx ≢ s.current
    → Ready (woken now s idx) idx
    → pick_next now s ≡ (idx, woken now s idx)
    → Keeps s (yield_to now s)
other-Keeps now s idx v on low ne r e =
    let s1 = woken now s idx in
    let (v1, still1) = looked now s idx v low in
    let c = task_at s1 s1.current in
    let kept = λ (i : ℕ).
      set-ready s1.tasks s1.current i (record c { yields = add32 c.yields 1 })
        (omega (arith, v1.slots, v1.inside)) refl in
    subst (Keeps s) (sym (yield_to-switched now s s1 idx on e ne)) (record {
      table = record {
        slots = length-set s1.tasks s1.current (record c { yields = add32 c.yields 1 }) ∙ v1.slots;
        inside = low;
      };
      on = on;
      flag = refl;
      still = λ i lt q. kept i ∙ still1 i lt q;
      chosen = (refl, refl, ne, kept idx ∙ r);
    })

pub yield_to-Keeps :
    (now : ℕ) (s : Scheduler) → IsTable s → s.ready ≡ true → Keeps s (yield_to now s)
yield_to-Keeps now s v on = elim (pick_next_round_robin now s v.slots) [
  | inr (idle, e) ↦ same-Keeps now s s v on refl refl refl (λ i lt r. r) e
  | inl (k, lo, hi, y, before, e) ↦
      let idx = slot_after s k in
      let low : idx < max_tasks = omega arith in
      let (v1, still1) = looked now s idx v low in
      elim (Bool-cases (idx == s.current)) [
        | inl q ↦
            same-Keeps now s (woken now s idx) v1 on refl refl refl still1
              (e ∙ ap (λ i. (i, woken now s idx)) ((==_iff _ _).0 q))
        | inr q ↦
            let self =
              get_or-set_self s.tasks idx (wake now (task_at s idx)) blank_task
                (omega (arith, v.slots)) in
            let r = ap (λ t. is_ready t.state) self ∙ wake-ready now (task_at s idx) ∙ y in
            other-Keeps now s idx v on low (λ e'. ground arith) r e
      ]
]

-- A call that changes which task runs has switched.
switched_away :
    (s : Scheduler) (r : Scheduler × Option (ℕ × ℕ))
    → Switched s r
    → r.0.current ≢ s.current
    → (next : ℕ) × (r.1 ≡ some (s.current, next))
      × (r.0.current ≡ next)
      × (next ≢ s.current)
      × Ready r.0 next
switched_away s (s', none) c ne = absurd (ne c)
switched_away s (s', some (prev, next)) (p, c, n, r) ne =
    (next, ap (λ x. some (x, next)) p, c, n, r)

-- `Sleep` switches, nearer to a ready task `t`, and leaves every other ready task ready.
pub record Sleeps (s : Scheduler) (t : ℕ) (r : Scheduler × Option (ℕ × ℕ)) : Type 0 where
  pub table : IsTable r.0
  pub on : r.0.ready ≡ true
  pub flag : r.0.in_preempt ≡ s.in_preempt
  pub still : (i : ℕ) → i < max_tasks → i ≢ s.current → Ready s i → Ready r.0 i
  pub gone :
      (next : ℕ) × (r.1 ≡ some (s.current, next))
      × (r.0.current ≡ next)
      × (next ≢ s.current)
      × Ready r.0 next
  pub near : distance r.0 t < distance s t

pub sleep-laid_down :
    (now ms : ℕ) (s : Scheduler)
    → s.ready ≡ true
    → sleep now ms s ≡ yield_to now (laid_down now ms s)
unfolding sleep
sleep-laid_down now ms s on = ground (arith, on)

pub sleep-Sleeps :
    (now ms : ℕ) (s : Scheduler) (t : ℕ)
    → IsTable s
    → s.ready ≡ true
    → t < max_tasks
    → t ≢ s.current
    → Ready s t
    → Sleeps s t (sleep now ms s)
sleep-Sleeps now ms s t v on low ne r =
    let s1 = laid_down now ms s in
    let v1 : IsTable s1 = record {
      slots = length-set s.tasks s.current (asleep now ms s) ∙ v.slots;
      inside = v.inside;
    } in
    let others : (i : ℕ) → i ≢ s.current → Ready s i → Ready s1 i = λ i n q.
      ap (λ x. is_ready x.state)
        (get_or-set_ne s.tasks s.current i (asleep now ms s) blank_task (λ e. n (sym e)))
      ∙ q in
    let k = yield_to-Keeps now s1 v1 on in
    let near = (yield_to-nearer now s1 t v1 on low ne (others t ne r)).3 in
    let moved : (yield_to now s1).0.current ≢ s1.current = λ e. omega (arith, near, e) in
    subst (Sleeps s t) (sym (sleep-laid_down now ms s on)) (record {
      table = k.table;
      on = k.on;
      flag = k.flag;
      still = λ i lt n q. k.still i lt (others i n q);
      gone = switched_away s1 (yield_to now s1) k.chosen moved;
      near = near;
    })

-- What `PreemptiveYield` returns when its flag was clear.
abbrev pub Preempts : Scheduler → Scheduler × Option (ℕ × ℕ) → Type 0
Preempts s (s', none) = Keeps s (s', none)
Preempts s (s', some switch) = Keeps (record s { in_preempt = true }) (s', some switch)

off-Keeps :
    (s s' : Scheduler)
    → s.in_preempt ≡ false
    → Keeps (record s { in_preempt = true }) (s', none)
    → Keeps s (record s' { in_preempt = false }, none)
off-Keeps s s' off k = record {
  table = record { slots = k.table.slots; inside = k.table.inside };
  on = k.on;
  flag = sym off;
  still = k.still;
  chosen = k.chosen;
}

-- What it does when `Yield` has returned without a switch, or has switched.
abbrev returned : Scheduler × Option (ℕ × ℕ) → Scheduler × Option (ℕ × ℕ)
returned r = elim r.1 [
  | none ↦ (record r.0 { in_preempt = false }, none)
  | some switch ↦ (r.0, some switch)
]

returned-Preempts :
    (s : Scheduler) (r : Scheduler × Option (ℕ × ℕ))
    → s.in_preempt ≡ false
    → Keeps (record s { in_preempt = true }) r
    → Preempts s (returned r)
returned-Preempts s (s', none) off k = off-Keeps s s' off k
returned-Preempts s (s', some switch) off k = k

preemptive_yield-returned :
    (now : ℕ) (s : Scheduler)
    → s.ready ≡ true
    → s.in_preempt ≡ false
    → preemptive_yield now s ≡ returned (yield_to now (record s { in_preempt = true }))
unfolding preemptive_yield
preemptive_yield-returned now s on off = ground (arith, on, off)

pub preemptive_yield-Preempts :
    (now : ℕ) (s : Scheduler)
    → IsTable s
    → s.ready ≡ true
    → s.in_preempt ≡ false
    → Preempts s (preemptive_yield now s)
preemptive_yield-Preempts now s v on off =
    let s1 = record s { in_preempt = true } in
    let k = yield_to-Keeps now s1 (record { slots = v.slots; inside = v.inside }) on in
    subst (Preempts s) (sym (preemptive_yield-returned now s on off))
      (returned-Preempts s (yield_to now s1) off k)
