-- ===== src/Scheduler/Turns.antt =====
-- `Scheduler::Yield` and `Scheduler::Sleep` of src/src/classes/scheduler.class.h: every ready task
-- gets its turn.
use mathlib.Core.Path.{subst}
use shiro.Base.{
  ℕ, ◌+◌, ◌-◌, ◌%◌, ◌<◌, ◌≤◌, ◌≡◌, ◌≢◌, refl, sym, ap, ◌∙◌, true, false, ◌⊎◌, inl, inr, List, [],
  ◌∷◌, length, length-set, get_or, set, get_or-set_self, get_or-set_ne, leb, ◌==◌, arith,
  Bool-cases, ==_iff, add32, some,
}
use shiro.Scheduler.{
  Scheduler, Task, is_ready, blank_task, task_at, max_tasks, wake, pick_next, yield_to,
}
use shiro.Scheduler.Pick.{slot_after, woken, can_run, pick_next_round_robin}

-- A table of eight slots, one of which runs.
pub record IsTable (s : Scheduler) : Type 0 where
  pub slots : length s.tasks ≡ max_tasks
  pub inside : s.current < max_tasks

-- How far slot `t` is after the running one.
abbrev pub distance : Scheduler → ℕ → ℕ
distance s t = (t + max_tasks - s.current) % max_tasks

-- A write of a task that is as ready as the old one keeps every slot as ready as it was.
pub set-ready :
    (xs : List Task) (i t : ℕ) (v : Task)
    → i < length xs
    → is_ready v.state ≡ is_ready (get_or xs i blank_task).state
    → is_ready (get_or (set xs i v) t blank_task).state ≡ is_ready (get_or xs t blank_task).state
set-ready xs i t v h e = elim (Bool-cases (i == t)) [
  | inl q ↦
      subst
        (λ x.
          is_ready (get_or (set xs i v) x blank_task).state
          ≡ is_ready (get_or xs x blank_task).state)
        ((==_iff _ _).0 q) (ap (λ x. is_ready x.state) (get_or-set_self xs i v blank_task h) ∙ e)
  | inr q ↦ ap (λ x. is_ready x.state) (get_or-set_ne xs i t v blank_task (λ e'. ground arith))
]

wake-keeps : (now : ℕ) (t : Task) → is_ready t.state ≡ true → is_ready (wake now t).state ≡ true
wake-keeps now t r = ground (arith, r)

pub woken-ready :
    (now : ℕ) (s : Scheduler) (i t : ℕ)
    → i < length s.tasks
    → is_ready (task_at s t).state ≡ true
    → is_ready (task_at (woken now s i) t).state ≡ true
woken-ready now s i t h r = elim (Bool-cases (i == t)) [
  | inl q ↦
      subst
        (λ x. is_ready (get_or (set s.tasks i (wake now (task_at s i))) x blank_task).state ≡ true)
        ((==_iff _ _).0 q)
        (ap (λ x. is_ready x.state)
            (get_or-set_self s.tasks i (wake now (task_at s i)) blank_task h)
          ∙ wake-keeps now (task_at s i)
              (subst (λ x. is_ready (task_at s x).state ≡ true) (sym ((==_iff _ _).0 q)) r))
  | inr q ↦
      ap (λ x. is_ready x.state)
        (get_or-set_ne s.tasks i t (wake now (task_at s i)) blank_task (λ e'. ground arith))
      ∙ r
]

-- The state after a switch to `next`.
abbrev pub switched : Scheduler → ℕ → Scheduler
switched s next =
    let t = task_at s s.current in
    record s {
      current = next;
      tasks = set s.tasks s.current (record t { yields = add32 t.yields 1 });
    }

pub yield_to-switched :
    (now : ℕ) (s s' : Scheduler) (next : ℕ)
    → s.ready ≡ true
    → pick_next now s ≡ (next, s')
    → next ≢ s'.current
    → yield_to now s ≡ (switched s' next, some (s'.current, next))
unfolding yield_to
yield_to-switched now s s' next on e ne =
    let n : (next == s'.current) ≡ false = ground (arith, ne) in rw (e, n, on) refl

-- What one yield does when the task at slot `t` is ready and not running.
pub yield_to-nearer :
    (now : ℕ) (s : Scheduler) (t : ℕ)
    → IsTable s
    → s.ready ≡ true
    → t < max_tasks
    → t ≢ s.current
    → is_ready (task_at s t).state ≡ true
    → let s' = (yield_to now s).0 in
      IsTable s'
      × (s'.ready ≡ true)
      × (is_ready (task_at s' t).state ≡ true)
      × (distance s' t < distance s t)
yield_to-nearer now s t v on lt ne r =
    let d = distance s t in
    let at_d : slot_after s d ≡ t = omega (arith, v.inside) in
    let runs : can_run now s d ≡ true = rw (at_d, r) refl in
    elim (pick_next_round_robin now s v.slots) [
      | inl (k, lo, hi, y, before, e) ↦
          let near : k ≤ d = elim (Bool-cases (leb k d)) [
            | inl q ↦ ground arith
            | inr q ↦
                let stop = before d (omega (arith, v.inside)) (ground arith) in
                ground (arith, stop, runs)
          ] in
          let idx = slot_after s k in
          let s1 = woken now s idx in
          let out = yield_to-switched now s s1 idx on e (omega (arith, v.inside)) in
          let len1 = length-set s.tasks idx (wake now (task_at s idx)) in
          let ready1 = woken-ready now s idx t (omega (arith, v.slots)) r in
          let c = task_at s1 s1.current in
          subst
            (λ x.
              IsTable x.0
              × (x.0.ready ≡ true)
              × (is_ready (task_at x.0 t).state ≡ true)
              × (distance x.0 t < distance s t))
            (sym out)
            (
              record {
                slots =
                    length-set s1.tasks s1.current (record c { yields = add32 c.yields 1 })
                    ∙ len1
                    ∙ v.slots;
                inside = omega arith;
              },
              on,
              set-ready s1.tasks s1.current t (record c { yields = add32 c.yields 1 })
                    (omega (arith, len1, v.slots, v.inside)) refl
                  ∙ ready1,
              omega (arith, v.inside),
            )
      | inr (idle, e) ↦
          let stop = idle d (omega (arith, v.inside)) (omega (arith, v.inside)) in
          absurd (ground (arith, stop, runs))
    ]

-- A run of yields, each at its tick, lets the task at slot `t` run.
pub Visits : ℕ → List ℕ → Scheduler → Type 0
Visits t [] s = s.current ≡ t
Visits t (now ∷ nows) s = (s.current ≡ t) ⊎ Visits t nows (yield_to now s).0

-- In a full table a ready task runs after at most as many yields as its slot is after the running
-- one, whatever the ticks: no task that only yields can keep it waiting.
pub yield_to_turns :
    (t : ℕ) (nows : List ℕ) (s : Scheduler)
    → IsTable s
    → s.ready ≡ true
    → t < max_tasks
    → is_ready (task_at s t).state ≡ true
    → distance s t ≤ length nows
    → Visits t nows s
unfolding Visits
yield_to_turns t [] s v on lt r h = omega (arith, v.inside)
yield_to_turns t (now ∷ nows) s v on lt r h = elim (Bool-cases (t == s.current)) [
  | inl q ↦ inl (ground arith)
  | inr q ↦
      let (v', on', r', near) = yield_to-nearer now s t v on lt (λ e. ground arith) r in
      inr (yield_to_turns t nows (yield_to now s).0 v' on' lt r' (omega arith))
]
