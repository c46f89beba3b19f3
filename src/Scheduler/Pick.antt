-- ===== src/Scheduler/Pick.antt =====
-- `Scheduler::PickNext` of src/src/classes/scheduler.class.h.
use mathlib.Core.Path.{subst}
use shiro.Base.{
  ℕ, zero, suc, ◌+◌, ◌%◌, ◌<◌, ◌≤◌, ◌≡◌, refl, sym, ap, ◌∙◌, Bool, true, false, ◌⊎◌, inl, inr,
  length, set, set-get_or, get_or-set_self, ◌==◌, arith, Bool-cases, ==_iff,
}
use shiro.Scheduler.{
  Scheduler, Task, is_ready, blank_task, task_at, max_tasks, runnable, wake, pick, pick_next,
}

-- The slot that is `k` after the running task's, and the state with its task woken.
abbrev pub slot_after : Scheduler → ℕ → ℕ
slot_after s k = (s.current + k) % max_tasks

abbrev pub woken : ℕ → Scheduler → ℕ → Scheduler
woken now s idx = record s { tasks = set s.tasks idx (wake now (task_at s idx)) }

abbrev pub can_run : ℕ → Scheduler → ℕ → Bool
can_run now s k = runnable now (task_at s (slot_after s k))

-- The outcome of a search of the distances from `from` up to `to`.
abbrev pub Picked : ℕ → Scheduler → ℕ → ℕ → ℕ × Scheduler → Type 0
Picked now s from to r =
    ((k : ℕ) × (from ≤ k)
      × (k < to)
      × (can_run now s k ≡ true)
      × ((j : ℕ) → from ≤ j → j < k → can_run now s j ≡ false)
      × (r ≡ (slot_after s k, woken now s (slot_after s k))))
    ⊎ (((j : ℕ) → from ≤ j → j < to → can_run now s j ≡ false) × (r ≡ (s.current, s)))

pub wake-ready : (now : ℕ) (t : Task) → is_ready (wake now t).state ≡ runnable now t
wake-ready now t = ground arith

wake_idle : (now : ℕ) (t : Task) → runnable now t ≡ false → wake now t ≡ t
wake_idle now t h = ground (arith, h)

later :
    (now : ℕ) (s : Scheduler) (from to : ℕ) (r : ℕ × Scheduler)
    → can_run now s from ≡ false
    → Picked now s (from + 1) to r
    → Picked now s from to r
later now s from to r idle (inl (k, lo, hi, y, before, e)) = inl (
  k,
  omega arith,
  hi,
  y,
  λ j le lt. elim (Bool-cases (j == from)) [
    | inl q ↦ subst (λ x. can_run now s x ≡ false) (sym ((==_iff _ _).0 q)) idle
    | inr q ↦ before j (ground arith) lt
  ],
  e,
)
later now s from to r idle (inr (none_before, e)) = inr (
  λ j le lt. elim (Bool-cases (j == from)) [
    | inl q ↦ subst (λ x. can_run now s x ≡ false) (sym ((==_iff _ _).0 q)) idle
    | inr q ↦ none_before j (ground arith) lt
  ],
  e,
)

pick-Picked :
    (n step now : ℕ) (s : Scheduler)
    → length s.tasks ≡ max_tasks
    → Picked now s step (step + n) (pick n step now s)
unfolding pick
pick-Picked zero step now s len = inr (λ j le lt. absurd (omega arith), refl)
pick-Picked (suc n) step now s len =
    let idx = slot_after s step in
    let here =
      get_or-set_self s.tasks idx (wake now (task_at s idx)) blank_task (omega (arith, len)) in
    let ready = ap (λ t. is_ready t.state) here ∙ wake-ready now (task_at s idx) in
    elim (Bool-cases (can_run now s step)) [
      | inl y ↦
          inl
            (step, omega arith, omega arith, y, λ j le lt. absurd (omega arith), rw (ready, y) refl)
      | inr n' ↦
          let same : woken now s idx ≡ s =
            ap (λ l. record s { tasks = l })
              (ap (set s.tasks idx) (wake_idle now (task_at s idx) n')
                ∙ set-get_or s.tasks idx blank_task) in
          let e : pick (suc n) step now s ≡ pick n (step + 1) now (woken now s idx) =
            rw (ready, n') refl in
          let e' = e ∙ ap (pick n (step + 1) now) same in
          later now s step (step + suc n) (pick (suc n) step now s) n' (
            subst (Picked now s (step + 1) (step + suc n)) (sym e') (
              subst (λ b. Picked now s (step + 1) b (pick n (step + 1) now s)) (omega arith)
                (pick-Picked n (step + 1) now s len)))
    ]

-- `PickNext` on a full table is round robin: it returns the slot of the first task, at distance 1
-- to 8 after the running one, that is ready or whose sleep is over at tick `now`, and changes
-- nothing but to make that task ready; if there is none it returns the running slot and changes
-- nothing.
pub pick_next_round_robin :
    (now : ℕ) (s : Scheduler)
    → length s.tasks ≡ max_tasks
    → Picked now s 1 (max_tasks + 1) (pick_next now s)
unfolding pick_next
pick_next_round_robin now s len = pick-Picked max_tasks 1 now s len
