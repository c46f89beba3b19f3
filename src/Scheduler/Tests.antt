-- ===== src/Scheduler/Tests.antt =====
-- Runs of the scheduler of src/src/classes/scheduler.class.h, and concrete inputs to its theorems.
use shiro.Timer.{ticks_of_ms}
use shiro.Base.{
  ℕ, zero, suc, ◌<◌, ◌≤◌, ◌≡◌, refl, true, false, [], ◌∷◌, replicate, some, none, arith,
}
use shiro.Scheduler.{
  Scheduler, Task, TaskState, task_ready, task_sleeping, task_at, max_tasks, blank_task, pick_next,
  pick, yield_to, preemptive_yield, sleep,
}
use shiro.Scheduler.Pick.{Picked, pick_next_round_robin, can_run}
use shiro.Scheduler.Turns.{Visits, yield_to_turns, switched}
use shiro.Scheduler.Sleeping.{asleep, laid_down, sleep_alone}

abbrev a_task : TaskState → ℕ → Task
a_task s until = record blank_task { state = s; sleep_until = until; id = 1 }

-- The kernel runs, one task sleeps until tick 50, two are ready.
abbrev busy : Scheduler
busy = record {
  tasks =
      a_task task_ready 0
      ∷ a_task task_sleeping 50
      ∷ a_task task_ready 0
      ∷ a_task task_ready 0
      ∷ replicate 4 blank_task;
  current = 0;
  spawned_count = 4;
  ready = true;
  in_preempt = false;
}

-- At tick 10 the sleeping task is passed over, at tick 60 it is woken and runs.
picks : ((pick_next 10 busy).0 ≡ 2) × ((pick_next 60 busy).0 ≡ 1)
unfolding pick_next pick
picks = (refl, refl)

pick_next_round_robin_example : Picked 10 busy 1 9 (pick_next 10 busy)
pick_next_round_robin_example = pick_next_round_robin 10 busy refl

yield_to_turns_example : Visits 3 (10 ∷ 20 ∷ 30 ∷ []) busy
yield_to_turns_example =
    yield_to_turns 3 (10 ∷ 20 ∷ 30 ∷ []) busy (record { slots = refl; inside = omega arith }) refl
      (omega arith) refl (omega arith)

-- Only the kernel's task.
abbrev alone : Scheduler
alone = record busy { tasks = a_task task_ready 0 ∷ replicate 7 blank_task }

nobody : (k : ℕ) → 1 ≤ k → k < max_tasks → can_run 10 alone k ≡ false
nobody zero lo hi = absurd (omega arith)
nobody (suc zero) lo hi = refl
nobody (suc (suc zero)) lo hi = refl
nobody (suc (suc (suc zero))) lo hi = refl
nobody (suc (suc (suc (suc zero)))) lo hi = refl
nobody (suc (suc (suc (suc (suc zero))))) lo hi = refl
nobody (suc (suc (suc (suc (suc (suc zero)))))) lo hi = refl
nobody (suc (suc (suc (suc (suc (suc (suc zero))))))) lo hi = refl
nobody (suc (suc (suc (suc (suc (suc (suc (suc k)))))))) lo hi = absurd (omega arith)

sleep_alone_example :
    (sleep 10 1000 alone ≡ (laid_down 10 1000 alone, none))
    × (task_at (laid_down 10 1000 alone) 0 ≡ asleep 10 1000 alone)
unfolding ticks_of_ms
sleep_alone_example =
    sleep_alone 10 1000 alone (record { slots = refl; inside = omega arith }) refl (omega arith)
      nobody

preempted : preemptive_yield 10 busy ≡ (switched (record busy { in_preempt = true }) 2, some (0, 2))
unfolding preemptive_yield yield_to pick_next pick
preempted = refl
