-- ===== src/Preempt/Tests.antt =====
-- Runs of the timer's interrupt with two tasks, and concrete inputs to the theorems.
use shiro.Scheduler.{
  Task, blank_task, task_ready, kernel_name, yield_to, pick_next, pick, preemptive_yield,
}
use shiro.Timer.{tick}
use shiro.Preempt.{
  Processor, Call, yields, sleeps, call, switch_to, resume, leave, enter, timer_interrupt, lie_down,
  hlt, Step, lies_down, interrupt, Reach, here, later,
}
use shiro.Preempt.Switch.{IsSound}
use shiro.Preempt.Flow.{Reach-IsSound}
use shiro.Preempt.Recovery.{Recovers, calls-Recovers}
use shiro.Preempt.Hang.{timer_interrupt-hangs}
use shiro.Base.{ℕ, ◌≡◌, refl, true, false, inl, List, [], ◌∷◌, codes, replicate, arith}

-- The kernel's task and the spinner, one of which runs, with interrupts on, at tick 4.
abbrev spinner : Task
spinner = record blank_task { state = task_ready; id = 1; name = codes "spinner" }

abbrev running : ℕ → Processor
running slot = record {
  scheduler = record {
    tasks =
        record blank_task { state = task_ready; id = 0; name = kernel_name }
        ∷ spinner
        ∷ replicate 6 blank_task;
    current = slot;
    spawned_count = 2;
    ready = true;
    in_preempt = false;
  };
  timer = record { ticks = 4; preempt = true };
  interrupts = true;
  unacknowledged = false;
  halted = false;
  in_handler = λ i. false;
}

kernel-IsSound : IsSound (running 0)
kernel-IsSound = record {
  table = record { slots = refl; inside = omega arith };
  on = refl;
  kernel = refl;
  enabled = refl;
  pending = refl;
  preempted = inl (refl, λ i. refl);
}

spinner-IsSound : IsSound (running 1)
spinner-IsSound = record {
  table = record { slots = refl; inside = omega arith };
  on = refl;
  kernel = refl;
  enabled = refl;
  pending = refl;
  preempted = inl (refl, λ i. refl);
}

-- The fifth tick comes while the spinner paints: the kernel's task runs with interrupts off.
painting_preempted :
    ((timer_interrupt (running 1)).scheduler.current ≡ 0)
    × ((timer_interrupt (running 1)).interrupts ≡ false)
unfolding timer_interrupt enter leave tick switch_to resume preemptive_yield yield_to pick_next pick
painting_preempted = (refl, refl)

-- It comes while the kernel's task waits: the spinner runs with interrupts off, and they are on again
-- when it yields.
waiting_preempted :
    ((timer_interrupt (running 0)).interrupts ≡ false)
    × ((call yields (timer_interrupt (running 0))).interrupts ≡ true)
unfolding timer_interrupt enter leave tick switch_to resume preemptive_yield yield_to pick_next pick
    call
waiting_preempted = (refl, refl)

preempted : Reach (running 0) (timer_interrupt (running 0))
preempted = later here (interrupt refl refl)

abbrev seven : List Call
seven = yields ∷ sleeps 150 ∷ yields ∷ yields ∷ sleeps 700 ∷ yields ∷ yields ∷ []

kernel_inside : (timer_interrupt (running 0)).in_handler 0 ≡ true
unfolding timer_interrupt enter leave tick switch_to resume preemptive_yield yield_to pick_next pick
kernel_inside = refl

calls-Recovers_example : Recovers seven (timer_interrupt (running 0))
calls-Recovers_example =
    calls-Recovers seven (timer_interrupt (running 0)) (Reach-IsSound kernel-IsSound preempted)
      kernel_inside (omega arith)

-- The tick comes inside a `Sleep` of the spinner, between its mark and its `Yield`.
asleep_preempted : Reach (running 1) (timer_interrupt (lie_down 500 (running 1)))
unfolding lie_down
asleep_preempted =
    later (later here (lies_down 500 refl (λ e. absurd (omega (arith, e))))) (interrupt refl refl)

Reach-IsSound_example : IsSound (timer_interrupt (lie_down 500 (running 1)))
Reach-IsSound_example = Reach-IsSound spinner-IsSound asleep_preempted

due : (tick (running 1).timer).1 ≡ true
unfolding tick
due = refl

kernel_next :
    (preemptive_yield (tick (running 1).timer).0.ticks (running 1).scheduler).0.current ≡ 0
unfolding tick preemptive_yield yield_to pick_next pick
kernel_next = refl

timer_interrupt-hangs_example :
    ((timer_interrupt (running 1)).scheduler.current ≡ 0)
    × Step (timer_interrupt (running 1)) (hlt (timer_interrupt (running 1)))
    × ((x : Processor) → ¬ Step (hlt (timer_interrupt (running 1))) x)
timer_interrupt-hangs_example =
    timer_interrupt-hangs (running 1) spinner-IsSound refl due (λ e. absurd (omega (arith, e)))
      kernel_next
