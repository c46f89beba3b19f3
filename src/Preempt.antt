-- ===== src/Preempt.antt =====
-- The timer's interrupt and the switch of tasks together: `Handler` of src/src/classes/isr.class.h and
-- of src/src/classes/timer.class.h, `PreemptiveYield`, `Yield` and `Sleep` of
-- src/src/classes/scheduler.class.h, the stub in src/src/boot/asm/isr.asm and the loop of
-- src/src/kernel.cpp.
pub mod Switch
pub mod Flow
pub mod Recovery
pub mod Hang
mod Tests
use shiro.Scheduler
use shiro.Scheduler.{Scheduler, yield_to, preemptive_yield}
use shiro.Scheduler.Sleeping.{laid_down}
use shiro.Timer.{Timer, tick}
use shiro.Base.{ℕ, ◌≡◌, ◌≢◌, Bool, true, false, Option, none, some, ◌==◌, if◌then◌else◌}

-- The scheduler, the timer, and what one processor and its interrupt controller keep: whether
-- interrupts are enabled, whether the timer's interrupt waits for its end of interrupt, whether the
-- processor waits in `hlt`, and which slots are suspended inside `PreemptiveYield`, called from the
-- handler. The other slots are suspended in a call of `Yield`, or have not run yet.
pub record Processor : Type 0 where
  pub scheduler : Scheduler
  pub timer : Timer
  pub interrupts : Bool
  pub unacknowledged : Bool
  pub halted : Bool
  pub in_handler : ℕ → Bool

abbrev pub update : ℕ → Bool → (ℕ → Bool) → ℕ → Bool
update i v f j = if j == i then v else f j

-- The end of `ISR::Handler`, which acknowledges the interrupt, and of its stub, `sti` and `iret`.
unfoldable pub leave : Processor → Processor
leave m = record m { interrupts = true; unacknowledged = false }

-- What the task in slot `next` does after the switch to it: in the handler, `PreemptiveYield` clears its
-- flag and the handler ends; else `Yield` returns.
unfoldable pub resume : ℕ → Processor → Processor
unfolding leave
resume next m =
    if m.in_handler next
    then leave (record m {
      scheduler = record m.scheduler { in_preempt = false };
      in_handler = update next false m.in_handler;
    })
    else m

-- The state after a call that may have switched, with whether the call came from the handler.
unfoldable pub switch_to : Bool → Scheduler × Option (ℕ × ℕ) → Processor → Processor
switch_to from_handler (s, none) m =
    if from_handler then leave (record m { scheduler = s }) else record m { scheduler = s }
switch_to from_handler (s, some (prev, next)) m =
    resume next (record m { scheduler = s; in_handler = update prev from_handler m.in_handler })

-- What the gate of the interrupt does: interrupts are disabled, and `hlt` ends.
unfoldable pub enter : Processor → Processor
enter m = record m { interrupts = false; unacknowledged = true; halted = false }

-- The interrupt of the timer: the handler counts the tick and may call the scheduler; if that returns
-- without a switch, the handler ends.
unfoldable pub timer_interrupt : Processor → Processor
timer_interrupt m =
    let entered = enter (record m { timer = (tick m.timer).0 }) in
    if (tick m.timer).1
    then switch_to true (preemptive_yield entered.timer.ticks m.scheduler) entered
    else leave entered

-- What a task does: it yields, or it sleeps for a number of milliseconds.
pub data Call : Type 0 where
  yields : Call
  sleeps : ℕ → Call

unfoldable pub call : Call → Processor → Processor
call yields m = switch_to false (yield_to m.timer.ticks m.scheduler) m
call (sleeps ms) m = switch_to false (Scheduler.sleep m.timer.ticks ms m.scheduler) m

-- `Sleep` up to its call of `Yield`: the running task is marked as sleeping.
unfoldable pub lie_down : ℕ → Processor → Processor
lie_down ms m =
    if m.scheduler.ready then record m { scheduler = laid_down m.timer.ticks ms m.scheduler } else m

-- `hlt`, in the loop of the kernel's task.
unfoldable pub hlt : Processor → Processor
hlt m = record m { halted = true }

-- What can happen next. An interrupt is taken while interrupts are enabled and the controller has no
-- older one to wait for; it also ends `hlt`, and nothing else does. A task calls `Yield`, which no
-- interrupt divides, or begins a `Sleep`, whose `Yield` is a step of its own; the kernel's task, which
-- runs `loop`, does not sleep. The tasks may take these steps in any order, so also in those of the source.
pub data Step (m : Processor) : Processor → Type 0 where
  interrupt : m.interrupts ≡ true → m.unacknowledged ≡ false → Step m (timer_interrupt m)
  gives_way : m.halted ≡ false → Step m (call yields m)
  lies_down : (ms : ℕ) → m.halted ≡ false → m.scheduler.current ≢ 0 → Step m (lie_down ms m)
  halts : m.halted ≡ false → m.scheduler.current ≡ 0 → Step m (hlt m)

pub data Reach (m : Processor) : Processor → Type 0 where
  here : Reach m m
  later : {t u : Processor} → Reach m t → Step t u → Reach m u
