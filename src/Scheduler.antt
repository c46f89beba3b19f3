-- ===== src/Scheduler.antt =====
-- src/src/classes/scheduler.class.h: `System::Scheduler`, the table of tasks.
pub mod Pick
pub mod Turns
pub mod Spawn
pub mod Owners
pub mod Stacks
pub mod Sleeping
pub mod Yields
mod Tests
use shiro.Tags.{Words}
use shiro.Heap.{Heap, alloc}
use shiro.Switch.{poke}
use shiro.Timer.{ticks_of_ms}
use shiro.Base.{
  ℕ, zero, suc, ◌+◌, ◌-◌, ◌*◌, ◌/◌, ◌%◌, ◌^◌, Bool, true, false, not, ◌&&◌, ◌||◌, Option, none,
  some, List, [], ◌∷◌, length, get_or, set, take, replicate, leb, ltb, ◌==◌, if◌then◌else◌, add32,
  sub32,
}

abbrev pub max_tasks : ℕ
max_tasks = 8

abbrev pub stack_size : ℕ
stack_size = 4096

pub data TaskState : Type 0 where
  task_unused : TaskState
  task_ready : TaskState
  task_sleeping : TaskState
  task_done : TaskState

abbrev pub is_ready : TaskState → Bool
is_ready task_ready = true
is_ready x = false

abbrev pub is_sleeping : TaskState → Bool
is_sleeping task_sleeping = true
is_sleeping x = false

abbrev pub is_unused : TaskState → Bool
is_unused task_unused = true
is_unused x = false

-- `task_t`. The name is the string that the array holds.
pub record Task : Type 0 where
  pub esp : ℕ
  pub stack_base : ℕ
  pub stack_top : ℕ
  pub sleep_until : ℕ
  pub state : TaskState
  pub id : ℕ
  pub name : List ℕ
  pub yields : ℕ

-- The static members of `Scheduler`, with the flag of `PreemptiveYield`.
pub record Scheduler : Type 0 where
  pub tasks : List Task
  pub current : ℕ
  pub spawned_count : ℕ
  pub ready : Bool
  pub in_preempt : Bool

abbrev pub blank_task : Task
blank_task = record {
  esp = 0;
  stack_base = 0;
  stack_top = 0;
  sleep_until = 0;
  state = task_unused;
  id = 2 ^ 32 - 1;
  name = [];
  yields = 0;
}

abbrev pub task_at : Scheduler → ℕ → Task
task_at s i = get_or s.tasks i blank_task

-- The name `kernel`.
abbrev pub kernel_name : List ℕ
kernel_name = 107 ∷ 101 ∷ 114 ∷ 110 ∷ 101 ∷ 108 ∷ []

-- `Scheduler::Start`.
unfoldable pub start : Scheduler → Scheduler
start s = record s {
  tasks =
      record blank_task { state = task_ready; id = 0; name = kernel_name } ∷ replicate 7 blank_task;
  current = 0;
  spawned_count = 1;
  ready = true;
}

-- The task may run at tick `now`: it is ready, or its sleep is over.
abbrev pub runnable : ℕ → Task → Bool
runnable now t = is_ready t.state || (is_sleeping t.state && leb t.sleep_until now)

abbrev pub wake : ℕ → Task → Task
wake now t =
    if is_sleeping t.state && leb t.sleep_until now then record t { state = task_ready } else t

-- The loop of `Scheduler::PickNext`, from step `step` on.
unfoldable pub pick : ℕ → ℕ → ℕ → Scheduler → ℕ × Scheduler
pick zero step now s = (s.current, s)
pick (suc n) step now s =
    let idx = (s.current + step) % max_tasks in
    let s' = record s { tasks = set s.tasks idx (wake now (task_at s idx)) } in
    let rest = pick n (step + 1) now s' in
    if is_ready (task_at s' idx).state then (idx, s') else rest

-- `Scheduler::PickNext`.
unfoldable pub pick_next : ℕ → Scheduler → ℕ × Scheduler
pick_next now s = pick max_tasks 1 now s

-- `Scheduler::Yield`: the new state, and the tasks to switch from and to, if it switches.
unfoldable pub yield_to : ℕ → Scheduler → Scheduler × Option (ℕ × ℕ)
yield_to now s =
    if not s.ready
    then (s, none)
    else let next = (pick_next now s).0 in
      let s' = (pick_next now s).1 in
      if next == s'.current
      then (s', none)
      else let prev = s'.current in
        let t = task_at s' prev in
        (
          record s' {
            current = next;
            tasks = set s'.tasks prev (record t { yields = add32 t.yields 1 });
          },
          some (prev, next),
        )

-- `Scheduler::PreemptiveYield` up to the switch; the flag is cleared when the task runs again.
unfoldable pub preemptive_yield : ℕ → Scheduler → Scheduler × Option (ℕ × ℕ)
preemptive_yield now s =
    if not s.ready || s.in_preempt
    then (s, none)
    else let r = yield_to now (record s { in_preempt = true }) in
      elim r.1 [
        | none ↦ (record r.0 { in_preempt = false }, none)
        | some switch ↦ (r.0, some switch)
      ]

-- `Scheduler::Sleep`.
unfoldable pub sleep : ℕ → ℕ → Scheduler → Scheduler × Option (ℕ × ℕ)
sleep now ms s =
    if not s.ready
    then (s, none)
    else let t = record (task_at s s.current) {
      sleep_until = add32 now (ticks_of_ms ms);
      state = task_sleeping;
    } in
      yield_to now (record s { tasks = set s.tasks s.current t })

-- The first unused slot from `i` on.
unfoldable pub find_slot : List Task → ℕ → Option ℕ
find_slot [] i = none
find_slot (t ∷ ts) i = elim (is_unused t.state) [ true ↦ some i | false ↦ find_slot ts (i + 1) ]

-- The five words at the top of a fresh stack.
abbrev pub fresh_stack : Words → ℕ → ℕ → Words
fresh_stack w top entry =
    poke (poke (poke (poke (poke w (top - 4) entry) (top - 8) 0) (top - 12) 0) (top - 16) 0)
      (top - 20) 0

abbrev pub fresh_task : ℕ → ℕ → List ℕ → Task
fresh_task stack id name = record {
  esp = stack + stack_size - 20;
  stack_base = stack;
  stack_top = stack + stack_size;
  sleep_until = 0;
  state = task_ready;
  id = id;
  name = take 15 name;
  yields = 0;
}

-- What `Spawn` works on: the tasks, the heap and the memory of the stacks.
pub record System : Type 0 where
  pub scheduler : Scheduler
  pub heap : Heap
  pub mem : Words

-- `Scheduler::Spawn`: the slot, or `none` where the source returns -1. The outer `none` is the
-- allocator's.
pub spawn : ℕ → List ℕ → System → Option (Option ℕ × System)
spawn entry name y =
    let s = y.scheduler in
    if not s.ready then some (none, y) else elim (find_slot s.tasks 0) [
      | none ↦ some (none, y)
      | some slot ↦ elim (alloc y.heap stack_size) [
        | none ↦ none
        | some (stack, heap') ↦ some (
            if stack == 0 then (none, record y { heap = heap' }) else (
              some slot,
              record {
                scheduler = record s {
                  tasks = set s.tasks slot (fresh_task stack s.spawned_count name);
                  spawned_count = add32 s.spawned_count 1;
                };
                heap = heap';
                mem = fresh_stack y.mem (stack + stack_size) entry;
              },
            ))
      ]
    ]
