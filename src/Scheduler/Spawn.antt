-- ===== src/Scheduler/Spawn.antt =====
-- `Scheduler::Spawn` of src/src/classes/scheduler.class.h: the slot, and the stack that the first
-- switch finds.
use mathlib.Core.Path.{subst}
use shiro.Tags.{Words}
use shiro.Heap.{Heap, alloc}
use shiro.Switch.Frame.{Frame}
use shiro.Base.{
  ℕ, zero, suc, ◌+◌, ◌-◌, ◌<◌, ◌≤◌, ◌≡◌, ◌≢◌, sym, true, false, ◌⊎◌, inl, inr, List, [], ◌∷◌,
  length, get_or, set, get_or-set_self, get_or-set_ne, ◌==◌, arith, Bool-cases, add32, some, none,
}
use shiro.Scheduler.{
  Task, is_unused, blank_task, task_at, stack_size, find_slot, fresh_stack, fresh_task, System,
  spawn,
}

-- The first unused slot.
abbrev pub FirstUnused : List Task → ℕ → Type 0
FirstUnused ts i =
    (i < length ts)
    × (is_unused (get_or ts i blank_task).state ≡ true)
    × ((j : ℕ) → j < i → is_unused (get_or ts j blank_task).state ≡ false)

used_before :
    (t : Task) (ts : List Task) (m : ℕ)
    → is_unused t.state ≡ false
    → ((j : ℕ) → j < m → is_unused (get_or ts j blank_task).state ≡ false)
    → (j : ℕ) → j < suc m
    → is_unused (get_or (t ∷ ts) j blank_task).state ≡ false
used_before t ts m u h zero lt = u
used_before t ts m u h (suc j) lt = h j (omega arith)

find_slot-FirstUnused :
    (ts : List Task) (i k : ℕ) → find_slot ts i ≡ some k → (m : ℕ) × (k ≡ i + m) × FirstUnused ts m
unfolding find_slot
find_slot-FirstUnused [] i k e = absurd (ground (arith, e))
find_slot-FirstUnused (t ∷ ts) i k e = elim (Bool-cases (is_unused t.state)) [
  | inl u ↦ (zero, ground (arith, e, u), (omega arith, u, λ j lt. absurd (omega arith)))
  | inr u ↦
      let (m, q, f) = find_slot-FirstUnused ts (i + 1) k (ground (arith, e, u)) in
      (suc m, omega arith, (omega (arith, f.0), f.1, used_before t ts m u f.2))
]

-- The memory at the top of a fresh stack is a frame of zeros that returns to the entry.
fresh_stack-Frame :
    (w : Words) (top entry : ℕ)
    → 20 ≤ top
    → Frame (fresh_stack w top entry) (top - 20) 0 0 0 0 entry
fresh_stack-Frame w top entry h = record {
  at_edi = ground arith;
  at_esi = ground arith;
  at_ebx = ground arith;
  at_ebp = ground arith;
  at_eip = ground arith;
}

-- The state after a task was made in `slot` on the stack at `stack`.
abbrev pub with_task : System → Heap → ℕ → ℕ → ℕ → List ℕ → System
with_task y heap' slot stack entry name = record {
  scheduler = record y.scheduler {
    tasks = set y.scheduler.tasks slot (fresh_task stack y.scheduler.spawned_count name);
    spawned_count = add32 y.scheduler.spawned_count 1;
  };
  heap = heap';
  mem = fresh_stack y.mem (stack + stack_size) entry;
}

-- `Spawn` with a free slot and memory for a stack makes a task in the first unused slot and leaves
-- the other slots alone. The task is ready, and its stack holds the frame from which a switch loads
-- zeros in the four registers and goes to the entry, all inside the stack that was allocated.
pub spawn_fresh :
    (y : System) (entry : ℕ) (name : List ℕ) (slot stack : ℕ) (heap' : Heap)
    → y.scheduler.ready ≡ true
    → find_slot y.scheduler.tasks 0 ≡ some slot
    → alloc y.heap stack_size ≡ some (stack, heap')
    → stack ≢ 0
    → let y' = with_task y heap' slot stack entry name in
      let t = task_at y'.scheduler slot in
      (spawn entry name y ≡ some (some slot, y'))
      × FirstUnused y.scheduler.tasks slot
      × (t ≡ fresh_task stack y.scheduler.spawned_count name)
      × ((j : ℕ) → slot ≢ j → task_at y'.scheduler j ≡ task_at y.scheduler j)
      × Frame y'.mem t.esp 0 0 0 0 entry
      × (t.stack_base ≤ t.esp)
      × (t.esp + 20 ≡ t.stack_top)
      × ((a : ℕ) → (a < stack) ⊎ (stack + stack_size ≤ a) → y'.mem a ≡ y.mem a)
unfolding spawn
spawn_fresh y entry name slot stack heap' on free got ne =
    let z : (stack == 0) ≡ false = ground (arith, ne) in
    let (m, q, f) = find_slot-FirstUnused y.scheduler.tasks 0 slot free in
    let first = subst (FirstUnused y.scheduler.tasks) (omega (arith, q)) f in
    let t = fresh_task stack y.scheduler.spawned_count name in
    let self = get_or-set_self y.scheduler.tasks slot t blank_task first.0 in
    let top =
      subst (λ x. Frame (fresh_stack y.mem (stack + stack_size) entry) x.esp 0 0 0 0 entry)
        (sym self) (fresh_stack-Frame y.mem (stack + stack_size) entry (omega arith)) in
    (
      rw (free, got, z) (ground (arith, on)),
      first,
      self,
      λ j n. get_or-set_ne y.scheduler.tasks slot j t blank_task n,
      top,
      rw self (omega arith),
      rw self (omega arith),
      λ a out. ground arith,
    )

-- `Spawn` before `Start`, or without an unused slot, changes nothing; without memory for a stack it
-- makes no task.
pub spawn_refused :
    (y : System) (entry : ℕ) (name : List ℕ)
    → (y.scheduler.ready ≡ false) ⊎ (find_slot y.scheduler.tasks 0 ≡ none)
    → spawn entry name y ≡ some (none, y)
unfolding spawn
spawn_refused y entry name (inl off) = ground (arith, off)
spawn_refused y entry name (inr full) = ground (arith, full)
