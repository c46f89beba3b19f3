-- ===== src/Scheduler/Owners.antt =====
-- What a task that `Scheduler::Spawn` of src/src/classes/scheduler.class.h has made owns.
use mathlib.Core.Path.{subst}
use shiro.Heap.Blocks.{Block}
use shiro.Heap.InUse.{InUse}
use shiro.Switch.Frame.{Frame}
use shiro.Base.{ℕ, ◌+◌, ◌<◌, ◌≤◌, ◌≡◌, ◌⊎◌, sym, ap, ◌∙◌, List, [], ◌∷◌, arith}
use shiro.Scheduler.{task_at, stack_size, System, task_ready}

-- The task in a slot is ready and has a block of the heap for its stack; the frame with which it
-- enters its function lies at the top.
pub record Owns (bs : List Block) (y : System) (slot entry : ℕ) : Type 0 where
  pub state : (task_at y.scheduler slot).state ≡ task_ready
  pub payload : InUse y.heap.base bs (task_at y.scheduler slot).stack_base stack_size
  pub top :
      (task_at y.scheduler slot).stack_top ≡ (task_at y.scheduler slot).stack_base + stack_size
  pub esp : (task_at y.scheduler slot).esp + 20 ≡ (task_at y.scheduler slot).stack_top
  pub frame : Frame y.mem (task_at y.scheduler slot).esp 0 0 0 0 entry

-- The stacks of two slots have no byte in common.
abbrev pub Disjoint : System → ℕ → ℕ → Type 0
Disjoint y i j =
    ((task_at y.scheduler i).stack_top ≤ (task_at y.scheduler j).stack_base)
    ⊎ ((task_at y.scheduler j).stack_top ≤ (task_at y.scheduler i).stack_base)

abbrev pub AllDisjoint : System → ℕ → List (ℕ × ℕ) → Type 0
AllDisjoint y i [] = Unit
AllDisjoint y i (m ∷ ms) = Disjoint y i m.0 × AllDisjoint y i ms

-- Slots with the functions of their tasks: each owns its stack, and no two stacks meet.
abbrev pub AllOwn : List Block → System → List (ℕ × ℕ) → Type 0
AllOwn bs y [] = Unit
AllOwn bs y (m ∷ ms) = Owns bs y m.0 m.1 × AllDisjoint y m.0 ms × AllOwn bs y ms

-- A task keeps what it owns when its slot, its payload and the bytes of its stack stay.
pub Owns-kept :
    (bs bs' : List Block) (y y' : System) (slot entry : ℕ)
    → Owns bs y slot entry
    → task_at y'.scheduler slot ≡ task_at y.scheduler slot
    → (InUse y.heap.base bs (task_at y.scheduler slot).stack_base stack_size
        → InUse y'.heap.base bs' (task_at y.scheduler slot).stack_base stack_size)
    → ((a : ℕ)
        → (task_at y.scheduler slot).stack_base ≤ a
        → a < (task_at y.scheduler slot).stack_top
        → y'.mem a ≡ y.mem a)
    → Owns bs' y' slot entry
Owns-kept bs bs' y y' slot entry o same held mem =
    let top = o.top in
    let esp = o.esp in
    let word = λ (k : ℕ) (h : k < 20).
      mem ((task_at y.scheduler slot).esp + k) (omega arith) (omega arith) in
    let frame : Frame y'.mem (task_at y.scheduler slot).esp 0 0 0 0 entry = record {
      at_edi = mem (task_at y.scheduler slot).esp (omega arith) (omega arith) ∙ o.frame.at_edi;
      at_esi = word 4 (omega arith) ∙ o.frame.at_esi;
      at_ebx = word 8 (omega arith) ∙ o.frame.at_ebx;
      at_ebp = word 12 (omega arith) ∙ o.frame.at_ebp;
      at_eip = word 16 (omega arith) ∙ o.frame.at_eip;
    } in
    record {
      state = ap (λ t. t.state) same ∙ o.state;
      payload =
          subst (λ t. InUse y'.heap.base bs' t.stack_base stack_size) (sym same) (held o.payload);
      top = rw same o.top;
      esp = rw same o.esp;
      frame = subst (λ t. Frame y'.mem t.esp 0 0 0 0 entry) (sym same) frame;
    }
