-- ===== src/Scheduler/Stacks.antt =====
-- The stacks that `Scheduler::Spawn` of src/src/classes/scheduler.class.h makes: what each spawned
-- task owns is kept by a further spawn.
use mathlib.Core.Path.{subst}
use shiro.Heap.{header_size, round}
use shiro.Heap.Blocks.{Block, Place, Coalesced, first_fit, carve, span}
use shiro.Heap.Valid.{Represents}
use shiro.Heap.Alloc.{first_fit-place}
use shiro.Heap.InUse.{InUse, InUse-carve, carved-InUse, InUse-Apart}
use shiro.Heap.Contract.{AllocSpec, alloc_refines, alloc_fresh}
use shiro.Base.{
  ℕ, ◌+◌, ◌≤◌, ◌≡◌, ◌≢◌, ◌⊎◌, refl, sym, true, false, inl, inr, List, [], ◌∷◌, ◌++◌, some, arith,
  set, add32,
}
use shiro.Scheduler.{Scheduler, task_at, stack_size, find_slot, fresh_task, System, spawn}
use shiro.Scheduler.Spawn.{with_task, spawn_fresh}
use shiro.Scheduler.Owners.{Owns, Disjoint, AllDisjoint, AllOwn, Owns-kept}

-- What the next spawn needs of the system, and what it keeps.
pub record Stacked (bs : List Block) (y : System) (ms : List (ℕ × ℕ)) : Type 0 where
  pub ready : y.scheduler.ready ≡ true
  pub heap : Represents y.heap bs
  pub coalesced : Coalesced bs
  pub own : AllOwn bs y ms

-- The blocks after a stack was given out of a place.
abbrev pub blocks_after : Place → List Block
blocks_after p = p.before ++ (carve (round stack_size) p.here ++ p.behind)

-- The table after a task was spawned on the stack at `stack`.
abbrev pub spawned : Scheduler → ℕ → ℕ → List ℕ → Scheduler
spawned s slot stack name = record s {
  tasks = set s.tasks slot (fresh_task stack s.spawned_count name);
  spawned_count = add32 s.spawned_count 1;
}

pub round_stack : round stack_size ≡ stack_size
unfolding round
round_stack = refl

module _ (bs : List Block) (y : System) (slot entry : ℕ) (name : List ℕ) (p : Place)
    (ms : List (ℕ × ℕ)) where
  module _ (s : Stacked bs y ms) (room : find_slot y.scheduler.tasks 0 ≡ some slot)
      (found : first_fit (round stack_size) bs ≡ some p) where
    abbrev stack : ℕ
    stack = y.heap.base + span p.before + header_size

    given : AllocSpec y.heap bs stack_size (some p)
    given =
        subst (AllocSpec y.heap bs stack_size) found
          (alloc_refines bs stack_size s.heap s.coalesced)

    abbrev made : System
    made = with_task y given.0 slot stack entry name

    stack_pos : stack ≢ 0
    stack_pos z = let pos = s.heap.pos in omega arith

    fits : round stack_size ≤ p.here.size
    fits = (first_fit-place (round stack_size) bs p found).2

    free : p.here.used ≡ false
    free = (first_fit-place (round stack_size) bs p found).1

    still_used :
        (q : ℕ)
        → InUse y.heap.base bs q stack_size
        → InUse given.0.base (blocks_after p) q stack_size
    still_used q u =
        let list = (first_fit-place (round stack_size) bs p found).0 in
        subst (λ a. InUse a (blocks_after p) q stack_size) (sym given.4)
          (InUse-carve y.heap.base (round stack_size) p.before p.here p.behind q stack_size free
            fits (subst (λ x. InUse y.heap.base x q stack_size) list u))

    apart :
        (q : ℕ)
        → InUse y.heap.base bs q stack_size
        → (stack + stack_size ≤ q) ⊎ (q + stack_size ≤ stack)
    apart q u =
        let f = alloc_fresh bs stack_size stack s.heap (omega arith) given.1 stack_pos in
        InUse-Apart y.heap.base bs stack stack_size q stack_size f.2 u

    ran : spawn entry name y ≡ some (some slot, made)
    ran = (spawn_fresh y entry name slot stack given.0 s.ready room given.1 stack_pos).0

    self : task_at made.scheduler slot ≡ fresh_task stack y.scheduler.spawned_count name
    self = (spawn_fresh y entry name slot stack given.0 s.ready room given.1 stack_pos).2

    same_task : (j e : ℕ) → Owns bs y j e → task_at made.scheduler j ≡ task_at y.scheduler j
    same_task j e o =
        let fresh = spawn_fresh y entry name slot stack given.0 s.ready room given.1 stack_pos in
        let unused = fresh.1.1 in fresh.3 j (λ z. ground (arith, unused, o.state, z))

    own_kept : (j e : ℕ) → Owns bs y j e → Owns (blocks_after p) made j e × Disjoint made slot j
    own_kept j e o =
        let fresh = spawn_fresh y entry name slot stack given.0 s.ready room given.1 stack_pos in
        let split = apart (task_at y.scheduler j).stack_base o.payload in
        let same : task_at made.scheduler j ≡ task_at y.scheduler j = same_task j e o in
        (
          Owns-kept bs (blocks_after p) y made j e o same
              (still_used (task_at y.scheduler j).stack_base)
              (λ a lo hi.
                let top = o.top in
                fresh.7 a
                  (elim split [ inl up ↦ inr (omega arith) | inr down ↦ inl (omega arith) ])),
          rw (self, same) (elim split [ inl up ↦ inl up | inr down ↦ inr (omega arith) ]),
        )

    own_new : Owns (blocks_after p) made slot entry
    own_new =
        let fresh = spawn_fresh y entry name slot stack given.0 s.ready room given.1 stack_pos in
        let carved : InUse y.heap.base (blocks_after p) stack (round stack_size) =
          carved-InUse y.heap.base (round stack_size) p.before p.here p.behind fits in
        let payload : InUse given.0.base (blocks_after p) stack stack_size =
          subst (λ a. InUse a (blocks_after p) stack stack_size) (sym given.4)
            (subst (InUse y.heap.base (blocks_after p) stack) round_stack carved) in
        record {
          state = rw self refl;
          payload =
              subst (λ t. InUse given.0.base (blocks_after p) t.stack_base stack_size) (sym self)
                payload;
          top = rw self refl;
          esp = fresh.6;
          frame = fresh.4;
        }

    disjoint_kept :
        (i d : ℕ) (ls : List (ℕ × ℕ))
        → Owns bs y i d
        → AllOwn bs y ls
        → AllDisjoint y i ls
        → AllDisjoint made i ls
    disjoint_kept i d [] o own dis = tt
    disjoint_kept i d (l ∷ ls) o own dis =
        (rw (same_task i d o, same_task l.0 l.1 own.0) dis.0, disjoint_kept i d ls o own.2 dis.1)

    all_kept :
        (ls : List (ℕ × ℕ))
        → AllOwn bs y ls
        → AllOwn (blocks_after p) made ls × AllDisjoint made slot ls
    all_kept [] own = (tt, tt)
    all_kept (l ∷ ls) (o, dis, own) =
        let here = own_kept l.0 l.1 o in
        let rest = all_kept ls own in
        ((here.0, disjoint_kept l.0 l.1 ls o own dis, rest.0), (here.1, rest.1))

    -- A spawn with room for the task and its stack.
    pub spawn-Stacked :
        (y' : System) × (spawn entry name y ≡ some (some slot, y'))
        × (y'.scheduler ≡ spawned y.scheduler slot (y.heap.base + span p.before + header_size) name)
        × Stacked (blocks_after p) y' ((slot, entry) ∷ ms)
    spawn-Stacked =
        let all = all_kept ms s.own in
        (
          made,
          ran,
          refl,
          record {
            ready = s.ready;
            heap = given.2;
            coalesced = given.3;
            own = (own_new, all.1, all.0);
          },
        )
