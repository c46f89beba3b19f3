-- ===== src/Boot/Tasks.antt =====
-- Steps 3 and 5 of `shiro_main` in src/src/kernel.cpp, as far as they take memory: the two singletons
-- (`GetInstance` of src/src/classes/shiro.class.h and of src/src/classes/shell.class.h, `new` of
-- src/src/libs/new.h), and the background tasks. No interrupt comes between the spawns.
use mathlib.Core.Path.{subst}
use shiro.Heap
use shiro.Heap.{Heap, Memory, alloc, heap_size, header_size, round}
use shiro.Heap.Blocks.{Coalesced, span}
use shiro.Heap.Valid.{Represents, start-Represents}
use shiro.Heap.Contract.{round_up}
use shiro.Heap.Fill.{filled, left, hole, used_blocks, first_fit-filled, carve-filled, alloc-filled}
use shiro.Scheduler
use shiro.Scheduler.{Scheduler, System, spawn, find_slot, stack_size}
use shiro.Scheduler.Stacks.{Stacked, spawn-Stacked, blocks_after, spawned, round_stack}
use shiro.Timer.{Timer}
use shiro.Preempt.{Processor}
use shiro.Preempt.Switch.{IsSound}
use shiro.Boot.{get_instance}
use shiro.Tags.{Words}
use shiro.Base.{
  ℕ, ◌+◌, ◌-◌, ◌<◌, ◌≤◌, ◌≡◌, refl, true, false, inl, inr, List, [], ◌∷◌, ◌++◌, Option, some, ◌>>=◌,
  arith, codes, u32_mod, ap, ◌∙◌, sym,
}

-- The two calls of `shiro_main`, each the first one of its class.
unfoldable pub get_instances : ℕ → ℕ → Heap → Option Heap
unfolding get_instance
get_instances shiro_bytes shell_bytes h = do
  shiro_object ← get_instance shiro_bytes 0 h
  shell_object ← get_instance shell_bytes 0 shiro_object.1
  some shell_object.1

-- The addresses of the functions of the tasks.
pub record Functions : Type 0 where
  pub spinner : ℕ
  pub heartbeat : ℕ
  pub clock : ℕ
  pub statusbar : ℕ

-- Step 5. The slots are dropped, as in the source.
unfoldable pub spawn_tasks : Functions → System → Option System
spawn_tasks f y = do
  a ← spawn f.spinner (codes "spinner") y
  b ← spawn f.heartbeat (codes "heartbeat") a.1
  c ← spawn f.clock (codes "clock") b.1
  d ← spawn f.statusbar (codes "statusbar") c.1
  some d.1

-- The slots of the tasks, the last one first.
abbrev pub slots : Functions → List (ℕ × ℕ)
slots f = (4, f.statusbar) ∷ (3, f.clock) ∷ (2, f.heartbeat) ∷ (1, f.spinner) ∷ []

-- The kernel's task in its loop, before anything has interrupted it.
abbrev pub idle : Scheduler → Timer → Processor
idle s t = record {
  scheduler = s;
  timer = t;
  interrupts = true;
  unacknowledged = false;
  halted = false;
  in_handler = λ i. false;
}

-- A spawn from a heap with blocks of the sizes `ns`, by what it makes of the table and the blocks.
Next : List ℕ → ℕ → ℕ → List ℕ → System → Scheduler → List (ℕ × ℕ) → Type 0
Next ns slot entry name y t ms =
    (y' : System) × (spawn entry name y ≡ some (some slot, y'))
    × (q : ℕ) × (y'.scheduler ≡ spawned t slot q name)
    × Stacked (filled (ns ++ (stack_size ∷ []))) y' ((slot, entry) ∷ ms)

next :
    (ns : List ℕ) (slot entry : ℕ) (name : List ℕ) (y : System) (t : Scheduler) (ms : List (ℕ × ℕ))
    → header_size + 16 + stack_size < left ns
    → find_slot t.tasks 0 ≡ some slot
    → y.scheduler ≡ t
    → Stacked (filled ns) y ms
    → Next ns slot entry name y t ms
unfolding Next
next ns slot entry name y t ms wide room e st =
    let r = round_stack in
    let (y', ran, table, st') =
      spawn-Stacked (filled ns) y slot entry name (hole ns) ms st
        (ap (λ x. find_slot x.tasks 0) e ∙ room)
        (first_fit-filled ns (round stack_size) (omega (arith, wide, r))) in
    let after : blocks_after (hole ns) ≡ filled (ns ++ (stack_size ∷ [])) =
      carve-filled ns (round stack_size) (omega (arith, wide, r))
      ∙ ap (λ n. filled (ns ++ (n ∷ []))) r in
    (
      y',
      ran,
      y.heap.base + span (used_blocks ns) + header_size,
      table ∙ ap (λ x. spawned x slot (y.heap.base + span (used_blocks ns) + header_size) name) e,
      subst (λ bs. Stacked bs y' ((slot, entry) ∷ ms)) after st',
    )

-- The table after the four spawns, with the addresses of the stacks.
table : Scheduler → ℕ → ℕ → ℕ → ℕ → Scheduler
table s qa qb qc qd =
    spawned
      (spawned
        (spawned (spawned (Scheduler.start s) 1 qa (codes "spinner")) 2 qb (codes "heartbeat")) 3 qc
        (codes "clock"))
      4 qd (codes "statusbar")

idle-IsSound :
    (s : Scheduler) (t : Timer) (qa qb qc qd : ℕ)
    → s.in_preempt ≡ false
    → IsSound (idle (table s qa qb qc qd) t)
unfolding table Scheduler.start
idle-IsSound s t qa qb qc qd off = record {
  table = record { slots = refl; inside = omega arith };
  on = refl;
  kernel = refl;
  enabled = rw off refl;
  pending = sym off;
  preempted = inl (off, λ i. refl);
}

-- The spawns, after blocks of the sizes `n` and `k` were taken.
spawns-Stacked :
    (f : Functions) (s : Scheduler) (h : Heap) (w : Words) (n k : ℕ)
    → n + k ≤ 0x300000
    → Represents h (filled (n ∷ k ∷ []))
    → Coalesced (filled (n ∷ k ∷ []))
    → (y : System) × (spawn_tasks f (record { scheduler = Scheduler.start s; heap = h; mem = w })
        ≡ some y)
      × Stacked
          (filled (n ∷ k ∷ stack_size ∷ stack_size ∷ stack_size ∷ stack_size ∷ []))
          y
          (slots f)
      × (qa : ℕ) × (qb : ℕ) × (qc : ℕ) × (qd : ℕ) × (y.scheduler ≡ table s qa qb qc qd)
unfolding spawn_tasks Next Scheduler.start find_slot table
spawns-Stacked f s h w n k small r c =
    let y : System = record { scheduler = Scheduler.start s; heap = h; mem = w } in
    let st : Stacked (filled (n ∷ k ∷ [])) y [] = record {
      ready = refl;
      heap = r;
      coalesced = c;
      own = tt;
    } in
    let (a, ran_a, qa, ea, sa) =
      next (n ∷ k ∷ []) 1 f.spinner (codes "spinner") y (Scheduler.start s) [] (omega arith) refl
        refl st in
    let (b, ran_b, qb, eb, sb) =
      next (n ∷ k ∷ stack_size ∷ []) 2 f.heartbeat (codes "heartbeat") a _ _ (omega arith) refl ea
        sa in
    let (c, ran_c, qc, ec, sc) =
      next (n ∷ k ∷ stack_size ∷ stack_size ∷ []) 3 f.clock (codes "clock") b _ _ (omega arith) refl
        eb sb in
    let (d, ran_d, qd, ed, sd) =
      next (n ∷ k ∷ stack_size ∷ stack_size ∷ stack_size ∷ []) 4 f.statusbar (codes "statusbar") c _
        _ (omega arith) refl ec sc in
    (d, rw (ran_a, ran_b, ran_c, ran_d) refl, sd, qa, qb, qc, qd, ed)

instances-filled :
    (m : Memory) (kernel_end hint n k : ℕ)
    → 0 < kernel_end
    → kernel_end < u32_mod - heap_size - 0x1000
    → hint < u32_mod - heap_size - 0x1000
    → n ≤ 0x100000
    → k ≤ 0x100000
    → (g : Heap) × (get_instances n k (Heap.start m kernel_end hint) ≡ some g)
      × Represents g (filled (round n ∷ round k ∷ []))
      × Coalesced (filled (round n ∷ round k ∷ []))
unfolding get_instances get_instance
instances-filled m kernel_end hint n k pos low low' hn hk =
    let start = (start-Represents m kernel_end hint pos low low').0 in
    let rn = round_up n (omega arith) in
    let rk = round_up k (omega arith) in
    let (a, ran_a, ra, ca, ba) = alloc-filled [] n start (inr tt, tt) (omega (arith, rn)) in
    let (b, ran_b, rb, cb, bb) = alloc-filled (round n ∷ []) k ra ca (omega (arith, rn, rk)) in
    (b, rw (ran_a, ran_b) refl, rb, cb)

-- The objects of the two singletons have at most 1 MiB each, and the heap that `Heap::Start` leaves ends
-- below 4 GiB. Then the allocations of the boot succeed, and all four spawns: the tasks get the slots
-- 1 to 4, each is ready on a stack of its own that holds the frame with which it enters its function,
-- no two stacks meet, and the heap stays well formed. With the flag of `PreemptiveYield` clear, the
-- kernel's loop starts in a sound state, whatever the timer shows.
pub spawn_tasks-Stacked :
    (f : Functions) (s : Scheduler) (m : Memory) (w : Words) (kernel_end hint n k : ℕ)
    → 0 < kernel_end
    → kernel_end < u32_mod - heap_size - 0x1000
    → hint < u32_mod - heap_size - 0x1000
    → n ≤ 0x100000
    → k ≤ 0x100000
    → s.in_preempt ≡ false
    → (g : Heap) × (get_instances n k (Heap.start m kernel_end hint) ≡ some g)
      × (y : System) × (spawn_tasks f (record { scheduler = Scheduler.start s; heap = g; mem = w })
          ≡ some y)
      × Stacked
          (filled (round n ∷ round k ∷ stack_size ∷ stack_size ∷ stack_size ∷ stack_size ∷ []))
          y
          (slots f)
      × ((t : Timer) → IsSound (idle y.scheduler t))
spawn_tasks-Stacked f s m w kernel_end hint n k pos low low' hn hk off =
    let (g, ran, r, c) = instances-filled m kernel_end hint n k pos low low' hn hk in
    let rn = round_up n (omega arith) in
    let rk = round_up k (omega arith) in
    let (y, ran', st, qa, qb, qc, qd, e) =
      spawns-Stacked f s g w (round n) (round k) (omega (arith, rn, rk)) r c in
    (
      g,
      ran,
      y,
      ran',
      st,
      λ t. subst (λ x. IsSound (idle x t)) (sym e) (idle-IsSound s t qa qb qc qd off),
    )
