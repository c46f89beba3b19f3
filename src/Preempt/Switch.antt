-- ===== src/Preempt/Switch.antt =====
-- A switch of tasks keeps the invariant of the timer's interrupt (src/src/classes/scheduler.class.h,
-- src/src/classes/timer.class.h, src/src/classes/isr.class.h).
use mathlib.Core.Path.{subst}
use shiro.Scheduler.{Scheduler, max_tasks}
use shiro.Scheduler.Turns.{IsTable}
use shiro.Scheduler.Yields.{Ready, Keeps}
use shiro.Preempt.{Processor, update, leave, resume, switch_to}
use shiro.Base.{
  ℕ, ◌<◌, ◌≡◌, ◌≢◌, refl, sym, ap, ◌∙◌, true, false, not, ◌⊎◌, inl, inr, ◌==◌, arith, Bool-cases,
  some, none,
}

-- No slot is suspended in the handler while the flag is clear. While it is set exactly one is, and not
-- the running one.
abbrev pub Preempted : Processor → Type 0
Preempted m =
    ((m.scheduler.in_preempt ≡ false) × ((i : ℕ) → m.in_handler i ≡ false))
    ⊎ ((t : ℕ) × (m.scheduler.in_preempt ≡ true)
        × (t < max_tasks)
        × (t ≢ m.scheduler.current)
        × ((i : ℕ) → m.in_handler i ≡ (i == t)))

-- The kernel's task is ready; interrupts are enabled, and the timer's is
-- acknowledged, exactly while the flag of `PreemptiveYield` is clear.
pub record IsSound (m : Processor) : Type 0 where
  pub table : IsTable m.scheduler
  pub on : m.scheduler.ready ≡ true
  pub kernel : Ready m.scheduler 0
  pub enabled : m.interrupts ≡ not m.scheduler.in_preempt
  pub pending : m.unacknowledged ≡ m.scheduler.in_preempt
  pub preempted : Preempted m

-- What a switch to `next` needs.
pub record Switches (m : Processor) (s : Scheduler) (next : ℕ) : Type 0 where
  pub table : IsTable s
  pub on : s.ready ≡ true
  pub kernel : Ready s 0
  pub at : s.current ≡ next
  pub other : next ≢ m.scheduler.current

eq-other : (i j : ℕ) → i ≢ j → (i == j) ≡ false
eq-other i j h = ground (arith, h)

pub resume-out : (next : ℕ) (m : Processor) → m.in_handler next ≡ false → resume next m ≡ m
unfolding resume
resume-out next m e = rw e refl

-- The state after the suspended handler has ended.
abbrev ended : ℕ → Processor → Processor
ended next m = leave (record m {
  scheduler = record m.scheduler { in_preempt = false };
  in_handler = update next false m.in_handler;
})

resume-in : (next : ℕ) (m : Processor) → m.in_handler next ≡ true → resume next m ≡ ended next m
unfolding resume
resume-in next m e = rw e refl

pub none_inside :
    (m : Processor) → IsSound m → m.scheduler.in_preempt ≡ false → (j : ℕ) → m.in_handler j ≡ false
none_inside m i off j = elim i.preempted [
  | inl (o, all) ↦ all j
  | inr (t, set, low, away, all) ↦ absurd (ground (arith, set, off))
]

module _ (m : Processor) (s : Scheduler) (next : ℕ) (i : IsSound m) (w : Switches m s next) where
  abbrev gone : Processor
  gone = record m { scheduler = s; in_handler = update m.scheduler.current false m.in_handler }

  -- The interrupted task is not resumed.
  out-IsSound : s.in_preempt ≡ m.scheduler.in_preempt → Preempted gone → IsSound gone
  out-IsSound flag p = record {
    table = w.table;
    on = w.on;
    kernel = w.kernel;
    enabled = i.enabled ∙ ap not (sym flag);
    pending = i.pending ∙ sym flag;
    preempted = p;
  }

  -- It is, and the handler ends.
  in-IsSound : ((j : ℕ) → m.in_handler j ≡ (j == next)) → IsSound (ended next gone)
  unfolding leave
  in-IsSound all = record {
    table = record { slots = w.table.slots; inside = w.table.inside };
    on = w.on;
    kernel = w.kernel;
    enabled = refl;
    pending = refl;
    preempted = inl (refl, λ j. ground (arith, all j));
  }

  -- A switch out of a call of `Yield` by a task.
  pub switch_to-IsSound :
      s.in_preempt ≡ m.scheduler.in_preempt
      → IsSound (switch_to false (s, some (m.scheduler.current, next)) m)
  unfolding switch_to
  switch_to-IsSound flag = elim i.preempted [
    | inl (off, all) ↦
        subst IsSound (sym (resume-out next gone (ground (arith, all next))))
          (out-IsSound flag (inl (flag ∙ off, λ j. ground (arith, all j))))
    | inr (t, set, low, away, all) ↦ elim (Bool-cases (next == t)) [
      | inl q ↦
          let e : t ≡ next = ground arith in
          subst IsSound (sym (resume-in next gone (ground (arith, all next, w.other, q))))
            (in-IsSound (subst (λ x. (j : ℕ) → m.in_handler j ≡ (j == x)) e all))
      | inr q ↦ subst IsSound (sym (resume-out next gone (ground (arith, all next, q)))) (
          out-IsSound flag (
            inr (
              t,
              flag ∙ set,
              low,
              (λ e. ground (arith, e, q, w.at)),
              λ j. ground (arith, all j, away),
            )))
    ]
  ]

  -- A switch out of the handler.
  pub preempt-IsSound :
      (e : Processor)
      → m.scheduler.in_preempt ≡ false
      → s.in_preempt ≡ true
      → e.in_handler ≡ m.in_handler
      → e.interrupts ≡ false
      → e.unacknowledged ≡ true
      → IsSound (switch_to true (s, some (m.scheduler.current, next)) e)
  unfolding switch_to
  preempt-IsSound e off set h en un =
      let all : (j : ℕ) → e.in_handler j ≡ false = λ j. ap (λ f. f j) h ∙ none_inside m i off j in
      let e1 = record e {
        scheduler = s;
        in_handler = update m.scheduler.current true e.in_handler;
      } in
      let inside : (j : ℕ) → e1.in_handler j ≡ (j == m.scheduler.current) =
        λ j. ground (arith, all j) in
      subst IsSound
        (sym (resume-out next e1 (inside next ∙ eq-other next m.scheduler.current w.other)))
        (record {
          table = w.table;
          on = w.on;
          kernel = w.kernel;
          enabled = en ∙ ap not (sym set);
          pending = un ∙ sym set;
          preempted =
              inr (
                m.scheduler.current,
                set,
                i.table.inside,
                (λ e'. w.other (sym (e' ∙ w.at))),
                inside,
              );
        })

-- A call that did not switch.
pub stay-IsSound :
    (m : Processor) (s : Scheduler)
    → IsSound m
    → Keeps m.scheduler (s, none)
    → IsSound (switch_to false (s, none) m)
unfolding switch_to
stay-IsSound m s i k = record {
  table = k.table;
  on = k.on;
  kernel = k.still 0 (omega arith) i.kernel;
  enabled = i.enabled ∙ ap not (sym k.flag);
  pending = i.pending ∙ sym k.flag;
  preempted = elim i.preempted [
    | inl (off, all) ↦ inl (k.flag ∙ off, all)
    | inr (t, set, low, away, all) ↦ inr (t, k.flag ∙ set, low, (λ e. away (e ∙ k.chosen)), all)
  ];
}
