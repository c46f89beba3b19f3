-- ===== src/Devices/Idt.antt =====
-- src/src/classes/idt.class.h: `System::IDT`, the table of interrupt gates.
use shiro.Base.{
  ℕ, zero, suc, ◌+◌, ◌*◌, ◌/◌, ◌%◌, ◌^◌, ◌<◌, ◌≤◌, ◌≡◌, refl, ◌∙◌, true, false, List, length, set,
  get_or, replicate, get_or-set_self, get_or-set_ne, length-set, ltb, ◌==◌, ==_iff, if◌then◌else◌,
  arith, Bool-cases, inl, inr,
}

-- `idt_entry_t`.
pub record Gate : Type 0 where
  pub base_lo : ℕ
  pub sel : ℕ
  pub always0 : ℕ
  pub flags : ℕ
  pub base_hi : ℕ

abbrev pub zero_gate : Gate
zero_gate = record { base_lo = 0; sel = 0; always0 = 0; flags = 0; base_hi = 0 }

-- `IDT::SetGate`.
unfoldable pub gate_of : ℕ → ℕ → ℕ → Gate
gate_of base sel flags = record {
  base_lo = base % 2 ^ 16;
  sel = sel;
  always0 = 0;
  flags = flags;
  base_hi = base / 2 ^ 16 % 2 ^ 16;
}

unfoldable pub set_gate : List Gate → ℕ → ℕ → ℕ → ℕ → List Gate
set_gate entries num base sel flags = set entries num (gate_of base sel flags)

-- The calls of `SetGate` in `IDT::Start`, for vectors `from` to `from + n - 1`. The address of each
-- assembly stub `isr0`, `isr1`, … is an argument.
unfoldable pub install : (ℕ → ℕ) → ℕ → ℕ → List Gate → List Gate
install stub zero num entries = entries
install stub (suc n) num entries =
    install stub n (num + 1) (set_gate entries num (stub num) 0x08 0x8E)

-- `IDT::Start`: 256 zeroed gates, of which 48 are set.
unfoldable pub start : (ℕ → ℕ) → List Gate
start stub = install stub 48 0 (replicate 256 zero_gate)

-- What the processor jumps to.
abbrev pub target : Gate → ℕ
target g = g.base_lo + 2 ^ 16 * g.base_hi

length-install :
    (stub : ℕ → ℕ) (n num : ℕ) (entries : List Gate)
    → length (install stub n num entries) ≡ length entries
unfolding install set_gate
length-install stub zero num entries = refl
length-install stub (suc n) num entries =
    length-install stub n (num + 1) (set entries num (gate_of (stub num) 0x08 0x8E))
    ∙ length-set entries num (gate_of (stub num) 0x08 0x8E)

-- A gate that lies before the installed ones stays, and so does one behind.
install-outside :
    (stub : ℕ → ℕ) (n num v : ℕ) (entries : List Gate)
    → ltb v num ≡ true
    → get_or (install stub n num entries) v zero_gate ≡ get_or entries v zero_gate
unfolding install set_gate
install-outside stub zero num v entries h = refl
install-outside stub (suc n) num v entries h =
    install-outside stub n (num + 1) v (set entries num (gate_of (stub num) 0x08 0x8E))
      (ground arith)
    ∙ get_or-set_ne entries num v (gate_of (stub num) 0x08 0x8E) zero_gate (λ e. ground arith)

install-gate :
    (stub : ℕ → ℕ) (n num v : ℕ) (entries : List Gate)
    → num + n ≤ length entries
    → ltb v num ≡ false
    → get_or (install stub n num entries) v zero_gate
      ≡ (if ltb v (num + n) then gate_of (stub v) 0x08 0x8E else get_or entries v zero_gate)
unfolding install set_gate
install-gate stub zero num v entries fits h =
    let e : ltb v (num + 0) ≡ false = ground arith in rw e refl
install-gate stub (suc n) num v entries fits h =
    let g = gate_of (stub num) 0x08 0x8E in
    elim (Bool-cases (num == v)) [
      | inl q ↦
          let e : num ≡ v = (==_iff _ _).0 q in
          let t : ltb v (num + suc n) ≡ true = ground arith in
          install-outside stub n (num + 1) v (set entries num g) (ground arith)
          ∙ rw (t, e)
              (get_or-set_self entries v (gate_of (stub v) 0x08 0x8E) zero_gate (omega arith))
      | inr q ↦
          let r =
            install-gate stub n (num + 1) v (set entries num g)
              (omega (arith, length-set entries num g)) (ground arith) in
          let t : num + 1 + n ≡ num + suc n = omega arith in
          let k = get_or-set_ne entries num v g zero_gate (λ e. ground arith) in r ∙ rw (t, k) refl
    ]

get_or-replicate : (n v : ℕ) → get_or (replicate n zero_gate) v zero_gate ≡ zero_gate
get_or-replicate zero v = refl
get_or-replicate (suc n) zero = refl
get_or-replicate (suc n) (suc v) = get_or-replicate n v

-- After `Start` every one of the 256 vectors is as it should be: below 48 the gate goes to the stub
-- of the same number, in the kernel's code segment, as a present interrupt gate; from 48 on it is zero.
pub start-target :
    (stub : ℕ → ℕ) (v : ℕ)
    → stub v < 2 ^ 32
    → let g = get_or (start stub) v zero_gate in
      (target g ≡ (if ltb v 48 then stub v else 0))
      × (g.sel ≡ (if ltb v 48 then 0x08 else 0))
      × (g.flags ≡ (if ltb v 48 then 0x8E else 0))
      × (g.always0 ≡ 0)
unfolding start gate_of
start-target stub v small =
    let e = install-gate stub 48 0 v (replicate 256 zero_gate) (omega arith) (ground arith) in
    let z = get_or-replicate 256 v in
    elim (Bool-cases (ltb v 48)) [
      | inl y ↦ rw (e, y) (omega (arith, small), refl, refl, refl)
      | inr n ↦ rw (e, n, z) (refl, refl, refl, refl)
    ]
