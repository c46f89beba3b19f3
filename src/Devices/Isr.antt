-- ===== src/Devices/Isr.antt =====
-- src/src/classes/isr.class.h: `System::ISR`, where an interrupt goes.
use shiro.Base.{ℕ, ◌+◌, ◌-◌, ◌≡◌, List, [], ◌∷◌, ◌++◌, ltb, leb, ◌==◌, if◌then◌else◌, arith}
use shiro.Devices.Pic.{Writes, end_of_interrupt, pic1_cmd, pic2_cmd, pic_eoi}

-- What `ISR::Handler` does, in order.
pub data Action : Type 0 where
  panic : Action
  timer_handler : Action
  keyboard_handler : Action
  outb : ℕ → ℕ → Action

abbrev pub outbs : Writes → List Action
outbs [] = []
outbs (w ∷ ws) = outb w.0 w.1 ∷ outbs ws

-- The driver of an interrupt line.
abbrev pub device : ℕ → List Action
device irq = if irq == 0 then timer_handler ∷ [] else if irq == 1 then keyboard_handler ∷ [] else []

-- `ISR::Handler`, by the vector.
unfoldable pub handler : ℕ → List Action
handler int_no =
    if ltb int_no 32
    then panic ∷ []
    else if leb int_no 47
    then device (int_no - 32) ++ outbs (end_of_interrupt (int_no - 32))
    else outb pic1_cmd pic_eoi ∷ []

-- How often a chip's command port gets an end of interrupt.
abbrev pub is_ack : ℕ → Action → ℕ
is_ack port (outb p v) = if p == port then (if v == pic_eoi then 1 else 0) else 0
is_ack port a = 0

abbrev pub acks : ℕ → List Action → ℕ
acks port [] = 0
acks port (a ∷ rest) = is_ack port a + acks port rest

abbrev pub is_panic : Action → ℕ
is_panic panic = 1
is_panic a = 0

abbrev pub panics : List Action → ℕ
panics [] = 0
panics (a ∷ rest) = is_panic a + panics rest

-- Exceptions, and only they, panic, and they acknowledge nothing; every other vector is acknowledged
-- once at the master, and those of the slave's eight lines once at the slave too.
pub handler-acks :
    (v : ℕ)
    → (panics (handler v) ≡ (if ltb v 32 then 1 else 0))
      × (acks pic1_cmd (handler v) ≡ (if ltb v 32 then 0 else 1))
      × (acks pic2_cmd (handler v) ≡ (if leb 40 v then (if leb v 47 then 1 else 0) else 0))
unfolding handler end_of_interrupt
handler-acks v = ground arith
