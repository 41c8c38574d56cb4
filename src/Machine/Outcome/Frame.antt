-- ===== src/Machine/Outcome/Frame.antt =====
-- machine/mipssim.cc, `Machine::OneInstruction`: what every case of the `switch` leaves alone.
use cmps.Prelude.{ℕ, ◌<◌, ◌≤◌, ◌≡◌, ap, Option, none, some, arith}
use cmps.Machine.State.{Machine, ExceptionType, raise_exception, write_register}
use cmps.Machine.Outcome.{Outcome, returned, completed}

-- The registers for the program counters, the delayed load and the faulting address have not
-- changed.
pub record Agrees (m m1 : Machine) : Type 0 where
  pub agrees : (r : ℕ) → 34 ≤ r → m1.registers r ≡ m.registers r

module _ (handler : ExceptionType → Machine → Machine) (m : Machine) where
  -- An exception was raised, or the load to come is of a register of the program.
  pub data Framed : Outcome → Type 0 where
    stopped :
        (which : ExceptionType) (m1 : Machine) (bad_vaddr : ℕ)
        → Agrees m m1
        → Framed (returned (raise_exception handler m1 which bad_vaddr))
    framed :
        {m1 : Machine} {pc_after load value : ℕ}
        → Agrees m m1
        → load < 32
        → Framed (completed m1 pc_after load value)

  -- An assertion fails only if `Refused` is so.
  abbrev pub FramedResult : Type 0 → Option Outcome → Type 0
  FramedResult Refused none = Refused
  FramedResult Refused (some o) = Framed o

pub Agrees-same : {m m1 : Machine} → m1.registers ≡ m.registers → Agrees m m1
Agrees-same e = record { agrees = λ r h. ap (λ (f : ℕ → ℕ). f r) e }

pub Agrees-write_register :
    {m m1 : Machine} (num value : ℕ)
    → num < 34
    → Agrees m m1
    → Agrees m (write_register m1 num value)
Agrees-write_register num value low h = record { agrees = λ r le. ground (arith, h.agrees r le) }
