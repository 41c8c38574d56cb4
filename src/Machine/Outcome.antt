-- ===== src/Machine/Outcome.antt =====
-- machine/mipssim.cc, `Machine::OneInstruction`: how the `switch` over the operations ends.
pub mod Frame
use cmps.Prelude.{ℕ, ◌+◌, Bool, true, false, Option, none, some, if◌then◌else◌}
use cmps.Prelude.Bits.{u32}
use cmps.Machine.State.{Machine, ExceptionType, raise_exception, write_register, next_pc_reg}
use cmps.Machine.Alu.{index_to_addr}

-- An early `return`, or the machine, `pcAfter`, `nextLoadReg` and `nextLoadValue` after a `break`.
pub data Outcome : Type 0 where
  returned : Machine → Outcome
  completed : Machine → ℕ → ℕ → ℕ → Outcome

-- A case that writes one register.
abbrev pub result_in : Machine → ℕ → ℕ → ℕ → Option Outcome
result_in m num value pc_after = some (completed (write_register m num value) pc_after 0 0)

-- `if (taken) pcAfter = registers[NextPCReg] + IndexToAddr(instr->extra);`
abbrev pub branch : Machine → Bool → ℕ → ℕ → Option Outcome
branch m taken extra pc_after =
    let target = u32 (m.registers next_pc_reg + index_to_addr extra) in
    some (completed m (if taken then target else pc_after) 0 0)

-- `RaiseException(which, badVAddr); return;`
abbrev pub raised :
    (ExceptionType → Machine → Machine) → Machine → ExceptionType → ℕ → Option Outcome
raised handler m which bad_vaddr = some (returned (raise_exception handler m which bad_vaddr))
