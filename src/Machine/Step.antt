-- ===== src/Machine/Step.antt =====
-- machine/mipssim.cc, `Machine::OneInstruction`: one instruction is fetched, decoded and executed,
-- then the delayed load of the instruction before it is done and the program counters advance.
-- The trace that the debugging flag prints is left out.
pub mod Frame
use cmps.Prelude.{ℕ, ◌+◌, Option, none, some, ◌>>=◌}
use cmps.Prelude.Bits.{u32}
use cmps.Machine.State.{
  Machine, ExceptionType, write_register, delayed_load, pc_reg, next_pc_reg, prev_pc_reg,
}
use cmps.Machine.Memory.{read_mem}
use cmps.Machine.Instruction.{decode}
use cmps.Machine.Outcome.{Outcome, returned, completed}
use cmps.Machine.Execute.{execute}

-- `registers[PrevPCReg] = registers[PCReg]; registers[PCReg] = registers[NextPCReg];
-- registers[NextPCReg] = pcAfter;`
pub advance : Machine → ℕ → Machine
advance m pc_after =
    let m1 = write_register m prev_pc_reg (m.registers pc_reg) in
    let m2 = write_register m1 pc_reg (m1.registers next_pc_reg) in
    write_register m2 next_pc_reg pc_after

-- What follows the `switch`.
pub finish : Outcome → Machine
unfolding delayed_load advance
finish (returned m) = m
finish (completed m pc_after load value) = advance (delayed_load m load value) pc_after

-- `Machine::OneInstruction`. What `ExceptionHandler` does is a parameter.
pub one_instruction : (ExceptionType → Machine → Machine) → Machine → Option Machine
unfolding finish
one_instruction handler m = do
  (raw, m1) ← read_mem handler m (m.registers pc_reg) 4
  elim raw [
    | none ↦ some m1
    | some value ↦ do outcome ← execute handler m1 (decode value); some (finish outcome)
  ]
