-- ===== src/Machine.antt =====
-- The simulated hardware, code/machine: the state of the MIPS machine, and its parts.
pub mod State
pub mod Translate
pub mod Memory
pub mod Mult
pub mod Instruction
pub mod Interrupt
pub mod Disk
pub mod Console
pub mod Alu
pub mod Outcome
pub mod LoadStore
pub mod Execute
pub mod Step
mod Tests
