-- ===== src/Machine/Execute.antt =====
-- machine/mipssim.cc, `Machine::OneInstruction`: the `switch` over the operations.
pub mod Frame
use Prim.Native.Nat.{bit_and, bit_or, bit_xor}
use cmps.Prelude.{ℕ, ◌+◌, ◌-◌, ◌/◌, ◌%◌, Bool, true, false, not, ◌&&◌, ◌||◌, Option, none, some}
use cmps.Prelude.{ltb, ◌==◌, if◌then◌else◌, ◌>>=◌}
use cmps.Prelude.Bits.{u32, not_u32}
use cmps.Machine.State.{Machine, ExceptionType, overflow_exception, syscall_exception}
use cmps.Machine.State.{
  illegal_instr_exception, write_register, ret_addr_reg, hi_reg, lo_reg, next_pc_reg,
}
use cmps.Machine.Alu.{
  add_overflows, sub_word, sub_overflows, signed_bit, less_signed, shift_left, shift_right,
  divide_signed, index_to_addr,
}
use cmps.Machine.Mult.{mult}
use cmps.Machine.Instruction.{
  OpCode, Instruction, op_add, op_addi, op_addiu, op_addu, op_and, op_andi, op_beq, op_bgezal,
  op_bgez, op_bgtz, op_blez, op_bltzal, op_bltz, op_bne, op_div, op_divu, op_jal, op_j, op_jalr,
  op_jr, op_lb, op_lbu, op_lh, op_lhu, op_lui, op_lw, op_lwl, op_lwr, op_mfhi, op_mflo, op_mthi,
  op_mtlo, op_mult, op_multu, op_nor, op_or, op_ori, op_sb, op_sh, op_sll, op_sllv, op_slt, op_slti,
  op_sltiu, op_sltu, op_sra, op_srav, op_srl, op_srlv, op_sub, op_subu, op_sw, op_swl, op_swr,
  op_syscall, op_xor, op_xori, op_res, op_unimp, op_rfe, special, bcond,
}
use cmps.Machine.Outcome.{Outcome, completed, result_in, branch, raised}
use cmps.Machine.LoadStore.{
  address, load_byte, load_half, load_word, load_part, store_part, writing, merge_lwl, merge_lwr,
  merge_swl, merge_swr,
}

-- `registers[LoReg] = lo; registers[HiReg] = hi;`
abbrev pub write_lo_hi : Machine → ℕ → ℕ → Machine
write_lo_hi m lo hi = write_register (write_register m lo_reg lo) hi_reg hi

-- OP_DIV and OP_DIVU on the values of rs and rt.
pub execute_div : Machine → ℕ → ℕ → ℕ → Option Outcome
execute_div m a b pc_after =
    if b == 0
    then some (completed (write_lo_hi m 0 0) pc_after 0 0)
    else (do (q, r) ← divide_signed a b; some (completed (write_lo_hi m q r) pc_after 0 0))

pub execute_divu : Machine → ℕ → ℕ → ℕ → Option Outcome
execute_divu m a b pc_after =
    if b == 0
    then some (completed (write_lo_hi m 0 0) pc_after 0 0)
    else some (completed (write_lo_hi m (a / b) (a % b)) pc_after 0 0)

pub execute_mult : Machine → ℕ → ℕ → Bool → ℕ → Option Outcome
execute_mult m a b signed_arith pc_after =
    let r = mult a b signed_arith in some (completed (write_lo_hi m r.lo r.hi) pc_after 0 0)

-- `registers[num] = registers[NextPCReg] + 4`
abbrev pub link : Machine → ℕ → Machine
link m num = write_register m num (u32 (m.registers next_pc_reg + 4))

-- OP_J: `pcAfter = (pcAfter & 0xf0000000) | IndexToAddr(instr->extra)`
abbrev pub jump_target : ℕ → ℕ → ℕ
jump_target pc_after extra = bit_or (bit_and pc_after 4026531840) (index_to_addr extra)

abbrev pub as_bit : Bool → ℕ
as_bit b = if b then 1 else 0

module _ (handler : ExceptionType → Machine → Machine) where
  -- An addition or subtraction that raises an exception on overflow.
  pub checked : Machine → Bool → ℕ → ℕ → ℕ → Option Outcome
  checked m overflows num value pc_after =
      if overflows then raised handler m overflow_exception 0 else result_in m num value pc_after

  -- `pc_after` is `registers[NextPCReg] + 4`.
  pub execute_op : OpCode → Machine → Instruction → ℕ → ℕ → ℕ → Option Outcome
  unfolding checked execute_div execute_divu execute_mult
  execute_op op_add m i s t pc =
      let sum = u32 (s + t) in checked m (add_overflows s t s sum) i.rd sum pc
  execute_op op_addi m i s t pc =
      let sum = u32 (s + i.extra) in checked m (add_overflows s i.extra i.extra sum) i.rt sum pc
  execute_op op_addiu m i s t pc = result_in m i.rt (u32 (s + i.extra)) pc
  execute_op op_addu m i s t pc = result_in m i.rd (u32 (s + t)) pc
  execute_op op_and m i s t pc = result_in m i.rd (bit_and s t) pc
  execute_op op_andi m i s t pc = result_in m i.rt (bit_and s (bit_and i.extra 65535)) pc
  execute_op op_beq m i s t pc = branch m (s == t) i.extra pc
  execute_op op_bgezal m i s t pc =
      let m1 = link m ret_addr_reg in branch m1 (not (signed_bit (m1.registers i.rs))) i.extra pc
  execute_op op_bgez m i s t pc = branch m (not (signed_bit s)) i.extra pc
  execute_op op_bgtz m i s t pc = branch m (less_signed 0 s) i.extra pc
  execute_op op_blez m i s t pc = branch m (not (less_signed 0 s)) i.extra pc
  execute_op op_bltzal m i s t pc =
      let m1 = link m ret_addr_reg in branch m1 (signed_bit (m1.registers i.rs)) i.extra pc
  execute_op op_bltz m i s t pc = branch m (signed_bit s) i.extra pc
  execute_op op_bne m i s t pc = branch m (not (s == t)) i.extra pc
  execute_op op_div m i s t pc = execute_div m s t pc
  execute_op op_divu m i s t pc = execute_divu m s t pc
  execute_op op_jal m i s t pc = some (completed (link m ret_addr_reg) (jump_target pc i.extra) 0 0)
  execute_op op_j m i s t pc = some (completed m (jump_target pc i.extra) 0 0)
  execute_op op_jalr m i s t pc =
      let m1 = link m i.rd in some (completed m1 (m1.registers i.rs) 0 0)
  execute_op op_jr m i s t pc = some (completed m s 0 0)
  execute_op op_lb m i s t pc = load_byte handler m i true pc
  execute_op op_lbu m i s t pc = load_byte handler m i false pc
  execute_op op_lh m i s t pc = load_half handler m i true pc
  execute_op op_lhu m i s t pc = load_half handler m i false pc
  execute_op op_lui m i s t pc = result_in m i.rt (shift_left i.extra 16) pc
  execute_op op_lw m i s t pc = load_word handler m i pc
  execute_op op_lwl m i s t pc = load_part handler merge_lwl m i pc
  execute_op op_lwr m i s t pc = load_part handler merge_lwr m i pc
  execute_op op_mfhi m i s t pc = result_in m i.rd (m.registers hi_reg) pc
  execute_op op_mflo m i s t pc = result_in m i.rd (m.registers lo_reg) pc
  execute_op op_mthi m i s t pc = result_in m hi_reg s pc
  execute_op op_mtlo m i s t pc = result_in m lo_reg s pc
  execute_op op_mult m i s t pc = execute_mult m s t true pc
  execute_op op_multu m i s t pc = execute_mult m s t false pc
  execute_op op_nor m i s t pc = result_in m i.rd (not_u32 (bit_or s t)) pc
  -- The code takes the first register twice.
  execute_op op_or m i s t pc = result_in m i.rd (bit_or s s) pc
  execute_op op_ori m i s t pc = result_in m i.rt (bit_or s (bit_and i.extra 65535)) pc
  execute_op op_sb m i s t pc = writing handler m (address m i) 1 t pc
  execute_op op_sh m i s t pc = writing handler m (address m i) 2 t pc
  execute_op op_sll m i s t pc = result_in m i.rd (shift_left t i.extra) pc
  execute_op op_sllv m i s t pc = result_in m i.rd (shift_left t (bit_and s 31)) pc
  execute_op op_slt m i s t pc = result_in m i.rd (as_bit (less_signed s t)) pc
  execute_op op_slti m i s t pc = result_in m i.rt (as_bit (less_signed s i.extra)) pc
  execute_op op_sltiu m i s t pc = result_in m i.rt (as_bit (ltb s i.extra)) pc
  execute_op op_sltu m i s t pc = result_in m i.rd (as_bit (ltb s t)) pc
  execute_op op_sra m i s t pc = result_in m i.rd (shift_right t i.extra) pc
  execute_op op_srav m i s t pc = result_in m i.rd (shift_right t (bit_and s 31)) pc
  -- `tmp` is an `int`: the sign comes in here too.
  execute_op op_srl m i s t pc = result_in m i.rd (shift_right t i.extra) pc
  execute_op op_srlv m i s t pc = result_in m i.rd (shift_right t (bit_and s 31)) pc
  execute_op op_sub m i s t pc =
      let diff = sub_word s t in checked m (sub_overflows s t diff) i.rd diff pc
  execute_op op_subu m i s t pc = result_in m i.rd (sub_word s t) pc
  execute_op op_sw m i s t pc = writing handler m (address m i) 4 t pc
  execute_op op_swl m i s t pc = store_part handler merge_swl m i pc
  execute_op op_swr m i s t pc = store_part handler merge_swr m i pc
  execute_op op_syscall m i s t pc = raised handler m syscall_exception 0
  execute_op op_xor m i s t pc = result_in m i.rd (bit_xor s t) pc
  execute_op op_xori m i s t pc = result_in m i.rt (bit_xor s (bit_and i.extra 65535)) pc
  execute_op op_res m i s t pc = raised handler m illegal_instr_exception 0
  execute_op op_unimp m i s t pc = raised handler m illegal_instr_exception 0
  -- `default: ASSERT(FALSE)`
  execute_op op_rfe m i s t pc = none
  execute_op special m i s t pc = none
  execute_op bcond m i s t pc = none

  -- The `switch`, with `registers[instr->rs]` and `registers[instr->rt]`.
  pub execute : Machine → Instruction → Option Outcome
  unfolding execute_op
  execute m i =
      execute_op i.op_code m i (m.registers i.rs) (m.registers i.rt)
        (u32 (m.registers next_pc_reg + 4))
