-- ===== src/Machine/Execute/Frame.antt =====
-- machine/mipssim.cc, `Machine::OneInstruction`: every case of the `switch` keeps to the registers
-- of the program.
use cmps.Prelude.{
  ℕ, ◌/◌, ◌%◌, ◌<◌, Bool, true, false, Option, none, some, arith, ◌==◌, Bool-cases, inl, inr, ◌>>=◌,
}
use cmps.Machine.State.{
  Machine, ExceptionType, write_register, overflow_exception, syscall_exception,
  illegal_instr_exception,
}
use cmps.Prelude.{◌+◌, ◌-◌, ◌^◌, ◌≡◌, refl}
use cmps.Prelude.Bits.{u32}
use cmps.Machine.Memory.Frame.{IsBuilt}
use cmps.Machine.Alu.{divide_signed}
use cmps.Machine.Instruction.{
  OpCode, Instruction, op_add, op_addi, op_addiu, op_addu, op_and, op_andi, op_beq, op_bgezal,
  op_bgez, op_bgtz, op_blez, op_bltzal, op_bltz, op_bne, op_div, op_divu, op_jal, op_j, op_jalr,
  op_jr, op_lb, op_lbu, op_lh, op_lhu, op_lui, op_lw, op_lwl, op_lwr, op_mfhi, op_mflo, op_mthi,
  op_mtlo, op_mult, op_multu, op_nor, op_or, op_ori, op_sb, op_sh, op_sll, op_sllv, op_slt, op_slti,
  op_sltiu, op_sltu, op_sra, op_srav, op_srl, op_srlv, op_sub, op_subu, op_sw, op_swl, op_swr,
  op_syscall, op_xor, op_xori, op_res, op_unimp, op_rfe, special, bcond,
}
use cmps.Machine.Instruction.Handled.{is_handled}
use cmps.Machine.Outcome.{completed}
use cmps.Machine.Outcome.Frame.{Framed, stopped, framed, FramedResult, Agrees-write_register}
use cmps.Machine.LoadStore.{merge_lwl, merge_lwr, merge_swl, merge_swr}
use cmps.Machine.LoadStore.Frame.{
  Unaligned, here, writing-FramedResult, load_byte-FramedResult, load_half-FramedResult,
  load_word-FramedResult, load_part-FramedResult, store_part-FramedResult,
}
use cmps.Machine.Execute.{
  write_lo_hi, execute_div, execute_divu, execute_mult, checked, execute_op, execute,
}

weaken : {r : ℕ} → r < 32 → r < 34
weaken h = omega arith

-- When a case of the `switch` ends the program: OP_LWL, OP_LWR, OP_SWL and OP_SWR assert that the
-- address is aligned, and the quotient of the least `int` by -1 is not an `int`.
abbrev pub Refuses : OpCode → (ℕ → ℕ) → Instruction → Type 0
Refuses op_lwl registers i = Unaligned (u32 (registers i.rs + i.extra))
Refuses op_lwr registers i = Unaligned (u32 (registers i.rs + i.extra))
Refuses op_swl registers i = Unaligned (u32 (registers i.rs + i.extra))
Refuses op_swr registers i = Unaligned (u32 (registers i.rs + i.extra))
Refuses op_div registers i = (registers i.rs ≡ 2 ^ 31) × (registers i.rt ≡ 2 ^ 32 - 1)
Refuses _ registers i = ⊥

divide_signed-Refuses : (a b : ℕ) → divide_signed a b ≡ none → (a ≡ 2 ^ 31) × (b ≡ 2 ^ 32 - 1)
unfolding divide_signed
divide_signed-Refuses a b h = ground (arith, h)

module _ (handler : ExceptionType → Machine → Machine) (m : Machine) (b : IsBuilt m) where
  result-Framed :
      (num value pc : ℕ)
      → num < 34
      → Framed handler m (completed (write_register m num value) pc 0 0)
  result-Framed num value pc low =
      framed (Agrees-write_register num value low (here handler m b)) (omega arith)

  write_lo_hi-Framed : (lo hi pc : ℕ) → Framed handler m (completed (write_lo_hi m lo hi) pc 0 0)
  write_lo_hi-Framed lo hi pc =
      framed
        (Agrees-write_register 32 hi (omega arith)
          (Agrees-write_register 33 lo (omega arith) (here handler m b)))
        (omega arith)

  checked-FramedResult :
      (overflows : Bool) (num value pc : ℕ)
      → num < 34
      → FramedResult handler m ⊥ (checked handler m overflows num value pc)
  unfolding checked
  checked-FramedResult true num value pc low = stopped overflow_exception m 0 (here handler m b)
  checked-FramedResult false num value pc low = result-Framed num value pc low

  execute_div-FramedResult :
      (x y pc : ℕ) → FramedResult handler m ((x ≡ 2 ^ 31) × (y ≡ 2 ^ 32 - 1)) (execute_div m x y pc)
  unfolding execute_div
  execute_div-FramedResult x y pc = elim (Bool-cases (y == 0)) [
    | inl by_zero ↦ rw by_zero (write_lo_hi-Framed 0 0 pc)
    | inr divides ↦ rw divides (divided (divide_signed x y) refl)
  ]
    where
      divided :
          (r : Option (ℕ × ℕ))
          → divide_signed x y ≡ r
          → FramedResult handler m
              ((x ≡ 2 ^ 31) × (y ≡ 2 ^ 32 - 1))
              (r >>= λ (q, s). some (completed (write_lo_hi m q s) pc 0 0))
      divided none e = divide_signed-Refuses x y e
      divided (some (q, s)) e = write_lo_hi-Framed q s pc

  execute_divu-FramedResult : (x y pc : ℕ) → FramedResult handler m ⊥ (execute_divu m x y pc)
  unfolding execute_divu
  execute_divu-FramedResult x y pc = elim (Bool-cases (y == 0)) [
    | inl by_zero ↦ rw by_zero (write_lo_hi-Framed 0 0 pc)
    | inr divides ↦ rw divides (write_lo_hi-Framed (x / y) (x % y) pc)
  ]

  execute_op-FramedResult :
      (op : OpCode) (i : Instruction) (pc : ℕ)
      → is_handled op ≡ true
      → i.rt < 32
      → i.rd < 32
      → FramedResult handler m
          (Refuses op m.registers i)
          (execute_op handler op m i (m.registers i.rs) (m.registers i.rt) pc)
  unfolding execute_op execute_mult
  execute_op-FramedResult op_add i pc h rt rd = checked-FramedResult _ _ _ _ (weaken rd)
  execute_op-FramedResult op_addi i pc h rt rd = checked-FramedResult _ _ _ _ (weaken rt)
  execute_op-FramedResult op_addiu i pc h rt rd = result-Framed _ _ _ (weaken rt)
  execute_op-FramedResult op_addu i pc h rt rd = result-Framed _ _ _ (weaken rd)
  execute_op-FramedResult op_and i pc h rt rd = result-Framed _ _ _ (weaken rd)
  execute_op-FramedResult op_andi i pc h rt rd = result-Framed _ _ _ (weaken rt)
  execute_op-FramedResult op_beq i pc h rt rd = framed (here handler m b) (omega arith)
  execute_op-FramedResult op_bgezal i pc h rt rd =
      framed (Agrees-write_register 31 _ (omega arith) (here handler m b)) (omega arith)
  execute_op-FramedResult op_bgez i pc h rt rd = framed (here handler m b) (omega arith)
  execute_op-FramedResult op_bgtz i pc h rt rd = framed (here handler m b) (omega arith)
  execute_op-FramedResult op_blez i pc h rt rd = framed (here handler m b) (omega arith)
  execute_op-FramedResult op_bltzal i pc h rt rd =
      framed (Agrees-write_register 31 _ (omega arith) (here handler m b)) (omega arith)
  execute_op-FramedResult op_bltz i pc h rt rd = framed (here handler m b) (omega arith)
  execute_op-FramedResult op_bne i pc h rt rd = framed (here handler m b) (omega arith)
  execute_op-FramedResult op_div i pc h rt rd =
      execute_div-FramedResult (m.registers i.rs) (m.registers i.rt) pc
  execute_op-FramedResult op_divu i pc h rt rd =
      execute_divu-FramedResult (m.registers i.rs) (m.registers i.rt) pc
  execute_op-FramedResult op_jal i pc h rt rd =
      framed (Agrees-write_register 31 _ (omega arith) (here handler m b)) (omega arith)
  execute_op-FramedResult op_j i pc h rt rd = framed (here handler m b) (omega arith)
  execute_op-FramedResult op_jalr i pc h rt rd =
      framed (Agrees-write_register i.rd _ (weaken rd) (here handler m b)) (omega arith)
  execute_op-FramedResult op_jr i pc h rt rd = framed (here handler m b) (omega arith)
  execute_op-FramedResult op_lb i pc h rt rd = load_byte-FramedResult handler m b i true pc rt
  execute_op-FramedResult op_lbu i pc h rt rd = load_byte-FramedResult handler m b i false pc rt
  execute_op-FramedResult op_lh i pc h rt rd = load_half-FramedResult handler m b i true pc rt
  execute_op-FramedResult op_lhu i pc h rt rd = load_half-FramedResult handler m b i false pc rt
  execute_op-FramedResult op_lui i pc h rt rd = result-Framed _ _ _ (weaken rt)
  execute_op-FramedResult op_lw i pc h rt rd = load_word-FramedResult handler m b i pc rt
  execute_op-FramedResult op_lwl i pc h rt rd = load_part-FramedResult handler m b merge_lwl i pc rt
  execute_op-FramedResult op_lwr i pc h rt rd = load_part-FramedResult handler m b merge_lwr i pc rt
  execute_op-FramedResult op_mfhi i pc h rt rd = result-Framed _ _ _ (weaken rd)
  execute_op-FramedResult op_mflo i pc h rt rd = result-Framed _ _ _ (weaken rd)
  execute_op-FramedResult op_mthi i pc h rt rd = result-Framed _ _ _ (omega arith)
  execute_op-FramedResult op_mtlo i pc h rt rd = result-Framed _ _ _ (omega arith)
  execute_op-FramedResult op_mult i pc h rt rd = write_lo_hi-Framed _ _ pc
  execute_op-FramedResult op_multu i pc h rt rd = write_lo_hi-Framed _ _ pc
  execute_op-FramedResult op_nor i pc h rt rd = result-Framed _ _ _ (weaken rd)
  execute_op-FramedResult op_or i pc h rt rd = result-Framed _ _ _ (weaken rd)
  execute_op-FramedResult op_ori i pc h rt rd = result-Framed _ _ _ (weaken rt)
  execute_op-FramedResult op_sb i pc h rt rd = writing-FramedResult handler m b _ _ _ pc (inl refl)
  execute_op-FramedResult op_sh i pc h rt rd =
      writing-FramedResult handler m b _ _ _ pc (inr (inl refl))
  execute_op-FramedResult op_sll i pc h rt rd = result-Framed _ _ _ (weaken rd)
  execute_op-FramedResult op_sllv i pc h rt rd = result-Framed _ _ _ (weaken rd)
  execute_op-FramedResult op_slt i pc h rt rd = result-Framed _ _ _ (weaken rd)
  execute_op-FramedResult op_slti i pc h rt rd = result-Framed _ _ _ (weaken rt)
  execute_op-FramedResult op_sltiu i pc h rt rd = result-Framed _ _ _ (weaken rt)
  execute_op-FramedResult op_sltu i pc h rt rd = result-Framed _ _ _ (weaken rd)
  execute_op-FramedResult op_sra i pc h rt rd = result-Framed _ _ _ (weaken rd)
  execute_op-FramedResult op_srav i pc h rt rd = result-Framed _ _ _ (weaken rd)
  execute_op-FramedResult op_srl i pc h rt rd = result-Framed _ _ _ (weaken rd)
  execute_op-FramedResult op_srlv i pc h rt rd = result-Framed _ _ _ (weaken rd)
  execute_op-FramedResult op_sub i pc h rt rd = checked-FramedResult _ _ _ _ (weaken rd)
  execute_op-FramedResult op_subu i pc h rt rd = result-Framed _ _ _ (weaken rd)
  execute_op-FramedResult op_sw i pc h rt rd =
      writing-FramedResult handler m b _ _ _ pc (inr (inr refl))
  execute_op-FramedResult op_swl i pc h rt rd = store_part-FramedResult handler m b merge_swl i pc
  execute_op-FramedResult op_swr i pc h rt rd = store_part-FramedResult handler m b merge_swr i pc
  execute_op-FramedResult op_syscall i pc h rt rd = stopped syscall_exception m 0 (here handler m b)
  execute_op-FramedResult op_xor i pc h rt rd = result-Framed _ _ _ (weaken rd)
  execute_op-FramedResult op_xori i pc h rt rd = result-Framed _ _ _ (weaken rt)
  execute_op-FramedResult op_res i pc h rt rd =
      stopped illegal_instr_exception m 0 (here handler m b)
  execute_op-FramedResult op_unimp i pc h rt rd =
      stopped illegal_instr_exception m 0 (here handler m b)
  execute_op-FramedResult op_rfe i pc h rt rd = cc
  execute_op-FramedResult special i pc h rt rd = cc
  execute_op-FramedResult bcond i pc h rt rd = cc

  -- Whatever the operation, the execution raises an exception or completes without writing one of
  -- the registers that the simulator keeps for itself, but where it ends the program.
  pub execute-FramedResult :
      (i : Instruction)
      → is_handled i.op_code ≡ true
      → i.rt < 32
      → i.rd < 32
      → FramedResult handler m (Refuses i.op_code m.registers i) (execute handler m i)
  unfolding execute
  execute-FramedResult i h rt rd = execute_op-FramedResult i.op_code i _ h rt rd
