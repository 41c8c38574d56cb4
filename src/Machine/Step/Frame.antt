-- ===== src/Machine/Step/Frame.antt =====
-- machine/mipssim.cc, `Machine::OneInstruction`: what every instruction does to the registers that
-- the simulator keeps for itself.
use cmps.Prelude.{ℕ, ◌<◌, ◌≡◌, refl, subst, inr, Option, none, some, arith, ◌>>=◌, ◌∙◌}
use cmps.Machine.State.{
  Machine, ExceptionType, raise_exception, delayed_load, pc_reg, next_pc_reg, prev_pc_reg, load_reg,
  load_value_reg,
}
use cmps.Machine.Memory.{read_mem}
use cmps.Machine.Memory.Frame.{IsBuilt, excepted, accessed, ReadResult, read_mem-ReadResult}
use cmps.Machine.Instruction.{decode}
use cmps.Machine.Instruction.Handled.{decode-handled}
use cmps.Machine.Outcome.{Outcome, returned, completed}
use cmps.Machine.Outcome.Frame.{Agrees, stopped, framed, FramedResult, Agrees-same}
use cmps.Machine.Execute.{execute}
use cmps.Machine.Execute.Frame.{Refuses, execute-FramedResult}
use cmps.Machine.Step.{advance, finish, one_instruction}

joined : {m m1 m2 : Machine} → Agrees m m1 → Agrees m1 m2 → Agrees m m2
joined a a' = record { agrees = λ r h. a'.agrees r h ∙ a.agrees r h }

-- What an instruction that completes does: the instruction after it is next, register 0 reads 0,
-- and the load of the instruction before it has arrived.
pub record Advanced (m m' : Machine) : Type 0 where
  pub pc_next : m'.registers pc_reg ≡ m.registers next_pc_reg
  pub prev_pc_kept : m'.registers prev_pc_reg ≡ m.registers pc_reg
  pub zero_kept : m'.registers 0 ≡ 0
  pub load_low : m'.registers load_reg < 32
  pub load_arrived :
      0 < m.registers load_reg → m'.registers (m.registers load_reg) ≡ m.registers load_value_reg

module _ (handler : ExceptionType → Machine → Machine) (m : Machine) where
  pub data Stepped : Machine → Type 0 where
    faulted :
        (which : ExceptionType) (m1 : Machine) (bad_vaddr : ℕ)
        → Agrees m m1
        → Stepped (raise_exception handler m1 which bad_vaddr)
    stepped : {m' : Machine} → Advanced m m' → Stepped m'

  -- The word at the program counter is read, and is one that ends the program.
  pub data Halted : Type 0 where
    halted :
        (value : ℕ) (m1 : Machine)
        → read_mem handler m (m.registers pc_reg) 4 ≡ some (some value, m1)
        → Refuses (decode value).op_code m.registers (decode value)
        → Halted

  -- `none` is for a machine that stops only.
  abbrev pub SteppedResult : Option Machine → Type 0
  SteppedResult none = Halted
  SteppedResult (some m') = Stepped m'

decode_rt : (value : ℕ) → (decode value).rt < 32
unfolding decode
decode_rt value = omega arith

decode_rd : (value : ℕ) → (decode value).rd < 32
unfolding decode
decode_rd value = omega arith

advance-Advanced :
    (m m1 : Machine) (load value pc_after : ℕ)
    → m.registers load_reg < 32
    → Agrees m m1
    → load < 32
    → Advanced m (advance (delayed_load m1 load value) pc_after)
unfolding advance delayed_load
advance-Advanced m m1 load value pc_after before a low = record {
  pc_next = ground (arith, a.agrees 37 (omega arith), a.agrees 35 (omega arith));
  prev_pc_kept = ground (arith, a.agrees 37 (omega arith), a.agrees 34 (omega arith));
  zero_kept = ground arith;
  load_low = ground arith;
  load_arrived =
      λ positive. ground (arith, positive, a.agrees 37 (omega arith), a.agrees 38 (omega arith));
}

-- On a machine with one table of the right size and 8192 bytes of memory, whose pending load is of a
-- register of the program: an instruction raises an exception, from a machine with the same program
-- counters and pending load; or completes; or stops the program, and then its word was read and is
-- an LWL, LWR, SWL or SWR of an address that is not aligned, or a division of the least `int` by -1.
-- When it completes, the program counter takes the value of the next program counter, so that the
-- instruction in the delay slot of a branch runs, the previous one is kept for the debugger,
-- register 0 reads 0, the load pending from the instruction before has arrived in its register and
-- the load pending now is of a register of the program again.
pub one_instruction-SteppedResult :
    (handler : ExceptionType → Machine → Machine) (m : Machine)
    → IsBuilt m
    → m.registers load_reg < 32
    → SteppedResult handler m (one_instruction handler m)
unfolding one_instruction finish
one_instruction-SteppedResult handler m built before =
    fetched (read_mem handler m (m.registers pc_reg) 4) refl
      (read_mem-ReadResult handler m (m.registers pc_reg) 4 built (inr (inr refl)))
  where
    finished :
        (m1 : Machine) (Refused : Type 0) (r : Option Outcome)
        → Agrees m m1
        → (Refused → Halted handler m)
        → FramedResult handler m1 Refused r
        → SteppedResult handler m (r >>= λ o. some (finish o))
    finished m1 Refused none a halts h = halts h
    finished m1 Refused (some (returned _)) a halts (stopped which m2 bad a') =
        faulted which m2 bad (joined a a')
    finished m1 Refused (some (completed m2 pc load value)) a halts (framed a' low) =
        stepped (advance-Advanced m m2 load value pc before (joined a a') low)

    fetched :
        (r : Option (Option ℕ × Machine))
        → read_mem handler m (m.registers pc_reg) 4 ≡ r
        → ReadResult handler m r
        → SteppedResult handler m (
            r >>= λ (raw, m1). elim raw [
              | none ↦ some m1
              | some value ↦ execute handler m1 (decode value) >>= λ outcome. some (finish outcome)
            ])
    fetched none e h = absurd h
    fetched (some (none, _)) e (excepted which m1 bad same) =
        faulted which m1 bad (Agrees-same same)
    fetched (some (some value, m1)) e (accessed same built1) =
        finished m1 (Refuses (decode value).op_code m1.registers (decode value))
          (execute handler m1 (decode value)) (Agrees-same same)
          (λ refused.
            halted value m1 e
              (subst (λ f. Refuses (decode value).op_code f (decode value)) same refused))
          (execute-FramedResult handler m1 built1 (decode value) (decode-handled value)
            (decode_rt value) (decode_rd value))
