-- ===== src/Machine/LoadStore.antt =====
-- machine/mipssim.cc, `Machine::OneInstruction`: the loads, which are delayed, and the stores.
pub mod Frame
use Prim.Native.Nat.{bit_and, bit_or}
use cmps.Prelude.{ℕ, ◌+◌, ◌-◌, ◌/◌, ◌%◌, ◌^◌, Bool, true, false, not, ◌&&◌, Option, none, some}
use cmps.Prelude.{◌==◌, if◌then◌else◌, ◌>>=◌, ◌>>◌, assert}
use cmps.Prelude.Bits.{u32}
use cmps.Machine.State.{Machine, ExceptionType, address_error_exception, load_reg, load_value_reg}
use cmps.Machine.Memory.{read_mem, write_mem}
use cmps.Machine.Alu.{shift_left}
use cmps.Machine.Instruction.{Instruction}
use cmps.Machine.Outcome.{Outcome, returned, completed, raised}

-- `tmp = registers[instr->rs] + instr->extra`
abbrev pub address : Machine → Instruction → ℕ
address m i = u32 (m.registers i.rs + i.extra)

-- OP_LB and OP_LBU: the sign goes along for the former.
pub extend_byte : Bool → ℕ → ℕ
extend_byte signed_load value =
    if not (bit_and value 128 == 0) && signed_load
    then bit_or value (2 ^ 32 - 2 ^ 8)
    else bit_and value 255

-- OP_LH and OP_LHU.
pub extend_half : Bool → ℕ → ℕ
extend_half signed_load value =
    if not (bit_and value (2 ^ 15) == 0) && signed_load
    then bit_or value (2 ^ 32 - 2 ^ 16)
    else bit_and value 65535

-- `registers[instr->rt]`, or the load of it that is still under way.
pub pending : Machine → ℕ → ℕ
pending m rt = if m.registers load_reg == rt then m.registers load_value_reg else m.registers rt

-- The `switch (tmp & 0x3)` of OP_LWL, OP_LWR, OP_SWL and OP_SWR.
pub merge_lwl : ℕ → ℕ → ℕ → ℕ
merge_lwl k old value =
    if k == 0
    then value
    else if k == 1
    then bit_or (bit_and old 255) (shift_left value 8)
    else if k == 2
    then bit_or (bit_and old 65535) (shift_left value 16)
    else bit_or (bit_and old (2 ^ 24 - 1)) (shift_left value 24)

pub merge_lwr : ℕ → ℕ → ℕ → ℕ
merge_lwr k old value =
    if k == 0
    then bit_or (bit_and old (2 ^ 32 - 2 ^ 8)) (value / 2 ^ 24)
    else if k == 1
    then bit_or (bit_and old (2 ^ 32 - 2 ^ 16)) (value / 2 ^ 16)
    else if k == 2
    then bit_or (bit_and old (2 ^ 32 - 2 ^ 24)) (value / 2 ^ 8)
    else value

pub merge_swl : ℕ → ℕ → ℕ → ℕ
merge_swl k value stored =
    if k == 0
    then stored
    else if k == 1
    then bit_or (bit_and value (2 ^ 32 - 2 ^ 24)) (stored / 2 ^ 8)
    else if k == 2
    then bit_or (bit_and value (2 ^ 32 - 2 ^ 16)) (stored / 2 ^ 16)
    else bit_or (bit_and value (2 ^ 32 - 2 ^ 8)) (stored / 2 ^ 24)

pub merge_swr : ℕ → ℕ → ℕ → ℕ
merge_swr k value stored =
    if k == 0
    then bit_or (bit_and value (2 ^ 24 - 1)) (shift_left stored 24)
    else if k == 1
    then bit_or (bit_and value 65535) (shift_left stored 16)
    else if k == 2
    then bit_or (bit_and value 255) (shift_left stored 8)
    else stored

module _ (handler : ExceptionType → Machine → Machine) where
  -- `if (!machine->ReadMem(addr, size, &value)) return;`, and what follows.
  pub reading : Machine → ℕ → ℕ → (Machine → ℕ → Option Outcome) → Option Outcome
  reading m addr size continue = do
    (value, m1) ← read_mem handler m addr size
    elim value [ none ↦ some (returned m1) | some v ↦ continue m1 v ]

  -- `if (!machine->WriteMem(addr, size, value)) return;`, and `break`.
  pub writing : Machine → ℕ → ℕ → ℕ → ℕ → Option Outcome
  writing m addr size value pc_after = do
    (ok, m1) ← write_mem handler m addr size value
    some (if ok then completed m1 pc_after 0 0 else returned m1)

  pub load_byte : Machine → Instruction → Bool → ℕ → Option Outcome
  unfolding reading
  load_byte m i signed_load pc_after =
      reading m (address m i) 1
        (λ m1 value. some (completed m1 pc_after i.rt (extend_byte signed_load value)))

  pub load_half : Machine → Instruction → Bool → ℕ → Option Outcome
  unfolding reading
  load_half m i signed_load pc_after =
      if not (bit_and (address m i) 1 == 0)
      then raised handler m address_error_exception (address m i)
      else reading m (address m i) 2
          (λ m1 value. some (completed m1 pc_after i.rt (extend_half signed_load value)))

  pub load_word : Machine → Instruction → ℕ → Option Outcome
  unfolding reading
  load_word m i pc_after =
      if not (bit_and (address m i) 3 == 0)
      then raised handler m address_error_exception (address m i)
      else reading m (address m i) 4 (λ m1 value. some (completed m1 pc_after i.rt value))

  -- OP_LWL and OP_LWR, which assert that the address is aligned.
  pub load_part : (ℕ → ℕ → ℕ → ℕ) → Machine → Instruction → ℕ → Option Outcome
  unfolding reading pending
  load_part merge m i pc_after = do
    let k = bit_and (address m i) 3
    assert (k == 0)
    reading m (address m i) 4
        (λ m1 value. some (completed m1 pc_after i.rt (merge k (pending m1 i.rt) value)))

  -- OP_SWL and OP_SWR. `tmp & ~0x3` is `tmp - (tmp & 0x3)`.
  pub store_part : (ℕ → ℕ → ℕ → ℕ) → Machine → Instruction → ℕ → Option Outcome
  unfolding reading writing
  store_part merge m i pc_after = do
    let k = bit_and (address m i) 3
    assert (k == 0)
    reading m (address m i - k) 4
        (λ m1 value. writing m1 (address m i - k) 4 (merge k value (m1.registers i.rt)) pc_after)
