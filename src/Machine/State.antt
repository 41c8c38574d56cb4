-- ===== src/Machine/State.antt =====
-- machine/machine.h and machine/translate.h: registers, main memory and translation tables.
-- An `int` is its 32-bit pattern and a `char` its 8-bit pattern. `none` is a failed ASSERT or an
-- access outside an array.
use cmps.Prelude.{ℕ, ◌*◌, Bool, Option, List, ◌==◌, if◌then◌else◌}

abbrev pub page_size : ℕ
page_size = 256

abbrev pub num_phys_pages : ℕ
num_phys_pages = 32

abbrev pub memory_size : ℕ
memory_size = num_phys_pages * page_size

abbrev pub tlb_size : ℕ
tlb_size = 4

pub data ExceptionType : Type 0 where
  no_exception syscall_exception page_fault_exception read_only_exception : ExceptionType
  bus_error_exception address_error_exception overflow_exception : ExceptionType
  illegal_instr_exception num_exception_types : ExceptionType

-- `MachineStatus` of machine/interrupt.h
pub data MachineStatus : Type 0 where
  idle_mode system_mode user_mode : MachineStatus

-- `TranslationEntry`; `used` is the field `use`.
pub record TranslationEntry : Type 0 where
  pub virtual_page : ℕ
  pub physical_page : ℕ
  pub valid : Bool
  pub read_only : Bool
  pub used : Bool
  pub dirty : Bool

-- `status` is the mode that `interrupt->setStatus` keeps.
pub record Machine : Type 0 where
  pub main_memory : List ℕ
  pub registers : ℕ → ℕ
  pub tlb : Option (List TranslationEntry)
  pub page_table : Option (List TranslationEntry)
  pub page_table_size : ℕ
  pub status : MachineStatus

abbrev pub ret_addr_reg : ℕ
ret_addr_reg = 31

abbrev pub hi_reg : ℕ
hi_reg = 32

abbrev pub lo_reg : ℕ
lo_reg = 33

abbrev pub pc_reg : ℕ
pc_reg = 34

abbrev pub next_pc_reg : ℕ
next_pc_reg = 35

abbrev pub prev_pc_reg : ℕ
prev_pc_reg = 36

abbrev pub load_reg : ℕ
load_reg = 37

abbrev pub load_value_reg : ℕ
load_value_reg = 38

abbrev pub bad_vaddr_reg : ℕ
bad_vaddr_reg = 39

-- `registers[num] = value`
abbrev pub write_register : Machine → ℕ → ℕ → Machine
write_register m num value = record m { registers = λ r. if num == r then value else m.registers r }

-- `Machine::DelayedLoad`
unfoldable pub delayed_load : Machine → ℕ → ℕ → Machine
delayed_load m next_reg next_value =
    let m1 = write_register m (m.registers load_reg) (m.registers load_value_reg) in
    let m2 = write_register m1 load_reg next_reg in
    let m3 = write_register m2 load_value_reg next_value in write_register m3 0 0

-- `Machine::RaiseException`. What `ExceptionHandler` does is a parameter.
unfoldable pub raise_exception :
    (ExceptionType → Machine → Machine) → Machine → ExceptionType → ℕ → Machine
unfolding delayed_load
raise_exception handler m which bad_vaddr =
    let m1 = delayed_load (write_register m bad_vaddr_reg bad_vaddr) 0 0 in
    let m2 = handler which (record m1 { status = system_mode }) in record m2 { status = user_mode }
