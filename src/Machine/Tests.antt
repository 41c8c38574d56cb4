-- ===== src/Machine/Tests.antt =====
-- machine: a machine with one mapped page.
use cmps.Prelude.{
  ◌≡◌, refl, inr, some, none, [], ◌∷◌, true, false, arith, replicate, set, ◌*◌, ◌-◌, ◌%◌, ◌^◌,
}
use cmps.Machine.State.{Machine, TranslationEntry, ExceptionType, user_mode}
use cmps.Machine.Translate.{translate, misaligned, lookup, lookup_in, use_entry}
use cmps.Machine.Translate.Laws.{HasTable, paged, Translated, translate-Translated}
use cmps.Machine.Memory.{read_mem, write_mem, store_value, store4, store2}
use cmps.Machine.Memory.RoundTrip.{read_mem-write_mem}
use cmps.Prelude.{◌↔◌, inl, false, ◌+◌, ◌==◌, if◌then◌else◌}
use cmps.Prelude.Bits.{u32}
use cmps.Prelude.Int.{◌+ℤ◌}
use cmps.Machine.Alu.{add_overflows}
use cmps.Machine.Alu.Overflow.{to_int, add_overflows_iff}
use cmps.Machine.Memory.Frame.{IsBuilt}
use cmps.Machine.Step.{one_instruction}
use cmps.Machine.Step.Frame.{SteppedResult, one_instruction-SteppedResult}
use cmps.Machine.Mult.{mult}
use cmps.Machine.Mult.Product.{value_of, extend, mult_lem}
use cmps.Machine.Instruction.{op_table, decode, decode_op}
use cmps.Machine.Instruction.Fields.{
  encode_immediate, sign_extend_short, table_entry, decode-encode_immediate,
}

abbrev entry : TranslationEntry
entry = record {
  virtual_page = 0;
  physical_page = 3;
  valid = true;
  read_only = false;
  used = false;
  dirty = false;
}

abbrev machine : Machine
machine = record {
  main_memory = replicate 8192 0;
  registers = λ r. 0;
  tlb = none;
  page_table = some (entry ∷ []);
  page_table_size = 1;
  status = user_mode;
}

machine-HasTable : HasTable machine
machine-HasTable = paged (omega arith)

translate-Translated_example : Translated machine 100 4 true (translate machine 100 4 true)
translate-Translated_example =
    translate-Translated machine 100 4 true machine-HasTable (inr (inr refl))

-- The handler of this machine does nothing.
abbrev ignore : ExceptionType → Machine → Machine
ignore which m = m

-- After the word 7 is written at virtual address 100, which is physical address 868.
abbrev machine_after : Machine
machine_after = record machine {
  main_memory = set machine.main_memory 868 7;
  page_table = some (record entry { used = true; dirty = true } ∷ []);
}

read_mem-write_mem_example :
    (m2 : Machine) × (read_mem ignore machine_after 100 4 ≡ some (some 7, m2))
unfolding write_mem translate misaligned lookup lookup_in use_entry store_value store4 store2
read_mem-write_mem_example =
    read_mem-write_mem ignore machine 100 4 7 machine_after machine-HasTable refl (inr (inr refl))
      (omega arith) written
  where
    written : write_mem ignore machine 100 4 7 ≡ some (true, machine_after)
    written = refl

-- 7 * -3
mult_lem_example :
    value_of (mult 7 (2 ^ 32 - 3) true) ≡ extend true 7 * extend true (2 ^ 32 - 3) % 2 ^ 64
mult_lem_example = mult_lem 7 (2 ^ 32 - 3) true (omega arith) (omega arith)

-- `addi $5, $4, -2`
decode-encode_immediate_example :
    let w = encode_immediate 8 4 5 65534 in
    let i = decode w in
    (i.rs ≡ 4)
    × (i.rt ≡ 5)
    × (i.extra ≡ sign_extend_short 65534)
    × (i.op_code ≡ decode_op (table_entry 8).op_code w)
unfolding table_entry op_table
decode-encode_immediate_example =
    decode-encode_immediate 8 4 5 65534 (omega arith) (omega arith) (omega arith) (omega arith) refl

-- The greatest `int` and 1
add_overflows_iff_example :
    (add_overflows 2147483647 1 2147483647 (u32 (2147483647 + 1)) ≡ false)
    ↔ (to_int (u32 (2147483647 + 1)) ≡ to_int 2147483647 +ℤ to_int 1)
add_overflows_iff_example =
    add_overflows_iff 2147483647 1 2147483647 (omega arith) (omega arith) (inl refl)

-- `addi $5, $4, -2` at address 0.
abbrev program : Machine
program = record machine {
  main_memory = 254 ∷ 255 ∷ 133 ∷ 32 ∷ replicate 8188 0;
  registers = λ r. if 35 == r then 4 else 0;
}

program-IsBuilt : IsBuilt program
program-IsBuilt = record { table = machine-HasTable; memory = refl }

one_instruction-SteppedResult_example :
    SteppedResult ignore program (one_instruction ignore program)
one_instruction-SteppedResult_example =
    one_instruction-SteppedResult ignore program program-IsBuilt (omega arith)
