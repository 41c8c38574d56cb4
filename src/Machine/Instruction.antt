-- ===== src/Machine/Instruction.antt =====
-- machine/mipssim.cc, `Instruction::Decode`, with the tables of machine/mipssim.h. Shifts and masks
-- are written as quotients and remainders.
pub mod Fields
pub mod Handled
use cmps.Prelude.{ℕ, ◌+◌, ◌-◌, ◌/◌, ◌%◌, ◌^◌, List, [], ◌∷◌, get_or, ◌==◌, if◌then◌else◌}

-- The `opCode` values, and SPECIAL and BCOND, which ask for more decoding.
pub data OpCode : Type 0 where
  op_add op_addi op_addiu op_addu op_and op_andi op_beq op_bgez : OpCode
  op_bgezal op_bgtz op_blez op_bltz op_bltzal op_bne op_div op_divu : OpCode
  op_j op_jal op_jalr op_jr op_lb op_lbu op_lh op_lhu : OpCode
  op_lui op_lw op_lwl op_lwr op_mfhi op_mflo op_mthi op_mtlo : OpCode
  op_mult op_multu op_nor op_or op_ori op_rfe op_sb op_sh : OpCode
  op_sll op_sllv op_slt op_slti op_sltiu op_sltu op_sra op_srav : OpCode
  op_srl op_srlv op_sub op_subu op_sw op_swl op_swr op_xor : OpCode
  op_xori op_syscall op_unimp op_res special bcond : OpCode

pub data Format : Type 0 where
  ifmt jfmt rfmt : Format

-- `OpInfo`
pub record OpInfo : Type 0 where
  pub op_code : OpCode
  pub format : Format

abbrev op_info : OpCode → Format → OpInfo
op_info op_code format = record { op_code = op_code; format = format }

unfoldable pub op_table : List OpInfo
op_table =
    op_info special rfmt
    ∷ op_info bcond ifmt
    ∷ op_info op_j jfmt
    ∷ op_info op_jal jfmt
    ∷ op_info op_beq ifmt
    ∷ op_info op_bne ifmt
    ∷ op_info op_blez ifmt
    ∷ op_info op_bgtz ifmt
    ∷ op_info op_addi ifmt
    ∷ op_info op_addiu ifmt
    ∷ op_info op_slti ifmt
    ∷ op_info op_sltiu ifmt
    ∷ op_info op_andi ifmt
    ∷ op_info op_ori ifmt
    ∷ op_info op_xori ifmt
    ∷ op_info op_lui ifmt
    ∷ op_info op_unimp ifmt
    ∷ op_info op_unimp ifmt
    ∷ op_info op_unimp ifmt
    ∷ op_info op_unimp ifmt
    ∷ op_info op_res ifmt
    ∷ op_info op_res ifmt
    ∷ op_info op_res ifmt
    ∷ op_info op_res ifmt
    ∷ op_info op_res ifmt
    ∷ op_info op_res ifmt
    ∷ op_info op_res ifmt
    ∷ op_info op_res ifmt
    ∷ op_info op_res ifmt
    ∷ op_info op_res ifmt
    ∷ op_info op_res ifmt
    ∷ op_info op_res ifmt
    ∷ op_info op_lb ifmt
    ∷ op_info op_lh ifmt
    ∷ op_info op_lwl ifmt
    ∷ op_info op_lw ifmt
    ∷ op_info op_lbu ifmt
    ∷ op_info op_lhu ifmt
    ∷ op_info op_lwr ifmt
    ∷ op_info op_res ifmt
    ∷ op_info op_sb ifmt
    ∷ op_info op_sh ifmt
    ∷ op_info op_swl ifmt
    ∷ op_info op_sw ifmt
    ∷ op_info op_res ifmt
    ∷ op_info op_res ifmt
    ∷ op_info op_swr ifmt
    ∷ op_info op_res ifmt
    ∷ op_info op_unimp ifmt
    ∷ op_info op_unimp ifmt
    ∷ op_info op_unimp ifmt
    ∷ op_info op_unimp ifmt
    ∷ op_info op_res ifmt
    ∷ op_info op_res ifmt
    ∷ op_info op_res ifmt
    ∷ op_info op_res ifmt
    ∷ op_info op_unimp ifmt
    ∷ op_info op_unimp ifmt
    ∷ op_info op_unimp ifmt
    ∷ op_info op_unimp ifmt
    ∷ op_info op_res ifmt
    ∷ op_info op_res ifmt
    ∷ op_info op_res ifmt
    ∷ op_info op_res ifmt
    ∷ []

pub special_table : List OpCode
special_table =
    op_sll ∷ op_res ∷ op_srl ∷ op_sra ∷ op_sllv ∷ op_res ∷ op_srlv ∷ op_srav ∷ op_jr ∷ op_jalr
    ∷ op_res ∷ op_res ∷ op_syscall ∷ op_unimp ∷ op_res ∷ op_res ∷ op_mfhi ∷ op_mthi ∷ op_mflo
    ∷ op_mtlo ∷ op_res ∷ op_res ∷ op_res ∷ op_res ∷ op_mult ∷ op_multu ∷ op_div ∷ op_divu ∷ op_res
    ∷ op_res ∷ op_res ∷ op_res ∷ op_add ∷ op_addu ∷ op_sub ∷ op_subu ∷ op_and ∷ op_or ∷ op_xor
    ∷ op_nor ∷ op_res ∷ op_res ∷ op_slt ∷ op_sltu ∷ op_res ∷ op_res ∷ op_res ∷ op_res ∷ op_res
    ∷ op_res ∷ op_res ∷ op_res ∷ op_res ∷ op_res ∷ op_res ∷ op_res ∷ op_res ∷ op_res ∷ op_res
    ∷ op_res ∷ op_res ∷ op_res ∷ op_res ∷ op_res ∷ []

-- `extra` is an `int`, as its 32-bit pattern.
pub record Instruction : Type 0 where
  pub value : ℕ
  pub op_code : OpCode
  pub rs : ℕ
  pub rt : ℕ
  pub rd : ℕ
  pub extra : ℕ

abbrev pub op_entry : ℕ → OpInfo
unfolding op_table
op_entry value = get_or op_table (value / 2 ^ 26 % 64) (op_info op_res ifmt)

-- The immediate, with its sign for IFMT; the shift amount; the jump target.
pub decode_extra : Format → ℕ → ℕ
decode_extra ifmt value =
    let extra = value % 2 ^ 16 in
    if extra / 2 ^ 15 % 2 == 1 then extra + (2 ^ 32 - 2 ^ 16) else extra
decode_extra rfmt value = value / 2 ^ 6 % 32
decode_extra jfmt value = value % 2 ^ 26

-- `value & 0x1f0000`, shifted down.
pub decode_bcond : ℕ → OpCode
decode_bcond value =
    let i = value / 2 ^ 16 % 32 in
    if i == 0
    then op_bltz
    else if i == 1
    then op_bgez
    else if i == 16
    then op_bltzal
    else if i == 17
    then op_bgezal
    else op_unimp

pub decode_op : OpCode → ℕ → OpCode
unfolding special_table
decode_op special value = get_or special_table (value % 64) op_res
decode_op bcond value = decode_bcond value
decode_op op value = op

-- `Instruction::Decode`
unfoldable pub decode : ℕ → Instruction
unfolding decode_extra decode_op
decode value = record {
  value = value;
  op_code = decode_op (op_entry value).op_code value;
  rs = value / 2 ^ 21 % 32;
  rt = value / 2 ^ 16 % 32;
  rd = value / 2 ^ 11 % 32;
  extra = decode_extra (op_entry value).format value;
}
