-- ===== src/Machine/Instruction/Fields.antt =====
-- machine/mipssim.cc: `Decode` takes an instruction word apart into the fields it was put together
-- from.
use cmps.Prelude.{ℕ, ◌+◌, ◌-◌, ◌*◌, ◌/◌, ◌%◌, ◌^◌, ◌<◌, ◌≡◌, arith, get_or, ltb, if◌then◌else◌, ap}
use cmps.Machine.Instruction.{
  OpInfo, op_info, op_res, ifmt, op_table, special_table, op_entry, decode_extra, decode_op, decode,
}

-- The fields of an instruction with an immediate, in their places in the word.
abbrev pub encode_immediate : ℕ → ℕ → ℕ → ℕ → ℕ
encode_immediate op rs rt imm = op * 2 ^ 26 + rs * 2 ^ 21 + rt * 2 ^ 16 + imm

-- The fields of an instruction on three registers.
abbrev pub encode_register : ℕ → ℕ → ℕ → ℕ → ℕ → ℕ → ℕ
encode_register op rs rt rd shamt funct =
    op * 2 ^ 26 + rs * 2 ^ 21 + rt * 2 ^ 16 + rd * 2 ^ 11 + shamt * 2 ^ 6 + funct

-- A 16-bit two's complement number as a 32-bit one.
abbrev pub sign_extend_short : ℕ → ℕ
sign_extend_short imm = if ltb imm (2 ^ 15) then imm else imm + 2 ^ 32 - 2 ^ 16

unfoldable pub table_entry : ℕ → OpInfo
unfolding op_table
table_entry op = get_or op_table op (op_info op_res ifmt)

-- Decoding a word with an immediate field, whose operation has that format in the table, gives
-- back the registers, the immediate with its sign, and the operation of the table.
pub decode-encode_immediate :
    (op rs rt imm : ℕ)
    → op < 64
    → rs < 32
    → rt < 32
    → imm < 2 ^ 16
    → (table_entry op).format ≡ ifmt
    → let w = encode_immediate op rs rt imm in
      let i = decode w in
      (i.rs ≡ rs)
      × (i.rt ≡ rt)
      × (i.extra ≡ sign_extend_short imm)
      × (i.op_code ≡ decode_op (table_entry op).op_code w)
unfolding decode op_entry table_entry
decode-encode_immediate op rs rt imm ho hs ht hi f =
    (omega arith, omega arith, rw (slot, f, decode_extra) low, rw slot)
  where
    w : ℕ
    w = encode_immediate op rs rt imm

    slot : w / 2 ^ 26 % 64 ≡ op
    slot = omega arith

    low : decode_extra ifmt w ≡ sign_extend_short imm
    low = ground arith

-- Decoding a word of three registers under the operation SPECIAL gives back the registers and the
-- shift amount, and the operation that the second table has for the function field.
pub decode-encode_register :
    (rs rt rd shamt funct : ℕ)
    → rs < 32
    → rt < 32
    → rd < 32
    → shamt < 32
    → funct < 64
    → let i = decode (encode_register 0 rs rt rd shamt funct) in
      (i.rs ≡ rs)
      × (i.rt ≡ rt)
      × (i.rd ≡ rd)
      × (i.extra ≡ shamt)
      × (i.op_code ≡ get_or special_table funct op_res)
unfolding decode op_entry table_entry
decode-encode_register rs rt rd shamt funct hs ht hd ha hf = (
  omega arith,
  omega arith,
  omega arith,
  rw slot amount,
  rw slot (ap (λ k. get_or special_table k op_res) function),
)
  where
    w : ℕ
    w = encode_register 0 rs rt rd shamt funct

    slot : w / 2 ^ 26 % 64 ≡ 0
    slot = omega arith

    amount : w / 2 ^ 6 % 32 ≡ shamt
    amount = omega arith

    function : w % 64 ≡ funct
    function = omega arith
