-- ===== src/Machine/Instruction/Handled.antt =====
-- machine/mipssim.cc, `Instruction::Decode`: every word decodes to an operation that has a case in
-- the `switch` of `OneInstruction`.
use cmps.Prelude.{
  ℕ, zero, suc, ◌/◌, ◌%◌, ◌^◌, ◌≡◌, refl, Bool, true, false, List, [], ◌∷◌, get_or, arith, ◌&&◌,
}
use cmps.Machine.Instruction.{
  OpCode, OpInfo, op_info, ifmt, op_res, op_rfe, special, bcond, op_table, special_table, op_entry,
  decode_op, decode_bcond, decode,
}

-- The operations that have a case of their own.
abbrev pub is_handled : OpCode → Bool
is_handled op_rfe = false
is_handled special = false
is_handled bcond = false
is_handled _ = true

-- The operations of `opTable`.
abbrev in_table : OpCode → Bool
in_table op_rfe = false
in_table _ = true

abbrev all_of {ℓ} : {A : Type ℓ} → (A → Bool) → List A → Bool
all_of p [] = true
all_of p (x ∷ xs) = p x && all_of p xs

all_of-get_or {ℓ} :
    {A : Type ℓ} (p : A → Bool) (xs : List A) (i : ℕ) (d : A)
    → all_of p xs ≡ true
    → p d ≡ true
    → p (get_or xs i d) ≡ true
all_of-get_or p [] i d a h = h
all_of-get_or p (x ∷ xs) zero d a h = ground (arith, a)
all_of-get_or p (x ∷ xs) (suc i) d a h = all_of-get_or p xs i d (ground (arith, a)) h

decode_bcond-handled : (value : ℕ) → is_handled (decode_bcond value) ≡ true
unfolding decode_bcond
decode_bcond-handled value = ground arith

decode_op-handled :
    (op : OpCode) (value : ℕ) → in_table op ≡ true → is_handled (decode_op op value) ≡ true
unfolding decode_op special_table
decode_op-handled op_rfe value h = cc
decode_op-handled special value h =
    all_of-get_or is_handled special_table (value % 64) op_res refl refl
decode_op-handled bcond value h = decode_bcond-handled value
decode_op-handled _ value h = refl

op_entry-in_table : (value : ℕ) → in_table (op_entry value).op_code ≡ true
unfolding op_table
op_entry-in_table value =
    all_of-get_or (λ e. in_table (OpInfo.op_code e)) op_table (value / 2 ^ 26 % 64)
      (op_info op_res ifmt) refl refl

-- Every word decodes to an operation that has a case in the `switch`.
pub decode-handled : (value : ℕ) → is_handled (decode value).op_code ≡ true
unfolding decode
decode-handled value = decode_op-handled (op_entry value).op_code value (op_entry-in_table value)
