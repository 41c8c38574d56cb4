-- ===== src/Machine/Alu.antt =====
-- machine/mipssim.cc: what the cases of `Machine::OneInstruction` do with 32-bit words. An `int` is
-- its two's complement pattern, below 2 ^ 32.
pub mod Overflow
use Prim.Native.Nat.{bit_and, bit_xor}
use cmps.Prelude.{ℕ, ◌+◌, ◌-◌, ◌*◌, ◌/◌, ◌%◌, ◌^◌, Bool, true, false, not, ◌&&◌, Option, none, some}
use cmps.Prelude.{ltb, leb, ◌==◌, if◌then◌else◌}
use cmps.Prelude.Bits.{u32}
use cmps.Machine.Mult.{is_negative, negate}

-- `SIGN_BIT`
abbrev pub sign_bit : ℕ
sign_bit = 2 ^ 31

-- `x & SIGN_BIT` as a test.
pub signed_bit : ℕ → Bool
signed_bit x = not (bit_and x sign_bit == 0)

-- `IndexToAddr`
pub index_to_addr : ℕ → ℕ
index_to_addr x = u32 (x * 4)

-- `!((a ^ b) & SIGN_BIT) && ((b ^ sum) & SIGN_BIT)`: OP_ADDI tests the second operand against the
-- sum, OP_ADD the first one.
pub add_overflows : ℕ → ℕ → ℕ → ℕ → Bool
add_overflows a b tested sum = not (signed_bit (bit_xor a b)) && signed_bit (bit_xor tested sum)

-- `a - b` of two words.
abbrev pub sub_word : ℕ → ℕ → ℕ
sub_word a b = u32 (a + 2 ^ 32 - b)

-- `((a ^ b) & SIGN_BIT) && ((a ^ diff) & SIGN_BIT)`
pub sub_overflows : ℕ → ℕ → ℕ → Bool
sub_overflows a b diff = signed_bit (bit_xor a b) && signed_bit (bit_xor a diff)

-- `a < b` of two `int`s.
pub less_signed : ℕ → ℕ → Bool
less_signed a b = ltb (u32 (a + sign_bit)) (u32 (b + sign_bit))

pub shift_left : ℕ → ℕ → ℕ
shift_left x n = u32 (x * 2 ^ n)

-- `x >> n` of an `int`: the sign comes in from the left.
pub shift_right : ℕ → ℕ → ℕ
shift_right x n = x / 2 ^ n + (if is_negative x then 2 ^ 32 - 2 ^ (32 - n) else 0)

abbrev pub magnitude : ℕ → ℕ
magnitude x = if is_negative x then negate x else x

-- Quotient and remainder of two `int`s, of which the second is not 0. The quotient of the least
-- `int` by -1 is not an `int`, and the program stops.
unfoldable pub divide_signed : ℕ → ℕ → Option (ℕ × ℕ)
divide_signed a b =
    if a == 2 ^ 31 && b == 2 ^ 32 - 1
    then none
    else (let q = magnitude a / magnitude b in
        let r = magnitude a % magnitude b in
        let same_sign = if is_negative a then is_negative b else not (is_negative b) in
        some (if same_sign then q else negate q, if is_negative a then negate r else r))
