-- ===== src/Machine/Alu/Overflow.antt =====
-- machine/mipssim.cc: the sign tests of OP_ADD, OP_ADDI and OP_SUB find out whether the result of
-- the addition of two signed words is right.
use Prim.Native.Nat.{bit_and, bit_xor}
use native.Mathlib.Nat.{pow-suc, div-div-eq-div-mul}
use cmps.Prelude.{
  ℕ, zero, suc, ◌+◌, ◌-◌, ◌*◌, ◌/◌, ◌%◌, ◌^◌, ◌<◌, ◌≡◌, ◌↔◌, ◌⊎◌, ap, ◌∙◌, Bool, false, not, arith,
  ltb, leb, ◌==◌, if◌then◌else◌,
}
use cmps.Prelude.Int.{ℤ, pos, negsuc, ◌+ℤ◌, ◌-ℤ◌}
use cmps.Prelude.Bits.{u32, bit, bit-xor, bit_and-pow, digit_xor}
use cmps.Machine.Alu.{signed_bit, add_overflows, sub_overflows, sub_word}

-- The integer that a word stands for.
abbrev pub to_int : ℕ → ℤ
to_int x = if ltb x (2 ^ 31) then pos x else negsuc (2 ^ 32 - 1 - x)

bit-div : (w i : ℕ) → bit w i ≡ w / 2 ^ i % 2
unfolding bit
bit-div w zero = omega arith
bit-div w (suc i) =
    bit-div (w / 2) i
    ∙ ap (λ t. t % 2)
        (div-div-eq-div-mul w 2 (2 ^ i) ∙ ap (λ (t : ℕ). w / t) (omega (arith, pow-suc 2 i)))

top : ℕ → ℕ
top x = bit x 31

top_lem : (x : ℕ) → x < 2 ^ 32 → top x ≡ (if leb (2 ^ 31) x then 1 else 0)
unfolding top
top_lem x h = ground (arith, bit-div x 31)

-- The sign bits of two words differ.
abbrev signs_differ : ℕ → ℕ → Bool
signs_differ a b = if leb (2 ^ 31) a then ltb b (2 ^ 31) else leb (2 ^ 31) b

sign_xor : (a b : ℕ) → a < 2 ^ 32 → b < 2 ^ 32 → signed_bit (bit_xor a b) ≡ signs_differ a b
unfolding signed_bit top
sign_xor a b ha hb = ap (λ t. not (t == 0)) digit ∙ tested
  where
    digit : bit_and (bit_xor a b) (2 ^ 31) ≡ digit_xor (top a) (top b) * 2 ^ 31
    digit = bit_and-pow (bit_xor a b) 31 ∙ ap (λ (t : ℕ). t * 2 ^ 31) (bit-xor a b 31)

    tested : not (digit_xor (top a) (top b) * 2 ^ 31 == 0) ≡ signs_differ a b
    tested = rw (top_lem a ha, top_lem b hb) (ground arith)

-- For two words and either of them as the one that is tested against the sum, the test for overflow
-- of an addition is false exactly when the word that the addition gives stands for the sum of the
-- integers that the operands stand for.
pub add_overflows_iff :
    (a b tested : ℕ)
    → a < 2 ^ 32
    → b < 2 ^ 32
    → (tested ≡ a) ⊎ (tested ≡ b)
    → (add_overflows a b tested (u32 (a + b)) ≡ false)
      ↔ (to_int (u32 (a + b)) ≡ to_int a +ℤ to_int b)
unfolding add_overflows ◌+ℤ◌
add_overflows_iff a b tested ha hb which =
    rw (sign_xor a b ha hb, sign_xor tested (u32 (a + b)) (ground arith) (omega arith))
      (ground arith)

-- The test for overflow of a subtraction of two words is false exactly when the word that it gives
-- stands for the difference of the integers that the operands stand for.
pub sub_overflows_iff :
    (a b : ℕ)
    → a < 2 ^ 32
    → b < 2 ^ 32
    → (sub_overflows a b (sub_word a b) ≡ false) ↔ (to_int (sub_word a b) ≡ to_int a -ℤ to_int b)
unfolding sub_overflows ◌-ℤ◌
sub_overflows_iff a b ha hb =
    rw (sign_xor a b ha hb, sign_xor a (sub_word a b) ha (omega arith)) (ground arith)
