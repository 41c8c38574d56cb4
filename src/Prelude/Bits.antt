-- ===== src/Prelude/Bits.antt =====
-- 32-bit words as numbers below 2 ^ 32, and what `&`, `|` and `~` do to single bits. The native
-- bit operations mean a recursion on binary digits; here each gets one equation for its lowest
-- digit, from which the laws for every bit follow.
use Prim.Native.Nat.{
  bit_and, bit_or, digits, bitwise, differ, bit_and-bitwise, bit_or-bitwise, bit_xor,
  bit_xor-bitwise,
}
use native.Mathlib.Nat.{pow-suc, le_refl, one-le-pow, mul_comm}
use cmps.Prelude.{ℕ, zero, suc, ◌+◌, ◌-◌, ◌*◌, ◌/◌, ◌%◌, ◌^◌, ◌≤◌, ◌<◌, min, max, ◌≡◌, refl, arith}
use cmps.Prelude.{◌==◌, if◌then◌else◌, ap, ◌∙◌}

abbrev pub u32 : ℕ → ℕ
u32 n = n % 2 ^ 32

-- `~x` on an `unsigned int`.
abbrev pub not_u32 : ℕ → ℕ
not_u32 x = 2 ^ 32 - 1 - x

module _ (z : ℕ → ℕ) (f : ℕ → ℕ → ℕ) where
  -- Any fuel that bounds the first operand gives the same digits.
  enough_fuel : (n m a b : ℕ) → a ≤ n → a ≤ m → digits z f n a b ≡ digits z f m a b
  enough_fuel zero zero zero b p q = refl
  enough_fuel zero (suc m) zero b p q = refl
  enough_fuel (suc n) zero zero b p q = refl
  enough_fuel (suc n) (suc m) zero b p q = refl
  enough_fuel zero m (suc a) b p q = elim p [ ]
  enough_fuel (suc n) zero (suc a) b p q = elim q [ ]
  enough_fuel (suc n) (suc m) (suc a) b p q =
      rw (enough_fuel n m (suc a / 2) (b / 2) (omega arith) (omega arith))

  lowest_digit :
      (a b : ℕ)
      → bitwise z f (suc a) b ≡ bitwise z f (suc a / 2) (b / 2) * 2 + f (suc a % 2) (b % 2)
  lowest_digit a b =
      omega (arith, enough_fuel a (suc a / 2) (suc a / 2) (b / 2) (omega arith) (omega arith))

bit_or_digit : (a b : ℕ) → bit_or a b ≡ bit_or (a / 2) (b / 2) * 2 + max (a % 2) (b % 2)
bit_or_digit zero b = simp bit_or-bitwise (omega arith)
bit_or_digit (suc a) b = simp bit_or-bitwise (lowest_digit (λ y. y) max a b)

-- The digit of an exclusive or.
abbrev pub digit_xor : ℕ → ℕ → ℕ
digit_xor x y = if x == y then 0 else 1

digit_xor_lem : (x y : ℕ) → x < 2 → y < 2 → differ x y ≡ digit_xor x y
digit_xor_lem zero zero h k = refl
digit_xor_lem zero (suc zero) h k = refl
digit_xor_lem (suc zero) zero h k = refl
digit_xor_lem (suc zero) (suc zero) h k = refl
digit_xor_lem (suc (suc x)) y h k = omega arith
digit_xor_lem zero (suc (suc y)) h k = omega arith
digit_xor_lem (suc zero) (suc (suc y)) h k = omega arith

zero_digit : (b : ℕ) → b ≡ b / 2 * 2 + digit_xor 0 (b % 2)
zero_digit b = ground arith

bit_xor_digit : (a b : ℕ) → bit_xor a b ≡ bit_xor (a / 2) (b / 2) * 2 + digit_xor (a % 2) (b % 2)
bit_xor_digit zero b = simp bit_xor-bitwise (zero_digit b)
bit_xor_digit (suc a) b = simp bit_xor-bitwise (
    lowest_digit (λ y. y) differ a b
    ∙ ap (λ (t : ℕ). bitwise (λ y. y) differ (suc a / 2) (b / 2) * 2 + t)
        (digit_xor_lem (suc a % 2) (b % 2) (omega arith) (omega arith)))

pub bit_and_digit : (a b : ℕ) → bit_and a b ≡ bit_and (a / 2) (b / 2) * 2 + min (a % 2) (b % 2)
bit_and_digit zero b = simp bit_and-bitwise (omega arith)
bit_and_digit (suc a) b = simp bit_and-bitwise (lowest_digit (λ y. 0) min a b)

-- Bit `i` of `w`, as 0 or 1.
unfoldable pub bit : ℕ → ℕ → ℕ
bit w zero = w % 2
bit w (suc i) = bit (w / 2) i

pub bit-le : (w i : ℕ) → bit w i ≤ 1
unfolding bit
bit-le w zero = omega arith
bit-le w (suc i) = bit-le (w / 2) i

pub bit-zero : (i : ℕ) → bit 0 i ≡ 0
unfolding bit
bit-zero zero = refl
bit-zero (suc i) = bit-zero i

pub bit-or : (a b i : ℕ) → bit (bit_or a b) i ≡ max (bit a i) (bit b i)
unfolding bit
bit-or a b zero = omega (arith, bit_or_digit a b)
bit-or a b (suc i) = rw (half, bit-or (a / 2) (b / 2) i)
  where
    half : bit_or a b / 2 ≡ bit_or (a / 2) (b / 2)
    half = omega (arith, bit_or_digit a b)

pub bit-xor : (a b i : ℕ) → bit (bit_xor a b) i ≡ digit_xor (bit a i) (bit b i)
unfolding bit
bit-xor a b zero = ground (arith, bit_xor_digit a b)
bit-xor a b (suc i) = rw (half, bit-xor (a / 2) (b / 2) i)
  where
    half : bit_xor a b / 2 ≡ bit_xor (a / 2) (b / 2)
    half = ground (arith, bit_xor_digit a b)

pub bit-and : (a b i : ℕ) → bit (bit_and a b) i ≡ min (bit a i) (bit b i)
unfolding bit
bit-and a b zero = omega (arith, bit_and_digit a b)
bit-and a b (suc i) = rw (half, bit-and (a / 2) (b / 2) i)
  where
    half : bit_and a b / 2 ≡ bit_and (a / 2) (b / 2)
    half = omega (arith, bit_and_digit a b)

half-pow : (i : ℕ) → 2 ^ suc i / 2 ≡ 2 ^ i
half-pow i = omega (arith, pow-suc 2 i)

pub bit-pow : (i j : ℕ) → bit (2 ^ i) j ≡ (if i == j then 1 else 0)
unfolding bit
bit-pow zero zero = refl
bit-pow zero (suc j) = ground (arith, bit-zero j)
bit-pow (suc i) zero = ground (arith, pow-suc 2 i)
bit-pow (suc i) (suc j) = rw (half-pow i) (bit-pow i j ∙ same)
  where
    same : ◌≡◌ {A = ℕ} (if i == j then 1 else 0) (if suc i == suc j then 1 else 0)
    same = ground arith

-- The complement turns over each of the low `k` bits.
pub bit-complement : (k x j : ℕ) → x < 2 ^ k → j < k → bit (2 ^ k - 1 - x) j + bit x j ≡ 1
unfolding bit
bit-complement zero x j h l = elim l [ ]
bit-complement (suc k) x zero h l = omega (arith, pow-suc 2 k)
bit-complement (suc k) x (suc j) h l =
    rw half (bit-complement k (x / 2) j (omega (arith, pow-suc 2 k)) (omega arith))
  where
    half : (2 ^ suc k - 1 - x) / 2 ≡ 2 ^ k - 1 - x / 2
    half = omega (arith, pow-suc 2 k)

pub bit_and-zero : (n w : ℕ) → w ≤ n → bit_and w 0 ≡ 0
bit_and-zero n zero h = refl
bit_and-zero zero (suc w) h = elim h [ ]
bit_and-zero (suc n) (suc w) h =
    omega (arith, bit_and_digit (suc w) 0, bit_and-zero n (suc w / 2) (omega arith))

-- `w & (1 << i)` is zero exactly when bit `i` is.
pub bit_and-pow : (w i : ℕ) → bit_and w (2 ^ i) ≡ bit w i * 2 ^ i
unfolding bit
bit_and-pow w zero = omega (arith, bit_and_digit w 1, bit_and-zero (w / 2) (w / 2) (le_refl _))
bit_and-pow w (suc i) = omega (
  arith,
  bit_and_digit w (2 ^ suc i),
  ap (λ t. bit_and (w / 2) t) (half-pow i),
  bit_and-pow (w / 2) i,
  pow-suc 2 i,
  ap (λ (t : ℕ). bit (w / 2) i * t) (pow-suc 2 i),
)

pub mod_double : (w p : ℕ) → 0 < p → w % (2 * p) ≡ w / 2 % p * 2 + w % 2
mod_double w p h = grind arith

-- A mask of `k` ones is the remainder by `2 ^ k`.
pub bit_and_mask : (k w : ℕ) → bit_and w (2 ^ k - 1) ≡ w % 2 ^ k
bit_and_mask zero w = omega (arith, bit_and-zero w w (le_refl _))
bit_and_mask (suc k) w = omega (
  arith,
  bit_and_digit w (2 ^ suc k - 1),
  ap (λ t. bit_and (w / 2) t) half,
  bit_and_mask k (w / 2),
  mod_double w (2 ^ k) positive,
  ap (λ t. w % t) (pow-suc 2 k ∙ mul_comm (2 ^ k) 2),
  positive,
  pow-suc 2 k,
)
  where
    positive : 0 < 2 ^ k
    positive = one-le-pow k 2 (omega arith)

    half : (2 ^ suc k - 1) / 2 ≡ 2 ^ k - 1
    half = omega (arith, pow-suc 2 k, positive)
