-- ===== src/Userprog/BitMap/Bits.antt =====
-- userprog/bitmap.cc: `Mark`, `Clear` and `Test` act on one bit of the map and on no other.
use Prim.Native.Nat.{bit_and, bit_or}
use native.Mathlib.Nat.{one-le-pow, pow-le-pow_right}
use cmps.Prelude.{ℕ, zero, suc, ap, ◌*◌, ◌/◌, ◌%◌, ◌^◌, ◌≤◌, ◌<◌, ◌≡◌, Bool, true, false, not}
use cmps.Prelude.{some, arith, length, length-set, get_or, set, get_or-set}
use cmps.Prelude.{◌==◌, if◌then◌else◌}
use cmps.Prelude.Bits.{not_u32, bit, bit-le, bit-or, bit-and, bit-pow, bit-complement, bit_and-pow}
use cmps.Userprog.BitMap.{BitMap, bits_in_word, mask, word_of, mark, clear, test}

-- What the constructor establishes; the number of bits is a positive `int`.
pub record IsValid (m : BitMap) : Type 0 where
  pub small : m.num_bits < 2 ^ 31
  pub sized : m.num_bits ≤ length m.words * bits_in_word

-- The map seen as a set of indices.
unfoldable pub is_set : BitMap → ℕ → Bool
is_set m i = bit (word_of m i) (i % bits_in_word) == 1

-- The word at an index, replaced.
abbrev pub with_word : BitMap → ℕ → ℕ → BitMap
with_word m i w = record m { words = set m.words (i / bits_in_word) w }

abbrev pub marked : BitMap → ℕ → BitMap
marked m i = with_word m i (bit_or (word_of m i) (mask i))

abbrev pub cleared : BitMap → ℕ → BitMap
cleared m i = with_word m i (bit_and (word_of m i) (not_u32 (mask i)))

nonzero_iff : (b p : ℕ) → b ≤ 1 → 1 ≤ p → not (b * p == 0) ≡ (b == 1)
nonzero_iff zero p h k = ground arith
nonzero_iff (suc zero) p h k = ground arith
nonzero_iff (suc (suc b)) p h k = absurd (omega arith)

same_word : (m : BitMap) (i j : ℕ) → i / 32 ≡ j / 32 → word_of m i ≡ word_of m j
same_word m i j e = ap (λ k. get_or m.words k 0) e

mask-lt : (i : ℕ) → mask i < 2 ^ 32
mask-lt i =
    omega (arith, pow-le-pow_right {n = 2} (omega arith) {i = i % 32} {j = 31} (omega arith))

module _ (m : BitMap) (v : IsValid m) (i : ℕ) (lt : i < m.num_bits) where
  pub mark-eq : mark m i ≡ some (marked m i)
  unfolding mark
  mark-eq = ground arith

  pub clear-eq : clear m i ≡ some (cleared m i)
  unfolding clear
  clear-eq = ground arith

  pub with_word-IsValid : (w : ℕ) → IsValid (with_word m i w)
  with_word-IsValid w = ground (arith, length-set m.words (i / 32) w)

  word-with_word :
      (w j : ℕ) → word_of (with_word m i w) j ≡ (if i / 32 == j / 32 then w else word_of m j)
  word-with_word w j = get_or-set m.words (i / 32) w (j / 32) 0 (omega arith)

  pub test-eq : test m i ≡ some (is_set m i)
  unfolding test is_set
  test-eq = ground (
    arith,
    bit_and-pow (word_of m i) (i % 32),
    nonzero_iff (bit (word_of m i) (i % 32)) (2 ^ (i % 32)) (bit-le _ _)
        (one-le-pow (i % 32) 2 (omega arith)),
  )

  pub is_set-marked : (j : ℕ) → is_set (marked m i) j ≡ (if i == j then true else is_set m j)
  unfolding is_set
  is_set-marked j = ground (
    arith,
    word-with_word (bit_or (word_of m i) (mask i)) j,
    bit-or (word_of m i) (mask i) (j % 32),
    bit-pow (i % 32) (j % 32),
    bit-le (word_of m i) (j % 32),
    same_word m i j,
  )

  pub is_set-cleared : (j : ℕ) → is_set (cleared m i) j ≡ (if i == j then false else is_set m j)
  unfolding is_set
  is_set-cleared j = ground (
    arith,
    word-with_word (bit_and (word_of m i) (not_u32 (mask i))) j,
    bit-and (word_of m i) (not_u32 (mask i)) (j % 32),
    bit-complement 32 (mask i) (j % 32) (mask-lt i) (omega arith),
    bit-pow (i % 32) (j % 32),
    bit-le (word_of m i) (j % 32),
    same_word m i j,
  )

-- On a valid map, for a bit within its range, `Mark` succeeds and keeps the map valid. Then `Test`
-- of that bit is true, and `Test` of any other bit is what it was.
pub test-mark :
    (m : BitMap) (i j : ℕ)
    → IsValid m
    → i < m.num_bits
    → j < m.num_bits
    → (m' : BitMap) × (mark m i ≡ some m')
      × IsValid m'
      × (test m' j ≡ (if i == j then some true else test m j))
test-mark m i j v lt jlt = (
  marked m i,
  mark-eq m v i lt,
  with_word-IsValid m v i lt _,
  ground (
    arith,
    test-eq (marked m i) (with_word-IsValid m v i lt _) j jlt,
    test-eq m v j jlt,
    is_set-marked m v i lt j,
  ),
)

-- The same of `Clear`: afterwards `Test` of that bit is false, and of any other what it was.
pub test-clear :
    (m : BitMap) (i j : ℕ)
    → IsValid m
    → i < m.num_bits
    → j < m.num_bits
    → (m' : BitMap) × (clear m i ≡ some m')
      × IsValid m'
      × (test m' j ≡ (if i == j then some false else test m j))
test-clear m i j v lt jlt = (
  cleared m i,
  clear-eq m v i lt,
  with_word-IsValid m v i lt _,
  ground (
    arith,
    test-eq (cleared m i) (with_word-IsValid m v i lt _) j jlt,
    test-eq m v j jlt,
    is_set-cleared m v i lt j,
  ),
)
