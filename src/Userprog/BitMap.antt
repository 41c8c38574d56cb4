-- ===== src/Userprog/BitMap.antt =====
-- userprog/bitmap.cc: an array of bits in 32-bit words, used for the free map of the disk and for
-- the map of physical pages. An `int` argument is its 32-bit pattern: a pattern from 2 ^ 31 on is
-- a negative number, and -1 is 2 ^ 32 - 1. `none` is a failed ASSERT.
pub mod Bits
pub mod Find
use Prim.Native.Nat.{bit_and, bit_or}
use cmps.Prelude.{ℕ, zero, suc, ◌+◌, ◌-◌, ◌/◌, ◌%◌, ◌^◌, Bool, true, false, not, ◌&&◌}
use cmps.Prelude.{Option, none, some, List, get_or, set, ltb, ◌==◌, if◌then◌else◌}
use cmps.Prelude.Bits.{not_u32}

abbrev pub bits_in_word : ℕ
bits_in_word = 32

abbrev pub minus_one : ℕ
minus_one = 2 ^ 32 - 1

-- `divRoundUp` of threads/utility.h
abbrev pub div_round_up : ℕ → ℕ → ℕ
div_round_up n s = n / s + (if ltb 0 (n % s) then 1 else 0)

pub record BitMap : Type 0 where
  pub num_bits : ℕ
  pub num_words : ℕ
  pub words : List ℕ

-- `which >= 0 && which < numBits`
abbrev pub in_range : BitMap → ℕ → Bool
in_range m which = ltb which (2 ^ 31) && ltb which m.num_bits

-- `1 << (which % BitsInWord)`
abbrev pub mask : ℕ → ℕ
mask which = 2 ^ (which % bits_in_word)

abbrev pub word_of : BitMap → ℕ → ℕ
word_of m which = get_or m.words (which / bits_in_word) 0

pub mark : BitMap → ℕ → Option BitMap
mark m which =
    if in_range m which
    then some (record m {
      words = set m.words (which / bits_in_word) (bit_or (word_of m which) (mask which));
    })
    else none

pub clear : BitMap → ℕ → Option BitMap
clear m which =
    if in_range m which
    then some (record m {
      words = set m.words (which / bits_in_word) (bit_and (word_of m which) (not_u32 (mask which)));
    })
    else none

-- `if (map[…] & (1 << …)) return TRUE; else return FALSE;`
pub test : BitMap → ℕ → Option Bool
test m which =
    if in_range m which then some (not (bit_and (word_of m which) (mask which) == 0)) else none

-- The loop of the constructor: `Clear(i)` for the `n` indices from `i` on.
pub clear_from : ℕ → ℕ → BitMap → Option BitMap
clear_from zero i m = some m
clear_from (suc n) i m = elim (clear m i) [ none ↦ none | some m' ↦ clear_from n (i + 1) m' ]

-- `BitMap::BitMap`. The array that `new` gives is not initialised: its words are a parameter.
pub new_bit_map : List ℕ → ℕ → Option BitMap
new_bit_map garbage nitems =
    clear_from nitems 0
      (record { num_bits = nitems; num_words = div_round_up nitems bits_in_word; words = garbage })

-- The loop of `Find`, `n` rounds from index `i` on: the bit found and the marked map.
pub find_from : ℕ → ℕ → BitMap → Option (ℕ × BitMap)
find_from zero i m = some (minus_one, m)
find_from (suc n) i m = elim (test m i) [
  | none ↦ none
  | some true ↦ find_from n (i + 1) m
  | some false ↦ elim (mark m i) [ none ↦ none | some m' ↦ some (i, m') ]
]

pub find : BitMap → Option (ℕ × BitMap)
find m = find_from m.num_bits 0 m

-- The loop of `NumClear`.
pub count_from : ℕ → ℕ → ℕ → BitMap → Option ℕ
count_from zero i count m = some count
count_from (suc n) i count m = elim (test m i) [
  | none ↦ none
  | some b ↦ count_from n (i + 1) (if not b then count + 1 else count) m
]

pub num_clear : BitMap → Option ℕ
num_clear m = count_from m.num_bits 0 0 m
