-- ===== src/Userprog/BitMap/Find.antt =====
-- userprog/bitmap.cc: the constructor, `Find` and `NumClear`, in terms of the set of marked bits.
use native.Mathlib.Numerals.{add-one}
use cmps.Prelude.{
  ℕ, zero, suc, ◌+◌, ◌≤◌, ◌<◌, ◌≡◌, refl, true, false, not, inl, inr, ◌∙◌, ap, subst,
}
use cmps.Prelude.{Option, some, arith, List, length, ◌^◌, if◌then◌else◌, Bool-cases, dec_lt}
use cmps.Userprog.BitMap.{BitMap, bits_in_word, minus_one, div_round_up}
use cmps.Userprog.BitMap.{clear_from, new_bit_map, find_from, find, count_from, num_clear}
use cmps.Userprog.BitMap.Bits.{IsValid, is_set, marked, cleared, mark-eq, clear-eq, test-eq}
use cmps.Userprog.BitMap.Bits.{with_word-IsValid, is_set-marked, is_set-cleared}

-- Every bit from `i` up to `j`, the latter left out, is set.
abbrev pub AllSet : BitMap → ℕ → ℕ → Type 0
AllSet m i j = (k : ℕ) → i ≤ k → k < j → is_set m k ≡ true

-- What a search of the bits below `n` finds: the first clear one, which it marks, or -1.
pub data Found (m : BitMap) (n : ℕ) (r : Option (ℕ × BitMap)) : Type 0 where
  first :
      (i : ℕ) → i < n → is_set m i ≡ false → AllSet m 0 i → r ≡ some (i, marked m i) → Found m n r
  full : AllSet m 0 n → r ≡ some (minus_one, m) → Found m n r

AllSet-suc : (m : BitMap) (i : ℕ) → AllSet m 0 i → is_set m i ≡ true → AllSet m 0 (i + 1)
AllSet-suc m i a e k p q = elim (dec_lt k i) [
  | yes below ↦ a k p below
  | no last ↦ subst (λ j. is_set m j ≡ true) (omega arith) e
]

module _ (n i : ℕ) (m : BitMap) (v : IsValid m) (lt : i < m.num_bits) where
  find_from-set : is_set m i ≡ true → find_from (suc n) i m ≡ find_from n (i + 1) m
  unfolding find_from
  find_from-set e = rw (test-eq m v i lt, e, find_from)

  find_from-clear : is_set m i ≡ false → find_from (suc n) i m ≡ some (i, marked m i)
  unfolding find_from
  find_from-clear e = rw (test-eq m v i lt, e, mark-eq m v i lt, find_from)

  count_from-step :
      (c : ℕ)
      → count_from (suc n) i c m ≡ count_from n (i + 1) (if not (is_set m i) then c + 1 else c) m
  unfolding count_from
  count_from-step c = rw (test-eq m v i lt, count_from)

  clear_from-step : clear_from (suc n) i m ≡ clear_from n (i + 1) (cleared m i)
  unfolding clear_from
  clear_from-step = rw (clear-eq m v i lt, clear_from)

find_from_lem :
    (n i : ℕ) (m : BitMap)
    → IsValid m
    → i + n ≡ m.num_bits
    → AllSet m 0 i
    → Found m m.num_bits (find_from n i m)
unfolding find_from
find_from_lem zero i m v e a = full (λ k p q. a k p (omega arith)) refl
find_from_lem (suc n) i m v e a = elim (Bool-cases (is_set m i)) [
  | inl set ↦
      rw (find_from-set n i m v (omega arith) set)
        (find_from_lem n (i + 1) m v (omega arith) (AllSet-suc m i a set))
  | inr free ↦ first i (omega arith) free a (find_from-clear n i m v (omega arith) free)
]

-- On a valid map `Find` returns the first clear bit, with that bit marked and nothing else
-- changed, or, when every bit is set, -1 with the map as it was.
pub find_lem : (m : BitMap) → IsValid m → Found m m.num_bits (find m)
unfolding find
find_lem m v = find_from_lem m.num_bits 0 m v (omega arith) (λ k p q. absurd (omega arith))

-- How many of the first `n` bits are clear.
unfoldable pub clear_below : BitMap → ℕ → ℕ
clear_below m zero = 0
clear_below m (suc n) = clear_below m n + (if is_set m n then 0 else 1)

clear_below-suc :
    (m : BitMap) (n : ℕ) → clear_below m (n + 1) ≡ clear_below m n + (if is_set m n then 0 else 1)
unfolding clear_below
clear_below-suc m n = ap (λ k. clear_below m k) (add-one n)

count_from_lem :
    (n i : ℕ) (m : BitMap)
    → IsValid m
    → i + n ≡ m.num_bits
    → count_from n i (clear_below m i) m ≡ some (clear_below m m.num_bits)
unfolding count_from
count_from_lem zero i m v e = ap (λ k. some (clear_below m k)) (omega arith)
count_from_lem (suc n) i m v e =
    count_from-step n i m v (omega arith) (clear_below m i)
    ∙ ap (λ c. count_from n (i + 1) c m) count
    ∙ count_from_lem n (i + 1) m v (omega arith)
  where
    count :
        (if not (is_set m i) then clear_below m i + 1 else clear_below m i) ≡ clear_below m (i + 1)
    count = ground (arith, clear_below-suc m i)

-- `NumClear` of a valid map is the number of its clear bits.
pub num_clear_lem : (m : BitMap) → IsValid m → num_clear m ≡ some (clear_below m m.num_bits)
unfolding num_clear clear_below
num_clear_lem m v = count_from_lem m.num_bits 0 m v (omega arith)

pub clear_below-full : (m : BitMap) (n : ℕ) → AllSet m 0 n → clear_below m n ≡ 0
unfolding clear_below
clear_below-full m zero a = refl
clear_below-full m (suc n) a =
    ground
      (arith, clear_below-full m n (λ k p q. a k p (omega arith)), a n (omega arith) (omega arith))

clear_below-marked_le :
    (m : BitMap) (v : IsValid m) (i : ℕ) (lt : i < m.num_bits) (n : ℕ)
    → n ≤ i
    → clear_below (marked m i) n ≡ clear_below m n
unfolding clear_below
clear_below-marked_le m v i lt zero h = refl
clear_below-marked_le m v i lt (suc n) h =
    ground (arith, clear_below-marked_le m v i lt n (omega arith), is_set-marked m v i lt n)

pub clear_below-marked :
    (m : BitMap) (v : IsValid m) (i : ℕ) (lt : i < m.num_bits) (n : ℕ)
    → i < n
    → is_set m i ≡ false
    → clear_below (marked m i) n + 1 ≡ clear_below m n
unfolding clear_below
clear_below-marked m v i lt zero h e = elim h [ ]
clear_below-marked m v i lt (suc n) h e = elim (dec_lt i n) [
  | yes below ↦ ground (arith, clear_below-marked m v i lt n below e, is_set-marked m v i lt n)
  | no last ↦
      let same : i ≡ n = omega arith in
      ground (
        arith,
        clear_below-marked_le m v i lt n (omega arith),
        is_set-marked m v i lt n,
        ap (λ k. is_set m k) same,
      )
]

clear_from_lem :
    (n i : ℕ) (m : BitMap)
    → IsValid m
    → i + n ≡ m.num_bits
    → ((k : ℕ) → k < i → is_set m k ≡ false)
    → (m' : BitMap) × (clear_from n i m ≡ some m')
      × IsValid m'
      × (m'.num_bits ≡ m.num_bits)
      × ((k : ℕ) → k < m.num_bits → is_set m' k ≡ false)
unfolding clear_from
clear_from_lem zero i m v e low = (m, refl, v, refl, λ k h. low k (omega arith))
clear_from_lem (suc n) i m v e low =
    let lt : i < m.num_bits = omega arith in
    let (m', eq, v', same, all) =
      clear_from_lem n (i + 1) (cleared m i) (with_word-IsValid m v i lt _) (omega arith)
        (low' lt) in
    (m', clear_from-step n i m v lt ∙ eq, v', same, all)
  where
    low' : (lt : i < m.num_bits) (k : ℕ) → k < i + 1 → is_set (cleared m i) k ≡ false
    low' lt k h = elim (dec_lt k i) [
      | yes below ↦ ground (arith, is_set-cleared m v i lt k, low k below)
      | no last ↦ ground (arith, is_set-cleared m v i lt k)
    ]

-- The constructor gives a map of `n` bits, all of them clear, whatever the fresh array holds.
pub new_bit_map_lem :
    (garbage : List ℕ) (n : ℕ)
    → n < 2 ^ 31
    → length garbage ≡ div_round_up n bits_in_word
    → (m : BitMap) × (new_bit_map garbage n ≡ some m)
      × IsValid m
      × (m.num_bits ≡ n)
      × ((k : ℕ) → k < n → is_set m k ≡ false)
unfolding new_bit_map
new_bit_map_lem garbage n small sized =
    clear_from_lem n 0 _ (ground arith) (omega arith) (λ k h. elim h [ ])
