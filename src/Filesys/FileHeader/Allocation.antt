-- ===== src/Filesys/FileHeader/Allocation.antt =====
-- filesys/filehdr.cc: what allocating the direct blocks of a file takes from the free map, and
-- that `Deallocate` gives it back.
use cmps.Prelude.{
  ℕ, zero, suc, ◌+◌, ◌-◌, ◌≤◌, ◌<◌, ◌≡◌, refl, arith, ap, ◌∙◌, Bool, true, false, ◌||◌,
}
use cmps.Prelude.{
  List, [], ◌∷◌, some, length, set, ◌==◌, Bool-cases, inl, inr, lt→ltb, le→leb, not_ltb_of_le,
}
use cmps.Userprog.BitMap.{BitMap, div_round_up, find}
use cmps.Userprog.BitMap.Bits.{IsValid, is_set, marked, with_word-IsValid, is_set-marked}
use cmps.Userprog.BitMap.Find.{
  Found, first, full, find_lem, clear_below, clear_below-marked, clear_below-full, num_clear_lem,
}
use cmps.Filesys.FileHeader.{
  FileHeader, Disk, direct_allocation, direct_loop, allocate, max_file_size1,
}

-- `Taken m ss n`: calls of `Find`, one after the other, give the sectors `ss` and turn `m` to `n`.
pub data Taken : BitMap → List ℕ → BitMap → Type 0 where
  done : {m : BitMap} → Taken m [] m
  next :
      {m n : BitMap} {ss : List ℕ} (i : ℕ)
      → i < m.num_bits
      → is_set m i ≡ false
      → Taken (marked m i) ss n
      → Taken m (i ∷ ss) n

unfoldable pub elem : ℕ → List ℕ → Bool
elem i [] = false
elem i (s ∷ ss) = s == i || elem i ss

abbrev pub AreDistinct : List ℕ → Type 0
AreDistinct [] = Unit
AreDistinct (s ∷ ss) = (elem s ss ≡ false) × AreDistinct ss

-- What a run of `Find` does to a valid map.
pub record IsTaken (m : BitMap) (ss : List ℕ) (n : BitMap) : Type 0 where
  pub valid : IsValid n
  pub bits : n.num_bits ≡ m.num_bits
  pub was_clear : (i : ℕ) → elem i ss ≡ true → (i < m.num_bits) × (is_set m i ≡ false)
  pub now_set : (i : ℕ) → is_set n i ≡ (elem i ss || is_set m i)
  pub distinct : AreDistinct ss
  pub fewer : clear_below n m.num_bits + length ss ≡ clear_below m m.num_bits

elem_of_set :
    (m : BitMap) (ss : List ℕ) {n : BitMap}
    → IsTaken m ss n
    → (i : ℕ) → is_set m i ≡ true
    → elem i ss ≡ false
elem_of_set m ss t i e = elim (Bool-cases (elem i ss)) [
  | inl inside ↦ ground (arith, t.was_clear i inside)
  | inr outside ↦ outside
]

IsTaken-next :
    (m : BitMap) (v : IsValid m) (i : ℕ) (lt : i < m.num_bits) (e : is_set m i ≡ false)
    (ss : List ℕ) {n : BitMap}
    → IsTaken (marked m i) ss n
    → IsTaken m (i ∷ ss) n
unfolding elem
IsTaken-next m v i lt e ss t = record {
  valid = t.valid;
  bits = t.bits;
  was_clear = λ j h.
      ground (arith, t.was_clear j, is_set-marked m v i lt j, ap (λ k. is_set m k) {x = i} {y = j});
  now_set = λ j. ground (arith, t.now_set j, is_set-marked m v i lt j);
  distinct =
      (elem_of_set (marked m i) ss t i (ground (arith, is_set-marked m v i lt i)), t.distinct);
  fewer = omega (arith, t.fewer, clear_below-marked m v i lt m.num_bits lt e);
}

pub Taken-IsTaken : {m n : BitMap} {ss : List ℕ} → IsValid m → Taken m ss n → IsTaken m ss n
unfolding elem
Taken-IsTaken v done = record {
  valid = v;
  bits = refl;
  was_clear = λ i e. cc;
  now_set = λ i. refl;
  distinct = tt;
  fewer = omega arith;
}
Taken-IsTaken {m = m} v (next {ss = ss} i lt e t) =
    IsTaken-next m v i lt e ss (Taken-IsTaken (with_word-IsValid m v i lt _) t)

-- While a clear bit is left, `Find` takes one.
pub find-taken :
    (m : BitMap)
    → IsValid m
    → 0 < clear_below m m.num_bits
    → (i : ℕ) × (i < m.num_bits) × (is_set m i ≡ false) × (find m ≡ some (i, marked m i))
find-taken m v c = go (find_lem m v)
  where
    go :
        Found m m.num_bits (find m)
        → (i : ℕ) × (i < m.num_bits) × (is_set m i ≡ false) × (find m ≡ some (i, marked m i))
    go (first i lt e a r) = (i, lt, e, r)
    go (full a r) = absurd (omega (arith, clear_below-full m m.num_bits a))

-- The pointers `ss` written from index `i` on.
unfoldable pub write_ptrs : List ℕ → ℕ → List ℕ → List ℕ
write_ptrs ptrs i [] = ptrs
write_ptrs ptrs i (s ∷ ss) = write_ptrs (set ptrs i s) (i + 1) ss

direct_loop-step :
    (n i : ℕ) (ptrs : List ℕ) (m : BitMap) (r j : ℕ) (m' : BitMap)
    → 0 < r
    → find m ≡ some (j, m')
    → direct_loop (suc n) i ptrs m r ≡ direct_loop n (i + 1) (set ptrs i j) m' (r - 1)
unfolding direct_loop direct_allocation
direct_loop-step n i ptrs m r j m' lt e = rw (lt→ltb 0 r lt, e)

-- What the loop over the direct pointers gives, with `r` sectors due and `n` pointers to write.
pub DirectLoop : ℕ → ℕ → List ℕ → BitMap → ℕ → Type 0
DirectLoop n i ptrs m r =
    (ss : List ℕ) × (m' : BitMap) × Taken m ss m'
    × (length ss ≡ n)
    × (direct_loop n i ptrs m r ≡ some (write_ptrs ptrs i ss, m', r - n))

DirectLoop-next :
    (n i : ℕ) (ptrs : List ℕ) (m : BitMap) (r j : ℕ)
    → 0 < r
    → j < m.num_bits
    → is_set m j ≡ false
    → find m ≡ some (j, marked m j)
    → DirectLoop n (i + 1) (set ptrs i j) (marked m j) (r - 1)
    → DirectLoop (suc n) i ptrs m r
unfolding DirectLoop write_ptrs
DirectLoop-next n i ptrs m r j lt jlt e found (ss, m', t, l, eq) = (
  j ∷ ss,
  m',
  next j jlt e t,
  omega arith,
  direct_loop-step n i ptrs m r j (marked m j) lt found
      ∙ eq
      ∙ ap (λ k. some (write_ptrs ptrs i (j ∷ ss), m', k)) minus,
)
  where
    minus : r - 1 - n ≡ r - suc n
    minus = omega arith

direct_loop_lem :
    (n i : ℕ) (ptrs : List ℕ) (m : BitMap) (r : ℕ)
    → IsValid m
    → n ≤ r
    → n ≤ clear_below m m.num_bits
    → DirectLoop n i ptrs m r
unfolding direct_loop write_ptrs DirectLoop
direct_loop_lem zero i ptrs m r v le c = ([], m, done, refl, ap (λ k. some (ptrs, m, k)) minus)
  where
    minus : r ≡ r - 0
    minus = omega arith
direct_loop_lem (suc n) i ptrs m r v le c =
    let (j, lt, e, found) = find-taken m v (omega arith) in
    DirectLoop-next n i ptrs m r j (omega arith) lt e found (
      direct_loop_lem n (i + 1) (set ptrs i j) (marked m j) (r - 1) (with_word-IsValid m v j lt _)
        (omega arith) (omega (arith, clear_below-marked m v j lt m.num_bits lt e)))

-- `divRoundUp(fileSize, SectorSize)`
abbrev pub sectors_for : ℕ → ℕ
sectors_for size = div_round_up size 256

-- A file of at most 15872 bytes, on a valid map with at least as many clear bits as the file has
-- sectors: `Allocate` reports success, leaves the disk alone, writes into the first entries of the
-- header the numbers of that many distinct sectors that were clear, marks those sectors and no
-- others, and so lowers the number of clear bits by exactly that many.
pub allocate_small :
    (hdr : FileHeader) (d : Disk) (m : BitMap) (size : ℕ)
    → IsValid m
    → size ≤ max_file_size1
    → sectors_for size ≤ clear_below m m.num_bits
    → (ss : List ℕ) × (m' : BitMap) × (allocate hdr d m size
        ≡ some (
          true,
          record {
            num_bytes = size;
            num_sectors = sectors_for size;
            data_sectors = write_ptrs hdr.data_sectors 0 ss;
          },
          d,
          m',
        ))
      × (length ss ≡ sectors_for size)
      × IsTaken m ss m'
unfolding allocate DirectLoop
allocate_small hdr d m size v small room =
    let (ss, m', t, l, eq) =
      direct_loop_lem (sectors_for size) 0 hdr.data_sectors m (sectors_for size) v (omega arith)
        room in
    (
      ss,
      m',
      rw (num_clear_lem m v, not_ltb_of_le _ _ room, le→leb _ _ small, eq),
      l,
      Taken-IsTaken v t,
    )
