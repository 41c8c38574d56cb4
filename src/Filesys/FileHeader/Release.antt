-- ===== src/Filesys/FileHeader/Release.antt =====
-- filesys/filehdr.cc: `Deallocate` undoes `Allocate` for a file of direct blocks.
use cmps.Prelude.{ℕ, zero, suc, ◌+◌, ◌≤◌, ◌<◌, ◌≡◌, refl, arith, ap, ◌∙◌, true, false, not, ◌&&◌}
use cmps.Prelude.{
  List, [], ◌∷◌, some, length, set, get_elem?, get_elem?-set_self, get_elem?-set_ne, length-set,
  Bool-cases, ==_of_eq, le→leb, Bool-cases, inl, inr,
}
use cmps.Userprog.BitMap.{BitMap}
use cmps.Userprog.BitMap.Bits.{
  IsValid, is_set, cleared, with_word-IsValid, is_set-cleared, test-eq, clear-eq,
}
use cmps.Userprog.BitMap.Find.{clear_below}
use cmps.Filesys.FileHeader.{
  FileHeader, Disk, release, release_loop, allocate, deallocate, max_file_size1,
}
use cmps.Filesys.FileHeader.Allocation.{
  elem, AreDistinct, IsTaken, write_ptrs, sectors_for, allocate_small,
}

-- The sectors `ss` are given back: they are clear in `n`, and all else is as in `m`.
pub record IsReleased (m : BitMap) (ss : List ℕ) (n : BitMap) : Type 0 where
  pub valid : IsValid n
  pub bits : n.num_bits ≡ m.num_bits
  pub now_clear : (i : ℕ) → is_set n i ≡ (not (elem i ss) && is_set m i)

-- From index `i` on, `ptrs` holds `ss`.
abbrev Holds : List ℕ → ℕ → List ℕ → Type 0
Holds ptrs i ss = (k : ℕ) → k < length ss → get_elem? ptrs (i + k) ≡ get_elem? ss k

release-eq :
    (m : BitMap) (v : IsValid m) (i : ℕ)
    → i < m.num_bits
    → is_set m i ≡ true
    → release m i ≡ some (cleared m i)
unfolding release
release-eq m v i lt e = rw (test-eq m v i lt, e, clear-eq m v i lt)

Holds-next :
    (ptrs : List ℕ) (i s : ℕ) (ss : List ℕ) (x : ℕ)
    → Holds ptrs i (s ∷ ss)
    → Holds (set ptrs i x) (i + 1) ss
Holds-next ptrs i s ss x h k lt =
    get_elem?-set_ne ptrs x (ne i k)
    ∙ ap (λ j. get_elem? ptrs j) (shift i k)
    ∙ h (suc k) (omega arith)
  where
    ne : (i k : ℕ) → i ≡ i + 1 + k → ⊥
    ne i k e = omega arith

    shift : (i k : ℕ) → i + 1 + k ≡ i + suc k
    shift i k = omega arith

Holds-here :
    (ptrs : List ℕ) (i s : ℕ) (ss : List ℕ) → Holds ptrs i (s ∷ ss) → get_elem? ptrs i ≡ some s
Holds-here ptrs i s ss h = ap (λ j. get_elem? ptrs j) same ∙ h 0 (omega arith)
  where
    same : i ≡ i + 0
    same = omega arith

module _ (m : BitMap) (v : IsValid m) (s : ℕ) (lt : s < m.num_bits) (ss : List ℕ) where
  still_set :
      elem s ss ≡ false
      → ((j : ℕ) → elem j (s ∷ ss) ≡ true → (j < m.num_bits) × (is_set m j ≡ true))
      → (j : ℕ) → elem j ss ≡ true
      → (j < m.num_bits) × (is_set (cleared m s) j ≡ true)
  unfolding elem
  still_set out owned j inside =
      ground (arith, owned j, is_set-cleared m v s lt j, ap (λ k. elem k ss) {x = s} {y = j})

  IsReleased-next : {n : BitMap} → IsReleased (cleared m s) ss n → IsReleased m (s ∷ ss) n
  unfolding elem
  IsReleased-next r = record {
    valid = r.valid;
    bits = r.bits;
    now_clear = λ j. ground (arith, r.now_clear j, is_set-cleared m v s lt j);
  }

-- The loop over pointers to distinct, marked sectors gives each of them back.
ReleaseLoop : List ℕ → ℕ → List ℕ → BitMap → Type 0
ReleaseLoop ss i ptrs m =
    (ptrs' : List ℕ) × (n : BitMap) × (release_loop (length ss) i ptrs m ≡ some (ptrs', n))
    × IsReleased m ss n

release_loop-step :
    (n i : ℕ) (ptrs : List ℕ) (m : BitMap) (s : ℕ) (m' : BitMap)
    → get_elem? ptrs i ≡ some s
    → release m s ≡ some m'
    → release_loop (suc n) i ptrs m ≡ release_loop n (i + 1) (set ptrs i 0) m'
unfolding release_loop
release_loop-step n i ptrs m s m' e f = rw (e, f)

release_loop_lem :
    (ss : List ℕ) (i : ℕ) (ptrs : List ℕ) (m : BitMap)
    → IsValid m
    → Holds ptrs i ss
    → AreDistinct ss
    → ((j : ℕ) → elem j ss ≡ true → (j < m.num_bits) × (is_set m j ≡ true))
    → ReleaseLoop ss i ptrs m
unfolding release_loop elem ReleaseLoop
release_loop_lem [] i ptrs m v h u owned =
    (ptrs, m, refl, record { valid = v; bits = refl; now_clear = λ j. refl })
release_loop_lem (s ∷ ss) i ptrs m v h u owned =
    let (lt, e) = owned s (rw (==_of_eq s s refl)) in
    let (ptrs', n, eq, r) =
      release_loop_lem ss (i + 1) (set ptrs i 0) (cleared m s) (with_word-IsValid m v s lt _)
        (Holds-next ptrs i s ss 0 h) u.1 (still_set m v s lt ss u.0 owned) in
    (
      ptrs',
      n,
      release_loop-step (length ss) i ptrs m s (cleared m s) (Holds-here ptrs i s ss h)
            (release-eq m v s lt e)
          ∙ eq,
      IsReleased-next m v s lt ss r,
    )

write_ptrs-below :
    (ptrs : List ℕ) (i : ℕ) (ss : List ℕ) (j : ℕ)
    → j < i
    → get_elem? (write_ptrs ptrs i ss) j ≡ get_elem? ptrs j
unfolding write_ptrs
write_ptrs-below ptrs i [] j lt = refl
write_ptrs-below ptrs i (s ∷ ss) j lt =
    write_ptrs-below (set ptrs i s) (i + 1) ss j (omega arith)
    ∙ get_elem?-set_ne ptrs s (omega arith)

write_ptrs-Holds :
    (ptrs : List ℕ) (i : ℕ) (ss : List ℕ)
    → i + length ss ≤ length ptrs
    → Holds (write_ptrs ptrs i ss) i ss
unfolding write_ptrs
write_ptrs-Holds ptrs i [] le k lt = elim lt [ ]
write_ptrs-Holds ptrs i (s ∷ ss) le zero lt =
    ap (λ j. get_elem? (write_ptrs (set ptrs i s) (i + 1) ss) j) same
    ∙ write_ptrs-below (set ptrs i s) (i + 1) ss i (omega arith)
    ∙ get_elem?-set_self ptrs i s (omega arith)
  where
    same : i + 0 ≡ i
    same = omega arith
write_ptrs-Holds ptrs i (s ∷ ss) le (suc k) lt =
    ap (λ j. get_elem? (write_ptrs (set ptrs i s) (i + 1) ss) j) (shift i k)
    ∙ write_ptrs-Holds (set ptrs i s) (i + 1) ss (omega (arith, length-set ptrs i s)) k
        (omega arith)
  where
    shift : (i k : ℕ) → i + suc k ≡ i + 1 + k
    shift i k = omega arith

sectors_for-le : (size : ℕ) → size ≤ max_file_size1 → sectors_for size ≤ 62
sectors_for-le size h = ground arith

module _ (m : BitMap) (ss : List ℕ) (m1 : BitMap) (t : IsTaken m ss m1) where
  taken_owned : (j : ℕ) → elem j ss ≡ true → (j < m1.num_bits) × (is_set m1 j ≡ true)
  taken_owned j inside =
      (omega (arith, (t.was_clear j inside).0, t.bits), ground (arith, t.now_set j))

  pub released_same : {m2 : BitMap} → IsReleased m1 ss m2 → (i : ℕ) → is_set m2 i ≡ is_set m i
  released_same r i = elim (Bool-cases (elem i ss)) [
    | inl inside ↦ ground (arith, r.now_clear i, t.now_set i, t.was_clear i inside)
    | inr outside ↦ ground (arith, r.now_clear i, t.now_set i)
  ]

-- The header of a file with direct blocks `ss`.
abbrev pub small_header : FileHeader → ℕ → List ℕ → FileHeader
small_header hdr size ss = record {
  num_bytes = size;
  num_sectors = sectors_for size;
  data_sectors = write_ptrs hdr.data_sectors 0 ss;
}

-- A file with direct blocks is allocated, and can be deallocated whatever the disk is then.
pub record AllocatedSmall (hdr : FileHeader) (d : Disk) (m : BitMap) (size : ℕ) : Type 0 where
  pub sectors : List ℕ
  pub taken_map : BitMap
  pub emptied : FileHeader
  pub freed_map : BitMap
  pub allocated : allocate hdr d m size ≡ some (true, small_header hdr size sectors, d, taken_map)
  pub taken : IsTaken m sectors taken_map
  pub deallocated :
      (d' : Disk)
      → deallocate (small_header hdr size sectors) d' taken_map ≡ some (emptied, freed_map)
  pub freed : IsReleased taken_map sectors freed_map

pub allocated_small :
    (hdr : FileHeader) (d : Disk) (m : BitMap) (size : ℕ)
    → IsValid m
    → length hdr.data_sectors ≡ 62
    → size ≤ max_file_size1
    → sectors_for size ≤ clear_below m m.num_bits
    → AllocatedSmall hdr d m size
unfolding deallocate ReleaseLoop
allocated_small hdr d m size v sized small room =
    let (ss, m1, allocated, count, t) = allocate_small hdr d m size v small room in
    let (ptrs, m2, released, r) =
      release_loop_lem ss 0 (write_ptrs hdr.data_sectors 0 ss) m1 t.valid
        (write_ptrs-Holds hdr.data_sectors 0 ss (omega (arith, sectors_for-le size small, count)))
        t.distinct (taken_owned m ss m1 t) in
    record {
      sectors = ss;
      taken_map = m1;
      emptied = record { num_bytes = size; num_sectors = sectors_for size; data_sectors = ptrs };
      freed_map = m2;
      allocated = allocated;
      taken = t;
      deallocated = λ d'. rw (le→leb _ _ small, ← count, released) refl;
      freed = r;
    }

-- A file of at most 15872 bytes for which the valid map has room, in a header with its 62
-- pointers: `Allocate` succeeds, `Deallocate` of the header that it gives succeeds too, and then
-- every bit of the map is as it was before.
pub deallocate-allocate :
    (hdr : FileHeader) (d : Disk) (m : BitMap) (size : ℕ)
    → IsValid m
    → length hdr.data_sectors ≡ 62
    → size ≤ max_file_size1
    → sectors_for size ≤ clear_below m m.num_bits
    → (hdr1 : FileHeader) × (m1 : BitMap) × (hdr2 : FileHeader) × (m2 : BitMap) × (allocate hdr d m
          size
        ≡ some (true, hdr1, d, m1))
      × (deallocate hdr1 d m1 ≡ some (hdr2, m2))
      × ((i : ℕ) → is_set m2 i ≡ is_set m i)
deallocate-allocate hdr d m size v sized small room =
    let h : AllocatedSmall hdr d m size = allocated_small hdr d m size v sized small room in
    (
      small_header hdr size h.sectors,
      h.taken_map,
      h.emptied,
      h.freed_map,
      h.allocated,
      h.deallocated d,
      released_same m h.sectors h.taken_map h.taken h.freed,
    )
