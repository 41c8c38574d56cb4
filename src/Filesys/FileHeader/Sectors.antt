-- ===== src/Filesys/FileHeader/Sectors.antt =====
-- filesys/filehdr.cc: `ByteToSector` against the sequence of the file's data blocks.
use cmps.Prelude.{ℕ, zero, suc, ◌+◌, ◌-◌, ◌*◌, ◌/◌, ◌≤◌, ◌<◌, ◌≡◌, refl, arith, ap, ◌∙◌, sym}
use cmps.Prelude.{
  List, [], ◌∷◌, ◌++◌, some, length, take, get_elem?, get_or, ltb, leb, if◌then◌else◌, ◌>>=◌,
}
use cmps.Prelude.{
  get_elem?-eq-get_or, get_elem?-append_left, get_elem?-append_right, get_elem?-take, length-take,
  Bool-cases, inl, inr, ltb→lt, le_of_not_ltb,
}
use cmps.Filesys.FileHeader.{
  FileHeader, Disk, byte_to_sector, read_sector, max_file_size1, max_file_size2, num_disk_sectors,
}

-- The words of the sectors that a list names, in order.
unfoldable pub contents_of : Disk → List ℕ → List ℕ
contents_of d [] = []
contents_of d (b ∷ bs) = d b ++ contents_of d bs

-- The data blocks in the order of the file: the direct pointers, then those in the pointer block,
-- then those in each block that the block of the last pointer names.
unfoldable pub data_blocks : FileHeader → Disk → List ℕ
unfolding contents_of
data_blocks hdr d =
    if leb hdr.num_bytes max_file_size1
    then hdr.data_sectors
    else if leb hdr.num_bytes max_file_size2
    then take 61 hdr.data_sectors ++ d (get_or hdr.data_sectors 61 0)
    else take 60 hdr.data_sectors
      ++ (d (get_or hdr.data_sectors 60 0) ++ contents_of d (d (get_or hdr.data_sectors 61 0)))

abbrev pub AllOnDisk : List ℕ → Type 0
AllOnDisk [] = Unit
AllOnDisk (b ∷ bs) = (b < num_disk_sectors) × AllOnDisk bs

-- A header and a disk of the right sizes, whose pointers are sectors of the disk.
pub record IsLaidOut (hdr : FileHeader) (d : Disk) : Type 0 where
  pub header_size : length hdr.data_sectors ≡ 62
  pub sector_words : (s : ℕ) → length (d s) ≡ 64
  pub direct_on_disk : AllOnDisk hdr.data_sectors
  pub blocks_on_disk : AllOnDisk (d (get_or hdr.data_sectors 61 0))

AllOnDisk-get_or : (bs : List ℕ) (i : ℕ) → AllOnDisk bs → get_or bs i 0 < num_disk_sectors
AllOnDisk-get_or [] i h = omega arith
AllOnDisk-get_or (b ∷ bs) zero h = h.0
AllOnDisk-get_or (b ∷ bs) (suc i) h = AllOnDisk-get_or bs i h.1

pub read_sector-eq : (d : Disk) (b : ℕ) → b < num_disk_sectors → read_sector d b ≡ some (d b)
unfolding read_sector
read_sector-eq d b h = ground arith

contents_of-get :
    (d : Disk)
    → ((s : ℕ) → length (d s) ≡ 64)
    → (bs : List ℕ) → AllOnDisk bs
    → (q r : ℕ) → r < 64
    → (do deep ← get_elem? bs q; ptrs ← read_sector d deep; get_elem? ptrs r)
      ≡ get_elem? (contents_of d bs) (64 * q + r)
unfolding contents_of
contents_of-get d w [] h q r lt = refl
contents_of-get d w (b ∷ bs) h zero r lt =
    rw (read_sector-eq d b h.0) (sym (here ∙ ap (λ k. get_elem? (d b) k) low))
  where
    low : 64 * 0 + r ≡ r
    low = omega arith

    here : get_elem? (d b ++ contents_of d bs) (64 * 0 + r) ≡ get_elem? (d b) (64 * 0 + r)
    here = get_elem?-append_left (d b) (contents_of d bs) (64 * 0 + r) (omega (arith, w b))
contents_of-get d w (b ∷ bs) h (suc q) r lt =
    contents_of-get d w bs h.1 q r lt
    ∙ sym (
        get_elem?-append_right (d b) (contents_of d bs) (64 * suc q + r) (64 * q + r)
          (omega (arith, w b)))

module _ (hdr : FileHeader) (d : Disk) (offset : ℕ) (v : IsLaidOut hdr d) where
  open hdr use {data_sectors}

  abbrev pointer : ℕ → ℕ
  pointer i = get_or data_sectors i 0

  pointer-eq : (i : ℕ) → i < 62 → get_elem? data_sectors i ≡ some (pointer i)
  pointer-eq i lt = get_elem?-eq-get_or data_sectors i 0 (omega (arith, v.header_size))

  block-eq : (i : ℕ) → read_sector d (pointer i) ≡ some (d (pointer i))
  block-eq i = read_sector-eq d (pointer i) (AllOnDisk-get_or data_sectors i v.direct_on_disk)

  -- The first `n` pointers are direct, and `rest` stands for the blocks behind them.
  direct_part :
      (n : ℕ) (rest : List ℕ)
      → n ≤ 62
      → offset < n * 256
      → get_elem? data_sectors (offset / 256)
        ≡ get_elem? (take n data_sectors ++ rest) (offset / 256)
  direct_part n rest le lt = sym (
      get_elem?-append_left (take n data_sectors) rest (offset / 256)
        (omega (arith, length-take n data_sectors, v.header_size))
      ∙ get_elem?-take n data_sectors (offset / 256) (omega arith))

  direct_length : (n : ℕ) → n ≤ 62 → length (take n data_sectors) ≡ n
  direct_length n le = omega (arith, length-take n data_sectors, v.header_size)

  single_layout :
      (if ltb offset 15616 then get_elem? data_sectors (offset / 256) else (do
        block ← get_elem? data_sectors 61
        ptrs ← read_sector d block
        get_elem? ptrs ((offset - 15616) / 256)))
      ≡ get_elem? (take 61 data_sectors ++ d (pointer 61)) (offset / 256)
  single_layout = elim (Bool-cases (ltb offset 15616)) [
    | inl low ↦ rw low (direct_part 61 (d (pointer 61)) (omega arith) (ltb→lt _ _ low))
    | inr high ↦
        rw (high, pointer-eq 61 (omega arith), block-eq 61)
          (sym (
            get_elem?-append_right (take 61 data_sectors) (d (pointer 61)) (offset / 256)
              ((offset - 15616) / 256)
              (omega (arith, direct_length 61 (omega arith), le_of_not_ltb _ _ high))))
  ]

  past : ℕ
  past = offset - 15360 - 16384

  deep_part :
      31744 ≤ offset
      → (do
        block ← get_elem? data_sectors 61
        blocks ← read_sector d block
        deep ← get_elem? blocks (past / 16384)
        ptrs ← read_sector d deep
        get_elem? ptrs ((past - 16384 * (past / 16384)) / 256))
        ≡ get_elem?
            (take 60 data_sectors ++ (d (pointer 60) ++ contents_of d (d (pointer 61))))
            (offset / 256)
  unfolding past
  deep_part le =
      rw (pointer-eq 61 (omega arith), block-eq 61)
        (contents_of-get d v.sector_words (d (pointer 61)) v.blocks_on_disk (past / 16384)
            ((past - 16384 * (past / 16384)) / 256) (omega arith)
          ∙ sym (
              get_elem?-append_right (d (pointer 60)) (contents_of d (d (pointer 61)))
                (64 + past / 256) (64 * (past / 16384) + (past - 16384 * (past / 16384)) / 256)
                (omega (arith, v.sector_words (pointer 60))))
          ∙ sym (
              get_elem?-append_right (take 60 data_sectors)
                (d (pointer 60) ++ contents_of d (d (pointer 61))) (offset / 256) (64 + past / 256)
                (omega (arith, direct_length 60 (omega arith)))))

  middle_part :
      15360 ≤ offset
      → offset < 31744
      → (do
        block ← get_elem? data_sectors 60
        ptrs ← read_sector d block
        get_elem? ptrs ((offset - 15360) / 256))
        ≡ get_elem?
            (take 60 data_sectors ++ (d (pointer 60) ++ contents_of d (d (pointer 61))))
            (offset / 256)
  middle_part le lt =
      rw (pointer-eq 60 (omega arith), block-eq 60)
        (sym (
            get_elem?-append_left (d (pointer 60)) (contents_of d (d (pointer 61)))
              ((offset - 15360) / 256) (omega (arith, v.sector_words (pointer 60))))
          ∙ sym (
              get_elem?-append_right (take 60 data_sectors)
                (d (pointer 60) ++ contents_of d (d (pointer 61))) (offset / 256)
                ((offset - 15360) / 256) (omega (arith, direct_length 60 (omega arith)))))

  abbrev double_blocks : List ℕ
  double_blocks = take 60 data_sectors ++ (d (pointer 60) ++ contents_of d (d (pointer 61)))

  double_layout :
      (if ltb offset 15360
        then get_elem? data_sectors (offset / 256)
        else if ltb offset 31744
        then (do
          block ← get_elem? data_sectors 60
          ptrs ← read_sector d block
          get_elem? ptrs ((offset - 15360) / 256))
        else (do
          block ← get_elem? data_sectors 61
          blocks ← read_sector d block
          deep ← get_elem? blocks ((offset - 15360 - 16384) / 16384)
          ptrs ← read_sector d deep
          get_elem? ptrs
              ((offset - 15360 - 16384 - 16384 * ((offset - 15360 - 16384) / 16384)) / 256)))
      ≡ get_elem? double_blocks (offset / 256)
  unfolding past
  double_layout = elim (Bool-cases (ltb offset 15360)) [
    | inl low ↦ rw low (direct_part 60 _ (omega arith) (ltb→lt _ _ low))
    | inr high ↦ elim (Bool-cases (ltb offset 31744)) [
      | inl below ↦ rw (high, below) (middle_part (le_of_not_ltb _ _ high) (ltb→lt _ _ below))
      | inr beyond ↦ rw (high, beyond) (deep_part (le_of_not_ltb _ _ beyond))
    ]
  ]

-- For a header laid out on the disk, whichever of the three layouts its size asks for,
-- `ByteToSector` finds for every offset the block of the file's sequence of data blocks in which
-- that byte lies, and reads out of bounds where that sequence has ended.
pub byte_to_sector-data_blocks :
    (hdr : FileHeader) (d : Disk) (offset : ℕ)
    → IsLaidOut hdr d
    → byte_to_sector hdr d offset ≡ get_elem? (data_blocks hdr d) (offset / 256)
unfolding byte_to_sector data_blocks
byte_to_sector-data_blocks hdr d offset v = elim (Bool-cases (leb hdr.num_bytes 15872)) [
  | inl small ↦ rw small
  | inr more ↦ elim (Bool-cases (leb hdr.num_bytes 31744)) [
    | inl medium ↦ rw (more, medium) (single_layout hdr d offset v)
    | inr large ↦ rw (more, large) (double_layout hdr d offset v)
  ]
]
