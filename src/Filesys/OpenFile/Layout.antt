-- ===== src/Filesys/OpenFile/Layout.antt =====
-- filesys/openfile.cc: the headers of filesys/filehdr.cc, in their three layouts, are files that can
-- be read and written; and the header kept in a sector.
use cmps.Prelude.{
  ℕ, zero, suc, ◌*◌, ◌/◌, ◌≤◌, ◌<◌, ◌≡◌, ◌≢◌, inl, inr, refl, arith, ap, ap₂, ◌∙◌, sym, subst,
}
use cmps.Prelude.{
  true, false, ==_of_eq, List, [], ◌∷◌, ◌++◌, some, length, take, get_or, get_elem?, leb,
  if◌then◌else◌, Bool-cases, get_elem?-eq-get_or,
}
use cmps.Filesys.FileHeader.{FileHeader, Disk, byte_to_sector, num_disk_sectors}
use cmps.Filesys.FileHeader.Sectors.{
  IsLaidOut, AllOnDisk, contents_of, data_blocks, byte_to_sector-data_blocks, read_sector-eq,
}
use cmps.Filesys.OpenFile.{fetch_from, write_back}
use cmps.Filesys.OpenFile.Read.{AgreeOutside, IsFile}
use cmps.Filesys.OpenFile.Write.{replaced, write_sector-eq}

-- The sectors that say where the data blocks are.
unfoldable pub pointer_blocks : FileHeader → Disk → List ℕ
pointer_blocks hdr d =
    if leb hdr.num_bytes 15872
    then []
    else if leb hdr.num_bytes 31744
    then get_or hdr.data_sectors 61 0 ∷ []
    else get_or hdr.data_sectors 60 0
      ∷ get_or hdr.data_sectors 61 0
      ∷ d (get_or hdr.data_sectors 61 0)

-- A header with all its blocks, all different, none of which holds pointers.
pub record IsSound (hdr : FileHeader) (d : Disk) : Type 0 where
  pub laid_out : IsLaidOut hdr d
  pub sized : hdr.num_bytes ≤ hdr.num_sectors * 256
  pub enough : hdr.num_sectors ≤ length (data_blocks hdr d)
  pub on_disk : (i : ℕ) → i < hdr.num_sectors → get_or (data_blocks hdr d) i 0 < num_disk_sectors
  pub distinct :
      (i j : ℕ)
      → i < hdr.num_sectors
      → j < hdr.num_sectors
      → get_or (data_blocks hdr d) i 0 ≡ get_or (data_blocks hdr d) j 0
      → i ≡ j
  pub apart :
      (i k : ℕ)
      → i < hdr.num_sectors
      → k < length (pointer_blocks hdr d)
      → get_or (data_blocks hdr d) i 0 ≢ get_or (pointer_blocks hdr d) k 0

-- The `i`-th data block of a file.
abbrev pub block_of : FileHeader → Disk → ℕ → ℕ
block_of hdr d i = get_or (data_blocks hdr d) i 0

contents_of-agree :
    (d d' : Disk) (bs : List ℕ)
    → ((k : ℕ) → k < length bs → d' (get_or bs k 0) ≡ d (get_or bs k 0))
    → contents_of d' bs ≡ contents_of d bs
unfolding contents_of
contents_of-agree d d' [] same = refl
contents_of-agree d d' (b ∷ bs) same =
    ap₂ (λ xs ys. xs ++ ys) (same zero (omega arith))
      (contents_of-agree d d' bs (λ k lt. same (suc k) (omega arith)))

data_blocks-agree :
    (hdr : FileHeader) (d d' : Disk)
    → ((k : ℕ)
        → k < length (pointer_blocks hdr d)
        → d' (get_or (pointer_blocks hdr d) k 0) ≡ d (get_or (pointer_blocks hdr d) k 0))
    → data_blocks hdr d' ≡ data_blocks hdr d
unfolding data_blocks pointer_blocks
data_blocks-agree hdr d d' = elim (Bool-cases (leb hdr.num_bytes 15872)) [
  | inl small ↦ rw small (λ same. refl)
  | inr more ↦ elim (Bool-cases (leb hdr.num_bytes 31744)) [
    | inl medium ↦
        rw (more, medium)
          (λ same. ap (λ xs. take 61 hdr.data_sectors ++ xs) (same zero (omega arith)))
    | inr large ↦
        rw (more, large)
          (λ same.
            ap₂ (λ xs ys. take 60 hdr.data_sectors ++ (xs ++ ys)) (same zero (omega arith))
              (ap (λ bs. contents_of d' bs) (same (suc zero) (omega arith))
                ∙ contents_of-agree d d' (d (get_or hdr.data_sectors 61 0))
                    (λ k lt. same (suc (suc k)) (omega arith))))
  ]
]

byte_to_sector_small :
    (hdr : FileHeader) (d : Disk) (offset : ℕ)
    → leb hdr.num_bytes 15872 ≡ true
    → byte_to_sector hdr d offset ≡ get_elem? (data_blocks hdr d) (offset / 256)
unfolding byte_to_sector data_blocks
byte_to_sector_small hdr d offset small = rw small refl

module _ (hdr : FileHeader) (d d' : Disk) (i : ℕ) (h : IsSound hdr d)
    (same : AgreeOutside hdr.num_sectors (block_of hdr d) d d') where
  pointers_same :
      (k : ℕ)
      → k < length (pointer_blocks hdr d)
      → d' (get_or (pointer_blocks hdr d) k 0) ≡ d (get_or (pointer_blocks hdr d) k 0)
  pointers_same k lt = same (get_or (pointer_blocks hdr d) k 0) (λ i' lt'. h.apart i' k lt' lt)

  last_same :
      leb hdr.num_bytes 15872 ≡ false
      → d' (get_or hdr.data_sectors 61 0) ≡ d (get_or hdr.data_sectors 61 0)
  unfolding pointer_blocks
  last_same more = elim (Bool-cases (leb hdr.num_bytes 31744)) [
    | inl medium ↦ from_medium medium pointers_same
    | inr large ↦ from_large large pointers_same
  ]
    where
      from_medium :
          leb hdr.num_bytes 31744 ≡ true
          → ((k : ℕ)
              → k < length (pointer_blocks hdr d)
              → d' (get_or (pointer_blocks hdr d) k 0) ≡ d (get_or (pointer_blocks hdr d) k 0))
          → d' (get_or hdr.data_sectors 61 0) ≡ d (get_or hdr.data_sectors 61 0)
      from_medium medium = rw (more, medium) (λ s. s zero (omega arith))

      from_large :
          leb hdr.num_bytes 31744 ≡ false
          → ((k : ℕ)
              → k < length (pointer_blocks hdr d)
              → d' (get_or (pointer_blocks hdr d) k 0) ≡ d (get_or (pointer_blocks hdr d) k 0))
          → d' (get_or hdr.data_sectors 61 0) ≡ d (get_or hdr.data_sectors 61 0)
      from_large large = rw (more, large) (λ s. s (suc zero) (omega arith))

  located :
      ((s : ℕ) → length (d' s) ≡ 64)
      → byte_to_sector hdr d' (i * 256) ≡ get_elem? (data_blocks hdr d') (i * 256 / 256)
  located words = elim (Bool-cases (leb hdr.num_bytes 15872)) [
    | inl small ↦ byte_to_sector_small hdr d' (i * 256) small
    | inr more ↦ byte_to_sector-data_blocks hdr d' (i * 256) (record {
      header_size = h.laid_out.header_size;
      sector_words = words;
      direct_on_disk = h.laid_out.direct_on_disk;
      blocks_on_disk = subst (λ bs. AllOnDisk bs) (sym (last_same more)) h.laid_out.blocks_on_disk;
    })
  ]

  block_found :
      ((s : ℕ) → length (d' s) ≡ 64)
      → i < hdr.num_sectors
      → byte_to_sector hdr d' (i * 256) ≡ some (block_of hdr d i)
  block_found words lt =
      located words
      ∙ ap (λ bs. get_elem? bs (i * 256 / 256)) (data_blocks-agree hdr d d' pointers_same)
      ∙ ap (λ k. get_elem? (data_blocks hdr d) k) {x = i * 256 / 256} {y = i} (omega arith)
      ∙ get_elem?-eq-get_or (data_blocks hdr d) i 0 (omega (arith, h.enough))

-- A sound header is a file whose data blocks are those of its layout, and it stays one, with the same
-- data blocks, whatever is written to them.
pub IsSound-IsFile : (hdr : FileHeader) (d : Disk) → IsSound hdr d → IsFile hdr d (block_of hdr d)
IsSound-IsFile hdr d h = record {
  sized = h.sized;
  sector_words = h.laid_out.sector_words;
  on_disk = h.on_disk;
  distinct = h.distinct;
  found = λ d' same words i lt. block_found hdr d d' i h same words lt;
}

-- A header of a sector's size written back to a sector of the disk is the one fetched from there.
pub fetch_from-write_back :
    (hdr : FileHeader) (d : Disk) (sector : ℕ)
    → sector < num_disk_sectors
    → (d' : Disk) × (write_back hdr d sector ≡ some d') × (fetch_from d' sector ≡ some hdr)
unfolding write_back fetch_from
fetch_from-write_back hdr d sector lt = (
  replaced d sector words,
  write_sector-eq d sector words lt,
  rw (read_sector-eq (replaced d sector words) sector lt, ==_of_eq sector sector refl) refl,
)
  where
    words : List ℕ
    words = hdr.num_bytes ∷ hdr.num_sectors ∷ hdr.data_sectors
