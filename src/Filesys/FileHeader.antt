-- ===== src/Filesys/FileHeader.antt =====
-- filesys/filehdr.cc: the header of a file, which says where its data lies on disk: 62 direct
-- pointers, or 61 and a pointer block, or 60, a pointer block and a block of pointers to pointer
-- blocks. A sector is a list of 64 words, and the disk gives the words of each sector. The
-- messages to the console are left out. `none` is a failed ASSERT.
pub mod Allocation
pub mod Release
pub mod Sectors
use cmps.Prelude.{
  ℕ, zero, suc, ◌+◌, ◌-◌, ◌*◌, ◌/◌, ◌%◌, ◌^◌, Bool, true, false, not, Option, none, some, List,
}
use cmps.Prelude.{set, get_elem?, replicate, ltb, leb, ◌==◌, if◌then◌else◌, ◌>>=◌, ◌>>◌, assert}
use cmps.Userprog.BitMap.{BitMap, div_round_up, test, clear, find, num_clear}

abbrev pub sector_size : ℕ
sector_size = 256

-- `NumSectors` of machine/disk.h
abbrev pub num_disk_sectors : ℕ
num_disk_sectors = 1024

abbrev pub num_direct : ℕ
num_direct = (sector_size - 2 * 4) / 4

abbrev pub ptrs_per_sector : ℕ
ptrs_per_sector = sector_size / 4

abbrev pub max_file_size1 : ℕ
max_file_size1 = num_direct * sector_size

abbrev pub max_file_size2 : ℕ
max_file_size2 = (num_direct - 1 + (sector_size - 4) / 4) * sector_size

pub record FileHeader : Type 0 where
  pub num_bytes : ℕ
  pub num_sectors : ℕ
  pub data_sectors : List ℕ

abbrev pub Disk : Type 0
Disk = ℕ → List ℕ

-- `synchDisk->ReadSector`; the disk refuses a sector that it does not have.
unfoldable pub read_sector : Disk → ℕ → Option (List ℕ)
read_sector d sector = do assert (ltb sector num_disk_sectors); some (d sector)

unfoldable pub write_sector : Disk → ℕ → List ℕ → Option Disk
write_sector d sector words = do
  assert (ltb sector num_disk_sectors)
  some (λ s. if sector == s then words else d s)

-- `DirectAllocation`: the pointer, the map and `sectorsRemaining`.
pub direct_allocation : BitMap → ℕ → Option (ℕ × BitMap × ℕ)
direct_allocation free_map remaining =
    if ltb 0 remaining
    then (do (sector, free_map') ← find free_map; some (sector, free_map', remaining - 1))
    else some (0, free_map, 0)

-- `for (i = …) dataSectors[i] = DirectAllocation(freeMap, sectorsRemaining)`, `n` rounds.
pub direct_loop : ℕ → ℕ → List ℕ → BitMap → ℕ → Option (List ℕ × BitMap × ℕ)
direct_loop zero i ptrs free_map remaining = some (ptrs, free_map, remaining)
direct_loop (suc n) i ptrs free_map remaining = do
  (sector, free_map', remaining') ← direct_allocation free_map remaining
  direct_loop n (i + 1) (set ptrs i sector) free_map' remaining'

-- The loop of `SingleIndirectAllocation`, which asks for a sector only while some are due.
pub single_loop : ℕ → ℕ → List ℕ → BitMap → ℕ → Option (List ℕ × BitMap × ℕ)
single_loop zero i ptrs free_map remaining = some (ptrs, free_map, remaining)
single_loop (suc n) i ptrs free_map remaining = do
  (sector, free_map', remaining') ←
      (if ltb 0 remaining
        then direct_allocation free_map remaining
        else some (0, free_map, remaining))
  single_loop n (i + 1) (set ptrs i sector) free_map' remaining'

-- The array of pointers is not initialised: the loop writes each of its words.
abbrev pub fresh_ptrs : List ℕ
fresh_ptrs = replicate ptrs_per_sector 0

pub single_indirect_allocation : Disk → BitMap → ℕ → Option (ℕ × Disk × BitMap × ℕ)
single_indirect_allocation d free_map remaining = do
  (sector, free_map1) ← find free_map
  (ptrs, free_map2, remaining') ← single_loop ptrs_per_sector 0 fresh_ptrs free_map1 remaining
  d' ← write_sector d sector ptrs
  some (sector, d', free_map2, remaining')

pub double_loop : ℕ → ℕ → List ℕ → Disk → BitMap → ℕ → Option (List ℕ × Disk × BitMap × ℕ)
double_loop zero i ptrs d free_map remaining = some (ptrs, d, free_map, remaining)
double_loop (suc n) i ptrs d free_map remaining = do
  (sector, d', free_map', remaining') ←
      (if ltb 0 remaining
        then single_indirect_allocation d free_map remaining
        else some (0, d, free_map, remaining))
  double_loop n (i + 1) (set ptrs i sector) d' free_map' remaining'

pub double_indirect_allocation : Disk → BitMap → ℕ → Option (ℕ × Disk × BitMap × ℕ)
double_indirect_allocation d free_map remaining = do
  (sector, free_map1) ← find free_map
  (ptrs, d1, free_map2, remaining') ← double_loop ptrs_per_sector 0 fresh_ptrs d free_map1 remaining
  d' ← write_sector d1 sector ptrs
  some (sector, d', free_map2, remaining')

-- `FileHeader::Allocate`: whether there is room, the header, the disk and the map.
pub allocate : FileHeader → Disk → BitMap → ℕ → Option (Bool × FileHeader × Disk × BitMap)
allocate hdr0 d free_map file_size = do
  free ← num_clear free_map
  if ltb free hdr.num_sectors
      then some (false, hdr, d, free_map)
      else if leb file_size max_file_size1
      then (do
        (ptrs, map1, _) ← direct_loop hdr.num_sectors 0 hdr.data_sectors free_map hdr.num_sectors
        some (true, record hdr { data_sectors = ptrs }, d, map1))
      else if leb file_size max_file_size2
      then (do
        (ptrs, map1, r1) ← direct_loop (num_direct - 1) 0 hdr.data_sectors free_map hdr.num_sectors
        (single, d1, map2, _) ← single_indirect_allocation d map1 r1
        some (true, record hdr { data_sectors = set ptrs (num_direct - 1) single }, d1, map2))
      else (do
        (ptrs, map1, r1) ← direct_loop (num_direct - 2) 0 hdr.data_sectors free_map hdr.num_sectors
        (single, d1, map2, r2) ← single_indirect_allocation d map1 r1
        (double, d2, map3, _) ← double_indirect_allocation d1 map2 r2
        let ptrs' = set (set ptrs (num_direct - 2) single) (num_direct - 2 + 1) double
        some (true, record hdr { data_sectors = ptrs' }, d2, map3))
  where
    hdr : FileHeader
    hdr = record hdr0 { num_bytes = file_size; num_sectors = div_round_up file_size sector_size }

-- `ASSERT(freeMap->Test(sector)); freeMap->Clear(sector);`
pub release : BitMap → ℕ → Option BitMap
release free_map sector = do b ← test free_map sector; assert b; clear free_map sector

-- The loops of `Deallocate` over one array: release each of `n` pointers from index `i` on.
pub release_loop : ℕ → ℕ → List ℕ → BitMap → Option (List ℕ × BitMap)
release_loop zero i ptrs free_map = some (ptrs, free_map)
release_loop (suc n) i ptrs free_map = do
  sector ← get_elem? ptrs i
  free_map' ← release free_map sector
  release_loop n (i + 1) (set ptrs i 0) free_map'

-- The same, over the pointers that are not 0.
pub release_used_loop : ℕ → ℕ → List ℕ → BitMap → Option BitMap
release_used_loop zero i ptrs free_map = some free_map
release_used_loop (suc n) i ptrs free_map = do
  sector ← get_elem? ptrs i
  free_map' ← (if not (sector == 0) then release free_map sector else some free_map)
  release_used_loop n (i + 1) (if not (sector == 0) then set ptrs i 0 else ptrs) free_map'

-- The inner loop over one pointer block: only `sectorsRemaining` of its pointers are in use.
pub deep_loop : ℕ → ℕ → List ℕ → BitMap → ℕ → Option (BitMap × ℕ)
deep_loop zero j ptrs free_map remaining = some (free_map, remaining)
deep_loop (suc n) j ptrs free_map remaining = do
  free_map' ←
      (if ltb 0 remaining
        then (do sector ← get_elem? ptrs j; release free_map sector)
        else some free_map)
  deep_loop n (j + 1) ptrs free_map' (if ltb 0 remaining then remaining - 1 else 0)

-- The outer loop reads the block behind each of the 64 pointers, used or not.
pub deep_blocks_loop : ℕ → ℕ → List ℕ → Disk → BitMap → ℕ → Option BitMap
deep_blocks_loop zero i ptrs d free_map remaining = some free_map
deep_blocks_loop (suc n) i ptrs d free_map remaining = do
  sector ← get_elem? ptrs i
  deep ← read_sector d sector
  (free_map', remaining') ← deep_loop ptrs_per_sector 0 deep free_map remaining
  deep_blocks_loop n (i + 1) ptrs d free_map' remaining'

-- `FileHeader::Deallocate`. `numSectors - NumDirect` is unsigned.
pub deallocate : FileHeader → Disk → BitMap → Option (FileHeader × BitMap)
deallocate hdr d free_map =
    if leb hdr.num_bytes max_file_size1
    then (do
      (ptrs, map1) ← release_loop hdr.num_sectors 0 hdr.data_sectors free_map
      some (record hdr { data_sectors = ptrs }, map1))
    else if leb hdr.num_bytes max_file_size2
    then (do
      block ← get_elem? hdr.data_sectors (num_direct - 1)
      ptrs1 ← read_sector d block
      (_, map1) ←
          release_loop ((hdr.num_sectors + 2 ^ 32 - num_direct) % 2 ^ 32 + 1) 0 ptrs1 free_map
      (ptrs, map2) ← release_loop num_direct 0 hdr.data_sectors map1
      some (record hdr { data_sectors = ptrs }, map2))
    else (do
      block1 ← get_elem? hdr.data_sectors (num_direct - 2)
      block2 ← get_elem? hdr.data_sectors (num_direct - 1)
      ptrs1 ← read_sector d block1
      ptrs2 ← read_sector d block2
      map1 ←
          deep_blocks_loop ptrs_per_sector 0 ptrs2 d free_map
            (hdr.num_sectors - (num_direct - 2) - ptrs_per_sector)
      map2 ← release_used_loop ptrs_per_sector 0 ptrs2 map1
      (_, map3) ← release_loop ptrs_per_sector 0 ptrs1 map2
      (ptrs, map4) ← release_loop num_direct 0 hdr.data_sectors map3
      some (record hdr { data_sectors = ptrs }, map4))

-- `FileHeader::ByteToSector`. A read outside an array is `none`.
unfoldable pub byte_to_sector : FileHeader → Disk → ℕ → Option ℕ
byte_to_sector hdr d offset =
    if leb hdr.num_bytes max_file_size1
    then get_elem? hdr.data_sectors (offset / sector_size)
    else if leb hdr.num_bytes max_file_size2
    then (let direct_offset = (num_direct - 1) * sector_size in
        if ltb offset direct_offset then get_elem? hdr.data_sectors (offset / sector_size) else (do
          block ← get_elem? hdr.data_sectors (num_direct - 1)
          ptrs ← read_sector d block
          get_elem? ptrs ((offset - direct_offset) / sector_size)))
    else (let direct_offset = (num_direct - 2) * sector_size in
        let indirect_offset = ptrs_per_sector * sector_size in
        if ltb offset direct_offset
        then get_elem? hdr.data_sectors (offset / sector_size)
        else if ltb offset (direct_offset + indirect_offset)
        then (do
          block ← get_elem? hdr.data_sectors (num_direct - 2)
          ptrs ← read_sector d block
          get_elem? ptrs ((offset - direct_offset) / sector_size))
        else (do
          let past = offset - direct_offset - indirect_offset
          let block_index = past / (sector_size * ptrs_per_sector)
          block ← get_elem? hdr.data_sectors (num_direct - 1)
          blocks ← read_sector d block
          deep ← get_elem? blocks block_index
          ptrs ← read_sector d deep
          get_elem? ptrs ((past - indirect_offset * block_index) / sector_size)))
