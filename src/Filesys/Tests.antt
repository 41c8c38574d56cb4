-- ===== src/Filesys/Tests.antt =====
-- filesys: a small free map and headers in each of the three layouts.
use cmps.Prelude.{
  ℕ, ◌/◌, ◌≡◌, ◌≤◌, refl, some, List, [], ◌∷◌, true, arith, replicate, length, get_elem?,
}
use cmps.Prelude.Bits.{bit}
use cmps.Userprog.BitMap.{BitMap}
use cmps.Userprog.BitMap.Bits.{IsValid, is_set}
use cmps.Userprog.BitMap.Find.{clear_below}
use cmps.Prelude.{false, if◌then◌else◌}
use cmps.Filesys.Directory.{
  Directory, add_file, find_file, find_index, find_index_from, add_from, same_prefix,
}
use cmps.Filesys.Directory.Names.{find_file-add_file}
use cmps.Filesys.FileHeader.{FileHeader, Disk, allocate, deallocate, byte_to_sector}
use cmps.Filesys.FileHeader.Allocation.{IsTaken, write_ptrs, sectors_for, allocate_small}
use cmps.Filesys.FileHeader.Release.{deallocate-allocate}
use cmps.Filesys.FileHeader.Sectors.{IsLaidOut, data_blocks, byte_to_sector-data_blocks}

-- 40 sectors, of which 0, 1 and 33 are in use.
abbrev free_map : BitMap
free_map = record { num_bits = 40; num_words = 2; words = 3 ∷ 2 ∷ [] }

free_map-IsValid : IsValid free_map
free_map-IsValid = omega arith

abbrev blank_header : FileHeader
blank_header = record { num_bytes = 0; num_sectors = 0; data_sectors = replicate 62 0 }

abbrev blank_disk : Disk
blank_disk s = replicate 64 9

-- A file of 700 bytes takes three sectors.
room_for_three : sectors_for 700 ≤ clear_below free_map 40
unfolding clear_below is_set bit
room_for_three = omega arith

allocate_small_example :
    (ss : List ℕ) × (m : BitMap) × (allocate blank_header blank_disk free_map 700
      ≡ some (
        true,
        record {
          num_bytes = 700;
          num_sectors = sectors_for 700;
          data_sectors = write_ptrs (replicate 62 0) 0 ss;
        },
        blank_disk,
        m,
      ))
    × (length ss ≡ sectors_for 700)
    × IsTaken free_map ss m
allocate_small_example =
    allocate_small blank_header blank_disk free_map 700 free_map-IsValid (omega arith)
      room_for_three

deallocate-allocate_example :
    (hdr1 : FileHeader) × (m1 : BitMap) × (hdr2 : FileHeader) × (m2 : BitMap) × (allocate
        blank_header blank_disk free_map 700
      ≡ some (true, hdr1, blank_disk, m1))
    × (deallocate hdr1 blank_disk m1 ≡ some (hdr2, m2))
    × ((i : ℕ) → is_set m2 i ≡ is_set free_map i)
deallocate-allocate_example =
    deallocate-allocate blank_header blank_disk free_map 700 free_map-IsValid refl (omega arith)
      room_for_three

abbrev large_header : FileHeader
large_header = record { num_bytes = 40000; num_sectors = 157; data_sectors = replicate 62 5 }

large_header-IsLaidOut : IsLaidOut large_header blank_disk
large_header-IsLaidOut = omega arith

byte_to_sector-data_blocks_example :
    byte_to_sector large_header blank_disk 39999
    ≡ get_elem? (data_blocks large_header blank_disk) (39999 / 256)
byte_to_sector-data_blocks_example =
    byte_to_sector-data_blocks large_header blank_disk 39999 large_header-IsLaidOut

-- A directory with the name "ab" and a free entry takes the name "cd".
abbrev two_entries : Directory
two_entries =
    record { in_use = true; sector = 5; name = 97 ∷ 98 ∷ [] }
    ∷ record { in_use = false; sector = 0; name = [] }
    ∷ []

find_file-add_file_example : find_file (add_file two_entries (99 ∷ 100 ∷ []) 7).1 (97 ∷ 98 ∷ []) ≡ (
    if same_prefix 9 (99 ∷ 100 ∷ []) (97 ∷ 98 ∷ [])
    then some 7
    else find_file two_entries (97 ∷ 98 ∷ []))
unfolding add_file find_index find_index_from add_from same_prefix
find_file-add_file_example = find_file-add_file two_entries (99 ∷ 100 ∷ []) 7 (97 ∷ 98 ∷ []) refl
