-- ===== src/Filesys/FileSystem/Tests.antt =====
-- filesys/filesys.cc: a small disk on which a file is created.
use cmps.Prelude.{ℕ, ◌≡◌, refl, arith, true, false, some, [], ◌∷◌, replicate}
use cmps.Prelude.Bits.{bit}
use cmps.Userprog.BitMap.Bits.{is_set}
use cmps.Userprog.BitMap.Find.{clear_below}
use cmps.Filesys.Directory.{
  FileName, find_file, find_index, find_index_from, add_file, add_from, same_prefix,
}
use cmps.Filesys.FileHeader.{FileHeader}
use cmps.Filesys.OpenFile.{OpenFile, file_size}
use cmps.Filesys.FileSystem.{FileSystem, create, open_named, remove_named}
use cmps.Filesys.FileSystem.Create.{HasRoom, open_named-create, remove_named-create, create_refused}

abbrev new_header : FileHeader
new_header = record { num_bytes = 0; num_sectors = 0; data_sectors = replicate 62 0 }

abbrev taken_name : FileName
taken_name = 97 ∷ 98 ∷ []

abbrev new_name : FileName
new_name = 99 ∷ 100 ∷ []

-- 40 sectors, of which 0, 1 and 33 are in use.
abbrev small_disk : FileSystem
small_disk = record {
  directory =
      record { in_use = true; sector = 5; name = taken_name }
      ∷ record { in_use = false; sector = 0; name = [] }
      ∷ [];
  free_map = record { num_bits = 40; num_words = 2; words = 3 ∷ 2 ∷ [] };
  disk = λ s. replicate 64 9;
}

small_disk-HasRoom : HasRoom new_header small_disk new_name 700
unfolding clear_below is_set bit add_file find_index find_index_from add_from same_prefix
small_disk-HasRoom = record {
  valid = omega arith;
  on_disk = omega arith;
  header_size = refl;
  direct = omega arith;
  sectors_left = omega arith;
  entry_left = refl;
}

open_named-create_example :
    (fs' : FileSystem) × (f : OpenFile) × (create new_header small_disk new_name 700
      ≡ some (true, fs'))
    × (open_named fs' new_name ≡ some (some f))
    × (file_size f ≡ 700)
    × (f.seek_position ≡ 0)
    × ((other : FileName)
        → same_prefix 9 new_name other ≡ false
        → find_file fs'.directory other ≡ find_file small_disk.directory other)
open_named-create_example = open_named-create new_header small_disk new_name 700 small_disk-HasRoom

remove_named-create_example :
    (fs1 fs2 : FileSystem) × (create new_header small_disk new_name 700 ≡ some (true, fs1))
    × (remove_named fs1 new_name ≡ some (true, fs2))
    × ((i : ℕ) → is_set fs2.free_map i ≡ is_set small_disk.free_map i)
    × ((other : FileName) → find_file fs2.directory other ≡ find_file small_disk.directory other)
remove_named-create_example =
    remove_named-create new_header small_disk new_name 700 small_disk-HasRoom

name_refused : create new_header small_disk taken_name 700 ≡ some (false, small_disk)
unfolding create find_file find_index find_index_from same_prefix
name_refused = refl

create_refused_example :
    (small_disk.directory ≡ small_disk.directory) × (small_disk.free_map ≡ small_disk.free_map)
create_refused_example = create_refused new_header small_disk taken_name 700 small_disk name_refused
