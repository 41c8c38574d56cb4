-- ===== src/Filesys/FileSystem.antt =====
-- filesys/filesys.cc: the names of the disk. The directory and the free map stand for the contents of
-- the two files that hold them, which `FetchFrom` reads and `WriteBack` writes; `disk` is the rest of
-- the disk. What a new header contains is a parameter. `none` is a failed ASSERT.
pub mod Create
mod Tests
use cmps.Prelude.{
  ◌==◌, ◌*◌, ◌/◌, assert, ◌>>◌, List, ℕ, Bool, true, false, not, Option, none, some, ◌>>=◌,
  if◌then◌else◌,
}
use cmps.Userprog.BitMap.{BitMap, minus_one, new_bit_map, mark, find, clear}
use cmps.Filesys.Directory.{
  Directory, DirectoryEntry, new_directory, FileName, find_file, add_file, remove_file,
}
use cmps.Filesys.FileHeader.{FileHeader, Disk, num_disk_sectors, allocate, deallocate}
use cmps.Filesys.OpenFile.{OpenFile, open_at, fetch_from, write_back}

-- `NumDirEntries`, `FreeMapFileSize` and `DirectoryFileSize`: an entry takes 20 bytes.
abbrev pub num_dir_entries : ℕ
num_dir_entries = 10

abbrev pub free_map_file_size : ℕ
free_map_file_size = num_disk_sectors / 8

abbrev pub directory_file_size : ℕ
directory_file_size = 20 * num_dir_entries

pub record FileSystem : Type 0 where
  pub directory : Directory
  pub free_map : BitMap
  pub disk : Disk

-- The constructor when it formats the disk. What the words of the map, the entries of the table and the
-- two headers contain before is given.
pub format :
    List ℕ
    → (ℕ → DirectoryEntry)
    → FileHeader
    → FileHeader
    → Disk
    → Option (FileSystem × OpenFile × OpenFile)
format words table map_hdr0 dir_hdr0 d = do
  map0 ← new_bit_map words num_disk_sectors
  map1 ← mark map0 0
  map2 ← mark map1 1
  (map_ok, map_hdr, d1, map3) ← allocate map_hdr0 d map2 free_map_file_size
  assert map_ok
  (dir_ok, dir_hdr, d2, map4) ← allocate dir_hdr0 d1 map3 directory_file_size
  assert dir_ok
  d3 ← write_back map_hdr d2 0
  d4 ← write_back dir_hdr d3 1
  free_map_file ← open_at d4 0
  directory_file ← open_at d4 1
  let fs : FileSystem = record {
    directory = new_directory table num_dir_entries;
    free_map = map4;
    disk = d4;
  }
  some (fs, free_map_file, directory_file)

-- `FileSystem::Create`. It works on copies of the directory and the map, which it writes back only when
-- every step succeeds.
unfoldable pub create : FileHeader → FileSystem → FileName → ℕ → Option (Bool × FileSystem)
create new_header fs name initial_size = elim (find_file fs.directory name) [
  | some _ ↦ some (false, fs)
  | none ↦ (do
    (sector, map1) ← find fs.free_map
    let (added, directory) = add_file fs.directory name sector
    if sector == minus_one then some (false, fs) else if not added then some (false, fs) else (do
      (allocated, hdr, d1, map2) ← allocate new_header fs.disk map1 initial_size
      d2 ← (if allocated then write_back hdr d1 sector else some d1)
      if allocated
          then some (true, record { directory = directory; free_map = map2; disk = d2 })
          else some (false, record fs { disk = d2 })))
]

-- `FileSystem::Open`: NULL is an inner `none`.
pub open_named : FileSystem → FileName → Option (Option OpenFile)
open_named fs name = elim (find_file fs.directory name) [
  | none ↦ some none
  | some sector ↦ (do f ← open_at fs.disk sector; some (some f))
]

-- `FileSystem::Remove`
pub remove_named : FileSystem → FileName → Option (Bool × FileSystem)
remove_named fs name = elim (find_file fs.directory name) [
  | none ↦ some (false, fs)
  | some sector ↦ (do
    hdr ← fetch_from fs.disk sector
    (_, map1) ← deallocate hdr fs.disk fs.free_map
    map2 ← clear map1 sector
    let (_, directory) = remove_file fs.directory name
    some (true, record fs { directory = directory; free_map = map2 }))
]
