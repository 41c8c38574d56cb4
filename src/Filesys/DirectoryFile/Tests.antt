-- ===== src/Filesys/DirectoryFile/Tests.antt =====
-- filesys/directory.cc: a directory of two entries, of which one is in use.
use cmps.Prelude.{ℕ, ◌≡◌, refl, some, true, false, arith, [], ◌∷◌}
use cmps.Filesys.FileHeader.{Disk}
use cmps.Filesys.OpenFile.Read.{IsFile}
use cmps.Filesys.OpenFile.Layout.{block_of}
use cmps.Filesys.OneSector.{
  disk, one_sector, garbage, garbage-IsFresh, garbage-AreBytes, one_sector-IsFile,
}
use cmps.Filesys.Directory.{FileName, DirectoryEntry, Directory, find_file}
use cmps.Filesys.DirectoryFile.{fetch_from, write_back}
use cmps.Filesys.DirectoryFile.Stored.{find_file-fetch_from}

abbrev entry : DirectoryEntry
entry = record { in_use = true; sector = 700; name = 97 ∷ 98 ∷ [] }

abbrev unused : DirectoryEntry
unused = record { in_use = false; sector = 9; name = [] }

abbrev padding : ℕ → ℕ → ℕ
padding i k = 3

find_file-fetch_from_example :
    (d' : Disk) × (fetched : Directory) × (write_back garbage padding
        (unused ∷ entry ∷ [])
        one_sector
        disk
      ≡ some d')
    × (fetch_from garbage padding (unused ∷ unused ∷ []) one_sector d' ≡ some fetched)
    × ((name : FileName) → find_file fetched name ≡ find_file (unused ∷ entry ∷ []) name)
    × IsFile one_sector d' (block_of one_sector disk)
find_file-fetch_from_example =
    find_file-fetch_from garbage padding padding (unused ∷ entry ∷ []) (unused ∷ unused ∷ [])
      one_sector disk (block_of one_sector disk) garbage-IsFresh garbage-AreBytes one_sector-IsFile
      (λ j k. omega arith)
      (
        omega arith,
        tt,
        (omega arith, (omega arith, omega arith, (omega arith, omega arith, tt)), tt),
      )
      refl (omega arith)
