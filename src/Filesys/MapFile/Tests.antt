-- ===== src/Filesys/MapFile/Tests.antt =====
-- userprog/bitmap.cc: a map of two words in a file of one sector.
use cmps.Prelude.{◌≡◌, refl, some, arith, [], ◌∷◌}
use cmps.Userprog.BitMap.{BitMap}
use cmps.Filesys.FileHeader.{Disk}
use cmps.Filesys.OpenFile.Read.{IsFile}
use cmps.Filesys.OpenFile.Layout.{block_of}
use cmps.Filesys.OneSector.{
  disk, one_sector, garbage, garbage-IsFresh, garbage-AreBytes, one_sector-IsFile,
}
use cmps.Filesys.MapFile.{fetch_from, write_back}
use cmps.Filesys.MapFile.Stored.{fetch_from-write_back_map}

abbrev some_set : BitMap
some_set = record { num_bits = 40; num_words = 2; words = 3 ∷ 4294967295 ∷ [] }

abbrev none_set : BitMap
none_set = record { num_bits = 40; num_words = 2; words = 0 ∷ 0 ∷ [] }

fetch_from-write_back_map_example :
    (d' : Disk) × (write_back garbage some_set one_sector disk ≡ some d')
    × (fetch_from garbage none_set one_sector d' ≡ some some_set)
    × IsFile one_sector d' (block_of one_sector disk)
fetch_from-write_back_map_example =
    fetch_from-write_back_map garbage some_set none_set one_sector disk (block_of one_sector disk)
      garbage-IsFresh garbage-AreBytes one_sector-IsFile (omega arith, (omega arith, tt)) refl refl
      refl (omega arith)
