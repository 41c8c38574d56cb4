-- ===== src/Filesys/MapFile.antt =====
-- userprog/bitmap.cc, `FetchFrom` and `WriteBack`: the bit map in a file of the file system, as the
-- free map is. The memory of the map is the words of `map`, four bytes each.
pub mod Stored
mod Tests
use cmps.Prelude.{ℕ, ◌*◌, ◌++◌, Option, some, List, length, drop, ◌>>=◌}
use cmps.Userprog.BitMap.{BitMap}
use cmps.Filesys.FileHeader.{FileHeader, Disk}
use cmps.Filesys.OpenFile.{bytes_of, words_of, read_at, write_at}

-- What `ReadAt` does not give stays as it was.
unfoldable pub fetch_from : (ℕ → List ℕ) → BitMap → FileHeader → Disk → Option BitMap
fetch_from fresh m file d = do
  bytes ← read_at fresh file d (m.num_words * 4) 0
  some (record m { words = words_of (bytes ++ drop (length bytes) (bytes_of m.words)) })

unfoldable pub write_back : (ℕ → List ℕ) → BitMap → FileHeader → Disk → Option Disk
write_back fresh m file d = do
  (_, d') ← write_at fresh file d (bytes_of m.words) (m.num_words * 4) 0
  some d'
