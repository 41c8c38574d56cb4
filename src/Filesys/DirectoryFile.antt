-- ===== src/Filesys/DirectoryFile.antt =====
-- filesys/directory.cc, `FetchFrom` and `WriteBack`: the table of a directory in its file. An entry takes
-- 20 bytes: `inUse` and three of padding, the four of `sector`, the nine of the name that count, the last
-- of the name and two of padding. `pad` is what the bytes that do not count contain, entry by entry.
pub mod Bytes
pub mod Stored
mod Tests
use cmps.Prelude.{
  ℕ, zero, suc, ◌+◌, ◌*◌, ◌/◌, ◌%◌, not, Option, some, List, [], ◌∷◌, ◌++◌, length, drop, get_or,
  ◌==◌, if◌then◌else◌, ◌>>=◌,
}
use cmps.Filesys.FileHeader.{FileHeader, Disk}
use cmps.Filesys.OpenFile.{read_at, write_at}
use cmps.Filesys.Directory.{FileName, DirectoryEntry, Directory, file_name_max_len}

-- The characters of a name, with NUL behind them, in front of `tail`; and the name that they spell.
abbrev pub name_bytes : ℕ → FileName → List ℕ → List ℕ
name_bytes zero name tail = tail
name_bytes (suc n) [] tail = 0 ∷ name_bytes n [] tail
name_bytes (suc n) (c ∷ cs) tail = c ∷ name_bytes n cs tail

abbrev pub name_of : ℕ → List ℕ → FileName
name_of zero bs = []
name_of (suc n) [] = []
name_of (suc n) (c ∷ cs) = let rest = name_of n cs in if c == 0 then [] else c ∷ rest

abbrev pub entry_bytes : (ℕ → ℕ) → DirectoryEntry → List ℕ → List ℕ
entry_bytes pad e tail =
    (if e.in_use then 1 else 0)
    ∷ pad 0
    ∷ pad 1
    ∷ pad 2
    ∷ e.sector % 256
    ∷ e.sector / 256 % 256
    ∷ e.sector / 65536 % 256
    ∷ e.sector / 16777216 % 256
    ∷ name_bytes file_name_max_len e.name (pad 3 ∷ pad 4 ∷ pad 5 ∷ tail)

abbrev pub entry_of : List ℕ → DirectoryEntry
entry_of bs = record {
  in_use = not (get_or bs 0 0 == 0);
  sector = get_or bs 4 0 + get_or bs 5 0 * 256 + get_or bs 6 0 * 65536 + get_or bs 7 0 * 16777216;
  name = name_of file_name_max_len (drop 8 bs);
}

abbrev pub table_bytes : (ℕ → ℕ → ℕ) → ℕ → Directory → List ℕ
table_bytes pad i [] = []
table_bytes pad i (e ∷ es) = entry_bytes (pad i) e (table_bytes pad (i + 1) es)

-- A table of `n` entries.
abbrev pub table_of : ℕ → List ℕ → Directory
table_of zero bs = []
table_of (suc n) bs = entry_of bs ∷ table_of n (drop 20 bs)

-- Into the table of `old`; what `ReadAt` does not give stays as it was.
unfoldable pub fetch_from :
    (ℕ → List ℕ) → (ℕ → ℕ → ℕ) → Directory → FileHeader → Disk → Option Directory
fetch_from fresh pad old file d = do
  bytes ← read_at fresh file d (length old * 20) 0
  some (table_of (length old) (bytes ++ drop (length bytes) (table_bytes pad 0 old)))

unfoldable pub write_back : (ℕ → List ℕ) → (ℕ → ℕ → ℕ) → Directory → FileHeader → Disk → Option Disk
write_back fresh pad table file d = do
  (_, d') ← write_at fresh file d (table_bytes pad 0 table) (length table * 20) 0
  some d'
