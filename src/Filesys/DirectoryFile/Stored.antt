-- ===== src/Filesys/DirectoryFile/Stored.antt =====
-- filesys/directory.cc: a directory that was written back is found as it was.
use cmps.Prelude.{
  ℕ, ◌*◌, ◌≤◌, ◌<◌, ◌≡◌, refl, sym, ap, ◌∙◌, arith, ◌&&◌, some, List, [], ◌∷◌, length, drop,
  Bool-cases, inl, inr,
}
use mathlib.Core.List.{append-nil}
use cmps.Filesys.FileHeader.{FileHeader, Disk}
use cmps.Filesys.OpenFile.{read_at}
use cmps.Filesys.OpenFile.Bytes.{AreBytes}
use cmps.Filesys.OpenFile.Read.{IsFresh, IsFile}
use cmps.Filesys.OpenFile.ReadBack.{read_at-write_at}
use cmps.Filesys.MapFile.Stored.{drop_all}
use cmps.Filesys.Directory.{FileName, Directory, DirectoryEntry, copy_prefix, matches, find_file}
use cmps.Filesys.Directory.Names.{find_first, find_file-first, sector_of, same_prefix-copy}
use cmps.Filesys.DirectoryFile.{table_bytes, table_of, fetch_from, write_back}
use cmps.Filesys.DirectoryFile.Bytes.{
  IsTable, shortened, length-table_bytes, table_bytes-AreBytes, table_of-table_bytes,
}

matches-copy :
    (e : DirectoryEntry) (name : FileName)
    → matches (record e { name = copy_prefix 9 e.name }) name ≡ matches e name
matches-copy e name = ap (λ b. e.in_use && b) (same_prefix-copy 9 e.name name)

first-shortened :
    (d : Directory) (name : FileName)
    → sector_of (find_first (shortened d) name) ≡ sector_of (find_first d name)
unfolding find_first
first-shortened [] name = refl
first-shortened (e ∷ es) name = elim (Bool-cases (matches e name)) [
  | inl here ↦ rw (matches-copy e name, here) refl
  | inr there ↦ rw (matches-copy e name, there) (first-shortened es name)
]

find_file-shortened :
    (d : Directory) (name : FileName) → find_file (shortened d) name ≡ find_file d name
find_file-shortened d name =
    find_file-first (shortened d) name ∙ first-shortened d name ∙ sym (find_file-first d name)

-- A directory whose names are characters other than NUL, written back to a file that has room for its
-- table and fetched into a table of the same size, whatever that held and whatever the padding contains:
-- both succeed, and every name is found as before, with its sector or not at all; the file is still a
-- file, with the same data blocks.
pub find_file-fetch_from :
    (fresh : ℕ → List ℕ) (pad pad' : ℕ → ℕ → ℕ) (table old : Directory) (file : FileHeader)
    (d : Disk) (block : ℕ → ℕ)
    → IsFresh fresh
    → ((k : ℕ) → AreBytes (fresh k))
    → IsFile file d block
    → ((j k : ℕ) → pad j k < 256)
    → IsTable table
    → length old ≡ length table
    → length table * 20 ≤ file.num_bytes
    → (d' : Disk) × (fetched : Directory) × (write_back fresh pad table file d ≡ some d')
      × (fetch_from fresh pad' old file d' ≡ some fetched)
      × ((name : FileName) → find_file fetched name ≡ find_file table name)
      × IsFile file d' block
unfolding fetch_from write_back
find_file-fetch_from fresh pad pad' table old file d block new new_small is_file pads is_table same
      room =
    let (count, d', written, got, still_file) =
      read_at-write_at fresh file d block (table_bytes pad 0 table) (length table * 20) new
        new_small is_file (table_bytes-AreBytes pad 0 table pads is_table)
        (length-table_bytes pad 0 table) room in
    let got' : read_at fresh file d' (length old * 20) 0 ≡ some (table_bytes pad 0 table) =
      ap (λ n. read_at fresh file d' (n * 20) 0) same ∙ got in
    (
      d',
      shortened table,
      rw written refl,
      rw (got', none_left)
          (ap some (
            ap (λ bs. table_of (length old) bs) (append-nil (table_bytes pad 0 table))
            ∙ ap (λ n. table_of n (table_bytes pad 0 table)) same
            ∙ table_of-table_bytes pad 0 table is_table)),
      find_file-shortened table,
      still_file,
    )
  where
    none_left : drop (length (table_bytes pad 0 table)) (table_bytes pad' 0 old) ≡ []
    none_left =
        drop_all (length (table_bytes pad 0 table)) (table_bytes pad' 0 old)
          (omega (arith, length-table_bytes pad 0 table, length-table_bytes pad' 0 old, same))
