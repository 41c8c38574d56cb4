-- ===== src/Filesys/OpenFile/Tests.antt =====
-- filesys/openfile.cc: a file of three sectors, written across the boundary of two of them.
use cmps.Prelude.{
  ℕ, ◌-◌, zero, suc, ◌+◌, ◌<◌, ◌≡◌, refl, some, arith, min, List, [], ◌∷◌, take, replicate, get_or,
  length-replicate,
}
use cmps.Filesys.FileHeader.{FileHeader, Disk}
use cmps.Filesys.FileHeader.Sectors.{IsLaidOut, data_blocks}
use cmps.Filesys.OpenFile.{OpenFile, file_length, read_at, write_at, read, write, seek, file_size}
use cmps.Filesys.OpenFile.Bytes.{AreBytes}
use cmps.Filesys.OpenFile.Read.{IsFresh, IsFile, IsRead, read_at_lem}
use cmps.Filesys.OpenFile.ReadBack.{read-write}
use cmps.Filesys.OpenFile.Update.{IsWritten, write_at_lem}
use cmps.Filesys.OpenFile.Layout.{IsSound, block_of, pointer_blocks, IsSound-IsFile}

abbrev disk : Disk
disk s = replicate 64 s

abbrev header : FileHeader
header = record { num_bytes = 700; num_sectors = 3; data_sectors = 10 ∷ 12 ∷ 11 ∷ replicate 59 0 }

abbrev garbage : ℕ → List ℕ
garbage n = replicate n 7

garbage-IsFresh : IsFresh garbage
garbage-IsFresh n = length-replicate n 7

garbage-AreBytes : (n : ℕ) → AreBytes (garbage n)
garbage-AreBytes zero k = omega arith
garbage-AreBytes (suc n) zero = omega arith
garbage-AreBytes (suc n) (suc k) = garbage-AreBytes n k

header-IsLaidOut : IsLaidOut header disk
header-IsLaidOut = omega arith

header-IsSound : IsSound header disk
unfolding data_blocks pointer_blocks
header-IsSound = record {
  laid_out = header-IsLaidOut;
  sized = omega arith;
  enough = omega arith;
  on_disk = on_disk;
  distinct = distinct;
  apart = λ i k lt lt'. absurd (omega arith);
}
  where
    on_disk : (i : ℕ) → i < 3 → get_or header.data_sectors i 0 < 1024
    on_disk zero lt = omega arith
    on_disk (suc zero) lt = omega arith
    on_disk (suc (suc zero)) lt = omega arith
    on_disk (suc (suc (suc i))) lt = absurd (omega arith)

    distinct :
        (i j : ℕ)
        → i < 3
        → j < 3
        → get_or header.data_sectors i 0 ≡ get_or header.data_sectors j 0
        → i ≡ j
    distinct zero zero lt lt' e = refl
    distinct zero (suc zero) lt lt' e = absurd (omega arith)
    distinct zero (suc (suc zero)) lt lt' e = absurd (omega arith)
    distinct (suc zero) zero lt lt' e = absurd (omega arith)
    distinct (suc zero) (suc zero) lt lt' e = refl
    distinct (suc zero) (suc (suc zero)) lt lt' e = absurd (omega arith)
    distinct (suc (suc zero)) zero lt lt' e = absurd (omega arith)
    distinct (suc (suc zero)) (suc zero) lt lt' e = absurd (omega arith)
    distinct (suc (suc zero)) (suc (suc zero)) lt lt' e = refl
    distinct (suc (suc (suc i))) j lt lt' e = absurd (omega arith)
    distinct zero (suc (suc (suc j))) lt lt' e = absurd (omega arith)
    distinct (suc zero) (suc (suc (suc j))) lt lt' e = absurd (omega arith)
    distinct (suc (suc zero)) (suc (suc (suc j))) lt lt' e = absurd (omega arith)

header-IsFile : IsFile header disk (block_of header disk)
header-IsFile = IsSound-IsFile header disk header-IsSound

abbrev text : List ℕ
text = 72 ∷ 101 ∷ 108 ∷ 108 ∷ 111 ∷ []

text-AreBytes : AreBytes text
text-AreBytes zero = omega arith
text-AreBytes (suc zero) = omega arith
text-AreBytes (suc (suc zero)) = omega arith
text-AreBytes (suc (suc (suc zero))) = omega arith
text-AreBytes (suc (suc (suc (suc zero)))) = omega arith
text-AreBytes (suc (suc (suc (suc (suc k))))) = omega arith

read_at_lem_example :
    (bytes : List ℕ) × (read_at garbage header disk 10 695 ≡ some bytes)
    × IsRead (block_of header disk) disk 695 (min 10 (700 - 695)) bytes
read_at_lem_example =
    read_at_lem garbage header disk (block_of header disk) 10 695 garbage-IsFresh header-IsFile

write_at_lem_example :
    (d' : Disk) × (write_at garbage header disk text 5 254 ≡ some (min 5 (700 - 254), d'))
    × IsWritten header (block_of header disk) text 254 (min 5 (700 - 254)) disk d'
write_at_lem_example =
    write_at_lem garbage header disk (block_of header disk) text 5 254 garbage-IsFresh
      garbage-AreBytes header-IsFile text-AreBytes (omega arith)

abbrev opened : OpenFile
opened = record { hdr = header; seek_position = 254 }

read-write_example :
    (f' : OpenFile) × (d' : Disk) × (write garbage opened disk text 5 ≡ some (5, f', d'))
    × (read garbage (seek f' 254) d' 5 ≡ some (take 5 text, f'))
    × (f'.seek_position ≡ 254 + 5)
unfolding file_size file_length
read-write_example =
    read-write garbage opened disk (block_of header disk) text 5 garbage-IsFresh garbage-AreBytes
      header-IsFile text-AreBytes (omega arith)

IsSound-IsFile_example : IsFile header disk (block_of header disk)
IsSound-IsFile_example = IsSound-IsFile header disk header-IsSound
