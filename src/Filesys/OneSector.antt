-- ===== src/Filesys/OneSector.antt =====
-- filesys: a file of one sector, on which the tests of what is kept in files stand.
use cmps.Prelude.{ℕ, zero, suc, ◌<◌, arith, List, ◌∷◌, replicate, get_or, length-replicate}
use cmps.Filesys.FileHeader.{FileHeader, Disk}
use cmps.Filesys.FileHeader.Sectors.{IsLaidOut, data_blocks}
use cmps.Filesys.OpenFile.Bytes.{AreBytes}
use cmps.Filesys.OpenFile.Read.{IsFresh, IsFile}
use cmps.Filesys.OpenFile.Layout.{IsSound, block_of, pointer_blocks, IsSound-IsFile}

abbrev pub disk : Disk
disk s = replicate 64 s

abbrev pub one_sector : FileHeader
one_sector = record { num_bytes = 128; num_sectors = 1; data_sectors = 10 ∷ replicate 61 0 }

abbrev pub garbage : ℕ → List ℕ
garbage n = replicate n 7

pub garbage-IsFresh : IsFresh garbage
garbage-IsFresh n = length-replicate n 7

pub garbage-AreBytes : (n : ℕ) → AreBytes (garbage n)
garbage-AreBytes zero k = omega arith
garbage-AreBytes (suc n) zero = omega arith
garbage-AreBytes (suc n) (suc k) = garbage-AreBytes n k

one_sector-IsLaidOut : IsLaidOut one_sector disk
one_sector-IsLaidOut = omega arith

one_sector-IsSound : IsSound one_sector disk
unfolding data_blocks pointer_blocks
one_sector-IsSound = record {
  laid_out = one_sector-IsLaidOut;
  sized = omega arith;
  enough = omega arith;
  on_disk = λ i lt. on_disk i lt;
  distinct = λ i j lt lt' e. omega (arith, lt, lt');
  apart = λ i k lt lt'. absurd (omega arith);
}
  where
    on_disk : (i : ℕ) → i < 1 → get_or one_sector.data_sectors i 0 < 1024
    on_disk zero lt = omega arith
    on_disk (suc i) lt = absurd (omega arith)

pub one_sector-IsFile : IsFile one_sector disk (block_of one_sector disk)
one_sector-IsFile = IsSound-IsFile one_sector disk one_sector-IsSound
