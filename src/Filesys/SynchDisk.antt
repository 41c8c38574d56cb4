-- ===== src/Filesys/SynchDisk.antt =====
-- filesys/synchdisk.cc: the disk of the file system, whose operations return when the disk is done. One
-- thread uses it at a time, as its lock makes sure. `passes` is what becomes of the interrupts and the
-- clock until the interrupt of a request runs `RequestDone`, after which `P` of the thread goes on.
pub mod Runs
mod Tests
use cmps.Prelude.{
  ℕ, ◌+◌, ◌-◌, Bool, not, Option, none, some, List, [], ◌∷◌, ◌==◌, if◌then◌else◌, ◌>>=◌, ◌>>◌,
  assert,
}
use cmps.Machine.Interrupt.{Interrupt}
use cmps.Machine.Disk.{DiskDevice, new_disk, read_request, write_request, handle_interrupt}
use cmps.Filesys.FileHeader
use cmps.Filesys.FileHeader.{Disk}

pub record SynchDisk : Type 0 where
  pub disk : DiskDevice
  pub semaphore : ℕ

-- `SynchDisk::SynchDisk`
abbrev pub new_synch_disk : Disk → SynchDisk
new_synch_disk image = record { disk = new_disk image; semaphore = 0 }

-- `RequestDone`, on the value of the semaphore.
abbrev pub request_done : ℕ → ℕ
request_done value = value + 1

-- The interrupt of the disk, and `semaphore->P()`.
unfoldable pub finish_request : DiskDevice → ℕ → Option SynchDisk
unfolding handle_interrupt
finish_request d semaphore = do
  let (d1, value) = handle_interrupt request_done d semaphore
  assert (not (value == 0))
  some (record { disk = d1; semaphore = value - 1 })

-- What a client asks for.
pub data Request : Type 0 where
  reads : ℕ → Request
  writes : ℕ → List ℕ → Request

module _ {H : Type 0} (disk_done : H) (passes : Interrupt H → Interrupt H) where
  unfoldable pub read_sector :
      SynchDisk → Interrupt H → ℕ → Option (List ℕ × SynchDisk × Interrupt H)
  unfolding read_request finish_request
  read_sector m s sector = do
    (words, d, s1) ← read_request disk_done m.disk s sector
    m1 ← finish_request d m.semaphore
    some (words, m1, passes s1)

  unfoldable pub write_sector :
      SynchDisk → Interrupt H → ℕ → List ℕ → Option (SynchDisk × Interrupt H)
  unfolding write_request finish_request
  write_sector m s sector words = do
    (d, s1) ← write_request disk_done m.disk s sector words
    m1 ← finish_request d m.semaphore
    some (m1, passes s1)

  -- Requests one after the other, with what the reads among them give.
  pub run :
      List Request → SynchDisk → Interrupt H → Option (List (List ℕ) × SynchDisk × Interrupt H)
  run [] m s = some ([], m, s)
  run (reads sector ∷ rest) m s = do
    (words, m1, s1) ← read_sector m s sector
    (outs, m2, s2) ← run rest m1 s1
    some (words ∷ outs, m2, s2)
  run (writes sector words ∷ rest) m s = do (m1, s1) ← write_sector m s sector words; run rest m1 s1

-- The same requests on an image of the disk, as the files use it.
pub run_image : List Request → Disk → Option (List (List ℕ) × Disk)
unfolding FileHeader.read_sector FileHeader.write_sector
run_image [] d = some ([], d)
run_image (reads sector ∷ rest) d = do
  words ← FileHeader.read_sector d sector
  (outs, d1) ← run_image rest d
  some (words ∷ outs, d1)
run_image (writes sector words ∷ rest) d = do
  d1 ← FileHeader.write_sector d sector words
  run_image rest d1
