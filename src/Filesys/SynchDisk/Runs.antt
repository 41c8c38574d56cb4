-- ===== src/Filesys/SynchDisk/Runs.antt =====
-- filesys/synchdisk.cc: the simulated disk behind its synchronous interface is the image that files use.
use cmps.Prelude.{
  ℕ, ◌+◌, ◌-◌, ◌≡◌, refl, arith, true, false, Option, none, some, List, [], ◌∷◌, ltb, ◌==◌,
  if◌then◌else◌, ◌>>=◌, Bool-cases, inl, inr, ltb→lt, ==_of_ne, subst,
}
use cmps.Threads.LinkedList.Sorted.{IsSorted}
use cmps.Machine.Interrupt.{Interrupt}
use cmps.Machine.Disk.{DiskDevice, read_request, write_request, update_last, handle_interrupt}
use cmps.Machine.Disk.Requests.{read_free, write_free, busy_after, read, written}
use cmps.Filesys.FileHeader
use cmps.Filesys.FileHeader.{Disk}
use cmps.Filesys.SynchDisk.{
  SynchDisk, Request, reads, writes, finish_request, read_sector, write_sector, run, run_image,
}

-- No request is under way, and the pending interrupts are in order.
pub record IsReady {H : Type 0} (m : SynchDisk) (s : Interrupt H) : Type 0 where
  pub inactive : m.disk.active ≡ false
  pub sorted : IsSorted s.pending.elements

module _ {H : Type 0} where
  -- The run on the disk does what the run on its image does: it fails, or has the same outcome.
  abbrev pub Agrees :
      Option (List (List ℕ) × SynchDisk × Interrupt H) → Option (List (List ℕ) × Disk) → Type 0
  Agrees r none = r ≡ none
  Agrees r (some (outs, image)) =
      (m : SynchDisk) × (s : Interrupt H) × (r ≡ some (outs, m, s))
      × (m.disk.image ≡ image)
      × IsReady m s

  -- A read in front of requests that agree.
  after_read :
      (words : List ℕ) (r : Option (List (List ℕ) × SynchDisk × Interrupt H))
      (q : Option (List (List ℕ) × Disk))
      → Agrees r q
      → Agrees
          (r >>= λ (outs, m, s). some (words ∷ outs, m, s))
          (q >>= λ (outs, d). some (words ∷ outs, d))
  after_read words r none e = rw e refl
  after_read words r (some (outs, image)) (m, s, e, same, free) = (m, s, rw e refl, same, free)

-- After a request the disk is free again, and the semaphore has the value from before.
finish_request_lem :
    (d : DiskDevice) (value : ℕ)
    → finish_request d value
      ≡ some (record { disk = record d { active = false }; semaphore = value + 1 - 1 })
unfolding finish_request handle_interrupt
finish_request_lem d value = rw (==_of_ne (value + 1) 0 (omega arith)) refl

module _ {H : Type 0} (disk_done : H) (passes : Interrupt H → Interrupt H)
    (keeps : (s : Interrupt H)
      → IsSorted s.pending.elements
      → IsSorted (passes s).pending.elements) where
  -- A sector that the disk does not have.
  read_off :
      (m : SynchDisk) (s : Interrupt H) (sector : ℕ)
      → ltb sector 1024 ≡ false
      → read_sector disk_done passes m s sector ≡ none
  unfolding read_sector read_request
  read_off m s sector off = elim (Bool-cases m.disk.active) [
    | inl busy ↦ rw busy refl
    | inr free ↦ rw (free, off) refl
  ]

  write_off :
      (m : SynchDisk) (s : Interrupt H) (sector : ℕ) (words : List ℕ)
      → ltb sector 1024 ≡ false
      → write_sector disk_done passes m s sector words ≡ none
  unfolding write_sector write_request
  write_off m s sector words off = elim (Bool-cases m.disk.active) [
    | inl busy ↦ rw busy refl
    | inr free ↦ rw (free, off) refl
  ]

  read_on :
      (m : SynchDisk) (s : Interrupt H) (sector : ℕ)
      → IsReady m s
      → ltb sector 1024 ≡ true
      → (m' : SynchDisk) × (s' : Interrupt H) × (read_sector disk_done passes m s sector
          ≡ some (m.disk.image sector, m', s'))
        × (m'.disk.image ≡ m.disk.image)
        × IsReady m' s'
  unfolding read_sector busy_after update_last
  read_on m s sector free on_disk =
      let (s1, done, later) = read_free disk_done m.disk s sector (record {
        inactive = free.inactive;
        on_disk = ltb→lt sector 1024 on_disk;
        sorted = free.sorted;
      }) in
      (
        record {
          disk = record (read m.disk s.total_ticks sector) { active = false };
          semaphore = m.semaphore + 1 - 1;
        },
        passes s1,
        rw (done, finish_request_lem (read m.disk s.total_ticks sector) m.semaphore) refl,
        refl,
        record { inactive = refl; sorted = keeps s1 later.still_sorted },
      )

  write_on :
      (m : SynchDisk) (s : Interrupt H) (sector : ℕ) (words : List ℕ)
      → IsReady m s
      → ltb sector 1024 ≡ true
      → (m' : SynchDisk) × (s' : Interrupt H) × (write_sector disk_done passes m s sector words
          ≡ some (m', s'))
        × (m'.disk.image ≡ (λ i. if sector == i then words else m.disk.image i))
        × IsReady m' s'
  unfolding write_sector busy_after update_last
  write_on m s sector words free on_disk =
      let (s1, done, later) = write_free disk_done m.disk s sector words (record {
        inactive = free.inactive;
        on_disk = ltb→lt sector 1024 on_disk;
        sorted = free.sorted;
      }) in
      (
        record {
          disk = record (written m.disk s.total_ticks sector words) { active = false };
          semaphore = m.semaphore + 1 - 1;
        },
        passes s1,
        rw (done, finish_request_lem (written m.disk s.total_ticks sector words) m.semaphore) refl,
        refl,
        record { inactive = refl; sorted = keeps s1 later.still_sorted },
      )

  -- Any requests, one after the other, on a disk that is not busy, whatever the latency of each and
  -- whatever else is pending: they fail exactly if the same requests on the image of the disk fail, and
  -- otherwise the reads give the same words, and the disk is left with the same image and free again.
  pub run-run_image :
      (requests : List Request) (m : SynchDisk) (s : Interrupt H)
      → IsReady m s
      → Agrees (run disk_done passes requests m s) (run_image requests m.disk.image)
  unfolding run run_image FileHeader.read_sector FileHeader.write_sector
  run-run_image [] m s free = (m, s, refl, refl, free)
  run-run_image (reads sector ∷ rest) m s free = elim (Bool-cases (ltb sector 1024)) [
    | inr off ↦ rw (off, read_off m s sector off) refl
    | inl on ↦
        let (m1, s1, done, same, free1) = read_on m s sector free on in
        rw (on, done)
          (after_read (m.disk.image sector) (run disk_done passes rest m1 s1)
            (run_image rest m.disk.image)
            (subst (λ d. Agrees (run disk_done passes rest m1 s1) (run_image rest d)) same
              (run-run_image rest m1 s1 free1)))
  ]
  run-run_image (writes sector words ∷ rest) m s free = elim (Bool-cases (ltb sector 1024)) [
    | inr off ↦ rw (off, write_off m s sector words off) refl
    | inl on ↦
        let (m1, s1, done, same, free1) = write_on m s sector words free on in
        rw (on, done)
          (subst (λ d. Agrees (run disk_done passes rest m1 s1) (run_image rest d)) same
            (run-run_image rest m1 s1 free1))
  ]
