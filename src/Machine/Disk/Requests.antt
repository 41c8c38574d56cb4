-- ===== src/Machine/Disk/Requests.antt =====
-- machine/disk.cc: one request after the other.
use cmps.Prelude.{
  ℕ, ◌+◌, ◌<◌, ◌≡◌, refl, ap, true, false, not, none, some, List, lt→ltb, ◌==◌, if◌then◌else◌,
}
use cmps.Threads.LinkedList.Sorted.{IsSorted}
use cmps.Machine.Interrupt.{Interrupt, disk_int}
use cmps.Machine.Interrupt.Schedule.{Later, schedule-Later}
use cmps.Machine.Disk.{
  DiskDevice, compute_latency, update_last, read_request, write_request, handle_interrupt,
}
use cmps.Machine.Disk.Latency.{compute_latency_positive}

-- The device that a request leaves.
unfoldable pub busy_after : DiskDevice → ℕ → ℕ → DiskDevice
busy_after d now sector = update_last (record d { active = true }) now sector

abbrev pub written : DiskDevice → ℕ → ℕ → List ℕ → DiskDevice
written d now sector words = record (busy_after d now sector) {
  image = λ i. if sector == i then words else d.image i;
  num_disk_writes = d.num_disk_writes + 1;
}

abbrev pub read : DiskDevice → ℕ → ℕ → DiskDevice
read d now sector = record (busy_after d now sector) { num_disk_reads = d.num_disk_reads + 1 }

-- A request for a sector of the disk while none is under way.
pub record IsFree {H : Type 0} (d : DiskDevice) (s : Interrupt H) (sector : ℕ) : Type 0 where
  pub inactive : d.active ≡ false
  pub on_disk : sector < 1024
  pub sorted : IsSorted s.pending.elements

module _ {H : Type 0} (disk_done : H) where
  pub write_free :
      (d : DiskDevice) (s : Interrupt H) (sector : ℕ) (words : List ℕ)
      → IsFree d s sector
      → (s' : Interrupt H) × (write_request disk_done d s sector words
          ≡ some (written d s.total_ticks sector words, s'))
        × Later s s'
  unfolding write_request busy_after update_last
  write_free d s sector words f =
      let (s', done, later) =
        schedule-Later s disk_done 0 (compute_latency d s.total_ticks sector true) disk_int
          (compute_latency_positive d s.total_ticks sector true) f.sorted in
      (s', rw (ap not f.inactive, lt→ltb _ _ f.on_disk, done) refl, later)

  pub read_free :
      (d : DiskDevice) (s : Interrupt H) (sector : ℕ)
      → IsFree d s sector
      → (s' : Interrupt H) × (read_request disk_done d s sector
          ≡ some (d.image sector, read d s.total_ticks sector, s'))
        × Later s s'
  unfolding read_request busy_after update_last
  read_free d s sector f =
      let (s', done, later) =
        schedule-Later s disk_done 0 (compute_latency d s.total_ticks sector false) disk_int
          (compute_latency_positive d s.total_ticks sector false) f.sorted in
      (s', rw (ap not f.inactive, lt→ltb _ _ f.on_disk, done) refl, later)

  -- One request at a time.
  refused :
      (d : DiskDevice) (s : Interrupt H) (sector : ℕ)
      → d.active ≡ true
      → read_request disk_done d s sector ≡ none
  unfolding read_request
  refused d s sector busy = rw (ap not busy) refl

  -- A write of a sector of the disk while no request is under way succeeds, and the interrupt that
  -- ends it is scheduled for later than now. A read before that interrupt fails its assertion. A
  -- read after it, whenever that is, succeeds, and gives the words written if it is of the same
  -- sector and those that were there before if it is of another.
  pub read_request-write_request :
      {W : Type 0} (handler : W → W) (w : W) (d : DiskDevice) (s s2 : Interrupt H)
      (sector other : ℕ) (words : List ℕ)
      → IsFree d s sector
      → other < 1024
      → IsSorted s2.pending.elements
      → (d' : DiskDevice) × (s' : Interrupt H) × (write_request disk_done d s sector words
          ≡ some (d', s'))
        × Later s s'
        × (read_request disk_done d' s2 other ≡ none)
        × ((d3 : DiskDevice) × (s3 : Interrupt H) × (read_request disk_done
                (handle_interrupt handler d' w).0
                s2
                other
              ≡ some (if sector == other then words else d.image other, d3, s3)))
  unfolding handle_interrupt busy_after update_last
  read_request-write_request handler w d s s2 sector other words f other_on_disk sorted =
      let (s', done, later) = write_free d s sector words f in
      let d' : DiskDevice = written d s.total_ticks sector words in
      let d2 : DiskDevice = record d' { active = false } in
      let (s3, done3, later3) =
        read_free d2 s2 other
          (record { inactive = refl; on_disk = other_on_disk; sorted = sorted }) in
      (d', s', done, later, refused d' s2 other refl, (read d2 s2.total_ticks other, s3, done3))
