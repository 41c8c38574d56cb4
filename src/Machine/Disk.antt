-- ===== src/Machine/Disk.antt =====
-- machine/disk.cc: the simulated disk. A request moves the data at once and schedules the interrupt
-- that says so for the time at which the head would be done. The image of the disk is the words of
-- each sector, as the file header sees it; `disk_done` is the handler that the interrupt runs.
-- Times are ticks and sectors are numbers. A sector number from 1024 on stands for any that the
-- disk does not have.
pub mod Latency
pub mod Requests
mod Tests
use cmps.Prelude.{
  ℕ, ◌+◌, ◌-◌, ◌*◌, ◌/◌, ◌%◌, Bool, true, false, not, ◌&&◌, Option, none, some, List,
}
use cmps.Prelude.{ltb, leb, ◌==◌, if◌then◌else◌, ◌>>=◌, ◌>>◌, assert}
use cmps.Machine.Interrupt.{Interrupt, IntType, disk_int, schedule}
use cmps.Filesys.FileHeader.{Disk, num_disk_sectors}

abbrev pub sectors_per_track : ℕ
sectors_per_track = 32

abbrev pub rotation_time : ℕ
rotation_time = 500

abbrev pub seek_time : ℕ
seek_time = 500

-- `Disk`, and the counters of `stats` for it.
pub record DiskDevice : Type 0 where
  pub active : Bool
  pub last_sector : ℕ
  pub buffer_init : ℕ
  pub image : Disk
  pub num_disk_reads : ℕ
  pub num_disk_writes : ℕ

-- `Disk::Disk` on a file that holds `image`.
unfoldable pub new_disk : Disk → DiskDevice
new_disk image = record {
  active = false;
  last_sector = 0;
  buffer_init = 0;
  image = image;
  num_disk_reads = 0;
  num_disk_writes = 0;
}

-- `abs(a - b)`
abbrev pub distance : ℕ → ℕ → ℕ
distance a b = if leb a b then b - a else a - b

-- `TimeToSeek` at the tick `now`: the time of the seek, and the rotation up to the next sector.
abbrev pub time_to_seek : DiskDevice → ℕ → ℕ → ℕ × ℕ
time_to_seek d now new_sector =
    let new_track = new_sector / sectors_per_track in
    let old_track = d.last_sector / sectors_per_track in
    let seek = distance new_track old_track * seek_time in
    let over = (now + seek) % rotation_time in
    (seek, if ltb 0 over then rotation_time - over else 0)

abbrev pub modulo_diff : ℕ → ℕ → ℕ
modulo_diff to from =
    (to % sectors_per_track + sectors_per_track - from % sectors_per_track) % sectors_per_track

-- Whether the track buffer holds the sector already. The difference of times is negative when the
-- buffer is still to be loaded, and then the quotient is not positive either.
abbrev pub in_track_buffer : DiskDevice → ℕ → ℕ → ℕ → Bool
in_track_buffer d new_sector seek time_after =
    seek == 0
    && ltb (modulo_diff new_sector (d.buffer_init / rotation_time))
        ((time_after - d.buffer_init) / rotation_time)

-- `ComputeLatency`
pub compute_latency : DiskDevice → ℕ → ℕ → Bool → ℕ
compute_latency d now new_sector writing =
    let (seek, rotation) = time_to_seek d now new_sector in
    let time_after = now + seek + rotation in
    if not writing && in_track_buffer d new_sector seek time_after
    then rotation_time
    else (let wait = modulo_diff new_sector (time_after / rotation_time) * rotation_time in
        seek + (rotation + wait) + rotation_time)

unfoldable pub update_last : DiskDevice → ℕ → ℕ → DiskDevice
update_last d now new_sector =
    let (seek, rotate) = time_to_seek d now new_sector in
    record d {
      buffer_init = if not (seek == 0) then now + seek + rotate else d.buffer_init;
      last_sector = new_sector;
    }

module _ {H : Type 0} (disk_done : H) where
  -- `ReadRequest`: the words go to `data`.
  unfoldable pub read_request :
      DiskDevice → Interrupt H → ℕ → Option (List ℕ × DiskDevice × Interrupt H)
  unfolding compute_latency update_last schedule
  read_request d s sector = do
    let ticks = compute_latency d s.total_ticks sector false
    assert (not d.active)
    assert (ltb sector num_disk_sectors)
    let d1 = update_last (record d { active = true }) s.total_ticks sector
    s1 ← schedule s disk_done 0 ticks disk_int
    some (d.image sector, record d1 { num_disk_reads = d.num_disk_reads + 1 }, s1)

  unfoldable pub write_request :
      DiskDevice → Interrupt H → ℕ → List ℕ → Option (DiskDevice × Interrupt H)
  unfolding compute_latency update_last schedule
  write_request d s sector words = do
    let ticks = compute_latency d s.total_ticks sector true
    assert (not d.active)
    assert (ltb sector num_disk_sectors)
    let d1 = update_last (record d { active = true }) s.total_ticks sector
    s1 ← schedule s disk_done 0 ticks disk_int
    some (
      record d1 {
        image = λ i. if sector == i then words else d.image i;
        num_disk_writes = d.num_disk_writes + 1;
      },
      s1,
    )

-- `HandleInterrupt`; what the handler of the client does is a parameter.
unfoldable pub handle_interrupt {ℓ} : {W : Type ℓ} → (W → W) → DiskDevice → W → DiskDevice × W
handle_interrupt handler d w = (record d { active = false }, handler w)
