-- ===== src/Machine/Disk/Tests.antt =====
-- machine/disk.cc: a disk whose head is over track 1.
use cmps.Prelude.{ℕ, ◌+◌, ◌≡◌, refl, Bool, false, List, replicate, arith}
use cmps.Threads.LinkedList.{new_list}
use cmps.Machine.State.{system_mode}
use cmps.Machine.Interrupt.{Interrupt, int_off}
use cmps.Machine.Disk.{DiskDevice, compute_latency}
use cmps.Machine.Disk.Latency.{StartsAt, seek_over, compute_latency-StartsAt}
use cmps.Machine.Disk.Requests.{IsFree}

abbrev device : DiskDevice
device = record {
  active = false;
  last_sector = 40;
  buffer_init = 0;
  image = λ i. replicate 64 0;
  num_disk_reads = 0;
  num_disk_writes = 0;
}

-- At the tick 730.
abbrev now : Interrupt Bool
now = record {
  level = int_off;
  pending = new_list;
  in_handler = false;
  yield_on_return = false;
  status = system_mode;
  total_ticks = 730;
  idle_ticks = 0;
  system_ticks = 730;
  user_ticks = 0;
}

compute_latency-StartsAt_example :
    (start : ℕ) × (730 + compute_latency device 730 100 false ≡ start + 500)
    × StartsAt (seek_over device 730 100) 100 start
compute_latency-StartsAt_example = compute_latency-StartsAt device 730 100 false refl

device-IsFree : IsFree device now 100
device-IsFree = record { inactive = refl; on_disk = omega arith; sorted = tt }

abbrev words : List ℕ
words = replicate 64 7
