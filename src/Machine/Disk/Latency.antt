-- ===== src/Machine/Disk/Latency.antt =====
-- machine/disk.cc: when the head has the sector under it.
use cmps.Prelude.{
  ℕ, ◌+◌, ◌-◌, ◌*◌, ◌/◌, ◌%◌, ◌≤◌, ◌<◌, ◌≡◌, ap, Bool, false, not, ◌&&◌, arith, ltb, if◌then◌else◌,
}
use cmps.Machine.Disk.{DiskDevice, time_to_seek, in_track_buffer, modulo_diff, compute_latency}

-- The head is over the start of sector `sector` of its track at the tick `t`.
pub record IsUnderHead (sector t : ℕ) : Type 0 where
  pub boundary : t % 500 ≡ 0
  pub passing : t / 500 % 32 ≡ sector % 32

-- The transfer starts at the tick `start`: the seek is over, the sector is under the head, and it was
-- not so earlier.
pub record StartsAt (ready sector start : ℕ) : Type 0 where
  pub after_seek : ready ≤ start
  pub under_head : IsUnderHead sector start
  pub earliest : (t : ℕ) → ready ≤ t → IsUnderHead sector t → start ≤ t

-- The tick at which the seek to the sector is over.
abbrev pub seek_over : DiskDevice → ℕ → ℕ → ℕ
seek_over d now sector = now + (time_to_seek d now sector).0

-- The next boundary of a sector, and the rounds up to the sector from there.
next_boundary : ℕ → ℕ
next_boundary ready = (ready + 499) / 500

StartsAt-boundary :
    (ready sector : ℕ)
    → let k = next_boundary ready in StartsAt ready sector (500 * (k + modulo_diff sector k))
unfolding next_boundary
StartsAt-boundary ready sector = record {
  after_seek = omega arith;
  under_head = omega arith;
  earliest = λ t later h. omega (arith, later, h.boundary, h.passing);
}

rotated :
    (ready : ℕ)
    → ready + (if ltb 0 (ready % 500) then 500 - ready % 500 else 0) ≡ 500 * next_boundary ready
unfolding next_boundary
rotated ready = ground arith

total :
    (now seek rotation sector k : ℕ)
    → now + seek + rotation ≡ 500 * k
    → now + (seek + (rotation + modulo_diff sector ((now + seek + rotation) / 500) * 500) + 500)
      ≡ 500 * (k + modulo_diff sector k) + 500
total now seek rotation sector k e = omega (arith, e, ap (λ t. modulo_diff sector t) same)
  where
    same : (now + seek + rotation) / 500 ≡ k
    same = omega (arith, e)

-- On a disk whose track buffer does not serve the request, in particular for every write, the
-- latency is one sector time more than the wait for the start of the transfer, which is the first
-- tick, once the seek is over, at which the sector is under the head.
pub compute_latency-StartsAt :
    (d : DiskDevice) (now sector : ℕ) (writing : Bool)
    → let (seek, rotation) = time_to_seek d now sector in
      not writing && in_track_buffer d sector seek (now + seek + rotation) ≡ false
      → (start : ℕ) × (now + compute_latency d now sector writing ≡ start + 500)
        × StartsAt (seek_over d now sector) sector start
unfolding compute_latency
compute_latency-StartsAt d now sector writing direct = (
  500 * (k + modulo_diff sector k),
  rw direct (
      total now (time_to_seek d now sector).0 (time_to_seek d now sector).1 sector k
        (rotated (seek_over d now sector))),
  StartsAt-boundary (seek_over d now sector) sector,
)
  where
    k : ℕ
    k = next_boundary (seek_over d now sector)

pub compute_latency_positive :
    (d : DiskDevice) (now sector : ℕ) (writing : Bool) → 0 < compute_latency d now sector writing
unfolding compute_latency
compute_latency_positive d now sector writing = ground arith

-- For two sectors of the disk the latency is at least the time of one sector, and less than 31 tracks
-- of seek, a turn of the disk and the transfer together take.
pub compute_latency_bounds :
    (d : DiskDevice) (now sector : ℕ) (writing : Bool)
    → d.last_sector < 1024
    → sector < 1024
    → (500 ≤ compute_latency d now sector writing)
      × (compute_latency d now sector writing < 31 * 500 + 32 * 500 + 500)
unfolding compute_latency
compute_latency_bounds d now sector writing h k = ground arith
