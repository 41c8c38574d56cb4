-- ===== src/Filesys/SynchDisk/Tests.antt =====
-- filesys/synchdisk.cc: a write, and two reads.
use cmps.Prelude.{◌+◌, ◌≡◌, refl, Bool, true, false, List, [], ◌∷◌}
use cmps.Machine.Interrupt.{Interrupt, new_interrupt}
use cmps.Machine.Disk.{new_disk}
use cmps.Threads.LinkedList.Sorted.{IsSorted}
use cmps.Filesys.FileHeader.{Disk}
use cmps.Filesys.SynchDisk.{new_synch_disk, Request, reads, writes, run, run_image}
use cmps.Filesys.SynchDisk.Runs.{Agrees, run-run_image}

abbrev blank : Disk
blank sector = 0 ∷ []

abbrev script : List Request
script = writes 5 (1 ∷ 2 ∷ []) ∷ reads 5 ∷ reads 6 ∷ []

-- The disk is done well within 30000 ticks.
abbrev later : Interrupt Bool → Interrupt Bool
later s = record s { total_ticks = s.total_ticks + 30000 }

inactive : (new_synch_disk blank).disk.active ≡ false
unfolding new_disk
inactive = refl

in_order : IsSorted (new_interrupt {H = Bool}).pending.elements
unfolding new_interrupt
in_order = tt

run-run_image_example :
    Agrees (run true later script (new_synch_disk blank) new_interrupt) (run_image script blank)
unfolding new_disk
run-run_image_example =
    run-run_image true later (λ s sorted. sorted) script (new_synch_disk blank) new_interrupt
      (record { inactive = inactive; sorted = in_order })
