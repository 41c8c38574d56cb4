-- ===== src/Machine/Interrupt/Schedule.antt =====
-- machine/interrupt.cc: `Schedule` arranges for an interrupt in the future.
use cmps.Prelude.{ℕ, ◌+◌, ◌<◌, ◌≡◌, refl, some, lt→ltb, arith}
use cmps.Threads.LinkedList.Sorted.{IsSorted, sorted_insert_lem, up_to-sorted_insert}
use cmps.Threads.LinkedList.{sorted_insert}
use cmps.Machine.Interrupt.{Interrupt, PendingInterrupt, IntType, schedule}
use cmps.Machine.Interrupt.Due.{due}

module _ {H : Type 0} where
  -- What a handler may change when it schedules.
  pub record Later (s s' : Interrupt H) : Type 0 where
    pub level_same : s'.level ≡ s.level
    pub time_same : s'.total_ticks ≡ s.total_ticks
    pub still_sorted : IsSorted s'.pending.elements
    pub due_same : due s' ≡ due s

  -- An interrupt scheduled for at least one tick from now: the assertion holds, the list of pending
  -- interrupts stays sorted, and neither the clock nor the level nor the interrupts that are due
  -- now change.
  pub schedule-Later :
      (s : Interrupt H) (handler : H) (arg from_now : ℕ) (kind : IntType)
      → 0 < from_now
      → IsSorted s.pending.elements
      → (s' : Interrupt H) × (schedule s handler arg from_now kind ≡ some s') × Later s s'
  unfolding schedule
  schedule-Later s handler arg from_now kind later sorted =
      let to_occur : PendingInterrupt H = record {
        handler = handler;
        arg = arg;
        due_at = s.total_ticks + from_now;
        kind = kind;
      } in
      (
        record s { pending = sorted_insert s.pending to_occur (s.total_ticks + from_now) },
        rw (lt→ltb 0 from_now later) refl,
        record {
          level_same = refl;
          time_same = refl;
          still_sorted = (sorted_insert_lem s.pending to_occur (s.total_ticks + from_now) sorted).0;
          due_same =
              up_to-sorted_insert s.total_ticks s.pending to_occur (s.total_ticks + from_now)
                (omega arith);
        },
      )
