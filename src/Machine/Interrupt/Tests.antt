-- ===== src/Machine/Interrupt/Tests.antt =====
-- machine/interrupt.cc: a timer whose handler schedules it again, as machine/timer.cc does.
use cmps.Prelude.{
  ℕ, suc, ◌≡◌, refl, sym, subst, Bool, true, false, Option, none, some, [], ◌∷◌, length, arith,
}
use cmps.Prelude.Int.{pos}
use cmps.Threads.LinkedList.{element}
use cmps.Threads.LinkedList.Sorted.{IsSorted}
use cmps.Machine.State.{system_mode}
use cmps.Machine.Interrupt.{
  Interrupt, PendingInterrupt, int_off, timer_int, disk_int, schedule, drain,
}
use cmps.Machine.Interrupt.Due.{due, IsWaiting, IsDevice, Drained, drain_lem}
use cmps.Machine.Interrupt.Schedule.{Later, schedule-Later}

-- There is one handler.
abbrev get_or_same : Interrupt Bool → Option (Interrupt Bool) → Interrupt Bool
get_or_same s none = s
get_or_same s (some s') = s'

abbrev timer : Bool → ℕ → Interrupt Bool → Interrupt Bool
timer h arg s = get_or_same s (schedule s h arg 100 timer_int)

timer-Later :
    (h : Bool) (arg : ℕ) (s : Interrupt Bool)
    → IsSorted s.pending.elements
    → Later s (timer h arg s)
timer-Later h arg s sorted =
    let (s', ran, later) = schedule-Later s h arg 100 timer_int (omega arith) sorted in
    subst (λ r. Later s (get_or_same s r)) (sym ran) later

timer-IsDevice : IsDevice timer
unfolding schedule
timer-IsDevice = record {
  same_level = λ h n s. refl;
  same_time = λ h n s. refl;
  same_due =
      λ h n s sorted. let later = timer-Later h n s sorted in (later.still_sorted, later.due_same);
}

abbrev at : ℕ → PendingInterrupt Bool
at t = record { handler = true; arg = 0; due_at = t; kind = disk_int }

-- At tick 50: two interrupts are due, one is not.
abbrev waiting : Interrupt Bool
waiting = record {
  level = int_off;
  pending = record {
    elements = element (at 20) 20 ∷ element (at 50) 50 ∷ element (at 60) 60 ∷ [];
    size = pos 0;
  };
  in_handler = false;
  yield_on_return = false;
  status = system_mode;
  total_ticks = 50;
  idle_ticks = 0;
  system_ticks = 50;
  user_ticks = 0;
}

waiting-IsWaiting : IsWaiting waiting
waiting-IsWaiting = record {
  off = refl;
  sorted = ((omega arith, (omega arith, tt)), ((omega arith, tt), (tt, tt)));
  running = refl;
}

drain_lem_example :
    (s' : Interrupt Bool) × (drain timer (suc (length (due waiting))) waiting ≡ some s')
    × Drained waiting s'
drain_lem_example = drain_lem timer waiting timer-IsDevice waiting-IsWaiting
