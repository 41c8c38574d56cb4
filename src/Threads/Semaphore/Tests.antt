-- ===== src/Threads/Semaphore/Tests.antt =====
-- threads/synch.cc, `Semaphore`: threads 1 and 2 sleep in `P`, and thread 3 calls `V` once.
use cmps.Prelude.{ℕ, ◌+◌, ◌≤◌, ◌<◌, ◌≡◌, refl, false, none, [], length, occurs, arith}
use cmps.Prelude.Int.{◌+ℤ◌, ◌-ℤ◌}
use cmps.Threads.LinkedList.{new_list, append, remove, sorted_remove}
use cmps.Threads.Scheduler.{running, ready_to_run, find_next_to_run, run_thread, sleep, sleep_loop}
use cmps.Threads.Scheduler.Places.{runnable}
use cmps.Threads.Semaphore.{new_semaphore, p_round, v}
use cmps.Threads.Semaphore.System.{System, tests, posts, readied, IsStart, Reach, here, later}
use cmps.Threads.Semaphore.Safety.{units_conserved, no_lost_post}

abbrev start : System
start = record {
  semaphore = new_semaphore 0;
  kernel = record {
    current = 1;
    to_be_destroyed = none;
    active_threads = new_list;
    ready_list = new_list;
    status = λ t. running;
    parent = λ t. none;
    is_joined = λ t. false;
  };
  woken = [];
  takes = 0;
  gives = 0;
}

start-IsStart : IsStart 0 start
start-IsStart = record {
  semaphore_new = refl;
  alone = refl;
  none_woken = refl;
  none_counted = refl;
}

-- A state with the way to it.
record Run : Type 0 where
  last : System
  reach : Reach start last

one_posted : Run
unfolding p_round v sleep sleep_loop find_next_to_run run_thread ready_to_run append remove
    sorted_remove ◌+ℤ◌ ◌-ℤ◌
one_posted =
    let forked = later (later here (readied 2 refl)) (readied 3 refl) in
    let first_sleeps = later forked (tests refl) in
    let both_sleep = later first_sleeps (tests refl) in
    record { last = _; reach = later both_sleep (posts refl) }

units_conserved_example :
    (one_posted.last.semaphore.value + one_posted.last.takes ≡ 0 + one_posted.last.gives)
    × (one_posted.last.takes ≤ 0 + one_posted.last.gives)
units_conserved_example = units_conserved start-IsStart one_posted.reach

no_lost_post_example :
    (one_posted.last.semaphore.value ≤ length one_posted.last.woken)
    × ((w : ℕ) × (0 < occurs w one_posted.last.woken)
        × (0 < occurs w (runnable one_posted.last.kernel)))
unfolding one_posted
no_lost_post_example = no_lost_post start-IsStart one_posted.reach 2 (omega arith) (omega arith)
