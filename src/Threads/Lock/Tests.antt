-- ===== src/Threads/Lock/Tests.antt =====
-- threads/synch.cc, `Lock`: thread 1 holds the lock and thread 2 waits for it.
use cmps.Prelude.{ℕ, ◌≡◌, ◌≢◌, refl, true, false, none}
use cmps.Prelude.Int.{◌+ℤ◌, ◌-ℤ◌}
use cmps.Threads.LinkedList.{new_list, append, remove, sorted_remove, get_size}
use cmps.Threads.Scheduler.{
  running, ready_to_run, find_next_to_run, run_thread, yield, sleep, sleep_loop,
}
use cmps.Threads.Lock.{new_lock, acquire, release}
use cmps.Threads.Lock.System.{
  System, Pc, outside, acquiring, acquires, releases, returns, yields, readied, IsStart, Reach,
  here, later,
}
use cmps.Threads.Lock.Safety.{InAcquire, mutual_exclusion, no_lost_wakeup}

abbrev start : System
start = record {
  lock = new_lock;
  kernel = record {
    current = 1;
    to_be_destroyed = none;
    active_threads = new_list;
    ready_list = new_list;
    status = λ t. running;
    parent = λ t. none;
    is_joined = λ t. false;
  };
  pc = λ t. outside;
}

start-IsStart : IsStart start
start-IsStart = record { lock_new = refl; alone = refl; nobody = λ t. refl }

-- A state with the way to it.
record Run : Type 0 where
  last : System
  reach : Reach start last

not_asked : ◌≢◌ {A = Pc} outside acquiring
not_asked e = cc

-- Thread 1 forks thread 2 and takes the lock; thread 2 calls `Acquire` and sleeps.
contended : Run
unfolding acquire sleep sleep_loop find_next_to_run run_thread ready_to_run yield append remove
    sorted_remove ◌+ℤ◌ ◌-ℤ◌
contended =
    let forked = later here (readied 2 not_asked refl) in
    let held = later forked (acquires refl refl) in
    let other = later held yields in record { last = _; reach = later other (acquires refl refl) }

-- Then thread 1 releases the lock and yields, and thread 2 returns from `Acquire`.
passed_on : Run
unfolding contended release remove sorted_remove get_size ready_to_run append ◌-ℤ◌ ◌+ℤ◌ yield
    find_next_to_run run_thread
passed_on =
    let released = later contended.reach (releases refl refl) in
    let other = later released yields in record { last = _; reach = later other (returns refl) }

mutual_exclusion_example : ◌≡◌ {A = ℕ} 2 2
unfolding passed_on contended
mutual_exclusion_example = mutual_exclusion start-IsStart passed_on.reach 2 2 refl refl

no_lost_wakeup_example : (contended.last.lock.value ≡ true) × InAcquire contended.last 2
unfolding contended
no_lost_wakeup_example = no_lost_wakeup start-IsStart contended.reach 2 refl
