-- ===== src/Threads/Scheduler/Finish.antt =====
-- threads/thread.cc, `Finish`: the thread that joined the one that finishes runs next.
use cmps.Prelude.{
  ℕ, suc, ◌≤◌, ◌≡◌, refl, false, Option, some, length, occurs, ◌==◌, if◌then◌else◌, ==_of_eq,
}
use cmps.Threads.LinkedList.{LinkedList, prepend, remove}
use cmps.Threads.LinkedList.Counted.{items, IsCounted}
use cmps.Threads.Scheduler.{
  Kernel, running, set_status, blocked, wake_up_from_join, find_next_to_run, run_thread, sleep,
  sleep_loop, finish_thread,
}
use cmps.Threads.Scheduler.Active.{remove_active_lem}

-- `p` runs, no longer joined, and the thread that ran is no longer active; the ready list is as before.
pub record Resumed (k : Kernel) (p : ℕ) (k' : Kernel) : Type 0 where
  pub now_runs : k'.current ≡ p
  pub is_running : k'.status p ≡ running
  pub not_joined : k'.is_joined p ≡ false
  pub ready_kept : items k'.ready_list ≡ items k.ready_list
  pub active_left :
      (t : ℕ)
      → occurs t (items k'.active_threads)
        ≡ (if t == k.current then 0 else occurs t (items k.active_threads))

-- The kernel in which `p` has come out of `SWITCH`.
resumed : Kernel → ℕ → LinkedList ℕ → Kernel
unfolding wake_up_from_join find_next_to_run run_thread
resumed k p active =
    let k2 = wake_up_from_join (record k { to_be_destroyed = some k.current }) p in
    let k3 = set_status (record k2 { active_threads = active }) k.current blocked in
    run_thread (find_next_to_run k3).1 p

pub finish_thread-Resumed :
    (idle : Kernel → Option Kernel) (idle_rounds : ℕ) (k : Kernel) (p : ℕ)
    → k.parent k.current ≡ some p
    → IsCounted k.active_threads
    → occurs k.current (items k.active_threads) ≤ 1
    → (k' : Kernel) × (finish_thread idle (suc idle_rounds) (length (items k.active_threads)) k
        ≡ some k')
      × Resumed k p k'
unfolding resumed finish_thread wake_up_from_join sleep sleep_loop find_next_to_run run_thread
    prepend remove
finish_thread-Resumed idle idle_rounds k p joined counted once =
    let (active, left, _, gone) = remove_active_lem k.current k.active_threads counted once in
    (
      resumed k p active,
      rw (joined, left) refl,
      record {
        now_runs = refl;
        is_running = rw (==_of_eq p p refl) refl;
        not_joined = rw (==_of_eq p p refl) refl;
        ready_kept = refl;
        active_left = gone;
      },
    )
