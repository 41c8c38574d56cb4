-- ===== src/Threads/Semaphore.antt =====
-- threads/synch.cc, `Semaphore`. Interrupts are off in both operations. `P` is a loop, of which one
-- round is one step: the thread takes a unit, or sleeps and tests again when it runs next.
pub mod System
pub mod Invariant
pub mod Safety
mod Tests
use cmps.Prelude.{ℕ, ◌+◌, ◌-◌, Bool, true, false, Option, none, some, ◌==◌, if◌then◌else◌, ◌>>=◌}
use cmps.Threads.LinkedList.{LinkedList, new_list, append, remove}
use cmps.Threads.Scheduler.{Kernel, ready_to_run, sleep}

pub record Semaphore : Type 0 where
  pub value : ℕ
  pub queue : LinkedList ℕ

-- `Semaphore::Semaphore`
abbrev pub new_semaphore : ℕ → Semaphore
new_semaphore initial_value = record { value = initial_value; queue = new_list }

-- One round of the loop of `P`: whether the current thread is through, or has gone to sleep.
pub p_round : (Kernel → Option Kernel) → ℕ → Semaphore → Kernel → Option (Bool × Semaphore × Kernel)
p_round idle fuel m k =
    if m.value == 0
    then (do
      let m' = record m { queue = append m.queue k.current }
      k' ← sleep idle fuel k
      some (false, m', k'))
    else some (true, record m { value = m.value - 1 }, k)

pub v : Semaphore → Kernel → Semaphore × Kernel
v m k =
    let (thread, rest) = remove m.queue in
    let k' : Kernel = elim thread [ none ↦ k | some t ↦ ready_to_run k t ] in
    (record m { value = m.value + 1; queue = rest }, k')
