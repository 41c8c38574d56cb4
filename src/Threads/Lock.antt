-- ===== src/Threads/Lock.antt =====
-- threads/synch.cc, `Lock`. `Release` hands the lock over: when a thread waits, the lock stays busy
-- and belongs to the thread that is made ready. Interrupts are off in both operations, so that each
-- is one step up to the switch to another thread.
pub mod System
pub mod Invariant
pub mod Moves
pub mod Steps
pub mod Safety
mod Tests
use cmps.Prelude.{ℕ, Bool, true, false, Option, none, some, if◌then◌else◌, ◌>>=◌}
use cmps.Prelude.Int.{pos, ltb_ℤ}
use cmps.Threads.LinkedList.{LinkedList, new_list, get_size, append, remove}
use cmps.Threads.Scheduler.{Kernel, ready_to_run, sleep}

pub record Lock : Type 0 where
  pub value : Bool
  pub queue : LinkedList ℕ

-- `Lock::Lock`
abbrev pub new_lock : Lock
new_lock = record { value = false; queue = new_list }

-- `Acquire`, up to the moment at which some thread runs: the current one if the lock was free.
-- What `Idle` does is a parameter.
pub acquire : (Kernel → Option Kernel) → ℕ → Lock → Kernel → Option (Lock × Kernel)
acquire idle fuel l k =
    if l.value
    then (do
      let l' = record l { queue = append l.queue k.current }
      k' ← sleep idle fuel k
      some (l', k'))
    else some (record l { value = true }, k)

pub release : Lock → Kernel → Lock × Kernel
release l k =
    if ltb_ℤ (pos 0) (get_size l.queue)
    then (let (thread, rest) = remove l.queue in
        (record l { queue = rest }, elim thread [ none ↦ k | some t ↦ ready_to_run k t ]))
    else (record l { value = false }, k)
