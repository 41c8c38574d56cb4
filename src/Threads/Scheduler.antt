-- ===== src/Threads/Scheduler.antt =====
-- threads/scheduler.cc and the operations of threads/thread.cc that move threads between the
-- processor, the ready list and `activeThreads`. A thread is its number, and the fields of the
-- threads are functions of it; NULL is 0. Interrupts are off throughout, so that each operation is one step.
-- The registers, the stacks and `SWITCH` itself are left out: an operation ends when the thread
-- that it chose runs.
pub mod Active
pub mod Places
pub mod Finish
use cmps.Prelude.{
  ℕ, zero, suc, ◌+◌, Bool, true, false, not, Option, none, some, List, ◌==◌, if◌then◌else◌,
}
use cmps.Prelude.{◌>>=◌, ◌>>◌, assert}
use cmps.Prelude.Int.{ℤ, pos, ltb_ℤ}
use cmps.Threads.LinkedList.{LinkedList, get_size, append, prepend, remove}

pub data ThreadStatus : Type 0 where
  just_created running ready blocked : ThreadStatus

-- `currentThread`, `threadToBeDestroyed`, `activeThreads`, the ready list and the threads' fields.
pub record Kernel : Type 0 where
  pub current : ℕ
  pub to_be_destroyed : Option ℕ
  pub active_threads : LinkedList ℕ
  pub ready_list : LinkedList ℕ
  pub status : ℕ → ThreadStatus
  pub parent : ℕ → Option ℕ
  pub is_joined : ℕ → Bool

-- `thread->setStatus(st)`
abbrev pub set_status : Kernel → ℕ → ThreadStatus → Kernel
set_status k t st = record k { status = λ u. if t == u then st else k.status u }

unfoldable pub ready_to_run : Kernel → ℕ → Kernel
ready_to_run k t =
    let k1 = set_status k t ready in record k1 { ready_list = append k1.ready_list t }

unfoldable pub find_next_to_run : Kernel → Option ℕ × Kernel
find_next_to_run k =
    let (next, rest) = remove k.ready_list in (next, record k { ready_list = rest })

unfoldable pub wake_up_from_join : Kernel → ℕ → Kernel
wake_up_from_join k t =
    let k1 = record k { is_joined = λ u. if t == u then false else k.is_joined u } in
    let k2 = set_status k1 t ready in record k2 { ready_list = prepend k2.ready_list t }

-- `Scheduler::Run` up to `SWITCH`, and what the thread that comes out of `SWITCH` does first.
unfoldable pub run_thread : Kernel → ℕ → Kernel
run_thread k next =
    let k1 = set_status (record k { current = next }) next running in
    record k1 { to_be_destroyed = none }

-- `Thread::Fork`, without the stack.
unfoldable pub fork : Kernel → ℕ → Kernel
unfolding ready_to_run
fork k t = ready_to_run k t

-- `Thread::Yield`
unfoldable pub yield : Kernel → Kernel
unfolding find_next_to_run ready_to_run run_thread
yield k =
    let (next, k1) = find_next_to_run k in
    elim next [ none ↦ k1 | some t ↦ run_thread (ready_to_run k1 k1.current) t ]

-- The loop of `Sleep`; `idle` is `interrupt->Idle()`, which ends the program, `none`, or runs the
-- handlers of some interrupts.
unfoldable pub sleep_loop : (Kernel → Option Kernel) → ℕ → Kernel → Option Kernel
unfolding find_next_to_run run_thread
sleep_loop idle zero k = none
sleep_loop idle (suc fuel) k =
    let (next, k1) = find_next_to_run k in
    elim next [ none ↦ idle k1 >>= λ k2. sleep_loop idle fuel k2 | some t ↦ some (run_thread k1 t) ]

-- `Thread::Sleep`
unfoldable pub sleep : (Kernel → Option Kernel) → ℕ → Kernel → Option Kernel
unfolding sleep_loop
sleep idle fuel k = sleep_loop idle fuel (set_status k k.current blocked)

-- One round of the loop of `Finish`: the first thread goes to the end, or away if it is `current`.
pub visit_active : ℕ → LinkedList ℕ → LinkedList ℕ
visit_active current active =
    let (taken, rest) = remove active in
    elim taken [
      | none ↦ append rest 0
      | some t ↦ if not (t == current) then append rest t else rest
    ]

-- The loop of `Finish` over `activeThreads`, from index `i` on: `getSize()` is asked each time.
pub remove_active : ℕ → ℕ → ℕ → LinkedList ℕ → Option (LinkedList ℕ)
unfolding visit_active
remove_active zero i current active = if ltb_ℤ (pos i) (get_size active) then none else some active
remove_active (suc fuel) i current active =
    let more = remove_active fuel (i + 1) current (visit_active current active) in
    if ltb_ℤ (pos i) (get_size active) then more else some active

-- `Thread::Finish`, which does not return: the kernel when the next thread runs. The thread that it
-- makes for the loop and never deletes is left out.
unfoldable pub finish_thread : (Kernel → Option Kernel) → ℕ → ℕ → Kernel → Option Kernel
unfolding sleep
finish_thread idle idle_rounds rounds k = do
  let k1 = record k { to_be_destroyed = some k.current }
  let k2 : Kernel = elim (k1.parent k1.current) [ none ↦ k1 | some p ↦ wake_up_from_join k1 p ]
  active ← remove_active rounds 0 k2.current k2.active_threads
  sleep idle idle_rounds (record k2 { active_threads = active })
