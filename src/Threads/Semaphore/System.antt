-- ===== src/Threads/Semaphore/System.antt =====
-- threads/synch.cc, `Semaphore`: threads that call `P` and `V` of one semaphore, yield, sleep for other
-- reasons and become ready again, in any order.
use cmps.Prelude.{ℕ, suc, ◌+◌, ◌≡◌, Bool, some, List, [], ◌∷◌, occurs, ◌==◌, if◌then◌else◌}
use cmps.Threads.LinkedList.Counted.{items}
use cmps.Threads.Scheduler.{Kernel, ready_to_run, yield, sleep}
use cmps.Threads.Scheduler.Places.{runnable, halt}
use cmps.Threads.Semaphore.{Semaphore, new_semaphore, p_round, v}

-- `woken` are the threads that a `V` has made ready and that have not tested the value since; `takes`
-- and `gives` count the units.
pub record System : Type 0 where
  pub semaphore : Semaphore
  pub kernel : Kernel
  pub woken : List ℕ
  pub takes : ℕ
  pub gives : ℕ

abbrev pub erase : ℕ → List ℕ → List ℕ
erase t [] = []
erase t (x ∷ xs) = if t == x then xs else x ∷ erase t xs

-- The first thread of the queue is woken.
abbrev pub wake_first : List ℕ → List ℕ → List ℕ
wake_first [] woken = woken
wake_first (t ∷ q) woken = t ∷ woken

pub data Step (s : System) : System → Type 0 where
  -- A round of `P`, the first or a later one.
  tests :
      {through : Bool} {m' : Semaphore} {k' : Kernel}
      → p_round halt 1 s.semaphore s.kernel ≡ some (through, m', k')
      → Step s (record {
        semaphore = m';
        kernel = k';
        woken = erase s.kernel.current s.woken;
        takes = if through then suc s.takes else s.takes;
        gives = s.gives;
      })
  posts :
      {m' : Semaphore} {k' : Kernel}
      → v s.semaphore s.kernel ≡ (m', k')
      → Step s (record {
        semaphore = m';
        kernel = k';
        woken = wake_first (items s.semaphore.queue) s.woken;
        takes = s.takes;
        gives = suc s.gives;
      })
  yields : Step s (record s { kernel = yield s.kernel })
  -- The current thread, which is not in `P`, sleeps for another reason.
  sleeps :
      {k' : Kernel}
      → occurs s.kernel.current s.woken ≡ 0
      → sleep halt 1 s.kernel ≡ some k'
      → Step s (record s { kernel = k' })
  -- A thread is forked, or woken from such a sleep.
  readied :
      (t : ℕ)
      → occurs t (runnable s.kernel) + occurs t (items s.semaphore.queue) ≡ 0
      → Step s (record s { kernel = ready_to_run s.kernel t })

-- One thread runs, and the semaphore is new.
pub record IsStart (initial : ℕ) (s : System) : Type 0 where
  pub semaphore_new : s.semaphore ≡ new_semaphore initial
  pub alone : items s.kernel.ready_list ≡ []
  pub none_woken : s.woken ≡ []
  pub none_counted : s.takes + s.gives ≡ 0

pub data Reach (s : System) : System → Type 0 where
  here : Reach s s
  later : {t u : System} → Reach s t → Step t u → Reach s u
