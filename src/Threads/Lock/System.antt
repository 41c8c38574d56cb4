-- ===== src/Threads/Lock/System.antt =====
-- threads/synch.cc, `Lock`: threads that acquire and release one lock, yield, sleep for other reasons
-- and become ready again, in any order.
use cmps.Prelude.{ℕ, ◌≡◌, ◌≢◌, false, some, [], ◌∷◌, occurs, ◌==◌, if◌then◌else◌}
use cmps.Threads.LinkedList.{LinkedList}
use cmps.Threads.LinkedList.Counted.{items, IsCounted}
use cmps.Threads.Scheduler.{Kernel, ready_to_run, yield, sleep}
use cmps.Threads.Scheduler.Places.{runnable, halt}
use cmps.Threads.Lock.{Lock, new_lock, acquire, release}

-- The call that a thread is in: none of the lock's, `Acquire`, or the time between the return of
-- `Acquire` and the call of `Release`. Only the thread itself moves on, and it does when it runs: a
-- thread that another wakes is still in `Acquire` until it is switched to.
pub data Pc : Type 0 where
  outside acquiring inside : Pc

pub record System : Type 0 where
  pub lock : Lock
  pub kernel : Kernel
  pub pc : ℕ → Pc

abbrev pub set_pc : (ℕ → Pc) → ℕ → Pc → ℕ → Pc
set_pc pc t p u = if u == t then p else pc u

-- Where `Acquire` leaves its caller: it has returned when the caller still runs, and has not when
-- another thread runs.
abbrev pub after_acquire : ℕ → Kernel → Pc
after_acquire caller k' = if k'.current == caller then inside else acquiring

pub data Step (s : System) : System → Type 0 where
  acquires :
      {l' : Lock} {k' : Kernel}
      → s.pc s.kernel.current ≡ outside
      → acquire halt 1 s.lock s.kernel ≡ some (l', k')
      → Step s (record {
        lock = l';
        kernel = k';
        pc = set_pc s.pc s.kernel.current (after_acquire s.kernel.current k');
      })
  -- A thread that went to sleep in `Acquire` runs again: `Sleep` returns, and `Acquire` with it.
  returns :
      s.pc s.kernel.current ≡ acquiring
      → Step s (record s { pc = set_pc s.pc s.kernel.current inside })
  -- By convention only a thread that holds the lock releases it.
  releases :
      {l' : Lock} {k' : Kernel}
      → s.pc s.kernel.current ≡ inside
      → release s.lock s.kernel ≡ (l', k')
      → Step s (record { lock = l'; kernel = k'; pc = set_pc s.pc s.kernel.current outside })
  yields : Step s (record s { kernel = yield s.kernel })
  -- The current thread sleeps for another reason, with or without the lock.
  sleeps :
      {k' : Kernel}
      → s.pc s.kernel.current ≢ acquiring
      → sleep halt 1 s.kernel ≡ some k'
      → Step s (record s { kernel = k' })
  -- A thread is forked, or woken from such a sleep; one that is in `Acquire` is not.
  readied :
      (t : ℕ)
      → s.pc t ≢ acquiring
      → occurs t (runnable s.kernel) ≡ 0
      → Step s (record s { kernel = ready_to_run s.kernel t })

-- One thread runs, and the lock is new.
pub record IsStart (s : System) : Type 0 where
  pub lock_new : s.lock ≡ new_lock
  pub alone : items s.kernel.ready_list ≡ []
  pub nobody : (t : ℕ) → s.pc t ≡ outside

pub data Reach (s : System) : System → Type 0 where
  here : Reach s s
  later : {t u : System} → Reach s t → Step t u → Reach s u

-- What a call of `Release` comes to.
pub data Released (l : Lock) (k : Kernel) (r : Lock × Kernel) : Type 0 where
  handed :
      (t : ℕ) (rest : LinkedList ℕ)
      → items l.queue ≡ t ∷ items rest
      → IsCounted rest
      → r ≡ (record l { queue = rest }, ready_to_run k t)
      → Released l k r
  freed : items l.queue ≡ [] → r ≡ (record l { value = false }, k) → Released l k r
