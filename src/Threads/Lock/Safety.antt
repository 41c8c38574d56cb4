-- ===== src/Threads/Lock/Safety.antt =====
-- threads/synch.cc, `Lock`: what holds however the threads are interleaved.
use cmps.Prelude.{
  ℕ, ◌<◌, ◌≡◌, ◌≢◌, ◌⊎◌, refl, sym, ap, ◌∙◌, true, false, [], ◌∷◌, ◌++◌, occurs, inl, inr, arith,
  Bool, ltb, ltb→lt,
}
use cmps.Threads.LinkedList.Counted.{items}
use cmps.Threads.Scheduler.{Kernel, ready}
use cmps.Threads.Scheduler.Places.{runnable, items-ready_to_run}
use cmps.Threads.Lock.{Lock, release}
use cmps.Threads.Lock.System.{
  System, Pc, outside, acquiring, inside, IsStart, Reach, here, later, Released, handed, freed,
}
use cmps.Threads.Lock.Invariant.{Inv, release-Released}
use cmps.Threads.Lock.Steps.{start-Inv, Step-Inv}

pub Reach-Inv : {s u : System} → IsStart s → Reach s u → Inv u
Reach-Inv {s} start here = start-Inv s start
Reach-Inv start (later r st) = Step-Inv st (Reach-Inv start r)

-- From one running thread and a new lock, whatever the threads do and in whatever order: two threads
-- have never both returned from `Acquire` without a `Release`.
pub mutual_exclusion :
    {s u : System} → IsStart s → Reach s u → (i j : ℕ) → u.pc i ≡ inside → u.pc j ≡ inside → i ≡ j
mutual_exclusion {u} start r i j oi oj =
    let inv = Reach-Inv start r in
    inv.single i j (λ e. cc (oi, e)) (absent inv i oi) (λ e. cc (oj, e)) (absent inv j oj)
  where
    absent : Inv u → (t : ℕ) → u.pc t ≡ inside → occurs t (items u.lock.queue) ≡ 0
    absent inv t o = ground (arith, inv.waits t)

-- The lock is `o`'s: it has returned from `Acquire`, or is in it and can run.
pub data HasLock (s : System) (o : ℕ) : Type 0 where
  back : s.pc o ≡ inside → HasLock s o
  awake : s.pc o ≡ acquiring → 0 < occurs o (runnable s.kernel) → HasLock s o

-- What is so of a thread that is in `Acquire`: it waits in the queue for the thread that has the
-- lock, or it can run and the lock is its own.
pub data InAcquire (s : System) (t : ℕ) : Type 0 where
  queued :
      0 < occurs t (items s.lock.queue)
      → occurs t (runnable s.kernel) ≡ 0
      → (o : ℕ) → o ≢ t
      → HasLock s o
      → InAcquire s t
  woken :
      occurs t (items s.lock.queue) ≡ 0
      → 0 < occurs t (runnable s.kernel)
      → ((o : ℕ) → HasLock s o → o ≡ t)
      → InAcquire s t

HasLock-called :
    {s : System} {o : ℕ}
    → Inv s
    → HasLock s o
    → (s.pc o ≢ outside) × (occurs o (items s.lock.queue) ≡ 0)
HasLock-called {s} {o} i (back e) = (λ out. cc (e, out), ground (arith, i.waits o, e))
HasLock-called {s} {o} i (awake e runs) = (λ out. cc (e, out), ground (arith, i.once o, runs))

called-HasLock :
    {s : System} {o : ℕ}
    → Inv s
    → s.pc o ≢ outside
    → occurs o (items s.lock.queue) ≡ 0
    → HasLock s o
called-HasLock {s} {o} i called absent = at (s.pc o) refl
  where
    at : (p : Pc) → s.pc o ≡ p → HasLock s o
    at outside e = absurd (called e)
    at acquiring e = awake e (omega (arith, i.woken o e, absent))
    at inside e = back e

-- From one running thread and a new lock, whatever the threads do and in whatever order: while a
-- thread is in `Acquire`, the lock is busy, and either the thread is in the queue of the lock and
-- cannot run, and some other thread has the lock: it has returned from `Acquire`, or is in it and can
-- run; or the thread is not in the queue, can run, and no other thread has the lock.
pub no_lost_wakeup :
    {s u : System}
    → IsStart s
    → Reach s u
    → (t : ℕ) → u.pc t ≡ acquiring
    → (u.lock.value ≡ true) × InAcquire u t
no_lost_wakeup {u} start r t w =
    let i = Reach-Inv start r in
    (i.owned t asked, at i (ltb 0 (occurs t (items u.lock.queue))) refl)
  where
    asked : u.pc t ≢ outside
    asked out = cc (w, out)

    at : Inv u → (b : Bool) → ltb 0 (occurs t (items u.lock.queue)) ≡ b → InAcquire u t
    at i true e =
        let waits : 0 < occurs t (items u.lock.queue) = ltb→lt _ _ e in
        let (o, called, absent) = i.busy (i.owned t asked) in
        queued waits (omega (arith, i.once t, waits)) o
          (λ same. ground (arith, ap (λ v. occurs v (items u.lock.queue)) same, absent, waits))
          (called-HasLock i called absent)
    at i false e =
        let absent : occurs t (items u.lock.queue) ≡ 0 = ground (arith, e) in
        woken absent (omega (arith, i.woken t w, absent)) (λ o has.
          let (called, away) = HasLock-called i has in i.single o t called away asked absent)

-- From one running thread and a new lock, whatever the threads do and in whatever order: when the
-- owner releases the lock and threads wait, the lock stays busy, the
-- thread that has waited longest leaves the queue and goes to the end of the ready list, and the
-- order of the others stays; when none waits, the lock is free.
pub release-first :
    {s u : System}
    → IsStart s
    → Reach s u
    → let (l', k') = release u.lock u.kernel in
      ((items u.lock.queue ≡ []) × (l'.value ≡ false) × (k' ≡ u.kernel))
      ⊎ ((t : ℕ) × (items u.lock.queue ≡ t ∷ items l'.queue)
          × (l'.value ≡ u.lock.value)
          × (items k'.ready_list ≡ items u.kernel.ready_list ++ (t ∷ []))
          × (k'.status t ≡ ready))
release-first {u} start r =
    from (release u.lock u.kernel) (release-Released u.lock u.kernel (Reach-Inv start r).counted)
  where
    from :
        (r' : Lock × Kernel)
        → Released u.lock u.kernel r'
        → ((items u.lock.queue ≡ []) × (r'.0.value ≡ false) × (r'.1 ≡ u.kernel))
          ⊎ ((t : ℕ) × (items u.lock.queue ≡ t ∷ items r'.0.queue)
              × (r'.0.value ≡ u.lock.value)
              × (items r'.1.ready_list ≡ items u.kernel.ready_list ++ (t ∷ []))
              × (r'.1.status t ≡ ready))
    from r' (freed empty h) =
        inl (empty, ap (λ (x : Lock × Kernel). x.0.value) h, ap (λ (x : Lock × Kernel). x.1) h)
    from r' (handed t rest e c h) = inr (
      t,
      e ∙ sym (ap (λ (x : Lock × Kernel). t ∷ items x.0.queue) h),
      ap (λ (x : Lock × Kernel). x.0.value) h,
      ap (λ (x : Lock × Kernel). items x.1.ready_list) h ∙ (items-ready_to_run u.kernel t).0,
      ap (λ (x : Lock × Kernel). x.1.status t) h ∙ (items-ready_to_run u.kernel t).1,
    )
