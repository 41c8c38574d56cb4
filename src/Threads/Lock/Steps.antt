-- ===== src/Threads/Lock/Steps.antt =====
-- threads/synch.cc, `Lock`: the start, each call and each move of the scheduler keep the invariant.
use mathlib.Core.Option.{some-injective}
use cmps.Prelude.{
  ℕ, ◌+◌, ◌≤◌, ◌≡◌, ◌≢◌, refl, sym, ap, ◌∙◌, true, false, Option, none, some, occurs, if◌then◌else◌,
  Bool-cases, inl, inr, arith, ◌>>=◌, subst, ◌==◌, ==_of_eq, ==_of_ne,
}
use cmps.Threads.LinkedList.{append}
use cmps.Threads.LinkedList.Counted.{items}
use cmps.Threads.Scheduler.{Kernel, ready_to_run, yield, sleep}
use cmps.Threads.Scheduler.Places.{runnable, occurs-ready_to_run, occurs-yield, occurs-sleep, halt}
use cmps.Threads.Lock.{Lock, acquire, release}
use cmps.Threads.Lock.System.{
  System, Pc, outside, acquiring, inside, set_pc, after_acquire, Step, acquires, returns, releases,
  yields, sleeps, readied, IsStart, Released, handed, freed,
}
use cmps.Threads.Lock.Invariant.{Inv, release-Released}
use cmps.Threads.Lock.Moves.{kernel-Inv, take_free, take_busy, come_back, give_handed, give_free}

pub start-Inv : (s : System) → IsStart s → Inv s
start-Inv s h = record {
  counted = rw h.lock_new refl;
  once = λ t. ground (arith, ap (λ xs. occurs t xs) h.alone, empty t);
  waits = λ t w. ground (arith, empty t);
  woken = λ t w. cc (h.nobody t, w);
  busy = λ held. ground (arith, ap (λ (l : Lock). l.value) h.lock_new);
  single = λ a b oa _ ob _. absurd (oa (h.nobody a));
  owned = λ t o. absurd (o (h.nobody t));
  unwanted = λ f. ap (λ (l : Lock). items l.queue) h.lock_new;
}
  where
    empty : (t : ℕ) → occurs t (items s.lock.queue) ≡ 0
    empty t = ap (λ (l : Lock). occurs t (items l.queue)) h.lock_new

acquire_free :
    (l : Lock) (k : Kernel)
    → l.value ≡ false
    → acquire halt 1 l k ≡ some (record l { value = true }, k)
unfolding acquire
acquire_free l k free = rw free refl

acquire_busy :
    (l : Lock) (k : Kernel) (r : Option Kernel)
    → l.value ≡ true
    → sleep halt 1 k ≡ r
    → acquire halt 1 l k ≡ (r >>= λ k'. some (record l { queue = append l.queue k.current }, k'))
unfolding acquire
acquire_busy l k r held slept = rw (slept, held) refl

-- The system when a pair of a lock and a kernel is in place.
abbrev installed : (ℕ → Pc) → Lock × Kernel → System
installed pc r = record { lock = r.0; kernel = r.1; pc = pc }

-- Who calls `Sleep` does not run when it is over.
sleep-current :
    (s : System) (k' : Kernel)
    → Inv s
    → sleep halt 1 s.kernel ≡ some k'
    → k'.current == s.kernel.current ≡ false
sleep-current s k' i slept = ==_of_ne k'.current s.kernel.current (λ e.
    ground (arith, i.once s.kernel.current, occurs-sleep s.kernel k' s.kernel.current slept, e))

acquires-Inv :
    (s : System) (r : Lock × Kernel)
    → Inv s
    → s.pc s.kernel.current ≡ outside
    → acquire halt 1 s.lock s.kernel ≡ some r
    → Inv (installed (set_pc s.pc s.kernel.current (after_acquire s.kernel.current r.1)) r)
acquires-Inv s r i out took = elim (Bool-cases s.lock.value) [
  | inr free ↦ subst Entered (some-injective _ _ (sym (acquire_free s.lock s.kernel free) ∙ took)) (
      subst (λ p. Inv (installed (set_pc s.pc s.kernel.current p) taken))
        (sym (ap (λ b. if b then inside else acquiring) (==_of_eq cur cur refl)))
        (take_free s i out free))
  | inl held ↦ slept held (sleep halt 1 s.kernel) refl
]
  where
    cur : ℕ
    cur = s.kernel.current

    Entered : Lock × Kernel → Type 0
    Entered r' =
        Inv (installed (set_pc s.pc s.kernel.current (after_acquire s.kernel.current r'.1)) r')

    taken : Lock × Kernel
    taken = (record s.lock { value = true }, s.kernel)

    slept : s.lock.value ≡ true → (q : Option Kernel) → sleep halt 1 s.kernel ≡ q → Entered r
    slept held none e =
        let never : ◌≡◌ {A = Option (Lock × Kernel)} none (some r) =
          sym (acquire_busy s.lock s.kernel none held e) ∙ took in
        cc
    slept held (some k') e =
        let queued : Lock × Kernel =
          (record s.lock { queue = append s.lock.queue s.kernel.current }, k') in
        subst Entered
          (some-injective _ _ (sym (acquire_busy s.lock s.kernel (some k') held e) ∙ took))
          (subst (λ p. Inv (installed (set_pc s.pc s.kernel.current p) queued))
            (sym (ap (λ b. if b then inside else acquiring) (sleep-current s k' i e)))
            (take_busy s i k' out held e))

releases-Inv :
    (s : System) (r : Lock × Kernel)
    → Inv s
    → s.pc s.kernel.current ≡ inside
    → release s.lock s.kernel ≡ r
    → Inv (installed (set_pc s.pc s.kernel.current outside) r)
releases-Inv s r i own done =
    subst Left done (from (release s.lock s.kernel) (release-Released s.lock s.kernel i.counted))
  where
    Left : Lock × Kernel → Type 0
    Left r' = Inv (installed (set_pc s.pc s.kernel.current outside) r')

    from : (r' : Lock × Kernel) → Released s.lock s.kernel r' → Left r'
    from r' (handed t rest e c h) = subst Left (sym h) (give_handed s i t rest own e c)
    from r' (freed empty h) = subst Left (sym h) (give_free s i own empty)

pub Step-Inv : {s u : System} → Step s u → Inv s → Inv u
Step-Inv {s} (acquires {l'} {k'} out took) i = acquires-Inv s (l', k') i out took
Step-Inv {s} (returns called) i = come_back s i called
Step-Inv {s} (releases {l'} {k'} own done) i = releases-Inv s (l', k') i own done
Step-Inv {s} yields i =
    kernel-Inv s (yield s.kernel) i (λ t. omega (arith, i.once t, occurs-yield s.kernel t))
      (λ t w. omega (arith, i.woken t w, occurs-yield s.kernel t))
Step-Inv {s} (sleeps {k'} busy slept) i =
    kernel-Inv s k' i (λ t. omega (arith, i.once t, occurs-sleep s.kernel k' t slept))
      (λ t w.
        let other : t ≢ s.kernel.current = λ e. busy (ap s.pc (sym e) ∙ w) in
        ground (arith, i.woken t w, occurs-sleep s.kernel k' t slept, other))
Step-Inv {s} (readied t busy absent) i =
    kernel-Inv s (ready_to_run s.kernel t) i (λ u. one_more u)
      (λ u w. omega (arith, i.woken u w, occurs-ready_to_run s.kernel t u))
  where
    not_queued : occurs t (items s.lock.queue) ≡ 0
    not_queued = ground (arith, i.waits t, busy)

    one_more :
        (u : ℕ) → occurs u (runnable (ready_to_run s.kernel t)) + occurs u (items s.lock.queue) ≤ 1
    one_more u = ground (
      arith,
      i.once u,
      absent,
      not_queued,
      occurs-ready_to_run s.kernel t u,
      ap (λ v. occurs v (runnable s.kernel)) {x = u} {y = t},
      ap (λ v. occurs v (items s.lock.queue)) {x = u} {y = t},
    )
