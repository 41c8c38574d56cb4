-- ===== src/Threads/Semaphore/Safety.antt =====
-- threads/synch.cc, `Semaphore`: what holds however the threads are interleaved.
use mathlib.Core.Option.{some-injective}
use cmps.Prelude.{
  ℕ, suc, ◌+◌, ◌-◌, ◌≤◌, ◌<◌, ◌≡◌, refl, sym, ap, ◌∙◌, Bool, true, false, Option, none, some, List,
  [], ◌∷◌, length, occurs, ◌==◌, Bool-cases, List-cases, inl, inr, arith, ◌>>=◌, subst,
}
use cmps.Threads.LinkedList.{LinkedList, append, remove}
use cmps.Threads.LinkedList.Counted.{items, Removed, nothing, first, remove-Removed}
use cmps.Threads.Scheduler.{Kernel, ready_to_run, yield, sleep}
use cmps.Threads.Scheduler.Places.{runnable, occurs-ready_to_run, occurs-yield, occurs-sleep, halt}
use cmps.Threads.Semaphore.{Semaphore, p_round, v}
use cmps.Threads.Semaphore.System.{
  System, erase, wake_first, Step, tests, posts, yields, sleeps, readied, IsStart, Reach, here,
  later,
}
use cmps.Threads.Semaphore.Invariant.{
  Inv, installed, test_through, test_sleeps, post_nobody, post_first,
}

start-Inv : (initial : ℕ) (s : System) → IsStart initial s → Inv initial s
start-Inv initial s h = record {
  units = omega (arith, h.none_counted, ap (λ (m : Semaphore). m.value) h.semaphore_new);
  once = λ t. ground (
    arith,
    ap (λ xs. occurs t xs) h.alone,
    ap (λ (m : Semaphore). occurs t (items m.queue)) h.semaphore_new,
  );
  able = λ t. omega (arith, ap (λ xs. occurs t xs) h.none_woken);
  enough = inl (ap (λ (m : Semaphore). items m.queue) h.semaphore_new);
}

p_round_through :
    (m : Semaphore) (k : Kernel)
    → m.value == 0 ≡ false
    → p_round halt 1 m k ≡ some (true, record m { value = m.value - 1 }, k)
unfolding p_round
p_round_through m k some_left = rw some_left refl

p_round_sleeps :
    (m : Semaphore) (k : Kernel) (r : Option Kernel)
    → m.value == 0 ≡ true
    → sleep halt 1 k ≡ r
    → p_round halt 1 m k
      ≡ (r >>= λ k'. some (false, record m { queue = append m.queue k.current }, k'))
unfolding p_round
p_round_sleeps m k r none_left slept = rw (slept, none_left) refl

tests-Inv :
    (initial : ℕ) (s : System) (r : Bool × Semaphore × Kernel)
    → Inv initial s
    → p_round halt 1 s.semaphore s.kernel ≡ some r
    → Inv initial (installed s (erase s.kernel.current s.woken) r)
tests-Inv initial s r i tested = elim (Bool-cases (s.semaphore.value == 0)) [
  | inr some_left ↦
      subst (λ r'. Inv initial (installed s (erase s.kernel.current s.woken) r'))
        (some-injective _ _ (sym (p_round_through s.semaphore s.kernel some_left) ∙ tested))
        (test_through initial s i some_left)
  | inl none_left ↦ slept none_left (sleep halt 1 s.kernel) refl
]
  where
    slept :
        s.semaphore.value == 0 ≡ true
        → (q : Option Kernel) → sleep halt 1 s.kernel ≡ q
        → Inv initial (installed s (erase s.kernel.current s.woken) r)
    slept none_left none e =
        let never : ◌≡◌ {A = Option (Bool × Semaphore × Kernel)} none (some r) =
          sym (p_round_sleeps s.semaphore s.kernel none none_left e) ∙ tested in
        cc
    slept none_left (some k') e =
        subst (λ r'. Inv initial (installed s (erase s.kernel.current s.woken) r'))
          (some-injective _ _
            (sym (p_round_sleeps s.semaphore s.kernel (some k') none_left e) ∙ tested))
          (test_sleeps initial s i k' none_left e)

-- The system after a `V`.
abbrev posted : System → List ℕ → Semaphore × Kernel → System
posted s queue r = record {
  semaphore = r.0;
  kernel = r.1;
  woken = wake_first queue s.woken;
  takes = s.takes;
  gives = suc s.gives;
}

posts-Inv :
    (initial : ℕ) (s : System) (r : Semaphore × Kernel)
    → Inv initial s
    → v s.semaphore s.kernel ≡ r
    → Inv initial (posted s (items s.semaphore.queue) r)
unfolding v
posts-Inv initial s r i done =
    subst (λ r'. Inv initial (posted s (items s.semaphore.queue) r')) done
      (from (remove s.semaphore.queue) (remove-Removed s.semaphore.queue))
  where
    from :
        (q : Option ℕ × LinkedList ℕ)
        → Removed s.semaphore.queue q
        → Inv initial (
            posted s (items s.semaphore.queue) (
              record { value = s.semaphore.value + 1; queue = q.1 },
              elim q.0 [ none ↦ s.kernel | some t ↦ ready_to_run s.kernel t ],
            ))
    from (none, rest) (nothing e _ e') =
        subst
          (λ xs.
            Inv initial
              (posted s xs (record { value = s.semaphore.value + 1; queue = rest }, s.kernel)))
          (sym e) (post_nobody initial s i rest e e')
    from (none, rest) (first y e h _) = cc
    from (some t, rest) (nothing e h _) = cc
    from (some t, rest) (first y e h _) =
        let e2 : items s.semaphore.queue ≡ t ∷ items rest = cc in
        subst
          (λ xs. Inv initial (
            posted s xs
              (record { value = s.semaphore.value + 1; queue = rest }, ready_to_run s.kernel t)))
          (sym e2) (post_first initial s i t rest e2)

kernel-Inv :
    (initial : ℕ) (s : System) (k' : Kernel)
    → Inv initial s
    → ((t : ℕ) → occurs t (runnable k') + occurs t (items s.semaphore.queue) ≤ 1)
    → ((t : ℕ) → occurs t s.woken ≤ occurs t (runnable k'))
    → Inv initial (record s { kernel = k' })
kernel-Inv initial s k' i once able = record {
  units = i.units;
  once = once;
  able = able;
  enough = i.enough;
}

Step-Inv : {initial : ℕ} {s u : System} → Step s u → Inv initial s → Inv initial u
Step-Inv {initial} {s} (tests {through} {m'} {k'} tested) i =
    tests-Inv initial s (through, m', k') i tested
Step-Inv {initial} {s} (posts {m'} {k'} done) i = posts-Inv initial s (m', k') i done
Step-Inv {initial} {s} yields i =
    kernel-Inv initial s (yield s.kernel) i (λ t. omega (arith, i.once t, occurs-yield s.kernel t))
      (λ t. omega (arith, i.able t, occurs-yield s.kernel t))
Step-Inv {initial} {s} (sleeps {k'} free slept) i =
    kernel-Inv initial s k' i (λ t. omega (arith, i.once t, occurs-sleep s.kernel k' t slept))
      (λ t. ground (
        arith,
        i.able t,
        occurs-sleep s.kernel k' t slept,
        free,
        ap (λ u. occurs u s.woken) {x = t} {y = s.kernel.current},
      ))
Step-Inv {initial} {s} (readied t absent) i =
    kernel-Inv initial s (ready_to_run s.kernel t) i one_more
      (λ u. omega (arith, i.able u, occurs-ready_to_run s.kernel t u))
  where
    one_more :
        (u : ℕ)
        → occurs u (runnable (ready_to_run s.kernel t)) + occurs u (items s.semaphore.queue) ≤ 1
    one_more u = ground (
      arith,
      i.once u,
      absent,
      occurs-ready_to_run s.kernel t u,
      ap (λ v. occurs v (runnable s.kernel)) {x = u} {y = t},
      ap (λ v. occurs v (items s.semaphore.queue)) {x = u} {y = t},
    )

pub Reach-Inv : {initial : ℕ} {s u : System} → IsStart initial s → Reach s u → Inv initial u
Reach-Inv {initial} {s} start here = start-Inv initial s start
Reach-Inv start (later r st) = Step-Inv st (Reach-Inv start r)

-- From a new semaphore, whatever the threads do and in whatever order: the value and the calls of `P`
-- that came through make up the initial value and the calls of `V`, so that never more calls of `P`
-- come through than the initial value and the calls of `V` allow.
pub units_conserved :
    {initial : ℕ} {s u : System}
    → IsStart initial s
    → Reach s u
    → (u.semaphore.value + u.takes ≡ initial + u.gives) × (u.takes ≤ initial + u.gives)
units_conserved start r = let i = Reach-Inv start r in (i.units, omega (arith, i.units))

-- From a new semaphore, whatever the threads do and in whatever order: when a thread sleeps in `P`
-- although the value is not 0, then at least as many threads as there are units have been woken by a
-- `V` and have still to test the value, and one of them at least can run.
pub no_lost_post :
    {initial : ℕ} {s u : System}
    → IsStart initial s
    → Reach s u
    → (t : ℕ) → 0 < occurs t (items u.semaphore.queue)
    → 0 < u.semaphore.value
    → (u.semaphore.value ≤ length u.woken)
      × ((w : ℕ) × (0 < occurs w u.woken) × (0 < occurs w (runnable u.kernel)))
no_lost_post {u} start r t asleep left = elim (Reach-Inv start r).enough [
  | inl empty ↦ absurd (never empty)
  | inr le ↦ (le, some_woken le)
]
  where
    never : items u.semaphore.queue ≡ [] → ⊥
    never empty = ground (arith, asleep, ap (λ xs. occurs t xs) empty)

    some_woken :
        u.semaphore.value ≤ length u.woken
        → (w : ℕ) × (0 < occurs w u.woken) × (0 < occurs w (runnable u.kernel))
    some_woken le = elim (List-cases u.woken) [
      | inl empty ↦ absurd (none_there empty le)
      | inr (w, ws, e) ↦
          let there : 0 < occurs w u.woken = ground (arith, ap (λ xs. occurs w xs) e) in
          (w, there, omega (arith, there, (Reach-Inv start r).able w))
    ]
      where
        none_there : u.woken ≡ [] → u.semaphore.value ≤ length u.woken → ⊥
        none_there e h = omega (arith, h, left, ap (λ xs. length xs) e)
