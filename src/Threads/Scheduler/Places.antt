-- ===== src/Threads/Scheduler/Places.antt =====
-- threads/scheduler.cc: the threads that can run, before and after each operation.
use cmps.Prelude.{
  ℕ, ◌+◌, ◌≡◌, sym, ap, Option, none, some, List, [], ◌∷◌, ◌++◌, occurs, occurs-append, ◌==◌,
  if◌then◌else◌, arith, ◌>>=◌,
}
use mathlib.Core.Option.{some-injective}
use cmps.Threads.LinkedList.{LinkedList, remove}
use cmps.Threads.LinkedList.Counted.{items, items-append, Removed, nothing, first, remove-Removed}
use cmps.Threads.Scheduler.{
  Kernel, set_status, blocked, ready, ready_to_run, find_next_to_run, run_thread, yield, sleep,
  sleep_loop,
}

-- The current thread and those on the ready list.
abbrev pub runnable : Kernel → List ℕ
runnable k = k.current ∷ items k.ready_list

abbrev pub one_if : ℕ → ℕ → ℕ
one_if t u = if t == u then 1 else 0

-- `Idle` of a machine on which no interrupt is pending: the program ends.
abbrev pub halt : Kernel → Option Kernel
halt k = none

pub items-ready_to_run :
    (k : Kernel) (u : ℕ)
    → (items (ready_to_run k u).ready_list ≡ items k.ready_list ++ (u ∷ []))
      × ((ready_to_run k u).status u ≡ ready)
unfolding ready_to_run
items-ready_to_run k u = (items-append k.ready_list u, ground arith)

pub occurs-ready_to_run :
    (k : Kernel) (u t : ℕ)
    → occurs t (runnable (ready_to_run k u)) ≡ occurs t (runnable k) + one_if t u
unfolding ready_to_run
occurs-ready_to_run k u t = omega (
  arith,
  ap (λ xs. occurs t xs) (items-append k.ready_list u),
  occurs-append t (items k.ready_list) (u ∷ []),
)

-- `Yield` lets each thread be runnable as before.
pub occurs-yield : (k : Kernel) (t : ℕ) → occurs t (runnable (yield k)) ≡ occurs t (runnable k)
unfolding yield find_next_to_run ready_to_run run_thread
occurs-yield k t = from (remove k.ready_list) (remove-Removed k.ready_list)
  where
    from :
        (r : Option ℕ × LinkedList ℕ)
        → Removed k.ready_list r
        → let k1 = record k { ready_list = r.1 } in
          occurs t
            (runnable (elim r.0 [ none ↦ k1 | some u ↦ run_thread (ready_to_run k1 k.current) u ]))
          ≡ occurs t (runnable k)
    from (none, rest) (nothing e _ e') =
        omega (arith, ap (λ xs. occurs t xs) e, ap (λ xs. occurs t xs) e')
    from (none, rest) (first x e h _) = cc
    from (some u, rest) (nothing e h _) = cc
    from (some u, rest) (first x e h _) =
        let same : u ≡ x = cc in
        rw same (
          omega (
            arith,
            ap (λ xs. occurs t xs) e,
            ap (λ xs. occurs t xs) (items-append rest k.current),
            occurs-append t (items rest) (k.current ∷ []),
          ))

-- `Sleep` takes the current thread away, once.
pub occurs-sleep :
    (k k' : Kernel) (t : ℕ)
    → sleep halt 1 k ≡ some k'
    → occurs t (runnable k') + one_if t k.current ≡ occurs t (runnable k)
unfolding sleep sleep_loop find_next_to_run run_thread
occurs-sleep k k' t h = from (remove k.ready_list) (remove-Removed k.ready_list) h
  where
    k0 : Kernel
    k0 = set_status k k.current blocked

    from :
        (r : Option ℕ × LinkedList ℕ)
        → Removed k.ready_list r
        → let k1 = record k0 { ready_list = r.1 } in
          ◌≡◌ {A = Option Kernel}
            (elim r.0 [
              | none ↦ halt k1 >>= λ k2. sleep_loop halt 0 k2
              | some u ↦ some (run_thread k1 u)
            ])
            (some k')
          → occurs t (runnable k') + one_if t k.current ≡ occurs t (runnable k)
    from (none, rest) (nothing e _ e') h' = cc
    from (none, rest) (first x e g _) h' = cc
    from (some u, rest) (nothing e g _) h' = cc
    from (some u, rest) (first x e g _) h' =
        let same : u ≡ x = cc in
        let ran : runnable k' ≡ u ∷ items rest = ap runnable (sym (some-injective _ _ h')) in
        omega
          (arith, ap (λ xs. occurs t xs) ran, ap (λ xs. occurs t xs) e, ap (λ y. one_if t y) same)
