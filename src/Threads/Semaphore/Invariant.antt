-- ===== src/Threads/Semaphore/Invariant.antt =====
-- threads/synch.cc, `Semaphore`: the units add up, and each unit that waits for a thread has one.
use cmps.Prelude.{
  ℕ, suc, ◌+◌, ◌-◌, ◌≤◌, ◌≡◌, refl, sym, ap, ◌∙◌, Bool, true, false, some, List, [], ◌∷◌, length,
  occurs, occurs-append, ◌==◌, if◌then◌else◌, ◌⊎◌, inl, inr, arith,
}
use cmps.Threads.LinkedList.{LinkedList, append}
use cmps.Threads.LinkedList.Counted.{items, items-append}
use cmps.Threads.Scheduler.{Kernel, ready_to_run, sleep}
use cmps.Threads.Scheduler.Places.{runnable, one_if, occurs-ready_to_run, occurs-sleep, halt}
use cmps.Threads.Semaphore.{Semaphore}
use cmps.Threads.Semaphore.System.{System, erase}

pub record Inv (initial : ℕ) (s : System) : Type 0 where
  pub units : s.semaphore.value + s.takes ≡ initial + s.gives
  pub once : (t : ℕ) → occurs t (runnable s.kernel) + occurs t (items s.semaphore.queue) ≤ 1
  pub able : (t : ℕ) → occurs t s.woken ≤ occurs t (runnable s.kernel)
  pub enough : (items s.semaphore.queue ≡ []) ⊎ (s.semaphore.value ≤ length s.woken)

occurs-erase : (t u : ℕ) (xs : List ℕ) → occurs t xs ≤ occurs t (erase u xs) + one_if t u
occurs-erase t u [] = omega arith
occurs-erase t u (x ∷ xs) = ground (arith, occurs-erase t u xs)

-- One occurrence goes, if there is one.
erase_exact :
    (t u : ℕ) (xs : List ℕ) → (occurs u xs ≡ 0) ⊎ (occurs t (erase u xs) + one_if t u ≡ occurs t xs)
erase_exact t u [] = inl refl
erase_exact t u (x ∷ xs) = ground (arith, erase_exact t u xs)

erase_le : (t u : ℕ) (xs : List ℕ) → occurs t (erase u xs) ≤ occurs t xs
erase_le t u [] = omega arith
erase_le t u (x ∷ xs) = ground (arith, erase_le t u xs)

length-erase : (u : ℕ) (xs : List ℕ) → length xs ≤ length (erase u xs) + 1
length-erase u [] = omega arith
length-erase u (x ∷ xs) = ground (arith, length-erase u xs)

-- The system when a semaphore, a kernel, the woken threads and the count of takes are in place.
abbrev pub installed : System → List ℕ → Bool × Semaphore × Kernel → System
installed s woken (through, m, k) = record {
  semaphore = m;
  kernel = k;
  woken = woken;
  takes = if through then suc s.takes else s.takes;
  gives = s.gives;
}

module _ (initial : ℕ) (s : System) (i : Inv initial s) where
  abbrev pub cur : ℕ
  cur = s.kernel.current

  pub test_through :
      s.semaphore.value == 0 ≡ false
      → Inv initial (
          installed s
            (erase cur s.woken)
            (true, record s.semaphore { value = s.semaphore.value - 1 }, s.kernel))
  test_through some_left = record {
    units = ground (arith, i.units);
    once = i.once;
    able = λ t. omega (arith, i.able t, erase_le t cur s.woken);
    enough = elim i.enough [
      | inl empty ↦ inl empty
      | inr le ↦ inr (omega (arith, le, length-erase cur s.woken))
    ];
  }

  pub test_sleeps :
      (k' : Kernel)
      → s.semaphore.value == 0 ≡ true
      → sleep halt 1 s.kernel ≡ some k'
      → Inv initial (
          installed s
            (erase cur s.woken)
            (false, record s.semaphore { queue = append s.semaphore.queue cur }, k'))
  test_sleeps k' none_left slept = record {
    units = i.units;
    once = λ t. omega (arith, i.once t, occurs-sleep s.kernel k' t slept, joined t);
    able = λ t. ground (
      arith,
      i.able t,
      occurs-sleep s.kernel k' t slept,
      erase_exact t cur s.woken,
      erase_le t cur s.woken,
      ap (λ u. occurs u s.woken) {x = t} {y = cur},
    );
    enough = inr (ground (arith, none_left));
  }
    where
      joined :
          (t : ℕ)
          → occurs t (items (append s.semaphore.queue cur))
            ≡ occurs t (items s.semaphore.queue) + one_if t cur
      joined t = omega (
        arith,
        ap (λ xs. occurs t xs) (items-append s.semaphore.queue cur),
        occurs-append t (items s.semaphore.queue) (cur ∷ []),
      )

  pub post_nobody :
      (rest : LinkedList ℕ)
      → items s.semaphore.queue ≡ []
      → items rest ≡ []
      → Inv initial (record s {
        semaphore = record { value = s.semaphore.value + 1; queue = rest };
        gives = suc s.gives;
      })
  post_nobody rest e e' = record {
    units = omega (arith, i.units);
    once = λ t. omega (arith, i.once t, ap (λ xs. occurs t xs) e');
    able = i.able;
    enough = inl e';
  }

  pub post_first :
      (t : ℕ) (rest : LinkedList ℕ)
      → items s.semaphore.queue ≡ t ∷ items rest
      → Inv initial (record {
        semaphore = record { value = s.semaphore.value + 1; queue = rest };
        kernel = ready_to_run s.kernel t;
        woken = t ∷ s.woken;
        takes = s.takes;
        gives = suc s.gives;
      })
  post_first t rest e = record {
    units = omega (arith, i.units);
    once = λ u. omega (arith, i.once u, occurs-ready_to_run s.kernel t u, ap (λ xs. occurs u xs) e);
    able = λ u. omega (arith, i.able u, occurs-ready_to_run s.kernel t u);
    enough = elim i.enough [ inl empty ↦ cc (sym e ∙ empty) | inr le ↦ inr (omega (arith, le)) ];
  }
