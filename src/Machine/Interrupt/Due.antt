-- ===== src/Machine/Interrupt/Due.antt =====
-- machine/interrupt.cc: the loop of `OneTick` and `Idle` over the interrupts that are due.
use cmps.Prelude.{
  ℕ, zero, suc, ◌<◌, ◌≡◌, refl, ap, ◌∙◌, true, false, some, List, [], ◌∷◌, length, ltb, Bool-cases,
  inl, inr, arith, ltb→lt,
}
use cmps.Prelude.Int.{ℤ}
use cmps.Threads.LinkedList.{LinkedList, ListElement, sorted_insert, sorted_remove}
use cmps.Threads.LinkedList.Sorted.{
  IsSorted, AllFrom, up_to, sorted_insert_lem, sorted_insert-AllFrom,
}
use cmps.Machine.State.{system_mode}
use cmps.Machine.Interrupt.{
  Interrupt, PendingInterrupt, int_off, is_off, is_idle, fire, occur, check_if_due, drain,
}

module _ {H : Type 0} where
  -- The interrupts whose time has come.
  abbrev pub due : Interrupt H → List (ListElement (PendingInterrupt H))
  due s = up_to s.total_ticks s.pending.elements

  -- Interrupts are off, their list is sorted, and a thread is running.
  pub record IsWaiting (s : Interrupt H) : Type 0 where
    pub off : s.level ≡ int_off
    pub sorted : IsSorted s.pending.elements
    pub running : is_idle s.status ≡ false

  -- Handlers leave the clock and the level alone, and schedule interrupts only for later, as
  -- `Schedule` makes sure.
  pub record IsDevice (invoke : H → ℕ → Interrupt H → Interrupt H) : Type 0 where
    pub same_level : (h : H) (n : ℕ) (s : Interrupt H) → (invoke h n s).level ≡ s.level
    pub same_time : (h : H) (n : ℕ) (s : Interrupt H) → (invoke h n s).total_ticks ≡ s.total_ticks
    pub same_due :
        (h : H) (n : ℕ) (s : Interrupt H)
        → IsSorted s.pending.elements
        → IsSorted (invoke h n s).pending.elements
          × (up_to s.total_ticks (invoke h n s).pending.elements ≡ due s)

  -- What the loop leaves: the same clock, and no interrupt that is due.
  pub record Drained (s s' : Interrupt H) : Type 0 where
    pub waiting : IsWaiting s'
    pub clock_same : s'.total_ticks ≡ s.total_ticks
    pub none_due : due s' ≡ []

  -- Nothing up to `t` in a list that is sorted and starts beyond `t`.
  up_to-later :
      (t : ℕ) (k : ℕ) (es : List (ListElement (PendingInterrupt H)))
      → t < k
      → AllFrom k es
      → up_to t es ≡ []
  unfolding up_to
  up_to-later t k [] lt a = refl
  up_to-later t k (e ∷ es) lt a = ground (arith, up_to-later t k es lt a.1)

  module _ (invoke : H → ℕ → Interrupt H → Interrupt H) (device : IsDevice invoke) where
    -- The state with its list written out.
    abbrev holding : Interrupt H → List (ListElement (PendingInterrupt H)) → ℤ → Interrupt H
    holding s es z = record s { pending = record { elements = es; size = z } }

    check_fires :
        (s : Interrupt H) (e : ListElement (PendingInterrupt H))
        (es : List (ListElement (PendingInterrupt H))) (z : ℤ)
        → is_off s.level ≡ true
        → is_idle s.status ≡ false
        → ltb s.total_ticks e.key ≡ false
        → check_if_due invoke false (holding s (e ∷ es) z)
          ≡ some (true, fire invoke (holding s es z) e.item)
    unfolding check_if_due occur sorted_remove
    check_fires s e es z off running now = rw (off, now, running) refl

    drain_from :
        (n : ℕ) (s : Interrupt H) (es : List (ListElement (PendingInterrupt H))) (z : ℤ)
        → IsWaiting (holding s es z)
        → length (due (holding s es z)) < n
        → (s' : Interrupt H) × (drain invoke n (holding s es z) ≡ some s')
          × Drained (holding s es z) s'
    unfolding drain check_if_due occur sorted_remove up_to fire
    drain_from zero s es z w few = elim (few_zero few) [ ]
      where
        few_zero : {k : ℕ} → k < 0 → ⊥
        few_zero h = omega arith
    drain_from (suc n) s [] z w few = (
      holding s [] z,
      rw (ap is_off w.off) refl,
      record { waiting = w; clock_same = refl; none_due = refl },
    )
    drain_from (suc n) s (e ∷ es) z w few = elim (Bool-cases (ltb s.total_ticks e.key)) [
      | inl late ↦ (
        record s { pending = later },
        rw (ap is_off w.off, late) refl,
        record {
          waiting = record {
            off = w.off;
            sorted = (sorted_insert_lem rest e.item e.key w.sorted.1).0;
            running = w.running;
          };
          clock_same = refl;
          none_due =
              up_to-later s.total_ticks e.key later.elements (ltb→lt _ _ late)
                (sorted_insert-AllFrom rest e.item e.key w.sorted.0);
        },
      )
      | inr now ↦
          let (s', ran, d) =
            drain_from n after after.pending.elements after.pending.size after_waiting
              (fewer now) in
          (
            s',
            rw (check_fires s e es z (ap is_off w.off) w.running now) ran,
            record { waiting = d.waiting; clock_same = d.clock_same ∙ time; none_due = d.none_due },
          )
    ]
      where
        rest : LinkedList (PendingInterrupt H)
        rest = record { elements = es; size = z }

        later : LinkedList (PendingInterrupt H)
        later = sorted_insert rest e.item e.key

        -- The state in which the handler is called, and the one after it.
        calling : Interrupt H
        calling = record s { pending = rest; in_handler = true; status = system_mode }

        after : Interrupt H
        after = fire invoke (holding s es z) e.item

        time : after.total_ticks ≡ s.total_ticks
        time = device.same_time e.item.handler e.item.arg calling

        kept :
            IsSorted after.pending.elements
            × (up_to s.total_ticks after.pending.elements ≡ up_to s.total_ticks es)
        kept = device.same_due e.item.handler e.item.arg calling w.sorted.1

        after_waiting : IsWaiting after
        after_waiting = record {
          off = device.same_level e.item.handler e.item.arg calling ∙ w.off;
          sorted = kept.0;
          running = w.running;
        }

        due_after : due after ≡ up_to s.total_ticks es
        due_after = ap (λ t. up_to t after.pending.elements) time ∙ kept.1

        fewer : ltb s.total_ticks e.key ≡ false → length (due after) < n
        fewer now = ground (arith, few, ap (λ xs. length xs) due_after)

  -- When interrupts are off, a thread is running and the handlers are devices, as many rounds as
  -- there are interrupts due and one more are enough for the loop to end. The clock is then as it
  -- was, the list is sorted and nothing on it is due any more.
  pub drain_lem :
      (invoke : H → ℕ → Interrupt H → Interrupt H) (s : Interrupt H)
      → IsDevice invoke
      → IsWaiting s
      → (s' : Interrupt H) × (drain invoke (suc (length (due s))) s ≡ some s') × Drained s s'
  drain_lem invoke s device w =
      drain_from invoke device (suc (length (due s))) s s.pending.elements s.pending.size w
        (omega arith)
