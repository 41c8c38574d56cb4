-- ===== src/Threads/Lock/Moves.antt =====
-- threads/synch.cc, `Lock`: each kind of step keeps the invariant.
use cmps.Prelude.{
  ℕ, ◌+◌, ◌≤◌, ◌<◌, ◌==◌, Bool-cases, ==_iff, ==_of_eq, inl, inr, ◌≡◌, ◌≢◌, refl, ap, sym, ◌∙◌,
  true, false, some, [], ◌∷◌, occurs, occurs-append, arith,
}
use cmps.Threads.LinkedList.{LinkedList, append}
use cmps.Threads.LinkedList.Counted.{items, IsCounted, items-append, append-IsCounted}
use cmps.Threads.Scheduler.{Kernel, ready_to_run, sleep}
use cmps.Threads.Scheduler.Places.{runnable, one_if, occurs-ready_to_run, occurs-sleep, halt}
use cmps.Threads.Lock.System.{System, Pc, outside, acquiring, inside, set_pc}
use cmps.Threads.Lock.Invariant.{Inv}

-- The lock has been asked for by `a` when one thread `c` has moved on.
module _ (pc : ℕ → Pc) (c a : ℕ) (p : Pc) where
  set_pc-other : a ≢ c → set_pc pc c p a ≢ outside → pc a ≢ outside
  set_pc-other ne h out = h (ground (arith, ne))

  set_pc-kept : pc c ≢ outside → set_pc pc c p a ≢ outside → pc a ≢ outside
  set_pc-kept here h out = elim (Bool-cases (a == c)) [
    | inl same ↦ here (ap pc (sym ((==_iff a c).0 same)) ∙ out)
    | inr other ↦ h (rw other out)
  ]

  set_pc-asked : p ≢ outside → pc a ≢ outside → set_pc pc c p a ≢ outside
  set_pc-asked new h out = elim (Bool-cases (a == c)) [
    | inl same ↦ new (ground arith)
    | inr other ↦ h (ground arith)
  ]

set_pc-left : (pc : ℕ → Pc) (c a : ℕ) → set_pc pc c outside a ≢ outside → (a ≢ c) × (pc a ≢ outside)
set_pc-left pc c a h = (λ same. h (rw (==_of_eq a c same) refl), λ out. h (ground arith))

-- The kernel moves threads that do not wait for the lock.
pub kernel-Inv :
    (s : System) (k' : Kernel)
    → Inv s
    → ((t : ℕ) → occurs t (runnable k') + occurs t (items s.lock.queue) ≤ 1)
    → ((t : ℕ) → s.pc t ≡ acquiring → 0 < occurs t (items s.lock.queue) + occurs t (runnable k'))
    → Inv (record s { kernel = k' })
kernel-Inv s k' i once woken = record {
  counted = i.counted;
  once = once;
  waits = i.waits;
  woken = woken;
  busy = i.busy;
  single = i.single;
  owned = i.owned;
  unwanted = i.unwanted;
}

module _ (s : System) (i : Inv s) where
  abbrev pub cur : ℕ
  cur = s.kernel.current

  -- A thread that runs is not in the queue.
  cur_absent : occurs cur (items s.lock.queue) ≡ 0
  cur_absent = ground (arith, i.once cur)

  pub take_free :
      s.pc cur ≡ outside
      → s.lock.value ≡ false
      → Inv (record s { lock = record s.lock { value = true }; pc = set_pc s.pc cur inside })
  take_free out free = record {
    counted = i.counted;
    once = i.once;
    waits = λ t w. ground (arith, ap (λ xs. occurs t xs) (i.unwanted free));
    woken = λ t w. ground (arith, i.woken t);
    busy = λ _. (cur, (λ e. ground arith), cur_absent);
    single = λ a b oa _ ob _. mine a oa ∙ sym (mine b ob);
    owned = λ t o. refl;
    unwanted = λ h. cc;
  }
    where
      mine : (a : ℕ) → set_pc s.pc cur inside a ≢ outside → a ≡ cur
      mine a h = elim (Bool-cases (a == cur)) [
        | inl same ↦ (==_iff a cur).0 same
        | inr other ↦ cc (i.owned a (λ out. h (rw other out)), free)
      ]

  -- The thread goes to the end of the queue and sleeps.
  pub take_busy :
      (k' : Kernel)
      → s.pc cur ≡ outside
      → s.lock.value ≡ true
      → sleep halt 1 s.kernel ≡ some k'
      → Inv (record {
        lock = record s.lock { queue = append s.lock.queue cur };
        kernel = k';
        pc = set_pc s.pc cur acquiring;
      })
  take_busy k' out held slept = record {
    counted = append-IsCounted s.lock.queue cur i.counted;
    once = λ t. omega (arith, i.once t, occurs-sleep s.kernel k' t slept, joined t);
    waits = λ t w. ground (arith, i.waits t, joined t);
    woken = λ t w. ground (arith, i.woken t, joined t, occurs-sleep s.kernel k' t slept);
    busy = λ h.
        let (o, called, absent) = i.busy held in
        let other : o ≢ cur = λ e. called (ap s.pc e ∙ out) in
        (o, set_pc-asked s.pc cur o acquiring (λ e. cc) called, ground (arith, joined o, other));
    single = λ a b oa na ob nb.
        let (ca, qa) = before a oa na in let (cb, qb) = before b ob nb in i.single a b ca qa cb qb;
    owned = λ t o. held;
    unwanted = λ h. cc;
  }
    where
      joined :
          (t : ℕ)
          → occurs t (items (append s.lock.queue cur))
            ≡ occurs t (items s.lock.queue) + one_if t cur
      joined t = omega (
        arith,
        ap (λ xs. occurs t xs) (items-append s.lock.queue cur),
        occurs-append t (items s.lock.queue) (cur ∷ []),
      )

      before :
          (a : ℕ)
          → set_pc s.pc cur acquiring a ≢ outside
          → occurs a (items (append s.lock.queue cur)) ≡ 0
          → (s.pc a ≢ outside) × (occurs a (items s.lock.queue) ≡ 0)
      before a h na = (
        set_pc-other s.pc cur a acquiring (λ e. ground (arith, joined a, e)) h,
        omega (arith, joined a),
      )

  -- A thread that has been woken in `Acquire` returns from it.
  pub come_back : s.pc cur ≡ acquiring → Inv (record s { pc = set_pc s.pc cur inside })
  come_back called = record {
    counted = i.counted;
    once = i.once;
    waits = λ t w.
        ground (
          arith,
          i.waits t w,
          cur_absent,
          ap (λ v. occurs v (items s.lock.queue)) {x = t} {y = cur},
        );
    woken = λ t w. ground (arith, i.woken t);
    busy = λ h.
        let (o, active, absent) = i.busy h in
        (o, set_pc-asked s.pc cur o inside (λ e. cc) active, absent);
    single = λ a b oa na ob nb.
        i.single a b (set_pc-kept s.pc cur a inside asked oa) na
          (set_pc-kept s.pc cur b inside asked ob) nb;
    owned = λ t o. i.owned t (set_pc-kept s.pc cur t inside asked o);
    unwanted = i.unwanted;
  }
    where
      asked : s.pc cur ≢ outside
      asked e = cc (called, e)

  -- The lock goes to the first thread of the queue.
  pub give_handed :
      (t : ℕ) (rest : LinkedList ℕ)
      → s.pc cur ≡ inside
      → items s.lock.queue ≡ t ∷ items rest
      → IsCounted rest
      → Inv (record {
        lock = record s.lock { queue = rest };
        kernel = ready_to_run s.kernel t;
        pc = set_pc s.pc cur outside;
      })
  give_handed t rest own e c = record {
    counted = c;
    once = λ u. omega (arith, i.once u, left u, occurs-ready_to_run s.kernel t u);
    waits =
        λ u w. ground (arith, i.waits u, i.once u, left u, own, ap (λ v. s.pc v) {x = u} {y = cur});
    woken = λ u w. ground (arith, i.woken u, left u, occurs-ready_to_run s.kernel t u);
    busy = λ h. (
      t,
      (λ out. ground (arith, i.waits t, left t, left cur, cur_absent, out)),
      ground (arith, i.once t, left t),
    );
    single = λ a b oa na ob nb. heir a oa na ∙ sym (heir b ob nb);
    owned = λ u o. i.owned cur holds;
    unwanted = λ h. cc (i.owned cur holds, h);
  }
    where
      left : (u : ℕ) → occurs u (items s.lock.queue) ≡ one_if u t + occurs u (items rest)
      left u = ap (λ xs. occurs u xs) e

      holds : s.pc cur ≢ outside
      holds out = cc (own, out)

      heir : (a : ℕ) → set_pc s.pc cur outside a ≢ outside → occurs a (items rest) ≡ 0 → a ≡ t
      heir a h na = elim (Bool-cases (a == t)) [
        | inl same ↦ (==_iff a t).0 same
        | inr other ↦
            let (ne, called) = set_pc-left s.pc cur a h in
            absurd (ne (i.single a cur called (ground (arith, left a)) holds cur_absent))
      ]

  pub give_free :
      s.pc cur ≡ inside
      → items s.lock.queue ≡ []
      → Inv (record s { lock = record s.lock { value = false }; pc = set_pc s.pc cur outside })
  give_free own empty = record {
    counted = i.counted;
    once = i.once;
    waits = λ t w. ground (arith, ap (λ xs. occurs t xs) empty);
    woken = λ t w. ground (arith, i.woken t);
    busy = λ h. cc;
    single = λ a b oa na ob nb. absurd (nobody a oa);
    owned = λ t o. absurd (nobody t o);
    unwanted = λ h. empty;
  }
    where
      nobody : (a : ℕ) → set_pc s.pc cur outside a ≢ outside → ⊥
      nobody a h =
          let (ne, called) = set_pc-left s.pc cur a h in
          ne
            (i.single a cur called (ap (λ xs. occurs a xs) empty) (λ out. cc (own, out)) cur_absent)
