-- ===== src/Threads/Philosophers/Safety.antt =====
-- threads/threadtest.cc, `PhiloBusy`: the dinner, step by step.
use cmps.Prelude.{
  ℕ, zero, suc, ◌+◌, ◌<◌, ◌≡◌, ◌⊎◌, inl, inr, refl, sym, ap, ◌∙◌, arith, Bool, true, false, ◌||◌,
  ltb, leb, ◌==◌, if◌then◌else◌, Bool-cases, ==_iff, ==_of_ne, ==_of_eq,
}
use cmps.Threads.Philosophers.{
  Place, arriving, seating, wants_left, wants_right, eating, thinking, gone, Table, new_table,
  right_of, times_to_loop, move_to, set_chop, put_down, serve, take_right, take_left, next_meal,
  sit, resume_at, resume, Reach, start, step,
}
use cmps.Threads.Philosophers.Hands.{in_hand, IsLaid, Moves-IsLaid}

new_table-IsLaid : (n meals : ℕ) → IsLaid n meals new_table
new_table-IsLaid n meals = record {
  taken = λ i c lt h. cc;
  one_hand = λ i k c lt_i lt_k h h'. cc;
  held = λ c h. cc;
  served = omega arith;
}

-- Of two chopsticks that go back, and another: `x` is whether a chopstick was free, `a` and `b` whether
-- it is one of the two.
put_taken :
    (a b x : Bool)
    → (if b then true else (if a then true else x)) ≡ false
    → (x ≡ false) × ((a || b) ≡ false)
put_taken true true x h = cc
put_taken true false x h = cc
put_taken false true x h = cc
put_taken false false x h = (h, refl)

put_others :
    (a b x : Bool)
    → x ≡ false
    → (a || b) ≡ false
    → (if b then true else (if a then true else x)) ≡ false
put_others true b x h free = cc
put_others false true x h free = cc
put_others false false x h free = h

-- Of a chopstick that is picked up, when `a` is whether it is in hand and `b` whether it is the one.
pick_held :
    (a b x : Bool)
    → (a ≡ true → x ≡ false)
    → (b ≡ true → x ≡ true)
    → (a || b) ≡ true
    → ((if b then false else x) ≡ false) × ((a ≡ true) ⊎ (x ≡ true))
pick_held true true x had free h = (refl, inl refl)
pick_held true false x had free h = (had refl, inl refl)
pick_held false true x had free h = (refl, inr (free refl))
pick_held false false x had free h = cc

pick_taken :
    (a b x : Bool)
    → (if b then false else x) ≡ false
    → ((a || b) ≡ true) ⊎ ((x ≡ false) × (a ≡ false))
pick_taken true b x h = inl refl
pick_taken false true x h = inl refl
pick_taken false false x h = inr (h, refl)

pick_others : (b x : Bool) → x ≡ false → (if b then false else x) ≡ false
pick_others true x h = refl
pick_others false x h = h

mine_or_not : (m : Bool) {x : Bool} → x ≡ false → (m ≡ true) ⊎ ((x ≡ false) × (m ≡ false))
mine_or_not true h = inl refl
mine_or_not false h = inr (h, refl)

-- The philosopher has nothing in hand.
abbrev IsIdle : ℕ → ℕ → Table → Type 0
IsIdle n i s = (c : ℕ) → in_hand n i (s.place i) c ≡ false

module _ (n meals i : ℕ) (lt : i < n) where
  -- A move to a place without chopsticks.
  idle-IsLaid :
      (s : Table) (p : Place)
      → IsIdle n i s
      → ((c : ℕ) → in_hand n i p c ≡ false)
      → IsLaid n meals s
      → IsLaid n meals (move_to s i p)
  idle-IsLaid s p idle none_held laid =
      Moves-IsLaid n meals s i lt laid (move_to s i p)
        (record {
          others = λ k ne. rw (==_of_ne i k (λ e. ne (sym e))) refl;
          picked = λ c. rw (==_of_eq i i refl) (λ h. cc (h, none_held c));
          left_taken = λ c h. inr (h, idle c);
          untouched = λ c h _. h;
        })
        laid.served

  put_down-IsLaid :
      (s : Table) (t u : ℕ)
      → s.place i ≡ eating t
      → IsLaid n meals s
      → IsLaid n meals (put_down n s i u)
  unfolding put_down
  put_down-IsLaid s t u here laid =
      Moves-IsLaid n meals s i lt laid (put_down n s i u)
        (record {
          others = λ k ne. rw (==_of_ne i k (λ e. ne (sym e))) refl;
          picked = λ c. rw (==_of_eq i i refl) (λ h. cc);
          left_taken = λ c h.
              let (taken, not_held) = put_taken (i == c) (right_of n i == c) (s.chops c) h in
              inr (taken, rw here not_held);
          untouched = λ c. rw here (put_others (i == c) (right_of n i == c) (s.chops c));
        })
        laid.served

  eating_on-IsLaid :
      (s : Table) (t u : ℕ)
      → s.place i ≡ eating t
      → IsLaid n meals s
      → IsLaid n meals (move_to s i (eating u))
  eating_on-IsLaid s t u here laid =
      Moves-IsLaid n meals s i lt laid (move_to s i (eating u))
        (record {
          others = λ k ne. rw (==_of_ne i k (λ e. ne (sym e))) refl;
          picked = λ c. rw (==_of_eq i i refl, here) (λ h. (held_before c h, inl h));
          left_taken = λ c.
              rw (==_of_eq i i refl, here) (λ h. mine_or_not ((i == c) || (right_of n i == c)) h);
          untouched = λ c h _. h;
        })
        laid.served
    where
      held_before : (c : ℕ) → ((i == c) || (right_of n i == c)) ≡ true → s.chops c ≡ false
      held_before c h = laid.taken i c lt (rw here h)

  serve-IsLaid :
      (s : Table) (t : ℕ)
      → s.place i ≡ eating t
      → IsLaid n meals s
      → IsLaid n meals (serve n meals s i t)
  unfolding serve
  serve-IsLaid s t here laid = elim (Bool-cases (leb meals s.philo_ate)) [
    | inl sold_out ↦ rw (serve, sold_out) (put_down-IsLaid s t t here laid)
    | inr left ↦
        rw (serve, left)
          (record {
            taken = laid.taken;
            one_hand = laid.one_hand;
            held = laid.held;
            served = ground arith;
          })
  ]

  take_right-IsLaid :
      (s : Table) (t : ℕ)
      → s.place i ≡ wants_right t
      → IsLaid n meals s
      → IsLaid n meals (take_right n meals s i t)
  unfolding take_right
  take_right-IsLaid s t here laid = elim (Bool-cases (s.chops (right_of n i))) [
    | inr busy ↦ rw (take_right, busy) laid
    | inl free ↦
        rw (take_right, free)
          (serve-IsLaid (picked_up s) t (rw (==_of_eq i i refl) refl) (
            Moves-IsLaid n meals s i lt laid (picked_up s)
              (record {
                others = λ k ne. rw (==_of_ne i k (λ e. ne (sym e))) refl;
                picked = λ c.
                    rw (==_of_eq i i refl, here)
                      (pick_held (i == c) (right_of n i == c) (s.chops c)
                        (λ mine. laid.taken i c lt (rw here mine))
                        (λ it. ap (λ d. s.chops d) (sym ((==_iff (right_of n i) c).0 it)) ∙ free));
                left_taken = λ c.
                    rw (==_of_eq i i refl, here)
                      (pick_taken (i == c) (right_of n i == c) (s.chops c));
                untouched = λ c. rw here (λ h _. pick_others (right_of n i == c) (s.chops c) h);
              })
              laid.served))
  ]
    where
      picked_up : Table → Table
      picked_up s = move_to (set_chop s (right_of n i) false) i (eating t)

  take_left-IsLaid :
      (s : Table) (t : ℕ)
      → IsIdle n i s
      → IsLaid n meals s
      → IsLaid n meals (take_left n meals s i t)
  unfolding take_left
  take_left-IsLaid s t idle laid = elim (Bool-cases (s.chops i)) [
    | inr busy ↦ rw (take_left, busy) (idle-IsLaid s (wants_left t) idle (λ c. refl) laid)
    | inl free ↦
        rw (take_left, free)
          (take_right-IsLaid (picked_up s) t (rw (==_of_eq i i refl) refl) (
            Moves-IsLaid n meals s i lt laid (picked_up s)
              (record {
                others = λ k ne. rw (==_of_ne i k (λ e. ne (sym e))) refl;
                picked = λ c.
                    rw (==_of_eq i i refl, idle c)
                      (pick_held false (i == c) (s.chops c) (λ h. cc)
                        (λ it. ap (λ d. s.chops d) (sym ((==_iff i c).0 it)) ∙ free));
                left_taken =
                    λ c. rw (==_of_eq i i refl, idle c) (pick_taken false (i == c) (s.chops c));
                untouched = λ c. λ h _. pick_others (i == c) (s.chops c) h;
              })
              laid.served))
  ]
    where
      picked_up : Table → Table
      picked_up s = move_to (set_chop s i false) i (wants_right t)

  next_meal-IsLaid :
      (s : Table) (t : ℕ)
      → IsIdle n i s
      → IsLaid n meals s
      → IsLaid n meals (next_meal n meals s i t)
  unfolding next_meal
  next_meal-IsLaid s t idle laid = elim (Bool-cases (ltb s.philo_ate meals)) [
    | inl more ↦ rw (next_meal, more) (take_left-IsLaid s t idle laid)
    | inr over ↦ rw (next_meal, over) (idle-IsLaid s gone idle (λ c. refl) laid)
  ]

  -- Counting the philosophers who sit leaves the table as it is laid.
  counted-IsLaid :
      (s : Table) (sat : ℕ) → IsLaid n meals s → IsLaid n meals (record s { philo_sat = sat })
  counted-IsLaid s sat laid = record {
    taken = laid.taken;
    one_hand = laid.one_hand;
    held = laid.held;
    served = laid.served;
  }

  sit-IsLaid :
      (s : Table) (r : ℕ) → IsIdle n i s → IsLaid n meals s → IsLaid n meals (sit n meals s i r)
  unfolding sit
  sit-IsLaid s r idle laid = elim (Bool-cases (ltb s.philo_sat n)) [
    | inl early ↦ rw (sit, early) (idle-IsLaid s seating idle (λ c. refl) laid)
    | inr all_here ↦ elim (Bool-cases (s.philo_sat == n)) [
      | inl first ↦
          rw (sit, all_here, first)
            (next_meal-IsLaid (record s { philo_sat = s.philo_sat + 1 }) (times_to_loop r) idle
              (counted-IsLaid s (s.philo_sat + 1) laid))
      | inr later ↦ rw (sit, all_here, later) (next_meal-IsLaid s (times_to_loop r) idle laid)
    ]
  ]

  resume_at-IsLaid :
      (s : Table) (r : ℕ) (p : Place)
      → s.place i ≡ p
      → IsLaid n meals s
      → IsLaid n meals (resume_at n meals s i r p)
  unfolding resume_at
  resume_at-IsLaid s r arriving here laid =
      sit-IsLaid (record s { philo_sat = s.philo_sat + 1 }) r (λ c. rw here refl)
        (counted-IsLaid s (s.philo_sat + 1) laid)
  resume_at-IsLaid s r seating here laid = sit-IsLaid s r (λ c. rw here refl) laid
  resume_at-IsLaid s r (wants_left t) here laid = take_left-IsLaid s t (λ c. rw here refl) laid
  resume_at-IsLaid s r (wants_right t) here laid = take_right-IsLaid s t here laid
  resume_at-IsLaid s r (eating zero) here laid = put_down-IsLaid s zero (times_to_loop r) here laid
  resume_at-IsLaid s r (eating (suc t)) here laid = eating_on-IsLaid s (suc t) t here laid
  resume_at-IsLaid s r (thinking zero) here laid =
      next_meal-IsLaid s (times_to_loop r) (λ c. rw here refl) laid
  resume_at-IsLaid s r (thinking (suc t)) here laid =
      idle-IsLaid s (thinking t) (λ c. rw here refl) (λ c. refl) laid
  resume_at-IsLaid s r gone here laid = laid

-- However the philosophers are scheduled and whatever `Random` returns: a chopstick that is in a hand is
-- marked as taken and in no other hand, so that neighbours never eat at once; every chopstick marked as
-- taken is in a hand; and no more meals are eaten than there are.
pub Reach-IsLaid : (n meals : ℕ) (s : Table) → Reach n meals s → IsLaid n meals s
unfolding resume
Reach-IsLaid n meals s start = new_table-IsLaid n meals
Reach-IsLaid n meals u (step {s} before i r lt) =
    resume_at-IsLaid n meals i lt s r (s.place i) refl (Reach-IsLaid n meals s before)
