-- ===== src/Threads/Philosophers/Deadlock.antt =====
-- threads/threadtest.cc, `PhiloBusy`: dinners that stop.
use cmps.Prelude.{
  ℕ, zero, suc, ◌%◌, ◌<◌, ◌≡◌, inl, inr, refl, sym, ap, arith, true, false, ltb, Bool-cases,
  ==_of_eq, subst, lt→ltb, not_leb_of_lt,
}
use cmps.Threads.Philosophers.{
  seating, wants_left, wants_right, eating, thinking, gone, Table, new_table, right_of, move_to,
  set_chop, put_down, serve, take_right, take_left, next_meal, sit, resume_at, resume, Reach, start,
  step,
}
use cmps.Threads.Philosophers.Safety.{Reach-IsLaid}

-- Every philosopher waits for the chopstick on the right.
abbrev pub AllWait : ℕ → Table → Type 0
AllWait n s = (i : ℕ) → i < n → (t : ℕ) × (s.place i ≡ wants_right t)

right_of-lt : (n i : ℕ) → i < n → right_of n i < n
right_of-lt n i lt = ground arith

-- When all wait, no step of anyone changes anything.
pub AllWait-resume :
    (n meals : ℕ) (s : Table) (i r : ℕ)
    → Reach n meals s
    → AllWait n s
    → i < n
    → resume n meals s i r ≡ s
unfolding resume resume_at take_right
AllWait-resume n meals s i r reached waits lt =
    let (t, here) = waits i lt in
    let c : ℕ = right_of n i in
    let (u, there) = waits c (right_of-lt n i lt) in
    let busy : s.chops c ≡ false =
      (Reach-IsLaid n meals s reached).taken c c (right_of-lt n i lt)
        (rw there (==_of_eq c c refl)) in
    rw (here, busy) refl

-- Where the only philosopher can be.
data Lone (s : Table) : Type 0 where
  first : s ≡ new_table → Lone s
  left_it : s.place 0 ≡ gone → s.philo_ate ≡ 0 → Lone s
  waits : (t : ℕ) → s.place 0 ≡ wants_right t → s.chops 0 ≡ false → s.philo_ate ≡ 0 → Lone s

Lone-resume : (meals : ℕ) (s : Table) (r : ℕ) → Lone s → Lone (resume 1 meals s 0 r)
unfolding resume resume_at sit next_meal take_left take_right
Lone-resume meals s r (first e) =
    subst (λ u. Lone (resume 1 meals u 0 r)) (sym e)
      (elim (Bool-cases (ltb 0 meals)) [
        | inl more ↦ rw more (waits (r % 5) refl refl refl)
        | inr over ↦ rw over (left_it refl refl)
      ])
Lone-resume meals s r (left_it here none_eaten) = rw here (left_it here none_eaten)
Lone-resume meals s r (waits t here busy none_eaten) =
    rw (here, busy) (waits t here busy none_eaten)

Reach-Lone : (meals : ℕ) (s : Table) → Reach 1 meals s → Lone s
Reach-Lone meals s start = first refl
Reach-Lone meals u (step {s} before i r lt) =
    subst (λ k. Lone (resume 1 meals s k r)) zero_is
      (Lone-resume meals s r (Reach-Lone meals s before))
  where
    zero_is : 0 ≡ i
    zero_is = omega arith

-- With one philosopher, whose two chopsticks are the same one, no meal is ever eaten.
pub one_philosopher : (meals : ℕ) (s : Table) → Reach 1 meals s → s.philo_ate ≡ 0
one_philosopher meals s reached = elim (Reach-Lone meals s reached) [
  | first e ↦ ap (λ (u : Table). u.philo_ate) e
  | left_it _ e ↦ e
  | waits _ _ _ e ↦ e
]

-- The tables of a dinner of three after each of eight steps.
abbrev table2 : Table
table2 = move_to (move_to (record new_table { philo_sat = 2 }) 0 seating) 1 seating

abbrev table3 : Table
table3 =
    let one_chop = move_to (set_chop (record table2 { philo_sat = 4 }) 2 false) 2 (wants_right 0) in
    record (move_to (set_chop one_chop 0 false) 2 (eating 0)) { philo_ate = 1 }

abbrev table5 : Table
table5 = move_to (set_chop (move_to table3 0 (wants_left 0)) 1 false) 1 (wants_right 0)

abbrev table6 : Table
table6 = move_to (set_chop (set_chop table5 2 true) 0 true) 2 (thinking 0)

abbrev table8 : Table
table8 =
    move_to (set_chop (move_to (set_chop table6 0 false) 0 (wants_right 0)) 2 false) 2
      (wants_right 0)

module _ (meals : ℕ) (two : 1 < meals) where
  two_sit : Reach 3 meals table2
  unfolding resume resume_at sit
  two_sit = step (step start 0 0 (omega arith)) 1 0 (omega arith)

  last_eats : Reach 3 meals table3
  unfolding resume resume_at sit next_meal take_left take_right serve
  last_eats =
      subst (λ u. Reach 3 meals u)
        (rw (lt→ltb 0 meals (omega (arith, two)), not_leb_of_lt meals 0 (omega (arith, two))) refl)
        (step two_sit 2 0 (omega arith))

  one_wants : Reach 3 meals (move_to table3 0 (wants_left 0))
  unfolding resume resume_at sit next_meal take_left
  one_wants =
      subst (λ u. Reach 3 meals u) (rw (lt→ltb 1 meals two) refl) (step last_eats 0 0 (omega arith))

  others_want : Reach 3 meals table5
  unfolding resume resume_at sit next_meal take_left take_right
  others_want =
      subst (λ u. Reach 3 meals u) (rw (next_meal, lt→ltb 1 meals two) refl)
        (step one_wants 1 0 (omega arith))

  all_want : Reach 3 meals table8
  unfolding resume resume_at next_meal take_left take_right put_down
  all_want =
      subst (λ u. Reach 3 meals u) (rw (lt→ltb 1 meals two) refl)
        (step (step (step others_want 2 0 (omega arith)) 0 0 (omega arith)) 2 0 (omega arith))

-- Three philosophers can come, while a meal is left, to a table where each has one chopstick: one meal has
-- been eaten, and no step of any of them, ever, changes anything.
pub three_philosophers :
    (meals : ℕ)
    → 1 < meals
    → (s : Table) × Reach 3 meals s
      × (s.philo_ate ≡ 1)
      × ((i r : ℕ) → i < 3 → resume 3 meals s i r ≡ s)
three_philosophers meals two = (
  table8,
  all_want meals two,
  refl,
  λ i r lt. AllWait-resume 3 meals table8 i r (all_want meals two) waiting lt,
)
  where
    waiting : AllWait 3 table8
    waiting zero lt = (0, refl)
    waiting (suc zero) lt = (0, refl)
    waiting (suc (suc zero)) lt = (0, refl)
    waiting (suc (suc (suc i))) lt = absurd (omega (arith, lt))
