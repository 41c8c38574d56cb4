-- ===== src/Threads/Philosophers.antt =====
-- threads/threadtest.cc, `PhiloBusy`: the dining philosophers, who poll for their chopsticks. A thread runs
-- from one `Yield` to the next without a switch, which is one step here; the steps come in any order, since
-- the timer can make a thread yield again. `r` is what `Random` returns in the step. Left out: the output.
pub mod Hands
pub mod Safety
pub mod Deadlock
mod Tests
use cmps.Prelude.{
  ℕ, zero, suc, ◌+◌, ◌%◌, ◌<◌, Bool, true, false, not, ltb, leb, ◌==◌, if◌then◌else◌,
}

-- Where a philosopher yields. `timesToLoop` is the number here, plus one before the first round of the
-- loop that uses it.
pub data Place : Type 0 where
  arriving : Place
  seating : Place
  wants_left : ℕ → Place
  wants_right : ℕ → Place
  eating : ℕ → Place
  thinking : ℕ → Place
  gone : Place

pub record Table : Type 0 where
  pub philo_sat : ℕ
  pub philo_ate : ℕ
  pub chops : ℕ → Bool
  pub place : ℕ → Place

-- The globals as `ThreadTest` leaves them, and the threads before they first run.
abbrev pub new_table : Table
new_table = record { philo_sat = 0; philo_ate = 0; chops = λ q. true; place = λ i. arriving }

abbrev pub right_of : ℕ → ℕ → ℕ
right_of num_philos ph_id = if leb num_philos (ph_id + 1) then 0 else ph_id + 1

abbrev pub times_to_loop : ℕ → ℕ
times_to_loop r = r % 5

abbrev pub move_to : Table → ℕ → Place → Table
move_to s i p = record s { place = λ k. if i == k then p else s.place k }

abbrev pub set_chop : Table → ℕ → Bool → Table
set_chop s c free = record s { chops = λ k. if c == k then free else s.chops k }

-- Both chopsticks go back, the left one first.
unfoldable pub put_down : ℕ → Table → ℕ → ℕ → Table
put_down n s i t = move_to (set_chop (set_chop s i true) (right_of n i) true) i (thinking t)

-- With both chopsticks in hand: a meal, if one is left.
unfoldable pub serve : ℕ → ℕ → Table → ℕ → ℕ → Table
unfolding put_down
serve n meals s i t =
    if leb meals s.philo_ate then put_down n s i t else record s { philo_ate = s.philo_ate + 1 }

-- `while(!chops[right])` and what follows, with the left chopstick in hand.
unfoldable pub take_right : ℕ → ℕ → Table → ℕ → ℕ → Table
unfolding serve
take_right n meals s i t =
    if not (s.chops (right_of n i))
    then s
    else serve n meals (move_to (set_chop s (right_of n i) false) i (eating t)) i t

-- `while(!chops[left])` and what follows.
unfoldable pub take_left : ℕ → ℕ → Table → ℕ → ℕ → Table
unfolding take_right
take_left n meals s i t =
    if not (s.chops i)
    then move_to s i (wants_left t)
    else take_right n meals (move_to (set_chop s i false) i (wants_right t)) i t

-- The test of the big loop.
unfoldable pub next_meal : ℕ → ℕ → Table → ℕ → ℕ → Table
unfolding take_left
next_meal n meals s i t =
    if not (ltb s.philo_ate meals) then move_to s i gone else take_left n meals s i t

-- `while(philoSat < numPhilos)` and what follows.
unfoldable pub sit : ℕ → ℕ → Table → ℕ → ℕ → Table
unfolding next_meal
sit n meals s i r =
    if ltb s.philo_sat n
    then move_to s i seating
    else (let s' = if s.philo_sat == n then record s { philo_sat = s.philo_sat + 1 } else s in
        next_meal n meals s' i (times_to_loop r))

-- The thread of philosopher `i` from where it yielded to its next `Yield`, or its end.
pub resume_at : ℕ → ℕ → Table → ℕ → ℕ → Place → Table
unfolding sit
resume_at n meals s i r arriving = sit n meals (record s { philo_sat = s.philo_sat + 1 }) i r
resume_at n meals s i r seating = sit n meals s i r
resume_at n meals s i r (wants_left t) = take_left n meals s i t
resume_at n meals s i r (wants_right t) = take_right n meals s i t
resume_at n meals s i r (eating zero) = put_down n s i (times_to_loop r)
resume_at n meals s i r (eating (suc t)) = move_to s i (eating t)
resume_at n meals s i r (thinking zero) = next_meal n meals s i (times_to_loop r)
resume_at n meals s i r (thinking (suc t)) = move_to s i (thinking t)
resume_at n meals s i r gone = s

pub resume : ℕ → ℕ → Table → ℕ → ℕ → Table
unfolding resume_at
resume n meals s i r = resume_at n meals s i r (s.place i)

-- The tables that a dinner of `n` philosophers comes to.
pub data Reach (n meals : ℕ) : Table → Type 0 where
  start : Reach n meals new_table
  step : {s : Table} → Reach n meals s → (i r : ℕ) → i < n → Reach n meals (resume n meals s i r)
