-- ===== src/Threads/Philosophers/Tests.antt =====
-- threads/threadtest.cc: dinners of two and three philosophers.
use cmps.Prelude.{ℕ, ◌<◌, ◌≡◌, arith}
use cmps.Threads.Philosophers.{Table, new_table, resume, Reach, start, step}
use cmps.Threads.Philosophers.Hands.{IsLaid}
use cmps.Threads.Philosophers.Safety.{Reach-IsLaid}
use cmps.Threads.Philosophers.Deadlock.{three_philosophers}

-- Both of two philosophers have come, the second first.
abbrev both_here : Table
both_here = resume 2 3 (resume 2 3 new_table 1 8) 0 9

Reach-IsLaid_example : IsLaid 2 3 both_here
Reach-IsLaid_example =
    Reach-IsLaid 2 3 both_here (step (step start 1 8 (omega arith)) 0 9 (omega arith))

three_philosophers_example :
    (s : Table) × Reach 3 6 s × (s.philo_ate ≡ 1) × ((i r : ℕ) → i < 3 → resume 3 6 s i r ≡ s)
three_philosophers_example = three_philosophers 6 (omega arith)
