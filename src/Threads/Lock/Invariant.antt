-- ===== src/Threads/Lock/Invariant.antt =====
-- threads/synch.cc, `Lock`: who waits, who owns, and what every step keeps.
use cmps.Prelude.{
  ℕ, ◌+◌, ◌≤◌, ◌<◌, ◌≡◌, ◌≢◌, refl, ap, ◌∙◌, true, false, Option, none, some, List, [], ◌∷◌, length,
  occurs, lt→ltb, List-cases, inl, inr, arith,
}
use cmps.Threads.LinkedList.{LinkedList, remove}
use cmps.Threads.LinkedList.Counted.{
  items, IsCounted, Removed, nothing, first, remove-Removed, ltb-get_size,
}
use cmps.Threads.Scheduler.{Kernel, ready_to_run}
use cmps.Threads.Scheduler.Places.{runnable}
use cmps.Threads.Lock.{Lock, release}
use cmps.Threads.Lock.System.{System, outside, acquiring, Released, handed, freed}

-- A thread owns the lock when it has called `Acquire`, has not called `Release`, and is not in the
-- queue: it is inside, or has been woken and is about to return from `Acquire`.
pub record Inv (s : System) : Type 0 where
  pub counted : IsCounted s.lock.queue
  pub once : (t : ℕ) → occurs t (runnable s.kernel) + occurs t (items s.lock.queue) ≤ 1
  pub waits : (t : ℕ) → 0 < occurs t (items s.lock.queue) → s.pc t ≡ acquiring
  pub woken :
      (t : ℕ)
      → s.pc t ≡ acquiring
      → 0 < occurs t (items s.lock.queue) + occurs t (runnable s.kernel)
  pub busy :
      s.lock.value ≡ true → (o : ℕ) × (s.pc o ≢ outside) × (occurs o (items s.lock.queue) ≡ 0)
  pub single :
      (i j : ℕ)
      → s.pc i ≢ outside
      → occurs i (items s.lock.queue) ≡ 0
      → s.pc j ≢ outside
      → occurs j (items s.lock.queue) ≡ 0
      → i ≡ j
  pub owned : (t : ℕ) → s.pc t ≢ outside → s.lock.value ≡ true
  pub unwanted : s.lock.value ≡ false → items s.lock.queue ≡ []

pub release-Released : (l : Lock) (k : Kernel) → IsCounted l.queue → Released l k (release l k)
unfolding release
release-Released l k c = rw (ltb-get_size 0 l.queue c) (elim (List-cases (items l.queue)) [
  | inl empty ↦ rw empty (freed empty refl)
  | inr (x, xs, e) ↦
      rw (e, lt→ltb 0 (length (x ∷ xs)) (omega arith))
        (from (remove l.queue) (remove-Removed l.queue) x xs e)
])
  where
    from :
        (r : Option ℕ × LinkedList ℕ)
        → Removed l.queue r
        → (x : ℕ) (xs : List ℕ) → items l.queue ≡ x ∷ xs
        → Released l k (record l { queue = r.1 }, elim r.0 [ none ↦ k | some t ↦ ready_to_run k t ])
    from (none, rest) (nothing e _ _) x xs h = cc
    from (none, rest) (first y e g _) x xs h = cc
    from (some t, rest) (nothing e g _) x xs h = cc
    from (some t, rest) (first y e g counted) x xs h =
        let same : y ≡ t = cc in handed t rest (e ∙ ap (λ z. z ∷ items rest) same) (counted c) refl
