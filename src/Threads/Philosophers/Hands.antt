-- ===== src/Threads/Philosophers/Hands.antt =====
-- threads/threadtest.cc, `PhiloBusy`: whose hands the chopsticks are in.
use cmps.Prelude.{
  ℕ, ◌<◌, ◌≤◌, ◌≡◌, ◌≢◌, ◌⊎◌, inl, inr, sym, ap, ◌∙◌, Bool, true, false, ◌||◌, ◌==◌, Bool-cases,
  ==_iff, ==_of_eq, subst,
}
use cmps.Threads.Philosophers.{Place, wants_right, eating, Table, right_of}

-- Whether the philosopher `i` has the chopstick `c` in hand.
abbrev pub in_hand : ℕ → ℕ → Place → ℕ → Bool
in_hand n i (wants_right t) c = i == c
in_hand n i (eating t) c = (i == c) || (right_of n i == c)
in_hand n i _ c = false

-- A chopstick that is in a hand is taken, in one hand only, and one that is taken is in a hand.
pub record IsLaid (n meals : ℕ) (s : Table) : Type 0 where
  pub taken : (i c : ℕ) → i < n → in_hand n i (s.place i) c ≡ true → s.chops c ≡ false
  pub one_hand :
      (i k c : ℕ)
      → i < n
      → k < n
      → in_hand n i (s.place i) c ≡ true
      → in_hand n k (s.place k) c ≡ true
      → i ≡ k
  pub held : (c : ℕ) → s.chops c ≡ false → (i : ℕ) × (i < n) × (in_hand n i (s.place i) c ≡ true)
  pub served : s.philo_ate ≤ meals

-- What the philosopher `i` does to the table: the chopsticks in other hands stay there, and it picks up
-- only those that are free.
pub record Moves (n : ℕ) (s : Table) (i : ℕ) (u : Table) : Type 0 where
  pub others : (k : ℕ) → k ≢ i → u.place k ≡ s.place k
  pub picked :
      (c : ℕ)
      → in_hand n i (u.place i) c ≡ true
      → (u.chops c ≡ false) × ((in_hand n i (s.place i) c ≡ true) ⊎ (s.chops c ≡ true))
  pub left_taken :
      (c : ℕ)
      → u.chops c ≡ false
      → (in_hand n i (u.place i) c ≡ true)
        ⊎ ((s.chops c ≡ false) × (in_hand n i (s.place i) c ≡ false))
  pub untouched :
      (c : ℕ) → s.chops c ≡ false → in_hand n i (s.place i) c ≡ false → u.chops c ≡ false

module _ (n meals : ℕ) (s : Table) (i : ℕ) (lt : i < n) (laid : IsLaid n meals s) where
  -- A chopstick in another hand is not in that of `i`.
  not_mine :
      (k c : ℕ)
      → k < n
      → k ≢ i
      → in_hand n k (s.place k) c ≡ true
      → in_hand n i (s.place i) c ≡ false
  not_mine k c lt_k other h = elim (Bool-cases (in_hand n i (s.place i) c)) [
    | inl mine ↦ absurd (other (laid.one_hand k i c lt_k lt h mine))
    | inr free ↦ free
  ]

  module _ (u : Table) (m : Moves n s i u) where
    hand_before :
        (k c : ℕ) → k ≢ i → in_hand n k (u.place k) c ≡ true → in_hand n k (s.place k) c ≡ true
    hand_before k c other h = ap (λ p. in_hand n k p c) (sym (m.others k other)) ∙ h

    taken_after : (k c : ℕ) → k < n → in_hand n k (u.place k) c ≡ true → u.chops c ≡ false
    taken_after k c lt_k h = elim (Bool-cases (k == i)) [
      | inl it ↦
          (m.picked c (subst (λ x. in_hand n x (u.place x) c ≡ true) ((==_iff k i).0 it) h)).0
      | inr another ↦
          let ne : k ≢ i = λ e. cc (==_of_eq k i e, another) in
          let before : in_hand n k (s.place k) c ≡ true = hand_before k c ne h in
          m.untouched c (laid.taken k c lt_k before) (not_mine k c lt_k ne before)
    ]

    -- Another hand holds nothing that `i` holds now.
    apart :
        (k c : ℕ)
        → k < n
        → k ≢ i
        → in_hand n k (u.place k) c ≡ true
        → in_hand n i (u.place i) c ≡ true
        → ⊥
    apart k c lt_k ne h mine =
        let before : in_hand n k (s.place k) c ≡ true = hand_before k c ne h in
        elim (m.picked c mine).1 [
          | inl had ↦ ne (laid.one_hand k i c lt_k lt before had)
          | inr free ↦ cc (laid.taken k c lt_k before, free)
        ]

    one_hand_after :
        (j k c : ℕ)
        → j < n
        → k < n
        → in_hand n j (u.place j) c ≡ true
        → in_hand n k (u.place k) c ≡ true
        → j ≡ k
    one_hand_after j k c lt_j lt_k hj hk = elim (Bool-cases (j == i)) [
      | inl j_is ↦ elim (Bool-cases (k == i)) [
        | inl k_is ↦ (==_iff j i).0 j_is ∙ sym ((==_iff k i).0 k_is)
        | inr k_not ↦ absurd (
            apart k c lt_k (λ e. cc (==_of_eq k i e, k_not)) hk
              (subst (λ x. in_hand n x (u.place x) c ≡ true) ((==_iff j i).0 j_is) hj))
      ]
      | inr j_not ↦
          let ne : j ≢ i = λ e. cc (==_of_eq j i e, j_not) in
          elim (Bool-cases (k == i)) [
            | inl k_is ↦ absurd (
                apart j c lt_j ne hj
                  (subst (λ x. in_hand n x (u.place x) c ≡ true) ((==_iff k i).0 k_is) hk))
            | inr k_not ↦
                laid.one_hand j k c lt_j lt_k (hand_before j c ne hj)
                  (hand_before k c (λ e. cc (==_of_eq k i e, k_not)) hk)
          ]
    ]

    held_after :
        (c : ℕ) → u.chops c ≡ false → (k : ℕ) × (k < n) × (in_hand n k (u.place k) c ≡ true)
    held_after c gone_now = elim (m.left_taken c gone_now) [
      | inl mine ↦ (i, lt, mine)
      | inr (was_taken, not_by_me) ↦
          let (k, lt_k, h) = laid.held c was_taken in
          let ne : k ≢ i = λ e. cc (subst (λ x. in_hand n x (s.place x) c ≡ true) e h, not_by_me) in
          (k, lt_k, ap (λ p. in_hand n k p c) (m.others k ne) ∙ h)
    ]

    pub Moves-IsLaid : u.philo_ate ≤ meals → IsLaid n meals u
    Moves-IsLaid served = record {
      taken = taken_after;
      one_hand = one_hand_after;
      held = held_after;
      served = served;
    }
