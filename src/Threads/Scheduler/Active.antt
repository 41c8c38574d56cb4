-- ===== src/Threads/Scheduler/Active.antt =====
-- threads/thread.cc: the loop of `Finish` takes the finished thread off `activeThreads`.
use cmps.Prelude.{
  ℕ, zero, suc, ◌+◌, ◌≤◌, ◌<◌, ◌≡◌, refl, sym, ap, ◌∙◌, true, false, not, Option, none, some, List,
  [], ◌∷◌, ◌++◌, length, length-append, lt→ltb, ltb→lt, List-cases, subst, ==_iff, occurs,
  occurs-append, ◌==◌, if◌then◌else◌, ltb, Bool-cases, inl, inr, arith,
}
use mathlib.Core.List.{append-nil, append_assoc}
use cmps.Threads.LinkedList.{LinkedList, append, remove}
use cmps.Threads.LinkedList.Counted.{
  items, IsCounted, items-append, append-IsCounted, Removed, nothing, first, remove-Removed,
  ltb-get_size,
}
use cmps.Threads.Scheduler.{visit_active, remove_active}

-- A round on a list with an element.
abbrev Visited : ℕ → ℕ → List ℕ → LinkedList ℕ → Type 0
Visited current x xs l = IsCounted l × (items l ≡ (if x == current then xs else xs ++ (x ∷ [])))

taken_first :
    (current x : ℕ) (l' : LinkedList ℕ)
    → IsCounted l'
    → Visited current x (items l') (if not (x == current) then append l' x else l')
taken_first current x l' c = elim (Bool-cases (x == current)) [
  | inl same ↦ rw same (c, refl)
  | inr other ↦ rw other (append-IsCounted l' x c, items-append l' x)
]

visited :
    (current x : ℕ) (xs : List ℕ) (l : LinkedList ℕ)
    → IsCounted l
    → items l ≡ x ∷ xs
    → Visited current x xs (visit_active current l)
unfolding visit_active
visited current x xs l c e = from (remove l) (remove-Removed l)
  where
    from :
        (r : Option ℕ × LinkedList ℕ)
        → Removed l r
        → Visited current x xs (elim r.0 [
          | none ↦ append r.1 0
          | some t ↦ if not (t == current) then append r.1 t else r.1
        ])
    from (none, l') (nothing h _ _) = cc
    from (none, l') (first y _ h _) = cc
    from (some y, l') (nothing _ h _) = cc
    from (some y, l') (first z h k counted) =
        let same : y ≡ x = cc in
        let tail : xs ≡ items l' = cc in rw (same, tail) (taken_first current x l' (counted c))

-- What the loop gives: each number as often as `count` says.
abbrev Gives : ℕ → ℕ → ℕ → LinkedList ℕ → (ℕ → ℕ) → Type 0
Gives fuel i current l count =
    (l' : LinkedList ℕ) × (remove_active fuel i current l ≡ some l')
    × IsCounted l'
    × ((t : ℕ) → occurs t (items l') ≡ count t)

-- The loop is over.
ends :
    (fuel i current : ℕ) (l : LinkedList ℕ)
    → IsCounted l
    → length (items l) ≤ i
    → Gives fuel i current l (λ t. occurs t (items l))
unfolding remove_active
ends zero i current l c done = (l, rw (ltb-get_size i l c, done_ltb) refl, c, λ t. refl)
  where
    done_ltb : ltb i (length (items l)) ≡ false
    done_ltb = ground arith
ends (suc fuel) i current l c done = (l, rw (ltb-get_size i l c, done_ltb) refl, c, λ t. refl)
  where
    done_ltb : ltb i (length (items l)) ≡ false
    done_ltb = ground arith

-- The loop goes on.
goes_on :
    (fuel i current : ℕ) (l : LinkedList ℕ) (count : ℕ → ℕ)
    → IsCounted l
    → i < length (items l)
    → Gives fuel (i + 1) current (visit_active current l) count
    → Gives (suc fuel) i current l count
unfolding remove_active
goes_on fuel i current l count c left (l', ran, c', counts) =
    (l', rw (ltb-get_size i l c, lt→ltb _ _ left) ran, c', counts)

recount :
    (fuel i current : ℕ) (l : LinkedList ℕ) {count count' : ℕ → ℕ}
    → ((t : ℕ) → count t ≡ count' t)
    → Gives fuel i current l count
    → Gives fuel i current l count'
recount fuel i current l same (l', ran, c', counts) = (l', ran, c', λ t. counts t ∙ same t)

-- A list and the list with its first element at the end.
record Turned (xs ys : List ℕ) : Type 0 where
  same_length : length ys ≡ length xs
  same_counts : (t : ℕ) → occurs t ys ≡ occurs t xs

Turned-turn : (x : ℕ) (xs : List ℕ) → Turned (x ∷ xs) (xs ++ (x ∷ []))
Turned-turn x xs = record {
  same_length = omega (arith, length-append xs (x ∷ []));
  same_counts = λ t. omega (arith, occurs-append t xs (x ∷ []));
}

visited_other :
    (current x : ℕ) (xs : List ℕ) (l : LinkedList ℕ)
    → IsCounted l
    → items l ≡ x ∷ xs
    → x == current ≡ false
    → IsCounted (visit_active current l) × (items (visit_active current l) ≡ xs ++ (x ∷ []))
visited_other current x xs l c e other =
    let (c', v) = visited current x xs l c e in
    (c', v ∙ ap (λ b. if b then xs else xs ++ (x ∷ [])) other)

not_current : (current x : ℕ) (xs : List ℕ) → occurs current (x ∷ xs) ≡ 0 → x == current ≡ false
not_current current x xs away = ground arith

-- Once the thread is gone, the loop only turns the list.
turns :
    (fuel i current : ℕ) (l : LinkedList ℕ)
    → IsCounted l
    → occurs current (items l) ≡ 0
    → length (items l) ≤ i + fuel
    → Gives fuel i current l (λ t. occurs t (items l))
turns zero i current l c away few = ends zero i current l c (omega arith)
turns (suc fuel) i current l c away few = elim (Bool-cases (ltb i (length (items l)))) [
  | inr over ↦ ends (suc fuel) i current l c (not_more over)
  | inl left ↦ elim (List-cases (items l)) [
    | inl empty ↦ ends (suc fuel) i current l c (omega (arith, ap (λ xs. length xs) empty))
    | inr (x, xs, e) ↦
        let other : x == current ≡ false =
          not_current current x xs (ap (λ ys. occurs current ys) (sym e) ∙ away) in
        let (c', v) = visited_other current x xs l c e other in
        let turn : Turned (items l) (items (visit_active current l)) =
          subst (λ ys. Turned ys (items (visit_active current l))) (sym e)
            (subst (λ ys. Turned (x ∷ xs) ys) (sym v) (Turned-turn x xs)) in
        recount (suc fuel) i current l turn.same_counts (
          goes_on fuel i current l (λ t. occurs t (items (visit_active current l))) c
            (ltb→lt _ _ left)
            (turns fuel (i + 1) current (visit_active current l) c'
              (turn.same_counts current ∙ away) (omega (arith, turn.same_length, few))))
  ]
]
  where
    not_more : ltb i (length (items l)) ≡ false → length (items l) ≤ i
    not_more h = ground arith

-- The count without `current`.
abbrev pub without : ℕ → List ℕ → ℕ → ℕ
without current xs t = if t == current then 0 else occurs t xs

without_absent :
    (current : ℕ) (xs : List ℕ) (t : ℕ) → occurs current xs ≡ 0 → occurs t xs ≡ without current xs t
without_absent current xs t gone = elim (Bool-cases (t == current)) [
  | inl same ↦ rw same (ap (λ k. occurs k xs) ((==_iff t current).0 same) ∙ gone)
  | inr other ↦ rw other refl
]

-- One more element that is `current` counts for nothing.
without_current :
    (current x : ℕ) (xs : List ℕ) (t : ℕ)
    → x == current ≡ true
    → without current xs t ≡ without current (x ∷ xs) t
without_current current x xs t here = ground arith

-- Before the thread is met: `us` is still to be visited, `vs` has been.
searches :
    (fuel current : ℕ) (us vs : List ℕ) (l : LinkedList ℕ)
    → IsCounted l
    → items l ≡ us ++ vs
    → occurs current vs ≡ 0
    → occurs current us ≤ 1
    → length us ≤ fuel
    → Gives fuel (length vs) current l (without current (us ++ vs))
searches fuel current [] vs l c e gone once few =
    recount fuel (length vs) current l
      (λ t. ap (λ xs. occurs t xs) e ∙ without_absent current vs t gone)
      (ends fuel (length vs) current l c (omega (arith, ap (λ xs. length xs) e)))
searches zero current (x ∷ us) vs l c e gone once few = elim few [ ]
searches (suc fuel) current (x ∷ us) vs l c e gone once few = elim (Bool-cases (x == current)) [
  | inl here ↦
      let (c', v') = visited current x (us ++ vs) l c e in
      let v : items (visit_active current l) ≡ us ++ vs =
        v' ∙ ap (λ b. if b then us ++ vs else (us ++ vs) ++ (x ∷ [])) here in
      let away : occurs current (us ++ vs) ≡ 0 = last_one here in
      recount (suc fuel) (length vs) current l
        (λ t.
          ap (λ xs. occurs t xs) v
          ∙ without_absent current (us ++ vs) t away
          ∙ without_current current x (us ++ vs) t here)
        (goes_on fuel (length vs) current l _ c some_left (
          turns fuel (length vs + 1) current (visit_active current l) c'
            (ap (λ xs. occurs current xs) v ∙ away)
            (omega (arith, few, ap (λ xs. length xs) v, length-append us vs))))
  | inr there ↦
      let (c', v') = visited_other current x (us ++ vs) l c e there in
      let v : items (visit_active current l) ≡ us ++ (vs ++ (x ∷ [])) =
        v' ∙ append_assoc us vs (x ∷ []) in
      recount (suc fuel) (length vs) current l
        (λ t. ap (λ n. if t == current then 0 else n) (moved t))
        (goes_on fuel (length vs) current l _ c some_left (
          subst
            (λ i.
              Gives fuel i current (visit_active current l)
                (without current (us ++ (vs ++ (x ∷ [])))))
            (length-append vs (x ∷ []))
            (searches fuel current us (vs ++ (x ∷ [])) (visit_active current l) c' v
              (not_gone there) (at_most there) (omega (arith, few)))))
]
  where
    some_left : length vs < length (items l)
    some_left = omega (arith, ap (λ xs. length xs) e, length-append us vs)

    last_one : x == current ≡ true → occurs current (us ++ vs) ≡ 0
    last_one here = ground (arith, occurs-append current us vs)

    moved : (t : ℕ) → occurs t (us ++ (vs ++ (x ∷ []))) ≡ occurs t (x ∷ (us ++ vs))
    moved t = omega (
      arith,
      occurs-append t us (vs ++ (x ∷ [])),
      occurs-append t vs (x ∷ []),
      occurs-append t us vs,
    )

    not_gone : x == current ≡ false → occurs current (vs ++ (x ∷ [])) ≡ 0
    not_gone there = ground (arith, occurs-append current vs (x ∷ []))

    at_most : x == current ≡ false → occurs current us ≤ 1
    at_most there = ground arith

-- When `size` counts the active threads and the current thread stands among them at most once, as
-- many rounds as there are threads are enough for the loop of `Finish` to end, although it asks
-- for the size anew in each round and the size goes down. The list it leaves is counted right again,
-- and holds every other thread as often as before and the current one no more.
pub remove_active_lem :
    (current : ℕ) (l : LinkedList ℕ)
    → IsCounted l
    → occurs current (items l) ≤ 1
    → (l' : LinkedList ℕ) × (remove_active (length (items l)) 0 current l ≡ some l')
      × IsCounted l'
      × ((t : ℕ) → occurs t (items l') ≡ (if t == current then 0 else occurs t (items l)))
remove_active_lem current l c once =
    recount (length (items l)) 0 current l
      (λ t. ap (λ xs. without current xs t) (append-nil (items l)))
      (searches (length (items l)) current (items l) [] l c (sym (append-nil (items l))) refl once
        (omega arith))
