-- ===== src/Threads/LinkedList/Sorted.antt =====
-- threads/list.cc: `SortedInsert` and `SortedRemove` as a priority queue.
use cmps.Prelude.Int.{ℤ}
use mathlib.Core.Option.{some-injective}
use cmps.Prelude.{ℕ, suc, inl, inr, ◌≤◌, ◌≡◌, refl, ap, subst, true, false, some, arith}
use cmps.Prelude.{
  List, [], ◌∷◌, ◌++◌, ltb, leb, if◌then◌else◌, Bool-cases, ltb→lt, leb-not_ltb, leb_of_not_ltb,
}
use cmps.Threads.LinkedList.{
  LinkedList, ListElement, element, insert_by_key, sorted_insert, sorted_remove,
}

module _ {ℓ} {A : Type ℓ} where
  -- Every element has a key of at least `k`.
  abbrev pub AllFrom : ℕ → List (ListElement A) → Type 0
  AllFrom k [] = Unit
  AllFrom k (x ∷ xs) = (k ≤ x.key) × AllFrom k xs

  abbrev pub IsSorted : List (ListElement A) → Type 0
  IsSorted [] = Unit
  IsSorted (x ∷ xs) = AllFrom x.key xs × IsSorted xs

  -- The elements with keys up to `k`, and those beyond, each in the order of the list.
  unfoldable pub up_to : ℕ → List (ListElement A) → List (ListElement A)
  up_to k [] = []
  up_to k (x ∷ xs) = if leb x.key k then x ∷ up_to k xs else up_to k xs

  pub beyond : ℕ → List (ListElement A) → List (ListElement A)
  beyond k [] = []
  beyond k (x ∷ xs) = if leb x.key k then beyond k xs else x ∷ beyond k xs

  AllFrom-trans : (j k : ℕ) (xs : List (ListElement A)) → j ≤ k → AllFrom k xs → AllFrom j xs
  AllFrom-trans j k [] h a = tt
  AllFrom-trans j k (x ∷ xs) h a = (omega arith, AllFrom-trans j k xs h a.1)

  insert-AllFrom :
      (k : ℕ) (e : ListElement A) (xs : List (ListElement A))
      → k ≤ e.key
      → AllFrom k xs
      → AllFrom k (insert_by_key e xs)
  unfolding insert_by_key
  insert-AllFrom k e [] h a = (h, tt)
  insert-AllFrom k e (x ∷ xs) h a = ground (arith, insert-AllFrom k e xs h a.1)

  insert-IsSorted :
      (e : ListElement A) (xs : List (ListElement A)) → IsSorted xs → IsSorted (insert_by_key e xs)
  unfolding insert_by_key
  insert-IsSorted e [] s = (tt, tt)
  insert-IsSorted e (x ∷ xs) s = elim (Bool-cases (ltb e.key x.key)) [
    | inl before ↦ rw before ((lt_le before, AllFrom-trans e.key x.key xs (lt_le before) s.0), s)
    | inr after ↦ rw after (insert-AllFrom x.key e xs (ge after) s.0, insert-IsSorted e xs s.1)
  ]
    where
      lt_le : ltb e.key x.key ≡ true → e.key ≤ x.key
      lt_le h = ground arith

      ge : ltb e.key x.key ≡ false → x.key ≤ e.key
      ge h = ground arith

  beyond_all :
      (k : ℕ) (xs : List (ListElement A)) {j : ℕ}
      → AllFrom j xs
      → suc k ≤ j
      → (up_to k xs ≡ []) × (beyond k xs ≡ xs)
  unfolding up_to beyond
  beyond_all k [] a h = (refl, refl)
  beyond_all k (x ∷ xs) a h = ground (arith, beyond_all k xs a.1 h)

  insert_by_key-eq :
      (e : ListElement A) (xs : List (ListElement A))
      → IsSorted xs
      → insert_by_key e xs ≡ up_to e.key xs ++ (e ∷ beyond e.key xs)
  unfolding insert_by_key up_to beyond
  insert_by_key-eq e [] s = refl
  insert_by_key-eq e (x ∷ xs) s = elim (Bool-cases (ltb e.key x.key)) [
    | inl before ↦
        let tail = beyond_all e.key xs {j = x.key} s.0 (ltb→lt _ _ before) in
        rw (before, leb-not_ltb _ _ before, tail.0, tail.1)
    | inr after ↦ rw (after, leb_of_not_ltb _ _ after) (ap (λ t. x ∷ t) (insert_by_key-eq e xs s.1))
  ]

  -- On a list sorted by key `SortedInsert` keeps it sorted, and puts the new item behind all the
  -- elements whose keys are not bigger than its own and in front of all the others, which keep
  -- their order.
  pub sorted_insert_lem :
      (l : LinkedList A) (x : A) (k : ℕ)
      → IsSorted l.elements
      → IsSorted (sorted_insert l x k).elements
        × ((sorted_insert l x k).elements
            ≡ up_to k l.elements ++ (element x k ∷ beyond k l.elements))
  unfolding sorted_insert
  sorted_insert_lem l x k s =
      (insert-IsSorted (element x k) l.elements s, insert_by_key-eq (element x k) l.elements s)

  up_to-insert_by_key :
      (t : ℕ) (e : ListElement A) (xs : List (ListElement A))
      → suc t ≤ e.key
      → up_to t (insert_by_key e xs) ≡ up_to t xs
  unfolding insert_by_key up_to
  up_to-insert_by_key t e [] h = ground arith
  up_to-insert_by_key t e (x ∷ xs) h = ground (arith, up_to-insert_by_key t e xs h)

  -- What comes later leaves the elements up to `t` alone.
  pub up_to-sorted_insert :
      (t : ℕ) (l : LinkedList A) (x : A) (k : ℕ)
      → suc t ≤ k
      → up_to t (sorted_insert l x k).elements ≡ up_to t l.elements
  unfolding sorted_insert
  up_to-sorted_insert t l x k h = up_to-insert_by_key t (element x k) l.elements h

  -- Nothing in front of the new key stays nothing.
  pub sorted_insert-AllFrom :
      (l : LinkedList A) (x : A) (k : ℕ)
      → AllFrom k l.elements
      → AllFrom k (sorted_insert l x k).elements
  unfolding sorted_insert
  sorted_insert-AllFrom l x k a = insert-AllFrom k (element x k) l.elements (omega arith) a

  remove_min :
      (es : List (ListElement A)) (n : ℤ) {e : ListElement A}
      → let l : LinkedList A = record { elements = es; size = n } in
        IsSorted es
        → (sorted_remove l).0 ≡ some e
        → AllFrom e.key (sorted_remove l).1.elements
          × IsSorted (sorted_remove l).1.elements
          × (es ≡ e ∷ (sorted_remove l).1.elements)
  unfolding sorted_remove
  remove_min [] n s h = cc
  remove_min (x ∷ es) n s h =
      subst (λ y. AllFrom (ListElement.key y) es × IsSorted es × (x ∷ es ≡ y ∷ es))
        (some-injective _ _ h) (s.0, s.1, refl)

  -- From a sorted list that is not empty `SortedRemove` takes an element whose key is no bigger
  -- than any left, and leaves the others sorted.
  pub sorted_remove-min :
      (l : LinkedList A) {e : ListElement A}
      → IsSorted l.elements
      → (sorted_remove l).0 ≡ some e
      → AllFrom e.key (sorted_remove l).1.elements
        × IsSorted (sorted_remove l).1.elements
        × (l.elements ≡ e ∷ (sorted_remove l).1.elements)
  unfolding sorted_remove
  sorted_remove-min l s h = remove_min l.elements l.size s h
