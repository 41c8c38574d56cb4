-- ===== src/Threads/LinkedList/Counted.antt =====
-- threads/list.cc: what the unsorted operations do to the items and to `size`.
use cmps.Prelude.{◌≡◌, refl, true, false, Option, none, some, arith, ◌⊎◌, inl, inr}
use cmps.Prelude.{List, [], ◌∷◌, ◌++◌, map, length, length-append, length-map, ltb, ℕ}
use cmps.Prelude.Int.{ℤ, ltb_ℤ, pos, negsuc, ◌+ℤ◌, ◌-ℤ◌}
use mathlib.Core.List.{map-append}
use cmps.Threads.LinkedList.{LinkedList, ListElement, element, get_size, is_empty, append}
use cmps.Threads.LinkedList.{remove}

module _ {ℓ} {A : Type ℓ} where
  abbrev pub items : LinkedList A → List A
  items l = map (λ e. ListElement.item e) l.elements

  abbrev pub IsCounted : LinkedList A → Type 0
  IsCounted l = l.size ≡ pos (length l.elements)

  pub items-append : (l : LinkedList A) (x : A) → items (append l x) ≡ items l ++ (x ∷ [])
  unfolding append
  items-append l x = map-append _ l.elements (element x 0 ∷ [])

  pub append-IsCounted : (l : LinkedList A) (x : A) → IsCounted l → IsCounted (append l x)
  unfolding append ◌+ℤ◌
  append-IsCounted l x c = ground (arith, length-append l.elements (element x 0 ∷ []))

  -- `Remove` takes an element and counts it, or takes none and counts all the same: then the list says
  -- that it has -1 elements, and 0 when it has one.
  abbrev pub RemoveCounts : LinkedList A → Type ℓ
  RemoveCounts l =
      ((is_empty l ≡ true)
        × ((remove l).0 ≡ none)
        × (is_empty (remove l).1 ≡ true)
        × (get_size (remove l).1 ≡ negsuc 0)
        × ((x : A) → get_size (append (remove l).1 x) ≡ pos 0))
      ⊎ ((is_empty l ≡ false)
          × ((x : A) × (items l ≡ x ∷ items (remove l).1) × ((remove l).0 ≡ some x))
          × IsCounted (remove l).1)

  remove_counts :
      (es : List (ListElement A)) (n : ℤ)
      → let l : LinkedList A = record { elements = es; size = n } in IsCounted l → RemoveCounts l
  unfolding remove is_empty append get_size ◌-ℤ◌ ◌+ℤ◌
  remove_counts [] n c = inl (refl, refl, refl, rw c refl, λ x. rw c refl)
  remove_counts (e ∷ es) n c = inr (refl, (e.item, refl, refl), ground arith)

  -- On a list whose `size` is the number of its elements: if the list is not empty, `Remove` returns
  -- the first item, leaves the others, and `size` is their number; if it is empty, `Remove` returns
  -- NULL and leaves an empty list of size -1, which has the size 0 once an item is appended to it.
  pub remove_lem : (l : LinkedList A) → IsCounted l → RemoveCounts l
  remove_lem l c = remove_counts l.elements l.size c

  -- What a call of `Remove` comes to.
  pub data Removed (l : LinkedList A) (r : Option A × LinkedList A) : Type ℓ where
    nothing : items l ≡ [] → r.0 ≡ none → items r.1 ≡ [] → Removed l r
    first :
        (x : A)
        → items l ≡ x ∷ items r.1
        → r.0 ≡ some x
        → (IsCounted l → IsCounted r.1)
        → Removed l r

  remove_cases :
      (es : List (ListElement A)) (n : ℤ)
      → let l : LinkedList A = record { elements = es; size = n } in Removed l (remove l)
  unfolding remove ◌-ℤ◌
  remove_cases [] n = nothing refl refl refl
  remove_cases (e ∷ es) n = first e.item refl refl (λ c. ground arith)

  pub remove-Removed : (l : LinkedList A) → Removed l (remove l)
  remove-Removed l = remove_cases l.elements l.size

  pub is_empty_nil : (l : LinkedList A) → items l ≡ [] → is_empty l ≡ true
  unfolding is_empty
  is_empty_nil l = by_elements l.elements
    where
      by_elements :
          (es : List (ListElement A))
          → map (λ e. ListElement.item e) es ≡ []
          → (elim es [ [] ↦ true | _ ∷ _ ↦ false ]) ≡ true
      by_elements [] h = refl
      by_elements (e ∷ es) h = cc

  pub is_empty_cons :
      (l : LinkedList A) (x : A) (xs : List A) → items l ≡ x ∷ xs → is_empty l ≡ false
  unfolding is_empty
  is_empty_cons l x xs = by_elements l.elements
    where
      by_elements :
          (es : List (ListElement A))
          → map (λ e. ListElement.item e) es ≡ x ∷ xs
          → (elim es [ [] ↦ true | _ ∷ _ ↦ false ]) ≡ false
      by_elements [] h = cc
      by_elements (e ∷ es) h = refl

  remove_elements :
      (es : List (ListElement A)) (n : ℤ) (x : A) (xs : List A)
      → let l : LinkedList A = record { elements = es; size = n } in
        items l ≡ x ∷ xs
        → ((remove l).0 ≡ some x)
          × (items (remove l).1 ≡ xs)
          × (IsCounted l → IsCounted (remove l).1)
  unfolding remove ◌-ℤ◌
  remove_elements [] n x xs h = cc
  remove_elements (e ∷ es) n x xs h = (cc, cc, λ c. ground arith)

  -- `Remove` on a list that is not empty.
  pub remove_cons :
      (l : LinkedList A) (x : A) (xs : List A)
      → items l ≡ x ∷ xs
      → ((remove l).0 ≡ some x) × (items (remove l).1 ≡ xs) × (IsCounted l → IsCounted (remove l).1)
  remove_cons l x xs h = remove_elements l.elements l.size x xs h

  -- A test of `getSize()` on a list whose `size` is right.
  pub ltb-get_size :
      (i : ℕ) (l : LinkedList A)
      → IsCounted l
      → ltb_ℤ (pos i) (get_size l) ≡ ltb i (length (items l))
  unfolding get_size
  ltb-get_size i l c = rw c (ground (arith, length-map l.elements (λ e. ListElement.item e)))
