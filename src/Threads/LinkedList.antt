-- ===== src/Threads/LinkedList.antt =====
-- threads/list.cc: the `List` class that holds ready threads, waiting threads, active threads and
-- pending interrupts. A list is the sequence of the elements from `first` to `last`, and the
-- field `size`, which is a signed integer that the operations count apart from the elements.
pub mod Sorted
pub mod Counted
use cmps.Prelude.{ℕ, ◌+◌, Bool, true, false, Option, none, some, List, [], ◌∷◌, ◌++◌, map}
use cmps.Prelude.{ltb, if◌then◌else◌}
use cmps.Prelude.Int.{ℤ, pos, negsuc, ◌+ℤ◌, ◌-ℤ◌}

-- `ListElement`, without `next`: the order of the sequence gives it. A key is a time in ticks, never
-- negative.
pub record ListElement {ℓ} (A : Type ℓ) : Type ℓ where
  pub item : A
  pub key : ℕ

pub record LinkedList {ℓ} (A : Type ℓ) : Type ℓ where
  pub elements : List (ListElement A)
  pub size : ℤ

module _ {ℓ} {A : Type ℓ} where
  abbrev pub element : A → ℕ → ListElement A
  element item key = record { item = item; key = key }

  -- `List::List`
  abbrev pub new_list : LinkedList A
  new_list = record { elements = []; size = pos 0 }

  unfoldable pub is_empty : LinkedList A → Bool
  is_empty l = elim l.elements [ [] ↦ true | _ ∷ _ ↦ false ]

  unfoldable pub get_size : LinkedList A → ℤ
  get_size l = l.size

  unfoldable pub append : LinkedList A → A → LinkedList A
  unfolding ◌+ℤ◌
  append l item = record { elements = l.elements ++ (element item 0 ∷ []); size = l.size +ℤ pos 1 }

  unfoldable pub prepend : LinkedList A → A → LinkedList A
  unfolding ◌+ℤ◌
  prepend l item = record { elements = element item 0 ∷ l.elements; size = l.size +ℤ pos 1 }

  -- The walk of `SortedInsert`: the new element goes in front of the first one with a bigger key.
  pub insert_by_key : ListElement A → List (ListElement A) → List (ListElement A)
  insert_by_key e [] = e ∷ []
  insert_by_key e (x ∷ xs) = if ltb e.key x.key then e ∷ x ∷ xs else x ∷ insert_by_key e xs

  -- `SortedInsert` leaves `size` as it is.
  pub sorted_insert : LinkedList A → A → ℕ → LinkedList A
  sorted_insert l item key = record l { elements = insert_by_key (element item key) l.elements }

  -- `SortedRemove`: the element taken off, with its key, or `none` for NULL. It leaves `size`.
  unfoldable pub sorted_remove : LinkedList A → Option (ListElement A) × LinkedList A
  sorted_remove l = elim l.elements [
    | [] ↦ (none, l)
    | e ∷ rest ↦ (some e, record l { elements = rest })
  ]

  -- `Remove` counts down before it knows whether the list holds anything.
  unfoldable pub remove : LinkedList A → Option A × LinkedList A
  unfolding sorted_remove ◌-ℤ◌
  remove l =
      let (taken, l') = sorted_remove (record l { size = l.size -ℤ pos 1 }) in
      (elim taken [ none ↦ none | some e ↦ some e.item ], l')

  mapcar_from {κ} : {S : Type κ} → (A → S → S) → List (ListElement A) → S → S
  mapcar_from func [] s = s
  mapcar_from func (e ∷ es) s = mapcar_from func es (func e.item s)

  -- `Mapcar` applies `func` to each item in order; here the calls act on a state.
  pub mapcar {κ} : {S : Type κ} → (A → S → S) → LinkedList A → S → S
  unfolding mapcar_from
  mapcar func l s = mapcar_from func l.elements s
