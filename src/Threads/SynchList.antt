-- ===== src/Threads/SynchList.antt =====
-- threads/synchlist.cc, on the list that its lock protects. `Signal` of a condition does nothing in this
-- kernel and `Wait` is a failed ASSERT, `none`; `Acquire` and `Release` around each call are left out.
use cmps.Prelude.{Option, none, some, true, false}
use cmps.Threads.LinkedList.{LinkedList, is_empty}
use cmps.Threads.LinkedList

module _ {ℓ} {A : Type ℓ} where
  unfoldable pub append : LinkedList A → A → LinkedList A
  append list item = LinkedList.append list item

  -- The item, and the list without it.
  unfoldable pub remove : LinkedList A → Option (A × LinkedList A)
  remove list = elim (is_empty list) [
    | true ↦ none
    | false ↦
        (let (item, rest) = LinkedList.remove list in
          elim item [ none ↦ none | some x ↦ some (x, rest) ])
  ]
