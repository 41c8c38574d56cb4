-- ===== src/Userprog/Syscall/ActiveThreads.antt =====
-- userprog/exception.cc, `getID`: the search goes once round the list of active threads.
use cmps.Prelude.{
  ℕ, ◌<◌, ◌≡◌, ◌≢◌, ◌⊎◌, inl, inr, refl, sym, ap, ◌∙◌, arith, Option, none, some, List, [], ◌∷◌,
  ◌++◌, length, length-map, occurs, ◌==◌, if◌then◌else◌, Bool-cases, ==_iff,
}
use mathlib.Core.List.{append_assoc, append-nil}
use cmps.Threads.LinkedList.{LinkedList, ListElement, get_size, append, remove}
use cmps.Threads.LinkedList.Counted.{items, IsCounted, items-append, append-IsCounted, remove_cons}
use cmps.Userprog.Syscall.{rounds, get_id, get_id_loop}

-- The last of the threads with an identifier, or else `found`.
last_with : (ℕ → ℕ) → ℕ → List ℕ → Option ℕ → Option ℕ
last_with id to_get [] found = found
last_with id to_get (t ∷ ts) found =
    last_with id to_get ts (if id t == to_get then some t else found)

get_id_loop_lem :
    (id : ℕ → ℕ) (to_get : ℕ) (xs ys : List ℕ) (l : LinkedList ℕ) (found : Option ℕ)
    → items l ≡ xs ++ ys
    → IsCounted l
    → (l' : LinkedList ℕ) × (get_id_loop id to_get (length xs) l found
        ≡ some (last_with id to_get xs found, l'))
      × (items l' ≡ ys ++ xs)
      × IsCounted l'
unfolding get_id_loop last_with
get_id_loop_lem id to_get [] ys l found e c = (l, refl, e ∙ sym (append-nil ys), c)
get_id_loop_lem id to_get (x ∷ xs) ys l found e c =
    let (taken, left, counted) = remove_cons l x (xs ++ ys) e in
    let turned : items (append (remove l).1 x) ≡ xs ++ (ys ++ (x ∷ [])) =
      items-append (remove l).1 x ∙ ap (λ zs. zs ++ (x ∷ [])) left ∙ append_assoc xs ys (x ∷ []) in
    let (l', searched, round, c') =
      get_id_loop_lem id to_get xs (ys ++ (x ∷ [])) (append (remove l).1 x)
        (if id x == to_get then some x else found) turned
        (append-IsCounted (remove l).1 x (counted c)) in
    (l', rw (taken, get_id_loop, searched) refl, round ∙ append_assoc ys (x ∷ []) xs, c')

-- What a search for an identifier among threads gives.
pub data Search (id : ℕ → ℕ) (to_get : ℕ) (ts : List ℕ) (found : Option ℕ) : Type 0 where
  thread : (t : ℕ) → found ≡ some t → 0 < occurs t ts → id t ≡ to_get → Search id to_get ts found
  nobody : found ≡ none → ((t : ℕ) → 0 < occurs t ts → id t ≢ to_get) → Search id to_get ts found

LastWith : (ℕ → ℕ) → ℕ → List ℕ → Option ℕ → Option ℕ → Type 0
LastWith id to_get ts found r =
    ((t : ℕ) × (r ≡ some t) × (0 < occurs t ts) × (id t ≡ to_get))
    ⊎ ((r ≡ found) × ((t : ℕ) → 0 < occurs t ts → id t ≢ to_get))

LastWith-here :
    (id : ℕ → ℕ) (to_get x : ℕ) (ts : List ℕ) (found r : Option ℕ)
    → id x ≡ to_get
    → LastWith id to_get ts (some x) r
    → LastWith id to_get (x ∷ ts) found r
unfolding LastWith
LastWith-here id to_get x ts found r h (inl (t, e, o, i)) = inl (t, e, omega arith, i)
LastWith-here id to_get x ts found r h (inr (e, none_left)) = inl (x, e, ground arith, h)

LastWith-past :
    (id : ℕ → ℕ) (to_get x : ℕ) (ts : List ℕ) (found r : Option ℕ)
    → id x ≢ to_get
    → LastWith id to_get ts found r
    → LastWith id to_get (x ∷ ts) found r
unfolding LastWith
LastWith-past id to_get x ts found r h (inl (t, e, o, i)) = inl (t, e, omega arith, i)
LastWith-past id to_get x ts found r h (inr (e, none_left)) = inr (
  e,
  λ t o. elim (Bool-cases (t == x)) [
    | inl same ↦ λ i. h (ap id (sym ((==_iff t x).0 same)) ∙ i)
    | inr other ↦ none_left t (ground arith)
  ],
)

last_with-LastWith :
    (id : ℕ → ℕ) (to_get : ℕ) (ts : List ℕ) (found : Option ℕ)
    → LastWith id to_get ts found (last_with id to_get ts found)
unfolding last_with LastWith
last_with-LastWith id to_get [] found = inr (refl, λ t h. absurd (omega arith))
last_with-LastWith id to_get (x ∷ ts) found = elim (Bool-cases (id x == to_get)) [
  | inl here ↦ rw here (
      LastWith-here id to_get x ts found _ ((==_iff (id x) to_get).0 here)
        (last_with-LastWith id to_get ts (some x)))
  | inr there ↦ rw there (
      LastWith-past id to_get x ts found _ (λ e. absurd (ground arith))
        (last_with-LastWith id to_get ts found))
]

LastWith-Search :
    (id : ℕ → ℕ) (to_get : ℕ) (ts : List ℕ) (r : Option ℕ)
    → LastWith id to_get ts none r
    → Search id to_get ts r
unfolding LastWith
LastWith-Search id to_get ts r (inl (t, e, o, i)) = thread t e o i
LastWith-Search id to_get ts r (inr (e, none_left)) = nobody e none_left

-- On a counted list of active threads `getID` never follows NULL, gives a thread of the list that has
-- the identifier or, exactly if none has, NULL, and leaves the threads in the list in the same order.
pub get_id_lem :
    (id : ℕ → ℕ) (to_get : ℕ) (l : LinkedList ℕ)
    → IsCounted l
    → (found : Option ℕ) × (l' : LinkedList ℕ) × (get_id id to_get l ≡ some (found, l'))
      × Search id to_get (items l) found
      × (items l' ≡ items l)
      × IsCounted l'
unfolding get_id get_size
get_id_lem id to_get l c =
    let (l', searched, round, c') =
      get_id_loop_lem id to_get (items l) [] l none (sym (append-nil (items l))) c in
    (
      last_with id to_get (items l) none,
      l',
      ap (λ n. get_id_loop id to_get n l none) rounds_needed ∙ searched,
      LastWith-Search id to_get (items l) _ (last_with-LastWith id to_get (items l) none),
      round,
      c',
    )
  where
    rounds_needed : rounds l.size ≡ length (items l)
    rounds_needed = ap rounds c ∙ sym (length-map l.elements (λ e. ListElement.item e))
