-- ===== src/Filesys/Directory/Names.antt =====
-- filesys/directory.cc: what `Find` finds after `Add`.
use cmps.Prelude.{
  ℕ, zero, suc, ◌≡◌, refl, sym, ap, ◌∙◌, Bool, true, false, Option, none, some, [], ◌∷◌,
  if◌then◌else◌, ◌>>=◌, get_elem?, Bool-cases, Option-cases, inl, inr, arith,
}
use cmps.Filesys.Directory.{
  FileName, Directory, DirectoryEntry, same_prefix, copy_prefix, matches, find_index_from,
  find_index, find_file, add_from, add_file,
}

-- The first entry with the name.
unfoldable pub find_first : Directory → FileName → Option DirectoryEntry
find_first [] name = none
find_first (e ∷ es) name = let rest = find_first es name in if matches e name then some e else rest

abbrev pub sector_of : Option DirectoryEntry → Option ℕ
sector_of r = r >>= λ e. some e.sector

pub same_prefix-copy :
    (n : ℕ) (a b : FileName) → same_prefix n (copy_prefix n a) b ≡ same_prefix n a b
unfolding same_prefix copy_prefix
same_prefix-copy zero a b = refl
same_prefix-copy (suc n) [] [] = refl
same_prefix-copy (suc n) [] (y ∷ b) = refl
same_prefix-copy (suc n) (x ∷ a) [] = refl
same_prefix-copy (suc n) (x ∷ a) (y ∷ b) = rw (same_prefix-copy n a b)

-- The index found from `i` on, against the entry.
pub shifted_index :
    (i : ℕ) (es : Directory) (name : FileName)
    → find_index_from (suc i) es name ≡ (find_index_from i es name >>= λ k. some (suc k))
unfolding find_index_from
shifted_index i [] name = refl
shifted_index i (e ∷ es) name = elim (Bool-cases (matches e name)) [
  | inl here ↦ rw here refl
  | inr there ↦ rw there (shifted_index (suc i) es name)
]

pub find_file-first :
    (d : Directory) (name : FileName) → find_file d name ≡ sector_of (find_first d name)
unfolding find_file find_index find_index_from find_first
find_file-first [] name = refl
find_file-first (e ∷ es) name = elim (Bool-cases (matches e name)) [
  | inl here ↦ rw here refl
  | inr there ↦ rw there (
      ap (λ r. r >>= λ i. get_elem? (e ∷ es) i >>= λ f. some f.sector) (shifted_index 0 es name)
      ∙ behind (find_index_from 0 es name)
      ∙ find_file-first es name)
]
  where
    behind :
        (r : Option ℕ)
        → ((r >>= λ k. some (suc k)) >>= λ i. get_elem? (e ∷ es) i >>= λ f. some f.sector)
          ≡ (r >>= λ i. get_elem? es i >>= λ f. some f.sector)
    behind none = refl
    behind (some k) = refl

pub absent_first :
    (i : ℕ) (d : Directory) (name : FileName)
    → find_index_from i d name ≡ none
    → find_first d name ≡ none
unfolding find_index_from find_first
absent_first i [] name h = refl
absent_first i (e ∷ es) name h = ground (arith, absent_first (suc i) es name)

same_prefix-join :
    (n : ℕ) (a b c : FileName)
    → same_prefix n a c ≡ true
    → same_prefix n b c ≡ true
    → same_prefix n a b ≡ true
unfolding same_prefix
same_prefix-join zero a b c h k = refl
same_prefix-join (suc n) [] [] c h k = refl
same_prefix-join (suc n) [] (y ∷ b) [] h k = cc
same_prefix-join (suc n) [] (y ∷ b) (z ∷ c) h k = cc
same_prefix-join (suc n) (x ∷ a) [] [] h k = cc
same_prefix-join (suc n) (x ∷ a) [] (z ∷ c) h k = cc
same_prefix-join (suc n) (x ∷ a) (y ∷ b) [] h k = cc
same_prefix-join (suc n) (x ∷ a) (y ∷ b) (z ∷ c) h k = ground (arith, same_prefix-join n a b c)

add_from_lem :
    (es : Directory) (name : FileName) (sector : ℕ) (other : FileName)
    → find_first es name ≡ none
    → (add_from es name sector).0 ≡ true
    → sector_of (find_first (add_from es name sector).1 other)
      ≡ (if same_prefix 9 name other then some sector else sector_of (find_first es other))
unfolding add_from find_first
add_from_lem [] name sector other absent added = cc
add_from_lem (e ∷ es) name sector other absent added = elim (Bool-cases e.in_use) [
  | inl used ↦ elim (Bool-cases (same_prefix 9 e.name other)) [
    | inl found ↦ rw (used, found, other_name used found) refl
    | inr past ↦
        rw (used, past) (add_from_lem es name sector other (rest_absent used) (rest_added used))
  ]
  | inr free ↦ elim (Bool-cases (same_prefix 9 name other)) [
    | inl found ↦ rw (free, same_prefix-copy 9 name other, found) refl
    | inr past ↦ rw (free, same_prefix-copy 9 name other, past) refl
  ]
]
  where
    not_here : e.in_use ≡ true → same_prefix 9 e.name name ≡ false
    not_here used = ground arith

    rest_absent : e.in_use ≡ true → find_first es name ≡ none
    rest_absent used = ground arith

    rest_added : e.in_use ≡ true → (add_from es name sector).0 ≡ true
    rest_added used = ground arith

    other_name :
        e.in_use ≡ true → same_prefix 9 e.name other ≡ true → same_prefix 9 name other ≡ false
    other_name used found = elim (Bool-cases (same_prefix 9 name other)) [
      | inl same ↦
          let join = same_prefix-join 9 e.name name other found same in
          let past = not_here used in cc
      | inr different ↦ different
    ]

-- When `Add` takes a name, `Find` finds its sector under every name that agrees with it in the
-- first nine characters, and under every other name what it found before.
pub find_file-add_file :
    (d : Directory) (name : FileName) (sector : ℕ) (other : FileName)
    → (add_file d name sector).0 ≡ true
    → find_file (add_file d name sector).1 other
      ≡ (if same_prefix 9 name other then some sector else find_file d other)
unfolding add_file find_index
find_file-add_file d name sector other added = elim (Option-cases (find_index_from 0 d name)) [
  | inl absent ↦
      let taken : add_file d name sector ≡ add_from d name sector = rw (absent, add_file) refl in
      ap (λ (r : Bool × Directory). find_file r.1 other) taken
      ∙ find_file-first (add_from d name sector).1 other
      ∙ add_from_lem d name sector other (absent_first 0 d name absent)
          (ap (λ (r : Bool × Directory). r.0) (sym taken) ∙ added)
      ∙ ap (λ r. if same_prefix 9 name other then some sector else r)
          (sym (find_file-first d other))
  | inr (i, here) ↦ refused i here
]
  where
    refused :
        (i : ℕ)
        → find_index_from 0 d name ≡ some i
        → find_file (add_file d name sector).1 other
          ≡ (if same_prefix 9 name other then some sector else find_file d other)
    refused i here = ground arith
