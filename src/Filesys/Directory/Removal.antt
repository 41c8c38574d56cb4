-- ===== src/Filesys/Directory/Removal.antt =====
-- filesys/directory.cc: `Remove` undoes `Add`.
use cmps.Prelude.{
  ℕ, zero, suc, ◌≡◌, refl, sym, ap, ◌∙◌, Bool, true, false, Option, none, some, [], ◌∷◌, set,
  Option-cases, if◌then◌else◌, ◌>>=◌, get_elem?, Bool-cases, inl, inr, arith, ==_of_eq,
}
use cmps.Filesys.Directory.{
  FileName, Directory, DirectoryEntry, same_prefix, matches, find_index_from, find_index, find_file,
  add_from, add_file, remove_file,
}
use cmps.Filesys.Directory.Names.{
  find_first, find_file-first, sector_of, shifted_index, same_prefix-copy, absent_first,
}

-- The directory with the first entry of the name out of use.
without_first : Directory → FileName → Directory
without_first [] name = []
without_first (e ∷ es) name =
    let rest = without_first es name in
    if matches e name then (record e { in_use = false } ∷ es) else (e ∷ rest)

-- What `Remove` does at an index that was found.
taken_out : Option ℕ → Directory → Directory
taken_out none d = d
taken_out (some i) d = elim (get_elem? d i) [
  | none ↦ d
  | some e ↦ set d i (record e { in_use = false })
]

taken_out-suc :
    (r : Option ℕ) (e : DirectoryEntry) (es : Directory)
    → taken_out (r >>= λ k. some (suc k)) (e ∷ es) ≡ e ∷ taken_out r es
unfolding taken_out
taken_out-suc none e es = refl
taken_out-suc (some i) e es = elim (Option-cases (get_elem? es i)) [
  | inl past ↦ rw (past, taken_out) refl
  | inr (f, here) ↦ rw (here, taken_out) refl
]

taken_out-index :
    (d : Directory) (name : FileName)
    → taken_out (find_index_from 0 d name) d ≡ without_first d name
unfolding find_index_from without_first taken_out
taken_out-index [] name = refl
taken_out-index (e ∷ es) name = elim (Bool-cases (matches e name)) [
  | inl here ↦ rw here refl
  | inr there ↦ rw there (
      ap (λ r. taken_out r (e ∷ es)) (shifted_index 0 es name)
      ∙ taken_out-suc (find_index_from 0 es name) e es
      ∙ ap (λ xs. e ∷ xs) (taken_out-index es name))
]

remove_file-taken_out :
    (d : Directory) (name : FileName) → (remove_file d name).1 ≡ taken_out (find_index d name) d
unfolding remove_file taken_out
remove_file-taken_out d name = elim (Option-cases (find_index d name)) [
  | inl absent ↦ rw (absent, remove_file, taken_out) refl
  | inr (i, here) ↦ elim (Option-cases (get_elem? d i)) [
    | inl past ↦ rw (here, remove_file, taken_out, past) refl
    | inr (e, there) ↦ rw (here, remove_file, taken_out, there) refl
  ]
]

remove_file-without :
    (d : Directory) (name : FileName) → (remove_file d name).1 ≡ without_first d name
unfolding find_index
remove_file-without d name = remove_file-taken_out d name ∙ taken_out-index d name

pub same_prefix_self : (n : ℕ) (a : FileName) → same_prefix n a a ≡ true
unfolding same_prefix
same_prefix_self zero a = refl
same_prefix_self (suc n) [] = refl
same_prefix_self (suc n) (x ∷ a) = rw (==_of_eq x x refl) (same_prefix_self n a)

without_added :
    (es : Directory) (name : FileName) (sector : ℕ) (other : FileName)
    → find_first es name ≡ none
    → (add_from es name sector).0 ≡ true
    → find_first (without_first (add_from es name sector).1 name) other ≡ find_first es other
unfolding add_from find_first without_first
without_added [] name sector other absent added = cc
without_added (e ∷ es) name sector other absent added = elim (Bool-cases e.in_use) [
  | inl used ↦ elim (Bool-cases (same_prefix 9 e.name name)) [
    | inl same ↦ absurd (ground (arith, same))
    | inr different ↦
        rw (used, different)
          (ap (λ r. if same_prefix 9 e.name other then some (record e { in_use = true }) else r)
            (without_added es name sector other (ground arith) (ground arith)))
  ]
  | inr free ↦ rw (free, same_prefix-copy 9 name name, same_prefix_self 9 name) refl
]

-- When `Add` takes a name and `Remove` then removes it, `Find` finds every name as it did before.
pub find_file-remove_file :
    (d : Directory) (name : FileName) (sector : ℕ) (other : FileName)
    → (add_file d name sector).0 ≡ true
    → find_file (remove_file (add_file d name sector).1 name).1 other ≡ find_file d other
unfolding find_index add_file
find_file-remove_file d name sector other added = elim (Option-cases (find_index_from 0 d name)) [
  | inl absent ↦
      let taken : add_file d name sector ≡ add_from d name sector = rw (absent, add_file) refl in
      ap (λ (r : Bool × Directory). find_file (remove_file r.1 name).1 other) taken
      ∙ ap (λ c. find_file c other) (remove_file-without (add_from d name sector).1 name)
      ∙ find_file-first (without_first (add_from d name sector).1 name) other
      ∙ ap sector_of (
          without_added d name sector other (absent_first 0 d name absent)
            (ap (λ (r : Bool × Directory). r.0) (sym taken) ∙ added))
      ∙ sym (find_file-first d other)
  | inr (i, here) ↦ absurd (refused i here added)
]
  where
    refused : (i : ℕ) → find_index_from 0 d name ≡ some i → (add_file d name sector).0 ≡ true → ⊥
    refused i here = rw (here, add_file) (λ e. cc)
