-- ===== src/Filesys/Directory.antt =====
-- filesys/directory.cc: the table from file names to the sectors of their headers. A name is the
-- list of the characters in front of its NUL, of which `strncmp` and `strncpy` see the first nine.
-- An index or a sector of -1 is `none`.
pub mod Names
pub mod Removal
use cmps.Prelude.{
  ℕ, zero, suc, ◌+◌, Bool, true, false, not, ◌&&◌, Option, none, some, List, [], ◌∷◌,
}
use cmps.Prelude.{◌==◌, if◌then◌else◌, ◌>>=◌, get_elem?, set, replicate}

abbrev pub file_name_max_len : ℕ
file_name_max_len = 9

abbrev pub FileName : Type 0
FileName = List ℕ

pub record DirectoryEntry : Type 0 where
  pub in_use : Bool
  pub sector : ℕ
  pub name : FileName

abbrev pub Directory : Type 0
Directory = List DirectoryEntry

-- `Directory::Directory`, whose loop sets one field of each of the entries that `new` gives.
pub new_directory : (ℕ → DirectoryEntry) → ℕ → Directory
new_directory table zero = []
new_directory table (suc n) =
    record (table 0) { in_use = false } ∷ new_directory (λ i. table (i + 1)) n

-- `!strncmp(a, b, n)`
unfoldable pub same_prefix : ℕ → FileName → FileName → Bool
same_prefix zero a b = true
same_prefix (suc n) [] [] = true
same_prefix (suc n) [] (_ ∷ _) = false
same_prefix (suc n) (_ ∷ _) [] = false
same_prefix (suc n) (x ∷ a) (y ∷ b) = x == y && same_prefix n a b

-- What `strncpy` leaves for `strncmp` to see.
unfoldable pub copy_prefix : ℕ → FileName → FileName
copy_prefix zero a = []
copy_prefix (suc n) [] = []
copy_prefix (suc n) (x ∷ a) = x ∷ copy_prefix n a

abbrev pub matches : DirectoryEntry → FileName → Bool
matches e name = e.in_use && same_prefix file_name_max_len e.name name

-- The loop of `FindIndex` over the rest of the table, which starts at index `i`.
unfoldable pub find_index_from : ℕ → Directory → FileName → Option ℕ
find_index_from i [] name = none
find_index_from i (e ∷ es) name =
    let rest = find_index_from (suc i) es name in if matches e name then some i else rest

unfoldable pub find_index : Directory → FileName → Option ℕ
unfolding find_index_from
find_index d name = find_index_from 0 d name

-- `Directory::Find`
unfoldable pub find_file : Directory → FileName → Option ℕ
unfolding find_index
find_file d name = do i ← find_index d name; e ← get_elem? d i; some e.sector

abbrev pub new_entry : FileName → ℕ → DirectoryEntry
new_entry name sector = record {
  in_use = true;
  sector = sector;
  name = copy_prefix file_name_max_len name;
}

-- The loop of `Add`: the first entry that is not in use.
unfoldable pub add_from : Directory → FileName → ℕ → Bool × Directory
add_from [] name sector = (false, [])
add_from (e ∷ es) name sector =
    let (added, es') = add_from es name sector in
    if not e.in_use then (true, new_entry name sector ∷ es) else (added, e ∷ es')

-- `Directory::Add`
unfoldable pub add_file : Directory → FileName → ℕ → Bool × Directory
unfolding add_from find_index
add_file d name sector = elim (find_index d name) [
  | some i ↦ (false, d)
  | none ↦ add_from d name sector
]

-- `Directory::Remove`
pub remove_file : Directory → FileName → Bool × Directory
unfolding find_index
remove_file d name = elim (find_index d name) [
  | none ↦ (false, d)
  | some i ↦ elim (get_elem? d i) [
    | none ↦ (true, d)
    | some e ↦ (true, set d i (record e { in_use = false }))
  ]
]
