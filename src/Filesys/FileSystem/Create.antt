-- ===== src/Filesys/FileSystem/Create.antt =====
-- filesys/filesys.cc: a file that was created is found, opened and removed again.
use cmps.Prelude.{
  ℕ, ◌≤◌, ◌<◌, ◌≡◌, refl, arith, ap, ◌∙◌, true, false, none, some, [], ◌∷◌, length, if◌then◌else◌,
}
use cmps.Prelude.{==_of_ne, Bool-cases, Option-cases, inl, inr}
use cmps.Userprog.BitMap.{BitMap, minus_one, find, clear}
use cmps.Filesys.Directory.{remove_file}
use cmps.Filesys.Directory.Removal.{same_prefix_self, find_file-remove_file}
use cmps.Filesys.OpenFile.{file_size, file_length}
use cmps.Filesys.FileHeader.Release.{small_header, AllocatedSmall, allocated_small, released_same}
use cmps.Userprog.BitMap.Bits.{
  cleared, clear-eq, is_set-cleared, IsValid, is_set, marked, with_word-IsValid, is_set-marked,
}
use cmps.Userprog.BitMap.Find.{clear_below, clear_below-marked}
use cmps.Filesys.Directory.{
  Directory, FileName, find_file, find_index, add_from, add_file, same_prefix,
}
use cmps.Filesys.Directory.Names.{find_file-add_file}
use cmps.Filesys.FileHeader.{
  FileHeader, Disk, allocate, deallocate, max_file_size1, num_disk_sectors,
}
use cmps.Filesys.FileHeader.Allocation.{find-taken, sectors_for}
use cmps.Filesys.OpenFile.{OpenFile, open_at, fetch_from, write_back}
use cmps.Filesys.OpenFile.Layout.{fetch_from-write_back}
use cmps.Filesys.FileSystem.{FileSystem, create, open_named, remove_named}

-- Whether `Add` finds an entry does not depend on the sector.
add_from_same :
    (es : Directory) (name : FileName) (s t : ℕ) → (add_from es name s).0 ≡ (add_from es name t).0
unfolding add_from
add_from_same [] name s t = refl
add_from_same (e ∷ es) name s t = elim (Bool-cases e.in_use) [
  | inl used ↦ rw used (add_from_same es name s t)
  | inr free ↦ rw free refl
]

add_file_same :
    (d : Directory) (name : FileName) (s t : ℕ) → (add_file d name s).0 ≡ (add_file d name t).0
unfolding add_file
add_file_same d name s t = elim (Option-cases (find_index d name)) [
  | inl absent ↦ rw (absent, add_file) (add_from_same d name s t)
  | inr (i, here) ↦ rw (here, add_file) refl
]

find_file-addable :
    (d : Directory) (name : FileName) → (add_file d name 0).0 ≡ true → find_file d name ≡ none
unfolding add_file find_file
find_file-addable d name h = elim (Option-cases (find_index d name)) [
  | inl absent ↦ rw (absent, find_file) refl
  | inr (i, here) ↦ absurd (refused i here h)
]
  where
    refused : (i : ℕ) → find_index d name ≡ some i → (add_file d name 0).0 ≡ true → ⊥
    refused i here = rw (here, add_file) (λ e. cc)

-- What `Create` needs to succeed on a file with direct blocks: room on the disk for its sectors and
-- its header, and an entry of the directory for a name that is not there yet.
pub record HasRoom (new_header : FileHeader) (fs : FileSystem) (name : FileName) (size : ℕ)
    : Type 0 where
  pub valid : IsValid fs.free_map
  pub on_disk : fs.free_map.num_bits ≤ num_disk_sectors
  pub header_size : length new_header.data_sectors ≡ 62
  pub direct : size ≤ max_file_size1
  pub sectors_left : sectors_for size < clear_below fs.free_map fs.free_map.num_bits
  pub entry_left : (add_file fs.directory name 0).0 ≡ true

-- What a file that was created is, and what it is to remove it again.
pub record Created (new_header : FileHeader) (fs : FileSystem) (name : FileName) (size : ℕ)
    : Type 0 where
  pub after : FileSystem
  pub hdr : FileHeader
  pub sector : ℕ
  pub freed : BitMap
  pub created : create new_header fs name size ≡ some (true, after)
  pub size_of : hdr.num_bytes ≡ size
  pub names :
      (other : FileName)
      → find_file after.directory other
        ≡ (if same_prefix 9 name other then some sector else find_file fs.directory other)
  pub name_removed :
      (other : FileName)
      → find_file (remove_file after.directory name).1 other ≡ find_file fs.directory other
  pub header_there : fetch_from after.disk sector ≡ some hdr
  pub map_valid : IsValid freed
  pub deallocated :
      (hdr2 : FileHeader) × (m : BitMap) × (deallocate hdr after.disk after.free_map
        ≡ some (hdr2, m))
      × (clear m sector ≡ some freed)
  pub bits_back : (i : ℕ) → is_set freed i ≡ is_set fs.free_map i

module _ (new_header : FileHeader) (fs : FileSystem) (name : FileName) (size : ℕ)
    (h : HasRoom new_header fs name size) where
  added : (s : ℕ) → (add_file fs.directory name s).0 ≡ true
  added s = add_file_same fs.directory name s 0 ∙ h.entry_left

  create-eq :
      (s : ℕ) (map1 map2 : BitMap) (hdr : FileHeader) (d2 : Disk)
      → s < num_disk_sectors
      → find fs.free_map ≡ some (s, map1)
      → allocate new_header fs.disk map1 size ≡ some (true, hdr, fs.disk, map2)
      → write_back hdr fs.disk s ≡ some d2
      → create new_header fs name size
        ≡ some (
          true,
          record { directory = (add_file fs.directory name s).1; free_map = map2; disk = d2 },
        )
  unfolding create
  create-eq s map1 map2 hdr d2 lt found allocated written =
      rw
        (
          find_file-addable fs.directory name h.entry_left,
          create,
          found,
          added s,
          ==_of_ne s minus_one (omega arith),
          allocated,
          written,
        )
        refl

  make :
      (s : ℕ)
      → s < fs.free_map.num_bits
      → is_set fs.free_map s ≡ false
      → find fs.free_map ≡ some (s, marked fs.free_map s)
      → AllocatedSmall new_header fs.disk (marked fs.free_map s) size
      → Created new_header fs name size
  make s lt free found a = from (fetch_from-write_back hdr fs.disk s (omega (arith, h.on_disk)))
    where
      hdr : FileHeader
      hdr = small_header new_header size a.sectors

      lt' : s < a.freed_map.num_bits
      lt' = omega (arith, a.freed.bits, a.taken.bits)

      from :
          (d2 : Disk) × (write_back hdr fs.disk s ≡ some d2) × (fetch_from d2 s ≡ some hdr)
          → Created new_header fs name size
      from (d2, written, fetched) = record {
        after = record {
          directory = (add_file fs.directory name s).1;
          free_map = a.taken_map;
          disk = d2;
        };
        hdr = hdr;
        sector = s;
        freed = cleared a.freed_map s;
        created =
            create-eq s (marked fs.free_map s) a.taken_map hdr d2 (omega (arith, h.on_disk)) found
              a.allocated written;
        size_of = refl;
        names = λ other. find_file-add_file fs.directory name s other (added s);
        name_removed = λ other. find_file-remove_file fs.directory name s other (added s);
        header_there = fetched;
        map_valid = with_word-IsValid a.freed_map a.freed.valid s lt' _;
        deallocated =
            (a.emptied, a.freed_map, a.deallocated d2, clear-eq a.freed_map a.freed.valid s lt');
        bits_back = λ i. ground (
          arith,
          is_set-cleared a.freed_map a.freed.valid s lt' i,
          released_same (marked fs.free_map s) a.sectors a.taken_map a.taken a.freed i,
          is_set-marked fs.free_map h.valid s lt i,
          free,
          ap (λ k. is_set fs.free_map k) {x = s} {y = i},
        );
      }

  pub created_lem : Created new_header fs name size
  created_lem =
      let (s, lt, free, found) = find-taken fs.free_map h.valid (omega (arith, h.sectors_left)) in
      make s lt free found (
        allocated_small new_header fs.disk (marked fs.free_map s) size
          (with_word-IsValid fs.free_map h.valid s lt _) h.header_size h.direct
          (omega (
            arith,
            h.sectors_left,
            clear_below-marked fs.free_map h.valid s lt fs.free_map.num_bits lt free,
          )))

-- The file under its name.
found_at :
    (new_header : FileHeader) (fs : FileSystem) (name : FileName) (size : ℕ)
    (c : Created new_header fs name size)
    → find_file c.after.directory name ≡ some c.sector
found_at new_header fs name size c = c.names name ∙ rw (same_prefix_self 9 name) refl

-- With room on the disk and in the directory, and a name that is not taken, `Create` succeeds for a
-- file with direct blocks. `Open` then gives, under that name, a file of the size asked for, at
-- position 0, and every name that differs in its first nine characters means what it meant before.
pub open_named-create :
    (new_header : FileHeader) (fs : FileSystem) (name : FileName) (size : ℕ)
    → HasRoom new_header fs name size
    → (fs' : FileSystem) × (f : OpenFile) × (create new_header fs name size ≡ some (true, fs'))
      × (open_named fs' name ≡ some (some f))
      × (file_size f ≡ size)
      × (f.seek_position ≡ 0)
      × ((other : FileName)
          → same_prefix 9 name other ≡ false
          → find_file fs'.directory other ≡ find_file fs.directory other)
unfolding open_named open_at file_size file_length
open_named-create new_header fs name size h =
    let c : Created new_header fs name size = created_lem new_header fs name size h in
    (
      c.after,
      record { hdr = c.hdr; seek_position = 0 },
      c.created,
      rw (found_at new_header fs name size c, open_named, c.header_there) refl,
      c.size_of,
      refl,
      λ other different. c.names other ∙ rw different refl,
    )

-- With the same room, a file that was created can be removed: `Remove` succeeds, every bit of the free
-- map is as it was before the file was created, and so is what every name is found to mean.
pub remove_named-create :
    (new_header : FileHeader) (fs : FileSystem) (name : FileName) (size : ℕ)
    → HasRoom new_header fs name size
    → (fs1 fs2 : FileSystem) × (create new_header fs name size ≡ some (true, fs1))
      × (remove_named fs1 name ≡ some (true, fs2))
      × ((i : ℕ) → is_set fs2.free_map i ≡ is_set fs.free_map i)
      × ((other : FileName) → find_file fs2.directory other ≡ find_file fs.directory other)
unfolding remove_named
remove_named-create new_header fs name size h =
    let c : Created new_header fs name size = created_lem new_header fs name size h in
    let (hdr2, m, deallocated, cleared') = c.deallocated in
    (
      c.after,
      record c.after { directory = (remove_file c.after.directory name).1; free_map = c.freed },
      c.created,
      rw (found_at new_header fs name size c, remove_named, c.header_there, deallocated, cleared')
          refl,
      c.bits_back,
      c.name_removed,
    )

-- Whenever `Create` reports failure, for whatever reason, the directory and the free map are as they
-- were.
pub create_refused :
    (new_header : FileHeader) (fs : FileSystem) (name : FileName) (size : ℕ) (fs' : FileSystem)
    → create new_header fs name size ≡ some (false, fs')
    → (fs'.directory ≡ fs.directory) × (fs'.free_map ≡ fs.free_map)
unfolding create
create_refused new_header fs name size fs' e = ground arith
