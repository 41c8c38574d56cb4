-- ===== src/Userprog/AddrSpace/Frames.antt =====
-- userprog/addrspace.cc: the destructor gives back the frames of the page list.
use cmps.Prelude.{
  ℕ, ◌<◌, ◌≡◌, ◌≢◌, ◌↔◌, subst, ==_of_ne, refl, sym, ap, ◌∙◌, arith, true, false, some, List, [],
  ◌∷◌, length, occurs, ltb, if◌then◌else◌,
}
use cmps.Userprog.BitMap.{BitMap}
use cmps.Userprog.BitMap.Bits.{
  IsValid, is_set, cleared, clear-eq, is_set-cleared, with_word-IsValid,
}
use cmps.Threads.LinkedList.{LinkedList, remove}
use cmps.Threads.LinkedList.Counted.{items, is_empty_nil, is_empty_cons, remove_cons}
use mathlib.Core.Option.{some-injective}
use cmps.Machine.State.{TranslationEntry}
use cmps.Prelude.{==_of_eq}
use cmps.Userprog.Paging.{PhysicalMemory, update}
use cmps.Userprog.Paging.Frames.{IsConsistent}
use cmps.Userprog.AddrSpace.{free_frames, delete_addr_space}

-- All the frames of a list are in the map.
abbrev pub AllBelow : ℕ → List ℕ → Type 0
AllBelow n [] = Unit
AllBelow n (p ∷ ps) = (p < n) × AllBelow n ps

-- The frames `ps` are free in `n`, and all else is as in `m`.
pub record Freed (m : BitMap) (ps : List ℕ) (n : BitMap) : Type 0 where
  pub valid : IsValid n
  pub bits : n.num_bits ≡ m.num_bits
  pub now_free : (i : ℕ) → is_set n i ≡ (if ltb 0 (occurs i ps) then false else is_set m i)

Freed-next :
    (m : BitMap) (v : IsValid m) (p : ℕ) (lt : p < m.num_bits) (ps : List ℕ) {n : BitMap}
    → Freed (cleared m p) ps n
    → Freed m (p ∷ ps) n
Freed-next m v p lt ps f = record {
  valid = f.valid;
  bits = f.bits;
  now_free = λ i. ground (arith, f.now_free i, is_set-cleared m v p lt i);
}

-- As many rounds as there are frames on the list are enough.
pub free_frames_lem :
    (ps : List ℕ) (l : LinkedList ℕ) (m : BitMap)
    → items l ≡ ps
    → IsValid m
    → AllBelow m.num_bits ps
    → (l' : LinkedList ℕ) × (m' : BitMap) × (free_frames (length ps) l m ≡ some (l', m'))
      × (items l' ≡ [])
      × Freed m ps m'
unfolding free_frames
free_frames_lem [] l m e v below =
    (l, m, rw (is_empty_nil l e) refl, e, record { valid = v; bits = refl; now_free = λ i. refl })
free_frames_lem (p ∷ ps) l m e v below =
    let (taken, left, _) = remove_cons l p ps e in
    let (l', m', freed, nothing_left, f) =
      free_frames_lem ps (remove l).1 (cleared m p) left (with_word-IsValid m v p below.0 _)
        below.1 in
    (
      l',
      m',
      rw (is_empty_cons l p ps e, free_frames, taken, clear-eq m v p below.0, freed) refl,
      nothing_left,
      Freed-next m v p below.0 ps f,
    )

-- What deleting leaves: the frames of the page list are free and no others, whoever uses them by
-- then, and no page of the address space is in memory.
pub record Deleted (m : PhysicalMemory) (space : ℕ) (m' : PhysicalMemory) : Type 0 where
  pub nothing_left : items (m'.my_page_list space) ≡ []
  pub freed : Freed m.mem_map (items (m.my_page_list space)) m'.mem_map
  pub unmapped : (v : ℕ) → (m'.page_table space v).valid ≡ false
  pub others_kept : (t v : ℕ) → t ≢ space → m'.page_table t v ≡ m.page_table t v
  pub core_map_kept : m'.core_map ≡ m.core_map

-- As many rounds as the page list is long are enough.
pub delete_addr_space_lem :
    (m : PhysicalMemory) (space : ℕ)
    → IsValid m.mem_map
    → AllBelow m.mem_map.num_bits (items (m.my_page_list space))
    → (m' : PhysicalMemory) × (delete_addr_space (length (items (m.my_page_list space))) m space
        ≡ some m')
      × Deleted m space m'
unfolding delete_addr_space
delete_addr_space_lem m space v below =
    let (pages, map1, freed, nothing_left, f) =
      free_frames_lem (items (m.my_page_list space)) (m.my_page_list space) m.mem_map refl v
        below in
    let deleted : ℕ → TranslationEntry = λ v. record (m.page_table space v) { valid = false } in
    (
      record m {
        mem_map = map1;
        my_page_list = update m.my_page_list space pages;
        page_table = update m.page_table space deleted;
      },
      rw freed refl,
      record {
        nothing_left = rw (==_of_eq space space refl) nothing_left;
        freed = f;
        unmapped = λ v. rw (==_of_eq space space refl) refl;
        others_kept = λ t v other. rw (==_of_ne space t (λ e. other (sym e))) refl;
        core_map_kept = refl;
      },
    )

-- No page of another address space is in a frame of the page list.
abbrev pub Undisturbed : PhysicalMemory → ℕ → Type 0
Undisturbed m space =
    (t w : ℕ)
    → t ≢ space
    → (m.page_table t w).valid ≡ true
    → occurs (m.page_table t w).physical_page (items (m.my_page_list space)) ≡ 0

module _ (num_pages : ℕ → ℕ) (m m' : PhysicalMemory) (space : ℕ) where
  -- A page that is in memory still is that of another address space, where it was.
  still :
      Deleted m space m'
      → (s v : ℕ) → (m'.page_table s v).valid ≡ true
      → (s ≢ space) × (m'.page_table s v ≡ m.page_table s v) × ((m.page_table s v).valid ≡ true)
  still d s v h =
      let other : s ≢ space = λ e. cc (ap (λ t. (m'.page_table t v).valid) e ∙ d.unmapped v, h) in
      let same = d.others_kept s v other in
      (other, same, ap (λ (e : TranslationEntry). e.valid) (sym same) ∙ h)

  IsConsistent-Deleted :
      IsConsistent num_pages m
      → Deleted m space m'
      → Undisturbed m space
      → IsConsistent num_pages m'
  IsConsistent-Deleted c d apart = record {
    map_valid = d.freed.valid;
    frames = d.freed.bits ∙ c.frames;
    in_frame = λ s v h. let (_, same, was) = still d s v h in rw same (c.in_frame s v was);
    marked_frame = λ s v h.
        let (other, same, was) = still d s v h in
        rw (same, d.freed.now_free (m.page_table s v).physical_page, apart s v other was)
          (c.marked_frame s v was);
    owner =
        λ s v h. let (_, same, was) = still d s v h in rw (same, d.core_map_kept) (c.owner s v was);
    owner_page = λ s v h.
        let (_, same, was) = still d s v h in rw (same, d.core_map_kept) (c.owner_page s v was);
    itself = λ p lt h. rw d.core_map_kept (c.itself p lt (was_set p h));
    in_table = λ p lt h. rw d.core_map_kept (c.in_table p lt (was_set p h));
  }
    where
      was_set : (p : ℕ) → is_set m'.mem_map p ≡ true → is_set m.mem_map p ≡ true
      was_set p h = ground (arith, d.freed.now_free p)

  Undisturbed-Deleted : Deleted m space m' → IsConsistent num_pages m' → Undisturbed m space
  Undisturbed-Deleted d c' t w other here =
      let frame : ℕ = (m.page_table t w).physical_page in
      let same : m'.page_table t w ≡ m.page_table t w = d.others_kept t w other in
      let busy : is_set m'.mem_map frame ≡ true =
        ap (λ (e : TranslationEntry). is_set m'.mem_map e.physical_page) (sym same)
        ∙ c'.marked_frame t w (ap (λ (e : TranslationEntry). e.valid) same ∙ here) in
      ground (arith, d.freed.now_free frame, busy)

-- On consistent tables, deleting an address space leaves the free map, the core map and the page
-- tables consistent exactly when no page of another address space is in a frame of its page list, as
-- one is that was brought in after that frame was taken away.
pub delete_addr_space-IsConsistent_iff :
    (num_pages : ℕ → ℕ) (m m' : PhysicalMemory) (space : ℕ)
    → IsConsistent num_pages m
    → AllBelow m.mem_map.num_bits (items (m.my_page_list space))
    → delete_addr_space (length (items (m.my_page_list space))) m space ≡ some m'
    → IsConsistent num_pages m' ↔ Undisturbed m space
delete_addr_space-IsConsistent_iff num_pages m m' space c below deleted =
    let (n, e, d) = delete_addr_space_lem m space c.map_valid below in
    let d' : Deleted m space m' =
      subst (λ k. Deleted m space k) (some-injective _ _ (sym e ∙ deleted)) d in
    (Undisturbed-Deleted num_pages m m' space d', IsConsistent-Deleted num_pages m m' space c d')
