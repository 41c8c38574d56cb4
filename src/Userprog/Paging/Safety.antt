-- ===== src/Userprog/Paging/Safety.antt =====
-- userprog/addrspace.cc: a page fault keeps the frames apart.
use cmps.Prelude.{
  ℕ, ◌+◌, ◌/◌, ◌<◌, ◌≡◌, ◌≢◌, ◌⊎◌, inl, inr, refl, sym, ap, ◌∙◌, arith, true, false, ◌&&◌, some,
}
use cmps.Prelude.{◌==◌, Bool-cases, lt→ltb, ==_of_ne, ==_of_eq}
use cmps.Userprog.BitMap.Bits.{is_set}
use cmps.Userprog.BitMap.Find.{clear_below}
use cmps.Prelude.{List, subst}
use cmps.Machine.State.{TranslationEntry, num_phys_pages}
use cmps.Userprog.Paging.{
  CoreMapEntry, PhysicalMemory, Replacement, replaces, update, update_table, choose_frame,
  core_entry, load_page, paging,
}
use cmps.Userprog.Paging.Frames.{frame_of_one, IsConsistent}
use cmps.Userprog.Paging.Choose.{IsConsistentBut, Chosen, choose}

module _ (num_pages : ℕ → ℕ) (m : PhysicalMemory) (s vpn frame thread : ℕ)
    (b : IsConsistentBut num_pages frame m) (inside : vpn < num_pages s) where
  abbrev new_core : ℕ → CoreMapEntry
  new_core =
      update m.core_map frame (core_entry (m.core_map frame) thread s vpn frame m.num_page_faults)

  abbrev new_tables : ℕ → ℕ → TranslationEntry
  new_tables =
      update_table m.page_table s vpn
        (record (m.page_table s vpn) { valid = true; physical_page = frame; virtual_page = vpn })

  module _ (t w : ℕ) (other : (s == t && vpn == w) ≡ false)
      (h : (new_tables t w).valid ≡ true) where
    kept_entry : new_tables t w ≡ m.page_table t w
    kept_entry = rw other refl

    was_valid : (m.page_table t w).valid ≡ true
    was_valid = ap (λ (e : TranslationEntry). e.valid) (sym kept_entry) ∙ h

    was_frame : (new_tables t w).physical_page ≡ (m.page_table t w).physical_page
    was_frame = ap (λ (e : TranslationEntry). e.physical_page) kept_entry

    was_core : new_core (new_tables t w).physical_page ≡ m.core_map (m.page_table t w).physical_page
    was_core =
        ap new_core was_frame
        ∙ rw (==_of_ne frame (m.page_table t w).physical_page (b.vacant t w was_valid)) refl

  module _ (t w : ℕ) (this : (s == t && vpn == w) ≡ true) where
    same_space : s ≡ t
    same_space = ground (arith, this)

    same_page : vpn ≡ w
    same_page = ground (arith, this)

    at_frame : (new_tables t w).physical_page ≡ frame
    at_frame = rw this refl

    at_core :
        new_core (new_tables t w).physical_page
        ≡ core_entry (m.core_map frame) thread s vpn frame m.num_page_faults
    at_core = ap new_core at_frame ∙ rw (==_of_eq frame frame refl) refl

  placed_core : (p : ℕ) → (p ≡ frame) ⊎ ((frame ≢ p) × (new_core p ≡ m.core_map p))
  placed_core p = elim (Bool-cases (frame == p)) [
    | inl same ↦ inl (ground (arith, same))
    | inr other ↦ inr ((λ e. absurd (ground (arith, e, other))), rw other refl)
  ]

  placed :
      (swap_file : List ℕ) (header_size : ℕ) (choice : Replacement)
      → IsConsistent num_pages (load_page swap_file header_size choice thread s vpn frame m)
  placed swap_file header_size choice = record {
    map_valid = b.map_valid;
    frames = b.frames;
    in_frame = λ t w h. elim (Bool-cases (s == t && vpn == w)) [
      | inl this ↦ omega (arith, at_frame t w this, b.frame_lt)
      | inr other ↦ omega (arith, was_frame t w other h, b.in_frame t w (was_valid t w other h))
    ];
    marked_frame = λ t w h. elim (Bool-cases (s == t && vpn == w)) [
      | inl this ↦ ap (λ p. is_set m.mem_map p) (at_frame t w this) ∙ b.frame_marked
      | inr other ↦
          ap (λ p. is_set m.mem_map p) (was_frame t w other h)
          ∙ b.marked_frame t w (was_valid t w other h)
    ];
    owner = λ t w h. elim (Bool-cases (s == t && vpn == w)) [
      | inl this ↦ ap (λ (e : CoreMapEntry). e.space) (at_core t w this) ∙ same_space t w this
      | inr other ↦
          ap (λ (e : CoreMapEntry). e.space) (was_core t w other h)
          ∙ b.owner t w (was_valid t w other h)
    ];
    owner_page = λ t w h. elim (Bool-cases (s == t && vpn == w)) [
      | inl this ↦
          ap (λ (e : CoreMapEntry). e.virt_page_num) (at_core t w this) ∙ same_page t w this
      | inr other ↦
          ap (λ (e : CoreMapEntry). e.virt_page_num) (was_core t w other h)
          ∙ b.owner_page t w (was_valid t w other h)
    ];
    itself = λ p lt busy. elim (placed_core p) [
      | inl here ↦ rw (==_of_eq frame p (sym here)) (sym here)
      | inr (ne, same) ↦ ap (λ (e : CoreMapEntry). e.phys_page_num) same ∙ b.itself p ne lt busy
    ];
    in_table = λ p lt busy. elim (placed_core p) [
      | inl here ↦ rw (==_of_eq frame p (sym here)) inside
      | inr (ne, same) ↦ omega (
        arith,
        b.in_table p ne lt busy,
        ap (λ (e : CoreMapEntry). e.virt_page_num) same,
        ap (λ (e : CoreMapEntry). num_pages e.space) same,
      )
    ];
  }

counted :
    (num_pages : ℕ → ℕ) (m : PhysicalMemory) (faults : ℕ)
    → IsConsistent num_pages m
    → IsConsistent num_pages (record m { num_page_faults = faults })
counted num_pages m faults c = record {
  map_valid = c.map_valid;
  frames = c.frames;
  in_frame = c.in_frame;
  marked_frame = c.marked_frame;
  owner = c.owner;
  owner_page = c.owner_page;
  itself = c.itself;
  in_table = c.in_table;
}

-- A page fault at an address of an address space, on a memory in which the free map, the core map and
-- the page tables agree, and in which a frame is free or pages are replaced: `Paging` succeeds under
-- every replacement, and they agree again; the page asked for is in memory; any other page that is in
-- memory was there before, in the same frame; and no two pages in memory share a frame.
pub paging-IsConsistent :
    (num_pages : ℕ → ℕ) (swap_files : ℕ → List ℕ) (header_size : ℕ) (choice : Replacement)
    (thread : ℕ) (m : PhysicalMemory) (space address : ℕ)
    → IsConsistent num_pages m
    → address / 256 < num_pages space
    → (0 < clear_below m.mem_map num_phys_pages) ⊎ (replaces choice ≡ true)
    → (m' : PhysicalMemory) × (paging num_pages swap_files header_size choice thread m space address
        ≡ some m')
      × IsConsistent num_pages m'
      × ((m'.page_table space (address / 256)).valid ≡ true)
      × ((t w : ℕ)
          → (space == t && address / 256 == w) ≡ false
          → (m'.page_table t w).valid ≡ true
          → m'.page_table t w ≡ m.page_table t w)
      × ((s v t w : ℕ)
          → (m'.page_table s v).valid ≡ true
          → (m'.page_table t w).valid ≡ true
          → (m'.page_table s v).physical_page ≡ (m'.page_table t w).physical_page
          → (s ≡ t) × (v ≡ w))
unfolding paging
paging-IsConsistent num_pages swap_files header_size choice thread m space address c inside able =
    let faults : ℕ = m.num_page_faults + 1 in
    let vpn : ℕ = address / 256 in
    let m0 : PhysicalMemory = record m { num_page_faults = faults } in
    let able' : (0 < clear_below m.mem_map m.mem_map.num_bits) ⊎ (replaces choice ≡ true) =
      subst (λ n. (0 < clear_below m.mem_map n) ⊎ (replaces choice ≡ true)) (sym c.frames) able in
    let h : Chosen num_pages m0 (choose_frame num_pages choice m0 (m.start_page space)) =
      choose num_pages m0 (counted num_pages m faults c) choice (m.start_page space) able' in
    let m' : PhysicalMemory =
      load_page (swap_files space) header_size choice thread space vpn h.frame h.after in
    let c' : IsConsistent num_pages m' =
      placed num_pages h.after space vpn h.frame thread h.but inside (swap_files space) header_size
        choice in
    (
      m',
      rw (h.result, lt→ltb _ _ inside) refl,
      c',
      rw (==_of_eq space space refl, ==_of_eq vpn vpn refl) refl,
      λ t w other valid.
          kept_entry num_pages h.after space vpn h.frame thread h.but inside t w other valid
          ∙ h.invalidated t w
              (was_valid num_pages h.after space vpn h.frame thread h.but inside t w other valid),
      λ s v t w hv hw. frame_of_one num_pages m' s v t w c' hv hw,
    )
